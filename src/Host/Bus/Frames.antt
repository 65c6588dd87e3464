-- ===== src/Host/Bus/Frames.antt =====
-- Frames that arrive at the host's thread, with the right CRC or a wrong one.
use duino_bus.Base.{
  ℕ, ◌≡◌, ◌≢◌, ◌<◌, ◌≤◌, sym, ap, ◌∙◌, List, [], append-nil, false, done, length, arith,
  if◌then◌else◌, ◌==◌, IsByte, IsBytes, map_run, map_run-eq-done, Bool-cases, inl, inr,
}
use mathlib.Core.Path.{subst}
use duino_bus.Crc8.{Crc8}
use duino_bus.Encoder.Frame.{frame}
use duino_bus.Decoder.Frames.{crc_of, verdict}
use duino_bus.Host
use duino_bus.Host.{ErrorCode, Packet}
use duino_bus.Host.Decoder.{Decoder, State, init, feed}
use duino_bus.Host.Twins.{Agree, Sight}
use duino_bus.Host.Decodes.{stopped}
use duino_bus.Host.Reads.{host_frame, seen_there}

-- The decoder between two frames.
pub record IsIdle (h : Decoder) : Type 0 where
  pub at_idle : h.state ≡ State.idle
  pub clear : h.escape ≡ false
  pub command_byte : IsByte h.packet.cmd
  pub bytes : IsBytes h.packet.bytes
  pub few : length h.packet.bytes ≤ Host.max_data_len

-- A command, data and CRC of bytes that a packet of the host has room for.
pub record IsFrame (cmd : ℕ) (bytes : List ℕ) (c : ℕ) : Type 0 where
  pub command_byte : IsByte cmd
  pub all_bytes : IsBytes bytes
  pub crc_byte : IsByte c
  pub fits : length bytes < Host.max_data_len

-- What the decoder answers to a frame.
abbrev pub answer : Crc8 → ℕ → List ℕ → ℕ → ErrorCode
answer crc8 cmd bytes c = if c == crc_of crc8 cmd bytes then ErrorCode.none else ErrorCode.crc

pub answer-ne-not_done :
    (crc8 : Crc8) (cmd : ℕ) (bytes : List ℕ) (c : ℕ) → answer crc8 cmd bytes c ≢ ErrorCode.not_done
answer-ne-not_done crc8 cmd bytes c = elim (Bool-cases (c == crc_of crc8 cmd bytes)) [
  | inl right ↦ rw right (λ e. cc)
  | inr wrong ↦ rw wrong (λ e. cc)
]

module _ (crc8 : Crc8) (crc_fn : List ℕ → ℕ → ℕ) (agree : Agree crc8 crc_fn) where
  abbrev held : ℕ → List ℕ → Sight
  held cmd bytes = record { cmd = cmd; bytes = bytes; state = State.idle; escape = false }

  seen_there-verdict :
      (cmd : ℕ) (bytes : List ℕ) (c : ℕ)
      → seen_there (
          verdict crc8 (record { command = cmd; capacity = Host.max_data_len; bytes = bytes }) c [])
        ≡ (answer crc8 cmd bytes c, held cmd bytes, [])
  seen_there-verdict cmd bytes c = elim (Bool-cases (c == crc_of crc8 cmd bytes)) [
    | inl right ↦ rw right
    | inr wrong ↦ rw wrong
  ]

  pub feed-any_crc :
      (h : Decoder) (cmd : ℕ) (bytes : List ℕ) (c : ℕ)
      → IsIdle h
      → IsFrame cmd bytes c
      → (h' : Decoder) × (feed crc_fn h (frame cmd bytes c)
          ≡ done (answer crc8 cmd bytes c, h', []))
        × (h'.packet.cmd ≡ cmd)
        × (h'.packet.bytes ≡ bytes)
        × IsIdle h'
  unfolding init
  feed-any_crc h cmd bytes c i f =
      let at_rest : h ≡ record (init h.packet) { debug = h.debug } = λ j. record {
        packet = h.packet;
        state = i.at_idle j;
        escape = i.clear j;
        debug = h.debug;
      } in
      let (r, feeds, same) = map_run-eq-done stopped (feed crc_fn h (frame cmd bytes c)) (
        ap (λ x. map_run stopped (feed crc_fn x (frame cmd bytes c))) at_rest
        ∙ ap (λ l. map_run stopped (feed crc_fn (record (init h.packet) { debug = h.debug }) l))
            (sym (append-nil (frame cmd bytes c)))
        ∙ host_frame crc8 crc_fn agree h.packet h.debug cmd bytes c [] i.command_byte i.bytes i.few
            f.command_byte f.all_bytes f.crc_byte f.fits tt
        ∙ ap done (seen_there-verdict cmd bytes c)) in
      let named : r.1.packet.cmd ≡ cmd = ap (λ x. x.1.cmd) same in
      let stored : r.1.packet.bytes ≡ bytes = ap (λ x. x.1.bytes) same in
      (
        r.1,
        feeds ∙ (λ j. done ((same j).0, r.1, (same j).2)),
        named,
        stored,
        record {
          at_idle = ap (λ x. x.1.state) same;
          clear = ap (λ x. x.1.escape) same;
          command_byte = subst IsByte (sym named) f.command_byte;
          bytes = subst IsBytes (sym stored) f.all_bytes;
          few = rw stored (omega arith);
        },
      )
