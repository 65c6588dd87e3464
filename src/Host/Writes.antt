-- ===== src/Host/Writes.antt =====
-- The encoders of the two sides, call by call.
use mathlib.Core.Option.{some}
use duino_bus.Base.{
  ℕ, zero, suc, ◌+◌, ◌<◌, ◌≡◌, refl, sym, ap, ◌∙◌, arith, List, [], ◌∷◌, Bool, ltb, ◌==◌, done,
  map_run, get_or, take, Bool-cases, inl, inr,
}
use duino_bus.Crc8.{Crc8}
use duino_bus.Packet as Duino
use duino_bus.Packet.{Error, get_data}
use duino_bus.Packet.Bounds.{IsValid}
use duino_bus.Packet.View.{length-get_data, get_data-IsBytes}
use duino_bus.Encoder
use duino_bus.Encoder.States.{IsReady, InRange}
use duino_bus.Host
use duino_bus.Host.{ErrorCode, Packet}
use duino_bus.Host.Encoder as HostEncoder
use duino_bus.Host.Twins.{Agree, code}

abbrev pub encoder_state : Encoder.State → HostEncoder.State
encoder_state Encoder.State.idle = HostEncoder.State.idle
encoder_state Encoder.State.command = HostEncoder.State.command
encoder_state Encoder.State.payload = HostEncoder.State.payload
encoder_state Encoder.State.escape = HostEncoder.State.escape
encoder_state (Encoder.State.other n) = HostEncoder.State.other n

abbrev pub host_packet : Duino.Packet → Packet
host_packet p = record { cmd = p.command; bytes = get_data p; crc = p.crc }

-- The host's encoder that stands where `e` does, on the packet `p`.
abbrev pub encoder_twin : Duino.Packet → Encoder.Encoder → HostEncoder.Encoder
encoder_twin p e = record {
  packet = host_packet p;
  state = encoder_state e.state;
  encode_idx = e.encode_idx;
  escape_char = e.escape_char;
  debug = e.debug;
}

abbrev pub reply_twin :
    Duino.Packet → Error × ℕ × Encoder.Encoder → ErrorCode × ℕ × HostEncoder.Encoder
reply_twin p (err, byte, e) = (code err, byte, encoder_twin p e)

get_or-take : (n : ℕ) (xs : List ℕ) (i : ℕ) → i < n → get_or (take n xs) i 0 ≡ get_or xs i 0
get_or-take zero xs i h = absurd (omega arith)
get_or-take (suc n) [] i h = refl
get_or-take (suc n) (x ∷ xs) zero h = refl
get_or-take (suc n) (x ∷ xs) (suc i) h = get_or-take n xs i (omega arith)

-- The bytes written one after the other.
abbrev pub write_all : {W : Type 0} → (ℕ → W → Bool × W) → List ℕ → W → W
write_all write_byte [] w = w
write_all write_byte (b ∷ bs) w = write_all write_byte bs (write_byte b w).1

module _ (crc8 : Crc8) (crc_fn : List ℕ → ℕ → ℕ) (agree : Agree crc8 crc_fn)
    (p : Duino.Packet) where
  send-twin :
      (e : Encoder.Encoder) (i b : ℕ)
      → HostEncoder.send (encoder_twin p e) i b ≡ reply_twin p (Encoder.send e i b)
  unfolding HostEncoder.send HostEncoder.handle_escape Encoder.send
  send-twin e i b = ground arith

  pub calc_crc-twin : IsValid p → Host.calc_crc crc_fn (host_packet p) ≡ Duino.calc_crc crc8 p
  unfolding Host.calc_crc Duino.calc_crc
  calc_crc-twin v = rw (
    agree.on_command p.command v.command_byte,
    agree.on_data (crc8.step 0 p.command) (get_data p) (crc8.step-IsByte 0 p.command)
        (get_data-IsBytes v),
  )

  encode_in-twin :
      (s : Encoder.State) (i c x : ℕ) (d : Bool)
      → IsValid p
      → InRange s i p.data_len
      → map_run (reply_twin p) (
          Encoder.encode_in crc8 s
            (record { packet = some p; state = s; encode_idx = i; escape_char = c; debug = d })
            x)
        ≡ done (
            HostEncoder.dispatch crc_fn (encoder_state s) (
              encoder_twin p (record {
                packet = some p;
                state = s;
                encode_idx = i;
                escape_char = c;
                debug = d;
              })))
  unfolding Encoder.encode_in HostEncoder.dispatch HostEncoder.encode_byte_idle
      HostEncoder.encode_byte_escape HostEncoder.encode_byte_command HostEncoder.encode_byte_data
  encode_in-twin Encoder.State.idle i c x d v h = refl
  encode_in-twin Encoder.State.command i c x d v h = ap done (sym (send-twin _ 0 p.command))
  encode_in-twin Encoder.State.payload i c x d v h = elim (Bool-cases (ltb i p.data_len)) [
    | inl inside ↦
        rw (length-get_data v, inside, next, get_or-take p.data_len p.storage i (ground arith))
          (ap done (sym (send-twin _ (i + 1) (get_or p.storage i 0))))
    | inr past ↦ elim (Bool-cases (i == p.data_len)) [
      | inl at_crc ↦
          rw (length-get_data v, past, at_crc, next, calc_crc-twin v)
            (ap done (sym (send-twin _ (i + 1) (Duino.calc_crc crc8 p))))
      | inr behind ↦ rw (length-get_data v, past, behind)
    ]
  ]
    where
      next : Duino.add_size i 1 ≡ i + 1
      next = ground arith
  encode_in-twin Encoder.State.escape i c x d v h = refl
  encode_in-twin (Encoder.State.other n) i c x d v h = absurd h

  -- Where the CRC functions agree, one call on encoders that stand alike, in a state of the enumeration
  -- with the index in range, gives the same answer and the same byte, and they stand alike behind it.
  pub encode_byte-twin :
      (e : Encoder.Encoder) (x : ℕ)
      → IsReady p e
      → map_run (reply_twin p) (Encoder.encode_byte crc8 e x)
        ≡ done (HostEncoder.encode_byte crc_fn (encoder_twin p e))
  unfolding Encoder.encode_byte HostEncoder.encode_byte
  encode_byte-twin e x h =
      ap (λ q. map_run (reply_twin p) (Encoder.encode_in crc8 e.state (record e { packet = q }) x))
        h.holds
      ∙ encode_in-twin e.state e.encode_idx e.escape_char x e.debug h.valid h.in_range
