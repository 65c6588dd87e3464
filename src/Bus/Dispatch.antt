-- ===== src/Bus/Dispatch.antt =====
-- `handlePacket` as a whole: which handler takes the packet, if any, decides all that it does.
use duino_bus.Base.{
  ◌≡◌, refl, ◌∙◌, List, [], ◌∷◌, ◌++◌, Bool, true, false, done, All, if◌then◌else◌, ◌==◌, ltb,
  ne→==_false,
}
use native.Mathlib.Decide.{ℕ_discrete}
use duino_bus.Crc8.{Crc8}
use duino_bus.Packet.{Packet, LogEvent, get_data, calc_crc}
use duino_bus.Packet.Bounds.{IsValid}
use duino_bus.PacketHandler.{PacketHandler, DebugState}
use duino_bus.Encoder
use duino_bus.Encoder.Frame.{frame}
use duino_bus.Decoder
use duino_bus.Bus.{Bus, Transport, cmd_packet, debug_state, with_debug, handle_packet}
use duino_bus.Bus.Write.{write_all, sent_log}
use duino_bus.Bus.Handle.{
  cleared, Declines, handle_packet-first, handle_packet-silent, handle_packet-unhandled,
}

-- The handlers decline the packet, with the response cleared.
abbrev pub Skips : Bus → List PacketHandler → Type 0
Skips bus hs = All (Declines (cmd_packet bus) (cleared bus.rsp_packet) (debug_state bus)) hs

-- Every handler declines the packet, or those in front of `h` do and `h` takes it, with a valid response
-- and with debug flags.
pub data Outcome (bus : Bus) : Type 0 where
  unhandled : Skips bus bus.handlers → Outcome bus
  taken :
      (pre : List PacketHandler) (h : PacketHandler) (post : List PacketHandler) (rsp : Packet)
      (flags : DebugState)
      → bus.handlers ≡ pre ++ (h ∷ post)
      → Skips bus pre
      → h.handle_packet (cmd_packet bus) (cleared bus.rsp_packet) (debug_state bus)
        ≡ done (true, rsp, flags)
      → IsValid rsp
      → Outcome bus

abbrev pub took : {bus : Bus} → Outcome bus → Bool
took (Outcome.unhandled skips) = false
took (Outcome.taken pre h post rsp flags e skips takes v) = true

-- The debug flags behind the call.
abbrev pub flags_of : {bus : Bus} → Outcome bus → DebugState
flags_of {bus} (Outcome.unhandled skips) = debug_state bus
flags_of (Outcome.taken pre h post rsp flags e skips takes v) = flags

module _ (crc8 : Crc8) {W : Type 0} (transport : Transport W) where
  -- What is sent: the frame of a response with a command, and one flush.
  abbrev pub sends : {bus : Bus} → Outcome bus → W → W
  sends (Outcome.unhandled skips) w = w
  sends (Outcome.taken pre h post rsp flags e skips takes v) w =
      if rsp.command == 0
      then w
      else transport.flush
          (write_all transport (frame rsp.command (get_data rsp) (calc_crc crc8 rsp)) w)

  -- What is logged.
  abbrev pub tells : {bus : Bus} → Outcome bus → List LogEvent
  tells {bus} (Outcome.unhandled skips) = LogEvent.unhandled_command (cmd_packet bus).command ∷ []
  tells (Outcome.taken pre h post rsp flags e skips takes v) =
      if rsp.command == 0
      then (if ltb 0 rsp.data_len then LogEvent.data_without_command ∷ [] else [])
      else sent_log flags.encoder (record rsp { crc = calc_crc crc8 rsp })

  -- `handlePacket` of a bus, over any transport. If every handler declines the command, it answers
  -- false, nothing is written, and the command is logged as unhandled. If a handler takes it, those in
  -- front of it declining, then whatever handlers come after it the answer is true; a valid response
  -- with a command is written as its frame and flushed; for one without a command nothing is written,
  -- and data in it is logged as an error. The bus has the debug flags that the handler leaves, and in the
  -- decoder nothing else changes.
  pub handle_packet-Outcome :
      (bus : Bus) (outcome : Outcome bus) (w : W)
      → (bus' : Bus) × (handle_packet crc8 transport bus w
          ≡ done (took outcome, bus', sends outcome w, tells outcome))
        × (debug_state bus' ≡ flags_of outcome)
        × (bus'.decoder ≡ Decoder.set_debug bus.decoder (flags_of outcome).decoder)
  unfolding Decoder.set_debug Encoder.set_debug
  handle_packet-Outcome bus (Outcome.unhandled skips) w = (
    record bus { rsp_packet = cleared bus.rsp_packet },
    handle_packet-unhandled crc8 transport bus w skips,
    refl,
    refl,
  )
  handle_packet-Outcome bus (Outcome.taken pre h post rsp flags e skips takes v) w =
      elim (ℕ_discrete rsp.command 0) [
        | yes none ↦ (
          record (with_debug bus flags) { rsp_packet = rsp },
          handle_packet-silent crc8 transport pre h post bus w rsp flags e skips takes none
              ∙ rw none,
          refl,
          refl,
        )
        | no some ↦
            let (bus', handles, same, kept) =
              handle_packet-first crc8 transport pre h post bus w rsp flags e skips takes v some in
            (bus', handles ∙ rw (ne→==_false rsp.command 0 some), same, kept)
      ]
