-- ===== src/Bus/Handle.antt =====
-- `handlePacket`, in terms of which handler takes the packet and what it responds.
use duino_bus.Base.{
  ◌≡◌, ◌≢◌, refl, sym, ap, ◌∙◌, arith, List, [], ◌∷◌, ◌++◌, append-nil, true, false, done, All,
  if◌then◌else◌, ne→==_false, ltb,
}
use duino_bus.Crc8.{Crc8}
use duino_bus.Packet.{Packet, LogEvent, set_command, set_data, get_data, calc_crc}
use duino_bus.Packet.Bounds.{IsValid}
use duino_bus.PacketHandler.{PacketHandler, DebugState}
use duino_bus.Encoder
use duino_bus.Decoder
use duino_bus.Encoder.Frame.{frame}
use duino_bus.Encoder.{State}
use duino_bus.Bus.{
  Bus, Transport, cmd_packet, debug_state, with_debug, respond, try_handlers, handle_packet,
}
use duino_bus.Bus.Write.{write_all, write_packet-frame, sent_log}

-- The response packet as the handlers find it.
abbrev pub cleared : Packet → Packet
cleared p = record p { command = 0; data_len = 0 }

-- The handler does not take the command, and changes nothing.
abbrev pub Declines : Packet → Packet → DebugState → PacketHandler → Type 0
Declines cmd rsp flags h = h.handle_packet cmd rsp flags ≡ done (false, rsp, flags)

module _ (crc8 : Crc8) {W : Type 0} (transport : Transport W) where
  try-skip :
      (pre hs : List PacketHandler) (bus : Bus) (w : W)
      → All (Declines (cmd_packet bus) bus.rsp_packet (debug_state bus)) pre
      → try_handlers crc8 transport (pre ++ hs) bus w ≡ try_handlers crc8 transport hs bus w
  unfolding try_handlers Decoder.set_debug Encoder.set_debug
  try-skip [] hs bus w h = refl
  try-skip (x ∷ pre) hs bus w h = rw h.0 (try-skip pre hs bus w h.1)

  try-takes :
      (h : PacketHandler) (hs : List PacketHandler) (bus : Bus) (w : W) (rsp : Packet)
      (flags : DebugState)
      → h.handle_packet (cmd_packet bus) bus.rsp_packet (debug_state bus) ≡ done (true, rsp, flags)
      → try_handlers crc8 transport (h ∷ hs) bus w
        ≡ respond crc8 transport (record (with_debug bus flags) { rsp_packet = rsp }) w
  unfolding try_handlers
  try-takes h hs bus w rsp flags takes = rw takes

  handle-takes :
      (pre : List PacketHandler) (h : PacketHandler) (post : List PacketHandler) (bus : Bus) (w : W)
      (rsp : Packet) (flags : DebugState)
      → bus.handlers ≡ pre ++ (h ∷ post)
      → All (Declines (cmd_packet bus) (cleared bus.rsp_packet) (debug_state bus)) pre
      → h.handle_packet (cmd_packet bus) (cleared bus.rsp_packet) (debug_state bus)
        ≡ done (true, rsp, flags)
      → handle_packet crc8 transport bus w
        ≡ respond crc8 transport (record (with_debug bus flags) { rsp_packet = rsp }) w
  unfolding handle_packet set_data set_command
  handle-takes pre h post bus w rsp flags hs declines takes =
      ap (λ l. try_handlers crc8 transport l (record bus { rsp_packet = cleared bus.rsp_packet }) w)
        hs
      ∙ try-skip pre (h ∷ post) (record bus { rsp_packet = cleared bus.rsp_packet }) w declines
      ∙ try-takes h post (record bus { rsp_packet = cleared bus.rsp_packet }) w rsp flags takes

  -- The handlers before `h` decline the command, and `h` takes it with the valid response `rsp`,
  -- which has a command. Then `handlePacket` answers true, whatever handlers come after `h`; the
  -- frame of `rsp` is written and flushed, and the bus has the debug flags that `h` leaves. In the
  -- decoder nothing else changes.
  pub handle_packet-first :
      (pre : List PacketHandler) (h : PacketHandler) (post : List PacketHandler) (bus : Bus) (w : W)
      (rsp : Packet) (flags : DebugState)
      → bus.handlers ≡ pre ++ (h ∷ post)
      → All (Declines (cmd_packet bus) (cleared bus.rsp_packet) (debug_state bus)) pre
      → h.handle_packet (cmd_packet bus) (cleared bus.rsp_packet) (debug_state bus)
        ≡ done (true, rsp, flags)
      → IsValid rsp
      → rsp.command ≢ 0
      → (bus' : Bus) × (handle_packet crc8 transport bus w
          ≡ done (
            true,
            bus',
            transport.flush
                (write_all transport (frame rsp.command (get_data rsp) (calc_crc crc8 rsp)) w),
            sent_log flags.encoder (record rsp { crc = calc_crc crc8 rsp }),
          ))
        × (debug_state bus' ≡ flags)
        × (bus'.decoder ≡ Decoder.set_debug bus.decoder flags.decoder)
  unfolding respond Decoder.set_debug Encoder.set_debug
  handle_packet-first pre h post bus w rsp flags hs declines takes v some_command =
      let (e', writes, at_idle, same) =
        write_packet-frame transport crc8 (with_debug bus flags).encoder rsp w v in
      (
        record (with_debug bus flags) {
          rsp_packet = record rsp { crc = calc_crc crc8 rsp };
          encoder = e';
        },
        handle-takes pre h post bus w rsp flags hs declines takes
            ∙ rw (ne→==_false rsp.command 0 some_command, writes),
        λ i. record { decoder = flags.decoder; encoder = same i },
        refl,
      )

  -- The handlers before `h` decline the command, and `h` takes it with a response `rsp` without a
  -- command. Then `handlePacket` answers true, whatever handlers come after `h`; nothing is
  -- written, and data in the response is logged as an error.
  pub handle_packet-silent :
      (pre : List PacketHandler) (h : PacketHandler) (post : List PacketHandler) (bus : Bus) (w : W)
      (rsp : Packet) (flags : DebugState)
      → bus.handlers ≡ pre ++ (h ∷ post)
      → All (Declines (cmd_packet bus) (cleared bus.rsp_packet) (debug_state bus)) pre
      → h.handle_packet (cmd_packet bus) (cleared bus.rsp_packet) (debug_state bus)
        ≡ done (true, rsp, flags)
      → rsp.command ≡ 0
      → handle_packet crc8 transport bus w
        ≡ done (
          true,
          record (with_debug bus flags) { rsp_packet = rsp },
          w,
          if ltb 0 rsp.data_len then LogEvent.data_without_command ∷ [] else [],
        )
  unfolding respond
  handle_packet-silent pre h post bus w rsp flags hs declines takes no_command =
      handle-takes pre h post bus w rsp flags hs declines takes ∙ ground arith

  -- If every handler declines the command, `handlePacket` answers false, nothing is written, and
  -- the command is logged as unhandled.
  pub handle_packet-unhandled :
      (bus : Bus) (w : W)
      → All (Declines (cmd_packet bus) (cleared bus.rsp_packet) (debug_state bus)) bus.handlers
      → handle_packet crc8 transport bus w
        ≡ done (
          false,
          record bus { rsp_packet = cleared bus.rsp_packet },
          w,
          LogEvent.unhandled_command (cmd_packet bus).command ∷ [],
        )
  unfolding handle_packet set_data set_command try_handlers
  handle_packet-unhandled bus w declines =
      ap (λ l. try_handlers crc8 transport l (record bus { rsp_packet = cleared bus.rsp_packet }) w)
        (sym (append-nil bus.handlers))
      ∙ try-skip bus.handlers [] (record bus { rsp_packet = cleared bus.rsp_packet }) w declines
