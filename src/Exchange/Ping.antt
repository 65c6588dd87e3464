-- ===== src/Exchange/Ping.antt =====
-- A PING through two buses.
use duino_bus.Base.{
  ℕ, ◌≤◌, ◌<◌, ◌≡◌, sym, ap, ◌∙◌, arith, List, [], ◌∷◌, ◌++◌, true, done, length, All,
}
use mathlib.Core.Path.{subst}
use duino_bus.Crc8.{Crc8}
use duino_bus.Packet.{Packet, Error, LogEvent, get_data, calc_crc}
use duino_bus.Packet.Bounds.{IsValid}
use duino_bus.Packet.View.{view, length-get_data}
use duino_bus.PacketHandler.{PacketHandler, DebugState}
use duino_bus.CorePacketHandler.{Platform, core_handler, ping}
use duino_bus.CorePacketHandler.Replies.{handle_packet_ping_fits}
use duino_bus.Decoder
use duino_bus.Decoder.{Decoder}
use duino_bus.Bus.{Bus, cmd_packet, debug_state, handle_packet}
use duino_bus.Bus.Write.{sent_log}
use duino_bus.Bus.Handle.{Declines, cleared, handle_packet-first}
use duino_bus.Wire.Owed.{IsResting, message}
use duino_bus.Exchange.{channel, queue, exchange}
use duino_bus.Exchange.Poll.{frame_of, write_all-queue, write_packet-queue, poll-frame}

cleared-IsValid : {p : Packet} → IsValid p → IsValid (cleared p)
cleared-IsValid v = record {
  fits = omega arith;
  room = v.room;
  small = v.small;
  command_byte = omega arith;
  crc_byte = v.crc_byte;
  bytes = v.bytes;
}

-- A handler that takes no PING.
abbrev pub LeavesPing : PacketHandler → Type 0
LeavesPing h =
    (cmd rsp : Packet) (flags : DebugState) → cmd.command ≡ ping → Declines cmd rsp flags h

leaves-Declines :
    (cmd rsp : Packet) (flags : DebugState) (hs : List PacketHandler)
    → cmd.command ≡ ping
    → All LeavesPing hs
    → All (Declines cmd rsp flags) hs
leaves-Declines cmd rsp flags [] e k = tt
leaves-Declines cmd rsp flags (h ∷ hs) e k =
    (k.0 cmd rsp flags e, leaves-Declines cmd rsp flags hs e k.1)

module _ (platform : Platform) (pre post : List PacketHandler) where
  -- A bus that answers PING with its core handler.
  pub record IsServing (capacity : ℕ) (bus : Bus) : Type 0 where
    pub resting : IsResting capacity bus.decoder
    pub handlers : bus.handlers ≡ pre ++ (core_handler platform ∷ post)
    pub leaves : All LeavesPing pre
    pub response : IsValid bus.rsp_packet

  module _ (crc8 : Crc8) where
    -- A PING in the decoder is answered on the wire.
    pub answers_ping :
        (capacity : ℕ) (bus : Bus) (request : Packet)
        → IsServing capacity bus
        → view (cmd_packet bus) ≡ message capacity request
        → IsValid request
        → request.command ≡ ping
        → request.data_len ≤ bus.rsp_packet.max_data_len
        → (rsp : Packet) × (bus' : Bus) × (logged : List LogEvent) × (handle_packet crc8 queue bus
              (channel [])
            ≡ done (true, bus', record { incoming = []; outgoing = frame_of crc8 rsp }, logged))
          × (rsp.command ≡ ping)
          × (get_data rsp ≡ get_data request)
          × IsValid rsp
          × (bus'.decoder ≡ bus.decoder)
    unfolding core_handler Decoder.set_debug
    answers_ping capacity bus request h seen v e room =
        let is_ping : (cmd_packet bus).command ≡ ping = ap (λ m. m.command) seen ∙ e in
        let same : get_data (cmd_packet bus) ≡ get_data request = ap (λ m. m.bytes) seen in
        let valid : IsValid (cmd_packet bus) = h.resting.sound.valid in
        let long : (cmd_packet bus).data_len ≡ request.data_len =
          omega (arith, ap length same, length-get_data valid, length-get_data v) in
        let (rsp, takes, answer, fine) =
          handle_packet_ping_fits platform (cmd_packet bus) (cleared bus.rsp_packet)
            (debug_state bus) valid (cleared-IsValid h.response) is_ping (omega (arith, long)) in
        let (bus', handles, flags, kept) =
          handle_packet-first crc8 queue pre (core_handler platform) post bus (channel []) rsp
            (debug_state bus) h.handlers
            (leaves-Declines (cmd_packet bus) (cleared bus.rsp_packet) (debug_state bus) pre is_ping
              h.leaves)
            takes fine (omega (arith, ap (λ m. m.command) answer)) in
        (
          rsp,
          bus',
          _,
          handles
              ∙ ap
                  (λ ch. done (
                    true,
                    bus',
                    ch,
                    sent_log (debug_state bus).encoder (record rsp { crc = calc_crc crc8 rsp }),
                  ))
                  (write_all-queue (frame_of crc8 rsp) (channel [])),
          ap (λ m. m.command) answer,
          ap (λ m. m.bytes) answer ∙ same,
          fine,
          kept,
        )

    -- A host and a device, both idle with valid packets, are joined by empty queues; the device has
    -- a valid response packet and a core handler, and no handler before it takes a PING. Where the
    -- device's command and response packets and the host's command packet have room for its data,
    -- and the command packets for its CRC, a valid PING that the host writes is read and handled by
    -- the device, and the host reads a response, with the answer NONE, that is a PING with the same
    -- data. Both ends are idle again.
    pub exchange-ping :
        (here there : ℕ) (host device : Bus) (request : Packet)
        → IsResting here host.decoder
        → IsServing there device
        → IsValid request
        → request.command ≡ ping
        → request.data_len < here
        → request.data_len < there
        → request.data_len ≤ device.rsp_packet.max_data_len
        → (host' : Bus) × (device' : Bus) × (exchange crc8 host device request
            ≡ done (Error.none, true, host', device'))
          × (view (cmd_packet host') ≡ message here request)
          × IsResting here host'.decoder
          × IsResting there device'.decoder
    unfolding exchange
    exchange-ping here there host device request h s v e fits_here fits_there fits_response =
        let (encoder, logged, writes) = write_packet-queue crc8 host.encoder request v in
        let (d, arrives, seen, at_rest) =
          poll-frame crc8 there device request s.resting (v, fits_there) in
        let (rsp, device', logged', handles, named, same, fine, kept) =
          answers_ping there (record device { decoder = d }) request
            (record {
              resting = at_rest;
              handlers = s.handlers;
              leaves = s.leaves;
              response = s.response;
            })
            seen v e fits_response in
        let (d', returns, seen', at_rest') =
          poll-frame crc8 here (record host { encoder = encoder }) rsp h
            (fine, omega (arith, ap length same, length-get_data fine, length-get_data v)) in
        (
          record host { encoder = encoder; decoder = d' },
          device',
          rw (writes, arrives, handles, returns),
          seen' ∙ (λ i. record { command = (named ∙ sym e) i; capacity = here; bytes = same i }),
          at_rest',
          subst (IsResting there) (sym kept) at_rest,
        )
