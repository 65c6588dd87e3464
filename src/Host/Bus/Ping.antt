-- ===== src/Host/Bus/Ping.antt =====
-- A PING from `send_command_get_response` of duino_bus/bus.py to the core handler of a device and back.
use mathlib.Core.Option.{Option, some}
use mathlib.Core.Path.{subst}
use duino_bus.Base.{
  ℕ, ◌<◌, ◌≤◌, ◌≡◌, refl, sym, ap, ◌∙◌, arith, List, [], ◌∷◌, ◌++◌, append-nil, append_assoc, Bool,
  true, false, Run, done, abort, ◌>>=◌, length, IsByte, IsBytes,
}
use duino_bus.Crc8.{Crc8}
use duino_bus.Packet.{Error, get_data, calc_crc}
use duino_bus.Packet.Bounds.{IsValid, max_object}
use duino_bus.PacketHandler.{PacketHandler}
use duino_bus.CorePacketHandler.{Platform, ping}
use duino_bus.Encoder.Frame.{frame}
use duino_bus.Decoder.Frames.{crc_of}
use duino_bus.Bus as Device
use duino_bus.Bus.{handle_packet}
use duino_bus.Exchange.{Channel, channel, read_first, queue, poll}
use duino_bus.Exchange.Poll.{frame_of, poll-frame}
use duino_bus.Exchange.Ping.{IsServing, answers_ping}
use duino_bus.Wire.Owed.{IsResting}
use duino_bus.Host
use duino_bus.Host.{ErrorCode, Packet}
use duino_bus.Host.Encoder as HostEncoder
use duino_bus.Host.Twins.{Agree}
use duino_bus.Host.Writes.{write_all}
use duino_bus.Host.Tight.{tight, tight-IsValid, get_data-tight}
use duino_bus.Host.Sends.{writes_frame}
use duino_bus.Host.Bus.{
  Bus, Port, Event, wait, await_response, incoming_data_thread, send_command_get_response,
}
use duino_bus.Host.Bus.Thread.{IsQueue, readables}
use duino_bus.Host.Bus.Frames.{IsIdle, IsFrame}
use duino_bus.Host.Bus.Responses.{thread-response, get_response-some}

-- What is on its way to the host and from it, and the device, which is `abort` once it has stopped.
pub record Ends : Type 0 where
  pub host : Channel
  pub device : Run Device.Bus

abbrev pub host_reads : Ends → Option ℕ × Channel → Option ℕ × Ends
host_reads ends (byte, ch) = (byte, record ends { host = ch })

abbrev pub any : List ℕ → Bool
any [] = false
any (b ∷ bs) = true

-- The host's side of the line, which stays open.
abbrev pub port : Port Ends
port = record {
  is_open = λ ends. true;
  is_data_available = λ ends. any ends.host.incoming;
  read_byte = λ ends. host_reads ends (read_first ends.host.incoming ends.host);
  write_byte = λ b ends.
      (true, record ends { host = record ends.host { outgoing = ends.host.outgoing ++ (b ∷ []) } });
}

unfoldable pub port-IsQueue : IsQueue port
port-IsQueue = record {
  put = λ bs ends. record ends { host = record ends.host { incoming = bs } };
  stays_open = λ b bs ends. refl;
  available = λ b bs ends. refl;
  reads = λ b bs ends. refl;
}

module _ (crc8 : Crc8) where
  -- What a device does with the answer of `processByte` that ends its polling.
  abbrev pub handles : Error × Device.Bus × Channel → Run (Device.Bus × Channel)
  handles (Error.none, device, ch) = do
    (took, device', ch', logged) ← handle_packet crc8 queue device ch
    done (device', ch')
  handles (err, device, ch) = done (device, ch)

  abbrev pub served : Ends → Run (Device.Bus × Channel) → Ends
  served ends abort = record ends { device = abort }
  served ends (done (device, ch)) = record {
    host = record { incoming = ends.host.incoming ++ ch.outgoing; outgoing = [] };
    device = done device;
  }

  -- The device polls the bytes that the host has written, and handles a packet that it has read.
  unfoldable pub serve : Ends → Ends
  serve ends = served ends (do
    device ← ends.device
    r ← poll crc8 (length ends.host.outgoing) device (channel ends.host.outgoing)
    handles r)

write_all-port :
    (bs : List ℕ) (ends : Ends)
    → write_all port.write_byte bs ends
      ≡ record ends { host = record ends.host { outgoing = ends.host.outgoing ++ bs } }
write_all-port [] ends = rw append-nil
write_all-port (b ∷ bs) ends =
    write_all-port bs
      (record ends { host = record ends.host { outgoing = ends.host.outgoing ++ (b ∷ []) } })
    ∙ rw append_assoc

-- Before the host writes.
abbrev pub at_start : Device.Bus → Ends
at_start device = record { host = channel []; device = done device }

-- The response to a PING with some data.
abbrev pub pong : Crc8 → List ℕ → List ℕ
pong crc8 bytes = frame ping bytes (crc_of crc8 ping bytes)

module _ (platform : Platform) (pre post : List PacketHandler) (crc8 : Crc8)
    (crc_fn : List ℕ → ℕ → ℕ) (agree : Agree crc8 crc_fn) (utf8 : List ℕ → Run (List ℕ)) where
  served_ping :
      (there : ℕ) (device : Device.Bus) (request : Packet)
      → IsServing platform pre post there device
      → IsValid (tight request)
      → request.cmd ≡ ping
      → length request.bytes < there
      → length request.bytes ≤ device.rsp_packet.max_data_len
      → (device' : Device.Bus) × (serve crc8 (record {
        host = record { incoming = []; outgoing = frame_of crc8 (tight request) };
        device = done device;
      })
          ≡ record { host = channel (pong crc8 request.bytes); device = done device' })
        × IsResting there device'.decoder
  unfolding serve calc_crc
  served_ping there device request s v e fits_there fits_response =
      let (d, arrives, seen, at_rest) =
        poll-frame crc8 there device (tight request) s.resting (v, fits_there) in
      let (rsp, device', logged, handled, named, same, fine, kept) =
        answers_ping platform pre post crc8 there (record device { decoder = d }) (tight request)
          (record {
            resting = at_rest;
            handlers = s.handlers;
            leaves = s.leaves;
            response = s.response;
          })
          seen v e fits_response in
      let data_same : get_data rsp ≡ request.bytes = same ∙ get_data-tight request in
      (
        device',
        rw (arrives, handled)
            (ap
              (λ (x : ℕ × List ℕ). record {
                host = channel (frame x.0 x.1 (crc_of crc8 x.0 x.1));
                device = done device';
              })
              (λ i. (named i, data_same i))),
        subst (IsResting there) (sym kept) at_rest,
      )

  pong-IsFrame :
      (bytes : List ℕ)
      → IsBytes bytes
      → length bytes < Host.max_data_len
      → IsFrame ping bytes (crc_of crc8 ping bytes)
  pong-IsFrame bytes h few = record {
    command_byte = omega arith;
    all_bytes = h;
    crc_byte = crc8.block-IsByte (crc8.step 0 ping) bytes;
    fits = few;
  }

  -- Where the CRC functions agree: the host's bus, its decoder idle and its queue empty, with any byte as
  -- its encoder's escape character, is joined by an empty line to a device that is idle with valid
  -- packets and answers PING with its core handler. `send_command_get_response` of a PING with fewer
  -- than 256 bytes of data that fit the device's packets (its command packet with the CRC), while the
  -- device polls and handles what is written and the host's thread gets one POLLIN for each byte of the
  -- response, ends with NONE and a PING with the same data. The queue and the line are empty again, and
  -- both decoders are idle.
  pub send_command_get_response-ping :
      (there : ℕ) (bus : Bus) (device : Device.Bus) (request : Packet)
      → IsIdle bus.decoder
      → bus.recv_queue ≡ 0
      → IsByte bus.encoder.escape_char
      → IsServing platform pre post there device
      → request.cmd ≡ ping
      → IsBytes request.bytes
      → length request.bytes < Host.max_data_len
      → length request.bytes < there
      → length request.bytes ≤ device.rsp_packet.max_data_len
      → (bus' : Bus) × (rsp : Packet) × (device' : Device.Bus) × (send_command_get_response crc_fn
            utf8 port
            (serve crc8)
            (readables (pong crc8 request.bytes))
            bus
            request
            (at_start device)
          ≡ (ErrorCode.none, some rsp, bus', record { host = channel []; device = done device' }))
        × (rsp.cmd ≡ ping)
        × (rsp.bytes ≡ request.bytes)
        × (bus'.recv_queue ≡ 0)
        × IsIdle bus'.decoder
        × IsResting there device'.decoder
  unfolding send_command_get_response incoming_data_thread port-IsQueue
  send_command_get_response-ping there bus device request i none_yet he s e hb few fits_there
        fits_response =
      let small : there < max_object =
        omega (arith, s.resting.sound.valid.small, s.resting.holds) in
      let v = tight-IsValid request (subst IsByte (sym e) (omega arith)) hb fits_there small in
      let (e', writes) =
        writes_frame crc8 crc_fn agree port.write_byte (λ b w. refl) bus.encoder request
          (at_start device) v he in
      let (device', serves, at_rest) =
        served_ping there device request s v e fits_there fits_response in
      let (bus', reads, q) =
        thread-response crc8 crc_fn agree utf8 port port-IsQueue (record bus { encoder = e' }) ping
          request.bytes (crc_of crc8 ping request.bytes) [] []
          (record { host = channel []; device = done device' }) i
          (pong-IsFrame request.bytes hb few) (λ x. omega arith) in
      (
        record bus' { recv_queue = 0 },
        bus'.decoder.packet,
        device',
        ap (await_response crc_fn utf8 port (serve crc8) (readables bytes) bus) writes
            ∙ ap (λ ends. answers e' (readables bytes) (serve crc8 ends))
                (write_all-port (frame_of crc8 (tight request)) (at_start device))
            ∙ ap (answers e' (readables bytes)) serves
            ∙ ap (λ l. answers e' l (arrived device' bytes)) (sym (append-nil (readables bytes)))
            ∙ ap (λ l. answers e' (readables bytes ++ []) (arrived device' l))
                (sym (append-nil bytes))
            ∙ ap wait reads
            ∙ ap (λ (x : ErrorCode × Option Packet × Bus). (x.0, x.1, x.2, arrived device' []))
                (get_response-some bus' 0 (omega (arith, q.one_more))),
        q.command,
        q.payload,
        refl,
        q.idle,
        at_rest,
      )
    where
      bytes : List ℕ
      bytes = pong crc8 request.bytes

      arrived : Device.Bus → List ℕ → Ends
      arrived device' l = record { host = channel l; device = done device' }

      answers : HostEncoder.Encoder → List Event → Ends → ErrorCode × Option Packet × Bus × Ends
      answers e' events ends =
          wait (incoming_data_thread crc_fn utf8 port events (record bus { encoder = e' }) ends)
