-- ===== src/Host/Bus/Logs.antt =====
-- Log messages of a device, from src/BusLog.cpp to `process_packet` of duino_bus/bus.py.
use mathlib.Core.Option.{some}
use duino_bus.Base.{
  ℕ, zero, suc, ◌+◌, ◌-◌, ◌%◌, ◌<◌, ◌≤◌, ◌≡◌, refl, ap, ◌∙◌, arith, List, [], ◌∷◌, ◌++◌, append-nil,
  false, Run, done, abort, length, length-append, length-take_le, take, All, IsByte, append-IsBytes,
}
use duino_bus.Crc8.{Crc8}
use duino_bus.Packet as Duino
use duino_bus.Packet.{LogEvent, calc_crc}
use duino_bus.Packet.Bounds.{IsValid, calc_crc-IsByte}
use duino_bus.Encoder.Frame.{frame}
use duino_bus.Bus as Device
use duino_bus.Bus.{Transport}
use duino_bus.Bus.Write.{write_all}
use duino_bus.BusLog.{do_log}
use duino_bus.BusLog.Message.{text, do_log-frame}
use duino_bus.Host.Twins.{Agree}
use duino_bus.Host.Unpacker.{Unpacker, init, unpack_u8, unpack_str}
use duino_bus.Host.Values.{DecodesAscii, read_text}
use duino_bus.Host.Values.ToDevice.{ascii-IsBytes}
use duino_bus.Host.Values.FromDevice.{unpack_str-chars}
use duino_bus.Host.Bus.{
  Bus, Port, Event, log, logging_level, process_packet, after_packet, incoming_data_thread,
}
use duino_bus.Host.Bus.Thread.{IsQueue, readables, continue, thread-feed}
use duino_bus.Host.Bus.Frames.{IsIdle, IsFrame, feed-any_crc, answer, answer-ne-not_done}

abbrev pub IsAscii : ℕ → Type 0
IsAscii c = (0 < c) × (c < 128)

take-All : (P : ℕ → Type 0) (n : ℕ) (xs : List ℕ) → All P xs → All P (take n xs)
take-All P zero xs h = tt
take-All P (suc n) [] h = tt
take-All P (suc n) (x ∷ xs) h = (h.0, take-All P n xs h.1)

module _ (crc8 : Crc8) (crc_fn : List ℕ → ℕ → ℕ) (agree : Agree crc8 crc_fn)
    (utf8 : List ℕ → Run (List ℕ)) {W : Type 0} (port : Port W) (queue : IsQueue port) where
  -- A frame of a LOG packet, with what the thread then does with the packet.
  thread-log :
      (bus : Bus) (bytes : List ℕ) (c : ℕ) (rest : List ℕ) (events : List Event) (w : W)
      → IsIdle bus.decoder
      → IsFrame log bytes c
      → (bus' : Bus) × (incoming_data_thread crc_fn utf8 port
            (readables (frame log bytes c) ++ events)
            bus
            (queue.put (frame log bytes c ++ rest) w)
          ≡ continue crc_fn utf8 port queue events
              (after_packet bus' (queue.put rest w) (process_packet crc_fn utf8 bus')))
        × (bus'.decoder.packet.cmd ≡ log)
        × (bus'.decoder.packet.bytes ≡ bytes)
        × (bus'.recv_queue ≡ bus.recv_queue)
        × (bus'.messages ≡ bus.messages)
        × IsIdle bus'.decoder
  thread-log bus bytes c rest events w i f =
      let (d, feeds, named, stored, idle) =
        feed-any_crc crc8 crc_fn agree bus.decoder log bytes c i f in
      (
        record bus { decoder = d },
        thread-feed crc_fn utf8 port queue (frame log bytes c) rest events bus w
            (answer crc8 log bytes c) d feeds (answer-ne-not_done crc8 log bytes c),
        named,
        stored,
        refl,
        refl,
        idle,
      )

  process-log :
      (decodes : DecodesAscii utf8) (bus : Bus) (level : ℕ) (chars : List ℕ)
      → bus.decoder.packet.cmd ≡ log
      → bus.decoder.packet.bytes ≡ text level chars
      → IsByte level
      → All IsAscii chars
      → length chars < 255
      → process_packet crc_fn utf8 bus
        ≡ done (record bus {
          messages = bus.messages ++ ((logging_level level, read_text chars) ∷ []);
        })
  unfolding process_packet unpack_u8 init
  process-log decodes bus level chars e e' hl hc few =
      let counted : (length chars + 1) % 256 ≡ length chars + 1 = omega arith in
      let u : Unpacker = record { buf = text level chars; idx = 1 } in
      let (u', reads, behind) =
        unpack_str-chars utf8 decodes u chars [] (rw (counted, append-nil)) hc in
      rw (e, e', reads)

  process-short :
      (bus : Bus) (bytes : List ℕ)
      → bus.decoder.packet.cmd ≡ log
      → bus.decoder.packet.bytes ≡ bytes
      → length bytes < 2
      → process_packet crc_fn utf8 bus ≡ abort
  unfolding process_packet unpack_u8 init unpack_str
  process-short bus [] e e' few = rw (e, e')
  process-short bus (x ∷ []) e e' few = rw (e, e')
  process-short bus (x ∷ y ∷ bytes) e e' few = absurd (omega arith)

  -- A LOG frame with fewer than two bytes of data, its CRC right or wrong, that arrives while the host's
  -- decoder is idle ends the host's thread: what follows on the wire is not read, whatever is reported
  -- later, and neither a message nor a response comes of the frame.
  pub incoming-log_short :
      (bus : Bus) (bytes : List ℕ) (c : ℕ) (rest : List ℕ) (events : List Event) (w : W)
      → IsIdle bus.decoder
      → IsFrame log bytes c
      → length bytes < 2
      → (bus' : Bus) × (incoming_data_thread crc_fn utf8 port
            (readables (frame log bytes c) ++ events)
            bus
            (queue.put (frame log bytes c ++ rest) w)
          ≡ (false, bus', queue.put rest w))
        × (bus'.recv_queue ≡ bus.recv_queue)
        × (bus'.messages ≡ bus.messages)
  incoming-log_short bus bytes c rest events w i f few =
      let (bus', reads, named, stored, queued, told, idle) =
        thread-log bus bytes c rest events w i f in
      (
        bus',
        reads
            ∙ ap
                (λ m.
                  continue crc_fn utf8 port queue events (after_packet bus' (queue.put rest w) m))
                (process-short bus' bytes named stored few),
        queued,
        told,
      )

  -- Where the CRC functions agree and ASCII is decoded as such: a bus of a device, with a valid log packet
  -- of a capacity from 3 to 255, logs a message of ASCII characters without a null over any transport,
  -- and the bytes that it writes, in order, before one flush, reach a host's thread whose decoder is
  -- idle. The host logs one message, of the level that the logging module has for the device's, whose
  -- text is the characters that fit the log packet with its level, length and null, or a null character
  -- if there are none. The queue of responses stays as it was, the decoder is idle again, and the thread
  -- goes on with what follows on the wire.
  pub do_log-logged :
      (decodes : DecodesAscii utf8) {V : Type 0} (transport : Transport V) (device : Device.Bus)
      (packet : Duino.Packet) (level : ℕ) (chars : List ℕ) (v : V) (bus : Bus) (rest : List ℕ)
      (events : List Event) (w : W)
      → device.log_packet ≡ some packet
      → IsValid packet
      → IsByte level
      → All IsAscii chars
      → 3 ≤ packet.max_data_len
      → packet.max_data_len < 256
      → IsIdle bus.decoder
      → (device' : Device.Bus) × (bytes : List ℕ) × (logged : List LogEvent) × (bus' : Bus)
        × (do_log crc8 transport device level chars v
            ≡ done (device', transport.flush (write_all transport bytes v), logged))
        × (incoming_data_thread crc_fn utf8 port
              (readables bytes ++ events)
              bus
              (queue.put (bytes ++ rest) w)
            ≡ incoming_data_thread crc_fn utf8 port events bus' (queue.put rest w))
        × (bus'.messages
            ≡ bus.messages
              ++ ((logging_level level, read_text (take (packet.max_data_len - 3) chars)) ∷ []))
        × (bus'.recv_queue ≡ bus.recv_queue)
        × IsIdle bus'.decoder
  do_log-logged decodes transport device packet level chars v bus rest events w has valid hl hc
        least most i =
      let k = packet.max_data_len - 3 in
      let kept = take k chars in
      let short = length-take_le k chars in
      let fine = take-All IsAscii k chars hc in
      let (device', q, seen, logs, keeps) =
        do_log-frame crc8 transport device packet level chars v has valid hl
          (ascii-IsBytes chars hc).0 least in
      let held : IsFrame log (text level kept) (calc_crc crc8 q) = record {
        command_byte = omega arith;
        all_bytes = (
          hl,
          (omega arith, append-IsBytes kept (0 ∷ []) (ascii-IsBytes kept fine).0 (omega arith)),
        );
        crc_byte = calc_crc-IsByte crc8 q;
        fits = omega (arith, length-append kept (0 ∷ []));
      } in
      let (bus', reads, named, stored, queued, told, idle) =
        thread-log bus (text level kept) (calc_crc crc8 q) rest events w i held in
      (
        device',
        frame log (text level kept) (calc_crc crc8 q),
        _,
        record bus' { messages = bus'.messages ++ ((logging_level level, read_text kept) ∷ []) },
        logs,
        reads
            ∙ ap
                (λ m.
                  continue crc_fn utf8 port queue events (after_packet bus' (queue.put rest w) m))
                (process-log decodes bus' level kept named stored hl fine (omega arith)),
        ap (λ l. l ++ ((logging_level level, read_text kept) ∷ [])) told,
        queued,
        idle,
      )
