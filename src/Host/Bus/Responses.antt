-- ===== src/Host/Bus/Responses.antt =====
-- Responses in the queue of duino_bus/bus.py, which refers to the decoder's own packet.
use mathlib.Core.Option.{some}
use duino_bus.Base.{
  ℕ, ◌+◌, ◌≡◌, ◌≢◌, refl, sym, ap, ◌∙◌, arith, List, [], ◌++◌, append-nil, true, Run, done,
  ne→==_false,
}
use duino_bus.Crc8.{Crc8}
use duino_bus.Encoder.Frame.{frame}
use duino_bus.Host.{ErrorCode, Packet}
use duino_bus.Host.Twins.{Agree}
use duino_bus.Host.Bus.{
  Bus, Port, Event, log, process_packet, after_packet, incoming_data_thread, get_response,
}
use duino_bus.Host.Bus.Thread.{IsQueue, readables, continue, thread-feed}
use duino_bus.Host.Bus.Frames.{IsIdle, IsFrame, feed-any_crc, answer, answer-ne-not_done}

-- The bus `bus'` is `bus` with one more response, of this command and data.
pub record Queued (bus bus' : Bus) (cmd : ℕ) (bytes : List ℕ) : Type 0 where
  pub one_more : bus'.recv_queue ≡ bus.recv_queue + 1
  pub command : bus'.decoder.packet.cmd ≡ cmd
  pub payload : bus'.decoder.packet.bytes ≡ bytes
  pub silent : bus'.messages ≡ bus.messages
  pub encoder : bus'.encoder ≡ bus.encoder
  pub idle : IsIdle bus'.decoder

pub get_response-some :
    (bus : Bus) (n : ℕ)
    → bus.recv_queue ≡ n + 1
    → get_response bus ≡ (ErrorCode.none, some bus.decoder.packet, record bus { recv_queue = n })
unfolding get_response
get_response-some bus n e = ground arith

module _ (crc8 : Crc8) (crc_fn : List ℕ → ℕ → ℕ) (agree : Agree crc8 crc_fn)
    (utf8 : List ℕ → Run (List ℕ)) {W : Type 0} (port : Port W) (queue : IsQueue port) where
  process-response :
      (bus : Bus) (cmd : ℕ)
      → bus.decoder.packet.cmd ≡ cmd
      → cmd ≢ log
      → process_packet crc_fn utf8 bus ≡ done (record bus { recv_queue = bus.recv_queue + 1 })
  unfolding process_packet
  process-response bus cmd e h = rw (e, ne→==_false cmd log h)

  pub thread-response :
      (bus : Bus) (cmd : ℕ) (bytes : List ℕ) (c : ℕ) (rest : List ℕ) (events : List Event) (w : W)
      → IsIdle bus.decoder
      → IsFrame cmd bytes c
      → cmd ≢ log
      → (bus' : Bus) × (incoming_data_thread crc_fn utf8 port
            (readables (frame cmd bytes c) ++ events)
            bus
            (queue.put (frame cmd bytes c ++ rest) w)
          ≡ incoming_data_thread crc_fn utf8 port events bus' (queue.put rest w))
        × Queued bus bus' cmd bytes
  thread-response bus cmd bytes c rest events w i f h =
      let (d, feeds, named, stored, idle) =
        feed-any_crc crc8 crc_fn agree bus.decoder cmd bytes c i f in
      (
        record bus { decoder = d; recv_queue = bus.recv_queue + 1 },
        thread-feed crc_fn utf8 port queue (frame cmd bytes c) rest events bus w
              (answer crc8 cmd bytes c) d feeds (answer-ne-not_done crc8 cmd bytes c)
            ∙ ap
                (λ m.
                  continue crc_fn utf8 port queue events
                    (after_packet (record bus { decoder = d }) (queue.put rest w) m))
                (process-response (record bus { decoder = d }) cmd named h),
        record {
          one_more = refl;
          command = named;
          payload = stored;
          silent = refl;
          encoder = refl;
          idle = idle;
        },
      )

  -- Where the CRC functions agree: the frame of a command that is not LOG, of fewer than 256 bytes of data
  -- and of any CRC byte, that is read with one POLLIN for each byte while the host's decoder is idle, is
  -- a response, whether its CRC is right or not: the thread goes on with what follows, the queue has one
  -- entry more, and the caller that takes it gets NONE and a packet of the command and the data. Nothing
  -- is logged as a message, and the decoder is idle again.
  pub incoming-any_crc :
      (bus : Bus) (cmd : ℕ) (bytes : List ℕ) (c : ℕ) (rest : List ℕ) (events : List Event) (w : W)
      → IsIdle bus.decoder
      → IsFrame cmd bytes c
      → cmd ≢ log
      → (bus' : Bus) × (rsp : Packet) × (bus'' : Bus) × (incoming_data_thread crc_fn utf8 port
            (readables (frame cmd bytes c) ++ events)
            bus
            (queue.put (frame cmd bytes c ++ rest) w)
          ≡ incoming_data_thread crc_fn utf8 port events bus' (queue.put rest w))
        × (bus'.recv_queue ≡ bus.recv_queue + 1)
        × (get_response bus' ≡ (ErrorCode.none, some rsp, bus''))
        × (rsp.cmd ≡ cmd)
        × (rsp.bytes ≡ bytes)
        × (bus''.recv_queue ≡ bus.recv_queue)
        × (bus''.messages ≡ bus.messages)
        × IsIdle bus''.decoder
  incoming-any_crc bus cmd bytes c rest events w i f h =
      let (bus', reads, q) = thread-response bus cmd bytes c rest events w i f h in
      (
        bus',
        bus'.decoder.packet,
        record bus' { recv_queue = bus.recv_queue },
        reads,
        q.one_more,
        get_response-some bus' bus.recv_queue q.one_more,
        q.command,
        q.payload,
        refl,
        q.silent,
        q.idle,
      )

  -- Where the CRC functions agree: the frames of two commands that are not LOG, each of fewer than 256
  -- bytes of data and of any CRC byte, are read one behind the other, with one POLLIN for each byte,
  -- while the host's decoder is idle and the queue is empty, before a response is taken. Then both calls
  -- that take a response get NONE and a packet of the second's command and data, and the queue is empty.
  pub incoming-overwrites :
      (bus : Bus) (cmd1 : ℕ) (bytes1 : List ℕ) (c1 cmd2 : ℕ) (bytes2 : List ℕ) (c2 : ℕ) (w : W)
      → IsIdle bus.decoder
      → bus.recv_queue ≡ 0
      → IsFrame cmd1 bytes1 c1
      → IsFrame cmd2 bytes2 c2
      → cmd1 ≢ log
      → cmd2 ≢ log
      → (bus' : Bus) × (rsp : Packet) × (bus1 : Bus) × (bus2 : Bus) × (incoming_data_thread crc_fn
            utf8 port
            (readables (frame cmd1 bytes1 c1) ++ readables (frame cmd2 bytes2 c2))
            bus
            (queue.put (frame cmd1 bytes1 c1 ++ frame cmd2 bytes2 c2) w)
          ≡ (true, bus', queue.put [] w))
        × (get_response bus' ≡ (ErrorCode.none, some rsp, bus1))
        × (get_response bus1 ≡ (ErrorCode.none, some rsp, bus2))
        × (rsp.cmd ≡ cmd2)
        × (rsp.bytes ≡ bytes2)
        × (bus2.recv_queue ≡ 0)
  unfolding incoming_data_thread
  incoming-overwrites bus cmd1 bytes1 c1 cmd2 bytes2 c2 w i none_yet f1 f2 h1 h2 =
      let (bus1, first, q1) =
        thread-response bus cmd1 bytes1 c1 (frame cmd2 bytes2 c2) (readables (frame cmd2 bytes2 c2))
          w i f1 h1 in
      let (bus2, second, q2) = thread-response bus1 cmd2 bytes2 c2 [] [] w q1.idle f2 h2 in
      (
        bus2,
        bus2.decoder.packet,
        record bus2 { recv_queue = 1 },
        record bus2 { recv_queue = 0 },
        first
            ∙ ap
                (λ l.
                  incoming_data_thread crc_fn utf8 port l bus1 (queue.put (frame cmd2 bytes2 c2) w))
                (sym (append-nil (readables (frame cmd2 bytes2 c2))))
            ∙ ap
                (λ l.
                  incoming_data_thread crc_fn utf8 port (readables (frame cmd2 bytes2 c2) ++ [])
                    bus1 (queue.put l w))
                (sym (append-nil (frame cmd2 bytes2 c2)))
            ∙ second,
        get_response-some bus2 1 (omega (arith, q1.one_more, q2.one_more)),
        get_response-some (record bus2 { recv_queue = 1 }) 0 refl,
        q2.command,
        q2.payload,
        refl,
      )
