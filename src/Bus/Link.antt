-- ===== src/Bus/Link.antt =====
-- Two ends of a wire: `writePacket` at one, the decoder at the other.
use duino_bus.Base.{ℕ, ◌<◌, ◌≡◌, ◌∙◌, arith, List, ◌++◌, Bool, false, done, map_run, ==_refl}
use duino_bus.Crc8.{Crc8}
use duino_bus.Packet.{Packet, Error, LogEvent, get_data, calc_crc}
use duino_bus.Packet.Bounds.{IsValid, calc_crc-IsByte}
use duino_bus.Packet.View.{get_data-IsBytes, length-get_data}
use duino_bus.Encoder.{Encoder}
use duino_bus.Encoder.Frame.{frame}
use duino_bus.Decoder.{feed}
use duino_bus.Decoder
use duino_bus.Decoder.Feed.{decoder}
use duino_bus.Decoder.Frames.{received, report, crc_of, feed-frame}
use duino_bus.Bus.{Transport, write_packet}
use duino_bus.Bus.Write.{write_all, write_packet-frame}

-- A decoder that is idle and has room for the data and the CRC takes the frame of a valid packet.
pub feed-frame-get_data :
    (crc8 : Crc8) (p q : Packet) (g : Bool) (rest : List ℕ)
    → IsValid p
    → IsValid q
    → p.data_len < q.max_data_len
    → map_run received (
        feed crc8
          (decoder q Decoder.State.idle false g)
          (frame p.command (get_data p) (calc_crc crc8 p) ++ rest))
      ≡ done (
          report Error.none
            (record { command = p.command; capacity = q.max_data_len; bytes = get_data p })
            Decoder.State.idle
            rest)
unfolding calc_crc
feed-frame-get_data crc8 p q g rest v w room =
    feed-frame crc8 g q p.command (get_data p) (crc_of crc8 p.command (get_data p)) rest w
      v.command_byte (get_data-IsBytes v) (calc_crc-IsByte crc8 p)
      (omega (arith, length-get_data v))
    ∙ rw (==_refl (crc_of crc8 p.command (get_data p)))

-- For a valid packet with n bytes of data, `writePacket` answers NONE and hands some bytes to the
-- transport, in order, before one flush; a decoder that is idle, with a valid packet of capacity
-- more than n, takes exactly those bytes, answers NONE and holds the same command and data. It is
-- idle again, whatever follows on the wire.
pub write_packet-feed :
    (crc8 : Crc8) {W : Type 0} (transport : Transport W) (e : Encoder) (p q : Packet) (g : Bool)
    (w : W)
    → IsValid p
    → IsValid q
    → p.data_len < q.max_data_len
    → (bytes : List ℕ) × (e' : Encoder) × (logged : List LogEvent) × (write_packet crc8 transport e
          p w
        ≡ done (
          Error.none,
          record p { crc = calc_crc crc8 p },
          e',
          transport.flush (write_all transport bytes w),
          logged,
        ))
      × ((rest : List ℕ)
          → map_run received (feed crc8 (decoder q Decoder.State.idle false g) (bytes ++ rest))
            ≡ done (
                report Error.none
                  (record { command = p.command; capacity = q.max_data_len; bytes = get_data p })
                  Decoder.State.idle
                  rest))
write_packet-feed crc8 transport e p q g w v v' room =
    let (e', writes, at_idle, same) = write_packet-frame transport crc8 e p w v in
    (
      frame p.command (get_data p) (calc_crc crc8 p),
      e',
      _,
      writes,
      λ rest. feed-frame-get_data crc8 p q g rest v v' room,
    )
