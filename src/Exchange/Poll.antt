-- ===== src/Exchange/Poll.antt =====
-- A bus at the end of a queue: what it writes, and what it reads.
use duino_bus.Base.{
  ℕ, suc, ◌≡◌, refl, ap, ◌∙◌, List, [], ◌∷◌, ◌++◌, append_assoc, append-nil, Run, done, abort,
  map_run, length,
}
use duino_bus.Crc8.{Crc8}
use duino_bus.Packet.{Packet, Error, LogEvent, get_data, calc_crc}
use duino_bus.Packet.Bounds.{IsValid}
use duino_bus.Packet.View.{view}
use duino_bus.Encoder.{Encoder}
use duino_bus.Encoder.Frame.{frame}
use duino_bus.Decoder.{Decoder, Reply, decode_byte, feed}
use duino_bus.Bus.{Bus, process_byte, write_packet}
use duino_bus.Bus.Write.{write_all, write_packet-frame, sent_log}
use duino_bus.Exchange.{Channel, channel, queue, poll}
use duino_bus.Wire.Owed.{IsResting, IsSendable, message, takes_frame}

pub write_all-queue :
    (bs : List ℕ) (ch : Channel)
    → write_all queue bs ch ≡ record ch { outgoing = ch.outgoing ++ bs }
write_all-queue [] ch = rw append-nil
write_all-queue (b ∷ bs) ch =
    write_all-queue bs (record ch { outgoing = ch.outgoing ++ (b ∷ []) }) ∙ rw append_assoc

-- What the bus and its channel are once the decoder has been fed.
abbrev pub polled : Bus → List ℕ → Error × Decoder × List ℕ → Error × Bus × Channel
polled bus out (err, d, rest) =
    (err, record bus { decoder = d }, record { incoming = rest; outgoing = out })

module _ (crc8 : Crc8) where
  -- Polling once for each byte that is there is feeding these bytes to the decoder.
  pub poll-feed :
      (bs out : List ℕ) (bus : Bus)
      → poll crc8 (length bs) bus (record { incoming = bs; outgoing = out })
        ≡ map_run (polled bus out) (feed crc8 bus.decoder bs)
  unfolding poll feed process_byte
  poll-feed [] out bus = refl
  poll-feed (b ∷ bs) out bus =
      go (decode_byte crc8 bus.decoder b) refl (λ d. poll-feed bs out (record bus { decoder = d }))
    where
      go :
          (r : Run Reply)
          → decode_byte crc8 bus.decoder b ≡ r
          → ((d : Decoder)
              → poll crc8
                  (length bs)
                  (record bus { decoder = d })
                  (record { incoming = bs; outgoing = out })
                ≡ map_run (polled bus out) (feed crc8 d bs))
          → poll crc8 (suc (length bs)) bus (record { incoming = b ∷ bs; outgoing = out })
            ≡ map_run (polled bus out) (feed crc8 bus.decoder (b ∷ bs))
      go abort e later = rw e
      go (done (Error.not_done, d, logged)) e later = rw e (later d)
      go (done (err, d, logged)) e later = rw e

  -- The frame of a packet.
  abbrev pub frame_of : Packet → List ℕ
  frame_of p = frame p.command (get_data p) (calc_crc crc8 p)

  pub write_packet-queue :
      (e : Encoder) (p : Packet)
      → IsValid p
      → (e' : Encoder) × (logged : List LogEvent) × (write_packet crc8 queue e p (channel [])
          ≡ done (
            Error.none,
            record p { crc = calc_crc crc8 p },
            e',
            record { incoming = []; outgoing = frame_of p },
            logged,
          ))
  write_packet-queue e p v =
      let (e', writes, at_idle, same) = write_packet-frame queue crc8 e p (channel []) v in
      (
        e',
        sent_log e.debug (record p { crc = calc_crc crc8 p }),
        writes
            ∙ ap
                (λ ch. done (
                  Error.none,
                  record p { crc = calc_crc crc8 p },
                  e',
                  ch,
                  sent_log e.debug (record p { crc = calc_crc crc8 p }),
                ))
                (write_all-queue (frame_of p) (channel [])),
      )

  -- A bus at rest takes the frame of a packet that it has room for.
  pub poll-frame :
      (capacity : ℕ) (bus : Bus) (p : Packet)
      → IsResting capacity bus.decoder
      → IsSendable capacity p
      → (d : Decoder) × (poll crc8 (length (frame_of p)) bus (channel (frame_of p))
          ≡ done (Error.none, record bus { decoder = d }, channel []))
        × (view d.packet ≡ message capacity p)
        × IsResting capacity d
  poll-frame capacity bus p h k =
      let (d, takes, seen, h') = takes_frame crc8 capacity bus.decoder p [] h k tt in
      (
        d,
        poll-feed (frame_of p) [] bus ∙ ap (map_run (polled bus [])) (rw append-nil at takes),
        seen,
        h',
      )
