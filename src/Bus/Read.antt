-- ===== src/Bus/Read.antt =====
-- `processByte`, in terms of the transport's byte and the decoder.
use mathlib.Core.Option.{Option, none, some}
use duino_bus.Base.{ℕ, ◌≡◌, refl, ap, List, [], done, IsByte}
use duino_bus.Crc8.{Crc8}
use duino_bus.Packet.{Error, LogEvent}
use duino_bus.Decoder.{decode_byte}
use duino_bus.Decoder.Safe.{IsSound, Answers, decode_byte-IsGood}
use duino_bus.Bus.{Bus, Transport, process_byte}

-- Without a byte nothing happens; a byte gets the answer of the decoder.
abbrev pub Through : {W : Type 0} → Crc8 → Bus → Option ℕ → Error × Bus × W × List LogEvent → Type 0
Through crc8 bus none r = (r.0 ≡ Error.not_done) × (r.1 ≡ bus)
Through crc8 bus (some b) r = decode_byte crc8 bus.decoder b ≡ done (r.0, r.1.decoder, r.3)

-- What `processByte` leaves, where the transport has given `read`.
pub record Reads {W : Type 0} (crc8 : Crc8) (bus : Bus) (read : Option ℕ × W)
    (r : Error × Bus × W × List LogEvent) : Type 0 where
  pub through : Through crc8 bus read.0 r
  pub answers : Answers r.0
  pub sound : IsSound r.1.decoder
  pub others : r.1 ≡ record bus { decoder = r.1.decoder }
  pub capacity : r.1.decoder.packet.max_data_len ≡ bus.decoder.packet.max_data_len
  pub behind : r.2 ≡ read.1

module _ (crc8 : Crc8) {W : Type 0} (transport : Transport W) where
  processed :
      (bus : Bus) (w : W) (read : Option ℕ × W)
      → transport.read_byte w ≡ read
      → IsSound bus.decoder
      → ((b : ℕ) → read.0 ≡ some b → IsByte b)
      → (r : Error × Bus × W × List LogEvent) × (process_byte crc8 transport bus w ≡ done r)
        × Reads crc8 bus read r
  unfolding process_byte
  processed bus w (none, w') e h bytes = (
    (Error.not_done, bus, w', []),
    rw (e, process_byte) (ap (λ r. done (Error.not_done, bus, r.1, [])) e),
    record {
      through = (refl, refl);
      answers = tt;
      sound = h;
      others = refl;
      capacity = refl;
      behind = refl;
    },
  )
  processed bus w (some b, w') e h bytes =
      let ((err, d, logged), decodes, good) =
        decode_byte-IsGood crc8 bus.decoder b h (bytes b refl) in
      (
        (err, record bus { decoder = d }, w', logged),
        rw (e, process_byte, decodes)
            (ap (λ r. done (err, record bus { decoder = d }, r.1, logged)) e),
        record {
          through = decodes;
          answers = good.answers;
          sound = good.sound;
          others = refl;
          capacity = good.capacity;
          behind = refl;
        },
      )

  -- With a valid packet and a state of the enumeration in the decoder, and a transport that gives bytes,
  -- `processByte` ends: without a byte it answers NOT_DONE and the bus is as it was; otherwise the answer
  -- is the decoder's, which is NONE, NOT_DONE, CRC, TOO_MUCH_DATA or TOO_SMALL. The packet stays valid and
  -- the state in the enumeration, and nothing but the decoder changes in the bus.
  pub process_byte-Reads :
      (bus : Bus) (w : W)
      → IsSound bus.decoder
      → ((b : ℕ) → (transport.read_byte w).0 ≡ some b → IsByte b)
      → (r : Error × Bus × W × List LogEvent) × (process_byte crc8 transport bus w ≡ done r)
        × Reads crc8 bus (transport.read_byte w) r
  process_byte-Reads bus w h bytes = processed bus w (transport.read_byte w) refl h bytes
