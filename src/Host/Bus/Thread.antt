-- ===== src/Host/Bus/Thread.antt =====
-- The thread of duino_bus/bus.py as it reads a stream of bytes.
use mathlib.Core.Option.{some}
use duino_bus.Base.{
  ℕ, ◌≡◌, ◌≢◌, refl, ap, ◌∙◌, List, [], ◌∷◌, ◌++◌, Bool, true, Run, done, abort, ◌>>=◌,
}
use duino_bus.Host.{ErrorCode}
use duino_bus.Host.Decoder.{Decoder, decode_byte, feed}
use duino_bus.Host.Bus.{
  Bus, Port, Event, process_packet, process_byte, go_on, after_packet, after_byte, on_readable,
  incoming_data_thread,
}

-- A port that gives the bytes of a queue and is open while there are any. `put bs w` is `w` with the bytes
-- `bs` to be read.
pub record IsQueue {W : Type 0} (port : Port W) : Type 0 where
  pub put : List ℕ → W → W
  pub stays_open : (b : ℕ) (bs : List ℕ) (w : W) → port.is_open (put (b ∷ bs) w) ≡ true
  pub available : (b : ℕ) (bs : List ℕ) (w : W) → port.is_data_available (put (b ∷ bs) w) ≡ true
  pub reads : (b : ℕ) (bs : List ℕ) (w : W) → port.read_byte (put (b ∷ bs) w) ≡ (some b, put bs w)

-- One POLLIN for each byte.
abbrev pub readables : List ℕ → List Event
readables [] = []
readables (b ∷ bs) = Event.readable ∷ readables bs

module _ (crc_fn : List ℕ → ℕ → ℕ) (utf8 : List ℕ → Run (List ℕ)) {W : Type 0} (port : Port W)
    (queue : IsQueue port) where
  -- The thread on more events, if it still runs.
  abbrev pub continue : List Event → Bool × Bus × W → Bool × Bus × W
  continue events r = go_on r (λ bus w. incoming_data_thread crc_fn utf8 port events bus w)

  -- What the thread does with the decoder's answer to a byte.
  abbrev answered : Bus → List ℕ → W → ErrorCode × Decoder → Bool × Bus × W
  answered bus bs w (err, d) =
      after_byte crc_fn utf8 port bus (queue.put bs w)
        (done (err, record bus { decoder = d }, queue.put bs w))

  on_readable-byte :
      (bus : Bus) (b : ℕ) (bs : List ℕ) (w : W) (r : ErrorCode × Decoder)
      → decode_byte crc_fn bus.decoder b ≡ done r
      → process_byte crc_fn utf8 port bus (queue.put (b ∷ bs) w)
        ≡ done (r.0, record bus { decoder = r.1 }, queue.put bs w)
  unfolding process_byte
  on_readable-byte bus b bs w r e = rw (queue.available b bs w, queue.reads b bs w, e)

  thread-readable :
      (bus : Bus) (b : ℕ) (bs : List ℕ) (w : W) (events : List Event) (r : ErrorCode × Decoder)
      → decode_byte crc_fn bus.decoder b ≡ done r
      → incoming_data_thread crc_fn utf8 port (Event.readable ∷ events) bus (queue.put (b ∷ bs) w)
        ≡ continue events (
            after_byte crc_fn utf8 port bus
              (queue.put (b ∷ bs) w)
              (done (r.0, record bus { decoder = r.1 }, queue.put bs w)))
  unfolding incoming_data_thread on_readable
  thread-readable bus b bs w events r e =
      rw (queue.stays_open b bs w, incoming_data_thread)
        (ap (λ m. continue events (after_byte crc_fn utf8 port bus (queue.put (b ∷ bs) w) m))
          (on_readable-byte bus b bs w r e))

  -- A round of the caller of `feed`.
  abbrev fed : Run (ErrorCode × Decoder) → List ℕ → Run (ErrorCode × Decoder × List ℕ)
  fed r bs = do
    (err, d) ← r
    elim err [ ErrorCode.not_done ↦ feed crc_fn d bs | ended ↦ done (ended, d, bs) ]

  -- A stream whose last byte makes the decoder answer something else than NOT_DONE, with one POLLIN for
  -- each byte, is read to its end, and the packet is processed.
  pub thread-feed :
      (bs rest : List ℕ) (events : List Event) (bus : Bus) (w : W) (err : ErrorCode) (d' : Decoder)
      → feed crc_fn bus.decoder bs ≡ done (err, d', [])
      → err ≢ ErrorCode.not_done
      → incoming_data_thread crc_fn utf8 port
          (readables bs ++ events)
          bus
          (queue.put (bs ++ rest) w)
        ≡ continue events (
            after_packet
              (record bus { decoder = d' })
              (queue.put rest w)
              (process_packet crc_fn utf8 (record bus { decoder = d' })))
  unfolding feed
  thread-feed [] rest events bus w err d' e h = absurd (h (cc))
  thread-feed (b ∷ bs) rest events bus w err d' e h =
      go (decode_byte crc_fn bus.decoder b) refl e
        (λ d. thread-feed bs rest events (record bus { decoder = d }) w err d')
    where
      go :
          (r : Run (ErrorCode × Decoder))
          → decode_byte crc_fn bus.decoder b ≡ r
          → fed r bs ≡ done (err, d', [])
          → ((d : Decoder)
              → feed crc_fn d bs ≡ done (err, d', [])
              → err ≢ ErrorCode.not_done
              → incoming_data_thread crc_fn utf8 port
                  (readables bs ++ events)
                  (record bus { decoder = d })
                  (queue.put (bs ++ rest) w)
                ≡ continue events (
                    after_packet
                      (record bus { decoder = d' })
                      (queue.put rest w)
                      (process_packet crc_fn utf8 (record bus { decoder = d' }))))
          → incoming_data_thread crc_fn utf8 port
              (readables (b ∷ bs) ++ events)
              bus
              (queue.put ((b ∷ bs) ++ rest) w)
            ≡ continue events (
                after_packet
                  (record bus { decoder = d' })
                  (queue.put rest w)
                  (process_packet crc_fn utf8 (record bus { decoder = d' })))
      go abort q e' later = absurd (cc)
      go (done (ErrorCode.not_done, d)) q e' later =
          thread-readable bus b (bs ++ rest) w (readables bs ++ events) (ErrorCode.not_done, d) q
          ∙ later d e' h
      go (done (err', d)) q e' later =
          let same : ◌≡◌ {A = ErrorCode × Decoder × List ℕ} (err', d, bs) (err, d', []) = cc in
          thread-readable bus b (bs ++ rest) w (readables bs ++ events) (err', d) q
          ∙ ap
              (λ (x : ErrorCode × Decoder × List ℕ). continue (readables x.2 ++ events) (
                after_packet (record bus { decoder = x.1 }) (queue.put (x.2 ++ rest) w)
                  (process_packet crc_fn utf8 (record bus { decoder = x.1 }))))
              same
