-- ===== src/ArduinoSerialBus/Read.antt =====
-- A caller that polls `processByte` over an Arduino serial port.
use mathlib.Core.Path.{subst}
use mathlib.Core.Option.{some}
use duino_bus.Base.{
  ℕ, zero, suc, ◌+◌, ◌*◌, ◌%◌, ◌≡◌, refl, sym, ap, ◌∙◌, arith, List, [], ◌∷◌, ℤ, pos, negsuc, Run,
  done, abort, ◌>>=◌, length, IsByte, IsBytes, ltb, le→ltb_false, false,
}
use duino_bus.Crc8.{Crc8}
use duino_bus.Packet.{Error, LogEvent}
use duino_bus.Decoder.{Decoder, Reply, decode_byte, feed}
use duino_bus.Decoder.Safe.{IsSound, feed-Left}
use duino_bus.Bus.{Bus, process_byte}
use duino_bus.ArduinoSerialBus.{HardwareSerial, to_byte, read_byte, transport}

-- The bytes that results of `read` stand for: a negative one is no byte, and `b + 256 * q` is the byte `b`.
abbrev pub Carries : List ℤ → List ℕ → Type 0
Carries [] bytes = bytes ≡ []
Carries (negsuc k ∷ ints) bytes = Carries ints bytes
Carries (pos n ∷ ints) bytes =
    (b : ℕ) × (q : ℕ) × (later : List ℕ) × (bytes ≡ b ∷ later)
    × IsByte b
    × (n ≡ b + 256 * q)
    × Carries ints later

Carries-IsBytes : (ints : List ℤ) (bytes : List ℕ) → Carries ints bytes → IsBytes bytes
Carries-IsBytes [] bytes h = rw h tt
Carries-IsBytes (negsuc k ∷ ints) bytes h = Carries-IsBytes ints bytes h
Carries-IsBytes (pos n ∷ ints) bytes (b, q, later, e, hb, low, h) =
    rw e (hb, Carries-IsBytes ints later h)

-- A port that gives a sequence of results, one by one. `give ints w` is `w` with these to come.
pub record IsLine {W : Type 0} (serial : HardwareSerial W) : Type 0 where
  pub give : List ℤ → W → W
  pub reads : (i : ℤ) (ints : List ℤ) (w : W) → serial.read (give (i ∷ ints) w) ≡ (i, give ints w)

module _ (crc8 : Crc8) {W : Type 0} (serial : HardwareSerial W) where
  -- Calls of `processByte` until one answers something else than NOT_DONE, at most so many.
  unfoldable pub poll : ℕ → Bus → W → Run (Error × Bus × W)
  poll zero bus w = done (Error.not_done, bus, w)
  poll (suc n) bus w = do
    (err, bus', w', logged) ← process_byte crc8 (transport serial) bus w
    elim err [ Error.not_done ↦ poll n bus' w' | ended ↦ done (ended, bus', w') ]

  module _ (line : IsLine serial) where
    gives :
        (i : ℤ) (ints : List ℤ) (w : W)
        → read_byte serial (line.give (i ∷ ints) w) ≡ (to_byte i, line.give ints w)
    unfolding read_byte
    gives i ints w = ap (λ r. (to_byte r.0, r.1)) (line.reads i ints w)

    process_byte-none :
        (k : ℕ) (ints : List ℤ) (bus : Bus) (w : W)
        → process_byte crc8 (transport serial) bus (line.give (negsuc k ∷ ints) w)
          ≡ done (Error.not_done, bus, line.give ints w, [])
    unfolding process_byte to_byte
    process_byte-none k ints bus w =
        let e = gives (negsuc k) ints w in
        rw (e, process_byte) (ap (λ r. done (Error.not_done, bus, r.1, [])) e)

    process_byte-byte :
        (n b q : ℕ) (ints : List ℤ) (bus : Bus) (w : W) (d : Decoder) (err : Error)
        (logged : List LogEvent)
        → IsByte b
        → n ≡ b + 256 * q
        → decode_byte crc8 bus.decoder b ≡ done (err, d, logged)
        → process_byte crc8 (transport serial) bus (line.give (pos n ∷ ints) w)
          ≡ done (err, record bus { decoder = d }, line.give ints w, logged)
    unfolding process_byte to_byte
    process_byte-byte n b q ints bus w d err logged hb low decodes =
        let low_bits : n % 256 ≡ b = omega arith in
        let at_least : ltb n 0 ≡ false = le→ltb_false n 0 (omega arith) in
        let byte : to_byte (pos n) ≡ some b = rw (at_least, low_bits) in
        let e = gives (pos n) ints w ∙ ap (λ x. (x, line.give ints w)) byte in
        rw (e, process_byte, decodes)
          (ap (λ r. done (err, record bus { decoder = d }, r.1, logged)) e)

    poll-none :
        (k : ℕ) (ints : List ℤ) (bus : Bus) (w : W)
        → poll (suc (length ints)) bus (line.give (negsuc k ∷ ints) w)
          ≡ poll (length ints) bus (line.give ints w)
    unfolding poll
    poll-none k ints bus w = rw (process_byte-none k ints bus w)

    -- The caller's bus and what is still to be read, where `feed` gives `r`.
    abbrev Polls : ℕ → List ℤ → Bus → W → Error × Decoder × List ℕ → Type 0
    Polls n ints bus w (err, d, rest) =
        (left : List ℤ) × (poll n bus (line.give ints w)
          ≡ done (err, record bus { decoder = d }, line.give left w))
        × Carries left rest

    one_byte :
        (n b q : ℕ) (ints : List ℤ) (later : List ℕ) (bus : Bus) (w : W) (m : Run Reply)
        (r : Error × Decoder × List ℕ)
        → IsByte b
        → n ≡ b + 256 * q
        → Carries ints later
        → decode_byte crc8 bus.decoder b ≡ m
        → feed crc8 bus.decoder (b ∷ later) ≡ done r
        → ((d : Decoder)
            → feed crc8 d later ≡ done r
            → Polls (length ints) ints (record bus { decoder = d }) w r)
        → Polls (suc (length ints)) (pos n ∷ ints) bus w r
    unfolding feed poll
    one_byte n b q ints later bus w abort r hb low h e fed others = absurd (cc)
    one_byte n b q ints later bus w (done (Error.not_done, d, logged)) r hb low h e fed others =
        let (left, polls, carries) = others d (rw e at fed) in
        (
          left,
          rw (process_byte-byte n b q ints bus w d Error.not_done logged hb low e) polls,
          carries,
        )
    one_byte n b q ints later bus w (done (err, d, logged)) r hb low h e fed others =
        let same : ◌≡◌ {A = Error × Decoder × List ℕ} (err, d, later) r = cc in
        (
          ints,
          rw (process_byte-byte n b q ints bus w d err logged hb low e)
              (λ i. done ((same i).0, record bus { decoder = (same i).1 }, line.give ints w)),
          subst (λ (x : Error × Decoder × List ℕ). Carries ints x.2) same h,
        )

    polls :
        (ints : List ℤ) (bytes : List ℕ) (bus : Bus) (w : W) (r : Error × Decoder × List ℕ)
        → Carries ints bytes
        → feed crc8 bus.decoder bytes ≡ done r
        → Polls (length ints) ints bus w r
    unfolding feed poll
    polls [] bytes bus w r h fed =
        let none_fed : feed crc8 bus.decoder [] ≡ done r = rw h at fed in
        let same : ◌≡◌ {A = Error × Decoder × List ℕ} (Error.not_done, bus.decoder, []) r = cc in
        (
          [],
          (λ i. done ((same i).0, record bus { decoder = (same i).1 }, line.give [] w)),
          ap (λ x. x.2) (sym same),
        )
    polls (negsuc k ∷ ints) bytes bus w r h fed =
        let (left, ends, carries) = polls ints bytes bus w r h fed in
        (left, poll-none k ints bus w ∙ ends, carries)
    polls (pos n ∷ ints) bytes bus w r (b, q, later, e, hb, low, h) fed =
        one_byte n b q ints later bus w (decode_byte crc8 bus.decoder b) r hb low h refl
          (rw e at fed) (λ d rest. polls ints later (record bus { decoder = d }) w r h rest)

    -- A decoder with a valid packet and a state of the enumeration is polled with `processByte` over a
    -- serial port that gives a sequence of `int`s: a negative one is no byte, and `b + 256 * q` is the
    -- byte `b`. No more calls than `int`s end with the answer, and the decoder, that the calls of
    -- `decodeByte` on the bytes alone end with, in the order in which they come and with nothing else
    -- changed in the bus; what the port has still to give are the bytes that these calls have not taken.
    pub poll-feed :
        (ints : List ℤ) (bytes : List ℕ) (bus : Bus) (w : W)
        → IsSound bus.decoder
        → Carries ints bytes
        → (err : Error) × (d : Decoder) × (rest : List ℕ) × (left : List ℤ) × (feed crc8 bus.decoder
              bytes
            ≡ done (err, d, rest))
          × (poll (length ints) bus (line.give ints w)
              ≡ done (err, record bus { decoder = d }, line.give left w))
          × Carries left rest
    poll-feed ints bytes bus w h carries =
        let (r, fed, good) =
          feed-Left crc8 bus.decoder bytes h (Carries-IsBytes ints bytes carries) in
        let (left, ends, others) = polls ints bytes bus w r carries fed in
        (r.0, r.1, r.2, left, fed, ends, others)
