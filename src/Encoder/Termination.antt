-- ===== src/Encoder/Termination.antt =====
-- The loop of `IBus::writePacket` (src/Bus.cpp) ends, wherever in a packet the encoder stands.
use mathlib.Core.Option.{some}
use duino_bus.Base.{
  ℕ, zero, suc, ◌+◌, ◌-◌, ◌*◌, ◌≤◌, ◌<◌, ◌≡◌, refl, sym, ap, ◌∙◌, arith, List, [], ◌∷◌, Bool, done,
  length, IsBytes,
}
use duino_bus.Crc8.{Crc8}
use duino_bus.Packet.{Packet, Error}
use duino_bus.Packet.Bounds.{IsValid}
use duino_bus.Encoder.{Encoder, State, encode_in, encode_byte, write_loop, send, handle_escape}
use duino_bus.Encoder.States.{IsReady, IsGood, InRange, encode_byte-IsGood}

-- How many rounds are left at most: two for a byte, one for a byte whose escape has been sent, and one
-- for each END.
abbrev pub rounds_in : State → ℕ → ℕ → ℕ
rounds_in State.idle i n = 2 * n + 6
rounds_in State.command i n = 2 * n + 5
rounds_in State.payload i n = 2 * (n + 1 - i) + 1
rounds_in State.escape i n = 2 * (n + 1 - i) + 2
rounds_in (State.other k) i n = 0

abbrev pub rounds : Packet → Encoder → ℕ
rounds p e = rounds_in e.state e.encode_idx p.data_len

encode_in-falls :
    (crc8 : Crc8) (p : Packet) (d : Bool) (s : State) (i c x b : ℕ) (e' : Encoder)
    → IsValid p
    → InRange s i p.data_len
    → encode_in crc8 s
        (record { packet = some p; state = s; encode_idx = i; escape_char = c; debug = d })
        x
      ≡ done (Error.not_done, b, e')
    → rounds p e' < rounds_in s i p.data_len
unfolding encode_in send handle_escape
encode_in-falls crc8 p d State.idle i c x b e' v h e = ground arith
encode_in-falls crc8 p d State.command i c x b e' v h e = ground arith
encode_in-falls crc8 p d State.payload i c x b e' v h e = ground arith
encode_in-falls crc8 p d State.escape i c x b e' v h e = ground arith
encode_in-falls crc8 p d (State.other k) i c x b e' v h e = cc

encode_byte-falls :
    (crc8 : Crc8) (p : Packet) (e : Encoder) (x b : ℕ) (e' : Encoder)
    → IsReady p e
    → encode_byte crc8 e x ≡ done (Error.not_done, b, e')
    → rounds p e' < rounds p e
unfolding encode_byte
encode_byte-falls crc8 p e x b e' h falls =
    encode_in-falls crc8 p e.debug e.state e.encode_idx e.escape_char x b e' h.valid h.in_range
      (ap (λ q. encode_in crc8 e.state (record e { packet = q }) x) (sym h.holds) ∙ falls)

-- How the loop ends.
pub record Ends (p : Packet) (limit : ℕ) (r : Error × List ℕ × Encoder) : Type 0 where
  pub error : r.0 ≡ Error.none
  pub bytes : IsBytes r.1
  pub few : length r.1 ≤ limit
  pub at_idle : r.2.state ≡ State.idle
  pub ready : IsReady p r.2

abbrev EndsFrom : Crc8 → Packet → ℕ → Encoder → ℕ → Type 0
EndsFrom crc8 p n e x =
    (r : Error × List ℕ × Encoder) × ((fuel : ℕ) → n ≤ fuel → write_loop crc8 fuel e x ≡ done r)
    × Ends p n r

some_round : (p : Packet) (e : Encoder) → IsReady p e → 1 ≤ rounds p e
some_round p e h = positive e.state h.in_range
  where
    positive :
        (s : State) → InRange s e.encode_idx p.data_len → 1 ≤ rounds_in s e.encode_idx p.data_len
    positive State.idle r = omega arith
    positive State.command r = omega arith
    positive State.payload r = omega arith
    positive State.escape r = omega arith
    positive (State.other k) r = absurd r

write_loop-first :
    (crc8 : Crc8) (fuel : ℕ) (e : Encoder) (x b : ℕ) (e' : Encoder) (r : Error × List ℕ × Encoder)
    → encode_byte crc8 e x ≡ done (Error.not_done, b, e')
    → write_loop crc8 fuel e' b ≡ done r
    → write_loop crc8 (suc fuel) e x ≡ done (r.0, b ∷ r.1, r.2)
unfolding write_loop
write_loop-first crc8 fuel e x b e' r first rest = rw (first, rest)

write_loop-last :
    (crc8 : Crc8) (fuel : ℕ) (e : Encoder) (x b : ℕ) (e' : Encoder)
    → encode_byte crc8 e x ≡ done (Error.none, b, e')
    → write_loop crc8 (suc fuel) e x ≡ done (Error.none, b ∷ [], e')
unfolding write_loop
write_loop-last crc8 fuel e x b e' last = rw last

ends_from :
    (crc8 : Crc8) (p : Packet) (n : ℕ) (e : Encoder) (x : ℕ)
    → IsReady p e
    → rounds p e ≤ n
    → EndsFrom crc8 p n e x
ends_from crc8 p zero e x h enough = absurd (omega (arith, some_round p e h))
ends_from crc8 p (suc n) e x h enough =
    let (r, step, good) = encode_byte-IsGood crc8 p e x h in
    go r.0 r.1 r.2 step good (λ e' b. ends_from crc8 p n e' b)
  where
    more :
        (b : ℕ) (e' : Encoder) (r : Error × List ℕ × Encoder)
        → encode_byte crc8 e x ≡ done (Error.not_done, b, e')
        → ((fuel : ℕ) → n ≤ fuel → write_loop crc8 fuel e' b ≡ done r)
        → (fuel : ℕ) → suc n ≤ fuel
        → write_loop crc8 fuel e x ≡ done (r.0, b ∷ r.1, r.2)
    more b e' r step ends zero k = absurd (omega arith)
    more b e' r step ends (suc fuel) k =
        write_loop-first crc8 fuel e x b e' r step (ends fuel (omega arith))

    once :
        (b : ℕ) (e' : Encoder)
        → encode_byte crc8 e x ≡ done (Error.none, b, e')
        → (fuel : ℕ) → suc n ≤ fuel
        → write_loop crc8 fuel e x ≡ done (Error.none, b ∷ [], e')
    once b e' step zero k = absurd (omega arith)
    once b e' step (suc fuel) k = write_loop-last crc8 fuel e x b e' step

    go :
        (err : Error) (b : ℕ) (e' : Encoder)
        → encode_byte crc8 e x ≡ done (err, b, e')
        → IsGood p (err, b, e')
        → ((e'' : Encoder) (b'' : ℕ) → IsReady p e'' → rounds p e'' ≤ n → EndsFrom crc8 p n e'' b'')
        → EndsFrom crc8 p (suc n) e x
    go Error.not_done b e' step good later =
        let (r, ends, how) =
          later e' b good.ready (omega (arith, encode_byte-falls crc8 p e x b e' h step)) in
        (
          (r.0, b ∷ r.1, r.2),
          more b e' r step ends,
          record {
            error = how.error;
            bytes = (good.byte, how.bytes);
            few = omega (arith, how.few);
            at_idle = how.at_idle;
            ready = how.ready;
          },
        )
    go Error.none b e' step good later = (
      (Error.none, b ∷ [], e'),
      once b e' step,
      record {
        error = refl;
        bytes = (good.byte, tt);
        few = omega arith;
        at_idle = good.goes;
        ready = good.ready;
      },
    )
    go err b e' step good later = absurd good.goes

-- Wherever in a valid packet the encoder stands, the loop of `writePacket` ends: there are an answer, bytes
-- and an encoder that the loop gives with `rounds` rounds and with any number more. The answer is NONE,
-- what is written is bytes and at most `rounds` of them (2 * n + 6 before a packet with n bytes of data),
-- and the encoder is idle, on the same packet, with its index in range.
pub write_loop-ends :
    (crc8 : Crc8) (p : Packet) (e : Encoder) (x : ℕ)
    → IsReady p e
    → (r : Error × List ℕ × Encoder) × ((k : ℕ) → write_loop crc8 (rounds p e + k) e x ≡ done r)
      × Ends p (rounds p e) r
write_loop-ends crc8 p e x h =
    let (r, ends, how) = ends_from crc8 p (rounds p e) e x h (omega arith) in
    (r, λ k. ends (rounds p e + k) (omega arith), how)
