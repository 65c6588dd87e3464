-- ===== src/Wire/Bytes.antt =====
-- What the encoder has still to give, and what the decoder makes of a stream.
use mathlib.Core.Option.{Option, none, some}
use duino_bus.Base.{
  ℕ, zero, suc, ◌+◌, ◌*◌, ◌≡◌, ◌≢◌, refl, sym, ap, ◌∙◌, arith, List, [], ◌∷◌, ◌++◌, Run, done,
  abort, map_run, map_run-eq-done,
}
use duino_bus.Crc8.{Crc8}
use duino_bus.Packet.{Packet, Error, get_data, calc_crc}
use duino_bus.Packet.Bounds.{IsValid}
use duino_bus.Encoder.{Encoder, encode_start, encode_byte, write_loop, after_byte}
use duino_bus.Encoder.Frame.{frame}
use duino_bus.Encoder.Writes.{sent, write_loop-frame}

-- The frames of packets, one behind the other.
abbrev pub frames : Crc8 → List Packet → List ℕ
frames crc8 [] = []
frames crc8 (p ∷ ps) = frame p.command (get_data p) (calc_crc crc8 p) ++ frames crc8 ps

module _ (crc8 : Crc8) where
  -- The bytes that the loop has still to write.
  abbrev pub Gives : Encoder → Option ℕ → List ℕ → Type 0
  Gives e none rest = rest ≡ []
  Gives e (some x) rest =
      (fuel : ℕ) × (e' : Encoder) × (write_loop crc8 fuel e x ≡ done (Error.none, rest, e'))

  pub encode_start-Gives :
      (e : Encoder) (p : Packet) (x : ℕ)
      → IsValid p
      → Gives (encode_start crc8 e p).1 (some x) (frame p.command (get_data p) (calc_crc crc8 p))
  encode_start-Gives e p x v =
      let (r, loops, same) =
        map_run-eq-done sent (write_loop crc8 (2 * p.data_len + 6) (encode_start crc8 e p).1 x)
          (write_loop-frame crc8 e p (2 * p.data_len + 6) x v (omega arith)) in
      (2 * p.data_len + 6, r.2, loops ∙ (λ i. done ((same i).error, (same i).bytes, r.2)))

  -- The encoder of a loop that ends does not fail.
  pub encode_byte-Gives :
      (e : Encoder) (x : ℕ) (rest : List ℕ)
      → Gives e (some x) rest
      → (r : Error × ℕ × Encoder) × (encode_byte crc8 e x ≡ done r)
  unfolding write_loop
  encode_byte-Gives e x rest (zero, e', h) = absurd (cc)
  encode_byte-Gives e x rest (suc fuel, e', h) = ends (encode_byte crc8 e x) refl
    where
      ends :
          (r : Run (Error × ℕ × Encoder))
          → encode_byte crc8 e x ≡ r
          → (r' : Error × ℕ × Encoder) × (r ≡ done r')
      ends abort q = absurd (ground (arith, q))
      ends (done r) q = (r, refl)

  -- A round that goes on gives the first of the bytes.
  pub Gives-on :
      (e : Encoder) (x : ℕ) (rest : List ℕ) (b : ℕ) (e1 : Encoder)
      → Gives e (some x) rest
      → encode_byte crc8 e x ≡ done (Error.not_done, b, e1)
      → (later : List ℕ) × (rest ≡ b ∷ later) × Gives e1 (some b) later
  unfolding write_loop
  Gives-on e x rest b e1 (zero, e', h) q = absurd (cc)
  Gives-on e x rest b e1 (suc fuel, e', h) q = gives (write_loop crc8 fuel e1 b) refl (rw q at h)
    where
      gives :
          (r : Run (Error × List ℕ × Encoder))
          → write_loop crc8 fuel e1 b ≡ r
          → map_run (after_byte b) r ≡ done (Error.none, rest, e')
          → (later : List ℕ) × (rest ≡ b ∷ later) × Gives e1 (some b) later
      gives abort l h' = absurd (cc)
      gives (done (err, later, e2)) l h' =
          let same : (err ≡ Error.none) × (b ∷ later ≡ rest) × (e2 ≡ e') = (cc, cc, cc) in
          (later, sym same.1, (fuel, e2, l ∙ ap (λ x. done (x, later, e2)) same.0))

  -- The round that ends the loop gives the last of them, and answers NONE.
  pub Gives-end :
      (e : Encoder) (x : ℕ) (rest : List ℕ) (b : ℕ) (err : Error) (e1 : Encoder)
      → Gives e (some x) rest
      → encode_byte crc8 e x ≡ done (err, b, e1)
      → err ≢ Error.not_done
      → (err ≡ Error.none) × (rest ≡ b ∷ [])
  unfolding write_loop
  Gives-end e x rest b err e1 (zero, e', h) q stops = absurd (cc)
  Gives-end e x rest b Error.not_done e1 (suc fuel, e', h) q stops = absurd (stops refl)
  Gives-end e x rest b err e1 (suc fuel, e', h) q stops =
      let found : ◌≡◌ {A = Run (Error × List ℕ × Encoder)} (done (err, b ∷ [], e1))
          (done (Error.none, rest, e')) =
        rw q at h in
      (cc, cc)
