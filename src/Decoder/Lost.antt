-- ===== src/Decoder/Lost.antt =====
-- A caller that waits for a packet, as `while (bus.processByte() != NONE)` does, after an error.
use mathlib.Core.Path.{subst}
use duino_bus.Base.{ℕ, ◌≡◌, refl, ◌∙◌, List, [], ◌∷◌, ◌⊎◌, inl, inr, Run, done, ◌>>=◌, IsBytes}
use duino_bus.Crc8.{Crc8}
use duino_bus.Packet.{Error}
use duino_bus.Decoder.{Decoder, State, Reply, decode_byte}
use duino_bus.Decoder.Safe.{IsSound, decode_byte-IsGood}
use duino_bus.Decoder.Sync.{Held, decode_byte-Held}

module _ (crc8 : Crc8) where
  -- The calls of `decodeByte` on a stream until one answers NONE, read on over every other answer: NONE
  -- with what is left of the stream, or NOT_DONE at its end.
  unfoldable pub receive : Decoder → List ℕ → Run (Error × Decoder × List ℕ)
  receive d [] = done (Error.not_done, d, [])
  receive d (b ∷ bs) = do
    (err, d', logged) ← decode_byte crc8 d b
    elim err [ Error.none ↦ done (Error.none, d', bs) | other ↦ receive d' bs ]

  -- It has received a packet, or it is in the DATA state at the end of the stream; with this command.
  abbrev pub Keeps : ℕ → Error × Decoder × List ℕ → Type 0
  Keeps cmd (err, d, rest) =
      (d.packet.command ≡ cmd)
      × ((err ≡ Error.none) ⊎ ((err ≡ Error.not_done) × (d.state ≡ State.payload)))

  abbrev KeepsFrom : Decoder → List ℕ → Type 0
  KeepsFrom d bs =
      (r : Error × Decoder × List ℕ) × (receive d bs ≡ done r) × Keeps d.packet.command r

  reads_on :
      (d : Decoder) (b : ℕ) (bs : List ℕ) (reply : Reply)
      → decode_byte crc8 d b ≡ done reply
      → Held d (done reply)
      → (reply.1.state ≡ State.payload → KeepsFrom reply.1 bs)
      → KeepsFrom d (b ∷ bs)
  unfolding receive
  reads_on d b bs (Error.none, d', logged) e (same, how) later =
      ((Error.none, d', bs), rw e, (same, inl refl))
  reads_on d b bs (err, d', logged) e (same, inl ended) later = absurd (cc)
  reads_on d b bs (err, d', logged) e (same, inr inside) later =
      let (r, goes, keeps) = later inside in (r, rw e goes, (keeps.0 ∙ same, keeps.1))

  -- A decoder in the DATA state with a valid packet is given any stream of bytes by a caller that reads
  -- on over every error until it has received a packet. No `assert` fails; if the caller receives a
  -- packet, it has the command that the decoder's packet had at the start, and if it receives none, the
  -- decoder is still in the DATA state at the end of the stream, with that command.
  pub receive-Keeps :
      (d : Decoder) (bs : List ℕ)
      → IsSound d
      → IsBytes bs
      → d.state ≡ State.payload
      → (r : Error × Decoder × List ℕ) × (receive d bs ≡ done r) × Keeps d.packet.command r
  unfolding receive
  receive-Keeps d [] h hb inside = ((Error.not_done, d, []), refl, (refl, inr (refl, inside)))
  receive-Keeps d (b ∷ bs) h hb inside =
      let (reply, e, good) = decode_byte-IsGood crc8 d b h hb.0 in
      let held : Held d (done reply) = subst (Held d) e (decode_byte-Held crc8 d b inside) in
      reads_on d b bs reply e held (λ inside'. receive-Keeps reply.1 bs good.sound hb.1 inside')
