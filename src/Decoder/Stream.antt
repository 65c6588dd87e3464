-- ===== src/Decoder/Stream.antt =====
-- The calls of `decodeByte` on a whole stream, whatever they answer.
use mathlib.Core.Path.{subst}
use duino_bus.Base.{ℕ, ◌≡◌, refl, ◌∙◌, arith, List, [], ◌∷◌, Run, done, abort, ◌>>=◌, IsBytes}
use duino_bus.Crc8.{Crc8}
use duino_bus.Packet.{Error}
use duino_bus.Decoder.{Decoder, Reply, decode_byte, feed}
use duino_bus.Decoder.Safe.{IsSound, decode_byte-IsGood}

module _ (crc8 : Crc8) where
  -- The calls of `decodeByte` on a stream, by a caller that reads on whatever the answers are.
  unfoldable pub decode_all : Decoder → List ℕ → Run Decoder
  decode_all d [] = done d
  decode_all d (b ∷ bs) = do (err, d', logged) ← decode_byte crc8 d b; decode_all d' bs

  -- A caller that stops at the first answer, at the end of the stream, has read it all.
  feed_on :
      (d d' : Decoder) (b : ℕ) (bs : List ℕ) (err : Error) (r : Run Reply)
      → decode_byte crc8 d b ≡ r
      → ((m : Decoder) → feed crc8 m bs ≡ done (err, d', []) → decode_all m bs ≡ done d')
      → feed crc8 d (b ∷ bs) ≡ done (err, d', [])
      → decode_all d (b ∷ bs) ≡ done d'
  unfolding feed decode_all
  feed_on d d' b bs err abort h later e = absurd (cc)
  feed_on d d' b bs err (done (Error.not_done, m, logged)) h later e = rw h (later m (rw h at e))
  feed_on d d' b [] err (done (e0, m, logged)) h later e = ground arith
  feed_on d d' b (x ∷ bs) err (done (e0, m, logged)) h later e = absurd (ground arith)

  pub decode_all-feed :
      (d d' : Decoder) (bs : List ℕ) (err : Error)
      → feed crc8 d bs ≡ done (err, d', [])
      → decode_all d bs ≡ done d'
  decode_all-feed d d' [] err e = unfold feed decode_all in cc
  decode_all-feed d d' (b ∷ bs) err e =
      feed_on d d' b bs err (decode_byte crc8 d b) refl (λ m h. decode_all-feed m d' bs err h) e

  -- What stays true over any number of calls.
  pub decode_all-IsSound :
      (d d' : Decoder) (bs : List ℕ)
      → IsSound d
      → IsBytes bs
      → decode_all d bs ≡ done d'
      → IsSound d' × (d'.packet.max_data_len ≡ d.packet.max_data_len)
  unfolding decode_all
  decode_all-IsSound d d' [] h hb e =
      let ended : d ≡ d' = cc in
      subst (λ (x : Decoder). IsSound x × (x.packet.max_data_len ≡ d.packet.max_data_len)) ended
        (h, refl)
  decode_all-IsSound d d' (b ∷ bs) h hb e =
      let (reply, decodes, good) = decode_byte-IsGood crc8 d b h hb.0 in
      let (sound, same) = decode_all-IsSound reply.1 d' bs good.sound hb.1 (rw decodes at e) in
      (sound, same ∙ good.capacity)
