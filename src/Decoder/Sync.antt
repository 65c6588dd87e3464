-- ===== src/Decoder/Sync.antt =====
-- How the decoder finds the start of a frame, and what an error does to that.
use duino_bus.Base.{
  ℕ, zero, suc, ◌≡◌, ◌≢◌, refl, sym, ◌∙◌, arith, List, [], ◌∷◌, ◌++◌, Bool, false, ◌⊎◌, Run, done,
  abort, All, replicate,
}
use duino_bus.Crc8.{Crc8}
use duino_bus.Packet.{Packet, Error, LogEvent, end_byte, append_byte, extract_crc}
use duino_bus.Encoder.Frame.{frame}
use duino_bus.Decoder.{
  Decoder, State, Reply, unescape, store_byte, begin_packet, check_crc, end_packet, switch,
  decode_byte, feed,
}
use duino_bus.Decoder.Feed.{decoder, feed_open, feed_empty_frame, feed_noise}

module _ (crc8 : Crc8) (g : Bool) (p : Packet) where
  -- Bytes that are no END leave an idle decoder alone.
  feed_noise-All :
      (noise rest : List ℕ)
      → All (λ b. b ≢ end_byte) noise
      → feed crc8 (decoder p State.idle false g) (noise ++ rest)
        ≡ feed crc8 (decoder p State.idle false g) rest
  feed_noise-All [] rest h = refl
  feed_noise-All (b ∷ noise) rest h =
      feed_noise crc8 p g b (noise ++ rest) h.0 ∙ feed_noise-All noise rest h.1

  feed_more_ends :
      (k : ℕ) (rest : List ℕ)
      → feed crc8 (decoder p State.command false g) (replicate k end_byte ++ rest)
        ≡ feed crc8 (decoder p State.command false g) rest
  feed_more_ends zero rest = refl
  feed_more_ends (suc k) rest =
      feed_empty_frame crc8 p g (replicate k end_byte ++ rest) ∙ feed_more_ends k rest

  feed_ends :
      (k : ℕ) (rest : List ℕ)
      → feed crc8 (decoder p State.idle false g) (replicate k end_byte ++ (end_byte ∷ rest))
        ≡ feed crc8 (decoder p State.idle false g) (end_byte ∷ rest)
  feed_ends zero rest = refl
  feed_ends (suc k) rest =
      feed_open crc8 p g (replicate k end_byte ++ (end_byte ∷ rest))
      ∙ feed_more_ends k (end_byte ∷ rest)
      ∙ feed_empty_frame crc8 p g rest
      ∙ sym (feed_open crc8 p g rest)

  -- An idle decoder takes a frame behind noise without an END, and behind any number of further
  -- ENDs, as it takes the frame alone.
  pub feed_lead_in :
      (noise : List ℕ) (k cmd : ℕ) (bytes : List ℕ) (c : ℕ) (rest : List ℕ)
      → All (λ b. b ≢ end_byte) noise
      → feed crc8
          (decoder p State.idle false g)
          (noise ++ (replicate k end_byte ++ (frame cmd bytes c ++ rest)))
        ≡ feed crc8 (decoder p State.idle false g) (frame cmd bytes c ++ rest)
  unfolding frame
  feed_lead_in noise k cmd bytes c rest h = feed_noise-All noise _ h ∙ feed_ends k _

-- A call in the DATA state keeps the command, and leaves that state only with NONE.
abbrev pub Held : Decoder → Run Reply → Type 0
Held d (done r) =
    (r.1.packet.command ≡ d.packet.command) × ((r.0 ≡ Error.none) ⊎ (r.1.state ≡ State.payload))
Held d abort = Unit

module _ (crc8 : Crc8) where
  switch-Held :
      (d : Decoder) (b : ℕ) → d.state ≡ State.payload → Held d (switch crc8 State.payload d b)
  unfolding switch store_byte end_packet check_crc append_byte extract_crc
  switch-Held d b h = ground arith

  pub decode_byte-Held :
      (d : Decoder) (b : ℕ) → d.state ≡ State.payload → Held d (decode_byte crc8 d b)
  unfolding decode_byte
  decode_byte-Held d b h = ground (arith, switch-Held d b h, switch-Held d (unescape b) h)

abbrev Failed : Error → Type 0
Failed err = (err ≡ Error.crc) ⊎ (err ≡ Error.too_much_data) ⊎ (err ≡ Error.too_small)

switch-Failed :
    (crc8 : Crc8) (s : State) (d d' : Decoder) (b : ℕ) (err : Error) (logged : List LogEvent)
    → switch crc8 s d b ≡ done (err, d', logged)
    → Failed err
    → s ≡ State.payload
unfolding switch begin_packet
switch-Failed crc8 State.idle d d' b err logged h e = absurd (ground arith)
switch-Failed crc8 State.command d d' b err logged h e = absurd (ground arith)
switch-Failed crc8 State.payload d d' b err logged h e = refl
switch-Failed crc8 (State.other n) d d' b err logged h e = absurd (ground arith)

decode_byte-Failed :
    (crc8 : Crc8) (d d' : Decoder) (b : ℕ) (err : Error) (logged : List LogEvent)
    → decode_byte crc8 d b ≡ done (err, d', logged)
    → Failed err
    → d.state ≡ State.payload
unfolding decode_byte
decode_byte-Failed crc8 d d' b err logged h e = ground (
  arith,
  switch-Failed crc8 d.state d d' b err logged,
  switch-Failed crc8 d.state d d' (unescape b) err logged,
)

-- A call of `decodeByte` that answers CRC, TOO_MUCH_DATA or TOO_SMALL was made in the DATA state
-- and leaves the decoder there, with the command of the frame that failed.
pub decode_byte_error :
    (crc8 : Crc8) (d d' : Decoder) (b : ℕ) (err : Error) (logged : List LogEvent)
    → decode_byte crc8 d b ≡ done (err, d', logged)
    → Failed err
    → (d.state ≡ State.payload)
      × (d'.state ≡ State.payload)
      × (d'.packet.command ≡ d.packet.command)
decode_byte_error crc8 d d' b err logged h e =
    let inside : d.state ≡ State.payload = decode_byte-Failed crc8 d d' b err logged h e in
    ground (arith, decode_byte-Held crc8 d b inside)
