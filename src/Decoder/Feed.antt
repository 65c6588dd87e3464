-- ===== src/Decoder/Feed.antt =====
-- The decoder on the pieces of a frame: one escaped byte, a run of them, the closing END.
use duino_bus.Base.{
  ℕ, ◌+◌, ◌≤◌, ◌<◌, ◌≡◌, ◌≢◌, refl, ap, ◌∙◌, arith, List, [], ◌∷◌, ◌++◌, append_assoc, Bool, true,
  false, not, ◌&&◌, Run, done, IsBytes, Bool-cases, inl, inr, ◌==◌, length, ne→==_false, le→leb,
  lt→leb_false, if◌then◌else◌,
}
use duino_bus.Crc8.{Crc8}
use duino_bus.Packet.{
  Packet, Error, LogEvent, Label, set_command, set_data, end_byte, esc_byte, esc_end, esc_esc,
}
use duino_bus.Packet.Bounds.{IsValid}
use duino_bus.Packet.Push.{push_all, pushed, append_byte-pushed, pushed-IsValid}
use duino_bus.Encoder.Frame.{escape, escape_all}
use duino_bus.Decoder.{
  Decoder, State, is_idle, unescape, begin_packet, store_byte, switch, decode_byte, feed, Reply,
}

abbrev pub decoder : Packet → State → Bool → Bool → Decoder
decoder p s e g = record { packet = p; state = s; escape = e; debug = g }

-- The packet after a command byte.
abbrev pub started : Packet → ℕ → Packet
started p b = record p { command = b; data_len = 0 }

module _ (crc8 : Crc8) where
  -- What the caller does with a reply.
  abbrev pub after : Reply → List ℕ → Run (Error × Decoder × List ℕ)
  after (err, d, logged) bs = elim err [
    | Error.not_done ↦ feed crc8 d bs
    | ended ↦ done (ended, d, bs)
  ]

  pub feed_byte :
      (d : Decoder) (b : ℕ) (bs : List ℕ) {r : Reply}
      → decode_byte crc8 d b ≡ done r
      → feed crc8 d (b ∷ bs) ≡ after r bs
  unfolding feed
  feed_byte d b bs h = rw h

  module _ (p : Packet) (s : State) (g : Bool) (inside : is_idle s ≡ false) where
    starts_escape :
        decode_byte crc8 (decoder p s false g) esc_byte
        ≡ done (Error.not_done, decoder p s true g, [])
    unfolding decode_byte
    starts_escape = rw inside

    decode_escaped :
        (b c : ℕ) {r : Reply}
        → unescape b ≡ c
        → switch crc8 s (decoder p s true g) c ≡ done r
        → decode_byte crc8 (decoder p s true g) b ≡ done r
    unfolding decode_byte
    decode_escaped b c e h = rw (inside, e) h

    decode_plain :
        (b : ℕ) {r : Reply}
        → (b == esc_byte) ≡ false
        → switch crc8 s (decoder p s false g) b ≡ done r
        → decode_byte crc8 (decoder p s false g) b ≡ done r
    unfolding decode_byte
    decode_plain b e h = rw (inside, e) h

    -- Outside the idle state the decoder treats the escape of a byte as that byte, where an END in
    -- the clear is not meant.
    pub feed_escape :
        (b : ℕ) (rest : List ℕ) {r : Reply}
        → ((e : Bool)
            → (b == end_byte && not e) ≡ false
            → switch crc8 s (decoder p s e g) b ≡ done r)
        → feed crc8 (decoder p s false g) (escape b ++ rest) ≡ after r rest
    unfolding escape unescape
    feed_escape b rest h = elim (Bool-cases (b == end_byte)) [
      | inl is_end ↦ rw is_end (
          feed_byte (decoder p s false g) esc_byte (esc_end ∷ rest) starts_escape
          ∙ feed_byte (decoder p s true g) esc_end rest
              (decode_escaped esc_end b (ground arith) (h true (rw is_end))))
      | inr not_end ↦ elim (Bool-cases (b == esc_byte)) [
        | inl is_esc ↦
            rw (not_end, is_esc)
              (feed_byte (decoder p s false g) esc_byte (esc_esc ∷ rest) starts_escape
                ∙ feed_byte (decoder p s true g) esc_esc rest
                    (decode_escaped esc_esc b (ground arith) (h true (rw not_end))))
        | inr plain ↦
            rw (not_end, plain)
              (feed_byte (decoder p s false g) b rest (decode_plain b plain (h false (rw not_end))))
      ]
    ]

  module _ (p : Packet) (g : Bool) where
    switch_stores :
        (b : ℕ) (e : Bool)
        → IsValid p
        → p.data_len < p.max_data_len
        → (b == end_byte && not e) ≡ false
        → switch crc8 State.payload (decoder p State.payload e g) b
          ≡ done (Error.not_done, decoder (pushed p b) State.payload false g, [])
    unfolding switch store_byte
    switch_stores b e v room t =
        rw (t, lt→leb_false p.data_len p.max_data_len room, append_byte-pushed v b room)

    -- An escaped byte in the DATA state, with room for it.
    pub feed_payload :
        (b : ℕ) (rest : List ℕ)
        → IsValid p
        → p.data_len < p.max_data_len
        → feed crc8 (decoder p State.payload false g) (escape b ++ rest)
          ≡ feed crc8 (decoder (pushed p b) State.payload false g) rest
    feed_payload b rest v room =
        feed_escape p State.payload g refl b rest (λ e t. switch_stores b e v room t)

    too_big_reply : Reply
    too_big_reply = (
      Error.too_much_data,
      decoder p State.payload false g,
      if g then LogEvent.dumped Label.too_big p ∷ [] else [],
    )

    switch_full :
        (b : ℕ) (e : Bool)
        → p.data_len ≡ p.max_data_len
        → (b == end_byte && not e) ≡ false
        → switch crc8 State.payload (decoder p State.payload e g) b ≡ done too_big_reply
    unfolding switch store_byte too_big_reply
    switch_full b e full t = rw (t, le→leb p.max_data_len p.data_len (omega arith))

    -- An escaped byte in the DATA state, with no room for it.
    pub feed_full :
        (b : ℕ) (rest : List ℕ)
        → p.data_len ≡ p.max_data_len
        → feed crc8 (decoder p State.payload false g) (escape b ++ rest)
          ≡ done (Error.too_much_data, decoder p State.payload false g, rest)
    unfolding too_big_reply
    feed_full b rest full =
        feed_escape p State.payload g refl b rest (λ e t. switch_full b e full t)

    switch_starts :
        (b : ℕ) (e : Bool)
        → (b == end_byte && not e) ≡ false
        → switch crc8 State.command (decoder p State.command e g) b
          ≡ done (Error.not_done, decoder (started p b) State.payload false g, [])
    unfolding switch begin_packet set_command set_data
    switch_starts b e t = rw t

    pub feed_command :
        (b : ℕ) (rest : List ℕ)
        → feed crc8 (decoder p State.command false g) (escape b ++ rest)
          ≡ feed crc8 (decoder (started p b) State.payload false g) rest
    feed_command b rest = feed_escape p State.command g refl b rest (λ e t. switch_starts b e t)

    -- The END that opens a frame, and any number of further ENDs.
    pub feed_open :
        (rest : List ℕ)
        → feed crc8 (decoder p State.idle false g) (end_byte ∷ rest)
          ≡ feed crc8 (decoder p State.command false g) rest
    unfolding decode_byte switch
    feed_open rest = feed_byte (decoder p State.idle false g) end_byte rest refl

    pub feed_empty_frame :
        (rest : List ℕ)
        → feed crc8 (decoder p State.command false g) (end_byte ∷ rest)
          ≡ feed crc8 (decoder p State.command false g) rest
    unfolding decode_byte switch
    feed_empty_frame rest = feed_byte (decoder p State.command false g) end_byte rest refl

    pub feed_noise :
        (b : ℕ) (rest : List ℕ)
        → b ≢ end_byte
        → feed crc8 (decoder p State.idle false g) (b ∷ rest)
          ≡ feed crc8 (decoder p State.idle false g) rest
    unfolding decode_byte switch
    feed_noise b rest h =
        feed_byte (decoder p State.idle false g) b rest
          {r = (Error.not_done, decoder p State.idle false g, [])} (rw (ne→==_false b end_byte h))

  -- The escapes of bytes that all fit.
  pub feed_all :
      (bs : List ℕ) (p : Packet) (g : Bool) (rest : List ℕ)
      → IsValid p
      → IsBytes bs
      → p.data_len + length bs ≤ p.max_data_len
      → feed crc8 (decoder p State.payload false g) (escape_all bs ++ rest)
        ≡ feed crc8 (decoder (push_all p bs) State.payload false g) rest
  unfolding escape_all push_all
  feed_all [] p g rest v h room = refl
  feed_all (b ∷ bs) p g rest v h room =
      ap (feed crc8 (decoder p State.payload false g))
        (append_assoc (escape b) (escape_all bs) rest)
      ∙ feed_payload p g b (escape_all bs ++ rest) v (omega arith)
      ∙ feed_all bs (pushed p b) g rest (pushed-IsValid v b (omega arith) h.0) h.1
          (unfold pushed in omega arith)
