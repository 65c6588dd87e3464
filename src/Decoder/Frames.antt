-- ===== src/Decoder/Frames.antt =====
-- The decoder on a whole frame, of any length and with any CRC.
use duino_bus.Base.{
  ℕ, ◌+◌, ◌≤◌, ◌<◌, ◌≡◌, ap, ◌∙◌, arith, List, [], ◌∷◌, ◌++◌, append_assoc, Bool, false, done,
  map_run, IsByte, IsBytes, append-IsBytes, length, length-append, ne→==_false, if◌then◌else◌, ◌==◌,
  Bool-cases, inl, inr,
}
use duino_bus.Crc8.{Crc8}
use duino_bus.Packet.{Packet, Error, get_data, calc_crc, end_byte, extract_crc}
use duino_bus.Packet.Bounds.{IsValid}
use duino_bus.Packet.View.{Message, view, length-get_data}
use duino_bus.Packet.Push.{
  extract_crc-last, push_all, push_all-IsValid, push_all-get_data, push_all_keeps,
}
use duino_bus.Encoder.Frame.{escape, escape_all, frame, escape_all-append}
use duino_bus.Decoder.{Decoder, State, check_crc, end_packet, switch, decode_byte, feed}
use duino_bus.Decoder.Feed.{
  decoder, started, feed_byte, after, feed_all, feed_command, feed_open, feed_full,
}

-- What the caller sees of the decoder when it stops.
pub record Received : Type 0 where
  pub error : Error
  pub message : Message
  pub state : State
  pub escape : Bool
  pub rest : List ℕ

abbrev pub received : Error × Decoder × List ℕ → Received
received (err, d, rest) = record {
  error = err;
  message = view d.packet;
  state = d.state;
  escape = d.escape;
  rest = rest;
}

-- The CRC of a command and its data, as `Packet::calcCrc` computes it.
abbrev pub crc_of : Crc8 → ℕ → List ℕ → ℕ
crc_of crc8 cmd bytes = crc8.block (crc8.step 0 cmd) bytes

abbrev pub report : Error → Message → State → List ℕ → Received
report err m s rest = record { error = err; message = m; state = s; escape = false; rest = rest }

frame-append :
    (cmd : ℕ) (bytes : List ℕ) (c : ℕ) (rest : List ℕ)
    → frame cmd bytes c ++ rest
      ≡ end_byte ∷ (escape cmd ++ (escape_all (bytes ++ (c ∷ [])) ++ (end_byte ∷ rest)))
unfolding frame escape_all
frame-append cmd bytes c rest = simp append_assoc

pub started-IsValid : {p : Packet} (cmd : ℕ) → IsValid p → IsByte cmd → IsValid (started p cmd)
started-IsValid cmd v h = ground arith

-- The verdict on a frame whose data and CRC `c` fit.
abbrev pub verdict : Crc8 → Message → ℕ → List ℕ → Received
verdict crc8 m c rest =
    if c == crc_of crc8 m.command m.bytes
    then report Error.none m State.idle rest
    else report Error.crc m State.payload rest

module _ (crc8 : Crc8) (g : Bool) where
  pub decode_end :
      (p q : Packet) (c : ℕ)
      → 0 < p.data_len
      → extract_crc p ≡ done (c, q)
      → decode_byte crc8 (decoder p State.payload false g) end_byte
        ≡ done (check_crc crc8 (decoder p State.payload false g) c q)
  unfolding decode_byte switch end_packet
  decode_end p q c some_data e = rw (ne→==_false p.data_len 0 (omega arith), e)

  checked :
      (p q : Packet) (c : ℕ) (rest : List ℕ) (m : Message)
      → view q ≡ m
      → map_run received (after crc8 (check_crc crc8 (decoder p State.payload false g) c q) rest)
        ≡ done (verdict crc8 m c rest)
  unfolding check_crc calc_crc
  checked p q c rest m e = rw (← e) (elim (Bool-cases (c == crc_of crc8 q.command (get_data q))) [
    | inl same ↦ rw same
    | inr other ↦ rw other
  ])

  -- The closing END, after data that ends in the byte `c`.
  pub feed_end :
      (p : Packet) (xs : List ℕ) (c : ℕ) (rest : List ℕ)
      → IsValid p
      → get_data p ≡ xs ++ (c ∷ [])
      → map_run received (feed crc8 (decoder p State.payload false g) (end_byte ∷ rest))
        ≡ done (verdict crc8 (record (view p) { bytes = xs }) c rest)
  feed_end p xs c rest v e =
      let (q, extracts, same, stored) = extract_crc-last xs c v e in
      ap (map_run received) (
        feed_byte crc8 (decoder p State.payload false g) end_byte rest (
          decode_end p q c
            (omega (arith, ap length e, length-append xs (c ∷ []), length-get_data v)) extracts))
      ∙ checked p q c rest (record (view p) { bytes = xs }) same

  -- An idle decoder with a valid packet, given the frame of a command, of data shorter than the
  -- capacity and of any CRC byte, takes exactly the bytes of the frame and holds the command and
  -- the data: it answers NONE and is idle if the CRC byte is the CRC of the command and the data,
  -- and otherwise answers CRC and stays in the DATA state.
  pub feed-frame :
      (p : Packet) (cmd : ℕ) (bytes : List ℕ) (c : ℕ) (rest : List ℕ)
      → IsValid p
      → IsByte cmd
      → IsBytes bytes
      → IsByte c
      → length bytes < p.max_data_len
      → map_run received (feed crc8 (decoder p State.idle false g) (frame cmd bytes c ++ rest))
        ≡ done (
            verdict crc8
              (record { command = cmd; capacity = p.max_data_len; bytes = bytes })
              c
              rest)
  feed-frame p cmd bytes c rest v hcmd hb hc fits =
      ap (map_run received) (
        ap (feed crc8 (decoder p State.idle false g)) (frame-append cmd bytes c rest)
        ∙ feed_open crc8 p g _
        ∙ feed_command crc8 p g cmd _
        ∙ feed_all crc8 (bytes ++ (c ∷ [])) (started p cmd) g (end_byte ∷ rest) v' all room)
      ∙ feed_end q bytes c rest (push_all-IsValid (bytes ++ (c ∷ [])) (started p cmd) v' all room)
          (push_all-get_data (bytes ++ (c ∷ [])) (started p cmd) v' all room)
      ∙ rw (
        (push_all_keeps (started p cmd) (bytes ++ (c ∷ []))).0,
        (push_all_keeps (started p cmd) (bytes ++ (c ∷ []))).1,
      )
    where
      q : Packet
      q = push_all (started p cmd) (bytes ++ (c ∷ []))

      v' : IsValid (started p cmd)
      v' = started-IsValid cmd v hcmd

      all : IsBytes (bytes ++ (c ∷ []))
      all = append-IsBytes bytes (c ∷ []) hb (hc, tt)

      room : 0 + length (bytes ++ (c ∷ [])) ≤ p.max_data_len
      room = omega (arith, length-append bytes (c ∷ []))

  -- An idle decoder with a valid packet, given the frame of a command and of data and a CRC that
  -- together are longer than the capacity, answers TOO_MUCH_DATA at the first byte `b` too many:
  -- the packet is full of the bytes before it, the state is DATA, and the bytes of the frame behind
  -- `b` are still on the wire.
  pub feed_too_big :
      (p : Packet) (cmd : ℕ) (bytes : List ℕ) (c : ℕ) (front : List ℕ) (b : ℕ) (back : List ℕ)
      (rest : List ℕ)
      → IsValid p
      → IsByte cmd
      → IsBytes front
      → length front ≡ p.max_data_len
      → bytes ++ (c ∷ []) ≡ front ++ (b ∷ back)
      → map_run received (feed crc8 (decoder p State.idle false g) (frame cmd bytes c ++ rest))
        ≡ done (
            report Error.too_much_data
              (record { command = cmd; capacity = p.max_data_len; bytes = front })
              State.payload
              (escape_all back ++ (end_byte ∷ rest)))
  feed_too_big p cmd bytes c front b back rest v hcmd hf full e =
      ap (map_run received) (
        ap (feed crc8 (decoder p State.idle false g)) (frame-append cmd bytes c rest)
        ∙ feed_open crc8 p g _
        ∙ feed_command crc8 p g cmd _
        ∙ ap (feed crc8 (decoder (started p cmd) State.payload false g)) split
        ∙ feed_all crc8 front (started p cmd) g _ v' hf (omega arith)
        ∙ feed_full crc8 q g b (escape_all back ++ (end_byte ∷ rest)) at_end)
      ∙ rw (
        (push_all_keeps (started p cmd) front).0,
        (push_all_keeps (started p cmd) front).1,
        push_all-get_data front (started p cmd) v' hf (omega arith),
      )
    where
      q : Packet
      q = push_all (started p cmd) front

      v' : IsValid (started p cmd)
      v' = started-IsValid cmd v hcmd

      split :
          escape_all (bytes ++ (c ∷ [])) ++ (end_byte ∷ rest)
          ≡ escape_all front ++ (escape b ++ (escape_all back ++ (end_byte ∷ rest)))
      split = rw (e, escape_all-append) (unfold escape_all in simp append_assoc)

      at_end : q.data_len ≡ q.max_data_len
      at_end = omega (
        arith,
        ap length (push_all-get_data front (started p cmd) v' hf (omega arith)),
        length-get_data (push_all-IsValid front (started p cmd) v' hf (omega arith)),
        (push_all_keeps (started p cmd) front).1,
      )
