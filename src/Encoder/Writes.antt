-- ===== src/Encoder/Writes.antt =====
-- What the encoder puts on the wire, in terms of the frame of its packet.
use mathlib.Core.Option.{Option, some}
use duino_bus.Base.{
  ℕ, zero, suc, ◌+◌, ◌*◌, ◌≤◌, ◌<◌, ◌≡◌, refl, ap, ◌∙◌, arith, List, [], ◌∷◌, ◌++◌, append_assoc,
  Bool, window, get_or, Run, done, abort, map_run, window-eq-take, Bool-cases, inl, inr, ◌==◌,
}
use native.Mathlib.Numerals.{add-one}
use duino_bus.Crc8.{Crc8}
use duino_bus.Packet.{
  Packet, Error, get_data, calc_crc, calc_and_store_crc, end_byte, esc_byte, esc_end, esc_esc,
}
use duino_bus.Packet.Bounds.{IsValid, max_object, calc_and_store_crc-IsValid}
use duino_bus.Encoder.{Encoder, State, send, encode_byte, write_loop, encode_start, after_byte}
use duino_bus.Encoder.Frame.{escape, escape_all, frame}

abbrev encoding : Packet → State → ℕ → ℕ → Bool → Encoder
encoding p s i c d = record {
  packet = some p;
  state = s;
  encode_idx = i;
  escape_char = c;
  debug = d;
}

-- What a run of the loop leaves behind, without the spent index and escape character.
pub record Sent : Type 0 where
  pub error : Error
  pub bytes : List ℕ
  pub state : State
  pub packet : Option Packet
  pub debug : Bool

abbrev pub sent : Error × List ℕ × Encoder → Sent
sent (err, bs, e) = record {
  error = err;
  bytes = bs;
  state = e.state;
  packet = e.packet;
  debug = e.debug;
}

abbrev prepend : ℕ → Sent → Sent
prepend b m = record m { bytes = b ∷ m.bytes }

sent_after :
    (b : ℕ) (r : Run (Error × List ℕ × Encoder))
    → map_run sent (map_run (after_byte b) r) ≡ map_run (prepend b) (map_run sent r)
sent_after b (done r) = refl
sent_after b abort = refl

-- A round that goes on, and one that ends the loop.
round :
    (crc8 : Crc8) (fuel : ℕ) (e : Encoder) (x b : ℕ) {e' : Encoder}
    → encode_byte crc8 e x ≡ done (Error.not_done, b, e')
    → map_run sent (write_loop crc8 (suc fuel) e x)
      ≡ map_run (prepend b) (map_run sent (write_loop crc8 fuel e' b))
unfolding write_loop
round crc8 fuel e x b {e' = e'} h = rw h (sent_after b (write_loop crc8 fuel e' b))

last_round :
    (crc8 : Crc8) (fuel : ℕ) (e : Encoder) (x b : ℕ) {e' : Encoder}
    → encode_byte crc8 e x ≡ done (Error.none, b, e')
    → map_run sent (write_loop crc8 (suc fuel) e x) ≡ done (sent (Error.none, b ∷ [], e'))
unfolding write_loop
last_round crc8 fuel e x b h = rw h

module _ (crc8 : Crc8) (p : Packet) (d : Bool) where
  abbrev finished : List ℕ → Sent
  finished bs = record {
    error = Error.none;
    bytes = bs;
    state = State.idle;
    packet = some p;
    debug = d;
  }

  -- From index `i` on the loop sends `rest`, given at least `need` rounds.
  abbrev Continues : ℕ → ℕ → List ℕ → Type 0
  Continues i need rest =
      (fuel c x : ℕ)
      → need ≤ fuel
      → map_run sent (write_loop crc8 fuel (encoding p State.payload i c d) x)
        ≡ done (finished rest)

  escape_round :
      (fuel i c x : ℕ)
      → map_run sent (write_loop crc8 (suc fuel) (encoding p State.escape i c d) x)
        ≡ map_run
            (prepend c)
            (map_run sent (write_loop crc8 fuel (encoding p State.payload i c d) c))
  unfolding encode_byte
  escape_round fuel i c x = round crc8 fuel (encoding p State.escape i c d) x c refl

  -- One byte of the packet takes one round or, escaped, two.
  send_one :
      (s : State) (j i need : ℕ) (rest : List ℕ) (b : ℕ)
      → Continues i need rest
      → (fuel c x : ℕ) → need + 2 ≤ fuel
      → encode_byte crc8 (encoding p s j c d) x ≡ done (send (encoding p s j c d) i b)
      → map_run sent (write_loop crc8 fuel (encoding p s j c d) x)
        ≡ done (finished (escape b ++ rest))
  unfolding send escape
  send_one s j i need rest b k zero c x h e = absurd (omega arith)
  send_one s j i need rest b k (suc zero) c x h e = absurd (omega arith)
  send_one s j i need rest b k (suc (suc fuel)) c x h e = elim (Bool-cases (b == end_byte)) [
    | inl is_end ↦
        round crc8 (suc fuel) _ x esc_byte (e ∙ rw is_end)
        ∙ ap (map_run (prepend esc_byte)) (
            escape_round fuel i esc_end esc_byte
            ∙ ap (map_run (prepend esc_end)) (k fuel esc_end esc_end (omega arith)))
        ∙ rw is_end
    | inr not_end ↦ elim (Bool-cases (b == esc_byte)) [
      | inl is_esc ↦
          round crc8 (suc fuel) _ x esc_byte (e ∙ rw (not_end, is_esc))
          ∙ ap (map_run (prepend esc_byte)) (
              escape_round fuel i esc_esc esc_byte
              ∙ ap (map_run (prepend esc_esc)) (k fuel esc_esc esc_esc (omega arith)))
          ∙ rw (not_end, is_esc)
      | inr plain ↦
          round crc8 (suc fuel) _ x b (e ∙ rw (not_end, plain))
          ∙ ap (map_run (prepend b)) (k (suc fuel) c b (omega arith))
          ∙ rw (not_end, plain)
    ]
  ]

  -- Past the CRC one END is left.
  send_end : (i : ℕ) → p.data_len < i → Continues i 1 (end_byte ∷ [])
  send_end i past zero c x h = absurd (omega arith)
  send_end i past (suc fuel) c x h = last_round crc8 fuel _ x end_byte at_end
    where
      at_end :
          encode_byte crc8 (encoding p State.payload i c d) x
          ≡ done (Error.none, end_byte, encoding p State.idle i c d)
      at_end = unfold encode_byte in ground arith

  encode_crc :
      (i c x : ℕ)
      → i + 0 ≡ p.data_len
      → p.data_len < max_object
      → encode_byte crc8 (encoding p State.payload i c d) x
        ≡ done (send (encoding p State.payload i c d) (i + 1) (calc_crc crc8 p))
  unfolding encode_byte
  encode_crc i c x e small = ground arith

  encode_data :
      (n i c x : ℕ)
      → i + suc n ≡ p.data_len
      → p.data_len < max_object
      → encode_byte crc8 (encoding p State.payload i c d) x
        ≡ done (send (encoding p State.payload i c d) (i + 1) (get_or p.storage i 0))
  unfolding encode_byte
  encode_data n i c x e small = ground arith

  abbrev remaining : ℕ → ℕ → List ℕ
  remaining i n = escape_all (window p.storage i n 0 ++ (calc_crc crc8 p ∷ [])) ++ (end_byte ∷ [])

  -- The data still to be sent, then the CRC.
  send_data :
      (n i : ℕ)
      → i + n ≡ p.data_len
      → p.data_len < max_object
      → Continues i (2 * n + 3) (remaining i n)
  unfolding escape_all
  send_data zero i e small fuel c x h =
      send_one State.payload i (i + 1) 1 (end_byte ∷ []) (calc_crc crc8 p)
        (send_end (i + 1) (omega arith)) fuel c x (omega arith) (encode_crc i c x e small)
      ∙ rw append_assoc
  send_data (suc n) i e small fuel c x h =
      send_one State.payload i (i + 1) (2 * n + 3) (remaining (suc i) n) (get_or p.storage i 0)
        (rw add-one (send_data n (suc i) (omega arith) small)) fuel c x (omega arith)
        (encode_data n i c x e small)
      ∙ rw append_assoc

  send_command :
      p.data_len < max_object
      → (fuel j c x : ℕ) → 2 * p.data_len + 5 ≤ fuel
      → map_run sent (write_loop crc8 fuel (encoding p State.command j c d) x)
        ≡ done (finished (escape p.command ++ remaining 0 p.data_len))
  send_command small fuel j c x h =
      send_one State.command j 0 (2 * p.data_len + 3) (remaining 0 p.data_len) p.command
        (send_data p.data_len 0 (omega arith) small) fuel c x (omega arith)
        (unfold encode_byte in refl)

  send_frame :
      IsValid p
      → (fuel j c x : ℕ) → 2 * p.data_len + 6 ≤ fuel
      → map_run sent (write_loop crc8 fuel (encoding p State.idle j c d) x)
        ≡ done (finished (frame p.command (get_data p) (calc_crc crc8 p)))
  unfolding frame escape_all encode_byte
  send_frame v zero j c x h = absurd (omega arith)
  send_frame v (suc fuel) j c x h =
      round crc8 fuel (encoding p State.idle j c d) x end_byte refl
      ∙ ap (map_run (prepend end_byte)) (send_command (omega arith) fuel j c end_byte (omega arith))
      ∙ rw (window-eq-take p.data_len p.storage 0 (omega arith), append_assoc)

-- For a valid packet with n bytes of data, after `encodeStart` and from any state of the encoder
-- before it, the loop of `writePacket` ends with NONE in at most 2 * n + 6 rounds; the bytes
-- written are the frame of the command, the data and the CRC, and the encoder is idle again,
-- holding the packet with that CRC stored, with its debug flag unchanged.
pub write_loop-frame :
    (crc8 : Crc8) (e : Encoder) (p : Packet) (fuel x : ℕ)
    → IsValid p
    → 2 * p.data_len + 6 ≤ fuel
    → let (p', e', logged) = encode_start crc8 e p in
      map_run sent (write_loop crc8 fuel e' x)
      ≡ done (record {
        error = Error.none;
        bytes = frame p.command (get_data p) (calc_crc crc8 p);
        state = State.idle;
        packet = some (record p { crc = calc_crc crc8 p });
        debug = e.debug;
      })
unfolding encode_start calc_and_store_crc calc_crc
write_loop-frame crc8 e p fuel x v h =
    send_frame crc8 (calc_and_store_crc crc8 p) e.debug (calc_and_store_crc-IsValid crc8 v) fuel
      e.encode_idx e.escape_char x h
