-- ===== src/Decoder/Ends.antt =====
-- How a decoder in the DATA state gets back to the idle state.
use duino_bus.Base.{
  ℕ, suc, ◌≤◌, ◌<◌, ◌≡◌, refl, ap, ◌∙◌, arith, List, [], ◌∷◌, ◌++◌, Bool, false, done, map_run,
  map_run-eq-done, IsByte, IsBytes, Bool-cases, inl, inr, ◌==◌, ==_refl, ltb, length,
}
use duino_bus.Crc8.{Crc8}
use duino_bus.Packet.{Packet, Error, calc_crc, get_data, end_byte}
use duino_bus.Packet.Bounds.{IsValid, calc_crc-IsByte}
use duino_bus.Packet.View.{view}
use duino_bus.Packet.Push.{
  pushed, pushed-IsValid, get_data-pushed, last_byte, popped, extract_crc-popped, popped-IsValid,
}
use duino_bus.Encoder.Frame.{escape}
use duino_bus.Decoder.{Decoder, State, Reply, check_crc, decode_byte, feed}
use duino_bus.Decoder.Feed.{decoder, feed_payload}
use duino_bus.Decoder.Frames.{Received, received, report, crc_of, feed_end, decode_end}
use duino_bus.Decoder.Stream.{decode_all, decode_all-feed}

module _ (crc8 : Crc8) where
  -- A stream of at most `n` bytes that leaves the decoder idle, with no escape pending.
  pub record Recovers (d : Decoder) (n : ℕ) : Type 0 where
    pub bytes : List ℕ
    pub few : length bytes ≤ n
    pub all : IsBytes bytes
    pub last : Decoder
    pub ends : decode_all crc8 d bytes ≡ done last
    pub at_idle : last.state ≡ State.idle
    pub clear : last.escape ≡ false

  pub reads_on :
      (d : Decoder) (b n : ℕ) (r : Reply)
      → IsByte b
      → decode_byte crc8 d b ≡ done r
      → Recovers r.1 n
      → Recovers d (suc n)
  unfolding decode_all
  reads_on d b n r hb e h = record {
    bytes = b ∷ h.bytes;
    few = omega (arith, h.few);
    all = (hb, h.all);
    last = h.last;
    ends = rw e h.ends;
    at_idle = h.at_idle;
    clear = h.clear;
  }

  pub fewer : (d : Decoder) (m n : ℕ) → m ≤ n → Recovers d m → Recovers d n
  fewer d m n le h = record {
    bytes = h.bytes;
    few = omega (arith, h.few);
    all = h.all;
    last = h.last;
    ends = h.ends;
    at_idle = h.at_idle;
    clear = h.clear;
  }

  escape-IsBytes :
      (c : ℕ)
      → IsByte c
      → IsBytes (escape c ++ (end_byte ∷ [])) × (length (escape c ++ (end_byte ∷ [])) ≤ 3)
  unfolding escape
  escape-IsBytes c h = ground arith

  -- With room in the packet, the CRC of what it holds and an END.
  from_room :
      (p : Packet) (g : Bool)
      → IsValid p
      → p.data_len < p.max_data_len
      → Recovers (decoder p State.payload false g) 3
  unfolding pushed
  from_room p g v room =
      let (r, e, same) =
        map_run-eq-done received (feed crc8 (decoder p State.payload false g) stream)
          received_all in
      record {
        bytes = stream;
        few = (escape-IsBytes c hc).1;
        all = (escape-IsBytes c hc).0;
        last = r.1;
        ends =
            decode_all-feed crc8 (decoder p State.payload false g) r.1 stream r.0
              (e ∙ ap (λ rest. done (r.0, r.1, rest)) (ap (λ (m : Received). m.rest) same));
        at_idle = ap (λ (m : Received). m.state) same;
        clear = ap (λ (m : Received). m.escape) same;
      }
    where
      c : ℕ
      c = crc_of crc8 p.command (get_data p)

      hc : IsByte c
      hc = unfold calc_crc in calc_crc-IsByte crc8 p

      stream : List ℕ
      stream = escape c ++ (end_byte ∷ [])

      received_all :
          map_run received (feed crc8 (decoder p State.payload false g) stream)
          ≡ done (report Error.none (view p) State.idle [])
      received_all =
          ap (map_run received) (feed_payload crc8 p g c (end_byte ∷ []) v room)
          ∙ feed_end crc8 g (pushed p c) (get_data p) c [] (pushed-IsValid v c room hc)
              (get_data-pushed v c room)
          ∙ rw (==_refl c)

  checked :
      (p q : Packet) (g : Bool) (c : ℕ)
      → decode_byte crc8 (decoder p State.payload false g) end_byte
        ≡ done (check_crc crc8 (decoder p State.payload false g) c q)
      → Recovers (decoder q State.payload false g) 3
      → Recovers (decoder p State.payload false g) 4
  unfolding check_crc decode_all
  checked p q g c e h = elim (Bool-cases (c == calc_crc crc8 q)) [
    | inl good ↦ record {
      bytes = end_byte ∷ [];
      few = omega arith;
      all = omega arith;
      last = decoder q State.idle false g;
      ends = rw (e, good);
      at_idle = refl;
      clear = refl;
    }
    | inr bad ↦
        reads_on (decoder p State.payload false g) end_byte 3
          (check_crc crc8 (decoder p State.payload false g) c q) (omega arith) e (rw bad h)
  ]

  -- With no room, an END takes the last byte off as a CRC.
  from_full :
      (p : Packet) (g : Bool)
      → IsValid p
      → 0 < p.data_len
      → Recovers (decoder p State.payload false g) 4
  unfolding popped
  from_full p g v some_data =
      checked p (popped p) g (last_byte p)
        (decode_end crc8 g p (popped p) (last_byte p) some_data (extract_crc-popped v some_data))
        (from_room (popped p) g (popped-IsValid v some_data) (omega arith))

  pub from_payload :
      (p : Packet) (g : Bool)
      → IsValid p
      → 0 < p.max_data_len
      → Recovers (decoder p State.payload false g) 4
  from_payload p g v capacity = elim (Bool-cases (ltb p.data_len p.max_data_len)) [
    | inl room ↦
        fewer (decoder p State.payload false g) 3 4 (omega arith) (from_room p g v (ground arith))
    | inr full ↦ from_full p g v (ground arith)
  ]
