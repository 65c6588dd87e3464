-- ===== src/Values/RoundTrip.antt =====
-- What was packed is unpacked.
use mathlib.Core.Option.{some}
use duino_bus.Base.{
  ℕ, zero, suc, ◌+◌, ◌≤◌, ◌≡◌, ◌≢◌, refl, sym, ap, ◌∙◌, arith, List, [], ◌∷◌, ◌++◌, append_assoc,
  append-nil, Bool, true, length, length-append, take, drop, Run, done, All, IsBytes, ne→==_false,
}
use duino_bus.Packet.{Packet, get_data}
use duino_bus.Packet.Bounds.{IsValid, IsSource}
use duino_bus.Packet.View.{Message, view, length-get_data}
use duino_bus.Packer.Laws.{Packs, seen, pack-Packs, pack_str-Packs, add_fits, add_str_short}
use duino_bus.Unpacker
use duino_bus.Unpacker.{Unpacker, unpack, unpack_str}
use duino_bus.Unpacker.Laws.{left, IsSound, init-IsSound, unpack_lem, unpack_str_lem}
use duino_bus.Values.{
  Value, Kind, kind, kinds, pack_value, pack_all, c_string, unpack_value, unpack_all,
}

-- The bytes of a value in a packet.
abbrev pub image : Value → List ℕ
image (Value.object bytes) = bytes
image (Value.string chars) = (length chars + 1) ∷ (chars ++ (0 ∷ []))

abbrev pub images : List Value → List ℕ
images [] = []
images (v ∷ vs) = image v ++ images vs

-- An object of bytes, or a string that the length byte can count.
abbrev pub IsPackable : Value → Type 0
IsPackable (Value.object bytes) = IsSource bytes
IsPackable (Value.string chars) = IsBytes chars × (length chars ≤ 254) × All (λ c. c ≢ 0) chars

packed :
    (p : Packet) {run : Run (Bool × Packet)} {m : Bool × Message}
    → Packs run m
    → (bytes : List ℕ) → m ≡ (true, record (view p) { bytes = get_data p ++ bytes })
    → (q : Packet) × (run ≡ done (true, q))
      × (view q ≡ record (view p) { bytes = get_data p ++ bytes })
      × IsValid q
packed p packs bytes e =
    let same : seen packs.result ≡ (true, record (view p) { bytes = get_data p ++ bytes }) =
      packs.meets ∙ e in
    (
      packs.result.1,
      packs.ends ∙ ap (λ b. done (b, packs.result.1)) (ap (λ t. t.0) same),
      ap (λ t. t.1) same,
      packs.valid,
    )

pack_value_fits :
    {p : Packet} (v : Value)
    → IsValid p
    → IsPackable v
    → p.data_len + length (image v) ≤ p.max_data_len
    → (q : Packet) × (pack_value p v ≡ done (true, q))
      × (view q ≡ record (view p) { bytes = get_data p ++ image v })
      × IsValid q
pack_value_fits {p} (Value.object bytes) h k room =
    packed p (pack-Packs bytes h k) bytes
      (add_fits (view p) bytes (omega (arith, length-get_data h)))
pack_value_fits {p} (Value.string chars) h k room =
    packed p (pack_str-Packs chars h k.0) (image (Value.string chars)) (
      add_str_short (view p) chars k.1
        (omega (arith, length-get_data h, length-append chars (0 ∷ []))))

pub pack_all_fits :
    (vs : List Value) (p : Packet)
    → IsValid p
    → All IsPackable vs
    → p.data_len + length (images vs) ≤ p.max_data_len
    → (q : Packet) × (pack_all p vs ≡ done (true, q))
      × (view q ≡ record (view p) { bytes = get_data p ++ images vs })
      × IsValid q
unfolding pack_all
pack_all_fits [] p h k room =
    (p, refl, ap (λ l. record (view p) { bytes = l }) (sym (append-nil (get_data p))), h)
pack_all_fits (v ∷ vs) p h k room =
    let sized = length-append (image v) (images vs) in
    let (q, e, w, hq) = pack_value_fits v h k.0 (omega arith) in
    let bytes : get_data q ≡ get_data p ++ image v = ap (λ m. m.bytes) w in
    let longer : q.data_len ≡ p.data_len + length (image v) = omega (
      arith,
      length-get_data hq,
      ap length bytes,
      length-append (get_data p) (image v),
      length-get_data h,
    ) in
    let same : q.max_data_len ≡ p.max_data_len = ap (λ m. m.capacity) w in
    let (r, e', w', hr) = pack_all_fits vs q hq k.1 (omega arith) in
    (
      r,
      rw e e',
      w' ∙ ap (λ (m : Message). record m { bytes = m.bytes ++ images vs }) w ∙ rw append_assoc,
      hr,
    )

-- A string that ends in a null is read back.
c_string-take :
    (chars xs : List ℕ) (n : ℕ)
    → All (λ c. c ≢ 0) chars
    → take n xs ≡ chars ++ (0 ∷ [])
    → c_string xs ≡ chars
unfolding c_string
c_string-take chars xs zero h e = absurd (omega (arith, ap length e, length-append chars (0 ∷ [])))
c_string-take chars [] (suc n) h e =
    absurd (omega (arith, ap length e, length-append chars (0 ∷ [])))
c_string-take [] (x ∷ xs) (suc n) h e = ground arith
c_string-take (c ∷ chars) (x ∷ xs) (suc n) h e =
    let rest : take n xs ≡ chars ++ (0 ∷ []) = cc in
    let same : x ≡ c = cc in
    rw (same, ne→==_false c 0 h.0) (ap (λ l. c ∷ l) (c_string-take chars xs n h.1 rest))

unpack_value-image :
    (v : Value) (u : Unpacker) (back : List ℕ)
    → IsSound u
    → IsPackable v
    → left u ≡ image v ++ back
    → (u' : Unpacker) × (unpack_value u (kind v) ≡ (some v, u')) × (left u' ≡ back) × IsSound u'
unfolding unpack_value
unpack_value-image (Value.object bytes) u back h k e =
    let (u', reads, rest, sound) = unpack_lem u h bytes back e in (u', rw reads, rest, sound)
unpack_value-image (Value.string chars) u back h k e =
    let (u', points, stored, rest, sound) =
      unpack_str_lem u h (length chars + 1) (chars ++ (0 ∷ [])) back e
        (omega (arith, length-append chars (0 ∷ []))) in
    (
      u',
      rw (points, c_string-take chars (drop (u.pos + 1) u.buf) (length chars + 1) k.2 stored),
      rest,
      sound,
    )

unpack_all-cons :
    (u u1 u2 : Unpacker) (k : Kind) (ks : List Kind) (v : Value) (vs : List Value)
    → unpack_value u k ≡ (some v, u1)
    → unpack_all u1 ks ≡ (some vs, u2)
    → unpack_all u (k ∷ ks) ≡ (some (v ∷ vs), u2)
unfolding unpack_all
unpack_all-cons u u1 u2 k ks v vs e e' = rw (e, e')

pub unpack_all-images :
    (vs : List Value) (u : Unpacker) (rest : List ℕ)
    → IsSound u
    → All IsPackable vs
    → left u ≡ images vs ++ rest
    → (u' : Unpacker) × (unpack_all u (kinds vs) ≡ (some vs, u')) × (left u' ≡ rest) × IsSound u'
unfolding unpack_all
unpack_all-images [] u rest h k e = (u, refl, e, h)
unpack_all-images (v ∷ vs) u rest h k e =
    let (u1, first, left1, h1) =
      unpack_value-image v u (images vs ++ rest) h k.0
        (e ∙ append_assoc (image v) (images vs) rest) in
    let (u2, others, left2, h2) = unpack_all-images vs u1 rest h1 k.1 left1 in
    (u2, unpack_all-cons u u1 u2 (kind v) (kinds vs) v vs first others, left2, h2)

-- Values that fit an empty packet, the strings of at most 254 characters and without a null, are all
-- packed; the packet stays valid, and an unpacker of it, asked for the same kinds of values in the same
-- order, gives back exactly these values and has nothing left.
pub unpack_all-pack_all :
    (vs : List Value) (p : Packet)
    → IsValid p
    → p.data_len ≡ 0
    → All IsPackable vs
    → length (images vs) ≤ p.max_data_len
    → (q : Packet) × (u : Unpacker) × (pack_all p vs ≡ done (true, q))
      × IsValid q
      × (unpack_all (Unpacker.init q) (kinds vs) ≡ (some vs, u))
      × (left u ≡ [])
unpack_all-pack_all vs p h empty k room =
    let (q, packs, w, hq) = pack_all_fits vs p h k (omega arith) in
    let (sound, all) = init-IsSound hq in
    let nothing : get_data p ≡ [] = rw empty in
    let held : get_data q ≡ images vs ++ [] =
      ap (λ (m : Message). m.bytes) w ∙ rw (nothing, append-nil) in
    let (u, reads, none_left, sound') =
      unpack_all-images vs (Unpacker.init q) [] sound k (all ∙ held) in
    (q, u, packs, hq, reads, none_left)
