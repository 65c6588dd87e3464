-- ===== src/Packer/Laws.antt =====
-- Packing in terms of the message that the packet stands for.
use duino_bus.Base.{
  ℕ, ◌+◌, ◌-◌, ◌≤◌, ◌<◌, ◌≡◌, refl, ap, ◌∙◌, arith, List, [], ◌∷◌, ◌++◌, append_assoc, Bool, true,
  false, if◌then◌else◌, ◌==◌, ltb, length, take, Run, done, IsBytes, length-append, Bool-cases, inl,
  inr, length-take, take_all, le→ltb_false, append-IsBytes,
}
use duino_bus.Packet.{Packet, get_data, get_space_remaining, str_length, c_memory}
use duino_bus.Packet.Bounds.{IsValid, IsSource}
use duino_bus.Packet.View.{Message, view, length-get_data, take-IsSource, append_data_fits}
use duino_bus.Packer.{pack, pack_chars, pack_str}

pub get_space_remaining_lem :
    {p : Packet} → IsValid p → get_space_remaining p ≡ p.max_data_len - p.data_len
unfolding get_space_remaining
get_space_remaining_lem v = omega arith

-- A message with bytes added, if they fit.
unfoldable pub add : Message → List ℕ → Bool × Message
add m bytes =
    if ltb (m.capacity - length m.bytes) (length bytes)
    then (false, m)
    else (true, record m { bytes = m.bytes ++ bytes })

abbrev pub seen : Bool × Packet → Bool × Message
seen (ok, p) = (ok, view p)

-- A run of packing that ends, with the flag and the message that the plain operation gives.
pub record Packs (run : Run (Bool × Packet)) (spec : Bool × Message) : Type 0 where
  pub result : Bool × Packet
  pub ends : run ≡ done result
  pub meets : seen result ≡ spec
  pub valid : IsValid result.1

-- On a valid packet `pack(T const&)` never aborts and leaves the packet valid: it appends the
-- object's bytes and answers true if they fit, and otherwise answers false and changes nothing.
pub pack-Packs :
    {p : Packet} (object : List ℕ)
    → IsValid p
    → IsSource object
    → Packs (pack p object) (add (view p) object)
unfolding pack add
pack-Packs {p} object v h = elim (Bool-cases (ltb (p.max_data_len - p.data_len) (length object))) [
  | inl short ↦ record {
    result = (false, p);
    ends = rw (get_space_remaining_lem v, short);
    meets = rw (length-get_data v, short);
    valid = v;
  }
  | inr enough ↦
      let (q, e, w, v') = append_data_fits object v h (ground arith) in
      record {
        result = (true, q);
        ends = rw (get_space_remaining_lem v, enough, e);
        meets = rw (length-get_data v, enough) (ap (λ m. (true, m)) w);
        valid = v';
      }
]

length-string : (str : List ℕ) → length (take (str_length str) (c_memory str)) ≡ str_length str
length-string str =
    length-take (str_length str) (c_memory str) (omega (arith, length-append str (0 ∷ [])))

pack_chars-eq-pack :
    (p : Packet) (str : List ℕ) → pack_chars p str ≡ pack p (take (str_length str) (c_memory str))
unfolding pack_chars pack
pack_chars-eq-pack p str = rw length-string

string-IsSource : (str : List ℕ) → IsBytes str → IsSource (take (str_length str) (c_memory str))
string-IsSource str h =
    take-IsSource (str_length str) (c_memory str) (omega arith)
      (append-IsBytes str (0 ∷ []) h (omega arith))

-- The length byte, and behind it, if both fit, as many bytes of the string in memory.
unfoldable pub add_str : Message → List ℕ → Bool × Message
add_str m str =
    let (packed, m') = add m (str_length str ∷ []) in
    if packed then add m' (take (str_length str) (c_memory str)) else (false, m')

chars-Packs :
    (packed : Bool) (q : Packet) (str : List ℕ) (m : Bool × Message)
    → IsValid q
    → IsBytes str
    → seen (packed, q) ≡ m
    → Packs
        (if packed then pack_chars q str else done (false, q))
        (if m.0 then add m.1 (take (str_length str) (c_memory str)) else (false, m.1))
chars-Packs true q str m v h e =
    rw (← e, pack_chars-eq-pack)
      (pack-Packs (take (str_length str) (c_memory str)) v (string-IsSource str h))
chars-Packs false q str m v h e =
    rw (← e) (record { result = (false, q); ends = refl; meets = refl; valid = v })

-- On a valid packet `pack(char const*)` never aborts and leaves the packet valid: it answers true
-- after the length byte and that many bytes of the string in memory, and false after nothing, or
-- after the length byte alone where the bytes behind it do not fit.
pub pack_str-Packs :
    {p : Packet} (str : List ℕ)
    → IsValid p
    → IsBytes str
    → Packs (pack_str p str) (add_str (view p) str)
unfolding pack_str add_str
pack_str-Packs {p} str v h =
    let first = pack-Packs (str_length str ∷ []) v (omega arith) in
    rw first.ends (
      chars-Packs first.result.0 first.result.1 str (add (view p) (str_length str ∷ [])) first.valid
        h first.meets)

pub add_fits :
    (m : Message) (bytes : List ℕ)
    → length m.bytes + length bytes ≤ m.capacity
    → add m bytes ≡ (true, record m { bytes = m.bytes ++ bytes })
unfolding add
add_fits m bytes h = rw (le→ltb_false (m.capacity - length m.bytes) (length bytes) (omega arith))

-- Two additions that fit, one behind the other.
add_both :
    (m : Message) (len : ℕ) (chars : List ℕ)
    → length m.bytes + length chars + 1 ≤ m.capacity
    → (let (packed, m') = add m (len ∷ []) in if packed then add m' chars else (false, m'))
      ≡ (true, record m { bytes = m.bytes ++ (len ∷ chars) })
add_both m len chars room = rw (
  add_fits m (len ∷ []) (omega arith),
  add_fits (record m { bytes = m.bytes ++ (len ∷ []) }) chars
      (omega (arith, length-append m.bytes (len ∷ []))),
  append_assoc,
)

pub add_str_short :
    (m : Message) (str : List ℕ)
    → length str ≤ 254
    → length m.bytes + length str + 2 ≤ m.capacity
    → add_str m str ≡ (true, record m { bytes = m.bytes ++ ((length str + 1) ∷ (str ++ (0 ∷ []))) })
unfolding add_str
add_str_short m str short room =
    let len : str_length str ≡ length str + 1 = omega arith in
    let memory : length (c_memory str) ≡ length str + 1 =
      omega (arith, length-append str (0 ∷ [])) in
    rw (len, take_all (length str + 1) (c_memory str) (omega arith))
      (add_both m (length str + 1) (c_memory str) (omega arith))

-- On a valid packet with room for it, a string of at most 254 bytes is packed as its length with
-- the null, its bytes, and the null; the packet stays valid.
pub pack_str_lem :
    {p : Packet} (str : List ℕ)
    → IsValid p
    → IsBytes str
    → length str ≤ 254
    → p.data_len + length str + 2 ≤ p.max_data_len
    → (q : Packet) × (pack_str p str ≡ done (true, q))
      × (get_data q ≡ get_data p ++ ((length str + 1) ∷ (str ++ (0 ∷ []))))
      × IsValid q
pack_str_lem {p} str v h short room =
    let packs = pack_str-Packs str v h in
    let same : seen packs.result ≡ _ =
      packs.meets ∙ add_str_short (view p) str short (omega (arith, length-get_data v)) in
    (
      packs.result.1,
      packs.ends ∙ ap (λ b. done (b, packs.result.1)) (ap (λ t. t.0) same),
      ap (λ t. t.1.bytes) same,
      packs.valid,
    )

add_str_wraps :
    (m : Message) (x : ℕ) (str : List ℕ)
    → 254 < length (x ∷ str)
    → length m.bytes + 2 ≤ m.capacity
    → add_str m (x ∷ str) ≡ (
      true,
      record m { bytes = m.bytes ++ (if length (x ∷ str) == 255 then 0 ∷ [] else 1 ∷ x ∷ []) },
    )
unfolding add_str
add_str_wraps m x str long room = elim (Bool-cases (length (x ∷ str) == 255)) [
  | inl exact ↦
      let len : str_length (x ∷ str) ≡ 0 = ground arith in
      rw (exact, len) (add_both m 0 [] (omega arith))
  | inr longer ↦
      let len : str_length (x ∷ str) ≡ 1 = ground arith in
      rw (longer, len) (add_both m 1 (x ∷ []) (omega arith))
]

-- On a valid packet with two bytes free, a string of 255 bytes or more is not packed, and the call
-- answers true all the same: one of 255 bytes becomes the length 0 and nothing else, and a longer
-- one the length 1 and its first byte, with no null.
pub pack_str_wraps :
    {p : Packet} (x : ℕ) (str : List ℕ)
    → IsValid p
    → IsBytes (x ∷ str)
    → 254 < length (x ∷ str)
    → p.data_len + 2 ≤ p.max_data_len
    → (q : Packet) × (pack_str p (x ∷ str) ≡ done (true, q))
      × (get_data q ≡ get_data p ++ (if length (x ∷ str) == 255 then 0 ∷ [] else 1 ∷ x ∷ []))
pack_str_wraps {p} x str v h long room =
    let packs = pack_str-Packs (x ∷ str) v h in
    let same : seen packs.result ≡ _ =
      packs.meets ∙ add_str_wraps (view p) x str long (omega (arith, length-get_data v)) in
    (
      packs.result.1,
      packs.ends ∙ ap (λ b. done (b, packs.result.1)) (ap (λ t. t.0) same),
      ap (λ t. t.1.bytes) same,
    )
