-- ===== src/Unpacker/Laws.antt =====
-- Unpacking in terms of the data that is left.
use mathlib.Core.Option.{none, some}
use duino_bus.Base.{
  ℕ, ◌+◌, ◌-◌, ◌≤◌, ◌<◌, ◌≡◌, refl, ap, arith, List, [], ◌∷◌, ◌++◌, true, ltb, length, take, drop,
  length-take, length-drop, drop-drop, take-split, le→ltb_false, lt→ltb,
}
use duino_bus.Packet.{Packet, get_data, sub_size}
use duino_bus.Packet.Bounds.{IsValid, max_object}
use duino_bus.Unpacker.{Unpacker, init, advance, unpack, unpack_pointer, unpack_chars, unpack_str}

-- The data that is left.
abbrev pub left : Unpacker → List ℕ
left u = take u.data_remaining (drop u.pos u.buf)

-- What is left lies inside the packet's storage.
pub record IsSound (u : Unpacker) : Type 0 where
  pub inside : u.pos + u.data_remaining ≤ length u.buf
  pub small : u.data_remaining < max_object

pub init-IsSound : {p : Packet} → IsValid p → IsSound (init p) × (left (init p) ≡ get_data p)
unfolding init
init-IsSound v = (omega arith, refl)

length-left : {u : Unpacker} → IsSound u → length (left u) ≡ u.data_remaining
length-left {u} h =
    length-take u.data_remaining (drop u.pos u.buf) (omega (arith, length-drop u.pos u.buf))

-- Taking `front` off what is left.
record Advances (u : Unpacker) (front back : List ℕ) : Type 0 where
  enough : length front ≤ u.data_remaining
  read : take (length front) (drop u.pos u.buf) ≡ front
  rest : left (advance u (length front)) ≡ back
  sound : IsSound (advance u (length front))

advances :
    (u : Unpacker) (front back : List ℕ)
    → IsSound u
    → left u ≡ front ++ back
    → Advances u front back
advances u front back h e =
    let (same, rest, enough) =
      take-split front u.data_remaining (drop u.pos u.buf) back e
        (omega (arith, length-drop u.pos u.buf)) in
    let count : sub_size u.data_remaining (length front) ≡ u.data_remaining - length front =
      omega arith in
    record {
      enough = enough;
      read = same;
      rest = rw (count, ← drop-drop u.pos (length front) (u.pos + length front) u.buf refl) rest;
      sound = omega arith;
    }

module _ (u : Unpacker) (h : IsSound u) where
  -- If the data that is left begins with some bytes, `unpack(T*)` of an object of their size gives
  -- those bytes and leaves the others; the unpacker stays inside the packet's storage.
  pub unpack_lem :
      (front back : List ℕ)
      → left u ≡ front ++ back
      → (u' : Unpacker) × (unpack u (length front) ≡ (some front, u'))
        × (left u' ≡ back)
        × IsSound u'
  unfolding unpack
  unpack_lem front back e =
      let a = advances u front back h e in
      (
        advance u (length front),
        rw (le→ltb_false u.data_remaining (length front) a.enough, a.read),
        a.rest,
        a.sound,
      )

  -- If the data that is left begins with some bytes, `unpack(size_t, uint8_t const**)` of their
  -- number points at them where they stand in the storage and leaves the others; the unpacker stays
  -- inside the packet's storage.
  pub unpack_pointer_lem :
      (front back : List ℕ)
      → left u ≡ front ++ back
      → (u' : Unpacker) × (unpack_pointer u (length front) ≡ (some u.pos, u'))
        × (take (length front) (drop u.pos u.buf) ≡ front)
        × (left u' ≡ back)
        × IsSound u'
  unfolding unpack_pointer
  unpack_pointer_lem front back e =
      let a = advances u front back h e in
      (
        advance u (length front),
        rw (le→ltb_false u.data_remaining (length front) a.enough),
        a.read,
        a.rest,
        a.sound,
      )

  -- With fewer bytes left than asked for, `unpack(T*)` and `unpack(size_t, uint8_t const**)` answer
  -- false and keep their place.
  pub unpack_short :
      (n : ℕ) → length (left u) < n → (unpack u n ≡ (none, u)) × (unpack_pointer u n ≡ (none, u))
  unfolding unpack unpack_pointer
  unpack_short n few =
      let short : ltb u.data_remaining n ≡ true =
        lt→ltb u.data_remaining n (omega (arith, length-left h)) in
      (rw short, rw short)

  chars_at :
      (u' : Unpacker) (n : ℕ) (chars back : List ℕ)
      → IsSound u'
      → left u' ≡ chars ++ back
      → length chars ≡ n
      → (u'' : Unpacker) × (unpack_chars u' n ≡ (some u'.pos, u''))
        × (take n (drop u'.pos u'.buf) ≡ chars)
        × (left u'' ≡ back)
        × IsSound u''
  unfolding unpack_chars
  chars_at u' n chars back s e l =
      let a = advances u' chars back s e in
      rw (← l) (
        advance u' (length chars),
        rw (le→ltb_false u'.data_remaining (length chars) a.enough),
        a.read,
        a.rest,
        a.sound,
      )

  length_read :
      (n : ℕ) (back : List ℕ) → left u ≡ n ∷ back → unpack u 1 ≡ (some (n ∷ []), advance u 1)
  unfolding unpack
  length_read n back e =
      let a = advances u (n ∷ []) back h e in rw (le→ltb_false u.data_remaining 1 a.enough, a.read)

  -- If the data that is left begins with a length byte `n` and `n` bytes more, `unpack(char
  -- const**)` points at those bytes, behind the length, and leaves what follows them; the unpacker
  -- stays inside the packet's storage.
  pub unpack_str_lem :
      (n : ℕ) (chars back : List ℕ)
      → left u ≡ n ∷ (chars ++ back)
      → length chars ≡ n
      → (u' : Unpacker) × (unpack_str u ≡ (some (u.pos + 1), u'))
        × (take n (drop (u.pos + 1) u.buf) ≡ chars)
        × (left u' ≡ back)
        × IsSound u'
  unfolding unpack_str
  unpack_str_lem n chars back e l =
      let a = advances u (n ∷ []) (chars ++ back) h e in
      let (u', points, bytes, rest, sound) = chars_at (advance u 1) n chars back a.sound a.rest l in
      (u', rw (length_read n (chars ++ back) e) points, bytes, rest, sound)

  -- If the data that is left begins with a length byte and fewer bytes follow than it says,
  -- `unpack(char const**)` answers false and has taken the length byte; the unpacker stays inside
  -- the packet's storage.
  pub unpack_str_short :
      (n : ℕ) (chars : List ℕ)
      → left u ≡ n ∷ chars
      → length chars < n
      → (u' : Unpacker) × (unpack_str u ≡ (none, u')) × (left u' ≡ chars) × IsSound u'
  unfolding unpack_str unpack_chars
  unpack_str_short n chars e few =
      let a = advances u (n ∷ []) chars h e in
      (
        advance u 1,
        rw (
          length_read n chars e,
          lt→ltb (advance u 1).data_remaining n
              (omega (arith, length-left a.sound, ap length a.rest)),
        ),
        a.rest,
        a.sound,
      )
