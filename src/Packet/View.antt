-- ===== src/Packet/View.antt =====
-- The message that a packet stands for: a command and a bounded sequence of bytes; and the operations
-- on messages that the packet's methods are compared with.
use duino_bus.Base.{
  ℕ, zero, suc, ◌+◌, ◌≤◌, ◌<◌, ◌≡◌, refl, ap, ◌∙◌, arith, List, [], ◌∷◌, ◌++◌, append-nil,
  if◌then◌else◌, leb, length, take, get_or, IsBytes, Run, done, abort, map_run, map_run-eq-done,
  ◌>>=◌, length-take, take-set, take-suc, take-blit, length-take_le, append-IsBytes, take-IsBytes,
}
use duino_bus.Packet.{
  Packet, get_data, append_data, set_data, append_byte, append_str, extract_crc, str_length,
  c_memory,
}
use duino_bus.Packet.Bounds.{IsValid, IsSource, append_data-IsValid}

-- A packet with its storage forgotten.
pub record Message : Type 0 where
  pub command : ℕ
  pub capacity : ℕ
  pub bytes : List ℕ

abbrev pub view : Packet → Message
view p = record { command = p.command; capacity = p.max_data_len; bytes = get_data p }

abbrev pub view_crc : ℕ × Packet → ℕ × Message
view_crc r = (r.0, view r.1)

abbrev pub with_bytes : Message → ℕ × List ℕ → ℕ × Message
with_bytes m r = (r.0, record m { bytes = r.1 })

-- Appends if all of it fits, and aborts otherwise.
unfoldable pub append : Message → List ℕ → Run Message
append m src =
    if leb (length m.bytes + length src) m.capacity
    then done (record m { bytes = m.bytes ++ src })
    else abort

-- Takes the last byte off.
unfoldable pub unsnoc : List ℕ → Run (ℕ × List ℕ)
unsnoc [] = abort
unsnoc (x ∷ []) = done (x, [])
unsnoc (x ∷ y ∷ ys) = map_run (λ r. (r.0, x ∷ r.1)) (unsnoc (y ∷ ys))

pub unsnoc-append : (xs : List ℕ) (c : ℕ) → unsnoc (xs ++ (c ∷ [])) ≡ done (c, xs)
unfolding unsnoc
unsnoc-append [] c = refl
unsnoc-append (x ∷ []) c = refl
unsnoc-append (x ∷ y ∷ ys) c = ap (map_run (λ r. (r.0, x ∷ r.1))) (unsnoc-append (y ∷ ys) c)

pub length-get_data : {p : Packet} → IsValid p → length (get_data p) ≡ p.data_len
length-get_data {p} v = length-take p.data_len p.storage (omega arith)

pub get_data-IsBytes : {p : Packet} → IsValid p → IsBytes (get_data p)
get_data-IsBytes {p} v = take-IsBytes p.data_len p.storage v.bytes

-- On a valid packet `appendData` of bytes is appending to the message: the bytes come behind the
-- data if all of them fit, with the command and the capacity unchanged, and otherwise the `assert`
-- fails.
pub append_data_refines :
    {p : Packet} (src : List ℕ)
    → IsValid p
    → IsSource src
    → map_run view (append_data p src) ≡ append (view p) src
unfolding append_data append
append_data_refines {p} [] v h = ground (arith, length-get_data v, append-nil (get_data p))
append_data_refines {p} (x ∷ src) v h = ground (
  arith,
  length-get_data v,
  take-blit (x ∷ src) p.data_len (p.data_len + length (x ∷ src)) p.storage,
)

-- An append that fits.
pub append_data_fits :
    {p : Packet} (src : List ℕ)
    → IsValid p
    → IsSource src
    → p.data_len + length src ≤ p.max_data_len
    → (q : Packet) × (append_data p src ≡ done q)
      × (view q ≡ record (view p) { bytes = get_data p ++ src })
      × IsValid q
unfolding append
append_data_fits {p} src v h room =
    let (q, e, w) =
      map_run-eq-done view (append_data p src) {y = record (view p) { bytes = get_data p ++ src }}
        (append_data_refines src v h ∙ ground (arith, length-get_data v)) in
    (q, e, w, append_data-IsValid src v h e)

-- On a valid packet `appendByte` is appending one byte to the message.
pub append_byte_refines :
    {p : Packet} (b : ℕ) → IsValid p → map_run view (append_byte p b) ≡ append (view p) (b ∷ [])
unfolding append_byte append
append_byte_refines {p} b v = ground (arith, length-get_data v, take-set p.data_len p.storage b)

-- On a valid packet `setData` makes the bytes the whole data of the message if they fit the
-- capacity, and otherwise the `assert` fails.
pub set_data_refines :
    {p : Packet} (src : List ℕ)
    → IsValid p
    → IsSource src
    → map_run view (set_data p src) ≡ append (record (view p) { bytes = [] }) src
unfolding set_data append_data append
set_data_refines {p} [] v h = ground arith
set_data_refines {p} (x ∷ src) v h =
    ground (arith, take-blit (x ∷ src) 0 (length (x ∷ src)) p.storage)

unsnoc-take :
    (n : ℕ) (xs : List ℕ)
    → n < length xs
    → unsnoc (take (suc n) xs) ≡ done (get_or xs n 0, take n xs)
unsnoc-take n xs h = rw (take-suc n xs 0 h) (unsnoc-append (take n xs) (get_or xs n 0))

extract_crc_cases :
    (p : Packet) (n : ℕ)
    → IsValid p
    → n ≡ p.data_len
    → map_run view_crc (extract_crc p) ≡ map_run (with_bytes (view p)) (unsnoc (take n p.storage))
unfolding extract_crc
extract_crc_cases p zero v e = unfold unsnoc in ground arith
extract_crc_cases p (suc n) v e = rw (unsnoc-take n p.storage (omega arith)) (ground arith)

-- On a valid packet `extractCrc` takes the last byte off the data and returns it, and on a packet
-- without data the `assert` fails.
pub extract_crc_refines :
    {p : Packet}
    → IsValid p
    → map_run view_crc (extract_crc p) ≡ map_run (with_bytes (view p)) (unsnoc (get_data p))
extract_crc_refines {p} v = extract_crc_cases p p.data_len v refl

append_data_twice :
    {p : Packet} (first second : List ℕ)
    → IsValid p
    → IsSource first
    → IsSource second
    → map_run view (append_data p first >>= λ q. append_data q second)
      ≡ (append (view p) first >>= λ m. append m second)
append_data_twice {p} first second v h k =
    rw (← append_data_refines first v h) (go (append_data p first) refl)
  where
    go :
        (r : Run Packet)
        → append_data p first ≡ r
        → map_run view (r >>= λ q. append_data q second) ≡ (map_run view r >>= λ m. append m second)
    go (done q) e = append_data_refines second (append_data-IsValid first v h e) k
    go abort e = refl

pub take-IsSource : (n : ℕ) (xs : List ℕ) → n < 256 → IsBytes xs → IsSource (take n xs)
take-IsSource n xs h k = record {
  small = omega (arith, length-take_le n xs);
  bytes = take-IsBytes n xs k;
}

-- On a valid packet `append(char const*)` appends the length byte and then that many bytes of the
-- string in memory, and an `assert` fails where one of the two does not fit.
pub append_str_refines :
    {p : Packet} (str : List ℕ)
    → IsValid p
    → IsBytes str
    → map_run view (append_str p str) ≡ (
        append (view p) (str_length str ∷ []) >>= λ m.
        append m (take (str_length str) (c_memory str)))
unfolding append_str
append_str_refines {p} str v h =
    append_data_twice (str_length str ∷ []) (take (str_length str) (c_memory str)) v (omega arith) (
      take-IsSource (str_length str) (c_memory str) (omega arith)
        (append-IsBytes str (0 ∷ []) h (omega arith)))
