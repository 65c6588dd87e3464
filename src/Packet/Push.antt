-- ===== src/Packet/Push.antt =====
-- One byte appended and one byte taken off, where both succeed: what the decoder does with a packet.
use duino_bus.Base.{
  ℕ, ◌+◌, ◌-◌, get_or, ◌<◌, ◌≤◌, ◌≡◌, refl, sym, ap, ◌∙◌, arith, List, [], ◌∷◌, ◌++◌, set, done,
  map_run-eq-done, take-set, IsByte, IsBytes, length, append_assoc, append-nil,
}
use duino_bus.Packet.{Packet, append_byte, extract_crc, get_data}
use duino_bus.Packet.Bounds.{IsValid, append_byte-IsValid, extract_crc-IsValid}
use duino_bus.Packet.View.{view, view_crc, unsnoc-append, extract_crc_refines}

unfoldable pub pushed : Packet → ℕ → Packet
pushed p b = record p { storage = set p.storage p.data_len b; data_len = p.data_len + 1 }

module _ {p : Packet} (v : IsValid p) (b : ℕ) (room : p.data_len < p.max_data_len) where
  pub append_byte-pushed : append_byte p b ≡ done (pushed p b)
  unfolding append_byte pushed
  append_byte-pushed = ground arith

  pub pushed-IsValid : IsByte b → IsValid (pushed p b)
  pushed-IsValid h = append_byte-IsValid b v h append_byte-pushed

  pub get_data-pushed : get_data (pushed p b) ≡ get_data p ++ (b ∷ [])
  unfolding pushed
  get_data-pushed = ground (arith, take-set p.data_len p.storage b)

extract_crc-crc : (p q : Packet) (c : ℕ) → extract_crc p ≡ done (c, q) → q.crc ≡ c
unfolding extract_crc
extract_crc-crc p q c h = ground arith

-- With data that ends in `c`, the CRC becomes `c` and the rest stays.
pub extract_crc-last :
    {p : Packet} (xs : List ℕ) (c : ℕ)
    → IsValid p
    → get_data p ≡ xs ++ (c ∷ [])
    → (q : Packet) × (extract_crc p ≡ done (c, q))
      × (view q ≡ record (view p) { bytes = xs })
      × (q.crc ≡ c)
extract_crc-last {p} xs c v e =
    let (r, ends, same) =
      map_run-eq-done view_crc (extract_crc p) {y = (c, record (view p) { bytes = xs })}
        (extract_crc_refines v ∙ rw (e, unsnoc-append)) in
    let whole : extract_crc p ≡ done (c, r.1) =
      ends ∙ ap (λ k. done (k, r.1)) (ap (λ t. t.0) same) in
    (r.1, whole, ap (λ t. t.1) same, extract_crc-crc p r.1 c whole)

unfoldable pub last_byte : Packet → ℕ
last_byte p = get_or p.storage (p.data_len - 1) 0

unfoldable pub popped : Packet → Packet
popped p = record p { data_len = p.data_len - 1; crc = last_byte p }

pub extract_crc-popped :
    {p : Packet} → IsValid p → 0 < p.data_len → extract_crc p ≡ done (last_byte p, popped p)
unfolding extract_crc popped last_byte
extract_crc-popped {p} v h = ground arith

pub popped-IsValid : {p : Packet} → IsValid p → 0 < p.data_len → IsValid (popped p)
popped-IsValid v h = extract_crc-IsValid v (extract_crc-popped v h)

unfoldable pub push_all : Packet → List ℕ → Packet
push_all p [] = p
push_all p (b ∷ bs) = push_all (pushed p b) bs

pub push_all-IsValid :
    (bs : List ℕ) (p : Packet)
    → IsValid p
    → IsBytes bs
    → p.data_len + length bs ≤ p.max_data_len
    → IsValid (push_all p bs)
unfolding push_all
push_all-IsValid [] p v h room = v
push_all-IsValid (b ∷ bs) p v h room =
    push_all-IsValid bs (pushed p b) (pushed-IsValid v b (omega arith) h.0) h.1
      (unfold pushed in omega arith)

pub push_all-get_data :
    (bs : List ℕ) (p : Packet)
    → IsValid p
    → IsBytes bs
    → p.data_len + length bs ≤ p.max_data_len
    → get_data (push_all p bs) ≡ get_data p ++ bs
unfolding push_all
push_all-get_data [] p v h room = sym (append-nil (get_data p))
push_all-get_data (b ∷ bs) p v h room =
    push_all-get_data bs (pushed p b) (pushed-IsValid v b (omega arith) h.0) h.1
      (unfold pushed in omega arith)
    ∙ rw (get_data-pushed v b (omega arith), append_assoc)

pub push_all_keeps :
    (p : Packet) (bs : List ℕ)
    → ((push_all p bs).command ≡ p.command) × ((push_all p bs).max_data_len ≡ p.max_data_len)
unfolding push_all pushed
push_all_keeps p [] = (refl, refl)
push_all_keeps p (b ∷ bs) = push_all_keeps (pushed p b) bs
