-- ===== src/Packet/Operations.antt =====
-- Any sequence of calls of the packet's methods, against the same operations on the message.
use mathlib.Core.Path.{subst}
use duino_bus.Base.{
  ℕ, zero, suc, ◌≡◌, refl, ap, arith, List, [], ◌∷◌, ◌++◌, take, take-suc, All, IsByte, IsBytes,
  append-IsBytes, Run, done, abort, map_run, ◌>>=◌, >>=-eq-done,
}
use duino_bus.Packet.{
  Packet, get_data, set_command, set_data, append_data, append_byte, append_str, remove_byte,
  extract_crc, str_length, c_memory,
}
use duino_bus.Packet.Bounds.{
  IsValid, IsSource, set_command-IsValid, set_data-IsValid, append_data-IsValid,
  append_byte-IsValid, remove_byte-IsValid, extract_crc-IsValid,
}
use duino_bus.Packet.View.{
  Message, view, view_crc, with_bytes, append, unsnoc, append_data_refines, append_byte_refines,
  set_data_refines, append_str_refines, extract_crc_refines, take-IsSource,
}

-- A call. `append<T>` is a call of `append_data`.
pub data Op : Type 0 where
  sets_command appends_byte : ℕ → Op
  sets_data appends_data appends_str : List ℕ → Op
  removes_byte extracts_crc : Op

-- Its arguments are bytes, of an object that fits in memory.
abbrev pub IsCall : Op → Type 0
IsCall (Op.sets_command c) = IsByte c
IsCall (Op.appends_byte b) = IsByte b
IsCall (Op.sets_data src) = IsSource src
IsCall (Op.appends_data src) = IsSource src
IsCall (Op.appends_str str) = IsBytes str
IsCall Op.removes_byte = Unit
IsCall Op.extracts_crc = Unit

-- With no result: 0.
abbrev pub quiet {ℓ} : {A : Type ℓ} → A → ℕ × A
quiet a = (0, a)

unfoldable pub call : Packet → Op → Run (ℕ × Packet)
call p (Op.sets_command c) = done (0, set_command p c)
call p (Op.appends_byte b) = map_run quiet (append_byte p b)
call p (Op.sets_data src) = map_run quiet (set_data p src)
call p (Op.appends_data src) = map_run quiet (append_data p src)
call p (Op.appends_str str) = map_run quiet (append_str p str)
call p Op.removes_byte = done (0, remove_byte p)
call p Op.extracts_crc = extract_crc p

-- The bytes without the last.
abbrev pub all_but_last : List ℕ → List ℕ
all_but_last [] = []
all_but_last (x ∷ []) = []
all_but_last (x ∷ y ∷ ys) = x ∷ all_but_last (y ∷ ys)

unfoldable pub on_message : Message → Op → Run (ℕ × Message)
on_message m (Op.sets_command c) = done (0, record m { command = c })
on_message m (Op.appends_byte b) = map_run quiet (append m (b ∷ []))
on_message m (Op.sets_data src) = map_run quiet (append (record m { bytes = [] }) src)
on_message m (Op.appends_data src) = map_run quiet (append m src)
on_message m (Op.appends_str str) =
    map_run quiet
      (append m (str_length str ∷ []) >>= λ m'. append m' (take (str_length str) (c_memory str)))
on_message m Op.removes_byte = done (0, record m { bytes = all_but_last m.bytes })
on_message m Op.extracts_crc = map_run (with_bytes m) (unsnoc m.bytes)

-- The calls in order, with their results.
abbrev pub with_result {ℓ} : {A : Type ℓ} → ℕ → List ℕ × A → List ℕ × A
with_result n (ns, a) = (n ∷ ns, a)

unfoldable pub calls : Packet → List Op → Run (List ℕ × Packet)
calls p [] = done ([], p)
calls p (op ∷ ops) = do (n, q) ← call p op; map_run (with_result n) (calls q ops)

unfoldable pub on_messages : Message → List Op → Run (List ℕ × Message)
on_messages m [] = done ([], m)
on_messages m (op ∷ ops) = do
  (n, m') ← on_message m op
  map_run (with_result n) (on_messages m' ops)

quietly :
    (r : Run Packet) (s : Run Message)
    → map_run view r ≡ s
    → map_run view_crc (map_run quiet r) ≡ map_run quiet s
quietly (done p) s e = ap (map_run quiet) e
quietly abort s e = ap (map_run quiet) e

all_but_last-append : (xs : List ℕ) (c : ℕ) → all_but_last (xs ++ (c ∷ [])) ≡ xs
all_but_last-append [] c = refl
all_but_last-append (x ∷ []) c = refl
all_but_last-append (x ∷ y ∷ ys) c = ap (λ l. x ∷ l) (all_but_last-append (y ∷ ys) c)

remove_byte_cases :
    (p : Packet) (n : ℕ)
    → IsValid p
    → n ≡ p.data_len
    → get_data (remove_byte p) ≡ all_but_last (take n p.storage)
unfolding remove_byte
remove_byte_cases p zero v e = ground arith
remove_byte_cases p (suc n) v e =
    rw (take-suc n p.storage 0 (omega arith), all_but_last-append) (ground arith)

remove_byte_keeps :
    (p : Packet)
    → ((remove_byte p).command ≡ p.command) × ((remove_byte p).max_data_len ≡ p.max_data_len)
unfolding remove_byte
remove_byte_keeps p = ground arith

remove_byte_refines :
    {p : Packet}
    → IsValid p
    → view (remove_byte p) ≡ record (view p) { bytes = all_but_last (get_data p) }
remove_byte_refines {p} v =
    let (cmd, cap) = remove_byte_keeps p in
    λ i. record {
      command = cmd i;
      capacity = cap i;
      bytes = remove_byte_cases p p.data_len v refl i;
    }

call_refines :
    (p : Packet) (op : Op)
    → IsValid p
    → IsCall op
    → map_run view_crc (call p op) ≡ on_message (view p) op
unfolding call on_message set_command
call_refines p (Op.sets_command c) v h = refl
call_refines p (Op.appends_byte b) v h = quietly _ _ (append_byte_refines b v)
call_refines p (Op.sets_data src) v h = quietly _ _ (set_data_refines src v h)
call_refines p (Op.appends_data src) v h = quietly _ _ (append_data_refines src v h)
call_refines p (Op.appends_str str) v h = quietly _ _ (append_str_refines str v h)
call_refines p Op.removes_byte v h = ap (λ m. done (0, m)) (remove_byte_refines v)
call_refines p Op.extracts_crc v h = extract_crc_refines v

append_str-IsValid :
    {p q : Packet} (str : List ℕ) → IsValid p → IsBytes str → append_str p str ≡ done q → IsValid q
unfolding append_str
append_str-IsValid {p} str v h e =
    let (mid, first, second) = >>=-eq-done (append_data p (str_length str ∷ [])) _ e in
    append_data-IsValid (take (str_length str) (c_memory str))
      (append_data-IsValid (str_length str ∷ []) v (omega arith) first)
      (take-IsSource (str_length str) (c_memory str) (omega arith)
        (append-IsBytes str (0 ∷ []) h (omega arith)))
      second

from_quiet : (r : Run Packet) {n : ℕ} {q : Packet} → map_run quiet r ≡ done (n, q) → r ≡ done q
from_quiet (done p) {n = n} {q = q} e =
    let same : ◌≡◌ {A = ℕ × Packet} (0, p) (n, q) = cc in ap (λ x. done x.1) same
from_quiet abort e = cc

call-IsValid :
    {p q : Packet} {n : ℕ} (op : Op) → IsValid p → IsCall op → call p op ≡ done (n, q) → IsValid q
unfolding call
call-IsValid {p} (Op.sets_command c) v h e = subst IsValid (cc) (set_command-IsValid c v h)
call-IsValid {p} (Op.appends_byte b) v h e = append_byte-IsValid b v h (from_quiet _ e)
call-IsValid {p} (Op.sets_data src) v h e = set_data-IsValid src v h (from_quiet _ e)
call-IsValid {p} (Op.appends_data src) v h e = append_data-IsValid src v h (from_quiet _ e)
call-IsValid {p} (Op.appends_str str) v h e = append_str-IsValid str v h (from_quiet _ e)
call-IsValid {p} Op.removes_byte v h e = subst IsValid (cc) (remove_byte-IsValid v)
call-IsValid {p} Op.extracts_crc v h e = extract_crc-IsValid v e

-- What a caller sees of the results of some calls.
abbrev pub seen_all : List ℕ × Packet → List ℕ × Message
seen_all (ns, p) = (ns, view p)

seen-with_result :
    (n : ℕ) (r : Run (List ℕ × Packet)) (s : Run (List ℕ × Message))
    → map_run seen_all r ≡ s
    → map_run seen_all (map_run (with_result n) r) ≡ map_run (with_result n) s
seen-with_result n (done x) s e = ap (map_run (with_result n)) e
seen-with_result n abort s e = ap (map_run (with_result n)) e

-- On a valid packet, any sequence of calls of `setCommand`, `setData`, `appendData`, `appendByte`,
-- `append(char const*)`, `removeByte` and `extractCrc`, with bytes as arguments, does what the same
-- operations do on the message: setting the command, replacing the data, appending to it or failing an
-- `assert` where the bytes do not fit the capacity, dropping its last byte if there is one, and taking
-- its last byte as the CRC or failing an `assert` without data. The results are the same, and one fails
-- exactly where the other does.
pub calls_refine :
    (ops : List Op) (p : Packet)
    → IsValid p
    → All IsCall ops
    → map_run seen_all (calls p ops) ≡ on_messages (view p) ops
unfolding calls on_messages
calls_refine [] p v h = refl
calls_refine (op ∷ ops) p v h =
    rw (← call_refines p op v h.0) (go (call p op) refl (λ q w. calls_refine ops q w h.1))
  where
    go :
        (r : Run (ℕ × Packet))
        → call p op ≡ r
        → ((q : Packet) → IsValid q → map_run seen_all (calls q ops) ≡ on_messages (view q) ops)
        → map_run seen_all (r >>= λ x. map_run (with_result x.0) (calls x.1 ops))
          ≡ (map_run view_crc r >>= λ x. map_run (with_result x.0) (on_messages x.1 ops))
    go (done (n, q)) e later = seen-with_result n _ _ (later q (call-IsValid op v h.0 e))
    go abort e later = refl
