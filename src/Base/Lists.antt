-- ===== src/Base/Lists.antt =====
-- Lists of bytes as C arrays: measured and indexed by native numbers, under the library's names.
use Prim.Native.Nat.{ℕ, zero, suc, ◌+◌, ◌-◌, ◌≤◌, ◌<◌}
use mathlib.Core.Path.{◌≡◌, refl, ap, ap₂, ◌∙◌}
use mathlib.Core.List.{List, [], ◌∷◌, ◌++◌, append-nil, append_assoc}
use native.Mathlib.Numerals.{add-one}
use native.Mathlib.Omega.{arith}

cons-injective {ℓ} : {A : Type ℓ} {x y : A} {xs ys : List A} → x ∷ xs ≡ y ∷ ys → (x ≡ y) × (xs ≡ ys)
cons-injective e = (cc, cc)

module _ {ℓ} {A : Type ℓ} where
  abbrev pub length : List A → ℕ
  length [] = 0
  length (x ∷ xs) = suc (length xs)

  -- A read out of bounds gives the default.
  abbrev pub get_or : List A → ℕ → A → A
  get_or [] i d = d
  get_or (x ∷ xs) zero d = x
  get_or (x ∷ xs) (suc i) d = get_or xs i d

  -- A write out of bounds changes nothing.
  abbrev pub set : List A → ℕ → A → List A
  set [] i v = []
  set (x ∷ xs) zero v = v ∷ xs
  set (x ∷ xs) (suc i) v = x ∷ set xs i v

  abbrev pub take : ℕ → List A → List A
  take zero xs = []
  take (suc n) [] = []
  take (suc n) (x ∷ xs) = x ∷ take n xs

  abbrev pub drop : ℕ → List A → List A
  drop zero xs = xs
  drop (suc n) [] = []
  drop (suc n) (x ∷ xs) = drop n xs

  abbrev pub replicate : ℕ → A → List A
  replicate zero x = []
  replicate (suc n) x = x ∷ replicate n x

  -- `memcpy(&xs[i], ys, length ys)`: what would land past the end is dropped.
  abbrev pub blit : List A → ℕ → List A → List A
  blit xs i [] = xs
  blit xs i (y ∷ ys) = blit (set xs i y) (i + 1) ys

  abbrev pub All {κ} : (A → Type κ) → List A → Type κ
  All P [] = Unit {κ}
  All P (x ∷ xs) = P x × All P xs

  pub length-append : (xs ys : List A) → length (xs ++ ys) ≡ length xs + length ys
  length-append [] ys = omega arith
  length-append (x ∷ xs) ys = omega (arith, length-append xs ys)

  pub length-set : (xs : List A) (i : ℕ) (v : A) → length (set xs i v) ≡ length xs
  length-set [] i v = refl
  length-set (x ∷ xs) zero v = refl
  length-set (x ∷ xs) (suc i) v = ap suc (length-set xs i v)

  pub length-blit : (xs : List A) (i : ℕ) (ys : List A) → length (blit xs i ys) ≡ length xs
  length-blit xs i [] = refl
  length-blit xs i (y ∷ ys) = length-blit (set xs i y) (i + 1) ys ∙ length-set xs i y

  pub length-take : (n : ℕ) (xs : List A) → n ≤ length xs → length (take n xs) ≡ n
  length-take zero xs h = refl
  length-take (suc n) [] h = absurd (omega arith)
  length-take (suc n) (x ∷ xs) h = ap suc (length-take n xs (omega arith))

  -- The `n` elements from index `i` on.
  abbrev pub window : List A → ℕ → ℕ → A → List A
  window xs i zero d = []
  window xs i (suc n) d = get_or xs i d ∷ window xs (suc i) n d

  window-cons :
      (n : ℕ) (x : A) (xs : List A) (i : ℕ) (d : A) → window (x ∷ xs) (suc i) n d ≡ window xs i n d
  window-cons zero x xs i d = refl
  window-cons (suc n) x xs i d = ap (λ t. get_or xs i d ∷ t) (window-cons n x xs (suc i) d)

  pub window-eq-take : (n : ℕ) (xs : List A) (d : A) → n ≤ length xs → window xs 0 n d ≡ take n xs
  window-eq-take zero xs d h = refl
  window-eq-take (suc n) [] d h = absurd (omega arith)
  window-eq-take (suc n) (x ∷ xs) d h =
      ap (λ t. x ∷ t) (window-cons n x xs 0 d ∙ window-eq-take n xs d (omega arith))

  pub take_all : (n : ℕ) (xs : List A) → length xs ≤ n → take n xs ≡ xs
  take_all zero [] h = refl
  take_all zero (x ∷ xs) h = absurd (omega arith)
  take_all (suc n) [] h = refl
  take_all (suc n) (x ∷ xs) h = ap (λ t. x ∷ t) (take_all n xs (omega arith))

  pub length-drop : (n : ℕ) (xs : List A) → length (drop n xs) ≡ length xs - n
  length-drop zero xs = omega arith
  length-drop (suc n) [] = omega arith
  length-drop (suc n) (x ∷ xs) = omega (arith, length-drop n xs)

  drop-nil : (n : ℕ) → drop n [] ≡ []
  drop-nil zero = refl
  drop-nil (suc n) = refl

  pub drop-drop : (m n k : ℕ) (xs : List A) → m + n ≡ k → drop n (drop m xs) ≡ drop k xs
  drop-drop zero n k xs e = ap (λ i. drop i xs) (omega arith)
  drop-drop (suc m) n zero xs e = absurd (omega arith)
  drop-drop (suc m) n (suc k) [] e = drop-nil n
  drop-drop (suc m) n (suc k) (x ∷ xs) e = drop-drop m n k xs (omega arith)

  -- A prefix of a prefix, and what is left of it.
  pub take-split :
      (front : List A) (r : ℕ) (xs back : List A)
      → take r xs ≡ front ++ back
      → r ≤ length xs
      → (take (length front) xs ≡ front)
        × (take (r - length front) (drop (length front) xs) ≡ back)
        × (length front ≤ r)
  take-split [] r xs back e h = (refl, ap (λ i. take i xs) (omega arith) ∙ e, omega arith)
  take-split (y ∷ front) zero xs back e h = cc
  take-split (y ∷ front) (suc r) [] back e h = cc
  take-split (y ∷ front) (suc r) (x ∷ xs) back e h =
      let (same, rest) = cons-injective e in
      let (p, q, l) = take-split front r xs back rest (omega arith) in
      (ap₂ ◌∷◌ same p, ap (λ i. take i (drop (length front) xs)) (omega arith) ∙ q, omega arith)

  pub length-take_le : (n : ℕ) (xs : List A) → length (take n xs) ≤ n
  length-take_le zero xs = omega arith
  length-take_le (suc n) [] = omega arith
  length-take_le (suc n) (x ∷ xs) = omega (arith, length-take_le n xs)

  -- Writing at the end of a prefix extends the prefix by what is written.
  pub take-set :
      (n : ℕ) (xs : List A) (v : A)
      → n < length xs
      → take (suc n) (set xs n v) ≡ take n xs ++ (v ∷ [])
  take-set n [] v h = absurd (omega arith)
  take-set zero (x ∷ xs) v h = refl
  take-set (suc n) (x ∷ xs) v h = ap (λ t. x ∷ t) (take-set n xs v (omega arith))

  -- Reading the last element of a prefix.
  pub take-suc :
      (n : ℕ) (xs : List A) (d : A)
      → n < length xs
      → take (suc n) xs ≡ take n xs ++ (get_or xs n d ∷ [])
  take-suc n [] d h = absurd (omega arith)
  take-suc zero (x ∷ xs) d h = refl
  take-suc (suc n) (x ∷ xs) d h = ap (λ t. x ∷ t) (take-suc n xs d (omega arith))

  pub take-blit :
      (ys : List A) (n m : ℕ) (xs : List A)
      → m ≡ n + length ys
      → m ≤ length xs
      → take m (blit xs n ys) ≡ take n xs ++ ys
  take-blit [] n m xs e h = rw append-nil (ap (λ k. take k xs) (omega arith))
  take-blit (y ∷ ys) n m xs e h =
      take-blit ys (n + 1) m (set xs n y) (omega arith) (rw length-set h)
      ∙ rw (add-one, take-set n xs y (omega arith), append_assoc)

abbrev pub IsByte : ℕ → Type 0
IsByte b = b < 256

abbrev pub IsBytes : List ℕ → Type 0
IsBytes xs = All IsByte xs

pub snoc-All {ℓ κ} :
    {A : Type ℓ} (P : A → Type κ) (xs : List A) (x : A) → All P xs → P x → All P (xs ++ (x ∷ []))
snoc-All P [] x h hx = (hx, tt)
snoc-All P (y ∷ ys) x h hx = (h.0, snoc-All P ys x h.1 hx)

pub append-IsBytes : (xs ys : List ℕ) → IsBytes xs → IsBytes ys → IsBytes (xs ++ ys)
append-IsBytes [] ys hx hy = hy
append-IsBytes (x ∷ xs) ys hx hy = (hx.0, append-IsBytes xs ys hx.1 hy)

pub take-IsBytes : (n : ℕ) (xs : List ℕ) → IsBytes xs → IsBytes (take n xs)
take-IsBytes zero xs h = tt
take-IsBytes (suc n) [] h = tt
take-IsBytes (suc n) (x ∷ xs) h = (h.0, take-IsBytes n xs h.1)

pub set-IsBytes : (xs : List ℕ) (i v : ℕ) → IsBytes xs → IsByte v → IsBytes (set xs i v)
set-IsBytes [] i v h hv = tt
set-IsBytes (x ∷ xs) zero v h hv = (hv, h.1)
set-IsBytes (x ∷ xs) (suc i) v h hv = (h.0, set-IsBytes xs i v h.1 hv)

pub blit-IsBytes :
    (xs : List ℕ) (i : ℕ) (ys : List ℕ) → IsBytes xs → IsBytes ys → IsBytes (blit xs i ys)
blit-IsBytes xs i [] h hy = h
blit-IsBytes xs i (y ∷ ys) h hy =
    blit-IsBytes (set xs i y) (i + 1) ys (set-IsBytes xs i y h hy.0) hy.1

pub get_or-IsByte : (xs : List ℕ) (i : ℕ) → IsBytes xs → IsByte (get_or xs i 0)
get_or-IsByte [] i h = omega arith
get_or-IsByte (x ∷ xs) zero h = h.0
get_or-IsByte (x ∷ xs) (suc i) h = get_or-IsByte xs i h.1
