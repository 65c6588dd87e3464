-- ===== src/Base/Runs.antt =====
-- Runs of code that a failed `assert` or a null dereference ends.
use mathlib.Core.Path.{◌≡◌, refl}
use mathlib.Core.Bool.{Bool, true, false}

-- `abort`: the process ends here. Nothing after it runs.
pub data Run {ℓ} (A : Type ℓ) : Type ℓ where
  done : A → Run A
  abort : Run A

infixl 5 ◌>>=◌ ◌>>◌
abbrev pub ◌>>=◌ {ℓ κ} : {A : Type ℓ} {B : Type κ} → Run A → (A → Run B) → Run B
done a >>= f = f a
abort >>= f = abort

abbrev pub ◌>>◌ {ℓ} : {B : Type ℓ} → Run (Unit {0}) → Run B → Run B
m >> k = m >>= λ _. k

-- `assert(b)`
abbrev pub assert : Bool → Run (Unit {0})
assert true = done tt
assert false = abort

-- Inversion of a bind that ends well.
pub >>=-eq-done {ℓ κ} :
    {A : Type ℓ} {B : Type κ} (m : Run A) (f : A → Run B) {b : B}
    → (m >>= f) ≡ done b
    → (a : A) × (m ≡ done a) × (f a ≡ done b)
>>=-eq-done (done a) f h = (a, refl, h)
>>=-eq-done abort f h = cc

abbrev pub map_run {ℓ κ} : {A : Type ℓ} {B : Type κ} → (A → B) → Run A → Run B
map_run f (done a) = done (f a)
map_run f abort = abort

pub map_run-eq-done {ℓ κ} :
    {A : Type ℓ} {B : Type κ} (f : A → B) (r : Run A) {y : B}
    → map_run f r ≡ done y
    → (x : A) × (r ≡ done x) × (f x ≡ y)
map_run-eq-done f (done x) h = (x, refl, cc)
map_run-eq-done f abort h = cc
