-- ===== src/Words.antt =====
-- Fixed-size unsigned integers as the bytes of the object, least significant first, as the boards and
-- hosts that the library is built for store them.
use native.Mathlib.Nat.{pow-suc}
use duino_bus.Base.{
  ℕ, zero, suc, ◌+◌, ◌*◌, ◌/◌, ◌%◌, ◌^◌, ◌<◌, ◌≡◌, refl, ap, arith, List, [], ◌∷◌, length, IsBytes,
}

-- The low `k` bytes of `x`: the object of a `uint8_t`, `uint16_t`, `uint32_t` or `uint64_t`.
unfoldable pub le_bytes : ℕ → ℕ → List ℕ
le_bytes zero x = []
le_bytes (suc k) x = x % 256 ∷ le_bytes k (x / 256)

unfoldable pub from_le : List ℕ → ℕ
from_le [] = 0
from_le (b ∷ bs) = b + 256 * from_le bs

pub length-le_bytes : (k x : ℕ) → length (le_bytes k x) ≡ k
unfolding le_bytes
length-le_bytes zero x = refl
length-le_bytes (suc k) x = ap suc (length-le_bytes k (x / 256))

pub le_bytes-IsBytes : (k x : ℕ) → IsBytes (le_bytes k x)
unfolding le_bytes
le_bytes-IsBytes zero x = tt
le_bytes-IsBytes (suc k) x = (omega arith, le_bytes-IsBytes k (x / 256))

pub from_le-le_bytes : (k x : ℕ) → x < 256 ^ k → from_le (le_bytes k x) ≡ x
unfolding from_le le_bytes
from_le-le_bytes zero x h = omega arith
from_le-le_bytes (suc k) x h = omega (arith, from_le-le_bytes k (x / 256) (smaller k x h))
  where
    smaller : (k x : ℕ) → x < 256 ^ suc k → x / 256 < 256 ^ k
    smaller k x h = omega (arith, pow-suc 256 k)
