-- ===== src/Host/Poly.antt =====
-- The CRC-8 with the polynomial 0x07 on the host's side, for tests.
use duino_bus.Base.{ℕ, ◌%◌, ◌≡◌, refl, arith, List, IsByte}
use duino_bus.Crc8.Poly.{poly}
use duino_bus.Host.Twins.{Agree}

abbrev pub crc_fn : List ℕ → ℕ → ℕ
crc_fn bytes crc = poly.block crc bytes

small_mod : (c : ℕ) → IsByte c → c % 256 ≡ c
small_mod c h = omega arith

pub poly-Agree : Agree poly crc_fn
poly-Agree = record {
  on_command = λ b h. small_mod (poly.step 0 b) (poly.step-IsByte 0 b);
  on_data = λ c bytes hc hb. refl;
}
