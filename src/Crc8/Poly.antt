-- ===== src/Crc8/Poly.antt =====
-- A function that meets `Crc8`: the CRC-8 of polynomial 0x07, which src/duino_bus/Packet.h and
-- duino_bus/packet.py name (`crcmod.predefined.mkCrcFun('crc-8')`). Only tests and examples use it.
use Prim.Native.Nat.{bit_xor}
use duino_bus.Base.{ℕ, zero, suc, ◌*◌, ◌%◌, arith, List, [], ◌∷◌, if◌then◌else◌, ltb, IsByte}
use duino_bus.Crc8.{Crc8}

abbrev rounds : ℕ → ℕ → ℕ
rounds zero x = x
rounds (suc n) x = rounds n (if ltb x 128 then 2 * x else bit_xor (2 * x % 256) 7)

abbrev poly_step : ℕ → ℕ → ℕ
poly_step c b = rounds 8 (bit_xor c b) % 256

abbrev poly_block : ℕ → List ℕ → ℕ
poly_block c [] = c % 256
poly_block c (b ∷ bs) = poly_block (poly_step c b) bs

pub poly_step-IsByte : (c b : ℕ) → IsByte (poly_step c b)
poly_step-IsByte c b = omega arith

pub poly_block-IsByte : (c : ℕ) (bytes : List ℕ) → IsByte (poly_block c bytes)
poly_block-IsByte c [] = omega arith
poly_block-IsByte c (b ∷ bs) = poly_block-IsByte (poly_step c b) bs

abbrev pub poly : Crc8
poly = record {
  step = poly_step;
  block = poly_block;
  step-IsByte = poly_step-IsByte;
  block-IsByte = poly_block-IsByte;
}
