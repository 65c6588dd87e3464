-- ===== src/Crc8.antt =====
-- The two overloads of `Crc8` that Packet.cpp takes from duino_util. Their code is not part of this
-- repository: they are parameters, and each returns a `uint8_t`.
pub mod Poly
use duino_bus.Base.{ℕ, List, IsByte}

pub record Crc8 : Type 0 where
  -- `Crc8(crc, byte)`
  pub step : ℕ → ℕ → ℕ
  -- `Crc8(crc, len, data)`, over the `len` bytes at `data`
  pub block : ℕ → List ℕ → ℕ
  pub step-IsByte : (c b : ℕ) → IsByte (step c b)
  pub block-IsByte : (c : ℕ) (bytes : List ℕ) → IsByte (block c bytes)
