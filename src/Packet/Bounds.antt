-- ===== src/Packet/Bounds.antt =====
-- The representation invariant of a packet: its data lies inside the storage, and all are bytes.
use duino_bus.Base.{
  ℕ, ◌≤◌, ◌<◌, ◌^◌, ◌≡◌, arith, List, length, take, IsByte, IsBytes, done, length-set, length-blit,
  set-IsBytes, blit-IsBytes, get_or-IsByte,
}
use duino_bus.Crc8.{Crc8}
use duino_bus.Packet.{
  Packet, init, set_command, append_data, set_data, append_byte, remove_byte, extract_crc, calc_crc,
  calc_and_store_crc, sub_size,
}

-- No C++ object is larger than this.
abbrev pub max_object : ℕ
max_object = 2 ^ 63

pub record IsValid (p : Packet) : Type 0 where
  pub fits : p.data_len ≤ p.max_data_len
  pub room : p.max_data_len ≤ length p.storage
  pub small : p.max_data_len < max_object
  pub command_byte : IsByte p.command
  pub crc_byte : IsByte p.crc
  pub bytes : IsBytes p.storage

-- A caller's bytes.
pub record IsSource (src : List ℕ) : Type 0 where
  pub small : length src < max_object
  pub bytes : IsBytes src

pub init-IsValid :
    (n : ℕ) (s : List ℕ) (c : ℕ)
    → n ≤ length s
    → n < max_object
    → IsByte c
    → IsBytes s
    → IsValid (init n s c)
unfolding init
init-IsValid n s c room small hc hs = ground arith

pub set_command-IsValid : {p : Packet} (c : ℕ) → IsValid p → IsByte c → IsValid (set_command p c)
unfolding set_command
set_command-IsValid c v h = ground arith

pub append_byte-IsValid :
    {p q : Packet} (b : ℕ) → IsValid p → IsByte b → append_byte p b ≡ done q → IsValid q
unfolding append_byte
append_byte-IsValid {p} b v h e =
    ground (arith, length-set p.storage p.data_len b, set-IsBytes p.storage p.data_len b v.bytes h)

pub append_data-IsValid :
    {p q : Packet} (src : List ℕ)
    → IsValid p
    → IsSource src
    → append_data p src ≡ done q
    → IsValid q
unfolding append_data
append_data-IsValid {p} src v h e = ground (
  arith,
  length-blit p.storage p.data_len src,
  blit-IsBytes p.storage p.data_len src v.bytes h.bytes,
)

pub set_data-IsValid :
    {p q : Packet} (src : List ℕ) → IsValid p → IsSource src → set_data p src ≡ done q → IsValid q
unfolding set_data append_data
set_data-IsValid {p} src v h e =
    ground (arith, length-blit p.storage 0 src, blit-IsBytes p.storage 0 src v.bytes h.bytes)

pub extract_crc-IsValid :
    {p q : Packet} {c : ℕ} → IsValid p → extract_crc p ≡ done (c, q) → IsValid q
unfolding extract_crc
extract_crc-IsValid {p} v e =
    ground (arith, get_or-IsByte p.storage (sub_size p.data_len 1) v.bytes)

pub remove_byte-IsValid : {p : Packet} → IsValid p → IsValid (remove_byte p)
unfolding remove_byte
remove_byte-IsValid v = ground arith

pub calc_crc-IsByte : (crc8 : Crc8) (p : Packet) → IsByte (calc_crc crc8 p)
unfolding calc_crc
calc_crc-IsByte crc8 p = crc8.block-IsByte (crc8.step 0 p.command) (take p.data_len p.storage)

pub calc_and_store_crc-IsValid :
    (crc8 : Crc8) {p : Packet} → IsValid p → IsValid (calc_and_store_crc crc8 p)
unfolding calc_and_store_crc
calc_and_store_crc-IsValid crc8 {p} v = ground (arith, calc_crc-IsByte crc8 p)
