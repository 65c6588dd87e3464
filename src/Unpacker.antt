-- ===== src/Unpacker.antt =====
-- src/duino_bus/Unpacker.h and src/Unpacker.cpp: takes values off the data of a packet.
pub mod Laws
mod Tests
use mathlib.Core.Option.{Option, none, some}
use duino_bus.Base.{ℕ, zero, ◌+◌, List, [], if◌then◌else◌, ltb, get_or, take, drop}
use duino_bus.Packet.{Packet, sub_size}

-- `m_data` points at index `pos` of `buf`.
pub record Unpacker : Type 0 where
  pub buf : List ℕ
  pub pos : ℕ
  pub data_remaining : ℕ

-- `Unpacker()`
unfoldable pub empty : Unpacker
empty = record { buf = []; pos = 0; data_remaining = 0 }

-- `Unpacker(packet)`, and what `setData` leaves of any unpacker.
unfoldable pub init : Packet → Unpacker
init p = record { buf = p.storage; pos = 0; data_remaining = p.data_len }

unfoldable pub set_data : Unpacker → Packet → Unpacker
set_data u p = record u { buf = p.storage; pos = 0; data_remaining = p.data_len }

abbrev pub advance : Unpacker → ℕ → Unpacker
advance u n = record u { pos = u.pos + n; data_remaining = sub_size u.data_remaining n }

-- `unpack(T*)` of an object of `size` bytes: those bytes, or `none` for `false`.
unfoldable pub unpack : Unpacker → ℕ → Option (List ℕ) × Unpacker
unpack u size =
    if ltb u.data_remaining size
    then (none, u)
    else (some (take size (drop u.pos u.buf)), advance u size)

-- `unpack(size_t, uint8_t const**)`: the index that the pointer stands for.
unfoldable pub unpack_pointer : Unpacker → ℕ → Option ℕ × Unpacker
unpack_pointer u num_bytes =
    if ltb u.data_remaining num_bytes then (none, u) else (some u.pos, advance u num_bytes)

-- The body of `unpack(char const**)` behind the length.
unfoldable pub unpack_chars : Unpacker → ℕ → Option ℕ × Unpacker
unpack_chars u str_length =
    if ltb u.data_remaining str_length then (none, u) else (some u.pos, advance u str_length)

-- The length byte that `unpack(&strLength)` has read.
abbrev pub first_byte : List ℕ → ℕ
first_byte bytes = get_or bytes 0 0

-- What follows `unpack(&strLength)`.
abbrev pub after_length : Option (List ℕ) × Unpacker → Option ℕ × Unpacker
after_length (none, u) = (none, u)
after_length (some bytes, u) = unpack_chars u (first_byte bytes)

-- `unpack(char const**)`
unfoldable pub unpack_str : Unpacker → Option ℕ × Unpacker
unpack_str u = after_length (unpack u 1)
