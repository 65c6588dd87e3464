-- ===== src/Packet.antt =====
-- src/duino_bus/Packet.h and src/Packet.cpp: the in-memory packet over storage that the caller owns.
-- A method that changes the packet returns the new one; a failed `assert` is `abort`.
mod Tests
pub mod Bounds
pub mod View
pub mod Push
pub mod Operations
use Prim.Native.String.{String}
use duino_bus.Base.{
  ℕ, ◌+◌, ◌-◌, ◌%◌, ◌^◌, List, [], ◌∷◌, ◌++◌, Bool, true, false, min, if◌then◌else◌, ltb, leb,
  length, get_or, set, take, blit, Run, done, abort, ◌>>◌, ◌>>=◌, assert,
}
use duino_bus.Crc8.{Crc8}

-- `Packet::END` and the escapes of the wire format.
abbrev pub end_byte : ℕ
end_byte = 0xc0

abbrev pub esc_byte : ℕ
esc_byte = 0xdb

abbrev pub esc_end : ℕ
esc_end = 0xdc

abbrev pub esc_esc : ℕ
esc_esc = 0xdd

-- The first command of each family: `Packet::Command`.
abbrev pub core_command_base : ℕ
core_command_base = 0x00

abbrev pub littlefs_command_base : ℕ
littlefs_command_base = 0x40

abbrev pub hwtester_command_base : ℕ
hwtester_command_base = 0x80

-- `Packet::Error`
pub data Error : Type 0 where
  none not_done crc timeout too_much_data too_small bad_state os : Error

-- `as_str(Packet::Error)`
unfoldable as_str : Error → String
as_str Error.none = "NONE"
as_str Error.not_done = "NOT_DONE"
as_str Error.crc = "CRC"
as_str Error.timeout = "TIMEOUT"
as_str Error.too_much_data = "TOO_MUCH_DATA"
as_str Error.too_small = "TOO_SMALL"
as_str Error.bad_state = "BAD_STATE"
as_str Error.os = "OS"

-- `size_t` has 64 bits.
abbrev pub size_mod : ℕ
size_mod = 2 ^ 64

abbrev pub add_size : ℕ → ℕ → ℕ
add_size a b = (a + b) % size_mod

abbrev pub sub_size : ℕ → ℕ → ℕ
sub_size a b = (a + size_mod - b) % size_mod

-- `storage` is the memory behind `m_data`. Only its first `data_len` bytes belong to the packet.
pub record Packet : Type 0 where
  pub command : ℕ
  pub max_data_len : ℕ
  pub data_len : ℕ
  pub storage : List ℕ
  pub crc : ℕ

-- The constructor leaves `m_crc` as it finds it: `old_crc`.
unfoldable pub init : ℕ → List ℕ → ℕ → Packet
init max_data_len storage old_crc = record {
  command = 0;
  max_data_len = max_data_len;
  data_len = 0;
  storage = storage;
  crc = old_crc;
}

unfoldable pub set_command : Packet → ℕ → Packet
set_command p cmd = record p { command = cmd }

unfoldable pub get_space_remaining : Packet → ℕ
get_space_remaining p = sub_size p.max_data_len p.data_len

-- The bytes from `m_data` up to the data length.
abbrev pub get_data : Packet → List ℕ
get_data p = take p.data_len p.storage

-- The result's number is the index in `storage` that the returned pointer stands for.
unfoldable pub get_write_data : Packet → ℕ → ℕ × Packet
get_write_data p num_bytes = (p.data_len, record p { data_len = add_size p.data_len num_bytes })

-- `src` is the `dataLen` bytes at `data`.
unfoldable pub append_data : Packet → List ℕ → Run Packet
append_data p src = do
  assert (leb (add_size p.data_len (length src)) p.max_data_len)
  done (
      if ltb 0 (length src)
      then record p {
        storage = blit p.storage p.data_len src;
        data_len = add_size p.data_len (length src);
      }
      else p)

unfoldable pub set_data : Packet → List ℕ → Run Packet
set_data p src =
    let emptied = record p { data_len = 0 } in
    if ltb 0 (length src) then append_data emptied src else done emptied

unfoldable pub append_byte : Packet → ℕ → Run Packet
append_byte p byte = do
  assert (ltb p.data_len p.max_data_len)
  done (record p { storage = set p.storage p.data_len byte; data_len = add_size p.data_len 1 })

-- A C string in memory: its bytes, none of them 0, and the terminating null.
abbrev pub c_memory : List ℕ → List ℕ
c_memory str = str ++ (0 ∷ [])

-- `strnlen(str, 256) + 1`, kept in a `uint8_t`
abbrev pub str_length : List ℕ → ℕ
str_length str = (min (length str) 256 + 1) % 256

-- `append(char const*)`. `append<T>` is `append_data` of the object's bytes.
unfoldable pub append_str : Packet → List ℕ → Run Packet
append_str p str = do
  q ← append_data p (str_length str ∷ [])
  append_data q (take (str_length str) (c_memory str))

unfoldable pub remove_byte : Packet → Packet
remove_byte p = if ltb 0 p.data_len then record p { data_len = sub_size p.data_len 1 } else p

-- The result's number is the returned CRC.
unfoldable pub extract_crc : Packet → Run (ℕ × Packet)
extract_crc p = do
  assert (leb 1 p.data_len)
  let last = sub_size p.data_len 1
  done (get_or p.storage last 0, record p { data_len = last; crc = get_or p.storage last 0 })

module _ (crc8 : Crc8) where
  unfoldable pub calc_crc : Packet → ℕ
  calc_crc p = crc8.block (crc8.step 0 p.command) (get_data p)

  unfoldable pub calc_and_store_crc : Packet → Packet
  calc_and_store_crc p = record p { crc = calc_crc p }

-- What `Packet::dump` prints, with the label that its callers pass.
pub data Label : Type 0 where
  rcvd crc_wrong too_big sent : Label

-- One call of the logger.
pub data LogEvent : Type 0 where
  dumped : Label → Packet → LogEvent
  crc_error : ℕ → ℕ → LogEvent
  data_without_command : LogEvent
  unhandled_command : ℕ → LogEvent
