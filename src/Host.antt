-- ===== src/Host.antt =====
-- duino_bus/packet.py: the packets of the host's side, which is written in Python.
pub mod Decoder
pub mod Twins
pub mod Poly
pub mod Alike
pub mod Decodes
pub mod Reads
pub mod Encoder
pub mod Writes
pub mod Tight
pub mod Failures
pub mod Sends
pub mod Packer
pub mod Unpacker
pub mod Values
pub mod Bus
pub mod SerialBus
pub mod SocketBus
mod Tests
use Prim.Native.String.{String}
use duino_bus.Base.{ℕ, zero, suc, abort, if◌then◌else◌, ltb, List, [], ◌∷◌, ◌++◌, Run, done, ◌>>=◌}
use duino_bus.Packet.View.{unsnoc}

-- `ErrorCode`, whose numbers are those of `Packet::Error` and two more.
pub data ErrorCode : Type 0 where
  none not_done crc timeout too_much_data too_small bad_state os no_device not_open : ErrorCode

-- `ERROR_STRS`
abbrev error_strs : List String
error_strs =
    "NONE" ∷ "NOT_DONE" ∷ "CRC" ∷ "TIMEOUT" ∷ "TOO_MUCH_DATA" ∷ "TOO_SMALL" ∷ "BAD_STATE" ∷ "OS"
    ∷ "NO_DEVICE" ∷ "NOT_OPEN" ∷ []

-- Indexing a list; out of range it raises an exception.
abbrev at_index : List String → ℕ → Run String
at_index [] i = abort
at_index (x ∷ xs) zero = done x
at_index (x ∷ xs) (suc i) = at_index xs i

-- `ErrorCode.as_str` of a number from 0 on.
unfoldable pub as_str : ℕ → Run String
as_str err = if ltb 10 err then done "???" else at_index error_strs err

abbrev pub end_byte : ℕ
end_byte = 0xc0

abbrev pub esc_byte : ℕ
esc_byte = 0xdb

abbrev pub esc_end : ℕ
esc_end = 0xdc

abbrev pub esc_esc : ℕ
esc_esc = 0xdd

abbrev pub max_data_len : ℕ
max_data_len = 256

-- The data grow as bytes are appended.
pub record Packet : Type 0 where
  pub cmd : ℕ
  pub bytes : List ℕ
  pub crc : ℕ

unfoldable pub set_command : Packet → ℕ → Packet
set_command pkt cmd = record pkt { cmd = cmd }

unfoldable pub set_data : Packet → List ℕ → Packet
set_data pkt bytes = record pkt { bytes = bytes }

unfoldable pub append_byte : Packet → ℕ → Packet
append_byte pkt byte = record pkt { bytes = pkt.bytes ++ (byte ∷ []) }

unfoldable pub append_data : Packet → List ℕ → Packet
append_data pkt bytes = record pkt { bytes = pkt.bytes ++ bytes }

-- Without data `self.data[-1]` raises an exception.
unfoldable pub extract_crc : Packet → Run (ℕ × Packet)
extract_crc pkt = do
  (last, rest) ← unsnoc pkt.bytes
  done (last, record pkt { bytes = rest; crc = last })

-- `crc_fn` is the function that crcmod makes for the name 'crc-8': of data and the CRC before them.
module _ (crc_fn : List ℕ → ℕ → ℕ) where
  unfoldable pub calc_crc : Packet → ℕ
  calc_crc pkt = crc_fn pkt.bytes (crc_fn (pkt.cmd ∷ []) 0)

  unfoldable pub calc_and_store_crc : Packet → Packet
  calc_and_store_crc pkt = record pkt { crc = calc_crc pkt }
