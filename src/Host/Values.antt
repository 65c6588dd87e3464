-- ===== src/Host/Values.antt =====
-- duino_bus/packer.py and duino_bus/unpacker.py as their callers use them: a sequence of values packed one
-- behind the other, and unpacked.
pub mod Bytes
pub mod ToDevice
pub mod FromDevice
mod Tests
use duino_bus.Base.{
  ℕ, List, [], ◌∷◌, ◌<◌, ◌≤◌, Run, done, ◌>>=◌, length, All, IsBytes, ◌^◌, ◌≡◌, ◌==◌, if◌then◌else◌,
}
use duino_bus.Words.{le_bytes}
use duino_bus.Values as Device
use duino_bus.Host.Packer.{pack_u8, pack_u16, pack_u32, pack_data, pack_str}
use duino_bus.Host.Unpacker.{Unpacker, unpack_u8, unpack_u16, unpack_u32, unpack_data, unpack_str}

-- A string is given by its characters.
pub data Value : Type 0 where
  u8 u16 u32 : ℕ → Value
  buffer string : List ℕ → Value

-- What the reader asks for.
pub data Kind : Type 0 where
  u8 u16 u32 string : Kind
  buffer : ℕ → Kind

abbrev pub kind : Value → Kind
kind (Value.u8 x) = Kind.u8
kind (Value.u16 x) = Kind.u16
kind (Value.u32 x) = Kind.u32
kind (Value.buffer bytes) = Kind.buffer (length bytes)
kind (Value.string chars) = Kind.string

abbrev pub kinds : List Value → List Kind
kinds [] = []
kinds (v ∷ vs) = kind v ∷ kinds vs

-- The value as a device packs it: an object, or a C string.
abbrev pub in_device : Value → Device.Value
in_device (Value.u8 x) = Device.Value.object (le_bytes 1 x)
in_device (Value.u16 x) = Device.Value.object (le_bytes 2 x)
in_device (Value.u32 x) = Device.Value.object (le_bytes 4 x)
in_device (Value.buffer bytes) = Device.Value.object bytes
in_device (Value.string chars) = Device.Value.string chars

abbrev pub all_in_device : List Value → List Device.Value
all_in_device [] = []
all_in_device (v ∷ vs) = in_device v ∷ all_in_device vs

-- Numbers of their width, bytes, and strings of ASCII characters without a null that the length byte can
-- count.
abbrev pub IsPackable : Value → Type 0
IsPackable (Value.u8 x) = x < 256 ^ 1
IsPackable (Value.u16 x) = x < 256 ^ 2
IsPackable (Value.u32 x) = x < 256 ^ 4
IsPackable (Value.buffer bytes) = IsBytes bytes
IsPackable (Value.string chars) = All (λ c. (0 < c) × (c < 128)) chars × (length chars ≤ 254)

-- `utf8` decodes ASCII, a byte for a character.
abbrev pub DecodesAscii : (List ℕ → Run (List ℕ)) → Type 0
DecodesAscii utf8 = (bytes : List ℕ) → All (λ c. c < 128) bytes → utf8 bytes ≡ done bytes

-- An ASCII string is its characters in UTF-8.
unfoldable pub pack_value : List ℕ → Value → List ℕ
pack_value packed (Value.u8 x) = pack_u8 packed x
pack_value packed (Value.u16 x) = pack_u16 packed x
pack_value packed (Value.u32 x) = pack_u32 packed x
pack_value packed (Value.buffer bytes) = pack_data packed bytes
pack_value packed (Value.string chars) = pack_str packed chars

unfoldable pub pack_all : List ℕ → List Value → List ℕ
pack_all packed [] = packed
pack_all packed (v ∷ vs) = pack_all (pack_value packed v) vs

module _ (utf8 : List ℕ → Run (List ℕ)) where
  unfoldable pub unpack_value : Unpacker → Kind → Run (Value × Unpacker)
  unpack_value u Kind.u8 = do (x, u') ← unpack_u8 u; done (Value.u8 x, u')
  unpack_value u Kind.u16 = let (x, u') = unpack_u16 u in done (Value.u16 x, u')
  unpack_value u Kind.u32 = let (x, u') = unpack_u32 u in done (Value.u32 x, u')
  unpack_value u Kind.string = do (text, u') ← unpack_str utf8 u; done (Value.string text, u')
  unpack_value u (Kind.buffer n) =
      let (bytes, u') = unpack_data u n in done (Value.buffer bytes, u')

  unfoldable pub unpack_all : Unpacker → List Kind → Run (List Value × Unpacker)
  unpack_all u [] = done ([], u)
  unpack_all u (k ∷ ks) = do
    (v, u') ← unpack_value u k
    (vs, u'') ← unpack_all u' ks
    done (v ∷ vs, u'')

-- What the host reads of a string, and of a value: an empty string as its null.
abbrev pub read_text : List ℕ → List ℕ
read_text [] = 0 ∷ []
read_text (c ∷ cs) = c ∷ cs

abbrev pub at_host : Value → Value
at_host (Value.string chars) = Value.string (read_text chars)
at_host v = v

abbrev pub all_at_host : List Value → List Value
all_at_host [] = []
all_at_host (v ∷ vs) = at_host v ∷ all_at_host vs
