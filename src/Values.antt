-- ===== src/Values.antt =====
-- src/Packer.cpp and src/Unpacker.cpp as their callers use them: a sequence of values packed one behind
-- the other, and unpacked at the other end.
pub mod RoundTrip
mod Tests
use mathlib.Core.Option.{Option, none, some}
use duino_bus.Base.{
  ℕ, zero, suc, ◌+◌, List, [], ◌∷◌, ◌++◌, Bool, true, false, if◌then◌else◌, ◌==◌, length, drop, Run,
  done, ◌>>=◌,
}
use duino_bus.Packet.{Packet}
use duino_bus.Packer.{pack, pack_str}
use duino_bus.Unpacker.{Unpacker, unpack, unpack_str}

-- An object, by its bytes, or a string, by its characters without the null.
pub data Value : Type 0 where
  object : List ℕ → Value
  string : List ℕ → Value

-- What the reader asks for: an object of a size, or a string.
pub data Kind : Type 0 where
  object : ℕ → Kind
  string : Kind

abbrev pub kind : Value → Kind
kind (Value.object bytes) = Kind.object (length bytes)
kind (Value.string chars) = Kind.string

abbrev pub kinds : List Value → List Kind
kinds [] = []
kinds (v ∷ vs) = kind v ∷ kinds vs

abbrev pub pack_value : Packet → Value → Run (Bool × Packet)
pack_value p (Value.object bytes) = pack p bytes
pack_value p (Value.string chars) = pack_str p chars

-- The values in order, up to the first that is refused.
unfoldable pub pack_all : Packet → List Value → Run (Bool × Packet)
pack_all p [] = done (true, p)
pack_all p (v ∷ vs) = do
  (packed, q) ← pack_value p v
  elim packed [ true ↦ pack_all q vs | false ↦ done (false, q) ]

-- The C string at the start of the memory.
unfoldable pub c_string : List ℕ → List ℕ
c_string [] = []
c_string (c ∷ cs) = if c == 0 then [] else c ∷ c_string cs

abbrev pub read_object : Option (List ℕ) × Unpacker → Option Value × Unpacker
read_object (none, u) = (none, u)
read_object (some bytes, u) = (some (Value.object bytes), u)

-- The pointer is into the packet's memory.
abbrev pub read_string : List ℕ → Option ℕ × Unpacker → Option Value × Unpacker
read_string memory (none, u) = (none, u)
read_string memory (some pointer, u) = (some (Value.string (c_string (drop pointer memory))), u)

unfoldable pub unpack_value : Unpacker → Kind → Option Value × Unpacker
unpack_value u (Kind.object size) = read_object (unpack u size)
unpack_value u Kind.string = read_string u.buf (unpack_str u)

abbrev pub with_value : Value → Option (List Value) × Unpacker → Option (List Value) × Unpacker
with_value v (none, u) = (none, u)
with_value v (some vs, u) = (some (v ∷ vs), u)

abbrev pub after_value :
    (Unpacker → Option (List Value) × Unpacker)
    → Option Value × Unpacker
    → Option (List Value) × Unpacker
after_value rest (none, u) = (none, u)
after_value rest (some v, u) = with_value v (rest u)

-- The values in order, or nothing if one is missing.
unfoldable pub unpack_all : Unpacker → List Kind → Option (List Value) × Unpacker
unpack_all u [] = (some [], u)
unpack_all u (k ∷ ks) = after_value (λ u'. unpack_all u' ks) (unpack_value u k)
