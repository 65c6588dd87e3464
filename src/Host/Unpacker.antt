-- ===== src/Host/Unpacker.antt =====
-- duino_bus/unpacker.py: the host's unpacker. A slice that reaches past the end is shorter; an index
-- past the end raises an exception.
use duino_bus.Base.{
  ℕ, ◌+◌, ◌-◌, List, [], ◌∷◌, Bool, if◌then◌else◌, ltb, length, take, drop, Run, done, abort, ◌>>=◌,
}
use duino_bus.Words.{from_le}

pub record Unpacker : Type 0 where
  pub buf : List ℕ
  pub idx : ℕ

-- `Unpacker(data)`
unfoldable pub init : List ℕ → Unpacker
init bytes = record { buf = bytes; idx = 0 }

unfoldable pub more_data : Unpacker → Bool
more_data u = ltb u.idx (length u.buf)

-- The bytes from the index on.
abbrev pub left : Unpacker → List ℕ
left u = drop u.idx u.buf

abbrev pub skip : Unpacker → ℕ → Unpacker
skip u n = record u { idx = u.idx + n }

abbrev pub first_of : List ℕ → Run ℕ
first_of [] = abort
first_of (x ∷ xs) = done x

unfoldable pub unpack_u8 : Unpacker → Run (ℕ × Unpacker)
unpack_u8 u = do val ← first_of (left u); done (val, skip u 1)

unfoldable pub unpack_u16 : Unpacker → ℕ × Unpacker
unpack_u16 u = (from_le (take 2 (left u)), skip u 2)

unfoldable pub unpack_u32 : Unpacker → ℕ × Unpacker
unpack_u32 u = (from_le (take 4 (left u)), skip u 4)

unfoldable pub unpack_data : Unpacker → ℕ → List ℕ × Unpacker
unpack_data u num_bytes = (take num_bytes (left u), skip u num_bytes)

-- `c_str[:-1]`, if there is more than one byte.
unfoldable pub without_null : List ℕ → List ℕ
without_null c_str = if ltb 1 (length c_str) then take (length c_str - 1) c_str else c_str

-- `utf8` is `str(c_str, 'utf-8')`: the characters, or an exception.
unfoldable pub unpack_str : (List ℕ → Run (List ℕ)) → Unpacker → Run (List ℕ × Unpacker)
unpack_str utf8 u = do
  (str_len, u') ← unpack_u8 u
  let (c_str, u'') = unpack_data u' str_len
  text ← utf8 (without_null c_str)
  done (text, u'')
