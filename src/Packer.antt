-- ===== src/Packer.antt =====
-- src/duino_bus/Packer.h and src/Packer.cpp: appends values to a packet, if there is space for them.
pub mod Laws
mod Tests
use duino_bus.Base.{
  ℕ, List, [], ◌∷◌, Bool, true, false, if◌then◌else◌, ltb, length, take, Run, done, ◌>>=◌,
}
use duino_bus.Packet.{Packet, get_space_remaining, append_data, str_length, c_memory}

-- `pack(T const&)`, on the bytes of the object.
unfoldable pub pack : Packet → List ℕ → Run (Bool × Packet)
pack p object =
    if ltb (get_space_remaining p) (length object)
    then done (false, p)
    else do q ← append_data p object; done (true, q)

-- The body of `pack(char const*)` behind the length.
unfoldable pub pack_chars : Packet → List ℕ → Run (Bool × Packet)
pack_chars p str =
    if ltb (get_space_remaining p) (str_length str)
    then done (false, p)
    else do q ← append_data p (take (str_length str) (c_memory str)); done (true, q)

-- `pack(char const*)`
unfoldable pub pack_str : Packet → List ℕ → Run (Bool × Packet)
pack_str p str = do
  (packed, q) ← pack p (str_length str ∷ [])
  if packed then pack_chars q str else done (false, q)
