-- ===== src/Host/Packer.antt =====
-- duino_bus/packer.py: the host's packer. A packer of a packet appends to the packet's own data, so its
-- state is that list of bytes.
use duino_bus.Base.{ℕ, ◌+◌, ◌/◌, ◌%◌, List, [], ◌∷◌, ◌++◌, length}
use duino_bus.Host.{Packet}

-- `Packer(pkt)`
unfoldable pub of_packet : Packet → List ℕ
of_packet pkt = pkt.bytes

-- `Packer()`
unfoldable pub empty : List ℕ
empty = []

unfoldable pub pack_u8 : List ℕ → ℕ → List ℕ
pack_u8 packed x = packed ++ (x % 256 ∷ [])

unfoldable pub pack_u16 : List ℕ → ℕ → List ℕ
pack_u16 packed x = (packed ++ (x % 256 ∷ [])) ++ (x / 256 % 256 ∷ [])

unfoldable pub pack_u32 : List ℕ → ℕ → List ℕ
pack_u32 packed x =
    (((packed ++ (x % 256 ∷ [])) ++ (x / 256 % 256 ∷ [])) ++ (x / 65536 % 256 ∷ []))
    ++ (x / 16777216 % 256 ∷ [])

unfoldable pub pack_data : List ℕ → List ℕ → List ℕ
pack_data packed s = packed ++ s

-- `pack_str` of the bytes of a string.
unfoldable pub pack_str : List ℕ → List ℕ → List ℕ
unfolding pack_u8 pack_data
pack_str packed s = pack_u8 (pack_data (pack_u8 packed (length s + 1)) s) 0
