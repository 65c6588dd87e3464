-- ===== src/Packer/Tests.antt =====
-- The theorems on packing at concrete inputs.
use duino_bus.Base.{
  ℕ, ◌≡◌, ◌++◌, ◌<◌, zero, suc, arith, List, [], ◌∷◌, true, done, IsBytes, length, replicate,
  if◌then◌else◌, ◌==◌,
}
use duino_bus.Packet.{Packet, get_data}
use duino_bus.Packet.Bounds.{IsValid}
use duino_bus.Packet.View.{view}
use duino_bus.Packer.{pack_str}
use duino_bus.Packer.Laws.{add_str, Packs, pack_str-Packs, pack_str_wraps}

abbrev one_of_six : Packet
one_of_six = record {
  command = 7;
  max_data_len = 6;
  data_len = 1;
  storage = 10 ∷ 0 ∷ 0 ∷ 0 ∷ 0 ∷ 0 ∷ [];
  crc = 0;
}

one_of_six-IsValid : IsValid one_of_six
one_of_six-IsValid = omega arith

-- The string "abcd" does not fit behind its length.
abbrev abcd : List ℕ
abcd = 97 ∷ 98 ∷ 99 ∷ 100 ∷ []

pack_str-Packs_example : Packs (pack_str one_of_six abcd) (add_str (view one_of_six) abcd)
pack_str-Packs_example = pack_str-Packs abcd one_of_six-IsValid (omega arith)

abbrev ab : List ℕ
ab = 97 ∷ 98 ∷ []

replicate-IsBytes : (n b : ℕ) → b < 256 → IsBytes (replicate n b)
replicate-IsBytes zero b h = tt
replicate-IsBytes (suc n) b h = (h, replicate-IsBytes n b h)

-- 255 times 'a'.
abbrev long : List ℕ
long = 97 ∷ replicate 254 97

pack_str_wraps_example :
    (q : Packet) × (pack_str one_of_six long ≡ done (true, q))
    × (get_data q ≡ (10 ∷ []) ++ (if length long == 255 then 0 ∷ [] else 1 ∷ 97 ∷ []))
pack_str_wraps_example =
    pack_str_wraps 97 (replicate 254 97) one_of_six-IsValid (replicate-IsBytes 255 97 (omega arith))
      (omega arith) (omega arith)
