-- ===== src/Unpacker/Tests.antt =====
-- Runs of the unpacker, with enough data and with too little.
use mathlib.Core.Option.{none, some}
use duino_bus.Base.{◌≡◌, refl, [], ◌∷◌}
use duino_bus.Unpacker.{Unpacker, unpack, unpack_pointer, unpack_chars, unpack_str}

-- Behind one byte that is taken, the string "ab" with its length, and one more byte.
abbrev behind_one : Unpacker
behind_one = record { buf = 9 ∷ 3 ∷ 97 ∷ 98 ∷ 0 ∷ 5 ∷ 77 ∷ []; pos = 1; data_remaining = 5 }

-- The string is the text behind index 2, and the byte behind it is left.
string_taken :
    (unpack_str behind_one ≡ (some 2, record behind_one { pos = 5; data_remaining = 1 }))
    × (unpack (record behind_one { pos = 5; data_remaining = 1 }) 1
        ≡ (some (5 ∷ []), record behind_one { pos = 6; data_remaining = 0 }))
unfolding unpack_str unpack_chars unpack
string_taken = (refl, refl)

-- With nothing left no byte is taken, whatever lies behind the data.
nothing_left :
    (unpack (record behind_one { pos = 6; data_remaining = 0 }) 1
      ≡ (none, record behind_one { pos = 6; data_remaining = 0 }))
    × (unpack_pointer behind_one 6 ≡ (none, behind_one))
unfolding unpack unpack_pointer
nothing_left = (refl, refl)

-- The length 9 in front of two bytes: the length is taken and the text is not.
abbrev cut_off : Unpacker
cut_off = record { buf = 9 ∷ 97 ∷ 0 ∷ []; pos = 0; data_remaining = 3 }

length_taken : unpack_str cut_off ≡ (none, record cut_off { pos = 1; data_remaining = 2 })
unfolding unpack_str unpack_chars unpack
length_taken = refl
