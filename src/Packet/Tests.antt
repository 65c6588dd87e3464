-- ===== src/Packet/Tests.antt =====
-- The theorems on packets at concrete inputs.
use duino_bus.Base.{ℕ, ◌≡◌, refl, arith, List, [], ◌∷◌, done, map_run}
use duino_bus.Packet.{Packet}
use duino_bus.Packet.Bounds.{IsValid, IsSource}
use duino_bus.Packet.View.{append, unsnoc}
use duino_bus.Packet.Operations.{Op, calls, on_messages, on_message, seen_all, calls_refine}

-- Two bytes of data, and room for three more.
abbrev two_of_five : Packet
two_of_five = record {
  command = 7;
  max_data_len = 5;
  data_len = 2;
  storage = 10 ∷ 20 ∷ 0 ∷ 0 ∷ 0 ∷ [];
  crc = 0;
}

two_of_five-IsValid : IsValid two_of_five
two_of_five-IsValid = omega arith

abbrev src : List ℕ
src = 1 ∷ 2 ∷ 3 ∷ []

src-IsSource : IsSource src
src-IsSource = omega arith

-- Three bytes fill the packet, the last is its CRC, and one more byte is dropped again.
abbrev some_calls : List Op
some_calls =
    Op.sets_command 3
    ∷ Op.appends_data src
    ∷ Op.extracts_crc
    ∷ Op.appends_byte 9
    ∷ Op.removes_byte
    ∷ []

calls_refine_example :
    map_run seen_all (calls two_of_five some_calls)
    ≡ on_messages (record { command = 7; capacity = 5; bytes = 10 ∷ 20 ∷ [] }) some_calls
calls_refine_example = calls_refine some_calls two_of_five two_of_five-IsValid (omega arith)

-- The first result is that of `setCommand`, and the third the CRC.
on_messages_runs :
    on_messages (record { command = 7; capacity = 5; bytes = 10 ∷ 20 ∷ [] }) some_calls
    ≡ done
        (0 ∷ 0 ∷ 3 ∷ 0 ∷ 0 ∷ [], record { command = 3; capacity = 5; bytes = 10 ∷ 20 ∷ 1 ∷ 2 ∷ [] })
unfolding on_messages on_message append unsnoc
on_messages_runs = refl
