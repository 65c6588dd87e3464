-- ===== src/Values/Tests.antt =====
-- The round trip at concrete values: a 16-bit number, the strings "hi" and "", and one byte.
use mathlib.Core.Option.{some}
use duino_bus.Base.{◌≡◌, refl, arith, List, [], ◌∷◌, true, done, replicate}
use duino_bus.Packet.{Packet}
use duino_bus.Packet.Bounds.{IsValid}
use duino_bus.Unpacker
use duino_bus.Unpacker.{Unpacker}
use duino_bus.Unpacker.Laws.{left}
use duino_bus.Values.{Value, kinds, pack_all, unpack_all}
use duino_bus.Values.RoundTrip.{unpack_all-pack_all}

abbrev roomy : Packet
roomy = record {
  command = 7;
  max_data_len = 10;
  data_len = 0;
  storage = replicate 10 0xff;
  crc = 0;
}

abbrev values : List Value
values =
    Value.object (0x34 ∷ 0x12 ∷ [])
    ∷ Value.string (104 ∷ 105 ∷ [])
    ∷ Value.string []
    ∷ Value.object (9 ∷ [])
    ∷ []

unpack_all-pack_all_example :
    (q : Packet) × (u : Unpacker) × (pack_all roomy values ≡ done (true, q))
    × IsValid q
    × (unpack_all (Unpacker.init q) (kinds values) ≡ (some values, u))
    × (left u ≡ [])
unpack_all-pack_all_example =
    unpack_all-pack_all values roomy (omega arith) refl (omega arith) (omega arith)
