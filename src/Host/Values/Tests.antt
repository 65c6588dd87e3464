-- ===== src/Host/Values/Tests.antt =====
-- Values between the two sides at concrete inputs, and values of tests/test_unpacker.py.
use mathlib.Core.Option.{none, some}
use duino_bus.Base.{
  ℕ, ◌≡◌, refl, arith, List, [], ◌∷◌, ◌++◌, Bool, true, false, Run, done, replicate,
}
use duino_bus.Crc8.Poly.{poly}
use duino_bus.Packet as Duino
use duino_bus.Packet.{Error, LogEvent, calc_crc}
use duino_bus.Encoder
use duino_bus.Decoder
use duino_bus.Decoder.Feed.{decoder}
use duino_bus.Unpacker
use duino_bus.Words.{le_bytes, from_le}
use duino_bus.Host.Packer.{pack_u8, pack_u16, pack_data, pack_str}
use duino_bus.Unpacker.Laws.{left}
use duino_bus.Bus.{Transport, write_packet}
use duino_bus.Bus.Write as DeviceWrite
use duino_bus.Values as Device
use duino_bus.Host
use duino_bus.Host.{ErrorCode, Packet}
use duino_bus.Host.Decoder as HostDecoder
use duino_bus.Host.Encoder as HostEncoder
use duino_bus.Host.Poly.{crc_fn, poly-Agree}
use duino_bus.Host.Writes.{write_all}
use duino_bus.Host.Unpacker as HostUnpacker
use duino_bus.Host.Unpacker.{
  without_null, unpack_u8, unpack_u16, unpack_u32, unpack_data, unpack_str,
}
use duino_bus.Host.Values.{
  Value, Kind, DecodesAscii, kinds, all_in_device, all_at_host, pack_all, unpack_all, unpack_value,
  pack_value,
}
use duino_bus.Host.Values.ToDevice.{unpack_all-write_packet}
use duino_bus.Host.Values.FromDevice.{unpack_all-device}
use duino_bus.Wire.Owed.{IsResting}

-- Text of one byte for a character.
abbrev latin : List ℕ → Run (List ℕ)
latin bytes = done bytes

latin-DecodesAscii : DecodesAscii latin
latin-DecodesAscii bytes h = refl

-- The bytes 11, 22 11, 44 33 22 11, 04 "ABC" 00.
unpack_multiple :
    unpack_all latin
      (record {
        buf =
            0x11 ∷ 0x22 ∷ 0x11 ∷ 0x44 ∷ 0x33 ∷ 0x22 ∷ 0x11 ∷ 0x04 ∷ 0x41 ∷ 0x42 ∷ 0x43 ∷ 0x00 ∷ [];
        idx = 0;
      })
      (Kind.u8 ∷ Kind.u16 ∷ Kind.u32 ∷ Kind.string ∷ [])
    ≡ done (
      Value.u8 0x11
          ∷ Value.u16 0x1122
          ∷ Value.u32 0x11223344
          ∷ Value.string (0x41 ∷ 0x42 ∷ 0x43 ∷ [])
          ∷ [],
      record {
        buf =
            0x11 ∷ 0x22 ∷ 0x11 ∷ 0x44 ∷ 0x33 ∷ 0x22 ∷ 0x11 ∷ 0x04 ∷ 0x41 ∷ 0x42 ∷ 0x43 ∷ 0x00 ∷ [];
        idx = 12;
      },
    )
unfolding unpack_all unpack_value unpack_u8 unpack_u16 unpack_u32 unpack_data unpack_str
    without_null from_le
unpack_multiple = refl

-- A number, the string "hi", the empty string and a byte.
abbrev values : List Value
values =
    Value.u16 0x1234 ∷ Value.string (104 ∷ 105 ∷ []) ∷ Value.string [] ∷ Value.buffer (9 ∷ []) ∷ []

abbrev roomy : Duino.Packet
roomy = record { command = 7; max_data_len = 20; data_len = 0; storage = replicate 20 0; crc = 0 }

abbrev idle_decoder : Decoder.Decoder
idle_decoder = decoder roomy Decoder.State.idle false false

idle_decoder-IsResting : IsResting 20 idle_decoder
idle_decoder-IsResting = record {
  sound = record { valid = omega arith; named = tt };
  at_idle = refl;
  clear = refl;
  holds = refl;
}

abbrev keep : ℕ → List ℕ → Bool × List ℕ
keep b w = (true, w ++ (b ∷ []))

abbrev host_encoder : HostEncoder.Encoder
host_encoder = record {
  packet = record { cmd = 0; bytes = []; crc = 0 };
  state = HostEncoder.State.idle;
  encode_idx = 0;
  escape_char = 0;
  debug = false;
}

unpack_all-write_packet_example :
    let pkt : Packet = record { cmd = 9; bytes = pack_all [] values; crc = 0 } in
    (bytes : List ℕ) × (e' : HostEncoder.Encoder) × (d' : Decoder.Decoder) × (u : Unpacker.Unpacker)
    × (HostEncoder.write_packet crc_fn keep host_encoder pkt []
        ≡ (ErrorCode.none, Host.calc_and_store_crc crc_fn pkt, e', write_all keep bytes []))
    × (Decoder.feed poly idle_decoder (bytes ++ (0xc0 ∷ [])) ≡ done (Error.none, d', 0xc0 ∷ []))
    × (d'.packet.command ≡ 9)
    × (Device.unpack_all (Unpacker.init d'.packet) (Device.kinds (all_in_device values))
        ≡ (some (all_in_device values), u))
    × (left u ≡ [])
unfolding pack_all pack_value pack_u16 pack_str pack_u8 pack_data
unpack_all-write_packet_example =
    unpack_all-write_packet poly crc_fn poly-Agree keep (λ b w. refl) 20 9 0 values host_encoder
      idle_decoder [] (0xc0 ∷ []) (omega arith) (omega arith) (omega arith) idle_decoder-IsResting
      (omega arith) (omega arith)

abbrev wire : Transport (List ℕ)
wire = record { read_byte = λ w. (none, w); write_byte = λ b w. w ++ (b ∷ []); flush = λ w. w }

abbrev encoder : Encoder.Encoder
encoder = record {
  packet = none;
  state = Encoder.State.idle;
  encode_idx = 0;
  escape_char = 0;
  debug = false;
}

abbrev fresh : Packet
fresh = record { cmd = 0; bytes = []; crc = 0 }

unpack_all-device_example :
    (q : Duino.Packet) × (bytes : List ℕ) × (e' : Encoder.Encoder) × (logged : List LogEvent)
    × (h : HostDecoder.Decoder) × (u : HostUnpacker.Unpacker) × (Device.pack_all roomy
          (all_in_device values)
        ≡ done (true, q))
    × (write_packet poly wire encoder q []
        ≡ done (
          Error.none,
          record q { crc = calc_crc poly q },
          e',
          wire.flush (DeviceWrite.write_all wire bytes []),
          logged,
        ))
    × (HostDecoder.feed crc_fn (HostDecoder.init fresh) bytes ≡ done (ErrorCode.none, h, []))
    × (h.packet.cmd ≡ 7)
    × (unpack_all latin (HostUnpacker.init h.packet.bytes) (kinds values)
        ≡ done (all_at_host values, u))
    × (HostUnpacker.more_data u ≡ false)
unfolding le_bytes
unpack_all-device_example =
    unpack_all-device latin latin-DecodesAscii poly crc_fn poly-Agree wire values roomy encoder
      fresh [] (omega arith) refl (omega arith) (omega arith) (omega arith) (omega arith) tt
      (omega arith)
