-- ===== src/ArduinoSerialBus/Tests.antt =====
-- `processByte` over a serial port at concrete inputs.
use mathlib.Core.Option.{none, some}
use duino_bus.Base.{ℕ, ◌≡◌, refl, arith, List, [], ◌∷◌, ℤ, pos, negsuc, length, false, done}
use duino_bus.Crc8.Poly.{poly}
use duino_bus.Packet.{Packet, Error}
use duino_bus.Encoder
use duino_bus.Decoder
use duino_bus.Decoder.Feed.{decoder}
use duino_bus.Bus.{Bus}
use duino_bus.ArduinoSerialBus.{HardwareSerial, to_byte, to_uint8}
use duino_bus.ArduinoSerialBus.Read.{Carries, IsLine, poll, poll-feed}

-- A port whose state is what it has still to give.
abbrev first_int : List ℤ → ℤ × List ℤ
first_int [] = (negsuc 0, [])
first_int (i ∷ ints) = (i, ints)

abbrev serial : HardwareSerial (List ℤ)
serial = record {
  available = λ w. pos (length w);
  read = first_int;
  available_for_write = λ w. pos 64;
  write = λ b w. w;
}

abbrev line : IsLine serial
line = record { give = λ ints w. ints; reads = λ i ints w. refl }

-- The frame c0 01 07 c0 with gaps, its first byte with a bit above the lowest eight.
abbrev ints : List ℤ
ints = negsuc 0 ∷ pos 0x1c0 ∷ pos 1 ∷ negsuc 4 ∷ pos 7 ∷ pos 0xc0 ∷ []

abbrev bytes : List ℕ
bytes = 0xc0 ∷ 1 ∷ 7 ∷ 0xc0 ∷ []

ints-Carries : Carries ints bytes
ints-Carries = (
  0xc0,
  1,
  1 ∷ 7 ∷ 0xc0 ∷ [],
  refl,
  omega arith,
  omega arith,
  (
    1,
    0,
    7 ∷ 0xc0 ∷ [],
    refl,
    omega arith,
    omega arith,
    (
      7,
      0,
      0xc0 ∷ [],
      refl,
      omega arith,
      omega arith,
      (0xc0, 0, [], refl, omega arith, omega arith, refl),
    ),
  ),
)

abbrev small : Packet
small = record { command = 0; max_data_len = 2; data_len = 0; storage = 0 ∷ 0 ∷ []; crc = 0 }

abbrev bus : Bus
bus = record {
  rsp_packet = small;
  log_packet = none;
  evt_packet = none;
  decoder = decoder small Decoder.State.idle false false;
  encoder = record {
    packet = none;
    state = Encoder.State.idle;
    encode_idx = 0;
    escape_char = 0;
    debug = false;
  };
  handlers = [];
}

poll-feed_example :
    (err : Error) × (d : Decoder.Decoder) × (rest : List ℕ) × (left : List ℤ) × (Decoder.feed poly
        (decoder small Decoder.State.idle false false)
        bytes
      ≡ done (err, d, rest))
    × (poll poly serial 6 bus ints ≡ done (err, record bus { decoder = d }, left))
    × Carries left rest
poll-feed_example =
    poll-feed poly serial line ints bytes bus [] (record { valid = omega arith; named = tt })
      ints-Carries

-- What the results -1, 0 and 0x1c0 of `read` are, and what -1 would be as a byte.
some_bytes :
    (to_byte (negsuc 0) ≡ none)
    × (to_byte (pos 0) ≡ some 0)
    × (to_byte (pos 0x1c0) ≡ some 0xc0)
    × (to_uint8 (negsuc 0) ≡ 255)
unfolding to_byte
some_bytes = (refl, refl, refl, refl)
