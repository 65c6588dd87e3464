-- ===== src/Encoder/Tests.antt =====
-- The theorems on the encoder at concrete inputs, and packets of tests/PacketEncoderTest.cpp.
use mathlib.Core.Option.{some}
use duino_bus.Base.{ℕ, ◌+◌, List, ◌≡◌, refl, arith, [], ◌∷◌, false, done, map_run}
use duino_bus.Crc8.Poly.{poly}
use duino_bus.Packet.{Packet, Error, calc_crc}
use duino_bus.Packet.Bounds.{IsValid}
use duino_bus.Encoder.{Encoder, State, encode_byte, write_loop, encode_in, send, handle_escape}
use duino_bus.Encoder.Writes.{sent}
use duino_bus.Encoder.States.{IsReady}
use duino_bus.Encoder.Termination.{Ends, write_loop-ends}

abbrev two_bytes : Packet
two_bytes = record {
  command = 1;
  max_data_len = 4;
  data_len = 2;
  storage = 0xc0 ∷ 3 ∷ 0 ∷ 0 ∷ [];
  crc = 0;
}

two_bytes-IsValid : IsValid two_bytes
two_bytes-IsValid = omega arith

abbrev in_state : State → Encoder
in_state s = record {
  packet = some two_bytes;
  state = s;
  encode_idx = 0;
  escape_char = 0;
  debug = false;
}

-- The bytes c0 01 db dc 03 8f c0.
written :
    map_run sent (write_loop poly 10 (in_state State.idle) 0)
    ≡ done (record {
      error = Error.none;
      bytes = 0xc0 ∷ 0x01 ∷ 0xdb ∷ 0xdc ∷ 0x03 ∷ 0x8f ∷ 0xc0 ∷ [];
      state = State.idle;
      packet = some two_bytes;
      debug = false;
    })
unfolding write_loop encode_byte encode_in send handle_escape calc_crc
written = refl

in_payload-IsReady : IsReady two_bytes (in_state State.payload)
in_payload-IsReady = record {
  holds = refl;
  valid = two_bytes-IsValid;
  in_range = omega arith;
  escape_byte = omega arith;
}

-- Three bytes from the middle of a packet take at most seven rounds.
write_loop-ends_example :
    (r : Error × List ℕ × Encoder) × ((k : ℕ)
      → write_loop poly (7 + k) (in_state State.payload) 0 ≡ done r)
    × Ends two_bytes 7 r
write_loop-ends_example =
    write_loop-ends poly two_bytes (in_state State.payload) 0 in_payload-IsReady

abbrev left_over : ℕ
left_over = 5

outside :
    encode_byte poly (in_state (State.other 9)) left_over
    ≡ done (Error.bad_state, left_over, in_state (State.other 9))
unfolding encode_byte encode_in
outside = refl
