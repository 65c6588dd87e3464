-- ===== src/Wire/Tests.antt =====
-- A line at concrete inputs: a PING without data and a packet with an END among its data.
use mathlib.Core.Option.{none, some}
use duino_bus.Base.{
  ◌+◌, ◌*◌, ◌≤◌, ◌≡◌, ◌⊎◌, refl, arith, List, [], ◌∷◌, ◌++◌, length, false, All, replicate,
}
use duino_bus.Crc8.Poly.{poly}
use duino_bus.Packet.{Packet, calc_and_store_crc, calc_crc}
use duino_bus.Packet.View.{Message}
use duino_bus.Encoder
use duino_bus.Encoder.{Encoder, encode_start, encode_in, encode_byte}
use duino_bus.Decoder
use duino_bus.Decoder.{Decoder, decode_byte, switch}
use duino_bus.Wire.{Line, Step, Reach, start}
use duino_bus.Wire.Bytes.{frames}
use duino_bus.Wire.Owed.{IsResting, IsSendable, messages}
use duino_bus.Wire.Invariant.{arrived, IsNone}
use duino_bus.Wire.Delivery.{IsDelivered, Reach-in_order, Reach-delivers}

abbrev no_data : Packet
no_data = record { command = 1; max_data_len = 2; data_len = 0; storage = 0 ∷ 0 ∷ []; crc = 0 }

abbrev with_end : Packet
with_end = record { command = 9; max_data_len = 2; data_len = 2; storage = 0xc0 ∷ 3 ∷ []; crc = 0 }

abbrev packets : List Packet
packets = no_data ∷ with_end ∷ []

abbrev fresh : Packet
fresh = record { command = 0; max_data_len = 4; data_len = 0; storage = replicate 4 0; crc = 0 }

abbrev encoder : Encoder
encoder = record {
  packet = none;
  state = Encoder.State.idle;
  encode_idx = 0;
  escape_char = 0;
  debug = false;
}

abbrev receiver : Decoder
receiver = record { packet = fresh; state = Decoder.State.idle; escape = false; debug = false }

-- The first END has been written and read, and the command has been written.
abbrev under_way : Line
under_way = record {
  encoder = record {
    packet = some (record no_data { crc = 7 });
    state = Encoder.State.payload;
    encode_idx = 0;
    escape_char = 0;
    debug = false;
  };
  byte = some 1;
  todo = with_end ∷ [];
  told = [];
  wire = 1 ∷ [];
  decoder = record receiver { state = Decoder.State.command };
  got = [];
}

Reach-under_way : Reach poly (start encoder packets receiver) 4 under_way
unfolding encode_start encode_byte encode_in calc_and_store_crc calc_crc Encoder.send
    Encoder.handle_escape decode_byte switch
Reach-under_way =
    Reach.later
      (Reach.later
        (Reach.later (Reach.later Reach.here (Step.starts 0 refl refl)) (Step.writes refl refl))
        (Step.reads refl refl))
      (Step.writes refl refl)

receiver-IsResting : IsResting 4 receiver
receiver-IsResting = record {
  sound = record { valid = omega arith; named = tt };
  at_idle = refl;
  clear = refl;
  holds = refl;
}

packets-IsSendable : All (IsSendable 4) packets
packets-IsSendable = omega arith

Reach-in_order_example :
    (pending : List Message) × ([] ++ arrived pending ≡ arrived (messages 4 packets))
    × All IsNone []
    × (0 + 1 + 1 ≡ 2)
    × (4 ≤ 2 * length (frames poly packets) + length packets)
Reach-in_order_example =
    Reach-in_order poly 4 encoder packets receiver 4 under_way receiver-IsResting packets-IsSendable
      Reach-under_way

Reach-delivers_example :
    ((t : Line) × Step poly under_way t)
    ⊎ IsDelivered
        (messages 4 packets)
        (2 * length (frames poly packets) + length packets)
        4
        under_way
Reach-delivers_example =
    Reach-delivers poly 4 encoder packets receiver 4 under_way receiver-IsResting packets-IsSendable
      Reach-under_way
