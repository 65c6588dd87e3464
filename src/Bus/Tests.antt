-- ===== src/Bus/Tests.antt =====
-- The theorems on the bus at concrete inputs, over a transport that keeps the bytes it is given.
use mathlib.Core.Option.{none, some}
use duino_bus.Base.{
  ℕ, ◌≡◌, refl, arith, List, [], ◌∷◌, ◌++◌, true, false, done, map_run, replicate, drop,
}
use duino_bus.Crc8.Poly.{poly}
use duino_bus.Packet.{Packet, Error, Label, LogEvent, calc_crc}
use duino_bus.Packet.Bounds.{IsValid}
use duino_bus.PacketHandler.{PacketHandler, set_both}
use duino_bus.Encoder
use duino_bus.Encoder.{Encoder}
use duino_bus.Encoder.Frame.{frame}
use duino_bus.Decoder
use duino_bus.Decoder.{feed}
use duino_bus.Decoder.Feed.{decoder}
use duino_bus.Decoder.Frames.{received, report}
use duino_bus.Bus.{
  Bus, Transport, process_byte, write_packet, handle_packet, debug_state, as_str, first_name,
}
use duino_bus.Bus.Write.{write_all, write_packet-frame, sent_log}
use duino_bus.Bus.Dump.{dump}
use duino_bus.Bus.Dispatch.{Outcome, handle_packet-Outcome}
use duino_bus.Bus.Read.{Reads, process_byte-Reads}
use duino_bus.Bus.Link.{write_packet-feed}

abbrev wire : Transport (List ℕ)
wire = record { read_byte = λ w. (none, w); write_byte = λ b w. w ++ (b ∷ []); flush = λ w. w }

abbrev encoder : Encoder
encoder = record {
  packet = none;
  state = Encoder.State.idle;
  encode_idx = 0;
  escape_char = 0;
  debug = false;
}

abbrev two_bytes : Packet
two_bytes = record {
  command = 9;
  max_data_len = 3;
  data_len = 2;
  storage = 0xc0 ∷ 3 ∷ 0 ∷ [];
  crc = 0;
}

two_bytes-IsValid : IsValid two_bytes
two_bytes-IsValid = omega arith

abbrev stored : Packet
stored = record two_bytes { crc = calc_crc poly two_bytes }

abbrev other_end : Packet
other_end = record { command = 0; max_data_len = 4; data_len = 0; storage = replicate 4 0; crc = 0 }

write_packet-frame_example :
    (e : Encoder) × (write_packet poly wire encoder two_bytes []
      ≡ done (
        Error.none,
        stored,
        e,
        write_all wire (frame 9 (0xc0 ∷ 3 ∷ []) (calc_crc poly two_bytes)) [],
        sent_log false stored,
      ))
    × (e.state ≡ Encoder.State.idle)
    × (e.debug ≡ false)
write_packet-frame_example = write_packet-frame wire poly encoder two_bytes [] two_bytes-IsValid

write_packet-feed_example :
    (bytes : List ℕ) × (e : Encoder) × (logged : List LogEvent) × (write_packet poly wire encoder
        two_bytes []
      ≡ done (Error.none, stored, e, write_all wire bytes [], logged))
    × ((rest : List ℕ)
        → map_run received
            (feed poly (decoder other_end Decoder.State.idle false false) (bytes ++ rest))
          ≡ done (
              report Error.none
                (record { command = 9; capacity = 4; bytes = 0xc0 ∷ 3 ∷ [] })
                Decoder.State.idle
                rest))
write_packet-feed_example =
    write_packet-feed poly wire encoder two_bytes other_end false [] two_bytes-IsValid (omega arith)
      (omega arith)

-- A handler that takes no packet, one that answers every packet with `two_bytes` and switches
-- debugging on, and one that takes every packet without a response.
abbrev deaf : PacketHandler
deaf = record { handle_packet = λ cmd rsp flags. done (false, rsp, flags); as_str = λ cmd. none }

abbrev talker : PacketHandler
talker = record {
  handle_packet = λ cmd rsp flags. done (true, two_bytes, set_both true);
  as_str = λ cmd. some "TALK";
}

abbrev quiet : PacketHandler
quiet = record {
  handle_packet = λ cmd rsp flags. done (true, rsp, flags);
  as_str = λ cmd. some "?";
}

abbrev bus_of : List PacketHandler → Bus
bus_of handlers = record {
  rsp_packet = other_end;
  log_packet = none;
  evt_packet = none;
  decoder = decoder two_bytes Decoder.State.idle false false;
  encoder = encoder;
  handlers = handlers;
}

abbrev three : Bus
three = bus_of (deaf ∷ talker ∷ quiet ∷ [])

talker_takes : Outcome three
talker_takes =
    Outcome.taken (deaf ∷ []) talker (quiet ∷ []) two_bytes (set_both true) refl (refl, tt) refl
      two_bytes-IsValid

handle_packet-Outcome_example :
    (bus' : Bus) × (handle_packet poly wire three []
      ≡ done (
        true,
        bus',
        write_all wire (frame 9 (0xc0 ∷ 3 ∷ []) (calc_crc poly two_bytes)) [],
        sent_log true stored,
      ))
    × (debug_state bus' ≡ set_both true)
    × (bus'.decoder ≡ Decoder.set_debug (decoder two_bytes Decoder.State.idle false false) true)
unfolding talker_takes
handle_packet-Outcome_example = handle_packet-Outcome poly wire three talker_takes []

-- The name that is found among three handlers, and without the one that has it.
talker_names : (as_str three 9 ≡ "TALK") × (as_str (bus_of (deaf ∷ quiet ∷ [])) 9 ≡ "???")
unfolding as_str first_name
talker_names = (refl, refl)

-- What is logged of a packet, with and without a bus.
dumped_names :
    ((dump two_bytes Label.sent (some three)).cmd_str ≡ "TALK")
    × ((dump two_bytes Label.sent none).cmd_str ≡ "???")
    × ((dump two_bytes Label.sent none).memory ≡ 0xc0 ∷ 3 ∷ [])
unfolding dump as_str first_name
dumped_names = (refl, refl, refl)

-- A transport whose queue holds what is to be read.
abbrev queue : Transport (List ℕ)
queue = record {
  read_byte = λ w. (elim w [ [] ↦ none | b ∷ bs ↦ some b ], drop 1 w);
  write_byte = λ b w. w;
  flush = λ w. w;
}

process_byte-Reads_example :
    (r : Error × Bus × List ℕ × List LogEvent) × (process_byte poly queue
        (bus_of [])
        (0xc0 ∷ 0x01 ∷ [])
      ≡ done r)
    × Reads poly (bus_of []) (some 0xc0, 0x01 ∷ []) r
process_byte-Reads_example =
    process_byte-Reads poly queue (bus_of []) (0xc0 ∷ 0x01 ∷ [])
      (record { valid = two_bytes-IsValid; named = tt }) (λ b e. ground arith)
