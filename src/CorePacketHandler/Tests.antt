-- ===== src/CorePacketHandler/Tests.antt =====
-- The theorems on the core handler at concrete inputs.
use duino_bus.Base.{
  ℕ, ◌≡◌, ◌≢◌, ◌<◌, ◌⊎◌, refl, arith, [], ◌∷◌, true, false, done, map_run, replicate,
}
use duino_bus.Words.{le_bytes}
use duino_bus.Packet.{Packet, core_command_base, littlefs_command_base}
use duino_bus.Packet.Bounds.{IsValid}
use duino_bus.PacketHandler.{DebugState, set_both}
use duino_bus.CorePacketHandler.{Platform, ping, debug, log, stack_info, heap_info, handle_packet}
use duino_bus.CorePacketHandler.Replies.{seen, handle_packet_ping, handle_packet_debug}
use duino_bus.CorePacketHandler.Info.{Query, words, handle_packet_info}
use duino_bus.CorePacketHandler.Commands.{Answers, IsTaken, handle_packet-Answers}

abbrev platform : Platform
platform = record {
  stack_size = 2048;
  used_stack_space = 300;
  unused_stack_space = 1748;
  arena = 4096;
  uordblks = 1000;
  fordblks = 3096;
  ordblks = 3;
  growth_potential = 100000;
  old_flags = 0;
}

abbrev command : ℕ → Packet
command cmd = record {
  command = cmd;
  max_data_len = 8;
  data_len = 4;
  storage = 1 ∷ 0 ∷ 0 ∷ 0 ∷ 0 ∷ 0 ∷ 0 ∷ 0 ∷ [];
  crc = 0;
}

abbrev response : Packet
response = record {
  command = 0;
  max_data_len = 20;
  data_len = 0;
  storage = replicate 20 0;
  crc = 0;
}

response-IsValid : IsValid response
response-IsValid = omega arith

abbrev off : DebugState
off = set_both false

handle_packet_ping_example :
    map_run seen (handle_packet platform (command ping) response off)
    ≡ done (true, record { command = ping; capacity = 20; bytes = 1 ∷ 0 ∷ 0 ∷ 0 ∷ [] }, off)
handle_packet_ping_example =
    handle_packet_ping platform (command ping) response off (omega arith) response-IsValid refl

handle_packet_debug_example :
    map_run seen (handle_packet platform (command debug) response off)
    ≡ done (true, record { command = debug; capacity = 20; bytes = le_bytes 4 1 }, set_both true)
unfolding le_bytes
handle_packet_debug_example =
    handle_packet_debug platform (command debug) response off 1 [] (omega arith) response-IsValid
      refl refl (omega arith) refl (omega arith)

handle_packet_info_example :
    map_run seen (handle_packet platform (command heap_info) response off)
    ≡ done (
      true,
      record {
        command = heap_info;
        capacity = 20;
        bytes = words (4096 ∷ 1000 ∷ 3096 ∷ 3 ∷ 100000 ∷ []);
      },
      off,
    )
handle_packet_info_example =
    handle_packet_info platform Query.heap (command heap_info) response off response-IsValid refl
      refl (omega arith)

handle_packet-Answers_example :
    (IsTaken 5
      × (core_command_base < 5)
      × (5 < littlefs_command_base)
      × (5 ≢ log)
      × Answers (command heap_info) (handle_packet platform (command heap_info) response off))
    ⊎ ((5 ≢ ping)
        × (5 ≢ debug)
        × (5 ≢ stack_info)
        × (5 ≢ heap_info)
        × (handle_packet platform (command heap_info) response off ≡ done (false, response, off)))
handle_packet-Answers_example =
    handle_packet-Answers platform (command heap_info) response off (omega arith) response-IsValid
      refl (omega arith) (omega arith)
