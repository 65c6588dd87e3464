-- ===== src/Exchange/Tests.antt =====
-- A PING at concrete buses; the device has a handler without commands before its core handler.
use mathlib.Core.Option.{none}
use duino_bus.Base.{ℕ, ◌≡◌, refl, arith, List, [], ◌∷◌, true, false, done, replicate}
use duino_bus.Crc8.Poly.{poly}
use duino_bus.Packet.{Packet, Error}
use duino_bus.Packet.View.{view}
use duino_bus.PacketHandler.{PacketHandler}
use duino_bus.CorePacketHandler.{Platform, core_handler}
use duino_bus.Encoder
use duino_bus.Encoder.{Encoder}
use duino_bus.Decoder
use duino_bus.Bus.{Bus, cmd_packet}
use duino_bus.Wire.Owed.{IsResting, message}
use duino_bus.Exchange.{exchange}
use duino_bus.Exchange.Ping.{IsServing, exchange-ping}

abbrev platform : Platform
platform = record {
  stack_size = 2048;
  used_stack_space = 300;
  unused_stack_space = 1748;
  arena = 4096;
  uordblks = 1000;
  fordblks = 3096;
  ordblks = 3;
  growth_potential = 100000;
  old_flags = 0;
}

abbrev without_commands : PacketHandler
without_commands = record {
  handle_packet = λ cmd rsp flags. done (false, rsp, flags);
  as_str = λ cmd. none;
}

abbrev fresh : ℕ → Packet
fresh n = record { command = 0; max_data_len = n; data_len = 0; storage = replicate n 0; crc = 0 }

abbrev bus_with : List PacketHandler → ℕ → Bus
bus_with handlers n = record {
  rsp_packet = fresh 4;
  log_packet = none;
  evt_packet = none;
  decoder = record { packet = fresh n; state = Decoder.State.idle; escape = false; debug = false };
  encoder = record {
    packet = none;
    state = Encoder.State.idle;
    encode_idx = 0;
    escape_char = 0;
    debug = false;
  };
  handlers = handlers;
}

abbrev host : Bus
host = bus_with [] 8

abbrev device : Bus
device = bus_with (without_commands ∷ core_handler platform ∷ []) 4

abbrev request : Packet
request = record {
  command = 1;
  max_data_len = 3;
  data_len = 2;
  storage = 0xc0 ∷ 3 ∷ 0 ∷ [];
  crc = 0;
}

host-IsResting : IsResting 8 host.decoder
host-IsResting = record {
  sound = record { valid = omega arith; named = tt };
  at_idle = refl;
  clear = refl;
  holds = refl;
}

device-IsServing : IsServing platform (without_commands ∷ []) [] 4 device
device-IsServing = record {
  resting = record {
    sound = record { valid = omega arith; named = tt };
    at_idle = refl;
    clear = refl;
    holds = refl;
  };
  handlers = refl;
  leaves = ((λ cmd rsp flags e. refl), tt);
  response = omega arith;
}

exchange-ping_example :
    (host' : Bus) × (device' : Bus) × (exchange poly host device request
      ≡ done (Error.none, true, host', device'))
    × (view (cmd_packet host') ≡ message 8 request)
    × IsResting 8 host'.decoder
    × IsResting 4 device'.decoder
exchange-ping_example =
    exchange-ping platform (without_commands ∷ []) [] poly 8 4 host device request host-IsResting
      device-IsServing (omega arith) refl (omega arith) (omega arith) (omega arith)
