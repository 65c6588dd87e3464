-- ===== src/PicoUsbBus/Tests.antt =====
-- The theorems on the connections at concrete inputs, over a driver that keeps what it is given.
use mathlib.Core.Option.{none}
use duino_bus.Base.{ℕ, ◌≡◌, arith, List, [], ◌∷◌, ◌++◌, true, false, done, length}
use duino_bus.Crc8.Poly.{poly}
use duino_bus.Packet.{Packet, Error, calc_crc}
use duino_bus.Packet.Bounds.{IsValid}
use duino_bus.Encoder.{Encoder}
use duino_bus.Encoder
use duino_bus.Encoder.Frame.{frame}
use duino_bus.Bus.{write_packet}
use duino_bus.Bus.Write.{sent_log}
use duino_bus.PicoUsbBus.{
  Tusb, World, no_connections, is_connected, tud_cdc_line_state_cb, transport,
}
use duino_bus.PicoUsbBus.Connection.{driver_writes, is_connected-line_state, write_packet-driver}

abbrev driver : Tusb (List ℕ)
driver = record {
  available = λ intf u. 0;
  read = λ intf u. (none, u);
  write_available = λ intf u. 64;
  write = λ intf b u. u ++ (b ∷ []);
  write_flush = λ intf u. u;
}

abbrev one_byte : Packet
one_byte = record { command = 1; max_data_len = 2; data_len = 1; storage = 5 ∷ 0 ∷ []; crc = 0 }

one_byte-IsValid : IsValid one_byte
one_byte-IsValid = omega arith

abbrev encoder : Encoder
encoder = record {
  packet = none;
  state = Encoder.State.idle;
  encode_idx = 0;
  escape_char = 0;
  debug = false;
}

abbrev stored : Packet
stored = record one_byte { crc = calc_crc poly one_byte }

is_connected-line_state_example :
    (is_connected (tud_cdc_line_state_cb no_connections 2 true false) 2 ≡ true)
    × (length (tud_cdc_line_state_cb no_connections 2 true false) ≡ 4)
is_connected-line_state_example = is_connected-line_state no_connections 2 2 true false

abbrev plugged : World (List ℕ)
plugged = record { connected = false ∷ true ∷ false ∷ false ∷ []; usb = [] }

write_packet-driver_example :
    (e : Encoder) × (write_packet poly (transport driver 1) encoder one_byte plugged
      ≡ done (
        Error.none,
        stored,
        e,
        record plugged {
          usb = driver_writes driver 1 (frame 1 (5 ∷ []) (calc_crc poly one_byte)) [];
        },
        sent_log false stored,
      ))
    × (e.state ≡ Encoder.State.idle)
unfolding is_connected
write_packet-driver_example =
    write_packet-driver driver 1 poly encoder one_byte plugged one_byte-IsValid
