-- ===== src/Host/Bus/Tests.antt =====
-- The host's bus at concrete inputs: a PING to a device, a log message, and frames with wrong CRCs.
use mathlib.Core.Option.{none, some}
use duino_bus.Base.{ℕ, ◌≡◌, refl, arith, List, [], ◌∷◌, ◌++◌, true, false, Run, done, replicate}
use duino_bus.Crc8.Poly.{poly}
use duino_bus.Packet as Duino
use duino_bus.Packet.{LogEvent}
use duino_bus.CorePacketHandler.{Platform, core_handler, ping}
use duino_bus.Encoder
use duino_bus.Encoder.Frame.{frame}
use duino_bus.Decoder
use duino_bus.Bus as Device
use duino_bus.Bus.{Transport}
use duino_bus.Bus.Write as DeviceWrite
use duino_bus.BusLog.{do_log}
use duino_bus.Exchange.{channel}
use duino_bus.Exchange.Ping.{IsServing}
use duino_bus.Wire.Owed.{IsResting}
use duino_bus.Host.{ErrorCode, Packet}
use duino_bus.Host.Decoder as HostDecoder
use duino_bus.Host.Encoder as HostEncoder
use duino_bus.Host.Poly.{crc_fn, poly-Agree}
use duino_bus.Host.Values.{DecodesAscii}
use duino_bus.Host.Bus.{
  Bus, Event, Level, log, logging_level, incoming_data_thread, get_response,
  send_command_get_response,
}
use duino_bus.Host.Bus.Thread.{readables}
use duino_bus.Host.Bus.Frames.{IsIdle}
use duino_bus.Host.Bus.Responses.{incoming-any_crc, incoming-overwrites}
use duino_bus.Host.Bus.Logs.{incoming-log_short, do_log-logged}
use duino_bus.Host.Bus.Ping.{
  Ends, port, port-IsQueue, serve, pong, at_start, send_command_get_response-ping,
}

-- Text of one byte for a character.
abbrev latin : List ℕ → Run (List ℕ)
latin bytes = done bytes

latin-DecodesAscii : DecodesAscii latin
latin-DecodesAscii bytes h = refl

abbrev platform : Platform
platform = record {
  stack_size = 2048;
  used_stack_space = 300;
  unused_stack_space = 1748;
  arena = 4096;
  uordblks = 1000;
  fordblks = 3096;
  ordblks = 3;
  growth_potential = 100000;
  old_flags = 0;
}

abbrev roomy : ℕ → Duino.Packet
roomy n = record { command = 0; max_data_len = n; data_len = 0; storage = replicate n 0; crc = 0 }

abbrev device : Device.Bus
device = record {
  rsp_packet = roomy 4;
  log_packet = some (roomy 5);
  evt_packet = none;
  decoder = record { packet = roomy 4; state = Decoder.State.idle; escape = false; debug = false };
  encoder = record {
    packet = none;
    state = Encoder.State.idle;
    encode_idx = 0;
    escape_char = 0;
    debug = false;
  };
  handlers = core_handler platform ∷ [];
}

device-IsServing : IsServing platform [] [] 4 device
device-IsServing = record {
  resting = record {
    sound = record { valid = omega arith; named = tt };
    at_idle = refl;
    clear = refl;
    holds = refl;
  };
  handlers = refl;
  leaves = tt;
  response = omega arith;
}

abbrev fresh : Packet
fresh = record { cmd = 0; bytes = []; crc = 0 }

abbrev bus : Bus
bus = record {
  decoder = record {
    packet = fresh;
    state = HostDecoder.State.idle;
    escape = false;
    debug = false;
  };
  encoder = record {
    packet = fresh;
    state = HostEncoder.State.idle;
    encode_idx = 0;
    escape_char = 0;
    debug = false;
  };
  recv_queue = 0;
  messages = [];
}

bus-IsIdle : IsIdle bus.decoder
bus-IsIdle = record {
  at_idle = refl;
  clear = refl;
  command_byte = omega arith;
  bytes = tt;
  few = omega arith;
}

abbrev request : Packet
request = record { cmd = ping; bytes = 0xc0 ∷ 3 ∷ []; crc = 0 }

send_command_get_response-ping_example :
    (bus' : Bus) × (rsp : Packet) × (device' : Device.Bus) × (send_command_get_response crc_fn latin
        port
        (serve poly)
        (readables (pong poly (0xc0 ∷ 3 ∷ [])))
        bus
        request
        (at_start device)
      ≡ (ErrorCode.none, some rsp, bus', record { host = channel []; device = done device' }))
    × (rsp.cmd ≡ ping)
    × (rsp.bytes ≡ 0xc0 ∷ 3 ∷ [])
    × (bus'.recv_queue ≡ 0)
    × IsIdle bus'.decoder
    × IsResting 4 device'.decoder
send_command_get_response-ping_example =
    send_command_get_response-ping platform [] [] poly crc_fn poly-Agree latin 4 bus device request
      bus-IsIdle refl (omega arith) device-IsServing refl (omega arith) (omega arith) (omega arith)
      (omega arith)

-- Nothing on the line.
abbrev quiet : Ends
quiet = record { host = channel []; device = done device }

abbrev arrived : List ℕ → Ends
arrived bytes = record { host = channel bytes; device = done device }

abbrev wire : Transport (List ℕ)
wire = record { read_byte = λ w. (none, w); write_byte = λ b w. w ++ (b ∷ []); flush = λ w. w }

-- "abcd" as an error: "ab" fits.
do_log-logged_example :
    (device' : Device.Bus) × (bytes : List ℕ) × (logged : List LogEvent) × (bus' : Bus) × (do_log
        poly wire device 2
        (97 ∷ 98 ∷ 99 ∷ 100 ∷ [])
        []
      ≡ done (device', wire.flush (DeviceWrite.write_all wire bytes []), logged))
    × (incoming_data_thread crc_fn latin port
          (readables bytes ++ (Event.timeout ∷ []))
          bus
          (arrived (bytes ++ (0xc0 ∷ [])))
        ≡ incoming_data_thread crc_fn latin port (Event.timeout ∷ []) bus' (arrived (0xc0 ∷ [])))
    × (bus'.messages ≡ (Level.error, 97 ∷ 98 ∷ []) ∷ [])
    × (bus'.recv_queue ≡ 0)
    × IsIdle bus'.decoder
unfolding port-IsQueue logging_level
do_log-logged_example =
    do_log-logged poly crc_fn poly-Agree latin port port-IsQueue latin-DecodesAscii wire device
      (roomy 5) 2 (97 ∷ 98 ∷ 99 ∷ 100 ∷ []) [] bus (0xc0 ∷ []) (Event.timeout ∷ []) quiet refl
      (omega arith) (omega arith) (omega arith) (omega arith) (omega arith) bus-IsIdle

-- The CRC of the frame c0 01 07 c0 is 7, and the byte 8 is wrong.
incoming-any_crc_example :
    (bus' : Bus) × (rsp : Packet) × (bus'' : Bus) × (incoming_data_thread crc_fn latin port
        (readables (frame 1 [] 8) ++ [])
        bus
        (arrived (frame 1 [] 8 ++ (0xc0 ∷ [])))
      ≡ incoming_data_thread crc_fn latin port [] bus' (arrived (0xc0 ∷ [])))
    × (bus'.recv_queue ≡ 1)
    × (get_response bus' ≡ (ErrorCode.none, some rsp, bus''))
    × (rsp.cmd ≡ 1)
    × (rsp.bytes ≡ [])
    × (bus''.recv_queue ≡ 0)
    × (bus''.messages ≡ [])
    × IsIdle bus''.decoder
unfolding port-IsQueue
incoming-any_crc_example =
    incoming-any_crc poly crc_fn poly-Agree latin port port-IsQueue bus 1 [] 8 (0xc0 ∷ []) [] quiet
      bus-IsIdle (omega arith) (λ e. omega arith)

incoming-overwrites_example :
    (bus' : Bus) × (rsp : Packet) × (bus1 : Bus) × (bus2 : Bus) × (incoming_data_thread crc_fn latin
        port
        (readables (frame 1 (5 ∷ []) 0) ++ readables (frame 2 [] 14))
        bus
        (arrived (frame 1 (5 ∷ []) 0 ++ frame 2 [] 14))
      ≡ (true, bus', quiet))
    × (get_response bus' ≡ (ErrorCode.none, some rsp, bus1))
    × (get_response bus1 ≡ (ErrorCode.none, some rsp, bus2))
    × (rsp.cmd ≡ 2)
    × (rsp.bytes ≡ [])
    × (bus2.recv_queue ≡ 0)
unfolding port-IsQueue
incoming-overwrites_example =
    incoming-overwrites poly crc_fn poly-Agree latin port port-IsQueue bus 1 (5 ∷ []) 0 2 [] 14
      quiet bus-IsIdle refl (omega arith) (omega arith) (λ e. omega arith) (λ e. omega arith)

-- A LOG frame without data, and what comes behind it.
incoming-log_short_example :
    (bus' : Bus) × (incoming_data_thread crc_fn latin port
        (readables (frame log [] 9) ++ (Event.readable ∷ Event.readable ∷ []))
        bus
        (arrived (frame log [] 9 ++ (0xc0 ∷ 1 ∷ [])))
      ≡ (false, bus', arrived (0xc0 ∷ 1 ∷ [])))
    × (bus'.recv_queue ≡ 0)
    × (bus'.messages ≡ [])
unfolding port-IsQueue
incoming-log_short_example =
    incoming-log_short poly crc_fn poly-Agree latin port port-IsQueue bus [] 9 (0xc0 ∷ 1 ∷ [])
      (Event.readable ∷ Event.readable ∷ []) quiet bus-IsIdle (omega arith) (omega arith)
