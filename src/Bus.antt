-- ===== src/Bus.antt =====
-- src/duino_bus/Bus.h and src/Bus.cpp: reads bytes into the decoder, writes packets through the encoder
-- and hands a received packet to the registered handlers.
pub mod Read
pub mod Write
pub mod Handle
pub mod Dispatch
pub mod Dump
pub mod Names
pub mod Link
mod Tests
use Prim.Native.Char.{code}
use Prim.Native.String.{String}
use mathlib.Core.Option.{Option, none, some}
use duino_bus.Base.{
  ℕ, zero, suc, ◌+◌, ◌*◌, List, [], ◌∷◌, ◌++◌, Bool, true, false, not, ◌||◌, if◌then◌else◌, ltb,
  ◌==◌, Run, done, ◌>>=◌,
}
use duino_bus.Crc8.{Crc8}
use duino_bus.Packet.{Packet, Error, LogEvent, set_command, set_data}
use duino_bus.PacketHandler.{PacketHandler, DebugState, set_both}
use duino_bus.Encoder
use duino_bus.Encoder.{Encoder}
use duino_bus.Decoder
use duino_bus.Decoder.{Decoder}

-- The virtual functions that move bytes, over the state `W` of whatever is behind them.
pub record Transport (W : Type 0) : Type 0 where
  pub read_byte : W → Option ℕ × W
  pub write_byte : ℕ → W → W
  pub flush : W → W

-- `m_cmdPacket` is the packet of the decoder, so it is not stored again.
pub record Bus : Type 0 where
  pub rsp_packet : Packet
  pub log_packet : Option Packet
  pub evt_packet : Option Packet
  pub decoder : Decoder
  pub encoder : Encoder
  pub handlers : List PacketHandler

abbrev pub cmd_packet : Bus → Packet
cmd_packet bus = bus.decoder.packet

unfoldable pub init : Packet → Packet → Option Packet → Option Packet → ℕ → Bus
init cmd rsp log evt old_escape_char = record {
  rsp_packet = rsp;
  log_packet = log;
  evt_packet = evt;
  decoder = Decoder.init cmd;
  encoder = Encoder.init old_escape_char;
  handlers = [];
}

unfoldable pub set_debug : Bus → Bool → Bus
set_debug bus flag = record bus {
  decoder = Decoder.set_debug bus.decoder flag;
  encoder = Encoder.set_debug bus.encoder flag;
}

unfoldable pub add : Bus → PacketHandler → Bus
add bus handler = record bus { handlers = bus.handlers ++ (handler ∷ []) }

-- `str != nullptr && *str != '?'`
abbrev pub is_name : Option String → Bool
is_name none = false
is_name (some String.[]) = true
is_name (some (String.◌∷◌ c s)) = not (code c == b'?')

abbrev name_of : Option String → String
name_of none = "???"
name_of (some s) = s

-- The loop of `as_str`.
unfoldable pub first_name : List PacketHandler → ℕ → String
first_name [] cmd = "???"
first_name (h ∷ hs) cmd =
    if is_name (h.as_str cmd) then name_of (h.as_str cmd) else first_name hs cmd

unfoldable pub as_str : Bus → ℕ → String
as_str bus cmd = first_name bus.handlers cmd

-- The flags that a handler may set, and the bus with them.
abbrev pub debug_state : Bus → DebugState
debug_state bus = record { decoder = bus.decoder.debug; encoder = bus.encoder.debug }

abbrev pub with_debug : Bus → DebugState → Bus
with_debug bus flags = record bus {
  decoder = Decoder.set_debug bus.decoder flags.decoder;
  encoder = Encoder.set_debug bus.encoder flags.encoder;
}

module _ (crc8 : Crc8) {W : Type 0} (transport : Transport W) where
  -- `processByte`
  unfoldable pub process_byte : Bus → W → Run (Error × Bus × W × List LogEvent)
  process_byte bus w =
      let (byte, w') = transport.read_byte w in
      elim byte [
        | none ↦ done (Error.not_done, bus, w', [])
        | some b ↦ do
          (err, d, logged) ← Decoder.decode_byte crc8 bus.decoder b
          done (err, record bus { decoder = d }, w', logged)
      ]

  -- The `while` of `writePacket`. A result `not_done` says that the fuel ran out.
  unfoldable pub write_loop : ℕ → Encoder → ℕ → W → Run (Error × Encoder × W)
  write_loop zero e byte w = done (Error.not_done, e, w)
  write_loop (suc fuel) e byte w = do
    (err, b, e') ← Encoder.encode_byte crc8 e byte
    elim err [
      | Error.not_done ↦ write_loop fuel e' b (transport.write_byte b w)
      | ended ↦ done (ended, e', transport.write_byte b w)
    ]

  -- `writePacket`: the answer, the packet with its CRC stored, the encoder, what is behind the
  -- transport, and what is logged. The bytes sent are at most 2 * n + 6 for n bytes of data. `byte` is
  -- uninitialised before the loop; the encoder starts idle and so writes it before anything reads it.
  unfoldable pub write_packet :
      Encoder → Packet → W → Run (Error × Packet × Encoder × W × List LogEvent)
  write_packet e p w =
      let (p', e', logged) = Encoder.encode_start crc8 e p in
      do
        (err, e'', w') ← write_loop (2 * p.data_len + 6) e' 0 w
        done (err, p', e'', transport.flush w', logged)

  -- What `handlePacket` does once a handler has taken the packet.
  unfoldable pub respond : Bus → W → Run (Bool × Bus × W × List LogEvent)
  respond bus w =
      if not (bus.rsp_packet.command == 0)
      then (do
        (err, rsp, e, w', logged) ← write_packet bus.encoder bus.rsp_packet w
        done (true, record bus { rsp_packet = rsp; encoder = e }, w', logged))
      else if ltb 0 bus.rsp_packet.data_len
      then done (true, bus, w, LogEvent.data_without_command ∷ [])
      else done (true, bus, w, [])

  -- The loop over the handlers.
  unfoldable pub try_handlers : List PacketHandler → Bus → W → Run (Bool × Bus × W × List LogEvent)
  try_handlers [] bus w =
      done (false, bus, w, LogEvent.unhandled_command (cmd_packet bus).command ∷ [])
  try_handlers (h ∷ hs) bus w = do
    (took, rsp, flags) ← h.handle_packet (cmd_packet bus) bus.rsp_packet (debug_state bus)
    let bus' = record (with_debug bus flags) { rsp_packet = rsp }
    elim took [ true ↦ respond bus' w | false ↦ try_handlers hs bus' w ]

  -- `handlePacket`
  unfoldable pub handle_packet : Bus → W → Run (Bool × Bus × W × List LogEvent)
  handle_packet bus w = do
    rsp ← set_data (set_command bus.rsp_packet 0) []
    try_handlers bus.handlers (record bus { rsp_packet = rsp }) w
