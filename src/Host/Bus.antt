-- ===== src/Host/Bus.antt =====
-- duino_bus/bus.py: the host's bus, whose thread reads packets while its caller sends commands. The
-- caller's calls touch the encoder and the thread's the decoder; the queue of responses joins them.
pub mod Thread
pub mod Frames
pub mod Logs
pub mod Responses
pub mod Ping
mod Tests
use mathlib.Core.Option.{Option, none, some}
use duino_bus.Base.{
  ℕ, ◌+◌, ◌-◌, List, [], ◌∷◌, ◌++◌, Bool, true, false, if◌then◌else◌, ◌==◌, Run, done, abort, ◌>>=◌,
}
use duino_bus.Host
use duino_bus.Host.{ErrorCode, Packet}
use duino_bus.Host.Decoder
use duino_bus.Host.Decoder.{Decoder}
use duino_bus.Host.Encoder
use duino_bus.Host.Encoder.{Encoder}
use duino_bus.Host.Unpacker

-- `LOG`
abbrev pub log : ℕ
log = 0x03

-- The levels of the logging module.
pub data Level : Type 0 where
  not_set critical error warning info debug : Level

-- `PYTHON_LOG_LEVEL`, and ERROR behind its end.
unfoldable pub logging_level : ℕ → Level
logging_level level =
    if level == 0
    then Level.not_set
    else if level == 1
    then Level.critical
    else if level == 2
    then Level.error
    else if level == 3
    then Level.warning
    else if level == 4
    then Level.info
    else if level == 5
    then Level.debug
    else Level.error

-- What a derived class implements, over the state `W` behind it. `read_byte` gives `none` for None.
pub record Port (W : Type 0) : Type 0 where
  pub is_open : W → Bool
  pub is_data_available : W → Bool
  pub read_byte : W → Option ℕ × W
  pub write_byte : ℕ → W → Bool × W

-- `recv_queue` is the number of its entries: each is a reference to the one packet of the decoder.
-- `messages` is what LOGGER was given by `process_packet`, oldest first.
pub record Bus : Type 0 where
  pub decoder : Decoder
  pub encoder : Encoder
  pub recv_queue : ℕ
  pub messages : List (Level × List ℕ)

-- `fileno`, with `none` for -1, and whether `thread` is a thread.
pub record Connection : Type 0 where
  pub fileno : Option ℕ
  pub thread : Bool

unfoldable pub bus_opened : Connection → ℕ → Connection
bus_opened connection fileno = record { fileno = some fileno; thread = true }

-- `bus_closed`, behind its wait for the end of the thread, if there is one.
unfoldable pub bus_closed : Connection → Connection
bus_closed connection = record connection { fileno = none }

-- What a call of `poll` in the thread reports: nothing in time, POLLIN, POLLERR, or something else.
pub data Event : Type 0 where
  timeout readable failed other : Event

unfoldable pub init : Bus
unfolding Decoder.init Encoder.init
init = record {
  decoder = Decoder.init (record { cmd = 0; bytes = []; crc = 0 });
  encoder = Encoder.init;
  recv_queue = 0;
  messages = [];
}

unfoldable pub set_debug : Bus → Bool → Bus
set_debug bus flag = record bus {
  decoder = Decoder.set_debug bus.decoder flag;
  encoder = Encoder.set_debug bus.encoder flag;
}

-- `recv_queue.get` of a caller that has waited: the packet that its entry refers to.
unfoldable pub get_response : Bus → ErrorCode × Option Packet × Bus
get_response bus =
    if bus.recv_queue == 0
    then (ErrorCode.timeout, none, bus)
    else (ErrorCode.none, some bus.decoder.packet, record bus { recv_queue = bus.recv_queue - 1 })

-- What the thread has done by the time that the caller's wait is over.
abbrev pub wait : {W : Type 0} → Bool × Bus × W → ErrorCode × Option Packet × Bus × W
wait (running, bus, w) = let (err, rsp, bus') = get_response bus in (err, rsp, bus', w)

-- An exception in `process_packet` ends the thread: `false`.
abbrev pub after_packet : {W : Type 0} → Bus → W → Run Bus → Bool × Bus × W
after_packet bus w abort = (false, bus, w)
after_packet bus w (done bus') = (true, bus', w)

-- What the thread does behind a round, if it goes on.
abbrev pub go_on : {W : Type 0} → Bool × Bus × W → (Bus → W → Bool × Bus × W) → Bool × Bus × W
go_on (false, bus, w) rest = (false, bus, w)
go_on (true, bus, w) rest = rest bus w

-- `utf8` is `str(c_str, 'utf-8')`: the characters, or an exception.
module _ (crc_fn : List ℕ → ℕ → ℕ) (utf8 : List ℕ → Run (List ℕ)) where
  -- `process_packet` of the decoder's packet.
  unfoldable pub process_packet : Bus → Run Bus
  process_packet bus =
      if bus.decoder.packet.cmd == log
      then (do
        (level, u) ← Unpacker.unpack_u8 (Unpacker.init bus.decoder.packet.bytes)
        (msg, u') ← Unpacker.unpack_str utf8 u
        done (record bus { messages = bus.messages ++ ((logging_level level, msg) ∷ []) }))
      else done (record bus { recv_queue = bus.recv_queue + 1 })

  module _ {W : Type 0} (port : Port W) where
    -- `process_byte` behind the reading.
    abbrev pub decode : Bus → Option ℕ × W → Run (ErrorCode × Bus × W)
    decode bus (none, w) = done (ErrorCode.not_done, bus, w)
    decode bus (some byte, w) = do
      (err, d) ← Decoder.decode_byte crc_fn bus.decoder byte
      done (err, record bus { decoder = d }, w)

    unfoldable pub process_byte : Bus → W → Run (ErrorCode × Bus × W)
    process_byte bus w =
        if port.is_data_available w
        then decode bus (port.read_byte w)
        else done (ErrorCode.not_done, bus, w)

    -- An exception in `process_byte` ends the thread; what the call has changed before is not kept.
    abbrev pub after_byte : Bus → W → Run (ErrorCode × Bus × W) → Bool × Bus × W
    after_byte bus w abort = (false, bus, w)
    after_byte bus w (done (ErrorCode.not_done, bus', w')) = (true, bus', w')
    after_byte bus w (done (err, bus', w')) = after_packet bus' w' (process_packet bus')

    -- What the thread does at POLLIN, and whether it goes on.
    unfoldable pub on_readable : Bus → W → Bool × Bus × W
    on_readable bus w = after_byte bus w (process_byte bus w)

    -- `incoming_data_thread`, for the events that its calls of `poll` report, one by one; `true` says
    -- that it is still running behind the last.
    unfoldable pub incoming_data_thread : List Event → Bus → W → Bool × Bus × W
    incoming_data_thread [] bus w = (true, bus, w)
    incoming_data_thread (event ∷ events) bus w = elim (port.is_open w) [
      | false ↦ (false, bus, w)
      | true ↦ elim event [
        | Event.timeout ↦ incoming_data_thread events bus w
        | Event.other ↦ incoming_data_thread events bus w
        | Event.failed ↦ (false, bus, w)
        | Event.readable ↦
            go_on (on_readable bus w) (λ bus' w'. incoming_data_thread events bus' w')
      ]
    ]

    -- What follows `write_packet`.
    abbrev pub await_response :
        (W → W)
        → List Event
        → Bus
        → ErrorCode × Packet × Encoder × W
        → ErrorCode × Option Packet × Bus × W
    await_response peer events bus (ErrorCode.none, cmd_pkt, e, w) =
        wait (incoming_data_thread events (record bus { encoder = e }) (peer w))
    await_response peer events bus (err, cmd_pkt, e, w) = (err, none, record bus { encoder = e }, w)

    -- `send_command_get_response`. While the caller waits, `peer` is what the other end of the port
    -- does, and `events` is what the thread is told.
    unfoldable pub send_command_get_response :
        (W → W) → List Event → Bus → Packet → W → ErrorCode × Option Packet × Bus × W
    send_command_get_response peer events bus cmd_pkt w =
        if port.is_open w
        then await_response peer events bus
            (Encoder.write_packet crc_fn port.write_byte bus.encoder cmd_pkt w)
        else (ErrorCode.not_open, none, bus, w)
