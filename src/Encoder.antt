-- ===== src/Encoder.antt =====
-- src/duino_bus/PacketEncoder.h and src/PacketEncoder.cpp: one call of `encodeByte` for each byte on
-- the wire, and the loop of `IBus::writePacket` (src/Bus.cpp) that makes these calls.
pub mod Frame
pub mod Writes
pub mod States
pub mod Termination
mod Tests
use mathlib.Core.Option.{Option, some}
use duino_bus.Base.{
  ℕ, zero, suc, List, [], ◌∷◌, Bool, true, false, if◌then◌else◌, ltb, ◌==◌, get_or, Run, done,
  abort, ◌>>=◌, map_run,
}
use duino_bus.Crc8.{Crc8}
use duino_bus.Packet.{
  Packet, Error, LogEvent, Label, end_byte, esc_byte, esc_end, esc_esc, add_size, calc_crc,
  calc_and_store_crc,
}

-- `PacketEncoder::State`; `payload` is DATA. `other` is a value outside the enumeration.
pub data State : Type 0 where
  idle command payload escape : State
  other : ℕ → State

-- `packet` is what `m_packet` points at, if anything; nothing writes to it while it is encoded.
pub record Encoder : Type 0 where
  pub packet : Option Packet
  pub state : State
  pub encode_idx : ℕ
  pub escape_char : ℕ
  pub debug : Bool

-- The constructor leaves `m_escapeChar` as it finds it.
unfoldable pub init : ℕ → Encoder
init old_escape_char = record {
  packet = Option.none;
  state = State.idle;
  encode_idx = 0;
  escape_char = old_escape_char;
  debug = false;
}

unfoldable pub set_debug : Encoder → Bool → Encoder
set_debug e flag = record e { debug = flag }

-- `this->m_packet->`: a null pointer ends the run.
abbrev pub deref : Option Packet → Run Packet
deref Option.none = abort
deref (some p) = done p

-- The next state, the byte to send now, and the encoder with its escape character.
unfoldable pub handle_escape : Encoder → ℕ → State × ℕ × Encoder
handle_escape e byte =
    if byte == end_byte
    then (State.escape, esc_byte, record e { escape_char = esc_end })
    else if byte == esc_byte
    then (State.escape, esc_byte, record e { escape_char = esc_esc })
    else (State.payload, byte, e)

-- The body that sends `byte` and leaves the index at `idx`.
unfoldable pub send : Encoder → ℕ → ℕ → Error × ℕ × Encoder
unfolding handle_escape
send e idx byte =
    let (s, b, e') = handle_escape e byte in
    (Error.not_done, b, record e' { state = s; encode_idx = idx })

-- A later result of the loop, with the byte written before it.
abbrev pub after_byte : ℕ → Error × List ℕ × Encoder → Error × List ℕ × Encoder
after_byte b (err, bs, e) = (err, b ∷ bs, e)

module _ (crc8 : Crc8) where
  -- The packet with its CRC stored, the encoder, and what is logged.
  unfoldable pub encode_start : Encoder → Packet → Packet × Encoder × List LogEvent
  encode_start e p =
      let p' = calc_and_store_crc crc8 p in
      (
        p',
        record e { packet = some p'; state = State.idle },
        if e.debug then LogEvent.dumped Label.sent p' ∷ [] else [],
      )

  -- The cases of the `switch`. `byte` is what `*byte` holds before the call.
  unfoldable pub encode_in : State → Encoder → ℕ → Run (Error × ℕ × Encoder)
  encode_in State.idle e byte = done (Error.not_done, end_byte, record e { state = State.command })
  encode_in State.command e byte = do p ← deref e.packet; done (send e 0 p.command)
  encode_in State.payload e byte = do
    p ← deref e.packet
    done (
        if ltb e.encode_idx p.data_len
        then send e (add_size e.encode_idx 1) (get_or p.storage e.encode_idx 0)
        else if e.encode_idx == p.data_len
        then send e (add_size e.encode_idx 1) (calc_crc crc8 p)
        else (Error.none, end_byte, record e { state = State.idle }))
  encode_in State.escape e byte =
      done (Error.not_done, e.escape_char, record e { state = State.payload })
  encode_in (State.other n) e byte = done (Error.bad_state, byte, e)

  unfoldable pub encode_byte : Encoder → ℕ → Run (Error × ℕ × Encoder)
  unfolding encode_in
  encode_byte e byte = encode_in e.state e byte

  -- The `while` of `writePacket`, with the bytes that it hands to `writeByte`. The result
  -- `not_done` says that the fuel ran out: the loop itself never ends with it.
  unfoldable pub write_loop : ℕ → Encoder → ℕ → Run (Error × List ℕ × Encoder)
  write_loop zero e byte = done (Error.not_done, [], e)
  write_loop (suc fuel) e byte = do
    (err, b, e') ← encode_byte e byte
    elim err [
      | Error.not_done ↦ map_run (after_byte b) (write_loop fuel e' b)
      | ended ↦ done (ended, b ∷ [], e')
    ]
