-- ===== src/Decoder.antt =====
-- src/duino_bus/PacketDecoder.h and src/PacketDecoder.cpp: the state machine that turns wire bytes into
-- a packet, one byte a call.
pub mod Safe
pub mod Feed
pub mod Frames
pub mod Sync
pub mod Lost
pub mod Stream
pub mod Ends
pub mod Recovery
mod Tests
use duino_bus.Base.{
  ℕ, List, [], ◌∷◌, ◌++◌, Bool, true, false, not, ◌&&◌, if◌then◌else◌, leb, ◌==◌, Run, done, ◌>>=◌,
}
use duino_bus.Crc8.{Crc8}
use duino_bus.Packet.{
  Packet, Error, LogEvent, Label, end_byte, esc_byte, esc_end, esc_esc, set_command, set_data,
  append_byte, extract_crc, calc_crc,
}

-- `PacketDecoder::State`; `payload` is DATA. `other` is a value outside the enumeration.
pub data State : Type 0 where
  idle command payload : State
  other : ℕ → State

-- `packet` is what `m_packet` points at.
pub record Decoder : Type 0 where
  pub packet : Packet
  pub state : State
  pub escape : Bool
  pub debug : Bool

unfoldable pub init : Packet → Decoder
init p = record { packet = p; state = State.idle; escape = false; debug = false }

unfoldable pub set_debug : Decoder → Bool → Decoder
set_debug d flag = record d { debug = flag }

abbrev pub is_idle : State → Bool
is_idle State.idle = true
is_idle State.command = false
is_idle State.payload = false
is_idle (State.other n) = false

-- The byte that an escaped `byte` stands for; any other byte stands for itself.
unfoldable pub unescape : ℕ → ℕ
unescape byte = if byte == esc_end then end_byte else if byte == esc_esc then esc_byte else byte

-- The error code, the decoder after the call, and what is logged.
abbrev pub Reply : Type 0
Reply = Error × Decoder × List LogEvent

unfoldable pub begin_packet : Decoder → ℕ → Run Reply
begin_packet d byte = do
  p ← set_data (set_command d.packet byte) []
  done (Error.not_done, record d { packet = p; state = State.payload; escape = false }, [])

unfoldable pub store_byte : Decoder → ℕ → Run Reply
store_byte d byte =
    if leb d.packet.max_data_len d.packet.data_len
    then done (
      Error.too_much_data,
      record d { escape = false },
      if d.debug then LogEvent.dumped Label.too_big d.packet ∷ [] else [],
    )
    else do
      p ← append_byte d.packet byte
      done (Error.not_done, record d { packet = p; escape = false }, [])

module _ (crc8 : Crc8) where
  -- The comparison of the received CRC with the computed one.
  unfoldable pub check_crc : Decoder → ℕ → Packet → Reply
  check_crc d rcvd p =
      if rcvd == calc_crc crc8 p
      then (
        Error.none,
        record d { packet = p; state = State.idle },
        if d.debug then LogEvent.dumped Label.rcvd p ∷ [] else [],
      )
      else (
        Error.crc,
        record d { packet = p },
        LogEvent.crc_error rcvd (calc_crc crc8 p)
            ∷ (if d.debug then LogEvent.dumped Label.crc_wrong p ∷ [] else []),
      )

  unfoldable pub end_packet : Decoder → Run Reply
  end_packet d =
      if d.packet.data_len == 0
      then done (Error.too_small, d, [])
      else do (rcvd, p) ← extract_crc d.packet; done (check_crc d rcvd p)

  -- The `switch`, on the byte that the escape logic gives.
  unfoldable pub switch : State → Decoder → ℕ → Run Reply
  switch State.idle d byte =
      done (Error.not_done, if byte == end_byte then record d { state = State.command } else d, [])
  switch State.command d byte =
      if byte == end_byte && not d.escape then done (Error.not_done, d, []) else begin_packet d byte
  switch State.payload d byte =
      if byte == end_byte && not d.escape then end_packet d else store_byte d byte
  switch (State.other n) d byte = done (Error.bad_state, d, [])

  unfoldable pub decode_byte : Decoder → ℕ → Run Reply
  decode_byte d byte =
      if is_idle d.state
      then switch d.state d byte
      else if d.escape
      then switch d.state d (unescape byte)
      else if byte == esc_byte
      then done (Error.not_done, record d { escape = true }, [])
      else switch d.state d byte

  -- A caller that hands over bytes until a call answers something else than `not_done`. It gives that
  -- answer, the decoder, and the bytes not yet handed over.
  unfoldable pub feed : Decoder → List ℕ → Run (Error × Decoder × List ℕ)
  feed d [] = done (Error.not_done, d, [])
  feed d (b ∷ bs) = do
    (err, d', logged) ← decode_byte d b
    elim err [ Error.not_done ↦ feed d' bs | ended ↦ done (ended, d', bs) ]
