-- ===== src/Host/Decoder.antt =====
-- duino_bus/packet_decoder.py: the decoder of the host's side. What it logs and prints is left out.
use duino_bus.Base.{
  ℕ, List, [], ◌∷◌, Bool, true, false, not, ◌&&◌, if◌then◌else◌, leb, ◌==◌, Run, done, ◌>>=◌,
  length,
}
use duino_bus.Host.{
  ErrorCode, Packet, end_byte, esc_byte, esc_end, esc_esc, max_data_len, set_command, set_data,
  append_byte, extract_crc, calc_crc,
}

-- STATE_IDLE, STATE_COMMAND and STATE_DATA; `other` is any other number.
pub data State : Type 0 where
  idle command payload : State
  other : ℕ → State

pub record Decoder : Type 0 where
  pub packet : Packet
  pub state : State
  pub escape : Bool
  pub debug : Bool

unfoldable pub init : Packet → Decoder
init pkt = record { packet = pkt; state = State.idle; escape = false; debug = false }

unfoldable pub set_debug : Decoder → Bool → Decoder
set_debug d flag = record d { debug = flag }

abbrev pub is_idle : State → Bool
is_idle State.idle = true
is_idle State.command = false
is_idle State.payload = false
is_idle (State.other n) = false

unfoldable pub decode_byte_idle : Decoder → ℕ → ErrorCode × Decoder
decode_byte_idle d byte =
    (ErrorCode.not_done, if byte == end_byte then record d { state = State.command } else d)

unfoldable pub decode_byte_command : Decoder → ℕ → ErrorCode × Decoder
decode_byte_command d byte = if byte == end_byte && not d.escape then (ErrorCode.not_done, d) else (
  ErrorCode.not_done,
  record d {
    packet = set_data (set_command d.packet byte) [];
    state = State.payload;
    escape = false;
  },
)

-- The byte that an escaped one stands for.
unfoldable pub unescape : ℕ → ℕ
unescape byte = if byte == esc_end then end_byte else if byte == esc_esc then esc_byte else byte

module _ (crc_fn : List ℕ → ℕ → ℕ) where
  -- The end of a packet with data.
  unfoldable pub check_crc : Decoder → Run (ErrorCode × Decoder)
  check_crc d = do
    (rcvd_crc, pkt) ← extract_crc d.packet
    done (
      if rcvd_crc == calc_crc crc_fn pkt then ErrorCode.none else ErrorCode.crc,
      record d { packet = pkt; state = State.idle },
    )

  unfoldable pub decode_byte_data : Decoder → ℕ → Run (ErrorCode × Decoder)
  decode_byte_data d byte =
      if byte == end_byte && not d.escape
      then (if length d.packet.bytes == 0
          then done (ErrorCode.too_small, record d { state = State.command })
          else check_crc d)
      else if leb max_data_len (length d.packet.bytes)
      then done (ErrorCode.too_much_data, record d { escape = false })
      else done
          (ErrorCode.not_done, record d { packet = append_byte d.packet byte; escape = false })

  -- The chain of tests on the state.
  unfoldable pub dispatch : State → Decoder → ℕ → Run (ErrorCode × Decoder)
  dispatch State.idle d byte = done (decode_byte_idle d byte)
  dispatch State.command d byte = done (decode_byte_command d byte)
  dispatch State.payload d byte = decode_byte_data d byte
  dispatch (State.other n) d byte = done (ErrorCode.bad_state, d)

  unfoldable pub decode_byte : Decoder → ℕ → Run (ErrorCode × Decoder)
  decode_byte d byte =
      if is_idle d.state
      then dispatch d.state d byte
      else if d.escape
      then dispatch d.state d (unescape byte)
      else if byte == esc_byte
      then done (ErrorCode.not_done, record d { escape = true })
      else dispatch d.state d byte

  -- A caller that hands over bytes until a call answers something else than `not_done`. It gives that
  -- answer, the decoder, and the bytes not yet handed over.
  unfoldable pub feed : Decoder → List ℕ → Run (ErrorCode × Decoder × List ℕ)
  feed d [] = done (ErrorCode.not_done, d, [])
  feed d (b ∷ bs) = do
    (err, d') ← decode_byte d b
    elim err [ ErrorCode.not_done ↦ feed d' bs | ended ↦ done (ended, d', bs) ]
