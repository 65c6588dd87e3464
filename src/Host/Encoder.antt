-- ===== src/Host/Encoder.antt =====
-- duino_bus/packet_encoder.py: the encoder of the host's side, and the loop of `write_packet` in
-- duino_bus/bus.py. What is dumped while debugging is left out.
use duino_bus.Base.{
  ℕ, zero, suc, ◌+◌, ◌*◌, List, [], Bool, true, false, if◌then◌else◌, ltb, ◌==◌, length, get_or,
}
use duino_bus.Host.{
  ErrorCode, Packet, end_byte, esc_byte, esc_end, esc_esc, calc_crc, calc_and_store_crc,
}

-- STATE_IDLE, STATE_COMMAND, STATE_DATA and STATE_ESCAPE; `other` is any other number.
pub data State : Type 0 where
  idle command payload escape : State
  other : ℕ → State

pub record Encoder : Type 0 where
  pub packet : Packet
  pub state : State
  pub encode_idx : ℕ
  pub escape_char : ℕ
  pub debug : Bool

unfoldable pub init : Encoder
init = record {
  packet = record { cmd = 0; bytes = []; crc = 0 };
  state = State.idle;
  encode_idx = 0;
  escape_char = 0;
  debug = false;
}

unfoldable pub set_debug : Encoder → Bool → Encoder
set_debug e flag = record e { debug = flag }

-- The next state, the byte to send now, and the encoder with its escape character.
unfoldable pub handle_escape : Encoder → ℕ → State × ℕ × Encoder
handle_escape e byte =
    if byte == end_byte
    then (State.escape, esc_byte, record e { escape_char = esc_end })
    else if byte == esc_byte
    then (State.escape, esc_byte, record e { escape_char = esc_esc })
    else (State.payload, byte, e)

-- The body that sends `byte` and leaves the index at `idx`.
unfoldable pub send : Encoder → ℕ → ℕ → ErrorCode × ℕ × Encoder
send e idx byte =
    let (s, b, e') = handle_escape e byte in
    (ErrorCode.not_done, b, record e' { state = s; encode_idx = idx })

unfoldable pub encode_byte_idle : Encoder → ErrorCode × ℕ × Encoder
encode_byte_idle e = (ErrorCode.not_done, end_byte, record e { state = State.command })

unfoldable pub encode_byte_command : Encoder → ErrorCode × ℕ × Encoder
encode_byte_command e = send e 0 e.packet.cmd

unfoldable pub encode_byte_escape : Encoder → ErrorCode × ℕ × Encoder
encode_byte_escape e = (ErrorCode.not_done, e.escape_char, record e { state = State.payload })

module _ (crc_fn : List ℕ → ℕ → ℕ) where
  unfoldable pub encode_start : Encoder → Packet → Packet × Encoder
  encode_start e pkt =
      let pkt' = calc_and_store_crc crc_fn pkt in
      (pkt', record e { packet = pkt'; state = State.idle })

  -- `get_data_byte` is called below the length only.
  unfoldable pub encode_byte_data : Encoder → ErrorCode × ℕ × Encoder
  encode_byte_data e =
      if ltb e.encode_idx (length e.packet.bytes)
      then send e (e.encode_idx + 1) (get_or e.packet.bytes e.encode_idx 0)
      else if e.encode_idx == length e.packet.bytes
      then send e (e.encode_idx + 1) (calc_crc crc_fn e.packet)
      else (ErrorCode.none, end_byte, record e { state = State.idle })

  -- The chain of tests on the state.
  unfoldable pub dispatch : State → Encoder → ErrorCode × ℕ × Encoder
  dispatch State.idle e = encode_byte_idle e
  dispatch State.command e = encode_byte_command e
  dispatch State.payload e = encode_byte_data e
  dispatch State.escape e = encode_byte_escape e
  dispatch (State.other n) e = (ErrorCode.bad_state, 0, e)

  unfoldable pub encode_byte : Encoder → ErrorCode × ℕ × Encoder
  encode_byte e = dispatch e.state e

  -- `write_byte` of the derived class, over the state `W` behind it, with whether it succeeded.
  module _ {W : Type 0} (write_byte : ℕ → W → Bool × W) where
    -- What a round of the loop does with a byte, given what the rest of the loop does.
    abbrev pub after_write :
        ErrorCode → Encoder → Bool × W → (W → ErrorCode × Encoder × W) → ErrorCode × Encoder × W
    after_write err e (false, w) rest = (ErrorCode.os, e, w)
    after_write ErrorCode.not_done e (true, w) rest = rest w
    after_write err e (true, w) rest = (err, e, w)

    -- The `while` of `write_packet`. A result `not_done` says that the fuel ran out.
    unfoldable pub write_loop : ℕ → Encoder → W → ErrorCode × Encoder × W
    write_loop zero e w = (ErrorCode.not_done, e, w)
    write_loop (suc fuel) e w =
        let (err, byte, e') = encode_byte e in
        after_write err e' (write_byte byte w) (λ w'. write_loop fuel e' w')

    -- `write_packet`: the answer, the packet with its CRC stored, the encoder and what is behind the
    -- bus. A packet with n bytes of data takes at most 2 * n + 6 rounds.
    unfoldable pub write_packet : Encoder → Packet → W → ErrorCode × Packet × Encoder × W
    write_packet e pkt w =
        let (pkt', e1) = encode_start e pkt in
        let (err, e2, w') = write_loop (2 * length pkt.bytes + 6) e1 w in (err, pkt', e2, w')
