-- ===== src/Host/Twins.antt =====
-- Decoders of the two sides that stand alike.
use duino_bus.Base.{IsByte, IsBytes, ℕ, ◌≡◌, List, [], ◌∷◌, Bool}
use duino_bus.Crc8.{Crc8}
use duino_bus.Packet.{Error, get_data}
use duino_bus.Decoder
use duino_bus.Decoder.{Reply}
use duino_bus.Host.{ErrorCode}
use duino_bus.Host.Decoder as HostDecoder
use duino_bus.Host.Decoder.{State}

-- Both CRC functions compute the same CRC of bytes.
pub record Agree (crc8 : Crc8) (crc_fn : List ℕ → ℕ → ℕ) : Type 0 where
  pub on_command : (b : ℕ) → IsByte b → crc_fn (b ∷ []) 0 ≡ crc8.step 0 b
  pub on_data :
      (c : ℕ) (bytes : List ℕ) → IsByte c → IsBytes bytes → crc_fn bytes c ≡ crc8.block c bytes

-- The constants of one side as those of the other.
abbrev pub code : Error → ErrorCode
code Error.none = ErrorCode.none
code Error.not_done = ErrorCode.not_done
code Error.crc = ErrorCode.crc
code Error.timeout = ErrorCode.timeout
code Error.too_much_data = ErrorCode.too_much_data
code Error.too_small = ErrorCode.too_small
code Error.bad_state = ErrorCode.bad_state
code Error.os = ErrorCode.os

abbrev pub state_of : Decoder.State → State
state_of Decoder.State.idle = State.idle
state_of Decoder.State.command = State.command
state_of Decoder.State.payload = State.payload
state_of (Decoder.State.other n) = State.other n

-- The state that the host's decoder is in after an answer: a wrong CRC and a packet that is too small
-- do not leave it in STATE_DATA.
abbrev pub settle : Error → State → State
settle Error.crc s = State.idle
settle Error.too_small s = State.command
settle err s = s

-- A decoder of the host without the stored CRC and the debug flag.
pub record Sight : Type 0 where
  pub cmd : ℕ
  pub bytes : List ℕ
  pub state : State
  pub escape : Bool

abbrev pub sight : ErrorCode × HostDecoder.Decoder → ErrorCode × Sight
sight (err, h) =
    (err, record { cmd = h.packet.cmd; bytes = h.packet.bytes; state = h.state; escape = h.escape })

abbrev pub twin_sight : Reply → ErrorCode × Sight
twin_sight (err, d, logged) = (
  code err,
  record {
    cmd = d.packet.command;
    bytes = get_data d.packet;
    state = settle err (state_of d.state);
    escape = d.escape;
  },
)

-- The host's decoder that stands where `d` does.
abbrev pub twin : ℕ → Bool → Decoder.Decoder → HostDecoder.Decoder
twin crc debug d = record {
  packet = record { cmd = d.packet.command; bytes = get_data d.packet; crc = crc };
  state = state_of d.state;
  escape = d.escape;
  debug = debug;
}
