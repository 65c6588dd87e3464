-- ===== src/LinuxSerialBus.antt =====
-- src/duino_bus/LinuxSerialBus.h and src/LinuxSerialBus.cpp: the bus over a serial port of a host.
pub mod Open
mod Tests
use mathlib.Core.Option.{Option, none, some}
use duino_bus.Base.{ℕ, Bool, true, false}
use duino_bus.Packet.{Error}
use duino_bus.Bus.{Transport}

-- The fields of `struct termios` that `open` writes; the speeds are among the `others`.
pub record Termios (O : Type 0) : Type 0 where
  pub iflag : ℕ
  pub oflag : ℕ
  pub cflag : ℕ
  pub lflag : ℕ
  pub vtime : ℕ
  pub vmin : ℕ
  pub others : O

-- The system calls, over the state `W` of the system, for the port that is opened. A descriptor is
-- `none` where a call gives a negative one, and a Boolean says that a call has not failed. `raw_8_bit`
-- is CLOCAL | CREAD | CS8; `read` gives a byte if it returns 1.
pub record Os (W O : Type 0) : Type 0 where
  pub open_port : W → Option ℕ × W
  pub tcgetattr : ℕ → W → Option (Termios O) × W
  pub raw_8_bit : ℕ
  pub cfsetispeed : ℕ → Termios O → Termios O
  pub cfsetospeed : ℕ → Termios O → Termios O
  pub tcsetattr : ℕ → Termios O → W → Bool × W
  pub close : ℕ → W → W
  pub poll_in : Option ℕ → W → Bool
  pub poll_out : Option ℕ → W → Bool
  pub read : Option ℕ → W → Option ℕ × W
  pub write : Option ℕ → ℕ → W → W

-- The answer, `m_serial` and the system.
abbrev pub Answer : Type 0 → Type 0
Answer W = Error × Option ℕ × W

module _ {W O : Type 0} (os : Os W O) where
  -- The destructor.
  unfoldable pub destroy : Option ℕ → W → W
  destroy none w = w
  destroy (some fd) w = os.close fd w

  -- The settings that `open` asks for, from those that the port has.
  unfoldable pub settings : ℕ → Termios O → Termios O
  settings baud_rate attr =
      let raw : Termios O = record attr {
        iflag = 0;
        oflag = 0;
        cflag = os.raw_8_bit;
        lflag = 0;
        vtime = 0;
        vmin = 1;
      } in
      os.cfsetospeed baud_rate (os.cfsetispeed baud_rate raw)

  -- `open` behind the opening of the port.
  unfoldable pub configure : ℕ → ℕ → W → Answer W
  configure baud_rate fd w =
      let (attr, w1) = os.tcgetattr fd w in
      elim attr [
        | none ↦ (Error.os, some fd, w1)
        | some a ↦
            let (ok, w2) = os.tcsetattr fd (settings baud_rate a) w1 in
            elim ok [ false ↦ (Error.os, some fd, w2) | true ↦ (Error.none, some fd, w2) ]
      ]

  -- `open`. It overwrites `m_serial`, whatever it held.
  unfoldable pub open_serial : ℕ → W → Answer W
  open_serial baud_rate w =
      let (fd, w1) = os.open_port w in
      elim fd [ none ↦ (Error.os, none, w1) | some n ↦ configure baud_rate n w1 ]

  unfoldable pub is_data_available : Option ℕ → W → Bool
  is_data_available m_serial w = os.poll_in m_serial w

  unfoldable pub is_space_available : Option ℕ → W → Bool
  is_space_available m_serial w = os.poll_out m_serial w

  -- What `readByte` and `writeByte` print is left out.
  unfoldable pub read_byte : Option ℕ → W → Option ℕ × W
  read_byte m_serial w = os.read m_serial w

  unfoldable pub write_byte : Option ℕ → ℕ → W → W
  write_byte m_serial byte w = os.write m_serial byte w

  -- `flush` is the empty one of `IBus`.
  abbrev pub transport : Option ℕ → Transport W
  transport m_serial = record {
    read_byte = read_byte m_serial;
    write_byte = write_byte m_serial;
    flush = λ w. w;
  }
