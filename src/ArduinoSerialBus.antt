-- ===== src/ArduinoSerialBus.antt =====
-- src/duino_bus/ArduinoSerialBus.h and src/ArduinoSerialBus.cpp: the bus over an Arduino serial port.
mod Read
mod Tests
use mathlib.Core.Option.{Option, none, some}
use duino_bus.Base.{ℕ, ◌-◌, ◌%◌, ℤ, pos, negsuc, ltb_ℤ, Bool, if◌then◌else◌}
use duino_bus.Bus.{Transport}

-- `HardwareSerial`, over the state `W` of the port. An `int` is a ℤ.
pub record HardwareSerial (W : Type 0) : Type 0 where
  pub available : W → ℤ
  pub read : W → ℤ × W
  pub available_for_write : W → ℤ
  pub write : ℕ → W → W

-- `static_cast<uint8_t>` of an `int`
abbrev pub to_uint8 : ℤ → ℕ
to_uint8 (pos n) = n % 256
to_uint8 (negsuc n) = 255 - n % 256

-- What `readByte` does with the result of `read`: `false`, or `true` and the byte.
unfoldable pub to_byte : ℤ → Option ℕ
to_byte byte_read = if ltb_ℤ byte_read (pos 0) then none else some (to_uint8 byte_read)

module _ {W : Type 0} (serial : HardwareSerial W) where
  unfoldable pub is_data_available : W → Bool
  is_data_available w = ltb_ℤ (pos 0) (serial.available w)

  unfoldable pub is_space_available : W → Bool
  is_space_available w = ltb_ℤ (pos 0) (serial.available_for_write w)

  unfoldable pub read_byte : W → Option ℕ × W
  read_byte w = let (byte_read, w') = serial.read w in (to_byte byte_read, w')

  unfoldable pub write_byte : ℕ → W → W
  write_byte byte w = serial.write byte w

  -- `flush` is the empty one of `IBus`.
  abbrev pub transport : Transport W
  transport = record { read_byte = read_byte; write_byte = write_byte; flush = λ w. w }
