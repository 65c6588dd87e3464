-- ===== src/Host/SerialBus.antt =====
-- duino_bus/serial_bus.py: the host's bus over a serial port of pyserial.
mod Tests
use mathlib.Core.Option.{Option, none, some}
use duino_bus.Base.{
  ℕ, ◌≡◌, refl, sym, ap, ◌∙◌, List, [], ◌∷◌, Bool, true, false, if◌then◌else◌, ltb, Run, done,
  ◌>>=◌,
}
use duino_bus.Host.Bus.{Port, Connection, Event, Bus, bus_opened, bus_closed, incoming_data_thread}
use duino_bus.Host.Bus.Thread.{IsQueue}

-- What is passed to `serial.Serial`, times in milliseconds, besides the arguments that `open` passes on.
pub record Settings : Type 0 where
  pub timeout : ℕ
  pub write_timeout : ℕ
  pub bytesize : ℕ
  pub stopbits : ℕ
  pub parity : Bool
  pub xonxoff : Bool
  pub rtscts : Bool
  pub dsrdtr : Bool

-- What pyserial does with a port, whose state is an `S`, and what `poll(0)` reports of it. `read` is
-- `read(1)`, of one byte or none; `write` is false where it raises SerialTimeoutException.
pub record Serial (S : Type 0) : Type 0 where
  pub readable : S → Bool
  pub writable : S → Bool
  pub read : S → List ℕ × S
  pub write : ℕ → S → Bool × S
  pub reset_input_buffer : S → S
  pub reset_output_buffer : S → S
  pub close : S → S
  pub fileno : S → ℕ

-- The attributes `serial`, `none` for None, and those of `IBus`.
pub record SerialBus (S : Type 0) : Type 0 where
  pub serial : Option S
  pub connection : Connection

abbrev at_least_50 : ℕ → ℕ
at_least_50 t = if ltb t 50 then 50 else t

-- `timeout` is what the caller gives, if anything.
unfoldable pub settings : Option ℕ → Settings
settings timeout = record {
  timeout = at_least_50 (elim timeout [ none ↦ 100 | some t ↦ t ]);
  write_timeout = 100;
  bytesize = 8;
  stopbits = 1;
  parity = false;
  xonxoff = false;
  rtscts = false;
  dsrdtr = false;
}

-- `SerialBus()`, where `serial.Serial()`, which is not open yet, is `s`.
unfoldable pub init : {S : Type 0} → S → SerialBus S
init s = record { serial = some s; connection = record { fileno = none; thread = false } }

unfoldable pub is_open : {S : Type 0} → Option S → Bool
is_open none = false
is_open (some s) = true

module _ {S : Type 0} (pyserial : Serial S) where
  -- `open`, where `connect` is `serial.Serial`, which can raise an exception.
  unfoldable pub open_bus : (Settings → Run S) → Option ℕ → SerialBus S → Run (SerialBus S)
  open_bus connect timeout bus = do
    s ← connect (settings timeout)
    done (record { serial = some s; connection = bus_opened bus.connection (pyserial.fileno s) })

  -- `close`, with the port as it was closed.
  unfoldable pub close : SerialBus S → SerialBus S × Option S
  close bus = elim bus.serial [
    | none ↦ (bus, none)
    | some s ↦ (
      record { serial = none; connection = bus_closed bus.connection },
      some (pyserial.close (pyserial.reset_output_buffer (pyserial.reset_input_buffer s))),
    )
  ]

  unfoldable pub is_data_available : Option S → Bool
  is_data_available none = false
  is_data_available (some s) = pyserial.readable s

  unfoldable pub is_space_available : Option S → Bool
  is_space_available none = false
  is_space_available (some s) = pyserial.writable s

  -- `data[0]`, if there are data.
  abbrev pub first_of : List ℕ × S → Option ℕ × Option S
  first_of ([], s) = (none, some s)
  first_of (b ∷ bs, s) = (some b, some s)

  unfoldable pub read_byte : Option S → Option ℕ × Option S
  read_byte none = (none, none)
  read_byte (some s) = first_of (pyserial.read s)

  abbrev pub written : Bool × S → Bool × Option S
  written (ok, s) = (ok, some s)

  unfoldable pub write_byte : ℕ → Option S → Bool × Option S
  write_byte byte none = (false, none)
  write_byte byte (some s) = written (pyserial.write byte s)

  unfoldable pub port : Port (Option S)
  port = record {
    is_open = is_open;
    is_data_available = is_data_available;
    read_byte = read_byte;
    write_byte = write_byte;
  }

  -- A serial port from which the bytes of a queue are read. `waiting bs s` is `s` with these bytes.
  pub record IsLine : Type 0 where
    pub waiting : List ℕ → S → S
    pub available : (b : ℕ) (bs : List ℕ) (s : S) → pyserial.readable (waiting (b ∷ bs) s) ≡ true
    pub reads :
        (b : ℕ) (bs : List ℕ) (s : S) → pyserial.read (waiting (b ∷ bs) s) ≡ (b ∷ [], waiting bs s)

  abbrev filled : IsLine → S → List ℕ → Option S → Option S
  filled line other bs none = some (line.waiting bs other)
  filled line other bs (some s) = some (line.waiting bs s)

  -- The bus over it is a port for the thread.
  pub port-IsQueue : IsLine → S → IsQueue port
  unfolding port is_open is_data_available read_byte
  port-IsQueue line other = record {
    put = filled line other;
    stays_open = stays_open;
    available = available;
    reads = reads;
  }
    where
      stays_open :
          (b : ℕ) (bs : List ℕ) (w : Option S) → is_open (filled line other (b ∷ bs) w) ≡ true
      stays_open b bs none = refl
      stays_open b bs (some s) = refl

      available :
          (b : ℕ) (bs : List ℕ) (w : Option S)
          → is_data_available (filled line other (b ∷ bs) w) ≡ true
      available b bs none = line.available b bs other
      available b bs (some s) = line.available b bs s

      reads :
          (b : ℕ) (bs : List ℕ) (w : Option S)
          → read_byte (filled line other (b ∷ bs) w) ≡ (some b, filled line other bs w)
      reads b bs none = ap first_of (line.reads b bs other)
      reads b bs (some s) = ap first_of (line.reads b bs s)

  -- Once the bus is closed, the thread ends at its next round without reading.
  pub closed-thread :
      (crc_fn : List ℕ → ℕ → ℕ) (utf8 : List ℕ → Run (List ℕ)) (event : Event) (events : List Event)
      (serial_bus : SerialBus S) (bus : Bus)
      → incoming_data_thread crc_fn utf8 port (event ∷ events) bus (close serial_bus).0.serial
        ≡ (false, bus, none)
  unfolding incoming_data_thread port is_open close
  closed-thread crc_fn utf8 event events serial_bus bus = ended serial_bus.serial
    where
      ended :
          (serial : Option S)
          → incoming_data_thread crc_fn utf8 port
              (event ∷ events)
              bus
              (close (record serial_bus { serial = serial })).0.serial
            ≡ (false, bus, none)
      ended none = refl
      ended (some s) = refl
