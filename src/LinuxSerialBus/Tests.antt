-- ===== src/LinuxSerialBus/Tests.antt =====
-- Opening a serial port at a concrete system, which keeps what is closed.
use mathlib.Core.Option.{none, some}
use duino_bus.Base.{ℕ, ◌≡◌, refl, List, [], ◌∷◌, true, false}
use duino_bus.LinuxSerialBus.{Termios, Os, open_serial, configure, destroy}
use duino_bus.LinuxSerialBus.Open.{IsRaw, Ends, open_serial-Ends}

abbrev attr : Termios ℕ
attr = record { iflag = 1; oflag = 1; cflag = 1; lflag = 1; vtime = 5; vmin = 0; others = 9600 }

-- The port is descriptor 3, and its settings cannot be changed.
abbrev system : Os (List ℕ) ℕ
system = record {
  open_port = λ w. (some 3, w);
  tcgetattr = λ fd w. (some attr, w);
  raw_8_bit = 2224;
  cfsetispeed = λ baud_rate a. record a { others = baud_rate };
  cfsetospeed = λ baud_rate a. record a { others = baud_rate };
  tcsetattr = λ fd a w. (false, w);
  close = λ fd w. fd ∷ w;
  poll_in = λ fd w. false;
  poll_out = λ fd w. true;
  read = λ fd w. (none, w);
  write = λ fd b w. w;
}

-- The port is left open, and the destructor closes it.
closed_later : destroy system (open_serial system 115200 []).1 [] ≡ 3 ∷ []
unfolding destroy open_serial configure
closed_later = refl

keeps_IsRaw : (n : ℕ) (a : Termios ℕ) → IsRaw system a → IsRaw system (record a { others = n })
keeps_IsRaw n a h = record {
  no_input_flags = h.no_input_flags;
  no_output_flags = h.no_output_flags;
  no_local_flags = h.no_local_flags;
  no_timeout = h.no_timeout;
  one_byte = h.one_byte;
}

open_serial-Ends_example : Ends system [] (open_serial system 115200 [])
open_serial-Ends_example = open_serial-Ends system keeps_IsRaw keeps_IsRaw 115200 []
