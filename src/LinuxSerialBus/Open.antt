-- ===== src/LinuxSerialBus/Open.antt =====
-- How `open` ends, in terms of what the system calls give.
use mathlib.Core.Option.{Option, none, some}
use duino_bus.Base.{ℕ, ◌≡◌, refl, sym, Bool, true, false, ◌⊎◌, inl, inr}
use duino_bus.Packet.{Error}
use duino_bus.LinuxSerialBus.{Termios, Os, Answer, settings, configure, open_serial}

-- A port in raw mode with eight bits, which gives a byte as soon as there is one.
pub record IsRaw {W O : Type 0} (os : Os W O) (attr : Termios O) : Type 0 where
  pub no_input_flags : attr.iflag ≡ 0
  pub no_output_flags : attr.oflag ≡ 0
  pub no_local_flags : attr.lflag ≡ 0
  pub no_timeout : attr.vtime ≡ 0
  pub one_byte : attr.vmin ≡ 1

-- A function that sets a speed leaves these as they are.
abbrev pub KeepsRaw : {W O : Type 0} → Os W O → (ℕ → Termios O → Termios O) → Type 0
KeepsRaw {O} os set_speed =
    (baud_rate : ℕ) (attr : Termios O) → IsRaw os attr → IsRaw os (set_speed baud_rate attr)

-- The port was opened and set up.
pub record SetsUp {W O : Type 0} (os : Os W O) (w : W) (m_serial : Option ℕ) (w' : W) : Type 0 where
  pub fd : ℕ
  pub attr : Termios O
  pub before : W
  pub held : m_serial ≡ some fd
  pub opened : (os.open_port w).0 ≡ some fd
  pub raw : IsRaw os attr
  pub applied : os.tcsetattr fd attr before ≡ (true, w')

-- `open` failed; what it has opened is in `m_serial`, and the destructor closes it.
pub record Fails {W O : Type 0} (os : Os W O) (w : W) (m_serial : Option ℕ) : Type 0 where
  pub held : m_serial ≡ (os.open_port w).0

abbrev pub Ends : {W O : Type 0} → Os W O → W → Answer W → Type 0
Ends os w r = ((r.0 ≡ Error.none) × SetsUp os w r.1 r.2) ⊎ ((r.0 ≡ Error.os) × Fails os w r.1)

module _ {W O : Type 0} (os : Os W O) where
  settings-IsRaw :
      (baud_rate : ℕ) (attr : Termios O)
      → KeepsRaw os os.cfsetispeed
      → KeepsRaw os os.cfsetospeed
      → IsRaw os (settings os baud_rate attr)
  unfolding settings
  settings-IsRaw baud_rate attr ki ko = ko baud_rate _ (
      ki baud_rate _ (record {
        no_input_flags = refl;
        no_output_flags = refl;
        no_local_flags = refl;
        no_timeout = refl;
        one_byte = refl;
      }))

  configured :
      (w : W) (fd : ℕ) (w2 : W) (attr : Termios O) (set : Bool × W)
      → (os.open_port w).0 ≡ some fd
      → IsRaw os attr
      → os.tcsetattr fd attr w2 ≡ set
      → Ends os w
          (elim set.0 [ false ↦ (Error.os, some fd, set.1) | true ↦ (Error.none, some fd, set.1) ])
  configured w fd w2 attr (false, w3) e raw sets = inr (refl, record { held = sym e })
  configured w fd w2 attr (true, w3) e raw sets = inl (
    refl,
    record {
      fd = fd;
      attr = attr;
      before = w2;
      held = refl;
      opened = e;
      raw = raw;
      applied = sets;
    },
  )

  module _ (ki : KeepsRaw os os.cfsetispeed) (ko : KeepsRaw os os.cfsetospeed) where
    attributes :
        (w w2 : W) (baud_rate fd : ℕ) (attr : Option (Termios O))
        → (os.open_port w).0 ≡ some fd
        → Ends os w (elim attr [
          | none ↦ (Error.os, some fd, w2)
          | some a ↦
              let (ok, w3) = os.tcsetattr fd (settings os baud_rate a) w2 in
              elim ok [ false ↦ (Error.os, some fd, w3) | true ↦ (Error.none, some fd, w3) ]
        ])
    attributes w w2 baud_rate fd none e = inr (refl, record { held = sym e })
    attributes w w2 baud_rate fd (some a) e =
        configured w fd w2 (settings os baud_rate a) (os.tcsetattr fd (settings os baud_rate a) w2)
          e (settings-IsRaw baud_rate a ki ko) refl

    descriptor :
        (w : W) (baud_rate : ℕ) (fd : Option ℕ)
        → (os.open_port w).0 ≡ fd
        → Ends os w (elim fd [
          | none ↦ (Error.os, none, (os.open_port w).1)
          | some n ↦ configure os baud_rate n (os.open_port w).1
        ])
    unfolding configure
    descriptor w baud_rate none e = inr (refl, record { held = sym e })
    descriptor w baud_rate (some n) e =
        attributes w (os.tcgetattr n (os.open_port w).1).1 baud_rate n
          (os.tcgetattr n (os.open_port w).1).0 e

    -- Where setting a speed keeps a port raw, with all flags for input, output and modes clear, no
    -- time-out and single bytes, `open` answers NONE only with the port open in `m_serial` and set
    -- up as raw by the last call; otherwise it answers OS, and `m_serial` holds what opening the
    -- port gave.
    pub open_serial-Ends : (baud_rate : ℕ) (w : W) → Ends os w (open_serial os baud_rate w)
    unfolding open_serial
    open_serial-Ends baud_rate w = descriptor w baud_rate (os.open_port w).0 refl
