-- ===== src/PacketHandler.antt =====
-- src/duino_bus/PacketHandler.h: what a bus asks of a handler.
use Prim.Native.String.{String}
use mathlib.Core.Option.{Option}
use duino_bus.Base.{ℕ, Bool, Run}
use duino_bus.Packet.{Packet}

-- The two flags of the bus that a handler reaches through `m_bus->setDebug`.
pub record DebugState : Type 0 where
  pub decoder : Bool
  pub encoder : Bool

-- `IBus::setDebug` on these flags.
abbrev pub set_both : Bool → DebugState
set_both flag = record { decoder = flag; encoder = flag }

-- `handle_packet cmd rsp flags`: whether it handled `cmd`, the response packet as it leaves it, and
-- the flags. `as_str` gives `none` for a null pointer.
pub record PacketHandler : Type 0 where
  pub handle_packet : Packet → Packet → DebugState → Run (Bool × Packet × DebugState)
  pub as_str : ℕ → Option String
