-- ===== src/Bus/Dump.antt =====
-- src/Packet.cpp: what `Packet::dump` logs, with the name of the command from a bus.
use Prim.Native.String.{String}
use mathlib.Core.Option.{Option, none, some}
use duino_bus.Base.{ℕ, List}
use duino_bus.Packet.{Packet, Label, get_data}
use duino_bus.Bus.{Bus, as_str}

-- The line of `Log::info`, and the bytes that `DumpMem` is given.
pub record Dump : Type 0 where
  pub label : Label
  pub command : ℕ
  pub cmd_str : String
  pub data_len : ℕ
  pub crc : ℕ
  pub memory : List ℕ

-- `bus` is `none` for a null pointer.
unfoldable pub dump : Packet → Label → Option Bus → Dump
dump p label bus = record {
  label = label;
  command = p.command;
  cmd_str = elim bus [ none ↦ "???" | some b ↦ as_str b p.command ];
  data_len = p.data_len;
  crc = p.crc;
  memory = get_data p;
}
