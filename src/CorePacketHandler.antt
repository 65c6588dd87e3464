-- ===== src/CorePacketHandler.antt =====
-- src/duino_bus/CorePacketHandler.h and src/CorePacketHandler.cpp: the handler of the core commands.
pub mod Replies
pub mod Info
pub mod Commands
mod Tests
use Prim.Native.String.{String}
use mathlib.Core.Option.{Option, none, some}
use duino_bus.Base.{
  ℕ, ◌+◌, ◌%◌, ◌^◌, List, Bool, true, false, not, if◌then◌else◌, ◌==◌, Run, done, ◌>>=◌,
}
use duino_bus.Words.{le_bytes, from_le}
use duino_bus.Packet.{Packet, get_data, set_command, set_data, append_data}
use duino_bus.PacketHandler.{PacketHandler, DebugState, set_both}
use duino_bus.Unpacker

-- `CorePacketHandler::Command`
abbrev pub ping : ℕ
ping = 0x01

abbrev pub debug : ℕ
debug = 0x02

abbrev pub log : ℕ
log = 0x03

abbrev pub stack_info : ℕ
stack_info = 0x04

abbrev pub heap_info : ℕ
heap_info = 0x05

-- What the handler asks of the platform: duino_util's stack and heap monitors (the zeros of the host
-- build), and `mallinfo`. `old_flags` is the uninitialised `flags` of `handleDebug`.
pub record Platform : Type 0 where
  pub stack_size : ℕ
  pub used_stack_space : ℕ
  pub unused_stack_space : ℕ
  pub arena : ℕ
  pub uordblks : ℕ
  pub fordblks : ℕ
  pub ordblks : ℕ
  pub growth_potential : ℕ
  pub old_flags : ℕ

unfoldable pub as_str : ℕ → String
as_str cmd =
    if cmd == ping
    then "PING"
    else if cmd == debug
    then "DEBUG"
    else if cmd == log
    then "LOG"
    else if cmd == stack_info
    then "STACK_INFO"
    else if cmd == heap_info
    then "HEAP_INFO"
    else "???"

-- `append(static_cast<uint32_t>(x))`
unfoldable pub append_u32 : Packet → ℕ → Run Packet
append_u32 p x = append_data p (le_bytes 4 (x % 2 ^ 32))

unfoldable pub handle_ping : Packet → Packet → Run Packet
handle_ping cmd rsp = set_data (set_command rsp ping) (get_data cmd)

-- A handled command, with the response and the flags that it leaves.
abbrev pub handled : DebugState → Run Packet → Run (Bool × Packet × DebugState)
handled flags run = do rsp ← run; done (true, rsp, flags)

module _ (platform : Platform) where
  -- The flags that `unpack(&flags)` leaves.
  unfoldable pub debug_flags : Packet → ℕ
  debug_flags cmd = elim ((Unpacker.unpack (Unpacker.init cmd) 4).0) [
    | none ↦ platform.old_flags
    | some bytes ↦ from_le bytes
  ]

  unfoldable pub handle_debug : Packet → Packet → Run (Packet × DebugState)
  handle_debug cmd rsp = do
    let flags = debug_flags cmd
    rsp' ← append_data (set_command rsp debug) (le_bytes 4 flags)
    done (rsp', set_both (not (flags % 2 == 0)))

  unfoldable pub handle_stack_info : Packet → Run Packet
  handle_stack_info rsp = do
    a ← append_u32 (set_command rsp stack_info) platform.stack_size
    b ← append_u32 a platform.used_stack_space
    c ← append_u32 b platform.unused_stack_space
    done c

  unfoldable pub handle_heap_info : Packet → Run Packet
  handle_heap_info rsp = do
    a ← append_u32 (set_command rsp heap_info) platform.arena
    b ← append_u32 a platform.uordblks
    c ← append_u32 b platform.fordblks
    d ← append_u32 c platform.ordblks
    e ← append_u32 d platform.growth_potential
    done e

  unfoldable pub handle_packet : Packet → Packet → DebugState → Run (Bool × Packet × DebugState)
  handle_packet cmd rsp flags =
      if cmd.command == ping
      then handled flags (handle_ping cmd rsp)
      else if cmd.command == debug
      then (do (rsp', flags') ← handle_debug cmd rsp; done (true, rsp', flags'))
      else if cmd.command == stack_info
      then handled flags (handle_stack_info rsp)
      else if cmd.command == heap_info
      then handled flags (handle_heap_info rsp)
      else done (false, rsp, flags)

  unfoldable pub core_handler : PacketHandler
  core_handler = record { handle_packet = handle_packet; as_str = λ cmd. some (as_str cmd) }
