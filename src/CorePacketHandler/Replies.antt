-- ===== src/CorePacketHandler/Replies.antt =====
-- The responses to the core commands.
use mathlib.Core.Option.{some}
use duino_bus.Base.{
  ℕ, ◌%◌, ◌^◌, ◌≤◌, ◌<◌, ◌≡◌, ◌≢◌, refl, sym, ap, ◌∙◌, arith, List, ◌++◌, Bool, true, false, not,
  leb, ◌==◌, Run, done, abort, map_run, map_run-eq-done, ne→==_false, if◌then◌else◌,
}
use duino_bus.Words.{le_bytes, length-le_bytes, from_le-le_bytes}
use duino_bus.Packet.{Packet, get_data, set_command, set_data}
use duino_bus.Packet.Bounds.{IsValid, IsSource, set_command-IsValid, set_data-IsValid}
use duino_bus.Packet.View.{
  Message, view, append, set_data_refines, append_data_fits, length-get_data, get_data-IsBytes,
}
use duino_bus.Unpacker
use duino_bus.Unpacker.Laws.{init-IsSound, unpack_lem}
use duino_bus.PacketHandler.{DebugState, set_both}
use duino_bus.CorePacketHandler.{
  Platform, ping, debug, stack_info, heap_info, handle_ping, debug_flags, handle_debug,
  handle_packet, handled,
}

-- What a caller sees of a response: the flag, the packet without its storage, and the debug flags.
abbrev pub seen : Bool × Packet × DebugState → Bool × Message × DebugState
seen (took, rsp, flags) = (took, view rsp, flags)

pub seen-handled :
    (flags : DebugState) (r : Run Packet)
    → map_run seen (handled flags r) ≡ map_run (λ m. (true, m, flags)) (map_run view r)
seen-handled flags (done rsp) = refl
seen-handled flags abort = refl

-- PING with a valid packet is handled, and the response holds the same data if its packet has room
-- for it; otherwise an `assert` fails. The debug flags stay as they are.
pub handle_packet_ping :
    (platform : Platform) (cmd rsp : Packet) (flags : DebugState)
    → IsValid cmd
    → IsValid rsp
    → cmd.command ≡ ping
    → map_run seen (handle_packet platform cmd rsp flags) ≡ (
        if leb cmd.data_len rsp.max_data_len
        then done (
          true,
          record { command = ping; capacity = rsp.max_data_len; bytes = get_data cmd },
          flags,
        )
        else abort)
unfolding handle_packet handle_ping append set_command
handle_packet_ping platform cmd rsp flags v w e =
    let at_ping : (cmd.command == ping) ≡ true = ground arith in
    let asked : IsValid (set_command rsp ping) = set_command-IsValid ping w (omega arith) in
    rw at_ping (
      seen-handled flags (set_data (set_command rsp ping) (get_data cmd))
      ∙ rw
          (set_data_refines (get_data cmd) asked
            (record { small = omega (arith, length-get_data v); bytes = get_data-IsBytes v }))
          (ground (arith, length-get_data v)))

-- The response itself, where there is room for it.
pub handle_packet_ping_fits :
    (platform : Platform) (cmd rsp : Packet) (flags : DebugState)
    → IsValid cmd
    → IsValid rsp
    → cmd.command ≡ ping
    → cmd.data_len ≤ rsp.max_data_len
    → (q : Packet) × (handle_packet platform cmd rsp flags ≡ done (true, q, flags))
      × (view q ≡ record { command = ping; capacity = rsp.max_data_len; bytes = get_data cmd })
      × IsValid q
unfolding handle_packet handle_ping append set_command
handle_packet_ping_fits platform cmd rsp flags v w e room =
    let at_ping : (cmd.command == ping) ≡ true = ground arith in
    let asked : IsValid (set_command rsp ping) = set_command-IsValid ping w (omega arith) in
    let source : IsSource (get_data cmd) = record {
      small = omega (arith, length-get_data v);
      bytes = get_data-IsBytes v;
    } in
    let (q, sets, answer) =
      map_run-eq-done view (set_data (set_command rsp ping) (get_data cmd))
        {y = record { command = ping; capacity = rsp.max_data_len; bytes = get_data cmd }}
        (set_data_refines (get_data cmd) asked source ∙ ground (arith, length-get_data v)) in
    (q, rw (at_ping, sets), answer, set_data-IsValid (get_data cmd) asked source sets)

debug_flags-le_bytes :
    (platform : Platform) (cmd : Packet) (x : ℕ) (more : List ℕ)
    → IsValid cmd
    → get_data cmd ≡ le_bytes 4 x ++ more
    → x < 2 ^ 32
    → debug_flags platform cmd ≡ x
unfolding debug_flags
debug_flags-le_bytes platform cmd x more v sends small =
    let (sound, all) = init-IsSound v in
    let (u, unpacks, rest, after) =
      unpack_lem (Unpacker.init cmd) sound (le_bytes 4 x) more (all ∙ sends) in
    let took : Unpacker.unpack (Unpacker.init cmd) 4 ≡ (some (le_bytes 4 x), u) =
      ap (Unpacker.unpack (Unpacker.init cmd)) (sym (length-le_bytes 4 x)) ∙ unpacks in
    rw (took, debug_flags) (from_le-le_bytes 4 x small)

-- DEBUG with at least four bytes of data is handled: the first four are the flags, least
-- significant first. Their lowest bit becomes both debug flags of the bus, and the response, valid,
-- empty and with room for four bytes, holds the flags.
pub handle_packet_debug :
    (platform : Platform) (cmd rsp : Packet) (flags : DebugState) (x : ℕ) (more : List ℕ)
    → IsValid cmd
    → IsValid rsp
    → cmd.command ≡ debug
    → get_data cmd ≡ le_bytes 4 x ++ more
    → x < 2 ^ 32
    → rsp.data_len ≡ 0
    → 4 ≤ rsp.max_data_len
    → map_run seen (handle_packet platform cmd rsp flags)
      ≡ done (
        true,
        record { command = debug; capacity = rsp.max_data_len; bytes = le_bytes 4 x },
        set_both (not (x % 2 == 0)),
      )
unfolding handle_packet handle_debug set_command le_bytes
handle_packet_debug platform cmd rsp flags x more v w e sends small clear room =
    let at_debug : (cmd.command == debug) ≡ true = ground arith in
    let not_ping : (cmd.command == ping) ≡ false = ground arith in
    let asked : IsValid (set_command rsp debug) = set_command-IsValid debug w (omega arith) in
    let (q, appends, answer, valid) =
      append_data_fits (le_bytes 4 x) asked (record { small = omega arith; bytes = omega arith })
        (omega arith) in
    rw (
      not_ping,
      at_debug,
      debug_flags-le_bytes platform cmd x more v sends small,
      appends,
      answer,
      clear,
    )

-- A command other than PING, DEBUG, STACK_INFO and HEAP_INFO is declined, with the response and the
-- debug flags as they were.
pub handle_packet_other :
    (platform : Platform) (cmd rsp : Packet) (flags : DebugState)
    → cmd.command ≢ ping
    → cmd.command ≢ debug
    → cmd.command ≢ stack_info
    → cmd.command ≢ heap_info
    → handle_packet platform cmd rsp flags ≡ done (false, rsp, flags)
unfolding handle_packet
handle_packet_other platform cmd rsp flags p d s h = rw (
  ne→==_false cmd.command ping p,
  ne→==_false cmd.command debug d,
  ne→==_false cmd.command stack_info s,
  ne→==_false cmd.command heap_info h,
)
