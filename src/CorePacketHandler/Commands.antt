-- ===== src/CorePacketHandler/Commands.antt =====
-- Which commands the handler of the core commands takes, and what it leaves to other handlers.
use duino_bus.Base.{
  ℕ, ◌<◌, ◌≤◌, ◌≡◌, ◌≢◌, sym, ap, ◌∙◌, arith, Bool, true, false, not, ◌⊎◌, inl, inr, Run, done,
  map_run, map_run-eq-done, ◌==◌, ◌%◌,
}
use native.Mathlib.Decide.{ℕ_discrete}
use duino_bus.Words.{le_bytes, length-le_bytes, le_bytes-IsBytes}
use duino_bus.Packet.{Packet, set_command, core_command_base, littlefs_command_base}
use duino_bus.Packet.Bounds.{IsValid, set_command-IsValid}
use duino_bus.Packet.View.{Message, append_data_fits}
use duino_bus.PacketHandler.{DebugState, set_both}
use duino_bus.CorePacketHandler.{
  Platform, ping, debug, log, stack_info, heap_info, handle_debug, handle_packet, debug_flags,
}
use duino_bus.CorePacketHandler.Replies.{seen, handle_packet_ping_fits, handle_packet_other}
use duino_bus.CorePacketHandler.Info.{handle_packet_stack_info, handle_packet_heap_info}

-- PING, DEBUG, STACK_INFO or HEAP_INFO
abbrev pub IsTaken : ℕ → Type 0
IsTaken cmd = (cmd ≡ ping) ⊎ (cmd ≡ debug) ⊎ (cmd ≡ stack_info) ⊎ (cmd ≡ heap_info)

-- The handler ends, has taken the command, and the response has the command of the request.
abbrev pub Answers : Packet → Run (Bool × Packet × DebugState) → Type 0
Answers cmd run =
    (rsp' : Packet) × (flags' : DebugState) × (run ≡ done (true, rsp', flags'))
    × (rsp'.command ≡ cmd.command)

from_seen :
    (cmd : Packet) (run : Run (Bool × Packet × DebugState)) (m : Message) (flags : DebugState)
    → map_run seen run ≡ done (true, m, flags)
    → m.command ≡ cmd.command
    → Answers cmd run
from_seen cmd run m flags e same =
    let (r, ends, sight) = map_run-eq-done seen run e in
    (r.1, r.2, ends ∙ (λ i. done ((sight i).0, r.1, r.2)), ap (λ x. x.1.command) sight ∙ same)

module _ (platform : Platform) (cmd rsp : Packet) (flags : DebugState) (v : IsValid cmd)
    (w : IsValid rsp) (clear : rsp.data_len ≡ 0) (room : 20 ≤ rsp.max_data_len) where
  debug-Answers : cmd.command ≡ debug → Answers cmd (handle_packet platform cmd rsp flags)
  unfolding handle_packet handle_debug set_command
  debug-Answers e =
      let x = debug_flags platform cmd in
      let at_debug : (cmd.command == debug) ≡ true = ground arith in
      let not_ping : (cmd.command == ping) ≡ false = ground arith in
      let (q, appends, answer, valid) =
        append_data_fits (le_bytes 4 x) (set_command-IsValid debug w (omega arith))
          (record { small = omega (arith, length-le_bytes 4 x); bytes = le_bytes-IsBytes 4 x })
          (omega (arith, length-le_bytes 4 x)) in
      (
        q,
        set_both (not (x % 2 == 0)),
        rw (not_ping, at_debug, appends),
        ap (λ m. m.command) answer ∙ sym e,
      )

  -- With a valid command packet, and a valid and empty response packet that has room for its data and
  -- for twenty bytes: PING, DEBUG (whatever its data), STACK_INFO and HEAP_INFO are handled, no `assert`
  -- fails, and the response has the command of the request. Every command but these four is declined,
  -- with the response and the debug flags as they were. The four lie between the bases of the core and
  -- of the LITTLEFS commands, and LOG is none of them.
  pub handle_packet-Answers :
      cmd.data_len ≤ rsp.max_data_len
      → (IsTaken cmd.command
          × (core_command_base < cmd.command)
          × (cmd.command < littlefs_command_base)
          × (cmd.command ≢ log)
          × Answers cmd (handle_packet platform cmd rsp flags))
        ⊎ ((cmd.command ≢ ping)
            × (cmd.command ≢ debug)
            × (cmd.command ≢ stack_info)
            × (cmd.command ≢ heap_info)
            × (handle_packet platform cmd rsp flags ≡ done (false, rsp, flags)))
  handle_packet-Answers fits = elim (ℕ_discrete cmd.command ping) [
    | yes e ↦
        let (q, handles, answer, valid) =
          handle_packet_ping_fits platform cmd rsp flags v w e fits in
        inl (
          inl e,
          ground arith,
          ground arith,
          ground arith,
          (q, flags, handles, ap (λ m. m.command) answer ∙ sym e),
        )
    | no p ↦ elim (ℕ_discrete cmd.command debug) [
      | yes e ↦ inl (inr (inl e), ground arith, ground arith, ground arith, debug-Answers e)
      | no d ↦ elim (ℕ_discrete cmd.command stack_info) [
        | yes e ↦ inl (
          inr (inr (inl e)),
          ground arith,
          ground arith,
          ground arith,
          from_seen cmd _ _ flags
              (handle_packet_stack_info platform cmd rsp flags w e clear (omega arith)) (sym e),
        )
        | no s ↦ elim (ℕ_discrete cmd.command heap_info) [
          | yes e ↦ inl (
            inr (inr (inr e)),
            ground arith,
            ground arith,
            ground arith,
            from_seen cmd _ _ flags (handle_packet_heap_info platform cmd rsp flags w e clear room)
                (sym e),
          )
          | no h ↦ inr (p, d, s, h, handle_packet_other platform cmd rsp flags p d s h)
        ]
      ]
    ]
  ]
