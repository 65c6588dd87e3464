-- ===== src/CorePacketHandler/Info.antt =====
-- The responses made of 32-bit values: STACK_INFO and HEAP_INFO.
use duino_bus.Base.{
  ℕ, ◌+◌, ◌%◌, ◌^◌, ◌≤◌, ◌≡◌, sym, ap, ◌∙◌, arith, List, [], ◌∷◌, ◌++◌, append-nil, append_assoc,
  ◌*◌, ◌>>=◌, true, false, ◌==◌, Run, done, map_run, length, length-append, IsByte,
}
use duino_bus.Words.{le_bytes, length-le_bytes, le_bytes-IsBytes}
use duino_bus.Packet.{Packet, get_data, set_command}
use duino_bus.Packet.Bounds.{IsValid, set_command-IsValid}
use duino_bus.Packet.View.{Message, view, append_data_fits, length-get_data}
use duino_bus.PacketHandler.{DebugState}
use duino_bus.CorePacketHandler.{
  Platform, ping, debug, stack_info, heap_info, append_u32, handle_stack_info, handle_heap_info,
  handle_packet, handled,
}
use duino_bus.CorePacketHandler.Replies.{seen, seen-handled}

-- 32-bit values, one behind the other.
abbrev pub words : List ℕ → List ℕ
words [] = []
words (x ∷ xs) = le_bytes 4 (x % 2 ^ 32) ++ words xs

-- A 32-bit value appended where four bytes are free.
u32_fits :
    {p : Packet} (x : ℕ)
    → IsValid p
    → p.data_len + 4 ≤ p.max_data_len
    → (q : Packet) × (append_u32 p x ≡ done q)
      × (view q ≡ record (view p) { bytes = get_data p ++ le_bytes 4 (x % 2 ^ 32) })
      × IsValid q
unfolding append_u32
u32_fits {p} x v room =
    append_data_fits (le_bytes 4 (x % 2 ^ 32)) v
      (record {
        small = omega (arith, length-le_bytes 4 (x % 2 ^ 32));
        bytes = le_bytes-IsBytes 4 (x % 2 ^ 32);
      })
      (omega (arith, length-le_bytes 4 (x % 2 ^ 32)))

append_words : Packet → List ℕ → Run Packet
append_words p [] = done p
append_words p (x ∷ xs) = do q ← append_u32 p x; append_words q xs

words_fit :
    (xs : List ℕ) (p : Packet)
    → IsValid p
    → p.data_len + 4 * length xs ≤ p.max_data_len
    → map_run view (append_words p xs) ≡ done (record (view p) { bytes = get_data p ++ words xs })
unfolding append_words
words_fit [] p v room =
    ap (λ b. done (record (view p) { bytes = b })) (sym (append-nil (get_data p)))
words_fit (x ∷ xs) p v room =
    let (q, e, w, v') = u32_fits x v (omega arith) in
    let bytes : get_data q ≡ get_data p ++ le_bytes 4 (x % 2 ^ 32) = ap (λ m. m.bytes) w in
    let longer : q.data_len ≡ p.data_len + 4 = omega (
      arith,
      length-get_data v',
      ap length bytes,
      length-append (get_data p) (le_bytes 4 (x % 2 ^ 32)),
      length-le_bytes 4 (x % 2 ^ 32),
      length-get_data v,
    ) in
    let same : q.max_data_len ≡ p.max_data_len = ap (λ m. m.capacity) w in
    rw e (
      words_fit xs q v' (omega arith)
      ∙ ap (λ (m : Message). done (record m { bytes = m.bytes ++ words xs })) w
      ∙ rw append_assoc)

-- A response of 32-bit values to a cleared response packet.
words-seen :
    (rsp : Packet) (c : ℕ) (xs : List ℕ) (flags : DebugState)
    → IsValid rsp
    → IsByte c
    → rsp.data_len ≡ 0
    → 4 * length xs ≤ rsp.max_data_len
    → map_run seen (handled flags (append_words (set_command rsp c) xs))
      ≡ done (true, record { command = c; capacity = rsp.max_data_len; bytes = words xs }, flags)
unfolding set_command
words-seen rsp c xs flags w h clear room =
    seen-handled flags (append_words (set_command rsp c) xs)
    ∙ rw (words_fit xs (set_command rsp c) (set_command-IsValid c w h) (omega arith), clear)

-- STACK_INFO is handled, and the response, valid, empty and with room for twelve bytes, holds the
-- stack's size, its used and its unused space, as 32-bit values.
pub handle_packet_stack_info :
    (platform : Platform) (cmd rsp : Packet) (flags : DebugState)
    → IsValid rsp
    → cmd.command ≡ stack_info
    → rsp.data_len ≡ 0
    → 12 ≤ rsp.max_data_len
    → map_run seen (handle_packet platform cmd rsp flags)
      ≡ done (
        true,
        record {
          command = stack_info;
          capacity = rsp.max_data_len;
          bytes =
              words (
                platform.stack_size ∷ platform.used_stack_space ∷ platform.unused_stack_space ∷ []);
        },
        flags,
      )
unfolding handle_packet handle_stack_info append_words
handle_packet_stack_info platform cmd rsp flags w e clear room =
    let skips : ((cmd.command == ping) ≡ false) × ((cmd.command == debug) ≡ false) =
      (ground arith, ground arith) in
    let at_info : (cmd.command == stack_info) ≡ true = ground arith in
    rw (skips.0, skips.1, at_info)
      (words-seen rsp stack_info
        (platform.stack_size ∷ platform.used_stack_space ∷ platform.unused_stack_space ∷ []) flags w
        (omega arith) clear room)

-- HEAP_INFO is handled, and the response, valid, empty and with room for twenty bytes, holds the
-- heap's size, its allocated and its free bytes, the number of free chunks and the growth
-- potential, as 32-bit values.
pub handle_packet_heap_info :
    (platform : Platform) (cmd rsp : Packet) (flags : DebugState)
    → IsValid rsp
    → cmd.command ≡ heap_info
    → rsp.data_len ≡ 0
    → 20 ≤ rsp.max_data_len
    → map_run seen (handle_packet platform cmd rsp flags)
      ≡ done (
        true,
        record {
          command = heap_info;
          capacity = rsp.max_data_len;
          bytes = words (
              platform.arena ∷ platform.uordblks ∷ platform.fordblks ∷ platform.ordblks
              ∷ platform.growth_potential ∷ []);
        },
        flags,
      )
unfolding handle_packet handle_heap_info append_words
handle_packet_heap_info platform cmd rsp flags w e clear room =
    let skips : ((cmd.command == ping) ≡ false)
        × ((cmd.command == debug) ≡ false)
        × ((cmd.command == stack_info) ≡ false) =
      (ground arith, ground arith, ground arith) in
    let at_info : (cmd.command == heap_info) ≡ true = ground arith in
    rw (skips.0, skips.1, skips.2, at_info)
      (words-seen rsp heap_info
        (platform.arena ∷ platform.uordblks ∷ platform.fordblks ∷ platform.ordblks
          ∷ platform.growth_potential ∷ [])
        flags w (omega arith) clear room)

-- The two commands that ask for 32-bit values, and the values.
pub data Query : Type 0 where
  stack heap : Query

abbrev pub command_of : Query → ℕ
command_of Query.stack = stack_info
command_of Query.heap = heap_info

abbrev pub values_of : Platform → Query → List ℕ
values_of platform Query.stack =
    platform.stack_size ∷ platform.used_stack_space ∷ platform.unused_stack_space ∷ []
values_of platform Query.heap =
    platform.arena ∷ platform.uordblks ∷ platform.fordblks ∷ platform.ordblks
    ∷ platform.growth_potential ∷ []

-- STACK_INFO and HEAP_INFO are handled, with the debug flags as they were, and the response, valid, empty
-- and with room for it, holds 32-bit values: for STACK_INFO the stack's size, its used and its unused
-- space, and for HEAP_INFO `arena`, `uordblks`, `fordblks` and `ordblks` of `mallinfo` and the growth
-- potential.
pub handle_packet_info :
    (platform : Platform) (query : Query) (cmd rsp : Packet) (flags : DebugState)
    → IsValid rsp
    → cmd.command ≡ command_of query
    → rsp.data_len ≡ 0
    → 4 * length (values_of platform query) ≤ rsp.max_data_len
    → map_run seen (handle_packet platform cmd rsp flags)
      ≡ done (
        true,
        record {
          command = command_of query;
          capacity = rsp.max_data_len;
          bytes = words (values_of platform query);
        },
        flags,
      )
handle_packet_info platform Query.stack cmd rsp flags w e clear room =
    handle_packet_stack_info platform cmd rsp flags w e clear (omega arith)
handle_packet_info platform Query.heap cmd rsp flags w e clear room =
    handle_packet_heap_info platform cmd rsp flags w e clear (omega arith)
