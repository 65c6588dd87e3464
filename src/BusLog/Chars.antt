-- ===== src/BusLog/Chars.antt =====
-- The characters of a message that the log packet takes.
use duino_bus.Base.{
  ℕ, zero, suc, ◌+◌, ◌-◌, ◌≤◌, ◌≡◌, ap, ◌∙◌, arith, List, [], ◌∷◌, take, length, done, IsBytes,
  le→ltb_false, lt→ltb,
}
use duino_bus.Packet.{Packet}
use duino_bus.Packet.Bounds.{IsValid}
use duino_bus.Packet.Push.{pushed, append_byte-pushed, pushed-IsValid, push_all}
use duino_bus.Packer.Laws.{get_space_remaining_lem}
use duino_bus.BusLog.{log_char_to_packet, put_chars}

log_char-full :
    {p : Packet} (c n : ℕ)
    → IsValid p
    → p.max_data_len ≡ p.data_len + 1
    → log_char_to_packet (record { pkt = p; bytes_written = n }) c
      ≡ done (0, record { pkt = p; bytes_written = n })
unfolding log_char_to_packet
log_char-full {p} c n v room =
    rw (get_space_remaining_lem v, le→ltb_false 1 (p.max_data_len - p.data_len) (omega arith))

log_char-stored :
    {p : Packet} (c k n : ℕ)
    → IsValid p
    → p.max_data_len ≡ p.data_len + suc (suc k)
    → n ≤ p.data_len
    → log_char_to_packet (record { pkt = p; bytes_written = n }) c
      ≡ done (1, record { pkt = pushed p c; bytes_written = n + 1 })
unfolding log_char_to_packet
log_char-stored {p} c k n v room small =
    rw
      (
        get_space_remaining_lem v,
        lt→ltb 1 (p.max_data_len - p.data_len) (omega arith),
        append_byte-pushed v c (omega arith),
      )
      (ap (λ m. done (1, record { pkt = pushed p c; bytes_written = m })) (omega arith))

-- What the formatter's characters do to the packet while `k` bytes besides the null's are free.
pub put_chars_lem :
    (chars : List ℕ) (k : ℕ) (p : Packet) (n : ℕ)
    → IsValid p
    → IsBytes chars
    → p.max_data_len ≡ p.data_len + suc k
    → n ≤ p.data_len
    → put_chars (record { pkt = p; bytes_written = n }) chars
      ≡ done (record { pkt = push_all p (take k chars); bytes_written = n + length (take k chars) })
unfolding put_chars push_all
put_chars_lem [] zero p n v h room small =
    ap (λ m. done (record { pkt = p; bytes_written = m })) (omega arith)
put_chars_lem [] (suc k) p n v h room small =
    ap (λ m. done (record { pkt = p; bytes_written = m })) (omega arith)
put_chars_lem (c ∷ cs) zero p n v h room small =
    rw (log_char-full c n v room) (put_chars_lem cs zero p n v h.1 room small)
put_chars_lem (c ∷ cs) (suc k) p n v h room small = rw (log_char-stored c k n v room small) (
    put_chars_lem cs k (pushed p c) (n + 1) (pushed-IsValid v c (omega arith) h.0) h.1
      (unfold pushed in omega arith) (unfold pushed in omega arith)
    ∙ ap (λ m. done (record { pkt = push_all (pushed p c) (take k cs); bytes_written = m }))
        (omega arith))
