-- ===== src/BusLog/Message.antt =====
-- The LOG packet that a message becomes.
use mathlib.Core.Option.{some}
use duino_bus.Base.{
  ℕ, zero, suc, ◌>>=◌, ◌+◌, ◌-◌, ◌%◌, ◌≤◌, ◌<◌, ◌≡◌, refl, sym, ap, ◌∙◌, arith, List, [], ◌∷◌, ◌++◌,
  set, take, length, Run, done, IsByte, IsBytes, lt→ltb, take-IsBytes, length-set, set-IsBytes,
  length-take_le,
}
use duino_bus.CorePacketHandler
use duino_bus.Crc8.{Crc8}
use duino_bus.Packet.{
  Packet, get_data, set_command, set_data, append_byte, get_write_data, calc_crc,
}
use duino_bus.Packet.Bounds.{IsValid}
use duino_bus.Packet.View.{Message, view, length-get_data}
use duino_bus.Packet.Push.{
  pushed, append_byte-pushed, pushed-IsValid, get_data-pushed, push_all, push_all-IsValid,
  push_all-get_data, push_all_keeps,
}
use duino_bus.BusLog.{LogParam, put_chars, fill, do_log}
use duino_bus.Encoder.Frame.{frame}
use duino_bus.Bus.{Bus, Transport}
use duino_bus.Bus.Write.{write_all, write_packet-frame, sent_log}
use duino_bus.BusLog.Chars.{put_chars_lem}

set-take : (xs : List ℕ) (i n v : ℕ) → i < n → take n (set xs i v) ≡ set (take n xs) i v
set-take [] i zero v h = refl
set-take [] i (suc n) v h = refl
set-take (x ∷ xs) i zero v h = absurd (omega arith)
set-take (x ∷ xs) zero (suc n) v h = refl
set-take (x ∷ xs) (suc i) (suc n) v h = ap (λ t. x ∷ t) (set-take xs i n v (omega arith))

-- The packet with the level and the place for the length.
abbrev started : Packet → ℕ → Packet
started p level = record p {
  command = CorePacketHandler.log;
  storage = set p.storage 0 level;
  data_len = 2;
}

started-IsValid :
    {p : Packet} (level : ℕ)
    → IsValid p
    → IsByte level
    → 3 ≤ p.max_data_len
    → IsValid (started p level)
started-IsValid {p} level v h room =
    ground (arith, length-set p.storage 0 level, set-IsBytes p.storage 0 level v.bytes h)

started-get_data :
    (s : List ℕ) (level : ℕ) → 2 ≤ length s → (x : ℕ) × (take 2 (set s 0 level) ≡ level ∷ x ∷ [])
started-get_data [] level h = absurd (omega arith)
started-get_data (x ∷ []) level h = absurd (omega arith)
started-get_data (x ∷ y ∷ s) level h = (y, refl)

-- What is left of `fill` behind the level and the place for the length.
abbrev finish : LogParam → Run Packet
finish param = do
  d ← append_byte param.pkt 0
  done (record d { storage = set d.storage 1 ((param.bytes_written + 1) % 256) })

fill-started :
    (p : Packet) (level : ℕ) (chars : List ℕ)
    → IsValid p
    → 3 ≤ p.max_data_len
    → fill p level chars ≡ (do
      param ← put_chars (record { pkt = started p level; bytes_written = 0 }) chars
      finish param)
unfolding fill set_data set_command append_byte get_write_data
fill-started p level chars v room = rw (lt→ltb 0 p.max_data_len (omega arith))

-- The last byte, and the length in the place kept for it.
finish_lem :
    {p : Packet} (n level x : ℕ) (kept : List ℕ)
    → IsValid p
    → p.data_len < p.max_data_len
    → get_data p ≡ level ∷ x ∷ kept
    → (q : Packet) × (finish (record { pkt = p; bytes_written = n }) ≡ done q)
      × IsValid q
      × (view q ≡ record (view p) { bytes = level ∷ (n + 1) % 256 ∷ (kept ++ (0 ∷ [])) })
unfolding pushed
finish_lem {p} n level x kept v room held =
    let d = pushed p 0 in
    let vd = pushed-IsValid v 0 room (omega arith) in
    let m = (n + 1) % 256 in
    let long : p.data_len ≡ 2 + length kept =
      omega (arith, sym (length-get_data v) ∙ ap length held) in
    (
      record d { storage = set d.storage 1 ((n + 1) % 256) },
      rw (append_byte-pushed v 0 room),
      ground (arith, length-set d.storage 1 m, set-IsBytes d.storage 1 m vd.bytes (omega arith)),
      ap (λ t. record (view p) { bytes = t })
          (set-take d.storage 1 d.data_len m (unfold pushed in omega arith)
            ∙ ap (λ t. set t 1 m) (get_data-pushed v 0 room ∙ ap (λ t. t ++ (0 ∷ [])) held)),
    )

-- The data of a LOG packet: the level, the length with the null, the characters and the null.
abbrev pub text : ℕ → List ℕ → List ℕ
text level chars = level ∷ (length chars + 1) % 256 ∷ (chars ++ (0 ∷ []))

pub fill_lem :
    (p : Packet) (level : ℕ) (chars : List ℕ)
    → IsValid p
    → IsByte level
    → IsBytes chars
    → 3 ≤ p.max_data_len
    → (q : Packet) × (fill p level chars ≡ done q)
      × IsValid q
      × (view q ≡ record {
        command = CorePacketHandler.log;
        capacity = p.max_data_len;
        bytes = text level (take (p.max_data_len - 3) chars);
      })
unfolding fill
fill_lem p level chars v h hs room =
    let k = p.max_data_len - 3 in
    let kept = take k chars in
    let s = started p level in
    let vs = started-IsValid level v h room in
    let hk : IsBytes kept = take-IsBytes k chars hs in
    let short : 2 + length kept < p.max_data_len = omega (arith, length-take_le k chars) in
    let full : IsValid (push_all s kept) = push_all-IsValid kept s vs hk (omega arith) in
    let (cmd, cap) = push_all_keeps s kept in
    let (x, opening) = started-get_data p.storage level (omega arith) in
    let held : get_data (push_all s kept) ≡ level ∷ x ∷ kept =
      push_all-get_data kept s vs hk (omega arith) ∙ ap (λ t. t ++ kept) opening in
    let counted : 0 + length kept ≡ length kept = omega arith in
    let put = put_chars_lem chars k s 0 vs hs (omega arith) (omega arith) in
    let (q, ends, vq, same) =
      finish_lem (length kept) level x kept full
        (omega (arith, cap, sym (length-get_data full) ∙ ap length held)) held in
    (
      q,
      rw (fill-started p level chars v room, put, counted) ends,
      vq,
      same ∙ (λ i. record { command = cmd i; capacity = cap i; bytes = text level kept }),
    )

-- A bus with a valid log packet of capacity at least 3 logs without aborting: it writes, and
-- flushes once, the frame of a LOG packet that holds the level, the length byte, the characters of
-- the message as far as they fit with the null, and the null; the bus keeps that packet, with its
-- CRC stored, as its log packet.
pub do_log-frame :
    (crc8 : Crc8) {W : Type 0} (transport : Transport W) (bus : Bus) (log : Packet) (level : ℕ)
    (chars : List ℕ) (w : W)
    → bus.log_packet ≡ some log
    → IsValid log
    → IsByte level
    → IsBytes chars
    → 3 ≤ log.max_data_len
    → (bus' : Bus) × (q : Packet) × (view q ≡ record {
      command = CorePacketHandler.log;
      capacity = log.max_data_len;
      bytes = text level (take (log.max_data_len - 3) chars);
    })
      × (do_log crc8 transport bus level chars w
          ≡ done (
            bus',
            transport.flush (
                write_all transport
                  (frame CorePacketHandler.log
                    (text level (take (log.max_data_len - 3) chars))
                    (calc_crc crc8 q))
                  w),
            sent_log bus.encoder.debug (record q { crc = calc_crc crc8 q }),
          ))
      × (bus'.log_packet ≡ some (record q { crc = calc_crc crc8 q }))
unfolding do_log
do_log-frame crc8 transport bus log level chars w has v h hs room =
    let (q, fills, vq, same) = fill_lem log level chars v h hs room in
    let (e', writes, at_idle, kept) = write_packet-frame transport crc8 bus.encoder q w vq in
    let bus' : Bus = record bus {
      log_packet = some (record q { crc = calc_crc crc8 q });
      encoder = e';
    } in
    (
      bus',
      q,
      same,
      rw (has, fills, writes)
          (ap
            (λ (m : Message). done (
              bus',
              transport.flush (write_all transport (frame m.command m.bytes (calc_crc crc8 q)) w),
              sent_log bus.encoder.debug (record q { crc = calc_crc crc8 q }),
            ))
            same),
      refl,
    )
