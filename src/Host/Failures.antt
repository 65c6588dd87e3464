-- ===== src/Host/Failures.antt =====
-- `write_packet` of duino_bus/bus.py over a port whose writing can fail.
use mathlib.Core.Path.{subst}
use duino_bus.Base.{
  ℕ, zero, suc, ◌+◌, ◌*◌, ◌<◌, ◌≡◌, refl, sym, ap, ◌∙◌, arith, List, [], ◌∷◌, Bool, true, false,
  length, Run, done, abort, map_run, map_run-eq-done, IsByte, IsBytes,
}
use duino_bus.Crc8.{Crc8}
use duino_bus.Packet as Duino
use duino_bus.Packet.{Error, get_data, calc_crc}
use duino_bus.Packet.Bounds.{IsValid, max_object}
use duino_bus.Encoder
use duino_bus.Encoder.Frame.{frame}
use duino_bus.Encoder.States.{IsReady, IsGood, encode_byte-IsGood, encode_start-IsReady}
use duino_bus.Encoder.Writes.{sent, write_loop-frame}
use duino_bus.Host
use duino_bus.Host.{ErrorCode, Packet}
use duino_bus.Host.Encoder as HostEncoder
use duino_bus.Host.Twins.{Agree}
use duino_bus.Host.Writes.{encoder_twin, reply_twin, encode_byte-twin}
use duino_bus.Host.Tight.{
  tight, tight-IsValid, get_data-tight, beside, encode_start-twin, calc_crc-tight,
}

-- The rest of the writing, if the write before it succeeded.
abbrev pub go_further : {W : Type 0} → Bool × W → (W → Bool × W) → Bool × W
go_further (true, w) rest = rest w
go_further (false, w) rest = (false, w)

-- The bytes written one after the other, up to the first that fails.
abbrev pub attempt : {W : Type 0} → (ℕ → W → Bool × W) → List ℕ → W → Bool × W
attempt write_byte [] w = (true, w)
attempt write_byte (b ∷ bs) w = go_further (write_byte b w) (λ w'. attempt write_byte bs w')

-- The answer.
abbrev pub verdict : Bool → ErrorCode
verdict true = ErrorCode.none
verdict false = ErrorCode.os

-- What the loop gives of it.
abbrev outcome : {W : Type 0} → HostEncoder.Encoder → Bool × W → ErrorCode × HostEncoder.Encoder × W
outcome h r = (verdict r.0, h, r.1)

module _ (crc8 : Crc8) (crc_fn : List ℕ → ℕ → ℕ) (agree : Agree crc8 crc_fn) {W : Type 0}
    (write_byte : ℕ → W → Bool × W) where
  module _ (p : Duino.Packet) where
    -- The loop from the host's encoder `h` on, where `bs` are the bytes of all its rounds.
    abbrev Attempts : ℕ → HostEncoder.Encoder → List ℕ → W → Type 0
    Attempts fuel h bs w =
        (h' : HostEncoder.Encoder) × (HostEncoder.write_loop crc_fn write_byte fuel h w
          ≡ outcome h' (attempt write_byte bs w))

    first_write :
        (b : ℕ) (bs : List ℕ) (h : HostEncoder.Encoder) (w : W) (s : Bool × W)
        → write_byte b w ≡ s
        → outcome h (go_further s (λ w'. attempt write_byte bs w'))
          ≡ outcome h (attempt write_byte (b ∷ bs) w)
    first_write b bs h w s e =
        ap (λ t. outcome h (go_further t (λ w'. attempt write_byte bs w'))) (sym e)

    round :
        (fuel : ℕ) (h : HostEncoder.Encoder) (err : ErrorCode) (b : ℕ) (h' : HostEncoder.Encoder)
        (w : W) (s : Bool × W)
        → HostEncoder.encode_byte crc_fn h ≡ (err, b, h')
        → write_byte b w ≡ s
        → HostEncoder.write_loop crc_fn write_byte (suc fuel) h w
          ≡ HostEncoder.after_write crc_fn write_byte err h' s
              (λ w'. HostEncoder.write_loop crc_fn write_byte fuel h' w')
    unfolding HostEncoder.write_loop
    round fuel h err b h' w s e e' =
        ap
          (λ r.
            HostEncoder.after_write crc_fn write_byte r.0 r.2 (write_byte r.1 w)
              (λ w'. HostEncoder.write_loop crc_fn write_byte fuel r.2 w'))
          e
        ∙ ap
            (λ t.
              HostEncoder.after_write crc_fn write_byte err h' t
                (λ w'. HostEncoder.write_loop crc_fn write_byte fuel h' w'))
            e'

    last_round :
        (fuel : ℕ) (h : HostEncoder.Encoder) (b : ℕ) (h' : HostEncoder.Encoder) (w : W)
        (s : Bool × W)
        → HostEncoder.encode_byte crc_fn h ≡ (ErrorCode.none, b, h')
        → write_byte b w ≡ s
        → Attempts (suc fuel) h (b ∷ []) w
    last_round fuel h b h' w (true, w') e e' = (
      h',
      round fuel h ErrorCode.none b h' w (true, w') e e' ∙ first_write b [] h' w (true, w') e',
    )
    last_round fuel h b h' w (false, w') e e' = (
      h',
      round fuel h ErrorCode.none b h' w (false, w') e e' ∙ first_write b [] h' w (false, w') e',
    )

    next_round :
        (fuel : ℕ) (h : HostEncoder.Encoder) (b : ℕ) (bs : List ℕ) (h' : HostEncoder.Encoder)
        (w : W) (s : Bool × W)
        → HostEncoder.encode_byte crc_fn h ≡ (ErrorCode.not_done, b, h')
        → write_byte b w ≡ s
        → ((w' : W) → Attempts fuel h' bs w')
        → Attempts (suc fuel) h (b ∷ bs) w
    next_round fuel h b bs h' w (true, w') e e' others =
        let (last, ends) = others w' in
        (
          last,
          round fuel h ErrorCode.not_done b h' w (true, w') e e'
              ∙ ends
              ∙ first_write b bs last w (true, w') e',
        )
    next_round fuel h b bs h' w (false, w') e e' others = (
      h',
      round fuel h ErrorCode.not_done b h' w (false, w') e e'
          ∙ first_write b bs h' w (false, w') e',
    )

    later_bytes :
        (fuel b : ℕ) (bs : List ℕ) (e1 e' : Encoder.Encoder)
        (l : Run (Error × List ℕ × Encoder.Encoder))
        → Encoder.write_loop crc8 fuel e1 b ≡ l
        → map_run (Encoder.after_byte b) l ≡ done (Error.none, bs, e')
        → (later : List ℕ) × (b ∷ later ≡ bs)
          × (Encoder.write_loop crc8 fuel e1 b ≡ done (Error.none, later, e'))
    later_bytes fuel b bs e1 e' abort q q' = absurd (cc)
    later_bytes fuel b bs e1 e' (done (err, later, e2)) q q' =
        let same : (err ≡ Error.none) × (b ∷ later ≡ bs) × (e2 ≡ e') = (cc, cc, cc) in
        (later, same.1, q ∙ (λ i. done (same.0 i, later, same.2 i)))

    one_round :
        (fuel : ℕ) (e e' : Encoder.Encoder) (x : ℕ) (bs : List ℕ) (w : W)
        (r : Error × ℕ × Encoder.Encoder)
        → Encoder.encode_byte crc8 e x ≡ done r
        → HostEncoder.encode_byte crc_fn (encoder_twin p e) ≡ reply_twin p r
        → IsGood p r
        → Encoder.write_loop crc8 (suc fuel) e x ≡ done (Error.none, bs, e')
        → ((b : ℕ) (e1 : Encoder.Encoder) (later : List ℕ) (w' : W)
            → IsReady p e1
            → Encoder.write_loop crc8 fuel e1 b ≡ done (Error.none, later, e')
            → Attempts fuel (encoder_twin p e1) later w')
        → Attempts (suc fuel) (encoder_twin p e) bs w
    unfolding Encoder.write_loop
    one_round fuel e e' x bs w (Error.not_done, b, e1) q same good ends others =
        let (later, first, rest) =
          later_bytes fuel b bs e1 e' (Encoder.write_loop crc8 fuel e1 b) refl (rw q at ends) in
        subst (λ l. Attempts (suc fuel) (encoder_twin p e) l w) first
          (next_round fuel (encoder_twin p e) b later (encoder_twin p e1) w (write_byte b w) same
            refl (λ w'. others b e1 later w' good.ready rest))
    one_round fuel e e' x bs w (Error.none, b, e1) q same good ends others =
        let found : ◌≡◌ {A = Run (Error × List ℕ × Encoder.Encoder)} (done (Error.none, b ∷ [], e1))
            (done (Error.none, bs, e')) =
          rw q at ends in
        let last : b ∷ [] ≡ bs = cc in
        subst (λ l. Attempts (suc fuel) (encoder_twin p e) l w) last
          (last_round fuel (encoder_twin p e) b (encoder_twin p e1) w (write_byte b w) same refl)
    one_round fuel e e' x bs w (err, b, e1) q same good ends others = absurd good.goes

    write_loop-Attempts :
        (fuel : ℕ) (e e' : Encoder.Encoder) (x : ℕ) (bs : List ℕ) (w : W)
        → IsReady p e
        → Encoder.write_loop crc8 fuel e x ≡ done (Error.none, bs, e')
        → Attempts fuel (encoder_twin p e) bs w
    write_loop-Attempts zero e e' x bs w h ends = absurd (unfold Encoder.write_loop in cc)
    write_loop-Attempts (suc fuel) e e' x bs w h ends =
        let (r, encodes, good) = encode_byte-IsGood crc8 p e x h in
        let same : ◌≡◌ {A = Run (ErrorCode × ℕ × HostEncoder.Encoder)} (done (reply_twin p r))
            (done (HostEncoder.encode_byte crc_fn (encoder_twin p e))) =
          sym (ap (map_run (reply_twin p)) encodes) ∙ encode_byte-twin crc8 crc_fn agree p e x h in
        one_round fuel e e' x bs w r encodes (cc) good ends
          (λ b e1 later w' ready rest. write_loop-Attempts fuel e1 e' b later w' ready rest)

  pub attempts_tight :
      (e : HostEncoder.Encoder) (pkt : Packet) (w : W)
      → IsValid (tight pkt)
      → IsByte e.escape_char
      → (e' : HostEncoder.Encoder) × (let bs =
            frame pkt.cmd (get_data (tight pkt)) (calc_crc crc8 (tight pkt)) in
          HostEncoder.write_packet crc_fn write_byte e pkt w ≡ (
            verdict (attempt write_byte bs w).0,
            Host.calc_and_store_crc crc_fn pkt,
            e',
            (attempt write_byte bs w).1,
          ))
  unfolding HostEncoder.write_packet HostEncoder.encode_start
  attempts_tight e pkt w v h =
      let rounds = 2 * length pkt.bytes + 6 in
      let stored = Encoder.encode_start crc8 (beside e) (tight pkt) in
      let pkt' = Host.calc_and_store_crc crc_fn pkt in
      let bs = frame pkt.cmd (get_data (tight pkt)) (calc_crc crc8 (tight pkt)) in
      let (r, loops, same) =
        map_run-eq-done sent (Encoder.write_loop crc8 rounds stored.1 0)
          (write_loop-frame crc8 (beside e) (tight pkt) rounds 0 v (omega arith)) in
      let (e', ends) =
        write_loop-Attempts stored.0 rounds stored.1 r.2 0 bs w
          (encode_start-IsReady crc8 (beside e) (tight pkt) v h)
          (loops ∙ (λ i. done ((same i).error, (same i).bytes, r.2))) in
      (
        e',
        ap
              (λ x.
                let (err, e'', w') = HostEncoder.write_loop crc_fn write_byte rounds x w in
                (err, pkt', e'', w'))
              (encode_start-twin crc8 crc_fn agree e pkt v)
            ∙ ap (λ l. (l.0, pkt', l.1, l.2)) ends,
      )

  -- Where the CRC functions agree, `write_packet` of the host ends over any port, whichever of its writes
  -- fail, on a packet of bytes and from any state of its encoder with a byte as the escape character. It
  -- writes the bytes of the packet's frame in order up to the first that fails, and no further: the
  -- answer is OS if one fails, and otherwise NONE. The packet has its CRC stored either way.
  pub write_packet-attempts :
      (e : HostEncoder.Encoder) (pkt : Packet) (w : W)
      → IsByte e.escape_char
      → IsByte pkt.cmd
      → IsBytes pkt.bytes
      → length pkt.bytes + 1 < max_object
      → (e' : HostEncoder.Encoder) × (let bs = frame pkt.cmd pkt.bytes (Host.calc_crc crc_fn pkt) in
          HostEncoder.write_packet crc_fn write_byte e pkt w ≡ (
            verdict (attempt write_byte bs w).0,
            Host.calc_and_store_crc crc_fn pkt,
            e',
            (attempt write_byte bs w).1,
          ))
  write_packet-attempts e pkt w h hc hb small =
      let v = tight-IsValid pkt hc hb (omega arith) small in
      let (e', writes) = attempts_tight e pkt w v h in
      let bytes : frame pkt.cmd (get_data (tight pkt)) (calc_crc crc8 (tight pkt))
          ≡ frame pkt.cmd pkt.bytes (Host.calc_crc crc_fn pkt) =
        (λ i.
          frame pkt.cmd (get_data-tight pkt i) (sym (calc_crc-tight crc8 crc_fn agree pkt v) i)) in
      (
        e',
        writes
            ∙ ap
                (λ bs. (
                  verdict (attempt write_byte bs w).0,
                  Host.calc_and_store_crc crc_fn pkt,
                  e',
                  (attempt write_byte bs w).1,
                ))
                bytes,
      )
