-- ===== src/Host/Alike.antt =====
-- One call of the decoders of the two sides.
use duino_bus.Base.{
  ℕ, ◌<◌, ◌≡◌, refl, ap, ◌∙◌, sym, arith, List, Bool, true, false, not, ◌&&◌, leb, ◌==◌, Run, done,
  map_run, map_run-eq-done, Bool-cases, inl, inr,
}
use duino_bus.Crc8.{Crc8}
use duino_bus.Packet as Duino
use duino_bus.Packet.Push.{
  pushed, append_byte-pushed, get_data-pushed, last_byte, popped, extract_crc-popped,
  popped-IsValid,
}
use duino_bus.Packet.{Error, get_data}
use duino_bus.Packet.Bounds.{IsValid}
use duino_bus.Packet.View.{
  length-get_data, get_data-IsBytes, unsnoc, view, view_crc, with_bytes, extract_crc_refines,
}
use duino_bus.Decoder
use duino_bus.Decoder.{Reply}
use duino_bus.Host
use duino_bus.Host.{ErrorCode, Packet}
use duino_bus.Host.Decoder as HostDecoder
use duino_bus.Host.Decoder.{State}
use duino_bus.Host.Twins.{Agree, state_of, sight, twin_sight, twin}

unsnoc-get_data :
    {p : Duino.Packet}
    → IsValid p
    → 0 < p.data_len
    → unsnoc (get_data p) ≡ done (last_byte p, get_data (popped p))
unsnoc-get_data {p} v h =
    let (r, ends, same) =
      map_run-eq-done (with_bytes (view p)) (unsnoc (get_data p))
        (sym (extract_crc_refines v) ∙ ap (map_run view_crc) (extract_crc-popped v h)) in
    ends ∙ (λ i. done ((same i).0, (same i).1.bytes))

module _ (crc8 : Crc8) (crc_fn : List ℕ → ℕ → ℕ) (agree : Agree crc8 crc_fn) (p : Duino.Packet)
    (crc : ℕ) (debug g : Bool) where
  abbrev device : Decoder.State → Bool → Decoder.Decoder
  device s e = record { packet = p; state = s; escape = e; debug = g }

  abbrev Alike : Run (ErrorCode × HostDecoder.Decoder) → Run Reply → Type 0
  Alike here there = map_run sight here ≡ map_run twin_sight there

  idle-Alike :
      (e : Bool) (b : ℕ)
      → Alike
          (HostDecoder.dispatch crc_fn State.idle (twin crc debug (device Decoder.State.idle e)) b)
          (Decoder.switch crc8 Decoder.State.idle (device Decoder.State.idle e) b)
  unfolding HostDecoder.dispatch HostDecoder.decode_byte_idle Decoder.switch
  idle-Alike e b = ground arith

  command-Alike :
      (e : Bool) (b : ℕ)
      → Alike
          (HostDecoder.dispatch crc_fn State.command
            (twin crc debug (device Decoder.State.command e))
            b)
          (Decoder.switch crc8 Decoder.State.command (device Decoder.State.command e) b)
  unfolding HostDecoder.dispatch HostDecoder.decode_byte_command Decoder.switch Decoder.begin_packet
      Duino.set_data Duino.set_command Host.set_data Host.set_command
  command-Alike e b = ground arith

  module _ (v : IsValid p) (capacity : p.max_data_len ≡ 256) where
    store-Alike :
        (e : Bool) (b : ℕ)
        → (b == Host.end_byte && not e) ≡ false
        → Alike
            (HostDecoder.decode_byte_data crc_fn
              (twin crc debug (device Decoder.State.payload e))
              b)
            (Decoder.store_byte (device Decoder.State.payload e) b)
    unfolding HostDecoder.decode_byte_data Decoder.store_byte Host.append_byte
    store-Alike e b h = elim (Bool-cases (leb p.max_data_len p.data_len)) [
      | inl full ↦ rw (h, length-get_data v, limit, full)
      | inr room ↦ rw (
        h,
        length-get_data v,
        limit,
        room,
        append_byte-pushed v b (ground arith),
        get_data-pushed v b (ground arith),
        kept,
      )
    ]
      where
        limit : leb Host.max_data_len p.data_len ≡ leb p.max_data_len p.data_len
        limit = ap (λ n. leb n p.data_len) (sym capacity)

        kept : (pushed p b).command ≡ p.command
        kept = unfold pushed in refl

    check-Alike :
        (e : Bool)
        → 0 < p.data_len
        → Alike (HostDecoder.check_crc crc_fn (twin crc debug (device Decoder.State.payload e))) (
            done (Decoder.check_crc crc8 (device Decoder.State.payload e) (last_byte p) (popped p)))
    unfolding HostDecoder.check_crc Decoder.check_crc Host.extract_crc Host.calc_crc Duino.calc_crc
    check-Alike e some_data =
        rw
          (
            unsnoc-get_data v some_data,
            agree.on_command p.command v.command_byte,
            agree.on_data (crc8.step 0 p.command) (get_data (popped p))
                (crc8.step-IsByte 0 p.command) (get_data-IsBytes (popped-IsValid v some_data)),
            kept,
          )
          (elim (Bool-cases
            (last_byte p == crc8.block (crc8.step 0 p.command) (get_data (popped p)))) [
              | inl right ↦ rw right
              | inr wrong ↦ rw wrong
            ])
      where
        kept : (popped p).command ≡ p.command
        kept = unfold popped in refl

    payload-Alike :
        (e : Bool) (b : ℕ)
        → Alike
            (HostDecoder.decode_byte_data crc_fn
              (twin crc debug (device Decoder.State.payload e))
              b)
            (Decoder.switch crc8 Decoder.State.payload (device Decoder.State.payload e) b)
    unfolding HostDecoder.decode_byte_data Decoder.switch Decoder.end_packet
    payload-Alike e b = elim (Bool-cases (b == Host.end_byte && not e)) [
      | inl at_end ↦ elim (Bool-cases (p.data_len == 0)) [
        | inl nothing ↦ rw (at_end, length-get_data v, nothing)
        | inr some_data ↦
            rw (at_end, length-get_data v, some_data, extract_crc-popped v (ground arith))
              (check-Alike e (ground arith))
      ]
      | inr inside ↦ store-Alike e b inside ∙ rw inside
    ]

    dispatch-Alike :
        (s : Decoder.State) (e : Bool) (b : ℕ)
        → Alike
            (HostDecoder.dispatch crc_fn (state_of s) (twin crc debug (device s e)) b)
            (Decoder.switch crc8 s (device s e) b)
    dispatch-Alike Decoder.State.idle e b = idle-Alike e b
    dispatch-Alike Decoder.State.command e b = command-Alike e b
    dispatch-Alike Decoder.State.payload e b = unfold HostDecoder.dispatch in payload-Alike e b
    dispatch-Alike (Decoder.State.other n) e b = unfold HostDecoder.dispatch Decoder.switch in refl

    -- Outside the idle state both sides treat escapes alike.
    inside-Alike :
        (s : Decoder.State) (e : Bool) (b : ℕ)
        → Decoder.is_idle s ≡ false
        → HostDecoder.is_idle (state_of s) ≡ false
        → Alike
            (HostDecoder.decode_byte crc_fn (twin crc debug (device s e)) b)
            (Decoder.decode_byte crc8 (device s e) b)
    unfolding HostDecoder.decode_byte Decoder.decode_byte HostDecoder.unescape Decoder.unescape
    inside-Alike s true b h h' = rw (h, h') (dispatch-Alike s true (Decoder.unescape b))
    inside-Alike s false b h h' = elim (Bool-cases (b == Host.esc_byte)) [
      | inl escapes ↦ rw (h, h', escapes)
      | inr plain ↦ rw (h, h', plain) (dispatch-Alike s false b)
    ]

    decode-Alike :
        (s : Decoder.State) (e : Bool) (b : ℕ)
        → Alike
            (HostDecoder.decode_byte crc_fn (twin crc debug (device s e)) b)
            (Decoder.decode_byte crc8 (device s e) b)
    unfolding HostDecoder.decode_byte Decoder.decode_byte
    decode-Alike Decoder.State.idle e b = dispatch-Alike Decoder.State.idle e b
    decode-Alike Decoder.State.command e b = inside-Alike Decoder.State.command e b refl refl
    decode-Alike Decoder.State.payload e b = inside-Alike Decoder.State.payload e b refl refl
    decode-Alike (Decoder.State.other n) e b = inside-Alike (Decoder.State.other n) e b refl refl

-- Where the CRC functions agree and the device's packet is valid and has the capacity of the host's, one
-- call with the same byte on decoders that stand alike gives the same answer, the same command and
-- data, the same escape flag and the same state, except that the host is idle after a wrong CRC and in
-- STATE_COMMAND after a packet that is too small.
pub decode_byte-twin :
    (crc8 : Crc8) (crc_fn : List ℕ → ℕ → ℕ) (d : Decoder.Decoder) (crc b : ℕ) (debug : Bool)
    → Agree crc8 crc_fn
    → IsValid d.packet
    → d.packet.max_data_len ≡ Host.max_data_len
    → map_run sight (HostDecoder.decode_byte crc_fn (twin crc debug d) b)
      ≡ map_run twin_sight (Decoder.decode_byte crc8 d b)
decode_byte-twin crc8 crc_fn d crc b debug agree v capacity =
    decode-Alike crc8 crc_fn agree d.packet crc debug d.debug v capacity d.state d.escape b
