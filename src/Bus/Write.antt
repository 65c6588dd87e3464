-- ===== src/Bus/Write.antt =====
-- `writePacket` over any transport, in terms of the frame.
use mathlib.Core.Option.{some}
use duino_bus.Base.{
  ℕ, zero, suc, ◌+◌, ◌*◌, ◌≡◌, refl, sym, ap, ◌∙◌, arith, List, [], ◌∷◌, Run, done, abort, map_run,
  map_run-eq-done, Bool, if◌then◌else◌,
}
use duino_bus.Crc8.{Crc8}
use duino_bus.Packet.{Packet, Error, LogEvent, get_data, calc_crc, calc_and_store_crc, Label}
use duino_bus.Packet.Bounds.{IsValid}
use duino_bus.Encoder
use duino_bus.Encoder.{Encoder, State}
use duino_bus.Encoder.Frame.{frame}
use duino_bus.Encoder.Writes.{Sent, sent, write_loop-frame}
use duino_bus.Bus.{Transport, write_loop, write_packet}

-- What `encodeStart` logs.
abbrev pub sent_log : Bool → Packet → List LogEvent
sent_log debug p = if debug then LogEvent.dumped Label.sent p ∷ [] else []

module _ {W : Type 0} (transport : Transport W) where
  -- The bytes written one after the other.
  abbrev pub write_all : List ℕ → W → W
  write_all [] w = w
  write_all (b ∷ bs) w = write_all bs (transport.write_byte b w)

  abbrev replay : W → Error × List ℕ × Encoder → Error × Encoder × W
  replay w (err, bs, e) = (err, e, write_all bs w)

  replay_after :
      (b : ℕ) (w : W) (r : Run (Error × List ℕ × Encoder))
      → map_run (replay w) (map_run (Encoder.after_byte b) r)
        ≡ map_run (replay (transport.write_byte b w)) r
  replay_after b w (done r) = refl
  replay_after b w abort = refl

  module _ (crc8 : Crc8) where
    -- The loop writes the bytes that the encoder gives, and nothing else.
    write_loop-replay :
        (fuel : ℕ) (e : Encoder) (x : ℕ) (w : W)
        → write_loop crc8 transport fuel e x w
          ≡ map_run (replay w) (Encoder.write_loop crc8 fuel e x)
    unfolding write_loop Encoder.write_loop
    write_loop-replay zero e x w = refl
    write_loop-replay (suc fuel) e x w =
        go (Encoder.encode_byte crc8 e x) refl
          (λ b e'. write_loop-replay fuel e' b (transport.write_byte b w))
      where
        go :
            (r : Run (Error × ℕ × Encoder))
            → Encoder.encode_byte crc8 e x ≡ r
            → ((b : ℕ) (e' : Encoder)
                → write_loop crc8 transport fuel e' b (transport.write_byte b w)
                  ≡ map_run (replay (transport.write_byte b w)) (Encoder.write_loop crc8 fuel e' b))
            → write_loop crc8 transport (suc fuel) e x w
              ≡ map_run (replay w) (Encoder.write_loop crc8 (suc fuel) e x)
        go abort h later = rw h
        go (done (Error.not_done, b, e')) h later =
            rw h (later b e' ∙ sym (replay_after b w (Encoder.write_loop crc8 fuel e' b)))
        go (done (ended, b, e')) h later = rw h

    -- `writePacket` on a valid packet, over any transport and from any state of the encoder: it ends
    -- with NONE, has written the frame of the command, the data and the CRC and flushed once, has
    -- stored the CRC in the packet, and leaves the encoder idle with its debug flag unchanged.
    pub write_packet-frame :
        (e : Encoder) (p : Packet) (w : W)
        → IsValid p
        → (e' : Encoder) × (write_packet crc8 transport e p w
            ≡ done (
              Error.none,
              record p { crc = calc_crc crc8 p },
              e',
              transport.flush (write_all (frame p.command (get_data p) (calc_crc crc8 p)) w),
              sent_log e.debug (record p { crc = calc_crc crc8 p }),
            ))
          × (e'.state ≡ State.idle)
          × (e'.debug ≡ e.debug)
    unfolding write_packet Encoder.encode_start calc_and_store_crc
    write_packet-frame e p w v =
        let p' : Packet = record p { crc = calc_crc crc8 p } in
        let started : Encoder = record e { packet = some p'; state = State.idle } in
        let (r, ends, same) =
          map_run-eq-done sent (Encoder.write_loop crc8 (2 * p.data_len + 6) started 0)
            (write_loop-frame crc8 e p (2 * p.data_len + 6) 0 v (omega arith)) in
        (
          r.2,
          rw (write_loop-replay (2 * p.data_len + 6) started 0 w, ends)
              (λ i. done (
                (same i).error,
                p',
                r.2,
                transport.flush (write_all (same i).bytes w),
                sent_log e.debug p',
              )),
          ap (λ (m : Sent). m.state) same,
          ap (λ (m : Sent). m.debug) same,
        )
