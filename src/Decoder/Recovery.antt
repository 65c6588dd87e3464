-- ===== src/Decoder/Recovery.antt =====
-- How a decoder gets back to the idle state, whatever has come before.
use duino_bus.Base.{
  ℕ, ◌≤◌, ◌<◌, ◌≡◌, refl, sym, ap, ◌∙◌, arith, List, [], ◌∷◌, append-nil, Bool, true, false, done,
  map_run, Bool-cases, inl, inr, ==_refl, leb, length, if◌then◌else◌, IsBytes,
}
use duino_bus.Crc8.{Crc8}
use duino_bus.Packet.{
  Packet, Error, LogEvent, Label, set_command, set_data, calc_crc, get_data, end_byte,
}
use duino_bus.Packet.Bounds.{IsValid, calc_crc-IsByte}
use duino_bus.Packet.View.{get_data-IsBytes, length-get_data}
use duino_bus.Packet.Push.{pushed, append_byte-pushed, pushed-IsValid}
use duino_bus.Encoder.Frame.{frame}
use duino_bus.Decoder.{
  Decoder, State, unescape, begin_packet, store_byte, switch, decode_byte, feed,
}
use duino_bus.Decoder.Feed.{decoder, started}
use duino_bus.Decoder.Frames.{received, report, crc_of, feed-frame, started-IsValid}
use duino_bus.Decoder.Safe.{IsSound, IsNamed}
use duino_bus.Decoder.Stream.{decode_all, decode_all-IsSound}
use duino_bus.Decoder.Ends.{Recovers, reads_on, fewer, from_payload}

module _ (crc8 : Crc8) where
  -- A byte behind a pending escape is stored, or is too much.
  from_escape :
      (p : Packet) (g : Bool)
      → IsValid p
      → 0 < p.max_data_len
      → Recovers crc8 (decoder p State.payload true g) 5
  unfolding decode_byte switch store_byte unescape pushed
  from_escape p g v capacity = elim (Bool-cases (leb p.max_data_len p.data_len)) [
    | inl full ↦
        reads_on crc8 (decoder p State.payload true g) 0 4
          (
            Error.too_much_data,
            decoder p State.payload false g,
            if g then LogEvent.dumped Label.too_big p ∷ [] else [],
          )
          (omega arith) (rw full) (from_payload crc8 p g v capacity)
    | inr room ↦
        reads_on crc8 (decoder p State.payload true g) 0 4
          (Error.not_done, decoder (pushed p 0) State.payload false g, []) (omega arith)
          (rw (room, append_byte-pushed v 0 (ground arith)))
          (from_payload crc8 (pushed p 0) g (pushed-IsValid v 0 (ground arith) (omega arith))
            capacity)
  ]

  from_command :
      (p : Packet) (e g : Bool)
      → IsValid p
      → 0 < p.max_data_len
      → Recovers crc8 (decoder p State.command e g) 5
  unfolding decode_byte switch begin_packet unescape set_command set_data
  from_command p true g v capacity =
      reads_on crc8 (decoder p State.command true g) 0 4
        (Error.not_done, decoder (started p 0) State.payload false g, []) (omega arith) refl
        (from_payload crc8 (started p 0) g (started-IsValid 0 v (omega arith)) capacity)
  from_command p false g v capacity =
      reads_on crc8 (decoder p State.command false g) 0 4
        (Error.not_done, decoder (started p 0) State.payload false g, []) (omega arith) refl
        (from_payload crc8 (started p 0) g (started-IsValid 0 v (omega arith)) capacity)

  from_idle :
      (p : Packet) (e g : Bool)
      → IsValid p
      → 0 < p.max_data_len
      → Recovers crc8 (decoder p State.idle e g) 6
  unfolding decode_byte switch
  from_idle p e g v capacity =
      reads_on crc8 (decoder p State.idle e g) end_byte 5
        (Error.not_done, decoder p State.command e g, []) (omega arith) refl
        (from_command p e g v capacity)

  from_state :
      (p : Packet) (s : State) (e g : Bool)
      → IsValid p
      → IsNamed s
      → 0 < p.max_data_len
      → Recovers crc8 (decoder p s e g) 6
  from_state p State.idle e g v named capacity = from_idle p e g v capacity
  from_state p State.command e g v named capacity =
      fewer crc8 (decoder p State.command e g) 5 6 (omega arith) (from_command p e g v capacity)
  from_state p State.payload true g v named capacity =
      fewer crc8 (decoder p State.payload true g) 5 6 (omega arith) (from_escape p g v capacity)
  from_state p State.payload false g v named capacity =
      fewer crc8 (decoder p State.payload false g) 4 6 (omega arith)
        (from_payload crc8 p g v capacity)
  from_state p (State.other n) e g v named capacity = absurd named

  takes_frame :
      (d : Decoder) (p : Packet)
      → IsSound d
      → d.state ≡ State.idle
      → d.escape ≡ false
      → IsValid p
      → p.data_len < d.packet.max_data_len
      → map_run received (feed crc8 d (frame p.command (get_data p) (calc_crc crc8 p)))
        ≡ done (
            report Error.none
              (record { command = p.command; capacity = d.packet.max_data_len; bytes = get_data p })
              State.idle
              [])
  unfolding calc_crc
  takes_frame d p h at_idle clear v room =
      let at_rest : d ≡ decoder d.packet State.idle false d.debug =
        λ i. record { packet = d.packet; state = at_idle i; escape = clear i; debug = d.debug } in
      ap (λ x. map_run received (feed crc8 x stream)) at_rest
      ∙ ap (λ bs. map_run received (feed crc8 (decoder d.packet State.idle false d.debug) bs))
          (sym (append-nil stream))
      ∙ feed-frame crc8 d.debug d.packet p.command (get_data p) c [] h.valid v.command_byte
          (get_data-IsBytes v) (calc_crc-IsByte crc8 p) (omega (arith, length-get_data v))
      ∙ rw (==_refl c)
    where
      c : ℕ
      c = crc_of crc8 p.command (get_data p)

      stream : List ℕ
      stream = frame p.command (get_data p) c

  -- Whatever a decoder with a valid packet of a capacity above 0 has been given before, and in
  -- whatever state of the enumeration it is, some stream of at most six bytes, read on over errors,
  -- brings it to a point, its packet still valid, from which it takes the frame of every valid
  -- packet with less data than the capacity: it answers NONE, holds the command and the data, and
  -- is idle.
  pub decode_all-recovers :
      (d : Decoder)
      → IsSound d
      → 0 < d.packet.max_data_len
      → (bytes : List ℕ) × (d' : Decoder) × IsBytes bytes
        × (length bytes ≤ 6)
        × (decode_all crc8 d bytes ≡ done d')
        × IsSound d'
        × ((p : Packet)
            → IsValid p
            → p.data_len < d.packet.max_data_len
            → map_run received (feed crc8 d' (frame p.command (get_data p) (calc_crc crc8 p)))
              ≡ done (
                  report Error.none
                    (record {
                      command = p.command;
                      capacity = d.packet.max_data_len;
                      bytes = get_data p;
                    })
                    State.idle
                    []))
  decode_all-recovers d h capacity =
      let r = from_state d.packet d.state d.escape d.debug h.valid h.named capacity in
      let (sound, same) = decode_all-IsSound crc8 d r.last r.bytes h r.all r.ends in
      (
        r.bytes,
        r.last,
        r.all,
        r.few,
        r.ends,
        sound,
        λ p v room. takes_frame r.last p sound r.at_idle r.clear v (omega (arith, same)) ∙ rw same,
      )
