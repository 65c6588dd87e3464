-- ===== src/PicoUsbBus/Connection.antt =====
-- Which interfaces are connected, and what that means for a packet that is written.
use duino_bus.Base.{
  ℕ, zero, suc, ◌≡◌, ◌<◌, refl, ◌∙◌, arith, List, [], ◌∷◌, Bool, true, false, ◌&&◌, if◌then◌else◌,
  ◌==◌, ltb, length, get_or, set, length-set, done, Bool-cases, inl, inr,
}
use duino_bus.Crc8.{Crc8}
use duino_bus.Packet.{Packet, Error, get_data, calc_crc}
use duino_bus.Packet.Bounds.{IsValid}
use duino_bus.Encoder.{Encoder, State}
use duino_bus.Encoder.Frame.{frame}
use duino_bus.Bus.{write_packet}
use duino_bus.Bus.Write.{write_all, write_packet-frame, sent_log}
use duino_bus.PicoUsbBus.{
  Tusb, World, tud_cdc_line_state_cb, is_connected, write_byte, flush, transport,
}

get_or-set :
    (xs : List Bool) (i j : ℕ) (v d : Bool)
    → i < length xs
    → get_or (set xs i v) j d ≡ (if i == j then v else get_or xs j d)
get_or-set [] i j v d h = absurd (omega arith)
get_or-set (x ∷ xs) zero zero v d h = refl
get_or-set (x ∷ xs) zero (suc j) v d h = ground arith
get_or-set (x ∷ xs) (suc i) zero v d h = ground arith
get_or-set (x ∷ xs) (suc i) (suc j) v d h = ground (arith, get_or-set xs i j v d (omega arith))

-- A callback for an interface of the table records DTR for that interface, and for no other; one for
-- an interface outside the table changes nothing. The table keeps its size.
pub is_connected-line_state :
    (connected : List Bool) (intf j : ℕ) (dtr rts : Bool)
    → (is_connected (tud_cdc_line_state_cb connected intf dtr rts) j
        ≡ (if ltb intf (length connected) && intf == j then dtr else is_connected connected j))
      × (length (tud_cdc_line_state_cb connected intf dtr rts) ≡ length connected)
unfolding is_connected tud_cdc_line_state_cb
is_connected-line_state connected intf j dtr rts =
    ground (arith, get_or-set connected intf j dtr false, length-set connected intf dtr)

module _ {U : Type 0} (tusb : Tusb U) (intf : ℕ) where
  unconnected_writes :
      (bytes : List ℕ) (w : World U)
      → is_connected w.connected intf ≡ false
      → write_all (transport tusb intf) bytes w ≡ w
  unfolding write_byte
  unconnected_writes [] w h = refl
  unconnected_writes (b ∷ bytes) w h = simp h (unconnected_writes bytes w h)

  -- While the interface is not connected `writePacket` of a valid packet answers NONE all the same,
  -- with the CRC stored and the encoder idle, and leaves the driver and the table of connections as
  -- they were.
  pub write_packet-unconnected :
      (crc8 : Crc8) (e : Encoder) (p : Packet) (w : World U)
      → IsValid p
      → is_connected w.connected intf ≡ false
      → (e' : Encoder) × (write_packet crc8 (transport tusb intf) e p w
          ≡ done (
            Error.none,
            record p { crc = calc_crc crc8 p },
            e',
            w,
            sent_log e.debug (record p { crc = calc_crc crc8 p }),
          ))
        × (e'.state ≡ State.idle)
  unfolding flush
  write_packet-unconnected crc8 e p w v h =
      let (e', writes, at_idle, same) = write_packet-frame (transport tusb intf) crc8 e p w v in
      (
        e',
        writes ∙ simp (unconnected_writes (frame p.command (get_data p) (calc_crc crc8 p)) w h, h),
        at_idle,
      )

  -- What the driver is given while the interface is connected.
  abbrev pub driver_writes : List ℕ → U → U
  driver_writes [] u = u
  driver_writes (b ∷ bytes) u = driver_writes bytes (tusb.write intf b u)

  connected_writes :
      (bytes : List ℕ) (w : World U)
      → is_connected w.connected intf ≡ true
      → write_all (transport tusb intf) bytes w ≡ record w { usb = driver_writes bytes w.usb }
  unfolding write_byte
  connected_writes [] w h = refl
  connected_writes (b ∷ bytes) w h =
      simp h (connected_writes bytes (record w { usb = tusb.write intf b w.usb }) h)

  -- While the interface is connected `writePacket` of a valid packet answers NONE, and the driver
  -- gets the bytes of the frame, in order, and then one flush; the encoder is idle.
  pub write_packet-connected :
      (crc8 : Crc8) (e : Encoder) (p : Packet) (w : World U)
      → IsValid p
      → is_connected w.connected intf ≡ true
      → (e' : Encoder) × (write_packet crc8 (transport tusb intf) e p w
          ≡ done (
            Error.none,
            record p { crc = calc_crc crc8 p },
            e',
            record w {
              usb =
                  tusb.write_flush intf
                    (driver_writes (frame p.command (get_data p) (calc_crc crc8 p)) w.usb);
            },
            sent_log e.debug (record p { crc = calc_crc crc8 p }),
          ))
        × (e'.state ≡ State.idle)
  unfolding flush
  write_packet-connected crc8 e p w v h =
      let (e', writes, at_idle, same) = write_packet-frame (transport tusb intf) crc8 e p w v in
      (
        e',
        writes ∙ simp (connected_writes (frame p.command (get_data p) (calc_crc crc8 p)) w h, h),
        at_idle,
      )

  -- Whatever the table of connections, `writePacket` of a valid packet answers NONE, with the CRC stored
  -- and the encoder idle. While the interface is connected the driver gets the bytes of the frame, in
  -- order, and then one flush; otherwise it is left as it was. The table stays as it was.
  pub write_packet-driver :
      (crc8 : Crc8) (e : Encoder) (p : Packet) (w : World U)
      → IsValid p
      → (e' : Encoder) × (write_packet crc8 (transport tusb intf) e p w
          ≡ done (
            Error.none,
            record p { crc = calc_crc crc8 p },
            e',
            record w {
              usb =
                  if is_connected w.connected intf
                  then tusb.write_flush intf
                      (driver_writes (frame p.command (get_data p) (calc_crc crc8 p)) w.usb)
                  else w.usb;
            },
            sent_log e.debug (record p { crc = calc_crc crc8 p }),
          ))
        × (e'.state ≡ State.idle)
  write_packet-driver crc8 e p w v = elim (Bool-cases (is_connected w.connected intf)) [
    | inl on ↦ rw on (write_packet-connected crc8 e p w v on)
    | inr off ↦ rw off (write_packet-unconnected crc8 e p w v off)
  ]
