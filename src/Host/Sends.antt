-- ===== src/Host/Sends.antt =====
-- What the host writes, at a device's decoder.
use duino_bus.Base.{
  refl, ◌∷◌, ℕ, ◌<◌, ◌≡◌, ap, ◌∙◌, List, [], ◌++◌, Bool, true, false, length, done, map_run, IsByte,
  IsBytes,
}
use duino_bus.Crc8.{Crc8}
use duino_bus.Packet as Duino
use duino_bus.Packet.{Error, get_data, calc_crc}
use duino_bus.Packet.Bounds.{IsValid}
use duino_bus.Encoder.Frame.{frame}
use duino_bus.Decoder
use duino_bus.Decoder.Feed.{decoder}
use duino_bus.Decoder.Frames.{received, report}
use duino_bus.Bus.Link.{feed-frame-get_data}
use duino_bus.Host
use duino_bus.Host.{ErrorCode, Packet}
use duino_bus.Host.Encoder as HostEncoder
use duino_bus.Host.Twins.{Agree}
use duino_bus.Host.Tight.{tight, tight-IsValid, get_data-tight}
use duino_bus.Host.Failures.{go_further, attempt, verdict, attempts_tight}
use duino_bus.Host.Writes.{write_all}

module _ (crc8 : Crc8) (crc_fn : List ℕ → ℕ → ℕ) (agree : Agree crc8 crc_fn) where
  module _ {W : Type 0} (write_byte : ℕ → W → Bool × W)
      (succeeds : (b : ℕ) (w : W) → (write_byte b w).0 ≡ true) where
    pub attempt-succeeds :
        (bs : List ℕ) (w : W) → attempt write_byte bs w ≡ (true, write_all write_byte bs w)
    attempt-succeeds [] w = refl
    attempt-succeeds (b ∷ bs) w =
        ap (λ ok. go_further (ok, (write_byte b w).1) (λ w'. attempt write_byte bs w'))
          (succeeds b w)
        ∙ attempt-succeeds bs (write_byte b w).1

    pub writes_frame :
        (e : HostEncoder.Encoder) (pkt : Packet) (w : W)
        → IsValid (tight pkt)
        → IsByte e.escape_char
        → (e' : HostEncoder.Encoder) × (HostEncoder.write_packet crc_fn write_byte e pkt w ≡ (
          ErrorCode.none,
          Host.calc_and_store_crc crc_fn pkt,
          e',
          write_all write_byte (frame pkt.cmd (get_data (tight pkt)) (calc_crc crc8 (tight pkt))) w,
        ))
    writes_frame e pkt w v h =
        let bs = frame pkt.cmd (get_data (tight pkt)) (calc_crc crc8 (tight pkt)) in
        let (e', writes) = attempts_tight crc8 crc_fn agree write_byte e pkt w v h in
        (
          e',
          writes
              ∙ ap (λ r. (verdict r.0, Host.calc_and_store_crc crc_fn pkt, e', r.1))
                  (attempt-succeeds bs w),
        )

    -- Where the CRC functions agree and every byte can be written, `write_packet` of the host, from any
    -- state of its encoder with a byte as the escape character, on a packet of bytes, ends with NONE and
    -- has written bytes that an idle decoder of a device with a valid packet takes with the answer NONE,
    -- if that packet has room for the data and the CRC, whatever follows: it holds the same command and
    -- data, exactly those bytes are used up, and it is idle again. The host's packet has the CRC stored.
    pub write_packet-device :
        (e : HostEncoder.Encoder) (pkt : Packet) (q : Duino.Packet) (g : Bool) (w : W)
        → IsByte e.escape_char
        → IsByte pkt.cmd
        → IsBytes pkt.bytes
        → IsValid q
        → length pkt.bytes < q.max_data_len
        → (bytes : List ℕ) × (e' : HostEncoder.Encoder) × (HostEncoder.write_packet crc_fn
              write_byte e pkt w
            ≡ (
              ErrorCode.none,
              Host.calc_and_store_crc crc_fn pkt,
              e',
              write_all write_byte bytes w,
            ))
          × ((rest : List ℕ)
              → map_run received
                  (Decoder.feed crc8 (decoder q Decoder.State.idle false g) (bytes ++ rest))
                ≡ done (
                    report Error.none
                      (record { command = pkt.cmd; capacity = q.max_data_len; bytes = pkt.bytes })
                      Decoder.State.idle
                      rest))
    write_packet-device e pkt q g w he hc hb v room =
        let fine = tight-IsValid pkt hc hb room v.small in
        let (e', writes) = writes_frame e pkt w fine he in
        (
          frame pkt.cmd (get_data (tight pkt)) (calc_crc crc8 (tight pkt)),
          e',
          writes,
          λ rest.
              feed-frame-get_data crc8 (tight pkt) q g rest fine v room
              ∙ ap
                  (λ l. done (
                    report Error.none
                      (record { command = pkt.cmd; capacity = q.max_data_len; bytes = l })
                      Decoder.State.idle rest))
                  (get_data-tight pkt),
        )
