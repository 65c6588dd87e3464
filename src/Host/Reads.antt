-- ===== src/Host/Reads.antt =====
-- What a device writes, at the host's decoder.
use duino_bus.Base.{
  ℕ, ◌≤◌, ◌<◌, ◌≡◌, refl, sym, ap, ◌∙◌, arith, List, [], ◌∷◌, ◌++◌, take, replicate, length,
  length-append, Bool, false, ==_refl, done, map_run, map_run-eq-done, IsByte, IsBytes,
  append-IsBytes,
}
use duino_bus.Crc8.{Crc8}
use duino_bus.Packet as Duino
use duino_bus.Packet.{Error, LogEvent, get_data, calc_crc}
use duino_bus.Packet.Bounds.{IsValid, calc_crc-IsByte}
use duino_bus.Packet.View.{get_data-IsBytes, length-get_data}
use duino_bus.Encoder.{Encoder}
use duino_bus.Encoder.Frame.{frame, frame-IsBytes}
use duino_bus.Decoder
use duino_bus.Decoder.Feed.{decoder}
use duino_bus.Decoder.Frames.{Received, received, verdict, crc_of, feed-frame}
use duino_bus.Bus.{Transport, write_packet}
use duino_bus.Bus.Write.{write_all, write_packet-frame, sent_log}
use duino_bus.Host
use duino_bus.Host.{ErrorCode, Packet}
use duino_bus.Host.Decoder as HostDecoder
use duino_bus.Host.Twins.{Agree, Sight, code, state_of, settle}
use duino_bus.Host.Decodes.{stopped, twin_stopped, feed-twin}

-- A packet of a device with the same command and data, which has room for a packet of the host.
abbrev in_memory : Packet → Duino.Packet
in_memory pkt = record {
  command = pkt.cmd;
  max_data_len = Host.max_data_len;
  data_len = length pkt.bytes;
  storage = pkt.bytes ++ replicate 256 0;
  crc = 0;
}

pub take-length : (xs ys : List ℕ) → take (length xs) (xs ++ ys) ≡ xs
take-length [] ys = refl
take-length (x ∷ xs) ys = ap (λ l. x ∷ l) (take-length xs ys)

in_memory-IsValid :
    (pkt : Packet)
    → IsByte pkt.cmd
    → IsBytes pkt.bytes
    → length pkt.bytes ≤ Host.max_data_len
    → IsValid (in_memory pkt)
in_memory-IsValid pkt hc hb room = record {
  fits = room;
  room = omega (arith, length-append pkt.bytes (replicate 256 0));
  small = omega arith;
  command_byte = hc;
  crc_byte = omega arith;
  bytes = append-IsBytes pkt.bytes (replicate 256 0) hb (omega arith);
}

-- The host's view of what a device has received.
abbrev pub seen_there : Received → ErrorCode × Sight × List ℕ
seen_there r = (
  code r.error,
  record {
    cmd = r.message.command;
    bytes = r.message.bytes;
    state = settle r.error (state_of r.state);
    escape = r.escape;
  },
  r.rest,
)

seen_there-received :
    (r : Error × Decoder.Decoder × List ℕ) → twin_stopped r ≡ seen_there (received r)
seen_there-received (err, d, rest) = refl

module _ (crc8 : Crc8) (crc_fn : List ℕ → ℕ → ℕ) (agree : Agree crc8 crc_fn) where
  -- An idle decoder of the host on a frame with any CRC byte.
  pub host_frame :
      (pkt : Packet) (g : Bool) (cmd : ℕ) (bytes : List ℕ) (c : ℕ) (rest : List ℕ)
      → IsByte pkt.cmd
      → IsBytes pkt.bytes
      → length pkt.bytes ≤ Host.max_data_len
      → IsByte cmd
      → IsBytes bytes
      → IsByte c
      → length bytes < Host.max_data_len
      → IsBytes rest
      → map_run stopped (
          HostDecoder.feed crc_fn
            (record (HostDecoder.init pkt) { debug = g })
            (frame cmd bytes c ++ rest))
        ≡ done (
            seen_there (
              verdict crc8
                (record { command = cmd; capacity = Host.max_data_len; bytes = bytes })
                c
                rest))
  unfolding HostDecoder.init
  host_frame pkt g cmd bytes c rest hc hb few hcmd hbytes hcrc room hrest =
      let q = in_memory pkt in
      let w = in_memory-IsValid pkt hc hb few in
      let (r, ends, same) =
        map_run-eq-done received (Decoder.feed crc8 (decoder q Decoder.State.idle false g) stream)
          (feed-frame crc8 g q cmd bytes c rest w hcmd hbytes hcrc room) in
      ap
        (λ l. map_run stopped (
          HostDecoder.feed crc_fn
            (record (HostDecoder.init (record pkt { bytes = l })) { debug = g }) stream))
        (sym (take-length pkt.bytes (replicate 256 0)))
      ∙ feed-twin crc8 crc_fn agree (decoder q Decoder.State.idle false g) pkt.crc g stream
          (record { valid = w; named = tt }) refl
          (append-IsBytes (frame cmd bytes c) rest (frame-IsBytes cmd bytes c hcmd hbytes hcrc)
            hrest)
      ∙ ap (map_run twin_stopped) ends
      ∙ ap done (seen_there-received r ∙ ap seen_there same)
    where
      stream : List ℕ
      stream = frame cmd bytes c ++ rest

  host_takes :
      (pkt : Packet) (p : Duino.Packet) (rest : List ℕ)
      → IsByte pkt.cmd
      → IsBytes pkt.bytes
      → length pkt.bytes ≤ Host.max_data_len
      → IsValid p
      → p.data_len < Host.max_data_len
      → IsBytes rest
      → map_run stopped (
          HostDecoder.feed crc_fn
            (HostDecoder.init pkt)
            (frame p.command (get_data p) (calc_crc crc8 p) ++ rest))
        ≡ done (
          ErrorCode.none,
          record {
            cmd = p.command;
            bytes = get_data p;
            state = HostDecoder.State.idle;
            escape = false;
          },
          rest,
        )
  unfolding HostDecoder.init calc_crc
  host_takes pkt p rest hc hb few v room bytes =
      host_frame pkt false p.command (get_data p) (calc_crc crc8 p) rest hc hb few v.command_byte
        (get_data-IsBytes v) (calc_crc-IsByte crc8 p) (omega (arith, length-get_data v)) bytes
      ∙ rw (==_refl (crc_of crc8 p.command (get_data p)))

  -- Where the CRC functions agree, the bytes that `writePacket` of a device hands to its transport for a
  -- valid packet with fewer than 256 bytes of data, in order, before one flush, are what a new decoder of
  -- the host, on a packet with at most 256 bytes of data, takes with the answer NONE, whatever bytes
  -- follow: it is idle again and holds the same command and data, and exactly those bytes are used up.
  -- The device answers NONE and has stored the CRC.
  pub write_packet-host :
      {W : Type 0} (transport : Transport W) (e : Encoder) (p : Duino.Packet) (pkt : Packet) (w : W)
      → IsValid p
      → p.data_len < Host.max_data_len
      → IsByte pkt.cmd
      → IsBytes pkt.bytes
      → length pkt.bytes ≤ Host.max_data_len
      → (bytes : List ℕ) × (e' : Encoder) × (logged : List LogEvent) × (write_packet crc8 transport
            e p w
          ≡ done (
            Error.none,
            record p { crc = calc_crc crc8 p },
            e',
            transport.flush (write_all transport bytes w),
            logged,
          ))
        × ((rest : List ℕ)
            → IsBytes rest
            → map_run stopped (HostDecoder.feed crc_fn (HostDecoder.init pkt) (bytes ++ rest))
              ≡ done (
                ErrorCode.none,
                record {
                  cmd = p.command;
                  bytes = get_data p;
                  state = HostDecoder.State.idle;
                  escape = false;
                },
                rest,
              ))
  write_packet-host transport e p pkt w v room hc hb few =
      let (e', writes, at_idle, same) = write_packet-frame transport crc8 e p w v in
      (
        frame p.command (get_data p) (calc_crc crc8 p),
        e',
        sent_log e.debug (record p { crc = calc_crc crc8 p }),
        writes,
        λ rest h. host_takes pkt p rest hc hb few v room h,
      )
