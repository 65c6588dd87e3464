-- ===== src/Host/Decodes.antt =====
-- The decoders of the two sides on a stream.
use duino_bus.Base.{
  ℕ, ◌≡◌, refl, ap, ◌∙◌, List, [], ◌∷◌, Bool, Run, done, map_run, map_run-eq-done, IsBytes,
}
use duino_bus.Crc8.{Crc8}
use duino_bus.Packet.{Error}
use duino_bus.Decoder
use duino_bus.Decoder.Feed
use duino_bus.Decoder.{Reply}
use duino_bus.Decoder.Safe.{IsSound, decode_byte-IsGood}
use duino_bus.Host
use duino_bus.Host.{ErrorCode}
use duino_bus.Host.Decoder as HostDecoder
use duino_bus.Host.Alike.{decode_byte-twin}
use duino_bus.Host.Twins.{Agree, Sight, code, sight, twin_sight, twin}

-- What a caller sees at the first answer.
abbrev pub stopped : ErrorCode × HostDecoder.Decoder × List ℕ → ErrorCode × Sight × List ℕ
stopped (err, h, rest) = let (e, s) = sight (err, h) in (e, s, rest)

abbrev pub twin_stopped : Error × Decoder.Decoder × List ℕ → ErrorCode × Sight × List ℕ
twin_stopped (err, d, rest) = let (e, s) = twin_sight (err, d, []) in (e, s, rest)

module _ (crc8 : Crc8) (crc_fn : List ℕ → ℕ → ℕ) (agree : Agree crc8 crc_fn) where
  -- What the host's caller does with an answer.
  abbrev host_after :
      ErrorCode × HostDecoder.Decoder → List ℕ → Run (ErrorCode × HostDecoder.Decoder × List ℕ)
  host_after (err, h) bs = elim err [
    | ErrorCode.not_done ↦ HostDecoder.feed crc_fn h bs
    | ended ↦ done (ended, h, bs)
  ]

  -- A decoder of a device, with a valid packet of the host's capacity and a state of the
  -- enumeration, and one of the host stand alike, and the CRC functions agree. On the same stream
  -- of bytes the first answers other than NOT_DONE are the same, and so are the command, the data,
  -- the escape flag and the bytes left behind them; the states as well, but the host is idle after
  -- a wrong CRC and in STATE_COMMAND after a packet that is too small.
  pub feed-twin :
      (d : Decoder.Decoder) (crc : ℕ) (debug : Bool) (bs : List ℕ)
      → IsSound d
      → d.packet.max_data_len ≡ Host.max_data_len
      → IsBytes bs
      → map_run stopped (HostDecoder.feed crc_fn (twin crc debug d) bs)
        ≡ map_run twin_stopped (Decoder.feed crc8 d bs)
  unfolding HostDecoder.feed Decoder.feed
  feed-twin d crc debug [] h capacity bytes = refl
  feed-twin d crc debug (b ∷ bs) h capacity bytes =
      let (reply, decodes, good) = decode_byte-IsGood crc8 d b h bytes.0 in
      let (here, decodes', same) =
        map_run-eq-done sight (HostDecoder.decode_byte crc_fn (twin crc debug d) b) (
          decode_byte-twin crc8 crc_fn d crc b debug agree h.valid capacity
          ∙ ap (map_run twin_sight) decodes) in
      rw (decodes, decodes')
        (answered reply here same (λ crc' debug'.
          feed-twin reply.1 crc' debug' bs good.sound (good.capacity ∙ capacity) bytes.1))
    where
      answered :
          (reply : Reply) (here : ErrorCode × HostDecoder.Decoder)
          → sight here ≡ twin_sight reply
          → ((crc' : ℕ) (debug' : Bool)
              → map_run stopped (HostDecoder.feed crc_fn (twin crc' debug' reply.1) bs)
                ≡ map_run twin_stopped (Decoder.feed crc8 reply.1 bs))
          → map_run stopped (host_after here bs)
            ≡ map_run twin_stopped (Decoder.Feed.after crc8 reply bs)
      answered (Error.not_done, d1, logged) (err', h') same later =
          ap (λ x. map_run stopped (host_after x bs))
            (λ i. (
              (same i).0,
              record {
                packet = record {
                  cmd = (same i).1.cmd;
                  bytes = (same i).1.bytes;
                  crc = h'.packet.crc;
                };
                state = (same i).1.state;
                escape = (same i).1.escape;
                debug = h'.debug;
              },
            ))
          ∙ later h'.packet.crc h'.debug
      answered (err, d1, logged) (err', h') same later =
          ap (λ x. map_run stopped (host_after (x, h') bs)) (λ i. (same i).0)
          ∙ (λ i. done (code err, (same i).1, bs))
