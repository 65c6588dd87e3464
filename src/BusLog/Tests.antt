-- ===== src/BusLog/Tests.antt =====
-- The theorem on log messages at a concrete message that the packet cuts off.
use mathlib.Core.Option.{none, some}
use duino_bus.Base.{ℕ, ◌≡◌, refl, arith, List, [], ◌∷◌, ◌++◌, false, done, replicate}
use duino_bus.Crc8.Poly.{poly}
use duino_bus.Packet.{Packet, calc_crc}
use duino_bus.Packet.View.{view}
use duino_bus.Encoder
use duino_bus.Encoder.Frame.{frame}
use duino_bus.Decoder
use duino_bus.Decoder.Feed.{decoder}
use duino_bus.CorePacketHandler
use duino_bus.Bus.{Bus, Transport}
use duino_bus.Bus.Write.{write_all, sent_log}
use duino_bus.BusLog.{do_log}
use duino_bus.BusLog.Message.{text, do_log-frame}

abbrev wire : Transport (List ℕ)
wire = record { read_byte = λ w. (none, w); write_byte = λ b w. w ++ (b ∷ []); flush = λ w. w }

abbrev log_packet : Packet
log_packet = record {
  command = 0;
  max_data_len = 5;
  data_len = 0;
  storage = replicate 5 0;
  crc = 0;
}

abbrev bus : Bus
bus = record {
  rsp_packet = log_packet;
  log_packet = some log_packet;
  evt_packet = none;
  decoder = decoder log_packet Decoder.State.idle false false;
  encoder = record {
    packet = none;
    state = Encoder.State.idle;
    encode_idx = 0;
    escape_char = 0;
    debug = false;
  };
  handlers = [];
}

-- "abcd" at level 2 keeps "ab".
do_log-frame_example :
    (bus' : Bus) × (q : Packet) × (view q
      ≡ record { command = CorePacketHandler.log; capacity = 5; bytes = 2 ∷ 3 ∷ 97 ∷ 98 ∷ 0 ∷ [] })
    × (do_log poly wire bus 2 (97 ∷ 98 ∷ 99 ∷ 100 ∷ []) []
        ≡ done (
          bus',
          write_all wire (frame CorePacketHandler.log (text 2 (97 ∷ 98 ∷ [])) (calc_crc poly q)) [],
          sent_log false (record q { crc = calc_crc poly q }),
        ))
    × (bus'.log_packet ≡ some (record q { crc = calc_crc poly q }))
do_log-frame_example =
    do_log-frame poly wire bus log_packet 2 (97 ∷ 98 ∷ 99 ∷ 100 ∷ []) [] refl (omega arith)
      (omega arith) (omega arith) (omega arith)
