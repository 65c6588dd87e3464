-- ===== src/Host/Tight.antt =====
-- The host's packet and encoder as a device has them: what `encode_start` of both sides leaves.
use mathlib.Core.Option.{none}
use duino_bus.Base.{
  ℕ, ◌<◌, ◌≡◌, sym, ap, ◌∙◌, arith, List, [], append-nil, take, length, IsByte, IsBytes,
}
use duino_bus.Crc8.{Crc8}
use duino_bus.Packet as Duino
use duino_bus.Packet.{Error, get_data, calc_crc}
use duino_bus.Packet.Bounds.{IsValid, max_object}
use duino_bus.Encoder
use duino_bus.Host
use duino_bus.Host.{ErrorCode, Packet}
use duino_bus.Host.Encoder as HostEncoder
use duino_bus.Host.Twins.{Agree}
use duino_bus.Host.Reads.{take-length}
use duino_bus.Host.Writes.{encoder_twin, calc_crc-twin}

-- A packet of a device with the same command and data, and no more room.
abbrev pub tight : Packet → Duino.Packet
tight pkt = record {
  command = pkt.cmd;
  max_data_len = length pkt.bytes;
  data_len = length pkt.bytes;
  storage = pkt.bytes;
  crc = 0;
}

pub get_data-tight : (pkt : Packet) → get_data (tight pkt) ≡ pkt.bytes
get_data-tight pkt =
    ap (take (length pkt.bytes)) (sym (append-nil pkt.bytes)) ∙ take-length pkt.bytes []

pub tight-IsValid :
    {n : ℕ} (pkt : Packet)
    → IsByte pkt.cmd
    → IsBytes pkt.bytes
    → length pkt.bytes < n
    → n < max_object
    → IsValid (tight pkt)
tight-IsValid pkt hc hb room small = record {
  fits = omega arith;
  room = omega arith;
  small = omega arith;
  command_byte = hc;
  crc_byte = omega arith;
  bytes = hb;
}

-- A device's encoder with the same index, escape character and debug flag.
abbrev pub beside : HostEncoder.Encoder → Encoder.Encoder
beside e = record {
  packet = none;
  state = Encoder.State.idle;
  encode_idx = e.encode_idx;
  escape_char = e.escape_char;
  debug = e.debug;
}

module _ (crc8 : Crc8) (crc_fn : List ℕ → ℕ → ℕ) (agree : Agree crc8 crc_fn) where
  pub calc_crc-tight :
      (pkt : Packet) → IsValid (tight pkt) → Host.calc_crc crc_fn pkt ≡ calc_crc crc8 (tight pkt)
  unfolding Host.calc_crc
  calc_crc-tight pkt v =
      ap (λ l. Host.calc_crc crc_fn (record pkt { bytes = l })) (sym (get_data-tight pkt))
      ∙ calc_crc-twin crc8 crc_fn agree (tight pkt) v

  pub encode_start-twin :
      (e : HostEncoder.Encoder) (pkt : Packet)
      → IsValid (tight pkt)
      → (HostEncoder.encode_start crc_fn e pkt).1
        ≡ encoder_twin
            (Encoder.encode_start crc8 (beside e) (tight pkt)).0
            (Encoder.encode_start crc8 (beside e) (tight pkt)).1
  unfolding HostEncoder.encode_start Encoder.encode_start Host.calc_and_store_crc
      Duino.calc_and_store_crc Host.calc_crc
  encode_start-twin e pkt v = λ i. record e {
    packet = record {
      cmd = pkt.cmd;
      bytes = sym (get_data-tight pkt) i;
      crc = calc_crc-tight pkt v i;
    };
    state = HostEncoder.State.idle;
  }
