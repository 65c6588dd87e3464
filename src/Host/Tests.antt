-- ===== src/Host/Tests.antt =====
-- The two sides at concrete inputs, with the polynomial 0x07 on both.
use mathlib.Core.Option.{none}
use duino_bus.Base.{
  ℕ, ◌≡◌, refl, arith, List, [], ◌∷◌, ◌++◌, Bool, true, false, done, abort, map_run, replicate,
  IsBytes,
}
use duino_bus.Crc8.Poly.{poly}
use duino_bus.Packet as Duino
use duino_bus.Packet.{Error, LogEvent}
use duino_bus.Encoder
use duino_bus.Decoder
use duino_bus.Decoder.Safe.{IsSound}
use duino_bus.Decoder.Feed.{decoder}
use duino_bus.Decoder.Frames.{received, report}
use duino_bus.Bus.{Transport, write_packet}
use duino_bus.Bus.Write as Device
use duino_bus.Host
use duino_bus.Host.{ErrorCode, Packet}
use duino_bus.Host.Decoder as HostDecoder
use duino_bus.Host.Encoder as HostEncoder
use duino_bus.Host.Poly.{crc_fn, poly-Agree}
use duino_bus.Host.Twins.{twin}
use duino_bus.Host.Decodes.{stopped, twin_stopped, feed-twin}
use duino_bus.Host.Reads.{write_packet-host}
use duino_bus.Host.Writes.{write_all}
use duino_bus.Host.Sends.{write_packet-device}

-- The number 10, behind the last name, raises an exception.
no_name : Host.as_str 10 ≡ abort
unfolding Host.as_str
no_name = refl

abbrev fresh : Packet
fresh = record { cmd = 0; bytes = []; crc = 0 }

-- After the frame c0 01 08 c0, whose CRC is wrong, the host's decoder takes the frame c0 02 0e c0.
abbrev host_after_crc_error : HostDecoder.Decoder
host_after_crc_error = record {
  packet = record { cmd = 1; bytes = []; crc = 8 };
  state = HostDecoder.State.idle;
  escape = false;
  debug = false;
}

host_wrong_crc :
    HostDecoder.feed crc_fn (HostDecoder.init fresh) (0xc0 ∷ 0x01 ∷ 0x08 ∷ 0xc0 ∷ [])
    ≡ done (ErrorCode.crc, host_after_crc_error, [])
unfolding HostDecoder.init HostDecoder.feed HostDecoder.decode_byte HostDecoder.dispatch
    HostDecoder.decode_byte_idle HostDecoder.decode_byte_command HostDecoder.decode_byte_data
    HostDecoder.check_crc HostDecoder.unescape Host.set_data Host.set_command Host.append_byte
    Host.extract_crc Host.calc_crc Duino.View.unsnoc
host_wrong_crc = refl

host_goes_on :
    map_run stopped (HostDecoder.feed crc_fn host_after_crc_error (0xc0 ∷ 0x02 ∷ 0x0e ∷ 0xc0 ∷ []))
    ≡ done (
      ErrorCode.none,
      record { cmd = 2; bytes = []; state = HostDecoder.State.idle; escape = false },
      [],
    )
unfolding HostDecoder.feed HostDecoder.decode_byte HostDecoder.dispatch HostDecoder.decode_byte_idle
    HostDecoder.decode_byte_command HostDecoder.decode_byte_data HostDecoder.check_crc
    HostDecoder.unescape Host.set_data Host.set_command Host.append_byte Host.extract_crc
    Host.calc_crc Duino.View.unsnoc
host_goes_on = refl

abbrev roomy : Duino.Packet
roomy = record { command = 0; max_data_len = 256; data_len = 0; storage = replicate 256 0; crc = 0 }

roomy-IsSound : IsSound (decoder roomy Decoder.State.idle false false)
roomy-IsSound = record { valid = omega arith; named = tt }

abbrev stream : List ℕ
stream = 0xc0 ∷ 0x01 ∷ 0xdb ∷ 0xdc ∷ 0x08 ∷ 0xc0 ∷ 0xc0 ∷ []

feed-twin_example :
    map_run stopped
      (HostDecoder.feed crc_fn (twin 0 true (decoder roomy Decoder.State.idle false false)) stream)
    ≡ map_run twin_stopped (Decoder.feed poly (decoder roomy Decoder.State.idle false false) stream)
feed-twin_example =
    feed-twin poly crc_fn poly-Agree (decoder roomy Decoder.State.idle false false) 0 true stream
      roomy-IsSound refl (omega arith)

abbrev wire : Transport (List ℕ)
wire = record { read_byte = λ w. (none, w); write_byte = λ b w. w ++ (b ∷ []); flush = λ w. w }

abbrev encoder : Encoder.Encoder
encoder = record {
  packet = none;
  state = Encoder.State.idle;
  encode_idx = 0;
  escape_char = 0;
  debug = false;
}

abbrev two_bytes : Duino.Packet
two_bytes = record {
  command = 9;
  max_data_len = 3;
  data_len = 2;
  storage = 0xc0 ∷ 3 ∷ 0 ∷ [];
  crc = 0;
}

write_packet-host_example :
    (bytes : List ℕ) × (e : Encoder.Encoder) × (logged : List LogEvent) × (write_packet poly wire
        encoder two_bytes []
      ≡ done (
        Error.none,
        record two_bytes { crc = Duino.calc_crc poly two_bytes },
        e,
        Device.write_all wire bytes [],
        logged,
      ))
    × ((rest : List ℕ)
        → IsBytes rest
        → map_run stopped (HostDecoder.feed crc_fn (HostDecoder.init fresh) (bytes ++ rest))
          ≡ done (
            ErrorCode.none,
            record {
              cmd = 9;
              bytes = 0xc0 ∷ 3 ∷ [];
              state = HostDecoder.State.idle;
              escape = false;
            },
            rest,
          ))
write_packet-host_example =
    write_packet-host poly crc_fn poly-Agree wire encoder two_bytes fresh [] (omega arith)
      (omega arith) (omega arith) tt (omega arith)

abbrev keep : ℕ → List ℕ → Bool × List ℕ
keep b w = (true, w ++ (b ∷ []))

abbrev host_encoder : HostEncoder.Encoder
host_encoder = record {
  packet = fresh;
  state = HostEncoder.State.idle;
  encode_idx = 0;
  escape_char = 0;
  debug = false;
}

abbrev request : Packet
request = record { cmd = 0xdb; bytes = 0xc0 ∷ 7 ∷ []; crc = 0 }

write_packet-device_example :
    (bytes : List ℕ) × (e : HostEncoder.Encoder) × (HostEncoder.write_packet crc_fn keep
        host_encoder request []
      ≡ (ErrorCode.none, Host.calc_and_store_crc crc_fn request, e, write_all keep bytes []))
    × ((rest : List ℕ)
        → map_run received
            (Decoder.feed poly (decoder roomy Decoder.State.idle false false) (bytes ++ rest))
          ≡ done (
              report Error.none
                (record { command = 0xdb; capacity = 256; bytes = 0xc0 ∷ 7 ∷ [] })
                Decoder.State.idle
                rest))
write_packet-device_example =
    write_packet-device poly crc_fn poly-Agree keep (λ b w. refl) host_encoder request roomy false
      [] (omega arith) (omega arith) (omega arith) (omega arith) (omega arith)
