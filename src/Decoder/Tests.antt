-- ===== src/Decoder/Tests.antt =====
-- The theorems on the decoder at concrete inputs, and runs of tests/PacketDecoderTest.cpp.
use duino_bus.Base.{
  IsBytes, ℕ, ◌<◌, ◌≤◌, length, ◌≡◌, refl, arith, List, [], ◌∷◌, ◌++◌, false, done, map_run, inl,
  replicate,
}
use duino_bus.Crc8.Poly.{poly}
use duino_bus.Packet.{
  Packet, Error, LogEvent, set_command, set_data, append_byte, extract_crc, calc_crc, end_byte,
  get_data,
}
use duino_bus.Packet.Bounds.{IsValid}
use duino_bus.Encoder.Frame.{frame, escape_all}
use duino_bus.Decoder.{
  Decoder, State, unescape, begin_packet, store_byte, check_crc, end_packet, switch, decode_byte,
  feed,
}
use duino_bus.Decoder.Feed.{decoder}
use duino_bus.Decoder.Frames.{received, report, verdict, feed-frame, feed_too_big}
use duino_bus.Decoder.Safe.{IsSound, Left, feed-Left}
use duino_bus.Decoder.Stream.{decode_all}
use duino_bus.Decoder.Recovery.{decode_all-recovers}
use duino_bus.Decoder.Sync.{feed_lead_in, decode_byte_error}
use duino_bus.Decoder.Lost.{receive, Keeps, receive-Keeps}

abbrev fresh : Packet
fresh = record { command = 0; max_data_len = 15; data_len = 0; storage = replicate 15 0; crc = 0 }

abbrev test_decoder : Decoder
test_decoder = decoder fresh State.idle false false

two_bytes :
    map_run received (feed poly test_decoder (0xc0 ∷ 0x01 ∷ 0x02 ∷ 0x03 ∷ 0x48 ∷ 0xc0 ∷ []))
    ≡ done (
        report Error.none (record { command = 1; capacity = 15; bytes = 2 ∷ 3 ∷ [] }) State.idle [])
unfolding feed decode_byte switch begin_packet store_byte end_packet check_crc set_command set_data
    append_byte extract_crc calc_crc unescape
two_bytes = refl

escaped_end :
    map_run received (feed poly test_decoder (0xc0 ∷ 0x01 ∷ 0xdb ∷ 0xdc ∷ 0x03 ∷ 0x8f ∷ 0xc0 ∷ []))
    ≡ done (
        report Error.none
          (record { command = 1; capacity = 15; bytes = 0xc0 ∷ 3 ∷ [] })
          State.idle
          [])
unfolding feed decode_byte switch begin_packet store_byte end_packet check_crc set_command set_data
    append_byte extract_crc calc_crc unescape
escaped_end = refl

-- The decoder after the frame c0 01 08 c0, whose CRC is wrong.
abbrev after_crc_error : Decoder
after_crc_error =
    decoder
      (record {
        command = 1;
        max_data_len = 15;
        data_len = 0;
        storage = 8 ∷ replicate 14 0;
        crc = 8;
      })
      State.payload false false

wrong_crc :
    feed poly test_decoder (0xc0 ∷ 0x01 ∷ 0x08 ∷ 0xc0 ∷ []) ≡ done (Error.crc, after_crc_error, [])
unfolding feed decode_byte switch begin_packet store_byte end_packet check_crc set_command set_data
    append_byte extract_crc calc_crc unescape
wrong_crc = refl

-- The valid frame c0 02 0e c0 that follows is not received: TOO_SMALL, then CRC.
good_frame_lost :
    feed poly after_crc_error (0xc0 ∷ 0x02 ∷ 0x0e ∷ 0xc0 ∷ [])
    ≡ done (Error.too_small, after_crc_error, 0x02 ∷ 0x0e ∷ 0xc0 ∷ [])
unfolding feed decode_byte switch begin_packet store_byte end_packet check_crc set_command set_data
    append_byte extract_crc calc_crc unescape
good_frame_lost = refl

fresh-IsValid : IsValid fresh
fresh-IsValid = omega arith

test_decoder-IsSound : IsSound test_decoder
test_decoder-IsSound = record { valid = fresh-IsValid; named = tt }

abbrev mixed_stream : List ℕ
mixed_stream = 0x55 ∷ 0xc0 ∷ 0xc0 ∷ 0x01 ∷ 0xdb ∷ 0x07 ∷ []

feed-Left_example :
    (r : Error × Decoder × List ℕ) × (feed poly test_decoder mixed_stream ≡ done r)
    × Left test_decoder mixed_stream r
feed-Left_example = feed-Left poly test_decoder mixed_stream test_decoder-IsSound (omega arith)

feed-frame_example :
    map_run received (feed poly test_decoder (frame 1 (0xc0 ∷ 3 ∷ []) 0x8f ++ (9 ∷ [])))
    ≡ done
        (verdict poly (record { command = 1; capacity = 15; bytes = 0xc0 ∷ 3 ∷ [] }) 0x8f (9 ∷ []))
feed-frame_example =
    feed-frame poly false fresh 1 (0xc0 ∷ 3 ∷ []) 0x8f (9 ∷ []) fresh-IsValid (omega arith)
      (omega arith) (omega arith) (omega arith)

abbrev small : Packet
small = record { command = 0; max_data_len = 2; data_len = 0; storage = 0 ∷ 0 ∷ []; crc = 0 }

feed_too_big_example :
    map_run received
      (feed poly (decoder small State.idle false false) (frame 1 (2 ∷ 3 ∷ []) 0x48 ++ []))
    ≡ done (
        report Error.too_much_data
          (record { command = 1; capacity = 2; bytes = 2 ∷ 3 ∷ [] })
          State.payload
          (0xc0 ∷ []))
unfolding escape_all
feed_too_big_example =
    feed_too_big poly false small 1 (2 ∷ 3 ∷ []) 0x48 (2 ∷ 3 ∷ []) 0x48 [] [] (omega arith)
      (omega arith) (omega arith) refl refl

feed_lead_in_example :
    feed poly test_decoder ((0xaa ∷ 0xbb ∷ []) ++ (replicate 3 end_byte ++ (frame 1 [] 7 ++ [])))
    ≡ feed poly test_decoder (frame 1 [] 7 ++ [])
feed_lead_in_example = feed_lead_in poly false fresh (0xaa ∷ 0xbb ∷ []) 3 1 [] 7 [] (omega arith)

abbrev before_crc_error : Decoder
before_crc_error =
    decoder
      (record {
        command = 1;
        max_data_len = 15;
        data_len = 1;
        storage = 8 ∷ replicate 14 0;
        crc = 0;
      })
      State.payload false false

decode_byte_error_example :
    (before_crc_error.state ≡ State.payload)
    × (after_crc_error.state ≡ State.payload)
    × (after_crc_error.packet.command ≡ before_crc_error.packet.command)
unfolding decode_byte switch end_packet check_crc extract_crc calc_crc
decode_byte_error_example =
    decode_byte_error poly before_crc_error after_crc_error 0xc0 Error.crc
      (LogEvent.crc_error 8 7 ∷ []) refl (inl refl)

after_crc_error-IsSound : IsSound after_crc_error
after_crc_error-IsSound = record { valid = omega arith; named = tt }

-- The frame behind the error is not received.
receive-Keeps_example :
    (r : Error × Decoder × List ℕ) × (receive poly after_crc_error (0xc0 ∷ 0x02 ∷ 0x0e ∷ 0xc0 ∷ [])
      ≡ done r)
    × Keeps poly 1 r
receive-Keeps_example =
    receive-Keeps poly after_crc_error (0xc0 ∷ 0x02 ∷ 0x0e ∷ 0xc0 ∷ []) after_crc_error-IsSound
      (omega arith) refl

decode_all-recovers_example :
    (bytes : List ℕ) × (d' : Decoder) × IsBytes bytes
    × (length bytes ≤ 6)
    × (decode_all poly after_crc_error bytes ≡ done d')
    × IsSound d'
    × ((p : Packet)
        → IsValid p
        → p.data_len < 15
        → map_run received (feed poly d' (frame p.command (get_data p) (calc_crc poly p)))
          ≡ done (
              report Error.none
                (record { command = p.command; capacity = 15; bytes = get_data p })
                State.idle
                []))
decode_all-recovers_example =
    decode_all-recovers poly after_crc_error after_crc_error-IsSound (omega arith)
