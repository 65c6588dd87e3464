-- ===== src/Wire.antt =====
-- A sender and a receiver with a line between them: `IBus::writePacket` of src/Bus.cpp, packet after
-- packet, at one end and the `decodeByte` of src/PacketDecoder.cpp, byte after byte, at the other, with
-- their calls interleaved in any order.
pub mod Bytes
pub mod Owed
pub mod Invariant
pub mod Delivery
mod Tests
use mathlib.Core.Option.{Option, none, some}
use duino_bus.Base.{ℕ, zero, suc, ◌≡◌, ◌≢◌, List, [], ◌∷◌, ◌++◌, done}
use duino_bus.Crc8.{Crc8}
use duino_bus.Packet.{Packet, Error, LogEvent}
use duino_bus.Packet.View.{Message, view}
use duino_bus.Encoder.{Encoder, encode_start, encode_byte}
use duino_bus.Decoder.{Decoder, decode_byte}

-- `byte` is the variable of the loop of `writePacket` while it writes a packet, `todo` the packets that
-- wait for it, `told` what each call of `writePacket` that has ended has answered, `wire` the bytes on
-- their way, oldest first, and `got` what each answer of the decoder other than NOT_DONE has given its
-- caller.
pub record Line : Type 0 where
  pub encoder : Encoder
  pub byte : Option ℕ
  pub todo : List Packet
  pub told : List Error
  pub wire : List ℕ
  pub decoder : Decoder
  pub got : List (Error × Message)

-- A call at one of the ends. A `processByte` that finds no byte changes nothing and is no step.
pub data Step (crc8 : Crc8) (s : Line) : Line → Type 0 where
  -- `encodeStart`, with anything in the variable
  starts :
      {p : Packet} {ps : List Packet} (x : ℕ)
      → s.byte ≡ none
      → s.todo ≡ p ∷ ps
      → Step crc8 s
          (record s { encoder = (encode_start crc8 s.encoder p).1; byte = some x; todo = ps })
  -- A round of the loop, and its end.
  writes :
      {x b : ℕ} {e : Encoder}
      → s.byte ≡ some x
      → encode_byte crc8 s.encoder x ≡ done (Error.not_done, b, e)
      → Step crc8 s (record s { encoder = e; byte = some b; wire = s.wire ++ (b ∷ []) })
  ends :
      {x b : ℕ} {err : Error} {e : Encoder}
      → s.byte ≡ some x
      → encode_byte crc8 s.encoder x ≡ done (err, b, e)
      → err ≢ Error.not_done
      → Step crc8 s (record s {
        encoder = e;
        byte = none;
        told = s.told ++ (err ∷ []);
        wire = s.wire ++ (b ∷ []);
      })
  -- A call of the decoder that wants more bytes, and one that does not.
  reads :
      {b : ℕ} {bs : List ℕ} {d : Decoder} {logged : List LogEvent}
      → s.wire ≡ b ∷ bs
      → decode_byte crc8 s.decoder b ≡ done (Error.not_done, d, logged)
      → Step crc8 s (record s { wire = bs; decoder = d })
  answers :
      {b : ℕ} {bs : List ℕ} {err : Error} {d : Decoder} {logged : List LogEvent}
      → s.wire ≡ b ∷ bs
      → decode_byte crc8 s.decoder b ≡ done (err, d, logged)
      → err ≢ Error.not_done
      → Step crc8 s
          (record s { wire = bs; decoder = d; got = s.got ++ ((err, view d.packet) ∷ []) })

-- Nothing is on its way and nothing has been received.
abbrev pub start : Encoder → List Packet → Decoder → Line
start e ps d = record {
  encoder = e;
  byte = none;
  todo = ps;
  told = [];
  wire = [];
  decoder = d;
  got = [];
}

-- Reached in a number of steps.
pub data Reach (crc8 : Crc8) (origin : Line) : ℕ → Line → Type 0 where
  here : Reach crc8 origin 0 origin
  later : {n : ℕ} {s t : Line} → Reach crc8 origin n s → Step crc8 s t → Reach crc8 origin (suc n) t
