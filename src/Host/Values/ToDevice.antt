-- ===== src/Host/Values/ToDevice.antt =====
-- What the host packs and sends, a device unpacks.
use mathlib.Core.Path.{subst}
use mathlib.Core.Option.{some}
use duino_bus.Base.{
  ℕ, ◌<◌, ◌≡◌, ◌≢◌, sym, ap, ◌∙◌, arith, List, [], ◌∷◌, ◌++◌, append-nil, Bool, true, done, length,
  length-append, All, IsByte, IsBytes, append-IsBytes,
}
use duino_bus.Crc8.{Crc8}
use duino_bus.Words.{le_bytes-IsBytes}
use duino_bus.Packet.{Error, get_data}
use duino_bus.Packet.Bounds.{max_object}
use duino_bus.Decoder
use duino_bus.Unpacker
use duino_bus.Unpacker.Laws.{left, init-IsSound}
use duino_bus.Values as Device
use duino_bus.Values.RoundTrip.{image, images, unpack_all-images, IsPackable as Fits}
use duino_bus.Wire.Owed.{IsResting, takes_frame}
use duino_bus.Host
use duino_bus.Host.{ErrorCode, Packet}
use duino_bus.Host.Encoder as HostEncoder
use duino_bus.Host.Twins.{Agree}
use duino_bus.Host.Writes.{write_all}
use duino_bus.Host.Tight.{tight, tight-IsValid, get_data-tight}
use duino_bus.Host.Sends.{writes_frame}
use duino_bus.Host.Values.{Value, IsPackable, in_device, all_in_device, pack_all}
use duino_bus.Host.Values.Bytes.{pack_all-images}

pub ascii-IsBytes :
    (chars : List ℕ) → All (λ c. (0 < c) × (c < 128)) chars → IsBytes chars × All (λ c. c ≢ 0) chars
ascii-IsBytes [] h = (tt, tt)
ascii-IsBytes (c ∷ chars) h =
    let (bytes, no_null) = ascii-IsBytes chars h.1 in
    ((omega arith, bytes), ((λ e. omega arith), no_null))

-- A value that is short enough can be packed by a device, and its bytes are bytes.
in_device-Fits :
    (v : Value)
    → IsPackable v
    → length (image (in_device v)) < max_object
    → Fits (in_device v) × IsBytes (image (in_device v))
in_device-Fits (Value.u8 x) h small =
    (record { small = small; bytes = le_bytes-IsBytes 1 x }, le_bytes-IsBytes 1 x)
in_device-Fits (Value.u16 x) h small =
    (record { small = small; bytes = le_bytes-IsBytes 2 x }, le_bytes-IsBytes 2 x)
in_device-Fits (Value.u32 x) h small =
    (record { small = small; bytes = le_bytes-IsBytes 4 x }, le_bytes-IsBytes 4 x)
in_device-Fits (Value.buffer bytes) h small = (record { small = small; bytes = h }, h)
in_device-Fits (Value.string chars) h small =
    let (bytes, no_null) = ascii-IsBytes chars h.0 in
    ((bytes, h.1, no_null), (omega arith, append-IsBytes chars (0 ∷ []) bytes (omega arith)))

pub all_in_device-Fits :
    (vs : List Value)
    → All IsPackable vs
    → length (images (all_in_device vs)) < max_object
    → All Fits (all_in_device vs) × IsBytes (images (all_in_device vs))
all_in_device-Fits [] h small = (tt, tt)
all_in_device-Fits (v ∷ vs) h small =
    let sized = length-append (image (in_device v)) (images (all_in_device vs)) in
    let (fits, bytes) = in_device-Fits v h.0 (omega arith) in
    let (fits', bytes') = all_in_device-Fits vs h.1 (omega arith) in
    ((fits, fits'), append-IsBytes (image (in_device v)) (images (all_in_device vs)) bytes bytes')

-- Where the CRC functions agree and every byte can be written: values that the host packs into a packet
-- and sends with `write_packet` (numbers of their width, bytes, and ASCII strings of at most 254
-- characters and without a null), to a device with an idle decoder, no escape pending and a valid packet
-- that has room for them and the CRC. `write_packet` ends with NONE; the decoder takes exactly the bytes
-- written, whatever follows, answers NONE and holds the command; and an unpacker of its packet, asked for
-- these values in order, gives back exactly these values and has nothing left.
pub unpack_all-write_packet :
    (crc8 : Crc8) (crc_fn : List ℕ → ℕ → ℕ) (agree : Agree crc8 crc_fn) {W : Type 0}
    (write_byte : ℕ → W → Bool × W) (succeeds : (b : ℕ) (w : W) → (write_byte b w).0 ≡ true)
    (capacity cmd crc : ℕ) (vs : List Value) (e : HostEncoder.Encoder) (d : Decoder.Decoder) (w : W)
    (rest : List ℕ)
    → IsByte e.escape_char
    → IsByte cmd
    → All IsPackable vs
    → IsResting capacity d
    → length (pack_all [] vs) < capacity
    → IsBytes rest
    → let pkt : Packet = record { cmd = cmd; bytes = pack_all [] vs; crc = crc } in
      (bytes : List ℕ) × (e' : HostEncoder.Encoder) × (d' : Decoder.Decoder)
      × (u : Unpacker.Unpacker) × (HostEncoder.write_packet crc_fn write_byte e pkt w
          ≡ (ErrorCode.none, Host.calc_and_store_crc crc_fn pkt, e', write_all write_byte bytes w))
      × (Decoder.feed crc8 d (bytes ++ rest) ≡ done (Error.none, d', rest))
      × (d'.packet.command ≡ cmd)
      × (Device.unpack_all (Unpacker.init d'.packet) (Device.kinds (all_in_device vs))
          ≡ (some (all_in_device vs), u))
      × (left u ≡ [])
unpack_all-write_packet crc8 crc_fn agree write_byte succeeds capacity cmd crc vs e d w rest he hc
      hv resting room hr =
    let small : capacity < max_object = omega (arith, resting.sound.valid.small, resting.holds) in
    let packs = pack_all-images [] vs hv in
    let (fits, bytes) = all_in_device-Fits vs hv (omega (arith, ap length packs)) in
    let v = tight-IsValid pkt hc (subst IsBytes (sym packs) bytes) room small in
    let (e', writes) = writes_frame crc8 crc_fn agree write_byte succeeds e pkt w v he in
    let (d', takes, seen, resting') =
      takes_frame crc8 capacity d (tight pkt) rest resting (v, room) hr in
    let (sound, all) = init-IsSound resting'.sound.valid in
    let held : get_data d'.packet ≡ images (all_in_device vs) ++ [] =
      ap (λ m. m.bytes) seen ∙ get_data-tight pkt ∙ packs ∙ sym (append-nil _) in
    let (u, reads, none_left, sound') =
      unpack_all-images (all_in_device vs) (Unpacker.init d'.packet) [] sound fits (all ∙ held) in
    (_, e', d', u, writes, takes, ap (λ m. m.command) seen, reads, none_left)
  where
    pkt : Packet
    pkt = record { cmd = cmd; bytes = pack_all [] vs; crc = crc }
