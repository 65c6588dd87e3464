-- ===== src/Host/Values/FromDevice.antt =====
-- What a device packs and sends, the host unpacks.
use duino_bus.Base.{
  ℕ, ◌+◌, ◌-◌, ◌<◌, ◌≤◌, ◌≡◌, ◌%◌, refl, sym, ap, ◌∙◌, arith, List, [], ◌∷◌, ◌++◌, append-nil, true,
  false, Run, done, length, length-append, take, drop, drop-drop, All, IsByte, IsBytes,
  map_run-eq-done, lt→ltb, le→ltb_false, length-drop,
}
use duino_bus.Crc8.{Crc8}
use duino_bus.Words.{le_bytes, from_le-le_bytes}
use duino_bus.Packet as Duino
use duino_bus.Packet.{Error, LogEvent, get_data, calc_crc}
use duino_bus.Packet.Bounds.{IsValid}
use duino_bus.Packet.View.{Message, length-get_data}
use duino_bus.Encoder.{Encoder}
use duino_bus.Bus.{Transport, write_packet}
use duino_bus.Bus.Write.{write_all}
use duino_bus.Values as Device
use duino_bus.Values.RoundTrip.{image, images, pack_all_fits}
use duino_bus.Host
use duino_bus.Host.{ErrorCode, Packet}
use duino_bus.Host.Decoder as HostDecoder
use duino_bus.Host.Twins.{Agree}
use duino_bus.Host.Decodes.{stopped}
use duino_bus.Host.Reads.{take-length, write_packet-host}
use duino_bus.Host.Unpacker
use duino_bus.Host.Unpacker.{
  Unpacker, left, skip, without_null, unpack_u8, unpack_u16, unpack_u32, unpack_data, unpack_str,
  more_data,
}
use duino_bus.Host.Values.{
  Value, IsPackable, DecodesAscii, kind, kinds, in_device, all_in_device, at_host, all_at_host,
  read_text, unpack_value, unpack_all,
}
use duino_bus.Host.Values.ToDevice.{all_in_device-Fits}

drop-length : (xs ys : List ℕ) → drop (length xs) (xs ++ ys) ≡ ys
drop-length [] ys = refl
drop-length (x ∷ xs) ys = drop-length xs ys

-- A slice of what is left, and what is left behind it.
pub slices :
    (u : Unpacker) (front back : List ℕ)
    → left u ≡ front ++ back
    → (take (length front) (left u) ≡ front) × (left (skip u (length front)) ≡ back)
slices u front back e = (
  ap (take (length front)) e ∙ take-length front back,
  sym (drop-drop u.idx (length front) (u.idx + length front) u.buf refl)
      ∙ ap (drop (length front)) e
      ∙ drop-length front back,
)

pub without_null-chars :
    (c : ℕ) (chars : List ℕ) → without_null ((c ∷ chars) ++ (0 ∷ [])) ≡ c ∷ chars
unfolding without_null
without_null-chars c chars =
    let sized = length-append chars (0 ∷ []) in
    let counted : length ((c ∷ chars) ++ (0 ∷ [])) - 1 ≡ length (c ∷ chars) = omega arith in
    rw (lt→ltb 1 (length ((c ∷ chars) ++ (0 ∷ []))) (omega arith), counted)
      (take-length (c ∷ chars) (0 ∷ []))

module _ (utf8 : List ℕ → Run (List ℕ)) (decodes : DecodesAscii utf8) where
  ascii : (chars : List ℕ) → All (λ c. (0 < c) × (c < 128)) chars → All (λ c. c < 128) chars
  ascii [] h = tt
  ascii (c ∷ chars) h = (h.0.1, ascii chars h.1)

  -- The text of the characters with their null.
  pub utf8-without_null :
      (chars : List ℕ)
      → All (λ c. (0 < c) × (c < 128)) chars
      → utf8 (without_null (chars ++ (0 ∷ []))) ≡ done (read_text chars)
  unfolding without_null
  utf8-without_null [] h = decodes (0 ∷ []) (omega arith)
  utf8-without_null (c ∷ chars) h =
      ap utf8 (without_null-chars c chars) ∙ decodes (c ∷ chars) (ascii (c ∷ chars) h)

  -- A string with its length in front.
  pub unpack_str-chars :
      (u : Unpacker) (chars back : List ℕ)
      → left u ≡ image (in_device (Value.string chars)) ++ back
      → All (λ c. (0 < c) × (c < 128)) chars
      → (u' : Unpacker) × (unpack_str utf8 u ≡ done (read_text chars, u')) × (left u' ≡ back)
  unfolding unpack_str unpack_u8 unpack_data
  unpack_str-chars u chars back e h =
      let (first, rest) = slices u ((length chars + 1) ∷ []) ((chars ++ (0 ∷ [])) ++ back) e in
      let (text, behind) = slices (skip u 1) (chars ++ (0 ∷ [])) back rest in
      let sized : length (chars ++ (0 ∷ [])) ≡ length chars + 1 = length-append chars (0 ∷ []) in
      (
        skip (skip u 1) (length chars + 1),
        rw (e, ← sized, text, utf8-without_null chars h),
        rw (← sized) behind,
      )

  unpack_value-image :
      (u : Unpacker) (v : Value) (back : List ℕ)
      → left u ≡ image (in_device v) ++ back
      → IsPackable v
      → (u' : Unpacker) × (unpack_value utf8 u (kind v) ≡ done (at_host v, u')) × (left u' ≡ back)
  unfolding unpack_value unpack_u8 unpack_u16 unpack_u32 unpack_data le_bytes
  unpack_value-image u (Value.u8 x) back e h =
      let small : x % 256 ≡ x = omega arith in
      (skip u 1, rw (e, small), (slices u (x % 256 ∷ []) back e).1)
  unpack_value-image u (Value.u16 x) back e h =
      let (front, behind) = slices u (le_bytes 2 x) back e in
      (skip u 2, rw (front, from_le-le_bytes 2 x h), behind)
  unpack_value-image u (Value.u32 x) back e h =
      let (front, behind) = slices u (le_bytes 4 x) back e in
      (skip u 4, rw (front, from_le-le_bytes 4 x h), behind)
  unpack_value-image u (Value.buffer bytes) back e h =
      let (front, behind) = slices u bytes back e in (skip u (length bytes), rw front, behind)
  unpack_value-image u (Value.string chars) back e h =
      let (u', reads, behind) = unpack_str-chars u chars back e h.0 in (u', rw reads, behind)

  pub unpack_all-images :
      (u : Unpacker) (vs : List Value)
      → left u ≡ images (all_in_device vs)
      → All IsPackable vs
      → (u' : Unpacker) × (unpack_all utf8 u (kinds vs) ≡ done (all_at_host vs, u'))
        × (left u' ≡ [])
  unfolding unpack_all
  unpack_all-images u [] e h = (u, refl, e)
  unpack_all-images u (v ∷ vs) e h =
      let (u1, first, behind) = unpack_value-image u v (images (all_in_device vs)) e h.0 in
      let (u2, others, nothing) = unpack_all-images u1 vs behind h.1 in
      (u2, rw (first, others), nothing)

  none_left : (u : Unpacker) → left u ≡ [] → more_data u ≡ false
  unfolding more_data
  none_left u e =
      le→ltb_false u.idx (length u.buf) (omega (arith, length-drop u.idx u.buf, ap length e))

  -- Where the CRC functions agree: values that a device packs into an empty valid packet with room for
  -- them, as objects and C strings of less than 256 bytes in all, and sends with `writePacket` (numbers of
  -- their width, bytes, and ASCII strings of at most 254 characters and without a null), to a new decoder
  -- of the host on a packet with at most 256 bytes of data. All are packed, `writePacket` ends with NONE,
  -- the decoder takes exactly the bytes written, answers NONE and holds the command; and an unpacker of
  -- the host, asked for these values in order, gives them back with nothing left, but for an empty
  -- string, which it gives as a string of one null character.
  pub unpack_all-device :
      (crc8 : Crc8) (crc_fn : List ℕ → ℕ → ℕ) (agree : Agree crc8 crc_fn) {W : Type 0}
      (transport : Transport W) (vs : List Value) (p : Duino.Packet) (e : Encoder) (pkt : Packet)
      (w : W)
      → IsValid p
      → p.data_len ≡ 0
      → All IsPackable vs
      → length (images (all_in_device vs)) ≤ p.max_data_len
      → length (images (all_in_device vs)) < Host.max_data_len
      → IsByte pkt.cmd
      → IsBytes pkt.bytes
      → length pkt.bytes ≤ Host.max_data_len
      → (q : Duino.Packet) × (bytes : List ℕ) × (e' : Encoder) × (logged : List LogEvent)
        × (h : HostDecoder.Decoder) × (u : Unpacker) × (Device.pack_all p (all_in_device vs)
            ≡ done (true, q))
        × (write_packet crc8 transport e q w
            ≡ done (
              Error.none,
              record q { crc = calc_crc crc8 q },
              e',
              transport.flush (write_all transport bytes w),
              logged,
            ))
        × (HostDecoder.feed crc_fn (HostDecoder.init pkt) bytes ≡ done (ErrorCode.none, h, []))
        × (h.packet.cmd ≡ p.command)
        × (unpack_all utf8 (Unpacker.init h.packet.bytes) (kinds vs) ≡ done (all_at_host vs, u))
        × (more_data u ≡ false)
  unfolding Unpacker.init
  unpack_all-device crc8 crc_fn agree transport vs p e pkt w v empty hv room few hc hb fresh =
      let (fits, all_bytes) = all_in_device-Fits vs hv (omega arith) in
      let (q, packs, seen, vq) = pack_all_fits (all_in_device vs) p v fits (omega arith) in
      let nothing : get_data p ≡ [] = rw empty in
      let held : get_data q ≡ images (all_in_device vs) =
        ap (λ (m : Message). m.bytes) seen ∙ rw nothing in
      let (bytes, e', logged, writes, takes) =
        write_packet-host crc8 crc_fn agree transport e q pkt w vq
          (omega (arith, ap length held, length-get_data vq)) hc hb fresh in
      let (r, feeds, same) =
        map_run-eq-done stopped (HostDecoder.feed crc_fn (HostDecoder.init pkt) (bytes ++ []))
          (takes [] tt) in
      let (u, reads, behind) =
        unpack_all-images (Unpacker.init r.1.packet.bytes) vs (ap (λ x. x.1.bytes) same ∙ held)
          hv in
      (
        q,
        bytes,
        e',
        logged,
        r.1,
        u,
        packs,
        writes,
        ap (HostDecoder.feed crc_fn (HostDecoder.init pkt)) (sym (append-nil bytes))
            ∙ feeds
            ∙ (λ i. done ((same i).0, r.1, (same i).2)),
        ap (λ x. x.1.cmd) same ∙ ap (λ m. m.command) seen,
        reads,
        none_left u behind,
      )
