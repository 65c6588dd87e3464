-- ===== src/Wire/Owed.antt =====
-- What the decoder makes of the bytes that are still to come.
use mathlib.Core.Path.{subst}
use duino_bus.Base.{
  append-IsBytes, length, ℕ, ◌≡◌, ◌≢◌, refl, sym, ap, ◌∙◌, arith, List, [], ◌∷◌, ◌++◌, Run, done,
  abort, ◌<◌, All, map_run, map_run-eq-done, false, IsBytes,
}
use duino_bus.Crc8.{Crc8}
use duino_bus.Packet.{Packet, Error, LogEvent, get_data, calc_crc}
use duino_bus.Packet.Bounds.{IsValid, calc_crc-IsByte}
use duino_bus.Packet.View.{Message, view, get_data-IsBytes}
use duino_bus.Encoder.Frame.{frame, frame-IsBytes}
use duino_bus.Decoder.{Decoder, Reply, decode_byte, feed, State}
use duino_bus.Decoder.Feed.{decoder}
use duino_bus.Decoder.Frames.{received}
use duino_bus.Decoder.Safe.{IsSound, feed-Left}
use duino_bus.Bus.Link.{feed-frame-get_data}
use duino_bus.Wire.Bytes.{frames}

-- The decoder between two frames, with a valid packet.
pub record IsResting (capacity : ℕ) (d : Decoder) : Type 0 where
  pub sound : IsSound d
  pub at_idle : d.state ≡ State.idle
  pub clear : d.escape ≡ false
  pub holds : d.packet.max_data_len ≡ capacity

-- A packet as the other end sees it.
abbrev pub message : ℕ → Packet → Message
message capacity p = record { command = p.command; capacity = capacity; bytes = get_data p }

abbrev pub messages : ℕ → List Packet → List Message
messages capacity [] = []
messages capacity (p ∷ ps) = message capacity p ∷ messages capacity ps

pub length-messages : (capacity : ℕ) (ps : List Packet) → length (messages capacity ps) ≡ length ps
length-messages capacity [] = refl
length-messages capacity (p ∷ ps) = omega (arith, length-messages capacity ps)

-- A packet that the other end has room for.
abbrev pub IsSendable : ℕ → Packet → Type 0
IsSendable capacity p = IsValid p × (p.data_len < capacity)

module _ (crc8 : Crc8) (capacity : ℕ) where
  -- From the bytes the decoder takes exactly these packets, one after the other.
  abbrev pub Owes : List Message → Decoder → List ℕ → Type 0
  Owes [] d bs = (bs ≡ []) × IsResting capacity d
  Owes (m ∷ ms) d bs =
      (d' : Decoder) × (rest : List ℕ) × (feed crc8 d bs ≡ done (Error.none, d', rest))
      × (view d'.packet ≡ m)
      × Owes ms d' rest

  pub takes_frame :
      (d : Decoder) (p : Packet) (rest : List ℕ)
      → IsResting capacity d
      → IsSendable capacity p
      → IsBytes rest
      → (d' : Decoder) × (feed crc8 d (frame p.command (get_data p) (calc_crc crc8 p) ++ rest)
          ≡ done (Error.none, d', rest))
        × (view d'.packet ≡ message capacity p)
        × IsResting capacity d'
  takes_frame d p rest h (v, room) bytes =
      let at_rest : d ≡ decoder d.packet State.idle false d.debug = λ i. record {
        packet = d.packet;
        state = h.at_idle i;
        escape = h.clear i;
        debug = d.debug;
      } in
      let (r, ends, same) = map_run-eq-done received (feed crc8 d stream) (
        ap (λ x. map_run received (feed crc8 x stream)) at_rest
        ∙ feed-frame-get_data crc8 p d.packet d.debug rest v h.sound.valid
            (omega (arith, h.holds))) in
      let (r', ends', left) = feed-Left crc8 d stream h.sound (
        append-IsBytes sent_bytes rest
          (frame-IsBytes p.command (get_data p) (calc_crc crc8 p) v.command_byte
            (get_data-IsBytes v) (calc_crc-IsByte crc8 p))
          bytes) in
      let one : r' ≡ r = cc in
      (
        r.1,
        ends ∙ (λ i. done ((same i).error, r.1, (same i).rest)),
        ap (λ x. x.message) same ∙ rw h.holds,
        record {
          sound = subst (λ (x : Error × Decoder × List ℕ). IsSound x.1) one left.sound;
          at_idle = ap (λ x. x.state) same;
          clear = ap (λ x. x.escape) same;
          holds = ap (λ x. x.message.capacity) same ∙ h.holds;
        },
      )
    where
      sent_bytes : List ℕ
      sent_bytes = frame p.command (get_data p) (calc_crc crc8 p)

      stream : List ℕ
      stream = sent_bytes ++ rest

  frames-IsBytes : (ps : List Packet) → All (IsSendable capacity) ps → IsBytes (frames crc8 ps)
  frames-IsBytes [] k = tt
  frames-IsBytes (p ∷ ps) k =
      append-IsBytes (frame p.command (get_data p) (calc_crc crc8 p)) (frames crc8 ps)
        (frame-IsBytes p.command (get_data p) (calc_crc crc8 p) k.0.0.command_byte
          (get_data-IsBytes k.0.0) (calc_crc-IsByte crc8 p))
        (frames-IsBytes ps k.1)

  pub frames-Owes :
      (ps : List Packet) (d : Decoder)
      → IsResting capacity d
      → All (IsSendable capacity) ps
      → Owes (messages capacity ps) d (frames crc8 ps)
  frames-Owes [] d h k = (refl, h)
  frames-Owes (p ∷ ps) d h k =
      let (d', takes, seen, h') = takes_frame d p (frames crc8 ps) h k.0 (frames-IsBytes ps k.1) in
      (d', frames crc8 ps, takes, seen, frames-Owes ps d' h' k.1)

  -- A decoder that has bytes before it takes the first.
  pub decode_byte-Owes :
      (ms : List Message) (d : Decoder) (b : ℕ) (bs : List ℕ)
      → Owes ms d (b ∷ bs)
      → (r : Reply) × (decode_byte crc8 d b ≡ done r)
  unfolding feed
  decode_byte-Owes [] d b bs (e, h) = absurd (cc)
  decode_byte-Owes (m ∷ ms) d b bs (d', rest, takes, seen, o) = ends (decode_byte crc8 d b) refl
    where
      ends : (r : Run Reply) → decode_byte crc8 d b ≡ r → (r' : Reply) × (r ≡ done r')
      ends abort q = absurd (ground (arith, q))
      ends (done r) q = (r, refl)

  -- A call that wants more bytes, and one that does not.
  pub Owes-on :
      (ms : List Message) (d d1 : Decoder) (b : ℕ) (bs : List ℕ) (logged : List LogEvent)
      → Owes ms d (b ∷ bs)
      → decode_byte crc8 d b ≡ done (Error.not_done, d1, logged)
      → Owes ms d1 bs
  unfolding feed
  Owes-on [] d d1 b bs logged (e, h) q = absurd (cc)
  Owes-on (m ∷ ms) d d1 b bs logged (d', rest, takes, seen, o) q =
      (d', rest, rw q at takes, seen, o)

  pub Owes-end :
      (ms : List Message) (d d1 : Decoder) (b : ℕ) (bs : List ℕ) (err : Error)
      (logged : List LogEvent)
      → Owes ms d (b ∷ bs)
      → decode_byte crc8 d b ≡ done (err, d1, logged)
      → err ≢ Error.not_done
      → (ms' : List Message) × (err ≡ Error.none) × (ms ≡ view d1.packet ∷ ms') × Owes ms' d1 bs
  unfolding feed
  Owes-end [] d d1 b bs err logged (e, h) q stops = absurd (cc)
  Owes-end (m ∷ ms) d d1 b bs Error.not_done logged (d', rest, takes, seen, o) q stops =
      absurd (stops refl)
  Owes-end (m ∷ ms) d d1 b bs err logged (d', rest, takes, seen, o) q stops =
      let found : ◌≡◌ {A = Run (Error × Decoder × List ℕ)} (done (err, d1, bs))
          (done (Error.none, d', rest)) =
        rw q at takes in
      let same : d' ≡ d1 = cc in
      let later : rest ≡ bs = cc in
      (
        ms,
        cc,
        ap (λ x. x ∷ ms) (sym seen ∙ ap (λ (x : Decoder). view x.packet) same),
        subst (λ (x : Decoder × List ℕ). Owes ms x.0 x.1) (λ i. (same i, later i)) o,
      )
