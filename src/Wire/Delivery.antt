-- ===== src/Wire/Delivery.antt =====
-- What arrives over a line, in every interleaving of the calls at its two ends.
use mathlib.Core.Path.{subst}
use mathlib.Core.Option.{Option, none, some}
use duino_bus.Base.{
  ℕ, ◌+◌, ◌*◌, ◌≤◌, ◌≡◌, ◌≢◌, refl, sym, ap, ◌∙◌, arith, List, [], ◌∷◌, ◌++◌, append-nil, length,
  done, All, ◌⊎◌, inl, inr,
}
use duino_bus.Crc8.{Crc8}
use duino_bus.Packet.{Packet, Error}
use duino_bus.Packet.View.{Message}
use duino_bus.Encoder.{Encoder, encode_byte}
use duino_bus.Decoder.{Decoder, Reply, decode_byte, feed}
use duino_bus.Wire.{Line, Step, Reach, start}
use duino_bus.Wire.Bytes.{frames, Gives, encode_byte-Gives}
use duino_bus.Wire.Owed.{IsResting, IsSendable, messages, length-messages, Owes, decode_byte-Owes}
use duino_bus.Wire.Invariant.{arrived, begun, IsNone, Holds, Reach-Holds}

-- Everything has arrived, each `writePacket` has answered NONE, and every call that it takes has been made.
pub record IsDelivered (all : List Message) (calls n : ℕ) (s : Line) : Type 0 where
  pub received : s.got ≡ arrived all
  pub empty : s.wire ≡ []
  pub sent : s.todo ≡ []
  pub answers : All IsNone s.told
  pub answered : length s.told ≡ length all
  pub counted : n ≡ calls

not_done-cases : (err : Error) → (err ≡ Error.not_done) ⊎ (err ≢ Error.not_done)
not_done-cases Error.not_done = inl refl
not_done-cases err = inr (λ e. absurd (cc))

-- A packet that has not arrived has bytes on their way.
Owes-nothing :
    (crc8 : Crc8) (capacity : ℕ) (pending : List Message) (d : Decoder)
    → Owes crc8 capacity pending d []
    → pending ≡ []
unfolding feed
Owes-nothing crc8 capacity [] d o = refl
Owes-nothing crc8 capacity (m ∷ ms) d (d', rest, takes, seen, o) = absurd (cc)

module _ (crc8 : Crc8) where
  answer-Step :
      (s : Line) (b : ℕ) (bs : List ℕ) (r : Reply)
      → s.wire ≡ b ∷ bs
      → decode_byte crc8 s.decoder b ≡ done r
      → (t : Line) × Step crc8 s t
  answer-Step s b bs (err, d, logged) first decodes = elim (not_done-cases err) [
    | inl wants_more ↦ (_, Step.reads first (decodes ∙ ap (λ x. done (x, d, logged)) wants_more))
    | inr stops ↦ (_, Step.answers first decodes stops)
  ]

  round-Step :
      (s : Line) (x : ℕ) (r : Error × ℕ × Encoder)
      → s.byte ≡ some x
      → encode_byte crc8 s.encoder x ≡ done r
      → (t : Line) × Step crc8 s t
  round-Step s x (err, b, e) writing encodes = elim (not_done-cases err) [
    | inl goes_on ↦ (_, Step.writes writing (encodes ∙ ap (λ y. done (y, b, e)) goes_on))
    | inr stops ↦ (_, Step.ends writing encodes stops)
  ]

  module _ (capacity : ℕ) (all : List Message) (calls : ℕ) where
    rests :
        (n : ℕ) (s : Line)
        → Holds crc8 capacity all calls n s
        → s.wire ≡ []
        → s.byte ≡ none
        → s.todo ≡ []
        → IsDelivered all calls n s
    rests n s h empty idle nothing =
        let written : h.rest ≡ [] = subst (λ y. Gives crc8 s.encoder y h.rest) idle h.gives in
        let none_unsent : h.rest ++ frames crc8 s.todo ≡ [] = rw (written, nothing) in
        let no_bytes : s.wire ++ (h.rest ++ frames crc8 s.todo) ≡ [] =
          rw (empty, written, nothing) in
        let no_packets : h.pending ≡ [] =
          Owes-nothing crc8 capacity h.pending s.decoder
            (subst (Owes crc8 capacity h.pending s.decoder) no_bytes h.owes) in
        record {
          received =
              sym (append-nil s.got) ∙ ap (λ l. s.got ++ arrived l) (sym no_packets) ∙ h.order;
          empty = empty;
          sent = nothing;
          answers = h.answers;
          answered = omega (arith, h.answered, ap begun idle, ap length nothing);
          counted =
              omega (arith, h.count, ap length empty, ap length nothing, ap length none_unsent);
        }

    Holds-moves :
        (n : ℕ) (s : Line)
        → Holds crc8 capacity all calls n s
        → ((t : Line) × Step crc8 s t) ⊎ IsDelivered all calls n s
    Holds-moves n s h = at_wire s.wire refl
      where
        at_todo :
            (todo : List Packet)
            → s.wire ≡ []
            → s.byte ≡ none
            → s.todo ≡ todo
            → ((t : Line) × Step crc8 s t) ⊎ IsDelivered all calls n s
        at_todo [] empty idle e = inr (rests n s h empty idle e)
        at_todo (p ∷ ps) empty idle e = inl (_, Step.starts 0 idle e)

        at_byte :
            (byte : Option ℕ)
            → s.wire ≡ []
            → s.byte ≡ byte
            → ((t : Line) × Step crc8 s t) ⊎ IsDelivered all calls n s
        at_byte none empty e = at_todo s.todo empty e refl
        at_byte (some x) empty e =
            let (r, encodes) =
              encode_byte-Gives crc8 s.encoder x h.rest
                (subst (λ y. Gives crc8 s.encoder y h.rest) e h.gives) in
            inl (round-Step s x r e encodes)

        at_wire :
            (wire : List ℕ)
            → s.wire ≡ wire
            → ((t : Line) × Step crc8 s t) ⊎ IsDelivered all calls n s
        at_wire [] e = at_byte s.byte e refl
        at_wire (b ∷ bs) e =
            let (r, decodes) =
              decode_byte-Owes crc8 capacity h.pending s.decoder b
                (bs ++ (h.rest ++ frames crc8 s.todo)) (rw e at h.owes) in
            inl (answer-Step s b bs r e decodes)

  module _ (capacity : ℕ) (e : Encoder) (ps : List Packet) (d : Decoder) where
    -- A sender, from any state of its encoder, is to send valid packets over an empty line that
    -- keeps the order of bytes to a receiver that is idle, with no escape pending and a valid
    -- packet that has room for each of them with its CRC. However the calls at the two ends
    -- interleave, what the receiver's caller has got at any moment are the first of the packets,
    -- each once, in order, with its command and data and the answer NONE; no call of the decoder has
    -- answered an error, and each `writePacket` that has ended has answered NONE, one for each packet
    -- that is neither waiting nor being written. The calls so far are at most two for each byte of the
    -- frames and one for each packet.
    pub Reach-in_order :
        (n : ℕ) (s : Line)
        → IsResting capacity d
        → All (IsSendable capacity) ps
        → Reach crc8 (start e ps d) n s
        → (pending : List Message) × (s.got ++ arrived pending ≡ arrived (messages capacity ps))
          × All IsNone s.told
          × (length s.told + begun s.byte + length s.todo ≡ length ps)
          × (n ≤ 2 * length (frames crc8 ps) + length ps)
    Reach-in_order n s h k r =
        let holds = Reach-Holds crc8 capacity e ps d h k r in
        (
          holds.pending,
          holds.order,
          holds.answers,
          holds.answered ∙ length-messages capacity ps,
          omega (arith, holds.count),
        )

    -- A sender, from any state of its encoder, is to send valid packets over an empty line that
    -- keeps the order of bytes to a receiver that is idle, with no escape pending and a valid
    -- packet that has room for each of them with its CRC. No interleaving of the calls at the two
    -- ends gets stuck: at any moment some call can be made, or else all packets have arrived, the
    -- line is empty, no packet waits, `writePacket` has answered NONE for each, and exactly two calls
    -- for each byte of the frames and one for each packet have been made.
    pub Reach-delivers :
        (n : ℕ) (s : Line)
        → IsResting capacity d
        → All (IsSendable capacity) ps
        → Reach crc8 (start e ps d) n s
        → ((t : Line) × Step crc8 s t)
          ⊎ IsDelivered (messages capacity ps) (2 * length (frames crc8 ps) + length ps) n s
    Reach-delivers n s h k r =
        Holds-moves capacity (messages capacity ps) (2 * length (frames crc8 ps) + length ps) n s
          (Reach-Holds crc8 capacity e ps d h k r)
