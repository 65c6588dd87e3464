-- ===== src/Wire/Invariant.antt =====
-- What every call at one of the ends of a line keeps.
use mathlib.Core.Path.{subst}
use mathlib.Core.Option.{Option, none, some}
use duino_bus.Base.{
  ℕ, suc, ◌+◌, ◌*◌, ◌≡◌, refl, sym, ap, ◌∙◌, arith, List, [], ◌∷◌, ◌++◌, append_assoc, length,
  length-append, All, snoc-All,
}
use duino_bus.Crc8.{Crc8}
use duino_bus.Packet.{Packet, Error, get_data, calc_crc}
use duino_bus.Packet.View.{Message, view}
use duino_bus.Encoder.{Encoder, encode_start}
use duino_bus.Encoder.Frame.{frame}
use duino_bus.Decoder.{Decoder}
use duino_bus.Wire.{Line, Step, Reach, start}
use duino_bus.Wire.Bytes.{frames, Gives, encode_start-Gives, Gives-on, Gives-end}
use duino_bus.Wire.Owed.{
  IsResting, IsSendable, messages, length-messages, Owes, frames-Owes, Owes-on, Owes-end,
}

-- What the receiver's caller gets for packets that arrive.
abbrev pub arrived : List Message → List (Error × Message)
arrived [] = []
arrived (m ∷ ms) = (Error.none, m) ∷ arrived ms

-- The calls that bytes on the wire, bytes not yet written and packets not yet begun will take.
abbrev pub calls_left : List ℕ → List ℕ → List Packet → ℕ
calls_left wire unsent todo = length wire + 2 * length unsent + length todo

-- The packet that is being written.
abbrev pub begun : Option ℕ → ℕ
begun none = 0
begun (some x) = 1

abbrev pub IsNone : Error → Type 0
IsNone err = err ≡ Error.none

module _ (crc8 : Crc8) (capacity : ℕ) (all : List Message) (calls : ℕ) where
  -- After `n` calls: `rest` is what the loop has still to write, and `pending` what has not arrived.
  pub record Holds (n : ℕ) (s : Line) : Type 0 where
    pub rest : List ℕ
    pub gives : Gives crc8 s.encoder s.byte rest
    pub sendable : All (IsSendable capacity) s.todo
    pub pending : List Message
    pub owes : Owes crc8 capacity pending s.decoder (s.wire ++ (rest ++ frames crc8 s.todo))
    pub order : s.got ++ arrived pending ≡ arrived all
    pub answers : All IsNone s.told
    pub answered : length s.told + begun s.byte + length s.todo ≡ length all
    pub count : n + calls_left s.wire (rest ++ frames crc8 s.todo) s.todo ≡ calls

  starts-Holds :
      (n : ℕ) (s : Line) {p : Packet} {ps : List Packet} (x : ℕ)
      → Holds n s
      → s.byte ≡ none
      → s.todo ≡ p ∷ ps
      → Holds
          (suc n)
          (record s { encoder = (encode_start crc8 s.encoder p).1; byte = some x; todo = ps })
  starts-Holds n s {p} {ps} x h idle waiting =
      let none_left : h.rest ≡ [] = subst (λ y. Gives crc8 s.encoder y h.rest) idle h.gives in
      let sendable : All (IsSendable capacity) (p ∷ ps) = rw waiting at h.sendable in
      let same : h.rest ++ frames crc8 s.todo ≡ frames crc8 (p ∷ ps) = rw (none_left, waiting) in
      record {
        rest = frame p.command (get_data p) (calc_crc crc8 p);
        gives = encode_start-Gives crc8 s.encoder p x sendable.0.0;
        sendable = sendable.1;
        pending = h.pending;
        owes = subst (λ l. Owes crc8 capacity h.pending s.decoder (s.wire ++ l)) same h.owes;
        order = h.order;
        answers = h.answers;
        answered = omega (arith, h.answered, ap begun idle, ap length waiting);
        count = omega (arith, h.count, ap length same, ap length waiting);
      }

  -- A byte goes from the sender onto the wire.
  moved :
      (s : Line) (b : ℕ) (later : List ℕ) (rest : List ℕ)
      → rest ≡ b ∷ later
      → s.wire ++ (rest ++ frames crc8 s.todo)
        ≡ (s.wire ++ (b ∷ [])) ++ (later ++ frames crc8 s.todo)
  moved s b later rest e = rw e (sym (append_assoc s.wire (b ∷ []) (later ++ frames crc8 s.todo)))

  sends-Holds :
      (n : ℕ) (s : Line) (b : ℕ) (e : Encoder) (byte : Option ℕ) (told : List Error)
      (later : List ℕ) (h : Holds n s)
      → h.rest ≡ b ∷ later
      → Gives crc8 e byte later
      → All IsNone told
      → length told + begun byte ≡ length s.told + begun s.byte
      → Holds
          (suc n)
          (record s { encoder = e; byte = byte; told = told; wire = s.wire ++ (b ∷ []) })
  sends-Holds n s b e byte told later h first gives answers same = record {
    rest = later;
    gives = gives;
    sendable = h.sendable;
    pending = h.pending;
    owes = subst (Owes crc8 capacity h.pending s.decoder) (moved s b later h.rest first) h.owes;
    order = h.order;
    answers = answers;
    answered = omega (arith, h.answered, same);
    count = omega (
      arith,
      h.count,
      ap length first,
      length-append s.wire (b ∷ []),
      length-append h.rest (frames crc8 s.todo),
      length-append later (frames crc8 s.todo),
    );
  }

  takes-Holds :
      (n : ℕ) (s : Line) (b : ℕ) (bs : List ℕ) (d : Decoder) (got : List (Error × Message))
      (pending : List Message) (h : Holds n s)
      → s.wire ≡ b ∷ bs
      → Owes crc8 capacity pending d (bs ++ (h.rest ++ frames crc8 s.todo))
      → got ++ arrived pending ≡ arrived all
      → Holds (suc n) (record s { wire = bs; decoder = d; got = got })
  takes-Holds n s b bs d got pending h first owes order = record {
    rest = h.rest;
    gives = h.gives;
    sendable = h.sendable;
    pending = pending;
    owes = owes;
    order = order;
    answers = h.answers;
    answered = h.answered;
    count = omega (arith, h.count, ap length first);
  }

  pub Step-Holds : {n : ℕ} {s t : Line} → Holds n s → Step crc8 s t → Holds (suc n) t
  Step-Holds {n} {s} h (Step.starts x idle waiting) = starts-Holds n s x h idle waiting
  Step-Holds {n} {s} h (Step.writes {x} {b} {e} writing encodes) =
      let (later, first, gives) =
        Gives-on crc8 s.encoder x h.rest b e
          (subst (λ y. Gives crc8 s.encoder y h.rest) writing h.gives) encodes in
      sends-Holds n s b e (some b) s.told later h first gives h.answers
        (omega (arith, ap begun writing))
  Step-Holds {n} {s} h (Step.ends {x} {b} {err} {e} writing encodes stops) =
      let (fine, last) =
        Gives-end crc8 s.encoder x h.rest b err e
          (subst (λ y. Gives crc8 s.encoder y h.rest) writing h.gives) encodes stops in
      sends-Holds n s b e none (s.told ++ (err ∷ [])) [] h last refl
        (snoc-All IsNone s.told err h.answers fine)
        (omega (arith, ap begun writing, length-append s.told (err ∷ [])))
  Step-Holds {n} {s} h (Step.reads {b} {bs} {d} {logged} first decodes) =
      takes-Holds n s b bs d s.got h.pending h first
        (Owes-on crc8 capacity h.pending s.decoder d b (bs ++ (h.rest ++ frames crc8 s.todo)) logged
          (rw first at h.owes) decodes)
        h.order
  Step-Holds {n} {s} h (Step.answers {b} {bs} {err} {d} {logged} first decodes stops) =
      let (pending, fine, next, owes) =
        Owes-end crc8 capacity h.pending s.decoder d b (bs ++ (h.rest ++ frames crc8 s.todo)) err
          logged (rw first at h.owes) decodes stops in
      takes-Holds n s b bs d (s.got ++ ((err, view d.packet) ∷ [])) pending h first owes (
        append_assoc s.got ((err, view d.packet) ∷ []) (arrived pending)
        ∙ ap (λ x. s.got ++ ((x, view d.packet) ∷ arrived pending)) fine
        ∙ ap (λ l. s.got ++ arrived l) (sym next)
        ∙ h.order)

module _ (crc8 : Crc8) (capacity : ℕ) (e : Encoder) (ps : List Packet) (d : Decoder) where
  -- A line on which `ps` are to be sent.
  abbrev pub AfterCalls : ℕ → Line → Type 0
  AfterCalls = Holds crc8 capacity (messages capacity ps) (2 * length (frames crc8 ps) + length ps)

  pub Reach-Holds :
      {n : ℕ} {s : Line}
      → IsResting capacity d
      → All (IsSendable capacity) ps
      → Reach crc8 (start e ps d) n s
      → AfterCalls n s
  Reach-Holds h k Reach.here = record {
    rest = [];
    gives = refl;
    sendable = k;
    pending = messages capacity ps;
    owes = frames-Owes crc8 capacity ps d h k;
    order = refl;
    answers = tt;
    answered = omega (arith, length-messages capacity ps);
    count = omega arith;
  }
  Reach-Holds h k (Reach.later r step) =
      Step-Holds crc8 capacity (messages capacity ps) (2 * length (frames crc8 ps) + length ps)
        (Reach-Holds h k r) step
