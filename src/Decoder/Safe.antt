-- ===== src/Decoder/Safe.antt =====
-- The invariant of the decoder, call by call and over a stream of bytes.
use duino_bus.Base.{
  ℕ, ◌≤◌, ◌<◌, ◌≡◌, refl, ◌∙◌, arith, List, [], ◌∷◌, Run, done, abort, IsByte, IsBytes, Bool-cases,
  inl, inr, ◌==◌, ◌&&◌, not, leb, length,
}
use duino_bus.Crc8.{Crc8}
use duino_bus.Packet.{Packet, Error, set_command, set_data, calc_crc, end_byte, esc_byte}
use duino_bus.Packet.Bounds.{IsValid, set_command-IsValid, set_data-IsValid}
use duino_bus.Packet.Push.{
  pushed, append_byte-pushed, pushed-IsValid, last_byte, popped, extract_crc-popped, popped-IsValid,
}
use duino_bus.Decoder.{
  Decoder, State, Reply, is_idle, unescape, begin_packet, store_byte, check_crc, end_packet, switch,
  decode_byte, feed,
}

abbrev pub IsNamed : State → Type 0
IsNamed State.idle = Unit
IsNamed State.command = Unit
IsNamed State.payload = Unit
IsNamed (State.other n) = ⊥

pub record IsSound (d : Decoder) : Type 0 where
  pub valid : IsValid d.packet
  pub named : IsNamed d.state

-- The answers that `decodeByte` gives in the states of the enumeration.
abbrev pub Answers : Error → Type 0
Answers Error.none = Unit
Answers Error.not_done = Unit
Answers Error.crc = Unit
Answers Error.too_much_data = Unit
Answers Error.too_small = Unit
Answers _ = ⊥

pub record IsGood (d : Decoder) (r : Reply) : Type 0 where
  pub answers : Answers r.0
  pub sound : IsSound r.1
  pub capacity : r.1.packet.max_data_len ≡ d.packet.max_data_len

-- The run ends, with a good reply.
abbrev Ends : Decoder → Run Reply → Type 0
Ends d (done r) = IsGood d r
Ends d abort = ⊥

store_byte-Ends : {d : Decoder} (b : ℕ) → IsSound d → IsByte b → Ends d (store_byte d b)
unfolding store_byte pushed
store_byte-Ends {d} b h hb = elim (Bool-cases (leb d.packet.max_data_len d.packet.data_len)) [
  | inl full ↦ rw full (record { answers = tt; sound = assumption; capacity = refl })
  | inr room ↦
      rw (room, append_byte-pushed h.valid b (ground arith))
        (record {
          answers = tt;
          sound = record { valid = pushed-IsValid h.valid b (ground arith) hb; named = h.named };
          capacity = refl;
        })
]

begin_packet-Ends : {d : Decoder} (b : ℕ) → IsSound d → IsByte b → Ends d (begin_packet d b)
unfolding begin_packet set_data
begin_packet-Ends {d} b h hb = record {
  answers = tt;
  sound = record {
    valid = set_data-IsValid [] (set_command-IsValid b h.valid hb) (omega arith) refl;
    named = tt;
  };
  capacity = unfold set_command in refl;
}

check_crc-IsGood :
    (crc8 : Crc8) {d : Decoder} (c : ℕ) (p : Packet)
    → IsSound d
    → IsValid p
    → p.max_data_len ≡ d.packet.max_data_len
    → IsGood d (check_crc crc8 d c p)
unfolding check_crc
check_crc-IsGood crc8 {d} c p h v e = elim (Bool-cases (c == calc_crc crc8 p)) [
  | inl same ↦
      rw same (record { answers = tt; sound = record { valid = v; named = tt }; capacity = e })
  | inr other ↦
      rw other
        (record { answers = tt; sound = record { valid = v; named = h.named }; capacity = e })
]

end_packet-Ends : (crc8 : Crc8) {d : Decoder} → IsSound d → Ends d (end_packet crc8 d)
unfolding end_packet
end_packet-Ends crc8 {d} h = elim (Bool-cases (d.packet.data_len == 0)) [
  | inl empty ↦ rw empty (record { answers = tt; sound = h; capacity = refl })
  | inr some_data ↦
      let full : 0 < d.packet.data_len = ground arith in
      rw (some_data, extract_crc-popped h.valid full)
        (check_crc-IsGood crc8 (last_byte d.packet) (popped d.packet) h
          (popped-IsValid h.valid full) (unfold popped in refl))
]

switch-Ends :
    (crc8 : Crc8) (s : State) {d : Decoder} (b : ℕ)
    → IsNamed s
    → IsSound d
    → IsByte b
    → Ends d (switch crc8 s d b)
unfolding switch
switch-Ends crc8 State.idle {d} b n h hb = elim (Bool-cases (b == end_byte)) [
  | inl starts ↦
      rw starts
        (record { answers = tt; sound = record { valid = h.valid; named = tt }; capacity = refl })
  | inr noise ↦ rw noise (record { answers = tt; sound = h; capacity = refl })
]
switch-Ends crc8 State.command {d} b n h hb = elim (Bool-cases (b == end_byte && not d.escape)) [
  | inl ends ↦ rw ends (record { answers = tt; sound = h; capacity = refl })
  | inr goes ↦ rw goes (begin_packet-Ends b h hb)
]
switch-Ends crc8 State.payload {d} b n h hb = elim (Bool-cases (b == end_byte && not d.escape)) [
  | inl ends ↦ rw ends (end_packet-Ends crc8 h)
  | inr goes ↦ rw goes (store_byte-Ends b h hb)
]
switch-Ends crc8 (State.other k) b n h hb = absurd n

unescape-IsByte : (b : ℕ) → IsByte b → IsByte (unescape b)
unfolding unescape
unescape-IsByte b h = ground arith

decode_byte-Ends :
    (crc8 : Crc8) {d : Decoder} (b : ℕ) → IsSound d → IsByte b → Ends d (decode_byte crc8 d b)
unfolding decode_byte
decode_byte-Ends crc8 {d} b h hb = elim (Bool-cases (is_idle d.state)) [
  | inl at_idle ↦ rw at_idle (switch-Ends crc8 d.state b h.named h hb)
  | inr inside ↦ elim (Bool-cases d.escape) [
    | inl escaped ↦
        simp (inside, escaped)
          (switch-Ends crc8 d.state (unescape b) h.named h (unescape-IsByte b hb))
    | inr plain ↦ elim (Bool-cases (b == esc_byte)) [
      | inl starts ↦
          simp (inside, plain, starts)
            (record {
              answers = tt;
              sound = record { valid = h.valid; named = h.named };
              capacity = refl;
            })
      | inr ordinary ↦ simp (inside, plain, ordinary) (switch-Ends crc8 d.state b h.named h hb)
    ]
  ]
]

Ends-cases :
    {d : Decoder} (r : Run Reply) → Ends d r → (reply : Reply) × (r ≡ done reply) × IsGood d reply
Ends-cases (done reply) h = (reply, refl, h)
Ends-cases abort h = absurd h

-- On a decoder with a valid packet and a state of the enumeration, every byte is handled: no `assert`
-- fails, the packet stays valid with its capacity unchanged, the state stays in the enumeration, and
-- the answer is NONE, NOT_DONE, CRC, TOO_MUCH_DATA or TOO_SMALL.
pub decode_byte-IsGood :
    (crc8 : Crc8) (d : Decoder) (b : ℕ)
    → IsSound d
    → IsByte b
    → (reply : Reply) × (decode_byte crc8 d b ≡ done reply) × IsGood d reply
decode_byte-IsGood crc8 d b h hb = Ends-cases (decode_byte crc8 d b) (decode_byte-Ends crc8 b h hb)

-- What a caller has after a stream of bytes.
pub record Left (d : Decoder) (bs : List ℕ) (r : Error × Decoder × List ℕ) : Type 0 where
  pub answers : Answers r.0
  pub sound : IsSound r.1
  pub capacity : r.1.packet.max_data_len ≡ d.packet.max_data_len
  pub taken : length r.2 ≤ length bs

feed_after :
    (crc8 : Crc8) (d : Decoder) (b : ℕ) (bs : List ℕ) (reply : Reply)
    → decode_byte crc8 d b ≡ done reply
    → IsGood d reply
    → (r : Error × Decoder × List ℕ) × (feed crc8 reply.1 bs ≡ done r) × Left reply.1 bs r
    → (r : Error × Decoder × List ℕ) × (feed crc8 d (b ∷ bs) ≡ done r) × Left d (b ∷ bs) r
unfolding feed
feed_after crc8 d b bs (Error.not_done, d', logged) e g (r, goes, l) = (
  r,
  rw e goes,
  record {
    answers = l.answers;
    sound = l.sound;
    capacity = l.capacity ∙ g.capacity;
    taken = omega arith;
  },
)
feed_after crc8 d b bs (Error.none, d', logged) e g rest = (
  (Error.none, d', bs),
  rw e,
  record { answers = tt; sound = g.sound; capacity = g.capacity; taken = omega arith },
)
feed_after crc8 d b bs (Error.crc, d', logged) e g rest = (
  (Error.crc, d', bs),
  rw e,
  record { answers = tt; sound = g.sound; capacity = g.capacity; taken = omega arith },
)
feed_after crc8 d b bs (Error.too_much_data, d', logged) e g rest = (
  (Error.too_much_data, d', bs),
  rw e,
  record { answers = tt; sound = g.sound; capacity = g.capacity; taken = omega arith },
)
feed_after crc8 d b bs (Error.too_small, d', logged) e g rest = (
  (Error.too_small, d', bs),
  rw e,
  record { answers = tt; sound = g.sound; capacity = g.capacity; taken = omega arith },
)
feed_after crc8 d b bs (Error.timeout, d', logged) e g rest = absurd g.answers
feed_after crc8 d b bs (Error.bad_state, d', logged) e g rest = absurd g.answers
feed_after crc8 d b bs (Error.os, d', logged) e g rest = absurd g.answers

-- On a decoder with a valid packet and a state of the enumeration, a stream of bytes of any length
-- is handled: no `assert` fails, the last answer is NONE, NOT_DONE, CRC, TOO_MUCH_DATA or
-- TOO_SMALL, and the packet is still valid, with its capacity unchanged, and the state in the
-- enumeration.
pub feed-Left :
    (crc8 : Crc8) (d : Decoder) (bs : List ℕ)
    → IsSound d
    → IsBytes bs
    → (r : Error × Decoder × List ℕ) × (feed crc8 d bs ≡ done r) × Left d bs r
unfolding feed
feed-Left crc8 d [] h hb =
    (_, refl, record { answers = tt; sound = h; capacity = refl; taken = omega arith })
feed-Left crc8 d (b ∷ bs) h hb =
    let (reply, e, g) = decode_byte-IsGood crc8 d b h hb.0 in
    feed_after crc8 d b bs reply e g (feed-Left crc8 reply.1 bs g.sound hb.1)
