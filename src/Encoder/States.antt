-- ===== src/Encoder/States.antt =====
-- The invariant of the encoder on a packet, call by call.
use mathlib.Core.Option.{some}
use mathlib.Core.Path.{subst}
use duino_bus.Base.{
  ℕ, ◌+◌, ◌≤◌, ◌≡◌, refl, sym, arith, Bool, done, IsByte, get_or, get_or-IsByte, Bool-cases, inl,
  inr, ◌==◌, ltb,
}
use duino_bus.Crc8.{Crc8}
use duino_bus.Packet.{Packet, Error, calc_crc, end_byte, esc_byte, add_size}
use duino_bus.Packet.Bounds.{IsValid, calc_and_store_crc-IsValid, calc_crc-IsByte}
use duino_bus.Encoder.{Encoder, State, send, encode_in, encode_byte, encode_start}

-- Past the command, the index is at a data byte, at the CRC (`n`) or behind it (`n + 1`).
abbrev pub InRange : State → ℕ → ℕ → Type 0
InRange State.idle i n = Unit
InRange State.command i n = Unit
InRange State.payload i n = i ≤ n + 1
InRange State.escape i n = i ≤ n + 1
InRange (State.other k) i n = ⊥

pub record IsReady (p : Packet) (e : Encoder) : Type 0 where
  pub holds : e.packet ≡ some p
  pub valid : IsValid p
  pub in_range : InRange e.state e.encode_idx p.data_len
  pub escape_byte : IsByte e.escape_char

-- The call goes on, or it has sent the closing END and is idle.
abbrev Goes : Error → State → Type 0
Goes Error.not_done s = Unit
Goes Error.none s = s ≡ State.idle
Goes _ s = ⊥

pub record IsGood (p : Packet) (r : Error × ℕ × Encoder) : Type 0 where
  pub byte : IsByte r.1
  pub goes : Goes r.0 r.2.state
  pub ready : IsReady p r.2

pub encode_start-IsReady :
    (crc8 : Crc8) (e : Encoder) (p : Packet)
    → IsValid p
    → IsByte e.escape_char
    → let (p', e', logged) = encode_start crc8 e p in IsReady p' e'
unfolding encode_start
encode_start-IsReady crc8 e p v h = record {
  holds = refl;
  valid = calc_and_store_crc-IsValid crc8 v;
  in_range = tt;
  escape_byte = h;
}

module _ (p : Packet) (v : IsValid p) (d : Bool) where
  abbrev at : State → ℕ → ℕ → Encoder
  at s i c = record { packet = some p; state = s; encode_idx = i; escape_char = c; debug = d }

  send-IsGood :
      (s : State) (i j c b : ℕ)
      → IsByte b
      → IsByte c
      → j ≤ p.data_len + 1
      → IsGood p (send (at s i c) j b)
  unfolding send
  send-IsGood s i j c b hb hc hj = elim (Bool-cases (b == end_byte)) [
    | inl is_end ↦ rw is_end (good 0xdb 0xdc State.escape (omega arith) (omega arith) hj)
    | inr not_end ↦ elim (Bool-cases (b == esc_byte)) [
      | inl is_esc ↦
          rw (not_end, is_esc) (good 0xdb 0xdd State.escape (omega arith) (omega arith) hj)
      | inr plain ↦ rw (not_end, plain) (good b c State.payload hb hc hj)
    ]
  ]
    where
      good :
          (x c' : ℕ) (s' : State)
          → IsByte x
          → IsByte c'
          → InRange s' j p.data_len
          → IsGood p (Error.not_done, x, at s' j c')
      good x c' s' hx hc' hr = record {
        byte = hx;
        goes = tt;
        ready = record { holds = refl; valid = v; in_range = hr; escape_byte = hc' };
      }

  encode_in-IsGood :
      (crc8 : Crc8) (s : State) (i c x : ℕ)
      → InRange s i p.data_len
      → IsByte c
      → (r : Error × ℕ × Encoder) × (encode_in crc8 s (at s i c) x ≡ done r) × IsGood p r
  unfolding encode_in
  encode_in-IsGood crc8 State.idle i c x hr hc = (
    _,
    refl,
    record {
      byte = omega arith;
      goes = tt;
      ready = record { holds = refl; valid = v; in_range = tt; escape_byte = hc };
    },
  )
  encode_in-IsGood crc8 State.command i c x hr hc =
      (_, refl, send-IsGood State.command i 0 c p.command v.command_byte hc (omega arith))
  encode_in-IsGood crc8 State.payload i c x hr hc = elim (Bool-cases (ltb i p.data_len)) [
    | inl inside ↦ rw inside (
      _,
      refl,
      send-IsGood State.payload i (add_size i 1) c (get_or p.storage i 0)
          (get_or-IsByte p.storage i v.bytes) hc (ground arith),
    )
    | inr past ↦ rw past (elim (Bool-cases (i == p.data_len)) [
      | inl at_crc ↦ rw at_crc (
        _,
        refl,
        send-IsGood State.payload i (add_size i 1) c (calc_crc crc8 p) (calc_crc-IsByte crc8 p) hc
            (ground arith),
      )
      | inr behind ↦ rw behind (
        _,
        refl,
        record {
          byte = omega arith;
          goes = refl;
          ready = record { holds = refl; valid = v; in_range = tt; escape_byte = hc };
        },
      )
    ])
  ]
  encode_in-IsGood crc8 State.escape i c x hr hc = (
    _,
    refl,
    record {
      byte = hc;
      goes = tt;
      ready = record { holds = refl; valid = v; in_range = hr; escape_byte = hc };
    },
  )
  encode_in-IsGood crc8 (State.other n) i c x hr hc = absurd hr

-- A call of `encodeByte` on a valid packet, in a state of the enumeration with the index in range,
-- ends in such a state with the index in range; it writes a byte, and answers NOT_DONE, or NONE and
-- is idle.
pub encode_byte-IsGood :
    (crc8 : Crc8) (p : Packet) (e : Encoder) (x : ℕ)
    → IsReady p e
    → (r : Error × ℕ × Encoder) × (encode_byte crc8 e x ≡ done r) × IsGood p r
unfolding encode_byte
encode_byte-IsGood crc8 p e x h =
    subst
      (λ q.
        (r : Error × ℕ × Encoder) × (encode_in crc8 e.state (record e { packet = q }) x ≡ done r)
        × IsGood p r)
      (sym h.holds)
      (encode_in-IsGood p h.valid e.debug crc8 e.state e.encode_idx e.escape_char x h.in_range
        h.escape_byte)

encode_in-bad_state :
    (crc8 : Crc8) (s : State) (e : Encoder) (x b : ℕ) (e' : Encoder)
    → encode_in crc8 s e x ≡ done (Error.bad_state, b, e')
    → (n : ℕ) × (s ≡ State.other n) × (b ≡ x) × (e' ≡ e)
unfolding encode_in send
encode_in-bad_state crc8 State.idle e x b e' h = cc
encode_in-bad_state crc8 State.command e x b e' h = absurd (ground arith)
encode_in-bad_state crc8 State.payload e x b e' h = absurd (ground arith)
encode_in-bad_state crc8 State.escape e x b e' h = cc
encode_in-bad_state crc8 (State.other n) e x b e' h = (n, refl, cc, cc)

-- `encodeByte` answers BAD_STATE only in a state outside the enumeration, and then changes nothing.
pub encode_byte-bad_state :
    (crc8 : Crc8) (e : Encoder) (x b : ℕ) (e' : Encoder)
    → encode_byte crc8 e x ≡ done (Error.bad_state, b, e')
    → (n : ℕ) × (e.state ≡ State.other n) × (b ≡ x) × (e' ≡ e)
unfolding encode_byte
encode_byte-bad_state crc8 e x b e' h = encode_in-bad_state crc8 e.state e x b e' h
