-- ===== src/Encoder/Frame.antt =====
-- The wire format that Packet.h describes, written down independently of the encoder's states.
use duino_bus.Base.{
  ℕ, ◌*◌, ◌≤◌, ◌≡◌, ◌≢◌, arith, List, [], ◌∷◌, ◌++◌, if◌then◌else◌, ◌==◌, length, append_assoc,
  IsByte, IsBytes, append-IsBytes, refl, All,
}
use duino_bus.Packet.{end_byte, esc_byte, esc_end, esc_esc}

unfoldable pub escape : ℕ → List ℕ
escape b =
    if b == end_byte
    then esc_byte ∷ esc_end ∷ []
    else if b == esc_byte
    then esc_byte ∷ esc_esc ∷ []
    else b ∷ []

unfoldable pub escape_all : List ℕ → List ℕ
escape_all [] = []
escape_all (b ∷ bs) = escape b ++ escape_all bs

-- END, then the command, the data and the CRC with every END and ESC escaped, then END.
unfoldable pub frame : ℕ → List ℕ → ℕ → List ℕ
frame cmd bytes crc = end_byte ∷ (escape_all (cmd ∷ (bytes ++ (crc ∷ []))) ++ (end_byte ∷ []))

pub escape_all-append : (xs ys : List ℕ) → escape_all (xs ++ ys) ≡ escape_all xs ++ escape_all ys
unfolding escape_all
escape_all-append [] ys = refl
escape_all-append (x ∷ xs) ys =
    rw (escape_all-append xs ys, append_assoc (escape x) (escape_all xs) (escape_all ys))

-- No END stands inside a frame, whatever its bytes.
pub escape_all-ne-end : (bs : List ℕ) → All (λ b. b ≢ end_byte) (escape_all bs)
unfolding escape_all escape
escape_all-ne-end [] = tt
escape_all-ne-end (b ∷ bs) = ground (arith, escape_all-ne-end bs)

escape_all-IsBytes : (bs : List ℕ) → IsBytes bs → IsBytes (escape_all bs)
unfolding escape_all escape
escape_all-IsBytes [] h = tt
escape_all-IsBytes (b ∷ bs) h = ground (arith, escape_all-IsBytes bs h.1)

pub frame-IsBytes :
    (cmd : ℕ) (bytes : List ℕ) (c : ℕ)
    → IsByte cmd
    → IsBytes bytes
    → IsByte c
    → IsBytes (frame cmd bytes c)
unfolding frame
frame-IsBytes cmd bytes c hc hb h =
    let inside = append-IsBytes bytes (c ∷ []) hb (h, tt) in
    (
      omega arith,
      append-IsBytes (escape_all (cmd ∷ (bytes ++ (c ∷ [])))) (end_byte ∷ [])
          (escape_all-IsBytes (cmd ∷ (bytes ++ (c ∷ []))) (hc, inside)) (omega arith, tt),
    )

pub length-escape_all :
    (bs : List ℕ) → (length bs ≤ length (escape_all bs)) × (length (escape_all bs) ≤ 2 * length bs)
unfolding escape_all escape
length-escape_all [] = omega arith
length-escape_all (b ∷ bs) = ground (arith, length-escape_all bs)
