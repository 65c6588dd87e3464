-- ===== src/Bus/Names.antt =====
-- `IBus::as_str`: the names of commands, by the handlers in the order of registration.
use Prim.Native.String.{String}
use mathlib.Core.Option.{some}
use duino_bus.Base.{ℕ, ◌≡◌, refl, List, [], ◌∷◌, ◌++◌, append_assoc, true, false, All}
use duino_bus.PacketHandler.{PacketHandler}
use duino_bus.Bus.{Bus, is_name, first_name, as_str, add}

abbrev pub Unknown : ℕ → List PacketHandler → Type 0
Unknown cmd hs = All (λ (h : PacketHandler). is_name (h.as_str cmd) ≡ false) hs

first_name-Unknown :
    (hs : List PacketHandler) (cmd : ℕ) → Unknown cmd hs → first_name hs cmd ≡ "???"
unfolding first_name
first_name-Unknown [] cmd u = refl
first_name-Unknown (h ∷ hs) cmd u = rw u.0 (first_name-Unknown hs cmd u.1)

first_name-append :
    (pre : List PacketHandler) (h : PacketHandler) (post : List PacketHandler) (cmd : ℕ)
    (name : String)
    → Unknown cmd pre
    → is_name (some name) ≡ true
    → h.as_str cmd ≡ some name
    → first_name (pre ++ (h ∷ post)) cmd ≡ name
unfolding first_name
first_name-append [] h post cmd name u known e = rw (e, known)
first_name-append (x ∷ pre) h post cmd name u known e =
    rw u.0 (first_name-append pre h post cmd name u.1 known e)

-- While no registered handler knows a command, its name is "???". With a handler `h` added that gives
-- it a name, not beginning with '?', that is its name, and handlers added later do not change it.
pub as_str-add :
    (bus : Bus) (h later : PacketHandler) (cmd : ℕ) (name : String)
    → Unknown cmd bus.handlers
    → is_name (some name) ≡ true
    → h.as_str cmd ≡ some name
    → (as_str bus cmd ≡ "???")
      × (as_str (add bus h) cmd ≡ name)
      × (as_str (add (add bus h) later) cmd ≡ name)
unfolding as_str add
as_str-add bus h later cmd name u known e = (
  first_name-Unknown bus.handlers cmd u,
  first_name-append bus.handlers h [] cmd name u known e,
  rw append_assoc (first_name-append bus.handlers h (later ∷ []) cmd name u known e),
)
