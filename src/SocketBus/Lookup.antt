-- ===== src/SocketBus/Lookup.antt =====
-- The open descriptors, and what the loops over the addresses do with them.
use mathlib.Core.Option.{Option, none, some}
use duino_bus.Base.{
  ℕ, ◌≡◌, ◌≢◌, refl, ap, ◌∙◌, List, [], ◌∷◌, Bool, true, false, if◌then◌else◌, ◌==◌, All, ==_refl,
  ne→==_false,
}
use duino_bus.SocketBus.{Os, Search, find_listener, find_server}

-- The list without a descriptor, if there is one.
abbrev pub remove : ℕ → List ℕ → List ℕ
remove n [] = []
remove n (x ∷ xs) = if x == n then remove n xs else x ∷ remove n xs

abbrev pub without : Option ℕ → List ℕ → List ℕ
without none fds = fds
without (some n) fds = remove n fds

-- A call that may open a descriptor, which is then a new one.
abbrev pub IsFresh : Option ℕ → List ℕ → Type 0
IsFresh none fds = Unit
IsFresh (some n) fds = All (λ x. x ≢ n) fds

abbrev pub with_new : Option ℕ → List ℕ → List ℕ
with_new none fds = fds
with_new (some n) fds = n ∷ fds

-- What the system calls do with the open descriptors: `socket` and `accept` open a new one or none,
-- `close` closes the one that it is given and leaves the others, and no other call opens or closes any.
pub record Table {W A : Type 0} (os : Os W A) : Type 0 where
  pub fds : W → List ℕ
  pub fresh_socket : (a : A) (w : W) → IsFresh (os.socket a w).0 (fds w)
  pub fds-socket : (a : A) (w : W) → fds (os.socket a w).1 ≡ with_new (os.socket a w).0 (fds w)
  pub fresh_client : (fd : ℕ) (w : W) → IsFresh (os.accept fd w).0 (fds w)
  pub fds-accept : (fd : ℕ) (w : W) → fds (os.accept fd w).1 ≡ with_new (os.accept fd w).0 (fds w)
  pub fds-close : (fd : Option ℕ) (w : W) → fds (os.close fd w) ≡ without fd (fds w)
  pub fds-get_addresses : (w : W) → fds (os.get_addresses w).1 ≡ fds w
  pub fds-free_addresses : (w : W) → fds (os.free_addresses w) ≡ fds w
  pub fds-set_reuse_addr : (fd : ℕ) (w : W) → fds (os.set_reuse_addr fd w).1 ≡ fds w
  pub fds-bind : (fd : ℕ) (a : A) (w : W) → fds (os.bind fd a w).1 ≡ fds w
  pub fds-connect : (fd : ℕ) (a : A) (w : W) → fds (os.connect fd a w).1 ≡ fds w
  pub fds-listen : (fd : ℕ) (w : W) → fds (os.listen fd w).1 ≡ fds w
  pub fds-get_flags : (fd : ℕ) (w : W) → fds (os.get_flags fd w).1 ≡ fds w
  pub fds-set_flags : (fd flags : ℕ) (w : W) → fds (os.set_flags fd flags w).1 ≡ fds w

remove_fresh : (n : ℕ) (fds : List ℕ) → All (λ x. x ≢ n) fds → remove n fds ≡ fds
remove_fresh n [] h = refl
remove_fresh n (x ∷ fds) h = rw (ne→==_false x n h.0) (ap (λ l. x ∷ l) (remove_fresh n fds h.1))

pub remove_new : (n : ℕ) (fds : List ℕ) → All (λ x. x ≢ n) fds → remove n (n ∷ fds) ≡ fds
remove_new n fds h = rw (==_refl n) (remove_fresh n fds h)

pub without_fresh : (last : Option ℕ) (fds : List ℕ) → IsFresh last fds → without last fds ≡ fds
without_fresh none fds h = refl
without_fresh (some n) fds h = remove_fresh n fds h

module _ {W A : Type 0} (os : Os W A) (t : Table os) where
  -- What the loop over the addresses leaves open besides `fds`.
  abbrev pub Leaves : List ℕ → Search W → Type 0
  Leaves fds (Search.failed w) = t.fds w ≡ fds
  Leaves fds (Search.exhausted last w) = (t.fds w ≡ fds) × IsFresh last fds
  Leaves fds (Search.found fd w) = (t.fds w ≡ fd ∷ fds) × All (λ x. x ≢ fd) fds

  -- The rest of a loop, from any state with `fds` open.
  abbrev Later : List ℕ → (Option ℕ → W → Search W) → Type 0
  Later fds rest =
      (last' : Option ℕ) (w' : W) → t.fds w' ≡ fds → IsFresh last' fds → Leaves fds (rest last' w')

  pub closes_new :
      (fds : List ℕ) (fd : ℕ) (w : W)
      → t.fds w ≡ fd ∷ fds
      → All (λ x. x ≢ fd) fds
      → t.fds (os.close (some fd) w) ≡ fds
  closes_new fds fd w e h = t.fds-close (some fd) w ∙ rw e (remove_new fd fds h)

  pub find_server-Leaves :
      (fds : List ℕ) (infos : List A) (last : Option ℕ) (w : W)
      → t.fds w ≡ fds
      → IsFresh last fds
      → Leaves fds (find_server os infos last w)
  unfolding find_server
  find_server-Leaves fds [] last w e h = (e, h)
  find_server-Leaves fds (a ∷ infos) last w e h =
      opened (os.socket a w).0 (t.fds-socket a w ∙ ap (with_new (os.socket a w).0) e)
        (rw (← e) (t.fresh_socket a w)) (find_server-Leaves fds infos)
    where
      w1 : W
      w1 = (os.socket a w).1

      connected :
          (fd : ℕ) (ok : Bool)
          → t.fds (os.connect fd a w1).1 ≡ fd ∷ fds
          → All (λ x. x ≢ fd) fds
          → Later fds (find_server os infos)
          → Leaves fds (elim ok [
            | false ↦ find_server os infos (some fd) (os.close (some fd) (os.connect fd a w1).1)
            | true ↦ Search.found fd (os.connect fd a w1).1
          ])
      connected fd false e' h' later =
          later (some fd) (os.close (some fd) (os.connect fd a w1).1)
            (closes_new fds fd (os.connect fd a w1).1 e' h') h'
      connected fd true e' h' later = (e', h')

      opened :
          (skt : Option ℕ)
          → t.fds w1 ≡ with_new skt fds
          → IsFresh skt fds
          → Later fds (find_server os infos)
          → Leaves fds (elim skt [
            | none ↦ find_server os infos none w1
            | some fd ↦
                let (ok, w2) = os.connect fd a w1 in
                elim ok [
                  | false ↦ find_server os infos (some fd) (os.close (some fd) w2)
                  | true ↦ Search.found fd w2
                ]
          ])
      opened none e' h' later = later none w1 e' tt
      opened (some fd) e' h' later =
          connected fd (os.connect fd a w1).0 (t.fds-connect fd a w1 ∙ e') h' later

  pub find_listener-Leaves :
      (fds : List ℕ) (infos : List A) (last : Option ℕ) (w : W)
      → t.fds w ≡ fds
      → IsFresh last fds
      → Leaves fds (find_listener os infos last w)
  unfolding find_listener
  find_listener-Leaves fds [] last w e h = (e, h)
  find_listener-Leaves fds (a ∷ infos) last w e h =
      opened (os.socket a w).0 (t.fds-socket a w ∙ ap (with_new (os.socket a w).0) e)
        (rw (← e) (t.fresh_socket a w)) (find_listener-Leaves fds infos)
    where
      w1 : W
      w1 = (os.socket a w).1

      bound :
          (fd : ℕ) (ok : Bool) (w3 : W)
          → t.fds w3 ≡ fd ∷ fds
          → All (λ x. x ≢ fd) fds
          → Later fds (find_listener os infos)
          → Leaves fds (elim ok [
            | false ↦ find_listener os infos (some fd) (os.close (some fd) w3)
            | true ↦ Search.found fd w3
          ])
      bound fd false w3 e' h' later =
          later (some fd) (os.close (some fd) w3) (closes_new fds fd w3 e' h') h'
      bound fd true w3 e' h' later = (e', h')

      reused :
          (fd : ℕ) (reuse : Bool) (w2 : W)
          → t.fds w2 ≡ fd ∷ fds
          → All (λ x. x ≢ fd) fds
          → Later fds (find_listener os infos)
          → Leaves fds (elim reuse [
            | false ↦ Search.failed (os.close (some fd) w2)
            | true ↦
                let (ok, w3) = os.bind fd a w2 in
                elim ok [
                  | false ↦ find_listener os infos (some fd) (os.close (some fd) w3)
                  | true ↦ Search.found fd w3
                ]
          ])
      reused fd false w2 e' h' later = closes_new fds fd w2 e' h'
      reused fd true w2 e' h' later =
          bound fd (os.bind fd a w2).0 (os.bind fd a w2).1 (t.fds-bind fd a w2 ∙ e') h' later

      opened :
          (skt : Option ℕ)
          → t.fds w1 ≡ with_new skt fds
          → IsFresh skt fds
          → Later fds (find_listener os infos)
          → Leaves fds (elim skt [
            | none ↦ find_listener os infos none w1
            | some fd ↦
                let (reuse, w2) = os.set_reuse_addr fd w1 in
                elim reuse [
                  | false ↦ Search.failed (os.close (some fd) w2)
                  | true ↦
                      let (ok, w3) = os.bind fd a w2 in
                      elim ok [
                        | false ↦ find_listener os infos (some fd) (os.close (some fd) w3)
                        | true ↦ Search.found fd w3
                      ]
                ]
          ])
      opened none e' h' later = later none w1 e' tt
      opened (some fd) e' h' later =
          reused fd (os.set_reuse_addr fd w1).0 (os.set_reuse_addr fd w1).1
            (t.fds-set_reuse_addr fd w1 ∙ e') h' later
