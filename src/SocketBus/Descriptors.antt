-- ===== src/SocketBus/Descriptors.antt =====
-- Which descriptors the set-up of a socket bus leaves open.
use mathlib.Core.Option.{Option, none, some}
use duino_bus.Base.{
  ℕ, ◌≡◌, ◌≢◌, refl, sym, ap, ◌∙◌, List, ◌∷◌, Bool, true, false, if◌then◌else◌, ◌⊎◌, inl, inr, All,
  ne→==_false,
}
use duino_bus.Packet.{Error}
use duino_bus.SocketBus.{
  Os, Search, Answer, adopt, await_client, serve_found, setup_server, connect_found,
  connect_to_server, make_non_blocking, find_listener, find_server,
}
use duino_bus.SocketBus.Lookup.{
  IsFresh, Table, remove_new, without_fresh, Leaves, closes_new, find_server-Leaves,
  find_listener-Leaves, with_new,
}

module _ {W A : Type 0} (os : Os W A) (t : Table os) where
  -- NONE with one more descriptor open, which is in `m_socket`, or OS with `m_socket` as it was.
  abbrev pub Connects : Option ℕ → List ℕ → Answer W → Type 0
  Connects m_socket fds r =
      ((r.0 ≡ Error.none) × (fd : ℕ) × (r.1 ≡ some fd) × (t.fds r.2 ≡ fd ∷ fds))
      ⊎ ((r.0 ≡ Error.os) × (r.1 ≡ m_socket) × (t.fds r.2 ≡ fds))

  -- The same, but OS may leave an accepted and a listening socket open.
  abbrev pub Serves : Option ℕ → List ℕ → Answer W → Type 0
  Serves m_socket fds r =
      Connects m_socket fds r
      ⊎ ((r.0 ≡ Error.os)
          × (r.1 ≡ m_socket)
          × (client : ℕ) × (listener : ℕ) × (t.fds r.2 ≡ client ∷ listener ∷ fds))

  fds-make_non_blocking : (fd : ℕ) (w : W) → t.fds (make_non_blocking os fd w).1 ≡ t.fds w
  unfolding make_non_blocking
  fds-make_non_blocking fd w =
      t.fds-set_flags fd (os.or_nonblock (os.get_flags fd w).0) (os.get_flags fd w).1
      ∙ t.fds-get_flags fd w

  connect_found-Connects :
      (m_socket : Option ℕ) (fds : List ℕ) (search : Search W)
      → Leaves os t fds search
      → Connects m_socket fds (connect_found os m_socket search)
  unfolding connect_found
  connect_found-Connects m_socket fds (Search.failed w) e = inr (refl, refl, e)
  connect_found-Connects m_socket fds (Search.exhausted last w) (e, h) = inr (
    refl,
    refl,
    t.fds-close last (os.free_addresses w)
        ∙ rw (t.fds-free_addresses w, e) (without_fresh last fds h),
  )
  connect_found-Connects m_socket fds (Search.found fd w) (e, h) =
      ended (make_non_blocking os fd w).0 (make_non_blocking os fd w).1
        (fds-make_non_blocking fd w ∙ e)
    where
      ended :
          (ok : Bool) (w1 : W)
          → t.fds w1 ≡ fd ∷ fds
          → Connects m_socket fds (
              if ok
              then (Error.none, some fd, os.free_addresses w1)
              else (Error.os, m_socket, os.close (some fd) w1))
      ended true w1 e' = inl (refl, fd, refl, t.fds-free_addresses w1 ∙ e')
      ended false w1 e' = inr (refl, refl, closes_new os t fds fd w1 e' h)

  adopt-Serves :
      (m_socket : Option ℕ) (fds : List ℕ) (listener client : ℕ) (w : W)
      → t.fds w ≡ client ∷ listener ∷ fds
      → All (λ x. x ≢ client) (listener ∷ fds)
      → All (λ x. x ≢ listener) fds
      → Serves m_socket fds (adopt os m_socket listener client w)
  unfolding adopt
  adopt-Serves m_socket fds listener client w e hc hl =
      ended (make_non_blocking os client w).0 (make_non_blocking os client w).1
        (fds-make_non_blocking client w ∙ e)
    where
      ended :
          (ok : Bool) (w1 : W)
          → t.fds w1 ≡ client ∷ listener ∷ fds
          → Serves m_socket fds (
              if ok
              then (Error.none, some client, os.close (some listener) w1)
              else (Error.os, m_socket, w1))
      ended true w1 e' = inl (
          inl (
            refl,
            client,
            refl,
            t.fds-close (some listener) w1
                ∙ rw (e', ne→==_false client listener (λ q. hc.0 (sym q)))
                    (ap (λ l. client ∷ l) (remove_new listener fds hl)),
          ))
      ended false w1 e' = inr (refl, refl, client, listener, e')

  await_client-Serves :
      (m_socket : Option ℕ) (fds : List ℕ) (listener : ℕ) (w : W)
      → t.fds w ≡ listener ∷ fds
      → All (λ x. x ≢ listener) fds
      → Serves m_socket fds (await_client os m_socket listener w)
  unfolding await_client
  await_client-Serves m_socket fds listener w e h =
      listens (os.listen listener w).0 (os.listen listener w).1 (t.fds-listen listener w ∙ e)
    where
      accepted :
          (client : Option ℕ) (w2 : W)
          → t.fds w2 ≡ with_new client (listener ∷ fds)
          → IsFresh client (listener ∷ fds)
          → Serves m_socket fds (elim client [
            | none ↦ (Error.os, m_socket, os.close (some listener) w2)
            | some fd ↦ adopt os m_socket listener fd w2
          ])
      accepted none w2 e' h' = inl (inr (refl, refl, closes_new os t fds listener w2 e' h))
      accepted (some fd) w2 e' h' = adopt-Serves m_socket fds listener fd w2 e' h' h

      listens :
          (listening : Bool) (w1 : W)
          → t.fds w1 ≡ listener ∷ fds
          → Serves m_socket fds (elim listening [
            | false ↦ (Error.os, m_socket, os.close (some listener) w1)
            | true ↦
                let (client, w2) = os.accept listener w1 in
                elim client [
                  | none ↦ (Error.os, m_socket, os.close (some listener) w2)
                  | some fd ↦ adopt os m_socket listener fd w2
                ]
          ])
      listens false w1 e' = inl (inr (refl, refl, closes_new os t fds listener w1 e' h))
      listens true w1 e' =
          accepted (os.accept listener w1).0 (os.accept listener w1).1
            (t.fds-accept listener w1 ∙ ap (with_new (os.accept listener w1).0) e')
            (rw (← e') (t.fresh_client listener w1))

  serve_found-Serves :
      (m_socket : Option ℕ) (fds : List ℕ) (search : Search W)
      → Leaves os t fds search
      → Serves m_socket fds (serve_found os m_socket search)
  unfolding serve_found
  serve_found-Serves m_socket fds (Search.failed w) e = inl (inr (refl, refl, e))
  serve_found-Serves m_socket fds (Search.exhausted last w) (e, h) = inl (
      inr (
        refl,
        refl,
        t.fds-close last (os.free_addresses w)
            ∙ rw (t.fds-free_addresses w, e) (without_fresh last fds h),
      ))
  serve_found-Serves m_socket fds (Search.found fd w) (e, h) =
      await_client-Serves m_socket fds fd (os.free_addresses w) (t.fds-free_addresses w ∙ e) h

  -- Where the uninitialised socket variable does not happen to hold an open descriptor,
  -- `connectToServer` ends with NONE and exactly one more descriptor open, which is in `m_socket`, or with
  -- OS, `m_socket` as it was and no more and no fewer descriptors open than before.
  pub connect_to_server-Connects :
      (m_socket old : Option ℕ) (w : W)
      → IsFresh old (t.fds w)
      → Connects m_socket (t.fds w) (connect_to_server os m_socket old w)
  unfolding connect_to_server
  connect_to_server-Connects m_socket old w h = searched (os.get_addresses w).0
    where
      w1 : W
      w1 = (os.get_addresses w).1

      searched :
          (addresses : Option (List A))
          → Connects m_socket (t.fds w) (elim addresses [
            | none ↦ (Error.os, m_socket, w1)
            | some infos ↦ connect_found os m_socket (find_server os infos old w1)
          ])
      searched none = inr (refl, refl, t.fds-get_addresses w)
      searched (some infos) =
          connect_found-Connects m_socket (t.fds w) (find_server os infos old w1)
            (find_server-Leaves os t (t.fds w) infos old w1 (t.fds-get_addresses w) h)

  -- Where the uninitialised socket variable does not happen to hold an open descriptor,
  -- `setupServer` ends with NONE and exactly one more descriptor open, which is in `m_socket`, or
  -- with OS and `m_socket` as it was; then no more and no fewer descriptors are open than before,
  -- or else two more are, an accepted and a listening socket.
  pub setup_server-Serves :
      (m_socket old : Option ℕ) (w : W)
      → IsFresh old (t.fds w)
      → Serves m_socket (t.fds w) (setup_server os m_socket old w)
  unfolding setup_server
  setup_server-Serves m_socket old w h = searched (os.get_addresses w).0
    where
      w1 : W
      w1 = (os.get_addresses w).1

      searched :
          (addresses : Option (List A))
          → Serves m_socket (t.fds w) (elim addresses [
            | none ↦ (Error.os, m_socket, w1)
            | some infos ↦ serve_found os m_socket (find_listener os infos old w1)
          ])
      searched none = inl (inr (refl, refl, t.fds-get_addresses w))
      searched (some infos) =
          serve_found-Serves m_socket (t.fds w) (find_listener os infos old w1)
            (find_listener-Leaves os t (t.fds w) infos old w1 (t.fds-get_addresses w) h)
