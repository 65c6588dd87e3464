-- ===== src/SocketBus/Outcome.antt =====
-- What the two ways to set a socket bus up leave in `m_socket`.
use mathlib.Core.Option.{Option, none, some}
use duino_bus.Base.{ℕ, ◌≡◌, refl, List, Bool, true, false, if◌then◌else◌, ◌⊎◌, inl, inr}
use duino_bus.Packet.{Error}
use duino_bus.SocketBus.{
  Os, Search, Answer, adopt, await_client, serve_found, setup_server, connect_found,
  connect_to_server, make_non_blocking, find_listener, find_server,
}

-- NONE with a socket, or OS with the socket as it was.
abbrev pub Settles : {W : Type 0} → Option ℕ → Answer W → Type 0
Settles m_socket r =
    ((r.0 ≡ Error.none) × (fd : ℕ) × (r.1 ≡ some fd)) ⊎ ((r.0 ≡ Error.os) × (r.1 ≡ m_socket))

settled :
    {W : Type 0} (b : Bool) (m_socket : Option ℕ) (fd : ℕ) (w w' : W)
    → Settles m_socket (if b then (Error.none, some fd, w) else (Error.os, m_socket, w'))
settled true m_socket fd w w' = inl (refl, fd, refl)
settled false m_socket fd w w' = inr (refl, refl)

module _ {W A : Type 0} (os : Os W A) where
  await_client-Settles :
      (m_socket : Option ℕ) (listener : ℕ) (w : W)
      → Settles m_socket (await_client os m_socket listener w)
  unfolding await_client adopt
  await_client-Settles m_socket listener w =
      listens ((os.listen listener w).0) (accepts ((os.accept listener (os.listen listener w).1).0))
    where
      w1 : W
      w1 = (os.listen listener w).1

      w2 : W
      w2 = (os.accept listener w1).1

      accepted : Option ℕ → Answer W
      accepted none = (Error.os, m_socket, os.close (some listener) w2)
      accepted (some fd) = adopt os m_socket listener fd w2

      accepts : (client : Option ℕ) → Settles m_socket (accepted client)
      accepts none = inr (refl, refl)
      accepts (some fd) =
          settled ((make_non_blocking os fd w2).0) m_socket fd
            (os.close (some listener) (make_non_blocking os fd w2).1) (make_non_blocking os fd w2).1

      listens :
          (listening : Bool)
          → Settles m_socket (accepted (os.accept listener w1).0)
          → Settles m_socket (elim listening [
            | false ↦ (Error.os, m_socket, os.close (some listener) w1)
            | true ↦ accepted (os.accept listener w1).0
          ])
      listens false h = inr (refl, refl)
      listens true h = h

  serve_found-Settles :
      (m_socket : Option ℕ) (search : Search W) → Settles m_socket (serve_found os m_socket search)
  unfolding serve_found
  serve_found-Settles m_socket (Search.failed w) = inr (refl, refl)
  serve_found-Settles m_socket (Search.exhausted last w) = inr (refl, refl)
  serve_found-Settles m_socket (Search.found fd w) =
      await_client-Settles m_socket fd (os.free_addresses w)

  connect_found-Settles :
      (m_socket : Option ℕ) (search : Search W)
      → Settles m_socket (connect_found os m_socket search)
  unfolding connect_found
  connect_found-Settles m_socket (Search.failed w) = inr (refl, refl)
  connect_found-Settles m_socket (Search.exhausted last w) = inr (refl, refl)
  connect_found-Settles m_socket (Search.found fd w) =
      let (ok, w1) = make_non_blocking os fd w in
      settled ok m_socket fd (os.free_addresses w1) (os.close (some fd) w1)

  searched :
      (addresses : Option (List A)) (m_socket : Option ℕ) (w1 : W) (result : List A → Answer W)
      → ((infos : List A) → Settles m_socket (result infos))
      → Settles m_socket
          (elim addresses [ none ↦ (Error.os, m_socket, w1) | some infos ↦ result infos ])
  searched none m_socket w1 result h = inr (refl, refl)
  searched (some infos) m_socket w1 result h = h infos

  -- Whatever the system calls give, `setupServer` and `connectToServer` end with NONE and a socket in
  -- `m_socket`, or with OS and `m_socket` as it was.
  pub connect_to_server-Settles :
      (m_socket old : Option ℕ) (w : W)
      → Settles m_socket (setup_server os m_socket old w)
        × Settles m_socket (connect_to_server os m_socket old w)
  unfolding setup_server connect_to_server
  connect_to_server-Settles m_socket old w =
      let (addresses, w1) = os.get_addresses w in
      (
        searched addresses m_socket w1 _
            (λ infos. serve_found-Settles m_socket (find_listener os infos old w1)),
        searched addresses m_socket w1 _
            (λ infos. connect_found-Settles m_socket (find_server os infos old w1)),
      )
