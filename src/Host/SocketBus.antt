-- ===== src/Host/SocketBus.antt =====
-- duino_bus/socket_bus.py: the host's bus over a socket.
mod Tests
use mathlib.Core.Option.{Option, none, some}
use duino_bus.Base.{
  ℕ, ◌≡◌, refl, ap, ◌∙◌, append-nil, ◌++◌, List, [], ◌∷◌, Bool, true, false, Run, done, abort,
  ◌>>=◌, ◌⊎◌, inl, inr,
}
use duino_bus.Host.{ErrorCode}
use duino_bus.Host.Bus.{Port}

-- How `connect` ends: connected, with the time-out that is caught, or with another exception.
pub data Connecting : Type 0 where
  connected timed_out raised : Connecting

-- The options SO_KEEPALIVE, TCP_KEEPIDLE, TCP_KEEPINTVL and TCP_KEEPCNT.
pub data KeepAlive : Type 0 where
  on idle interval count : KeepAlive

-- What the socket module and `poll(0)` do, over the state `W` of the system. An `Info` is an entry of
-- `getaddrinfo`, a socket is a number, and `recv` is `recv(1)`, of one byte or none.
pub record Sockets (W Info : Type 0) : Type 0 where
  pub new_socket : Info → W → ℕ × W
  pub set_timeout : ℕ → W → W
  pub connect : ℕ → Info → W → Connecting × W
  pub set_blocking : ℕ → Bool → W → W
  pub close_socket : ℕ → W → W
  pub readable : ℕ → W → Bool
  pub writable : ℕ → W → Bool
  pub set_option : ℕ → KeepAlive → ℕ → W → W
  pub recv : ℕ → W → Run (List ℕ × W)
  pub send : ℕ → ℕ → W → Run W

-- `is_open` of the attribute `socket`, `none` for None.
unfoldable pub is_open : Option ℕ → Bool
is_open none = false
is_open (some skt) = true

module _ {W Info : Type 0} (sockets : Sockets W Info) where
  -- `close`, which leaves the attribute as it is.
  unfoldable pub close : Option ℕ → W → W
  close none w = w
  close (some skt) w = sockets.close_socket skt w

  unfoldable pub make_socket_non_blocking : ℕ → W → ErrorCode × W
  make_socket_non_blocking skt w = (ErrorCode.none, sockets.set_blocking skt false w)

  -- How an address is tried: how `connect` ends, with the socket and what is behind the call.
  abbrev pub tried : Info → W → Connecting × ℕ × W
  tried info w =
      let (skt, w1) = sockets.new_socket info w in
      let (how, w2) = sockets.connect skt info (sockets.set_timeout skt w1) in (how, skt, w2)

  -- The body of the loop behind `connect`, given what the rest of the loop does.
  abbrev pub after_try : Connecting × ℕ × W → (W → Run (Option ℕ × W)) → Run (Option ℕ × W)
  after_try (Connecting.connected, skt, w) rest = done (some skt, w)
  after_try (Connecting.timed_out, skt, w) rest = rest (sockets.close_socket skt w)
  after_try (Connecting.raised, skt, w) rest = abort

  -- The loop over the addresses: the connected socket, if one is.
  unfoldable pub find_server : List Info → W → Run (Option ℕ × W)
  find_server [] w = done (none, w)
  find_server (info ∷ infos) w = after_try (tried info w) (λ w'. find_server infos w')

  -- What follows the loop. `socket` is the attribute before the call.
  unfoldable pub connect_found : Option ℕ → Option ℕ × W → ErrorCode × Option ℕ × W
  connect_found socket (none, w) = (ErrorCode.os, socket, w)
  connect_found socket (some skt, w) =
      let (err, w') = make_socket_non_blocking skt w in
      elim err [ ErrorCode.none ↦ (ErrorCode.none, some skt, w') | failed ↦ (failed, socket, w') ]

  -- `connect_to_server`, where `infos` is what `getaddrinfo` gives.
  unfoldable pub connect_to_server : List Info → Option ℕ → W → Run (ErrorCode × Option ℕ × W)
  connect_to_server infos socket w = do r ← find_server infos w; done (connect_found socket r)

  unfoldable pub enable_keepalive : Option ℕ → W → W
  enable_keepalive none w = w
  enable_keepalive (some skt) w =
      let w1 = sockets.set_option skt KeepAlive.on 1 w in
      let w2 = sockets.set_option skt KeepAlive.idle 1 w1 in
      let w3 = sockets.set_option skt KeepAlive.interval 1 w2 in
      sockets.set_option skt KeepAlive.count 3 w3

  -- `is_data_available` and `is_space_available`, which raise an exception without a socket.
  unfoldable pub is_data_available : Option ℕ → W → Run Bool
  is_data_available none w = abort
  is_data_available (some skt) w = done (sockets.readable skt w)

  unfoldable pub is_space_available : Option ℕ → W → Run Bool
  is_space_available none w = abort
  is_space_available (some skt) w = done (sockets.writable skt w)

  -- `data[0]`, if there are data.
  abbrev pub first_of : List ℕ × W → Option ℕ × W
  first_of ([], w) = (none, w)
  first_of (b ∷ bs, w) = (some b, w)

  unfoldable pub read_byte : Option ℕ → W → Run (Option ℕ × W)
  read_byte none w = abort
  read_byte (some skt) w = do r ← sockets.recv skt w; done (first_of r)

  unfoldable pub write_byte : Option ℕ → ℕ → W → Run (Bool × W)
  write_byte none byte w = abort
  write_byte (some skt) byte w = do w' ← sockets.send skt byte w; done (true, w')

  -- Addresses that are all tried, each with a time-out that is caught, from a state to another.
  pub data TimesOut : List Info → W → W → Type 0 where
    none_left : {w : W} → TimesOut [] w w
    one_more :
        {info : Info} {infos : List Info} {w w1 w2 : W} {skt : ℕ}
        → tried info w ≡ (Connecting.timed_out, skt, w1)
        → TimesOut infos (sockets.close_socket skt w1) w2
        → TimesOut (info ∷ infos) w w2

  find_server-TimesOut :
      {pre : List Info} {w w1 : W} (post : List Info)
      → TimesOut pre w w1
      → find_server (pre ++ post) w ≡ find_server post w1
  unfolding find_server
  find_server-TimesOut post none_left = refl
  find_server-TimesOut {pre = info ∷ infos} post (one_more e others) =
      ap (λ t. after_try t (λ w'. find_server (infos ++ post) w')) e
      ∙ find_server-TimesOut post others

  -- The first address that does not time out decides: if it connects, `connect_to_server` ends with NONE
  -- and its socket, non-blocking, whatever addresses come after it; if it raises an exception, so does
  -- `connect_to_server`. If all of them time out, it ends with OS and the socket as before.
  pub connect_to_server-first :
      (pre post : List Info) (info : Info) (socket : Option ℕ) (w w1 : W)
      → TimesOut pre w w1
      → ((skt : ℕ) (w2 : W)
          → tried info w1 ≡ (Connecting.connected, skt, w2)
          → connect_to_server (pre ++ (info ∷ post)) socket w
            ≡ done (ErrorCode.none, some skt, sockets.set_blocking skt false w2))
        × ((skt : ℕ) (w2 : W)
            → tried info w1 ≡ (Connecting.raised, skt, w2)
            → connect_to_server (pre ++ (info ∷ post)) socket w ≡ abort)
        × (connect_to_server pre socket w ≡ done (ErrorCode.os, socket, w1))
  unfolding connect_to_server find_server connect_found make_socket_non_blocking
  connect_to_server-first pre post info socket w w1 h = (
    λ skt w2 e. found (Connecting.connected, skt, w2) e,
    λ skt w2 e. found (Connecting.raised, skt, w2) e,
    rw (← append-nil pre, find_server-TimesOut [] h),
  )
    where
      found :
          (t : Connecting × ℕ × W)
          → tried info w1 ≡ t
          → connect_to_server (pre ++ (info ∷ post)) socket w
            ≡ (do r ← after_try t (λ w'. find_server post w'); done (connect_found socket r))
      found t e =
          ap (λ x. do r ← x; done (connect_found socket r))
            (find_server-TimesOut (info ∷ post) h
              ∙ ap (λ t'. after_try t' (λ w'. find_server post w')) e)
