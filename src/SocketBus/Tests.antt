-- ===== src/SocketBus/Tests.antt =====
-- The set-up of a socket at a concrete system, which keeps the descriptors that are closed.
use mathlib.Core.Option.{none, some}
use duino_bus.Base.{ℕ, ◌+◌, ◌<◌, ◌≡◌, ◌≢◌, refl, arith, List, [], ◌∷◌, ◌++◌, Bool, true, false, All}
use duino_bus.Packet.{Error}
use duino_bus.SocketBus.{
  Os, setup_server, connect_to_server, find_server, connect_found, find_listener, serve_found,
  await_client, adopt, make_non_blocking,
}
use duino_bus.SocketBus.Lookup.{without, Table}
use duino_bus.SocketBus.Descriptors.{
  Connects, Serves, connect_to_server-Connects, setup_server-Serves,
}

-- One address is found, and its descriptor is 3. `connects` says whether a connection is made.
abbrev system : Bool → Os (List ℕ) ℕ
system connects = record {
  get_addresses = λ w. (some (8888 ∷ []), w);
  free_addresses = λ w. w;
  socket = λ a w. (some 3, w);
  set_reuse_addr = λ fd w. (true, w);
  bind = λ fd a w. (true, w);
  connect = λ fd a w. (connects, w);
  listen = λ fd w. (true, w);
  accept = λ fd w. (some 4, w);
  get_flags = λ fd w. (2, w);
  or_nonblock = λ flags. 2050;
  set_flags = λ fd flags w. (true, w);
  close = λ fd w. elim fd [ none ↦ w | some n ↦ w ++ (n ∷ []) ];
  recv = λ fd w. (none, w);
  poll_in = λ fd w. false;
  poll_out = λ fd w. true;
  send = λ fd b w. w;
}

-- A refused connection: the descriptor is closed in the loop, and again behind it.
closed_twice : connect_to_server (system false) none none [] ≡ (Error.os, none, 3 ∷ 3 ∷ [])
unfolding connect_to_server find_server connect_found
closed_twice = refl

-- A system whose state is the list of the open descriptors. `connects` and `sets` say whether a
-- connection is made and whether a socket can be made non-blocking.
abbrev total : List ℕ → ℕ
total [] = 0
total (x ∷ xs) = x + total xs

abbrev next : List ℕ → ℕ
next fds = total fds + 1

below_next : (k : ℕ) (fds : List ℕ) → total fds < k → All (λ x. x ≢ k) fds
below_next k [] h = tt
below_next k (x ∷ fds) h = (omega arith, below_next k fds (omega arith))

abbrev counting : Bool → Bool → Os (List ℕ) ℕ
counting connects sets = record {
  get_addresses = λ w. (some (8888 ∷ 8889 ∷ []), w);
  free_addresses = λ w. w;
  socket = λ a w. (some (next w), next w ∷ w);
  set_reuse_addr = λ fd w. (true, w);
  bind = λ fd a w. (true, w);
  connect = λ fd a w. (connects, w);
  listen = λ fd w. (true, w);
  accept = λ fd w. (some (next w), next w ∷ w);
  get_flags = λ fd w. (2, w);
  or_nonblock = λ flags. 2050;
  set_flags = λ fd flags w. (sets, w);
  close = λ fd w. without fd w;
  poll_in = λ fd w. false;
  poll_out = λ fd w. true;
  recv = λ fd w. (none, w);
  send = λ fd b w. w;
}

counting_table : (connects sets : Bool) → Table (counting connects sets)
counting_table connects sets = record {
  fds = λ w. w;
  fresh_socket = λ a w. below_next (next w) w (omega arith);
  fds-socket = λ a w. refl;
  fresh_client = λ fd w. below_next (next w) w (omega arith);
  fds-accept = λ fd w. refl;
  fds-close = λ fd w. refl;
  fds-get_addresses = λ w. refl;
  fds-free_addresses = λ w. refl;
  fds-set_reuse_addr = λ fd w. refl;
  fds-bind = λ fd a w. refl;
  fds-connect = λ fd a w. refl;
  fds-listen = λ fd w. refl;
  fds-get_flags = λ fd w. refl;
  fds-set_flags = λ fd flags w. refl;
}

connect_to_server-Connects_example :
    Connects
      (counting false true)
      (counting_table false true)
      none
      (1 ∷ [])
      (connect_to_server (counting false true) none none (1 ∷ []))
unfolding counting_table
connect_to_server-Connects_example =
    connect_to_server-Connects (counting false true) (counting_table false true) none none (1 ∷ [])
      tt

-- Both sockets are left open.
both_leaked :
    setup_server (counting true false) none none (1 ∷ []) ≡ (Error.os, none, 4 ∷ 2 ∷ 1 ∷ [])
unfolding setup_server find_listener serve_found await_client adopt make_non_blocking
both_leaked = refl

setup_server-Serves_example :
    Serves
      (counting true false)
      (counting_table true false)
      none
      (1 ∷ [])
      (setup_server (counting true false) none none (1 ∷ []))
unfolding counting_table
setup_server-Serves_example =
    setup_server-Serves (counting true false) (counting_table true false) none none (1 ∷ []) tt
