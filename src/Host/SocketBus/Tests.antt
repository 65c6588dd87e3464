-- ===== src/Host/SocketBus/Tests.antt =====
-- Runs of `connect_to_server`, over a system whose addresses say how connecting to them ends and whose state
-- is the list of the open sockets.
use mathlib.Core.Option.{some}
use duino_bus.Base.{ℕ, suc, ◌≡◌, refl, List, [], ◌∷◌, true, done, abort, length}
use duino_bus.Host.{ErrorCode}
use duino_bus.Host.SocketBus.{
  Connecting, Sockets, is_open, close, make_socket_non_blocking, find_server, connect_found,
  connect_to_server,
}

abbrev without_last : List ℕ → List ℕ
without_last [] = []
without_last (skt ∷ skts) = skts

abbrev system : Sockets (List ℕ) Connecting
system = record {
  new_socket = λ info w. (suc (length w), suc (length w) ∷ w);
  set_timeout = λ skt w. w;
  connect = λ skt info w. (info, w);
  set_blocking = λ skt flag w. w;
  close_socket = λ skt w. without_last w;
  readable = λ skt w. true;
  writable = λ skt w. true;
  set_option = λ skt option value w. w;
  recv = λ skt w. done ([], w);
  send = λ skt byte w. done w;
}

-- An address that times out and one that connects: the first socket is closed.
second_connects :
    connect_to_server system (Connecting.timed_out ∷ Connecting.connected ∷ []) (some 7) []
    ≡ done (ErrorCode.none, some 1, 1 ∷ [])
unfolding connect_to_server find_server connect_found make_socket_non_blocking
second_connects = refl

-- A connection that is refused, in front of an address that would connect.
refused :
    connect_to_server system (Connecting.raised ∷ Connecting.connected ∷ []) (some 7) [] ≡ abort
unfolding connect_to_server find_server
refused = refl

-- `close` closes the socket and leaves the bus open by `is_open`.
open_behind_close : (close system (some 1) (1 ∷ []) ≡ []) × (is_open (some 1) ≡ true)
unfolding close is_open
open_behind_close = (refl, refl)
