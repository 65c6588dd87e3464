-- ===== src/SocketBus.antt =====
-- src/duino_bus/SocketBus.h and src/SocketBus.cpp: the bus over a TCP socket.
pub mod Outcome
pub mod Lookup
pub mod Descriptors
pub mod Address
mod Tests
use mathlib.Core.Option.{Option, none, some}
use duino_bus.Base.{ℕ, List, [], ◌∷◌, Bool, true, false, if◌then◌else◌}
use duino_bus.Packet.{Error}
use duino_bus.Bus.{Transport}

-- The system calls, over the state `W` of the system. A descriptor is `none` where the call gives a
-- negative one, and a Boolean says that a call has not given a negative result. `get_addresses` is
-- `getaddrinfo` with the hints of the caller, `or_nonblock` sets O_NONBLOCK in file flags, `poll_in`
-- and `poll_out` say whether `poll` reports the descriptor, and `recv` gives a byte if it returns 1.
pub record Os (W A : Type 0) : Type 0 where
  pub get_addresses : W → Option (List A) × W
  pub free_addresses : W → W
  pub socket : A → W → Option ℕ × W
  pub set_reuse_addr : ℕ → W → Bool × W
  pub bind : ℕ → A → W → Bool × W
  pub connect : ℕ → A → W → Bool × W
  pub listen : ℕ → W → Bool × W
  pub accept : ℕ → W → Option ℕ × W
  pub get_flags : ℕ → W → ℕ × W
  pub or_nonblock : ℕ → ℕ
  pub set_flags : ℕ → ℕ → W → Bool × W
  pub close : Option ℕ → W → W
  pub recv : Option ℕ → W → Option ℕ × W
  pub poll_in : Option ℕ → W → Bool
  pub poll_out : Option ℕ → W → Bool
  pub send : Option ℕ → ℕ → W → W

-- How the search through the addresses ends: with an early return, with a socket, or behind the last
-- address, with what the socket variable then holds.
pub data Search (W : Type 0) : Type 0 where
  failed : W → Search W
  found : ℕ → W → Search W
  exhausted : Option ℕ → W → Search W

-- The answer, `m_socket` and the system.
abbrev pub Answer : Type 0 → Type 0
Answer W = Error × Option ℕ × W

module _ {W A : Type 0} (os : Os W A) where
  -- `makeSocketNonBlocking`
  unfoldable pub make_non_blocking : ℕ → W → Bool × W
  make_non_blocking skt w =
      let (flags, w1) = os.get_flags skt w in os.set_flags skt (os.or_nonblock flags) w1

  -- The loop of `setupServer`. `last` is what `listenSocket` holds.
  unfoldable pub find_listener : List A → Option ℕ → W → Search W
  find_listener [] last w = Search.exhausted last w
  find_listener (a ∷ infos) last w =
      let (skt, w1) = os.socket a w in
      elim skt [
        | none ↦ find_listener infos none w1
        | some fd ↦
            let (reuse, w2) = os.set_reuse_addr fd w1 in
            elim reuse [
              | false ↦ Search.failed (os.close (some fd) w2)
              | true ↦
                  let (bound, w3) = os.bind fd a w2 in
                  elim bound [
                    | false ↦ find_listener infos (some fd) (os.close (some fd) w3)
                    | true ↦ Search.found fd w3
                  ]
            ]
      ]

  -- What `setupServer` does with the connection that it has accepted.
  unfoldable pub adopt : Option ℕ → ℕ → ℕ → W → Answer W
  adopt m_socket listener client w =
      let (ok, w1) = make_non_blocking client w in
      if ok
      then (Error.none, some client, os.close (some listener) w1)
      else (Error.os, m_socket, w1)

  -- `listen` and `accept`.
  unfoldable pub await_client : Option ℕ → ℕ → W → Answer W
  await_client m_socket listener w =
      let (listening, w1) = os.listen listener w in
      elim listening [
        | false ↦ (Error.os, m_socket, os.close (some listener) w1)
        | true ↦
            let (client, w2) = os.accept listener w1 in
            elim client [
              | none ↦ (Error.os, m_socket, os.close (some listener) w2)
              | some fd ↦ adopt m_socket listener fd w2
            ]
      ]

  -- What follows the loop of `setupServer`.
  unfoldable pub serve_found : Option ℕ → Search W → Answer W
  serve_found m_socket (Search.failed w) = (Error.os, m_socket, w)
  serve_found m_socket (Search.exhausted last w) =
      (Error.os, m_socket, os.close last (os.free_addresses w))
  serve_found m_socket (Search.found fd w) = await_client m_socket fd (os.free_addresses w)

  -- `setupServer`. `old` is what the uninitialised `listenSocket` holds.
  unfoldable pub setup_server : Option ℕ → Option ℕ → W → Answer W
  setup_server m_socket old w =
      let (addresses, w1) = os.get_addresses w in
      elim addresses [
        | none ↦ (Error.os, m_socket, w1)
        | some infos ↦ serve_found m_socket (find_listener infos old w1)
      ]

  -- The loop of `connectToServer`. `last` is what `serverSocket` holds.
  unfoldable pub find_server : List A → Option ℕ → W → Search W
  find_server [] last w = Search.exhausted last w
  find_server (a ∷ infos) last w =
      let (skt, w1) = os.socket a w in
      elim skt [
        | none ↦ find_server infos none w1
        | some fd ↦
            let (connected, w2) = os.connect fd a w1 in
            elim connected [
              | false ↦ find_server infos (some fd) (os.close (some fd) w2)
              | true ↦ Search.found fd w2
            ]
      ]

  -- What follows the loop of `connectToServer`.
  unfoldable pub connect_found : Option ℕ → Search W → Answer W
  connect_found m_socket (Search.failed w) = (Error.os, m_socket, w)
  connect_found m_socket (Search.exhausted last w) =
      (Error.os, m_socket, os.close last (os.free_addresses w))
  connect_found m_socket (Search.found fd w) =
      let (ok, w1) = make_non_blocking fd w in
      if ok
      then (Error.none, some fd, os.free_addresses w1)
      else (Error.os, m_socket, os.close (some fd) w1)

  -- `connectToServer`. `old` is what the uninitialised `serverSocket` holds.
  unfoldable pub connect_to_server : Option ℕ → Option ℕ → W → Answer W
  connect_to_server m_socket old w =
      let (addresses, w1) = os.get_addresses w in
      elim addresses [
        | none ↦ (Error.os, m_socket, w1)
        | some infos ↦ connect_found m_socket (find_server infos old w1)
      ]

  -- The destructor.
  unfoldable pub destroy : Option ℕ → W → W
  destroy m_socket w = os.close m_socket w

  unfoldable pub is_data_available : Option ℕ → W → Bool
  is_data_available m_socket w = os.poll_in m_socket w

  unfoldable pub is_space_available : Option ℕ → W → Bool
  is_space_available m_socket w = os.poll_out m_socket w

  unfoldable pub read_byte : Option ℕ → W → Option ℕ × W
  read_byte m_socket w = os.recv m_socket w

  unfoldable pub write_byte : Option ℕ → ℕ → W → W
  write_byte m_socket byte w = os.send m_socket byte w

  -- `flush` is the empty one of `IBus`.
  abbrev pub transport : Option ℕ → Transport W
  transport m_socket = record {
    read_byte = read_byte m_socket;
    write_byte = write_byte m_socket;
    flush = λ w. w;
  }
