-- ===== src/SocketBus/Address.antt =====
-- src/SocketBus.cpp: what `printAddrInfo` logs of an address, by its three overloads.
use Prim.Native.String.{String}
use duino_bus.Base.{ℕ, ◌≡◌, ◌≢◌, sym, ◌∙◌, List, if◌then◌else◌, ◌==◌, ==_refl, ne→==_false}

-- What the system's headers say of `sockaddr_in` and `sockaddr_in6`, on the bytes of the memory that holds
-- one, and its functions: `text` is what `inet_ntop` puts for a family and the bytes at a pointer.
pub record Net : Type 0 where
  pub af_inet : ℕ
  pub af_inet6 : ℕ
  pub pf_inet6 : ℕ
  pub sin_family : List ℕ → ℕ
  pub sin_port : List ℕ → ℕ
  pub sin_addr : List ℕ → List ℕ
  pub sin6_family : List ℕ → ℕ
  pub sin6_port : List ℕ → ℕ
  pub sin6_addr : List ℕ → List ℕ
  pub ntohs : ℕ → ℕ
  pub text : ℕ → List ℕ → List ℕ

-- The headers' promises: the protocol family is the address family, the two families differ, and, as
-- SocketBus.h asserts, the families stand at the same place.
pub record IsStandard (net : Net) : Type 0 where
  pub same_name : net.pf_inet6 ≡ net.af_inet6
  pub distinct : net.af_inet6 ≢ net.af_inet
  pub same_place : (memory : List ℕ) → net.sin6_family memory ≡ net.sin_family memory

-- `union Address`, by its bytes.
pub record Address : Type 0 where
  pub memory : List ℕ

-- The fields of `struct addrinfo` that are read.
pub record AddrInfo : Type 0 where
  pub ai_family : ℕ
  pub ai_addr : List ℕ

-- What is logged: a label with "4" or "6", the address and the port, or a family that is not known.
pub data Line : Type 0 where
  info : String → String → List ℕ → ℕ → Line
  unrecognized : ℕ → Line

module _ (net : Net) where
  -- `printAddrInfo(label, family, addr, port)`
  unfoldable pub print_pointer : String → ℕ → List ℕ → ℕ → Line
  print_pointer label family addr port =
      Line.info label (if family == net.pf_inet6 then "6" else "4") (net.text family addr) port

  -- `printAddrInfo(label, ai)`
  unfoldable pub print_info : String → AddrInfo → Line
  print_info label ai =
      if ai.ai_family == net.af_inet
      then print_pointer label ai.ai_family (net.sin_addr ai.ai_addr)
          (net.ntohs (net.sin_port ai.ai_addr))
      else if ai.ai_family == net.af_inet6
      then print_pointer label ai.ai_family (net.sin6_addr ai.ai_addr)
          (net.ntohs (net.sin6_port ai.ai_addr))
      else Line.unrecognized ai.ai_family

  -- `printAddrInfo(label, addr)`, which reads the family as that of a `sockaddr_in`.
  unfoldable pub print_address : String → Address → Line
  print_address label addr =
      let family = net.sin_family addr.memory in
      if family == net.af_inet
      then print_pointer label family (net.sin_addr addr.memory)
          (net.ntohs (net.sin_port addr.memory))
      else if family == net.af_inet6
      then print_pointer label family (net.sin6_addr addr.memory)
          (net.ntohs (net.sin6_port addr.memory))
      else Line.unrecognized family

  abbrev pub line_of_4 : String → List ℕ → Line
  line_of_4 label memory =
      Line.info label "4" (net.text net.af_inet (net.sin_addr memory))
        (net.ntohs (net.sin_port memory))

  abbrev pub line_of_6 : String → List ℕ → Line
  line_of_6 label memory =
      Line.info label "6" (net.text net.af_inet6 (net.sin6_addr memory))
        (net.ntohs (net.sin6_port memory))

  -- An entry whose family is the one that its address holds.
  pub data Kind (ai : AddrInfo) : Type 0 where
    is_4 : ai.ai_family ≡ net.af_inet → net.sin_family ai.ai_addr ≡ net.af_inet → Kind ai
    is_6 : ai.ai_family ≡ net.af_inet6 → net.sin6_family ai.ai_addr ≡ net.af_inet6 → Kind ai
    is_other :
        ai.ai_family ≡ net.sin_family ai.ai_addr
        → ai.ai_family ≢ net.af_inet
        → ai.ai_family ≢ net.af_inet6
        → Kind ai

  -- What is to be logged of it.
  abbrev pub line_of : String → (ai : AddrInfo) → Kind ai → Line
  line_of label ai (is_4 e e') = line_of_4 label ai.ai_addr
  line_of label ai (is_6 e e') = line_of_6 label ai.ai_addr
  line_of label ai (is_other e n n') = Line.unrecognized ai.ai_family

  module _ (standard : IsStandard net) where
    print_pointer-4 :
        (label : String) (addr : List ℕ) (port : ℕ)
        → print_pointer label net.af_inet addr port
          ≡ Line.info label "4" (net.text net.af_inet addr) port
    unfolding print_pointer
    print_pointer-4 label addr port = rw (
        ne→==_false net.af_inet net.pf_inet6
          (λ q. standard.distinct (sym standard.same_name ∙ sym q)))

    print_pointer-6 :
        (label : String) (addr : List ℕ) (port : ℕ)
        → print_pointer label net.af_inet6 addr port
          ≡ Line.info label "6" (net.text net.af_inet6 addr) port
    unfolding print_pointer
    print_pointer-6 label addr port = rw (standard.same_name, ==_refl net.af_inet6)

    -- With the families of the system's headers, for an entry of `getaddrinfo` whose family is the one
    -- that its address holds: both overloads of `printAddrInfo` for addresses log the same of it, that is
    -- for IPv4 and IPv6 the label, 4 or 6, the address of that family as text and its port in the host's
    -- byte order, and for any other family that it is not known.
    pub print_info-print_address :
        (label : String) (ai : AddrInfo) (kind : Kind ai)
        → (print_info label ai ≡ line_of label ai kind)
          × (print_address label (record { memory = ai.ai_addr }) ≡ line_of label ai kind)
    unfolding print_info print_address
    print_info-print_address label ai (is_4 e e') = (
      rw (e, ==_refl net.af_inet) (print_pointer-4 label _ _),
      rw (e', ==_refl net.af_inet) (print_pointer-4 label _ _),
    )
    print_info-print_address label ai (is_6 e e') =
        let other = ne→==_false net.af_inet6 net.af_inet standard.distinct in
        (
          rw (e, other, ==_refl net.af_inet6) (print_pointer-6 label _ _),
          rw (sym (standard.same_place ai.ai_addr) ∙ e', other, ==_refl net.af_inet6)
              (print_pointer-6 label _ _),
        )
    print_info-print_address label ai (is_other e n n') =
        let not4 = ne→==_false ai.ai_family net.af_inet n in
        let not6 = ne→==_false ai.ai_family net.af_inet6 n' in
        (rw (not4, not6), rw (← e, not4, not6))
