-- ===== src/Network/Socket.antt =====
-- Classes Socket, SocketUDP and Network of include/Programmer/Network.hpp and src/Network.cpp.
--
-- Winsock is a parameter: its calls change a state of the system, and succeed with a value or fail
-- with a code, which WSAGetLastError then returns. The test of _DEBUG builds in `poll` is left out.
use programmer.Prelude.{
  ℕ, ◌≡◌, sym, ap, ◌∙◌, Bool-cases, inl, inr, arith, Bool, not, List, [], ◌∷◌, length, ◌==◌,
  if◌then◌else◌, Option, none, some,
}
use programmer.Exceptions.{
  text, exception, ok-injective, throws-ne-ok, Result, ok, throws, fault, socket_exception, throw,
}
use programmer.Network.{Address}

pub data Outcome {ℓ} (A : Type ℓ) : Type ℓ where
  done : A → Outcome A
  failed : ℕ → Outcome A

abbrev pub Call {ℓ} : Type 0 → Type ℓ → Type ℓ
Call S A = S → S × Outcome A

pub record Pollfd : Type 0 where
  pub fd : ℕ
  pub events : ℕ
  pub revents : ℕ

-- The calls, with the handle of a socket first. `recvfrom` is given the size of the buffer.
pub record Winsock (S : Type 0) : Type 0 where
  pub socket : ℕ → ℕ → ℕ → Call S ℕ
  pub closesocket : ℕ → S → S
  pub setsockopt : ℕ → ℕ → ℕ → ℕ → Call S (Unit {0})
  pub ioctlsocket : ℕ → ℕ → ℕ → Call S (Unit {0})
  pub bind : ℕ → Address → Call S (Unit {0})
  pub sendto : ℕ → List ℕ → ℕ → Address → Call S ℕ
  pub recvfrom : ℕ → ℕ → ℕ → Call S (List ℕ × Address)
  pub poll : List Pollfd → ℕ → Call S (ℕ × List Pollfd)
  pub startup : ℕ → Call S (Unit {0})
  pub cleanup : S → S

-- The constants of Winsock.
abbrev pub wsaewouldblock : ℕ
wsaewouldblock = 10035

abbrev pub fionbio : ℕ
fionbio = 0x8004667E

abbrev pub af_inet : ℕ
af_inet = 2

abbrev pub sock_dgram : ℕ
sock_dgram = 2

abbrev pub ipproto_udp : ℕ
ipproto_udp = 17

abbrev pub sol_socket : ℕ
sol_socket = 0xFFFF

abbrev pub so_broadcast : ℕ
so_broadcast = 0x20

abbrev pub ipproto_ip : ℕ
ipproto_ip = 0

abbrev pub ip_dontfragment : ℕ
ip_dontfragment = 14

abbrev pub ip_receive_broadcast : ℕ
ip_receive_broadcast = 22

-- `if (ret == SOCKET_ERROR) throw SocketException(…);`
unfoldable pub check {ℓ} : {S : Type 0} {A : Type ℓ} → S × Outcome A → S × Result A
check (s, done a) = (s, ok a)
check (s, failed code) = (s, throws socket_exception)

-- `if (ret != buf.size_bytes()) throw Exception("Truncated sendto");`
unfoldable pub check_count : {S : Type 0} → ℕ → S × Result ℕ → S × Result ℕ
check_count size (s, ok ret) = (s, if not (ret == size) then throw "Truncated sendto" else ok ret)
check_count size (s, throws e) = (s, throws e)
check_count size (s, fault f) = (s, fault f)

-- What `recvfrom` makes of the outcome: -1 is `none`.
unfoldable pub received :
    {S : Type 0} → S × Outcome (List ℕ × Address) → S × Result (Option (List ℕ × Address))
received (s, done datagram) = (s, ok (some datagram))
received (s, failed code) =
    (s, if not (code == wsaewouldblock) then throws socket_exception else ok none)

module _ {S : Type 0} (winsock : Winsock S) where
  -- The constructor of `Socket` that opens one, which returns the handle.
  unfoldable pub create : ℕ → ℕ → ℕ → S → S × Result ℕ
  create af type protocol s = check (winsock.socket af type protocol s)

  -- The destructor; `none` is INVALID_SOCKET, which the other constructor leaves.
  unfoldable pub destroy : Option ℕ → S → S
  destroy none s = s
  destroy (some handle) s = winsock.closesocket handle s

  unfoldable pub setsockopt : ℕ → ℕ → ℕ → ℕ → S → S × Result (Unit {0})
  setsockopt handle level optname optval s =
      check (winsock.setsockopt handle level optname optval s)

  unfoldable pub set_nonblocking : ℕ → Bool → S → S × Result (Unit {0})
  set_nonblocking handle nonblock s =
      check (winsock.ioctlsocket handle fionbio (if nonblock then 1 else 0) s)

  unfoldable pub bind : ℕ → Address → S → S × Result (Unit {0})
  bind handle addr s = check (winsock.bind handle addr s)

  -- The constructor of `SocketUDP`.
  unfoldable pub create_udp : S → S × Result ℕ
  create_udp s = create af_inet sock_dgram ipproto_udp s

  unfoldable pub sendto : ℕ → List ℕ → ℕ → Address → S → S × Result ℕ
  sendto handle buf flags addr s =
      check_count (length buf) (check (winsock.sendto handle buf flags addr s))

  unfoldable pub recvfrom : ℕ → ℕ → ℕ → S → S × Result (Option (List ℕ × Address))
  recvfrom handle size flags s = received (winsock.recvfrom handle size flags s)

  unfoldable pub set_broadcast : ℕ → Bool → S → S × Result (Unit {0})
  set_broadcast handle broadcast s =
      setsockopt handle sol_socket so_broadcast (if broadcast then 1 else 0) s

  unfoldable pub set_dont_fragment : ℕ → Bool → S → S × Result (Unit {0})
  set_dont_fragment handle dont_fragment s =
      setsockopt handle ipproto_ip ip_dontfragment (if dont_fragment then 1 else 0) s

  unfoldable pub receive_broadcast : ℕ → Bool → S → S × Result (Unit {0})
  receive_broadcast handle allow_broadcast s =
      setsockopt handle ipproto_ip ip_receive_broadcast (if allow_broadcast then 1 else 0) s

  unfoldable pub poll : List Pollfd → ℕ → S → S × Result (ℕ × List Pollfd)
  poll fds timeout s = check (winsock.poll fds timeout s)

  -- A failure cleans up and throws. MAKEWORD(2, 2) is 0x0202.
  unfoldable pub startup : S → S × Result (Unit {0})
  startup s =
      let r = winsock.startup 0x0202 s in
      elim r.1 [
        | done unit ↦ (r.0, ok tt)
        | failed code ↦ (winsock.cleanup r.0, throws socket_exception)
      ]

  unfoldable pub cleanup : S → S
  cleanup s = winsock.cleanup s

check_count-ok :
    {S : Type 0} (size n : ℕ) (r : S × Outcome ℕ)
    → (check_count size (check r)).1 ≡ ok n
    → (n ≡ size) × (r.1 ≡ done size)
unfolding check check_count
check_count-ok size n (s, done ret) e = elim (Bool-cases (ret == size)) [
  | inl h ↦
      let same : ret ≡ size = ground arith in
      let got : ret ≡ n = ok-injective ret n (rw h at e) in (sym got ∙ same, ap done same)
  | inr h ↦ absurd (throws-ne-ok (exception (text "Truncated sendto" ∷ [])) n (rw h at e))
]
check_count-ok size n (s, failed code) e = absurd (throws-ne-ok socket_exception n e)

-- A send that returns has sent all of the buffer: one that the system cuts short throws.
pub sendto-ok :
    {S : Type 0} (winsock : Winsock S) (handle : ℕ) (buf : List ℕ) (flags : ℕ) (addr : Address)
    (s : S) (n : ℕ)
    → (sendto winsock handle buf flags addr s).1 ≡ ok n
    → (n ≡ length buf) × ((winsock.sendto handle buf flags addr s).1 ≡ done (length buf))
unfolding sendto
sendto-ok winsock handle buf flags addr s n e =
    check_count-ok (length buf) n (winsock.sendto handle buf flags addr s) e
