-- ===== src/SocketHelper.antt =====
-- include/helper/SocketHelper.h and src/helper/SocketHelper.cpp: the listening socket, and the UDP
-- sockets with their ports. What the system calls give are arguments. -1 is the pattern of ones.
pub mod Calls
pub mod Listening
pub mod Ports
mod Tests
use zrh_rtsp_server.Prelude.{
  ℕ, ◌+◌, ◌-◌, ◌%◌, Bool, true, false, Option, none, some, List, [], ◌∷◌, ◌++◌, if◌then◌else◌,
}
use zrh_rtsp_server.RingBuffer.{minus_one_int}
use zrh_rtsp_server.Text.{Bytes, ascii, print_unsigned}

-- What `socket` and `bind` give for an address of `getaddrinfo`.
pub data Candidate : Type 0 where
  no_socket : Candidate
  unbound bound : ℕ → Candidate

-- The loop of `OpenListenfd`: `listenfd` behind it, and the descriptors closed, the last first.
unfoldable pub bind_first : List Candidate → ℕ → List ℕ → ℕ × List ℕ
bind_first [] listenfd closed = (listenfd, closed)
bind_first (no_socket ∷ candidates) listenfd closed = bind_first candidates minus_one_int closed
bind_first (unbound fd ∷ candidates) listenfd closed = bind_first candidates fd (fd ∷ closed)
bind_first (bound fd ∷ candidates) listenfd closed = (fd, closed)

-- `OpenListenfd`, with the addresses of `getaddrinfo` or its failure, what `listen` says of a descriptor,
-- and what `listenfd` holds before it is set.
unfoldable pub open_listenfd : Option (List Candidate) → (ℕ → Bool) → ℕ → ℕ × List ℕ
open_listenfd none listens memory = (minus_one_int, [])
open_listenfd (some candidates) listens memory =
    let (listenfd, closed) = bind_first candidates memory [] in
    if listens listenfd then (listenfd, closed) else (minus_one_int, listenfd ∷ closed)

abbrev pub port_start : ℕ
port_start = 49152

abbrev pub port_end : ℕ
port_end = 65535

-- A number that `rand()` gave, as a port.
abbrev pub random_port : ℕ → ℕ
random_port rand = rand % (port_end - port_start + 1) + port_start

-- The command in `buf`.
unfoldable pub netstat_command : ℕ → Bytes
netstat_command port = ascii "netstat -an | grep :" ++ (print_unsigned port ++ ascii " > /dev/null")

-- The loop of `OpenClientUdp`: `rand()` and whether `system` gives a result other than 0, in each round;
-- `none` is a loop that goes on.
unfoldable pub choose_port : List (ℕ × Bool) → Option ℕ
choose_port [] = none
choose_port ((rand, free) ∷ rounds) = elim free [
  | true ↦ some (random_port rand)
  | false ↦ choose_port rounds
]

-- How opening a UDP socket ends: with -1, with `exit`, or with the descriptor. The descriptor that is
-- closed before `exit` is named.
pub data Opened : Type 0 where
  no_descriptor : Opened
  exited : ℕ → Opened
  opened : ℕ → Opened

-- `OpenAcquireClientUdp`, with what `socket` gives and what `bind` says of a port.
unfoldable pub open_acquire_client_udp : Option ℕ → (ℕ → Bool) → ℕ → Opened
open_acquire_client_udp none binds port = no_descriptor
open_acquire_client_udp (some fd) binds port = if binds port then opened fd else exited fd

-- `OpenClientUdp`: the port that is stored, and how it ends.
unfoldable pub open_client_udp : List (ℕ × Bool) → Option ℕ → (ℕ → Bool) → Option (ℕ × Opened)
open_client_udp rounds socket binds = elim (choose_port rounds) [
  | none ↦ none
  | some port ↦ some (
    port,
    elim socket [ none ↦ no_descriptor | some fd ↦ if binds port then opened fd else exited fd ],
  )
]
