-- ===== src/SocketHelper/Listening.antt =====
-- Which socket `OpenListenfd` listens on.
use zrh_rtsp_server.Prelude.{
  ℕ, ◌≡◌, refl, Bool, true, false, ◌&&◌, some, List, [], ◌∷◌, ◌++◌, if◌then◌else◌, arith,
}
use zrh_rtsp_server.RingBuffer.{minus_one_int}
use zrh_rtsp_server.SocketHelper.{Candidate, no_socket, unbound, bound, bind_first, open_listenfd}

abbrev pub fails : Candidate → Bool
fails (bound fd) = false
fails c = true

abbrev pub all_fail : List Candidate → Bool
all_fail [] = true
all_fail (c ∷ cs) = fails c && all_fail cs

-- The sockets of candidates that fail, the last first, before others.
abbrev pub sockets : List Candidate → List ℕ → List ℕ
sockets [] closed = closed
sockets (unbound fd ∷ cs) closed = sockets cs (fd ∷ closed)
sockets (no_socket ∷ cs) closed = sockets cs closed
sockets (bound fd ∷ cs) closed = sockets cs closed

bind_first-append :
    (before : List Candidate) (fd : ℕ) (after : List Candidate) (listenfd : ℕ) (closed : List ℕ)
    → all_fail before ≡ true
    → bind_first (before ++ bound fd ∷ after) listenfd closed ≡ (fd, sockets before closed)
unfolding bind_first
bind_first-append [] fd after listenfd closed h = refl
bind_first-append (no_socket ∷ cs) fd after listenfd closed h =
    bind_first-append cs fd after minus_one_int closed h
bind_first-append (unbound socket ∷ cs) fd after listenfd closed h =
    bind_first-append cs fd after socket (socket ∷ closed) h
bind_first-append (bound socket ∷ cs) fd after listenfd closed h = absurd (ground arith)

bind_first_unbound :
    (before : List Candidate) (fd listenfd : ℕ) (closed : List ℕ)
    → all_fail before ≡ true
    → bind_first (before ++ unbound fd ∷ []) listenfd closed ≡ (fd, fd ∷ sockets before closed)
unfolding bind_first
bind_first_unbound [] fd listenfd closed h = refl
bind_first_unbound (no_socket ∷ cs) fd listenfd closed h =
    bind_first_unbound cs fd minus_one_int closed h
bind_first_unbound (unbound socket ∷ cs) fd listenfd closed h =
    bind_first_unbound cs fd socket (socket ∷ closed) h
bind_first_unbound (bound socket ∷ cs) fd listenfd closed h = absurd (ground arith)

-- `OpenListenfd` with candidates that get no socket or are not bound, and then one that is bound: it
-- gives that one's socket, or -1 where `listen` fails, and it has closed each socket before it, and that
-- one where `listen` fails. Where the last candidate is not bound either, it calls `listen` on a socket
-- that it has closed, and gives that one if `listen` succeeds.
pub open_listenfd-bound :
    (before : List Candidate) (fd : ℕ) (after : List Candidate) (listens : ℕ → Bool) (memory : ℕ)
    → all_fail before ≡ true
    → (open_listenfd (some (before ++ bound fd ∷ after)) listens memory
        ≡ (if listens fd then (fd, sockets before []) else (minus_one_int, fd ∷ sockets before [])))
      × (open_listenfd (some (before ++ unbound fd ∷ [])) listens memory ≡ (
          if listens fd
          then (fd, fd ∷ sockets before [])
          else (minus_one_int, fd ∷ fd ∷ sockets before [])))
unfolding open_listenfd
open_listenfd-bound before fd after listens memory h = (
  rw (bind_first-append before fd after memory [] h) refl,
  rw (bind_first_unbound before fd memory [] h) refl,
)
