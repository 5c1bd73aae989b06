-- ===== src/RtspServer.antt =====
-- include/live/RtspServer.h and src/live/RtspServer.cpp with include/live/MediaSessionManager.h: the
-- connections by their descriptors, the sessions by their names, and the list of connections to close.
-- The sessions and the RTP connections are on a heap.
mod Tests
pub mod Closing
pub mod Dangling
pub mod Freeing
pub mod Loop
pub mod Orderly
pub mod Pointers
pub mod Protocol
pub mod Resolved
pub mod Serving
pub mod Turns
use zrh_rtsp_server.Prelude.{
  ℕ, zero, suc, replicate, ◌+◌, Bool, true, false, Option, none, some, List, [], ◌∷◌, ◌++◌, ◌==◌,
  ◌&&◌, ltb, if◌then◌else◌, length,
}
use zrh_rtsp_server.Text.{Bytes, pos}
use zrh_rtsp_server.MediaSession.{
  TrackId, track_id0, track_id1, MediaSession, Store, add_rtp_connection, remove_rtp_connection,
}
use zrh_rtsp_server.FdMap.{find_fd, erase_fd, set_fd}
use zrh_rtsp_server.RtspConnection.{RtspConnection}

abbrev pub same_bytes : Bytes → Bytes → Bool
same_bytes [] [] = true
same_bytes [] (y ∷ ys) = false
same_bytes (x ∷ xs) [] = false
same_bytes (x ∷ xs) (y ∷ ys) = x == y && same_bytes xs ys

-- `media_sessions_`: the addresses of the sessions by their names.
abbrev pub Manager : Type 0
Manager = List (Bytes × ℕ)

-- `LookMediaSession`; `none` is the null pointer.
unfoldable pub look_media_session : Bytes → Manager → Option ℕ
look_media_session name [] = none
look_media_session name ((key, address) ∷ rest) =
    if same_bytes key name then some address else look_media_session name rest

-- `AddMediaSession`: `emplace` leaves the map as it is where the name is taken.
unfoldable pub add_media_session : Bytes → ℕ → Manager → Manager
add_media_session name address sessions = elim (look_media_session name sessions) [
  | none ↦ (name, address) ∷ sessions
  | some taken ↦ sessions
]

-- The server and what its connections share: `triggers` counts `close_trigger_event_` in the
-- scheduler's queue, `watched` are the descriptors whose events are polled, `sent` and `closed` are
-- what was written and closed, the last first.
pub record RtspServer : Type 0 where
  pub fd2conn : List (ℕ × RtspConnection)
  pub manager : Manager
  pub sessions : ℕ → Option MediaSession
  pub rtp_store : Store
  pub rtp_next : ℕ
  pub disconnect_list : List ℕ
  pub triggers : ℕ
  pub watched : List ℕ
  pub sent : List (ℕ × Bytes)
  pub closed : List ℕ

abbrev pub update {ℓ} : {A : Type ℓ} → (ℕ → Option A) → ℕ → A → (ℕ → Option A)
update store address value i = if i == address then some value else store i

-- What both callbacks do with a session: `none` is a pointer to no session.
abbrev pub on_session : Bytes → (MediaSession → MediaSession) → RtspServer → Option RtspServer
on_session name f s = elim (look_media_session name s.manager) [
  | none ↦ some s
  | some address ↦ elim (s.sessions address) [
    | none ↦ none
    | some m ↦ some (record s { sessions = update s.sessions address (f m) })
  ]
]

-- `handleSessionAddRtpConn` and `handleSessionRemoveRtpConn`.
unfoldable pub handle_session_add : TrackId → ℕ → Bytes → RtspServer → Option RtspServer
handle_session_add id conn name s = on_session name (λ m. add_rtp_connection m id conn) s

unfoldable pub handle_session_remove : TrackId → ℕ → Bytes → RtspServer → Option RtspServer
handle_session_remove id conn name s = on_session name (λ m. remove_rtp_connection m id conn) s

-- `handleDisConnect`: the trigger event is added with the first entry of the list only.
unfoldable pub handle_dis_connect : ℕ → RtspServer → RtspServer
handle_dis_connect fd s =
    let s' = record s { disconnect_list = s.disconnect_list ++ fd ∷ [] } in
    if length s'.disconnect_list == 1 then record s' { triggers = s'.triggers + 1 } else s'

-- Descriptors without this one.
unfoldable pub unwatch : ℕ → List ℕ → List ℕ
unwatch fd [] = []
unwatch fd (key ∷ rest) = if key == fd then unwatch fd rest else key ∷ unwatch fd rest

-- The part of `~RtspConnection` for its RTP connections: `rtp_conns_[1]` is read wherever there is a
-- `rtp_conns_[0]`, and `none` is a read past the vector.
unfoldable pub leave_session : RtspConnection → RtspServer → Option RtspServer
leave_session c s = elim c.rtp_conns [
  | [] ↦ some s
  | first ∷ more ↦ elim (handle_session_remove track_id0 first c.session_name s) [
    | none ↦ none
    | some s₁ ↦ elim more [
      | [] ↦ none
      | second ∷ others ↦ handle_session_remove track_id1 second c.session_name s₁
    ]
  ]
]

-- The vector of shared pointers goes with the connection, and no one else shares them.
unfoldable pub free_all : List ℕ → Store → Store
free_all [] store = store
free_all (p ∷ ps) store = free_all ps (λ i. if i == p then none else store i)

-- `~RtspConnection`, and the RTP connections with it; a descriptor from `2 ^ 31` on is negative.
unfoldable pub destroy : RtspConnection → RtspServer → Option RtspServer
destroy c s = elim (leave_session c (record s { watched = unwatch c.client_fd s.watched })) [
  | none ↦ none
  | some s₁ ↦
      let s₂ = record s₁ { rtp_store = free_all c.rtp_conns s₁.rtp_store } in
      some (
        if ltb 0 c.client_fd && ltb c.client_fd 0x80000000
        then record s₂ { closed = c.client_fd ∷ s₂.closed }
        else s₂)
]

-- The loop of `handleCloseConnect`; `none` is a failing assertion, or a fault of the destructor.
unfoldable pub close_all : List ℕ → RtspServer → Option RtspServer
close_all [] s = some s
close_all (fd ∷ fds) s = elim (find_fd fd s.fd2conn) [
  | none ↦ none
  | some c ↦ elim (destroy c (record s { fd2conn = erase_fd fd s.fd2conn })) [
    | none ↦ none
    | some s' ↦ close_all fds s'
  ]
]

-- `handleCloseConnect`.
unfoldable pub handle_close_connect : RtspServer → Option RtspServer
handle_close_connect s = elim (close_all s.disconnect_list s) [
  | none ↦ none
  | some s' ↦ some (record s' { disconnect_list = [] })
]

-- `handleTriggerEvent` of include/helper/Scheduler.h, where `close_trigger_event_` is the only trigger
-- event: the queue is emptied, and no callback adds to it.
unfoldable pub run_triggers : ℕ → RtspServer → Option RtspServer
run_triggers zero s = some (record s { triggers = 0 })
run_triggers (suc n) s = elim (handle_close_connect s) [ none ↦ none | some s' ↦ run_triggers n s' ]

unfoldable pub handle_trigger_event : RtspServer → Option RtspServer
handle_trigger_event s = run_triggers s.triggers s

-- `RtspConnection::RtspConnection` and the setters that `handleRead` calls; `memory` holds what the
-- constructor does not initialise.
abbrev pub accepted : ℕ → RtspConnection → RtspServer → RtspConnection
accepted fd memory s = record memory {
  client_fd = fd;
  rbuf = replicate 1024 0;
  buf_size = 1024;
  alive = true;
  rtp_conns = [];
  manager = s.manager;
  cseq = pos 0;
  session_name = [];
  session_id = 0;
}

-- `handleRead`, with what `Accept` gave: a connection of the same descriptor is replaced, and destroyed.
unfoldable pub handle_read : ℕ → RtspConnection → RtspServer → Option RtspServer
handle_read fd memory s =
    let c = accepted fd memory s in
    let s' = record s { watched = fd ∷ s.watched; fd2conn = (fd, c) ∷ erase_fd fd s.fd2conn } in
    elim (find_fd fd s.fd2conn) [ none ↦ some s' | some old ↦ destroy old s' ]
