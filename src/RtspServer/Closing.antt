-- ===== src/RtspServer/Closing.antt =====
-- Closing connections: the list, its trigger event, and what the event leaves.
use zrh_rtsp_server.Prelude.{
  ℕ, ◌+◌, ◌<◌, ◌≡◌, ◌≢◌, refl, sym, ap, ◌∙◌, Bool, true, false, Option, none, some, List, [], ◌∷◌,
  ◌++◌, ◌==◌, if◌then◌else◌, length, arith, ℕ_discrete, Option-cases, List-cases, length-append,
  append-nil, append_assoc, inl, inr,
}
use zrh_rtsp_server.Text.{Bytes}
use zrh_rtsp_server.MediaSession.{MediaSession, remove_rtp_connection, track_id0, track_id1}
use zrh_rtsp_server.RtspConnection.{RtspConnection}
use zrh_rtsp_server.FdMap.{erase_fd, find_fd, find-erase_fd}
use zrh_rtsp_server.RtspServer.{
  RtspServer, look_media_session, on_session, update, handle_session_remove, handle_dis_connect,
  leave_session, destroy, close_all, handle_close_connect, run_triggers, handle_trigger_event,
  unwatch, free_all,
}

-- Every name of the manager stands for a session.
abbrev pub Managed : RtspServer → Type 0
Managed s =
    (name : Bytes) (address : ℕ)
    → look_media_session name s.manager ≡ some address
    → (m : MediaSession) × (s.sessions address ≡ some m)

-- What the destructor of a connection leaves alone.
pub record Keeps (s s' : RtspServer) : Type 0 where
  pub fd2conn : s'.fd2conn ≡ s.fd2conn
  disconnect_list : s'.disconnect_list ≡ s.disconnect_list
  triggers : s'.triggers ≡ s.triggers
  pub managed : Managed s'

pub update-Managed :
    (s : RtspServer) (address : ℕ) (m : MediaSession)
    → Managed s
    → Managed (record s { sessions = update s.sessions address m })
update-Managed s address m managed name other h =
    let (m', found) = managed name other h in
    elim (ℕ_discrete other address) [
      | yes same ↦ (m, ground arith)
      | no distinct ↦ (m', ground arith)
    ]

on_session-Keeps :
    (name : Bytes) (f : MediaSession → MediaSession) (s : RtspServer)
    → Managed s
    → (s' : RtspServer) × (on_session name f s ≡ some s') × Keeps s s' × (s'.closed ≡ s.closed)
on_session-Keeps name f s managed = elim (Option-cases (look_media_session name s.manager)) [
  | inl e ↦ (
    s,
    ground arith,
    record { fd2conn = refl; disconnect_list = refl; triggers = refl; managed = managed },
    refl,
  )
  | inr (address, e) ↦
      let (m, found) = managed name address e in
      (
        record s { sessions = update s.sessions address (f m) },
        ground arith,
        record {
          fd2conn = refl;
          disconnect_list = refl;
          triggers = refl;
          managed = update-Managed s address (f m) managed;
        },
        refl,
      )
]

-- A connection whose destructor runs to its end has no RTP connection, or two of them.
abbrev IsLeavable : RtspConnection → Type 0
IsLeavable c = length c.rtp_conns ≢ 1

leave_session-Keeps :
    (c : RtspConnection) (s : RtspServer)
    → Managed s
    → IsLeavable c
    → (s' : RtspServer) × (leave_session c s ≡ some s') × Keeps s s' × (s'.closed ≡ s.closed)
unfolding leave_session handle_session_remove
leave_session-Keeps c s managed leavable = elim (List-cases c.rtp_conns) [
  | inl e ↦ (
    s,
    ground arith,
    record { fd2conn = refl; disconnect_list = refl; triggers = refl; managed = managed },
    refl,
  )
  | inr (first, more, e) ↦ elim (List-cases more) [
    | inl f ↦ absurd (leavable (rw (e, f) refl))
    | inr (second, others, f) ↦
        let (s₁, run₁, kept₁, closed₁) =
          on_session-Keeps c.session_name (λ m. remove_rtp_connection m track_id0 first) s
            managed in
        let (s₂, run₂, kept₂, closed₂) =
          on_session-Keeps c.session_name (λ m. remove_rtp_connection m track_id1 second) s₁
            kept₁.managed in
        (
          s₂,
          ground (arith, e, f, run₁, run₂),
          record {
            fd2conn = kept₂.fd2conn ∙ kept₁.fd2conn;
            disconnect_list = kept₂.disconnect_list ∙ kept₁.disconnect_list;
            triggers = kept₂.triggers ∙ kept₁.triggers;
            managed = kept₂.managed;
          },
          closed₂ ∙ closed₁,
        )
  ]
]

pub destroy-Keeps :
    (c : RtspConnection) (s : RtspServer)
    → Managed s
    → IsLeavable c
    → 0 < c.client_fd
    → c.client_fd < 0x80000000
    → (s' : RtspServer) × (destroy c s ≡ some s')
      × Keeps s s'
      × (s'.closed ≡ c.client_fd ∷ s.closed)
unfolding destroy
destroy-Keeps c s managed leavable above below =
    let unwatched : RtspServer = record s { watched = unwatch c.client_fd s.watched } in
    let (s', run, kept, closed) = leave_session-Keeps c unwatched managed leavable in
    (
      record s' { rtp_store = free_all c.rtp_conns s'.rtp_store; closed = c.client_fd ∷ s'.closed },
      ground (arith, run, above, below),
      record {
        fd2conn = kept.fd2conn;
        disconnect_list = kept.disconnect_list;
        triggers = kept.triggers;
        managed = kept.managed;
      },
      ap (◌∷◌ c.client_fd) closed,
    )

-- Descriptors that can be closed one after the other: each is that of a connection of the table, which
-- no earlier one has taken out.
pub data Closable : List ℕ → List (ℕ × RtspConnection) → Type 0 where
  nil : {conns : List (ℕ × RtspConnection)} → Closable [] conns
  cons :
      {fd : ℕ} {fds : List ℕ} {c : RtspConnection} {conns : List (ℕ × RtspConnection)}
      → find_fd fd conns ≡ some c
      → c.client_fd ≡ fd
      → 0 < fd
      → fd < 0x80000000
      → length c.rtp_conns ≢ 1
      → Closable fds (erase_fd fd conns)
      → Closable (fd ∷ fds) conns

abbrev pub erase_fds : List ℕ → List (ℕ × RtspConnection) → List (ℕ × RtspConnection)
erase_fds [] conns = conns
erase_fds (fd ∷ fds) conns = erase_fds fds (erase_fd fd conns)

abbrev pub reverse_onto : List ℕ → List ℕ → List ℕ
reverse_onto [] closed = closed
reverse_onto (fd ∷ fds) closed = reverse_onto fds (fd ∷ closed)

pub record Closed (fds : List ℕ) (s s' : RtspServer) : Type 0 where
  pub fd2conn : s'.fd2conn ≡ erase_fds fds s.fd2conn
  pub closed : s'.closed ≡ reverse_onto fds s.closed
  pub triggers : s'.triggers ≡ s.triggers
  pub managed : Managed s'

pub close_all-Closed :
    {fds : List ℕ} {conns : List (ℕ × RtspConnection)}
    → Closable fds conns
    → (s : RtspServer) → s.fd2conn ≡ conns
    → Managed s
    → (s' : RtspServer) × (close_all fds s ≡ some s') × Closed fds s s'
unfolding close_all
close_all-Closed nil s e managed =
    (s, refl, record { fd2conn = refl; closed = refl; triggers = refl; managed = managed })
close_all-Closed (cons {fd} {fds} {c} {conns} found own above below leavable rest) s e managed =
    let erased : RtspServer = record s { fd2conn = erase_fd fd s.fd2conn } in
    let (s₁, run₁, kept, closed₁) =
      destroy-Keeps c erased managed leavable (omega arith) (omega arith) in
    let (s', run, closed) =
      close_all-Closed rest s₁ (kept.fd2conn ∙ ap (erase_fd fd) e) kept.managed in
    (
      s',
      ground (arith, e, found, run₁, run),
      record {
        fd2conn = closed.fd2conn ∙ ap (erase_fds fds) kept.fd2conn;
        closed = closed.closed ∙ ap (reverse_onto fds) (closed₁ ∙ ap (λ n. n ∷ s.closed) own);
        triggers = closed.triggers ∙ kept.triggers;
        managed = closed.managed;
      },
    )

-- Connections that are given up one after the other, before the scheduler looks at its queue.
abbrev pub disconnects : List ℕ → RtspServer → RtspServer
disconnects [] s = s
disconnects (fd ∷ fds) s = disconnects fds (handle_dis_connect fd s)

disconnects_after :
    (fds : List ℕ) (fd : ℕ) (before : List ℕ) (s : RtspServer)
    → s.disconnect_list ≡ fd ∷ before
    → disconnects fds s ≡ record s { disconnect_list = s.disconnect_list ++ fds }
unfolding handle_dis_connect
disconnects_after [] fd before s e =
    ap (λ l. record s { disconnect_list = l }) (sym (append-nil s.disconnect_list))
disconnects_after (next ∷ fds) fd before s e =
    let queued : RtspServer = record s { disconnect_list = s.disconnect_list ++ next ∷ [] } in
    let step : handle_dis_connect next s ≡ queued =
      ground (arith, e, length-append before (next ∷ [])) in
    rw step (
      disconnects_after fds fd (before ++ next ∷ []) queued (rw e refl)
      ∙ ap (λ l. record s { disconnect_list = l }) (append_assoc s.disconnect_list (next ∷ []) fds))

-- The first one adds the trigger event, the others do not.
disconnects-empty :
    (fd : ℕ) (fds : List ℕ) (s : RtspServer)
    → s.disconnect_list ≡ []
    → disconnects (fd ∷ fds) s ≡ record s { disconnect_list = fd ∷ fds; triggers = s.triggers + 1 }
unfolding handle_dis_connect
disconnects-empty fd fds s e =
    let queued : RtspServer = record s { disconnect_list = fd ∷ []; triggers = s.triggers + 1 } in
    let step : handle_dis_connect fd s ≡ queued = rw e refl in
    rw step (disconnects_after fds fd [] queued refl)

-- From a server with no connection to close, and with a session for each name of its manager: when
-- connections of the table with positive descriptors, no two of the same descriptor and none with
-- exactly one RTP connection, are given up one after the other, the scheduler's next look at its queue
-- meets no failing assertion and no fault; it takes exactly those connections out of the table, closes
-- their descriptors in that order, and leaves the list and the queue empty.
disconnects-handle_trigger_event :
    (fds : List ℕ) (s : RtspServer)
    → s.disconnect_list ≡ []
    → s.triggers ≡ 0
    → Managed s
    → Closable fds s.fd2conn
    → (s' : RtspServer) × (handle_trigger_event (disconnects fds s) ≡ some s')
      × (s'.fd2conn ≡ erase_fds fds s.fd2conn)
      × (s'.closed ≡ reverse_onto fds s.closed)
      × (s'.disconnect_list ≡ [])
      × (s'.triggers ≡ 0)
unfolding handle_trigger_event run_triggers handle_close_connect
disconnects-handle_trigger_event [] s e t managed closable =
    (record s { triggers = 0 }, rw t refl, refl, refl, e, refl)
disconnects-handle_trigger_event (fd ∷ fds) s e t managed closable =
    let queued : RtspServer = record s { disconnect_list = fd ∷ fds; triggers = 1 } in
    let step : disconnects (fd ∷ fds) s ≡ queued =
      disconnects-empty fd fds s e
      ∙ ap (λ n. record s { disconnect_list = fd ∷ fds; triggers = n + 1 }) t in
    let (s', run, closed) = close_all-Closed closable queued refl managed in
    (
      record s' { disconnect_list = []; triggers = 0 },
      rw step (ground (arith, run)),
      closed.fd2conn,
      closed.closed,
      refl,
      refl,
    )

abbrev pub mem_fd : ℕ → List ℕ → Bool
mem_fd x [] = false
mem_fd x (y ∷ ys) = if x == y then true else mem_fd x ys

-- Taking descriptors out of the table takes out their connections and leaves each other one.
pub find-erase_fds :
    (fds : List ℕ) (fd : ℕ) (conns : List (ℕ × RtspConnection))
    → find_fd fd (erase_fds fds conns) ≡ (if mem_fd fd fds then none else find_fd fd conns)
find-erase_fds [] fd conns = refl
find-erase_fds (next ∷ fds) fd conns =
    ground (arith, find-erase_fds fds fd (erase_fd next conns), find-erase_fd next fd conns)

abbrev KeepsTable : RtspServer → Option RtspServer → Type 0
KeepsTable s none = Unit {0}
KeepsTable s (some s') = s'.fd2conn ≡ s.fd2conn

destroy-KeepsTable : (c : RtspConnection) (s : RtspServer) → KeepsTable s (destroy c s)
unfolding destroy leave_session handle_session_remove
destroy-KeepsTable c s = ground arith

close_again :
    (fd : ℕ) (c : RtspConnection) (s s' : RtspServer)
    → destroy c (record s { fd2conn = erase_fd fd s.fd2conn }) ≡ some s'
    → find_fd fd s'.fd2conn ≡ none
close_again fd c s s' run =
    let erased : RtspServer = record s { fd2conn = erase_fd fd s.fd2conn } in
    let kept : KeepsTable erased (some s') = rw run at (destroy-KeepsTable c erased) in
    rw kept (ground (arith, find-erase_fd fd fd s.fd2conn))

close_all_twice :
    (fd : ℕ) (s : RtspServer)
    → run_triggers
        (s.triggers + 1)
        (record s { disconnect_list = fd ∷ fd ∷ []; triggers = s.triggers + 1 })
      ≡ none
unfolding run_triggers handle_close_connect close_all
close_all_twice fd s =
    let q : RtspServer = record s { disconnect_list = fd ∷ fd ∷ []; triggers = s.triggers + 1 } in
    elim (Option-cases (find_fd fd s.fd2conn)) [
      | inl e ↦ ground (arith, e)
      | inr (c, e) ↦
          elim (Option-cases (destroy c (record q { fd2conn = erase_fd fd s.fd2conn }))) [
            | inl f ↦ ground (arith, e, f)
            | inr (s', f) ↦ ground (arith, e, f, close_again fd c q s' f)
          ]
    ]

-- The assertion of the loop fails, whatever the table holds, where a connection was given up a second
-- time before the list was worked off.
disconnects_twice :
    (fd : ℕ) (s : RtspServer)
    → s.disconnect_list ≡ []
    → handle_trigger_event (disconnects (fd ∷ fd ∷ []) s) ≡ none
unfolding handle_trigger_event run_triggers handle_close_connect close_all
disconnects_twice fd s e = rw (disconnects-empty fd (fd ∷ []) s e) (close_all_twice fd s)

-- A connection with exactly one RTP connection, as after one `SETUP`: closing it reads past the end of
-- its vector.
pub disconnects_single :
    (fd conn : ℕ) (c : RtspConnection) (s : RtspServer)
    → s.disconnect_list ≡ []
    → find_fd fd s.fd2conn ≡ some c
    → c.rtp_conns ≡ conn ∷ []
    → handle_trigger_event (disconnects (fd ∷ []) s) ≡ none
unfolding handle_trigger_event run_triggers handle_close_connect close_all destroy leave_session
    handle_session_remove
disconnects_single fd conn c s e found single =
    rw (disconnects-empty fd [] s e) (ground (arith, found, single))
