-- ===== src/RtspConnection/Effects.antt =====
-- What the handlers leave alone: the table of the server, the descriptor of the connection, and all of
-- the disconnect list but its end; and the pointers of the tracks, which go on standing for connections.
use mathlib.Core.Path.{subst}
use zrh_rtsp_server.Prelude.{
  ℕ, ◌+◌, ◌≡◌, refl, sym, ap, ◌∙◌, inl, inr, Bool, false, Option, none, some, List, [], ◌∷◌, ◌++◌,
  ◌==◌, if◌then◌else◌, arith, length, Option-cases, Bool-cases,
}
use zrh_rtsp_server.Text.{Bytes, ascii}
use zrh_rtsp_server.Rtp.{RtpConnection}
use zrh_rtsp_server.MediaSession.{MediaSession, add_rtp_connection, TrackId}
use zrh_rtsp_server.RtspConnection.{RtspConnection}
use zrh_rtsp_server.RtspConnection.Handlers.{
  UdpSockets, respond, handle_options, handle_describe, handle_play, handle_teardown, setup_track,
  ok, transport_line, session_line, track_named, rtp_over_tcp, rtp_over_udp,
}
use zrh_rtsp_server.RtspConnection.Growth.{Grows, SameStore, SameStore-Grows, respond-SameStore}
use zrh_rtsp_server.RtspServer.{
  RtspServer, handle_dis_connect, handle_session_add, update, look_media_session,
}
use zrh_rtsp_server.RtspServer.Closing.{Managed, update-Managed}
use zrh_rtsp_server.RtspServer.Pointers.{
  NoDangling, Extends, Extends-NoDangling, same_store-Extends, update-Extends, update-NoDangling,
  add_rtp_connection-SessionPoints,
}

-- What any request may do: to the table and the manager nothing, to the heap of sessions changes of
-- sessions that are there, and to the list of connections to close and its trigger event nothing, or what
-- giving up this one connection does.
pub data Queued (fd : ℕ) (s s' : RtspServer) : Type 0 where
  untouched : s'.disconnect_list ≡ s.disconnect_list → s'.triggers ≡ s.triggers → Queued fd s s'
  gave_up :
      s'.disconnect_list ≡ s.disconnect_list ++ fd ∷ []
      → s'.triggers ≡ (if length s'.disconnect_list == 1 then s.triggers + 1 else s.triggers)
      → Queued fd s s'

pub record Effect (fd : ℕ) (c' : RtspConnection) (s s' : RtspServer) : Type 0 where
  pub client_fd : c'.client_fd ≡ fd
  pub fd2conn : s'.fd2conn ≡ s.fd2conn
  pub managed : Managed s → Managed s'
  pub resolved : NoDangling s → NoDangling s'
  pub queued : Queued fd s s'

abbrev pub HasEffect : ℕ → RtspServer → Option (Bool × RtspConnection × RtspServer) → Type 0
HasEffect fd s none = Unit {0}
HasEffect fd s (some (b, c', s')) = Effect fd c' s s'

-- A handler that leaves all of these as they are.
abbrev Quiet : RtspConnection → RtspServer → Option (Bool × RtspConnection × RtspServer) → Type 0
Quiet c s none = Unit {0}
Quiet c s (some (b, c', s')) =
    (c'.client_fd ≡ c.client_fd)
    × (s'.fd2conn ≡ s.fd2conn)
    × (s'.manager ≡ s.manager)
    × (s'.sessions ≡ s.sessions)
    × (s'.disconnect_list ≡ s.disconnect_list)
    × (s'.triggers ≡ s.triggers)

respond-Quiet :
    (text : Bytes) (result : Bool) (c : RtspConnection) (s : RtspServer)
    → Quiet c s (respond text result c s)
unfolding respond
respond-Quiet text result c s = ground arith

pub handle_options-Quiet : (c : RtspConnection) (s : RtspServer) → Quiet c s (handle_options c s)
unfolding handle_options respond
handle_options-Quiet c s = ground arith

pub handle_describe-Quiet :
    (time : ℕ) (c : RtspConnection) (s : RtspServer) → Quiet c s (handle_describe time c s)
unfolding handle_describe respond
handle_describe-Quiet time c s = ground arith

pub handle_play-Quiet : (c : RtspConnection) (s : RtspServer) → Quiet c s (handle_play c s)
unfolding handle_play respond
handle_play-Quiet c s = ground arith

same_sessions-Managed :
    (s s' : RtspServer) → s'.manager ≡ s.manager → s'.sessions ≡ s.sessions → Managed s → Managed s'
same_sessions-Managed s s' e f managed name address h =
    let (m, found) = managed name address (ap (look_media_session name) (sym e) ∙ h) in
    (m, ap (λ (heap : ℕ → Option MediaSession). heap address) f ∙ found)

pub Quiet-HasEffect :
    (c : RtspConnection) (s : RtspServer) (o : Option (Bool × RtspConnection × RtspServer))
    → Quiet c s o
    → Grows s o
    → HasEffect c.client_fd s o
Quiet-HasEffect c s none q grows = tt
Quiet-HasEffect c s (some (b, c', s')) (fd, table, manager, sessions, list, triggers) grows =
    record {
      client_fd = fd;
      fd2conn = table;
      managed = same_sessions-Managed s s' manager sessions;
      resolved = Extends-NoDangling s s' sessions grows;
      queued = untouched list triggers;
    }

handle_dis_connect_lem :
    (fd : ℕ) (s : RtspServer)
    → let s' = handle_dis_connect fd s in
      (s'.fd2conn ≡ s.fd2conn)
      × (s'.manager ≡ s.manager)
      × (s'.sessions ≡ s.sessions)
      × (s'.rtp_store ≡ s.rtp_store)
      × (s'.disconnect_list ≡ s.disconnect_list ++ fd ∷ [])
      × (s'.triggers ≡ (if length s'.disconnect_list == 1 then s.triggers + 1 else s.triggers))
unfolding handle_dis_connect
handle_dis_connect_lem fd s = elim (Bool-cases (length (s.disconnect_list ++ fd ∷ []) == 1)) [
  | inl e ↦ rw e (refl, refl, refl, refl, refl, rw e refl)
  | inr e ↦ rw e (refl, refl, refl, refl, refl, rw e refl)
]

pub dis_connect-Effect :
    (fd : ℕ) (c₁ : RtspConnection) (s s₁ : RtspServer)
    → c₁.client_fd ≡ fd
    → s₁.fd2conn ≡ s.fd2conn
    → s₁.manager ≡ s.manager
    → s₁.sessions ≡ s.sessions
    → s₁.rtp_store ≡ s.rtp_store
    → s₁.disconnect_list ≡ s.disconnect_list
    → s₁.triggers ≡ s.triggers
    → Effect fd c₁ s (handle_dis_connect fd s₁)
dis_connect-Effect fd c₁ s s₁ own table manager sessions store list triggers =
    let (table', manager', sessions', store', list', triggers') = handle_dis_connect_lem fd s₁ in
    let s' = handle_dis_connect fd s₁ in
    record {
      client_fd = own;
      fd2conn = table' ∙ table;
      managed = same_sessions-Managed s s' (manager' ∙ manager) (sessions' ∙ sessions);
      resolved =
          Extends-NoDangling s s' (sessions' ∙ sessions) (same_store-Extends (store' ∙ store));
      queued =
          gave_up (list' ∙ ap (λ l. l ++ fd ∷ []) list)
            (triggers' ∙ ap (λ n. if length s'.disconnect_list == 1 then n + 1 else n) triggers);
    }

pub handle_teardown-HasEffect :
    (c : RtspConnection) (s : RtspServer) → HasEffect c.client_fd s (handle_teardown c s)
unfolding handle_teardown
handle_teardown-HasEffect c s =
    let answer = ok c ++ ascii "\r\n" in
    elim (Option-cases (respond answer false c s)) [
      | inl e ↦
          let step : handle_teardown c s ≡ none = ground (arith, e) in
          subst (HasEffect c.client_fd s) (sym step) tt
      | inr ((b, c₁, s₁), e) ↦
          let (own, table, manager, sessions, list, triggers) : Quiet c s (some (b, c₁, s₁)) =
            subst (Quiet c s) e (respond-Quiet answer false c s) in
          let same : SameStore s (some (b, c₁, s₁)) =
            subst (SameStore s) e (respond-SameStore answer false c s) in
          let c' : RtspConnection = record c₁ { alive = false } in
          let step : handle_teardown c s ≡ some (b, c', handle_dis_connect c.client_fd s₁) =
            ground (arith, e) in
          subst (HasEffect c.client_fd s) (sym step)
            (dis_connect-Effect c.client_fd c' s s₁ own table manager sessions same list triggers)
    ]

handle_session_add-HasEffect :
    (id : TrackId) (conn : ℕ) (name : Bytes) (c : RtspConnection) (s s' : RtspServer)
    → (rtp : RtpConnection) × (s.rtp_store conn ≡ some rtp)
    → handle_session_add id conn name s ≡ some s'
    → Effect c.client_fd c s s'
unfolding handle_session_add
handle_session_add-HasEffect id conn name c s s' found run =
    elim (Option-cases (look_media_session name s.manager)) [
      | inl e ↦
          let same : s' ≡ s = ground (arith, run, e) in
          rw same (record {
            client_fd = refl;
            fd2conn = refl;
            managed = λ managed. managed;
            resolved = λ v. v;
            queued = untouched refl refl;
          })
      | inr (address, e) ↦ elim (Option-cases (s.sessions address)) [
        | inl f ↦ absurd (ground (arith, e, f))
        | inr (m, f) ↦
            let m' = add_rtp_connection m id conn in
            let same : s' ≡ record s { sessions = update s.sessions address m' } =
              ground (arith, run, e, f) in
            rw same (record {
              client_fd = refl;
              fd2conn = refl;
              managed = update-Managed s address m';
              resolved = λ v.
                  update-NoDangling s address m'
                    (add_rtp_connection-SessionPoints s.rtp_store m id conn (v address m f) found)
                    v;
              queued = untouched refl refl;
            })
      ]
    ]

Effect-Quiet :
    (fd : ℕ) (c : RtspConnection) (s s₁ : RtspServer)
    (o : Option (Bool × RtspConnection × RtspServer))
    → Effect fd c s s₁
    → Quiet c s₁ o
    → Grows s₁ o
    → HasEffect fd s o
Effect-Quiet fd c s s₁ none effect quiet grows = tt
Effect-Quiet fd c s s₁ (some (b, c', s')) effect (own, table, manager, sessions, list, triggers)
      grows =
    record {
      client_fd = own ∙ effect.client_fd;
      fd2conn = table ∙ effect.fd2conn;
      managed = λ managed. same_sessions-Managed s₁ s' manager sessions (effect.managed managed);
      resolved = λ v. Extends-NoDangling s₁ s' sessions grows (effect.resolved v);
      queued = elim effect.queued [
        | untouched l t ↦ untouched (list ∙ l) (triggers ∙ t)
        | gave_up l t ↦ gave_up (list ∙ l) (
            triggers
            ∙ t
            ∙ ap (λ (l : List ℕ). if length l == 1 then s.triggers + 1 else s.triggers) (sym list))
      ];
    }

pub setup_track-HasEffect :
    (memory : RtpConnection) (sockets : UdpSockets) (c : RtspConnection) (s : RtspServer)
    → HasEffect c.client_fd s (setup_track memory sockets c s)
unfolding setup_track
setup_track-HasEffect memory sockets c s =
    let conn =
      if c.is_tcp
      then rtp_over_tcp memory c.client_fd c.channel1
      else rtp_over_udp memory sockets c.channel1 in
    let p1 = s.rtp_next in
    let c₁ : RtspConnection = record c { rtp_conns = c.rtp_conns ++ p1 ∷ [] } in
    let s₁ : RtspServer = record s { rtp_store = update s.rtp_store p1 conn; rtp_next = p1 + 1 } in
    let more : Extends s.rtp_store s₁.rtp_store = update-Extends s.rtp_store p1 conn in
    let found : s₁.rtp_store p1 ≡ some conn = ground arith in
    elim (Option-cases (track_named c.track)) [
      | inl e ↦
          let step : setup_track memory sockets c s ≡ some (false, c₁, s₁) = ground (arith, e) in
          subst (HasEffect c.client_fd s) (sym step)
            (Quiet-HasEffect c s (some (false, c₁, s₁)) (refl, refl, refl, refl, refl, refl) more)
      | inr (id, e) ↦ elim (Option-cases (handle_session_add id p1 c.session_name s₁)) [
        | inl f ↦
            let step : setup_track memory sockets c s ≡ none = ground (arith, e, f) in
            subst (HasEffect c.client_fd s) (sym step) tt
        | inr (s₂, f) ↦
            let answer = ok c ++ transport_line c conn ++ session_line c in
            let effect =
              handle_session_add-HasEffect id p1 c.session_name c₁ s₁ s₂ (conn, found) f in
            let step : setup_track memory sockets c s ≡ respond answer false c₁ s₂ =
              ground (arith, e, f) in
            subst (HasEffect c.client_fd s) (sym step) (
              Effect-Quiet c.client_fd c₁ s s₂ (respond answer false c₁ s₂)
                (record {
                  client_fd = effect.client_fd;
                  fd2conn = effect.fd2conn;
                  managed = effect.managed;
                  resolved = λ v. effect.resolved (Extends-NoDangling s s₁ refl more v);
                  queued = elim effect.queued [
                    | untouched l t ↦ untouched l t
                    | gave_up l t ↦ gave_up l t
                  ];
                })
                (respond-Quiet answer false c₁ s₂)
                (SameStore-Grows s₂ (respond answer false c₁ s₂)
                  (respond-SameStore answer false c₁ s₂)))
      ]
    ]
