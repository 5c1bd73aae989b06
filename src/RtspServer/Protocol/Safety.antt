-- ===== src/RtspServer/Protocol/Safety.antt =====
-- What the clients' requests, their coming and going keep.
use mathlib.Core.Path.{subst}
use zrh_rtsp_server.Prelude.{
  ℕ, ◌≡◌, refl, sym, ap, ◌∙◌, Bool, true, false, Option, some, [], arith, ℕ_discrete, inl, inr, ◌⊎◌,
}
use zrh_rtsp_server.Rtp.{RtpConnection}
use zrh_rtsp_server.FdMap.{find_fd, set_fd, find-set_fd}
use zrh_rtsp_server.RtspConnection.{
  RtspConnection, Method, options, describe, setup, play, teardown, unknown,
}
use zrh_rtsp_server.RtspConnection.Handlers.{
  UdpSockets, handle_options, handle_describe, handle_setup, handle_play, handle_teardown,
  setup_track,
}
use zrh_rtsp_server.RtspConnection.Dispatch.{dispatch}
use zrh_rtsp_server.RtspConnection.Effects.{Effect, HasEffect}
use zrh_rtsp_server.RtspConnection.Requests.{dispatch-HasEffect}
use zrh_rtsp_server.RtspServer.{RtspServer, look_media_session}
use zrh_rtsp_server.RtspServer.Closing.{Managed}
use zrh_rtsp_server.RtspServer.Pointers.{NoDangling}
use zrh_rtsp_server.RtspServer.Protocol.{IsPolite}
use zrh_rtsp_server.RtspServer.Protocol.Joining.{
  AllBounded, AllStages, same_parts-Moves, same_parts-AllBounded, Joined-Moves, Joined-AllBounded,
  Joined-Stage,
}
use zrh_rtsp_server.RtspServer.Protocol.Stages.{Stage, fresh, Moves, Stage-Moves, Stage-same}
use zrh_rtsp_server.RtspServer.Protocol.Steps.{
  SameParts, Kept, Named, handle_options-Kept, handle_describe-Kept, handle_play-Kept,
  handle_teardown-Kept, setup_track-Joined, scan_track-Kept,
}

pub record IsWell (s : RtspServer) : Type 0 where
  pub resolved : NoDangling s
  pub managed : Managed s
  pub bounded : AllBounded s
  pub stages : AllStages s

-- The table with a changed connection.
abbrev pub put : ℕ → RtspConnection → RtspServer → RtspServer
put fd c s = record s { fd2conn = set_fd fd c s.fd2conn }

pub put-AllStages :
    (fd : ℕ) (c : RtspConnection) (s s' : RtspServer)
    → AllStages s
    → Moves s s'
    → s'.fd2conn ≡ s.fd2conn
    → Stage c s'
    → (other : ℕ) (d : RtspConnection) → find_fd other (set_fd fd c s'.fd2conn) ≡ some d
    → Stage d s'
put-AllStages fd c s s' v moves table stage other d h = elim (ℕ_discrete other fd) [
  | yes e ↦
      let same : d ≡ c = ground (arith, h, e, find-set_fd fd other c s'.fd2conn) in rw same stage
  | no ne ↦
      let old : find_fd other s.fd2conn ≡ some d =
        ap (find_fd other) (sym table) ∙ ground (arith, h, ne, find-set_fd fd other c s'.fd2conn) in
      Stage-Moves d s s' moves (v other d old)
]

-- A request that leaves the pointers as they are.
kept-IsWell :
    (fd own : ℕ) (c c'' : RtspConnection) (s s' : RtspServer)
    → IsWell s
    → find_fd fd s.fd2conn ≡ some c
    → SameParts c.rtp_conns s c'' s'
    → (c''.session_name ≡ c.session_name) ⊎ (c.rtp_conns ≡ [])
    → Effect own c'' s s'
    → IsWell (put fd c'' s')
kept-IsWell fd own c c'' s s' v found (conns, table, manager, sessions, next) name effect =
    let moves : Moves s (put fd c'' s') =
      same_parts-Moves s (put fd c'' s') manager sessions next in
    let moved = same_parts-Moves s s' manager sessions next in
    let stage : Stage c'' s' = elim name [
      | inl same ↦ Stage-same c c'' s' conns same (Stage-Moves c s s' moved (v.stages fd c found))
      | inr none_yet ↦ fresh (conns ∙ none_yet)
    ] in
    record {
      resolved = effect.resolved v.resolved;
      managed = effect.managed v.managed;
      bounded = same_parts-AllBounded s s' sessions next v.bounded;
      stages = λ other d h.
          Stage-Moves d s' (put fd c'' s') (same_parts-Moves s' (put fd c'' s') refl refl refl)
            (put-AllStages fd c'' s s' v.stages moved table stage other d h);
    }

-- A `SETUP` for the track whose turn it is.
setup-IsWell :
    (fd own : ℕ) (c : RtspConnection) (memory : RtpConnection) (sockets : UdpSockets)
    (c' c'' : RtspConnection) (b : Bool) (s s' : RtspServer)
    → IsWell s
    → find_fd fd s.fd2conn ≡ some c
    → c'.rtp_conns ≡ c.rtp_conns
    → c'.session_name ≡ c.session_name
    → IsPolite setup c' s
    → handle_setup memory sockets c' s ≡ some (b, c'', s')
    → Effect own c'' s s'
    → IsWell (put fd c'' s')
unfolding handle_setup
setup-IsWell fd own c memory sockets c' c'' b s s' v found same_conns same_name
      (c₁, id, address, scanned, named, turn, looked) run effect =
    let (conns, name) = scan_track-Kept c' c₁ true scanned in
    let step : setup_track memory sockets c₁ s ≡ some (b, c'', s') = ground (arith, run, scanned) in
    let looked₁ : look_media_session c₁.session_name s.manager ≡ some address = rw name looked in
    let (m, there) = v.managed c₁.session_name address looked₁ in
    let joined =
      setup_track-Joined memory sockets id address m b c₁ c'' s s' named looked₁ there step in
    let moved = Joined-Moves id address m c₁ c'' s s' joined there v.bounded in
    let stage₁ = Stage-same c c₁ s (conns ∙ same_conns) (name ∙ same_name) (v.stages fd c found) in
    let stage : Stage c'' s' =
      Joined-Stage id address m c₁ c'' s s' joined there v.bounded looked₁ (rw conns turn) stage₁ in
    record {
      resolved = effect.resolved v.resolved;
      managed = effect.managed v.managed;
      bounded = Joined-AllBounded id address m c₁ c'' s s' joined there v.bounded;
      stages = λ other d h.
          Stage-Moves d s' (put fd c'' s') (same_parts-Moves s' (put fd c'' s') refl refl refl)
            (put-AllStages fd c'' s s' v.stages moved joined.fd2conn stage other d h);
    }

pub asks-IsWell :
    (fd time : ℕ) (c : RtspConnection) (memory : RtpConnection) (sockets : UdpSockets)
    (c' c'' : RtspConnection) (b : Bool) (s s' : RtspServer)
    → IsWell s
    → find_fd fd s.fd2conn ≡ some c
    → c'.rtp_conns ≡ c.rtp_conns
    → c'.session_name ≡ c.session_name
    → IsPolite c'.method c' s
    → dispatch time memory sockets c' s ≡ some (b, c'', s')
    → IsWell (put fd c'' s')
unfolding dispatch
asks-IsWell fd time c memory sockets c' c'' b s s' v found conns name polite run =
    let effect : Effect c'.client_fd c'' s s' =
      subst (HasEffect c'.client_fd s) run (dispatch-HasEffect time memory sockets c' s) in
    by_method c'.method polite run effect
  where
    quiet :
        (o : Option (Bool × RtspConnection × RtspServer))
        → Kept c'.rtp_conns s o × Named c'.session_name o
        → o ≡ some (b, c'', s')
        → Effect c'.client_fd c'' s s'
        → IsWell (put fd c'' s')
    quiet o (kept, named) e effect =
        let (conns', table, manager, sessions, next) : SameParts c'.rtp_conns s c'' s' =
          subst (Kept c'.rtp_conns s) e kept in
        let name' : c''.session_name ≡ c'.session_name = subst (Named c'.session_name) e named in
        kept-IsWell fd c'.client_fd c c'' s s' v found
          (conns' ∙ conns, table, manager, sessions, next) (inl (name' ∙ name)) effect

    by_method :
        (m : Method)
        → IsPolite m c' s
        → elim m [
          | options ↦ handle_options c' s
          | describe ↦ handle_describe time c' s
          | setup ↦ handle_setup memory sockets c' s
          | play ↦ handle_play c' s
          | teardown ↦ handle_teardown c' s
          | unknown ↦ some (false, c', s)
        ]
          ≡ some (b, c'', s')
        → Effect c'.client_fd c'' s s'
        → IsWell (put fd c'' s')
    by_method options none_yet e effect =
        let (conns', table, manager, sessions, next) : SameParts c'.rtp_conns s c'' s' =
          subst (Kept c'.rtp_conns s) e (handle_options-Kept c' s) in
        kept-IsWell fd c'.client_fd c c'' s s' v found
          (conns' ∙ conns, table, manager, sessions, next) (inr (sym conns ∙ none_yet)) effect
    by_method describe p e effect =
        quiet (handle_describe time c' s) (handle_describe-Kept time c' s) e effect
    by_method setup p e effect =
        setup-IsWell fd c'.client_fd c memory sockets c' c'' b s s' v found conns name p e effect
    by_method play p e effect = quiet (handle_play c' s) (handle_play-Kept c' s) e effect
    by_method teardown p e effect =
        quiet (handle_teardown c' s) (handle_teardown-Kept c' s) e effect
    by_method unknown p e effect =
        quiet (some (false, c', s)) ((refl, refl, refl, refl, refl), refl) e effect
