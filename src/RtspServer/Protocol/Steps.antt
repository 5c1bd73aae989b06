-- ===== src/RtspServer/Protocol/Steps.antt =====
-- What a request does to the RTP connections of its connection and to the sessions.
use zrh_rtsp_server.Prelude.{
  ℕ, ◌+◌, ◌≡◌, refl, Bool, false, Option, none, some, List, [], ◌∷◌, ◌++◌, if◌then◌else◌, arith,
}
use zrh_rtsp_server.Text.{Bytes}
use zrh_rtsp_server.Rtp.{RtpConnection}
use zrh_rtsp_server.MediaSession.{TrackId, MediaSession, add_rtp_connection}
use zrh_rtsp_server.RtspConnection.{RtspConnection}
use zrh_rtsp_server.RtspConnection.Handlers.{
  UdpSockets, respond, handle_options, handle_describe, handle_play, handle_teardown, setup_track,
  scan_track, track_named, rtp_over_tcp, rtp_over_udp, ok, transport_line, session_line,
}
use zrh_rtsp_server.RtspServer.{
  RtspServer, look_media_session, update, handle_session_add, handle_dis_connect,
}

-- What a request that is not `SETUP` leaves as it is; `OPTIONS` changes the session.
abbrev pub SameParts : List ℕ → RtspServer → RtspConnection → RtspServer → Type 0
SameParts conns s c' s' =
    (c'.rtp_conns ≡ conns)
    × (s'.fd2conn ≡ s.fd2conn)
    × (s'.manager ≡ s.manager)
    × (s'.sessions ≡ s.sessions)
    × (s'.rtp_next ≡ s.rtp_next)

abbrev pub Kept : List ℕ → RtspServer → Option (Bool × RtspConnection × RtspServer) → Type 0
Kept conns s none = Unit {0}
Kept conns s (some (b, c', s')) = SameParts conns s c' s'

abbrev pub Named : Bytes → Option (Bool × RtspConnection × RtspServer) → Type 0
Named name none = Unit {0}
Named name (some (b, c', s')) = c'.session_name ≡ name

pub handle_options-Kept :
    (c : RtspConnection) (s : RtspServer) → Kept c.rtp_conns s (handle_options c s)
unfolding handle_options respond
handle_options-Kept c s = ground arith

pub handle_describe-Kept :
    (time : ℕ) (c : RtspConnection) (s : RtspServer)
    → Kept c.rtp_conns s (handle_describe time c s)
      × Named c.session_name (handle_describe time c s)
unfolding handle_describe respond
handle_describe-Kept time c s = (ground arith, ground arith)

pub handle_play-Kept :
    (c : RtspConnection) (s : RtspServer)
    → Kept c.rtp_conns s (handle_play c s) × Named c.session_name (handle_play c s)
unfolding handle_play respond
handle_play-Kept c s = (ground arith, ground arith)

pub handle_teardown-Kept :
    (c : RtspConnection) (s : RtspServer)
    → Kept c.rtp_conns s (handle_teardown c s) × Named c.session_name (handle_teardown c s)
unfolding handle_teardown respond handle_dis_connect
handle_teardown-Kept c s = (ground arith, ground arith)

-- `SETUP` of a track of a session that the server has: the next pointer comes to the end of the
-- connection's vector and of the track's list.
pub record Joined (id : TrackId) (address : ℕ) (m : MediaSession) (c c' : RtspConnection)
    (s s' : RtspServer) : Type 0 where
  pub conns : c'.rtp_conns ≡ c.rtp_conns ++ s.rtp_next ∷ []
  pub name : c'.session_name ≡ c.session_name
  pub fd2conn : s'.fd2conn ≡ s.fd2conn
  pub manager : s'.manager ≡ s.manager
  pub sessions : s'.sessions ≡ update s.sessions address (add_rtp_connection m id s.rtp_next)
  pub next : s'.rtp_next ≡ s.rtp_next + 1

respond_lem :
    (text : Bytes) (result b : Bool) (c c' : RtspConnection) (s s' : RtspServer)
    → respond text result c s ≡ some (b, c', s')
    → (c' ≡ c) × (s' ≡ record s { sent = (c.client_fd, text) ∷ s.sent })
unfolding respond
respond_lem text result b c c' s s' run = ground (arith, run)

pub setup_track-Joined :
    (memory : RtpConnection) (sockets : UdpSockets) (id : TrackId) (address : ℕ) (m : MediaSession)
    (b : Bool) (c c' : RtspConnection) (s s' : RtspServer)
    → track_named c.track ≡ some id
    → look_media_session c.session_name s.manager ≡ some address
    → s.sessions address ≡ some m
    → setup_track memory sockets c s ≡ some (b, c', s')
    → Joined id address m c c' s s'
unfolding setup_track handle_session_add
setup_track-Joined memory sockets id address m b c c' s s' named looked there run =
    let conn =
      if c.is_tcp
      then rtp_over_tcp memory c.client_fd c.channel1
      else rtp_over_udp memory sockets c.channel1 in
    let c₁ : RtspConnection = record c { rtp_conns = c.rtp_conns ++ s.rtp_next ∷ [] } in
    let s₂ : RtspServer = record s {
      rtp_store = update s.rtp_store s.rtp_next conn;
      rtp_next = s.rtp_next + 1;
      sessions = update s.sessions address (add_rtp_connection m id s.rtp_next);
    } in
    let answer = ok c ++ transport_line c conn ++ session_line c in
    let step : respond answer false c₁ s₂ ≡ some (b, c', s') =
      ground (arith, named, looked, there, run) in
    let (same, same_server) = respond_lem answer false b c₁ c' s₂ s' step in
    rw (same, same_server)
      (record {
        conns = refl;
        name = refl;
        fd2conn = refl;
        manager = refl;
        sessions = refl;
        next = refl;
      })

-- `SETUP` scans the track's name only.
pub scan_track-Kept :
    (c c₁ : RtspConnection) (b : Bool)
    → scan_track c ≡ some (b, c₁)
    → (c₁.rtp_conns ≡ c.rtp_conns) × (c₁.session_name ≡ c.session_name)
unfolding scan_track
scan_track-Kept c c₁ b run = ground (arith, run)
