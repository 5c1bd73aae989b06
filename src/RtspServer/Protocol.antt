-- ===== src/RtspServer/Protocol.antt =====
-- Clients that set up the two tracks of a session in order: the requests of any number of them, their
-- coming and going, one after the other.
pub mod Joining
pub mod Reachable
pub mod Safety
pub mod Stages
pub mod Steps
use zrh_rtsp_server.Prelude.{ℕ, ◌≡◌, Bool, true, Option, none, some, List, [], ◌∷◌}
use zrh_rtsp_server.Rtp.{RtpConnection}
use zrh_rtsp_server.FdMap.{find_fd, set_fd}
use zrh_rtsp_server.MediaSession.{TrackId, track_id0, track_id1}
use zrh_rtsp_server.RtspConnection.{
  RtspConnection, Method, options, describe, setup, play, teardown, unknown,
}
use zrh_rtsp_server.RtspConnection.Handlers.{UdpSockets, scan_track, track_named}
use zrh_rtsp_server.RtspConnection.Dispatch.{dispatch}
use zrh_rtsp_server.RtspServer.{RtspServer, look_media_session, handle_read, close_all}

-- The track whose turn it is, by the RTP connections that there are.
pub data Next : List ℕ → TrackId → Type 0 where
  first : Next [] track_id0
  second : (p : ℕ) → Next (p ∷ []) track_id1

-- A request that was parsed: `OPTIONS`, which names a session, comes before any `SETUP`, and a `SETUP` is
-- for the track whose turn it is, of a session that the server has.
abbrev pub IsPolite : Method → RtspConnection → RtspServer → Type 0
IsPolite options c s = c.rtp_conns ≡ []
IsPolite setup c s =
    (c₁ : RtspConnection) × (id : TrackId) × (address : ℕ) × (scan_track c ≡ some (true, c₁))
    × (track_named c₁.track ≡ some id)
    × Next c.rtp_conns id
    × (look_media_session c.session_name s.manager ≡ some address)
IsPolite _ c s = Unit {0}

-- The states of the server. Parsing changes of a connection what a request gives, not its RTP connections
-- and not its session; the changed connection is put back into the table.
pub data Reach (s₀ : RtspServer) : RtspServer → Type 0 where
  start : Reach s₀ s₀
  comes :
      {s s' : RtspServer} (fd : ℕ) (memory : RtspConnection)
      → Reach s₀ s
      → find_fd fd s.fd2conn ≡ none
      → handle_read fd memory s ≡ some s'
      → Reach s₀ s'
  asks :
      {s s' : RtspServer} {c'' : RtspConnection} {b : Bool} (fd time : ℕ) (memory : RtpConnection)
      (sockets : UdpSockets) (c c' : RtspConnection)
      → Reach s₀ s
      → find_fd fd s.fd2conn ≡ some c
      → c'.rtp_conns ≡ c.rtp_conns
      → c'.session_name ≡ c.session_name
      → IsPolite c'.method c' s
      → dispatch time memory sockets c' s ≡ some (b, c'', s')
      → Reach s₀ (record s' { fd2conn = set_fd fd c'' s'.fd2conn })
  goes : {s s' : RtspServer} (fd : ℕ) → Reach s₀ s → close_all (fd ∷ []) s ≡ some s' → Reach s₀ s'
