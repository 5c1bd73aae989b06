-- ===== src/Main.antt =====
-- src/main.cpp and the constructor of src/live/RtspServer.cpp: the server that `main` starts.
mod SendingTests
mod Tests
pub mod Reachable
pub mod Sending
use zrh_rtsp_server.Prelude.{
  ℕ, ◌≡◌, true, Option, none, some, List, [], ◌∷◌, ◌==◌, if◌then◌else◌, map,
}
use zrh_rtsp_server.Text.{Bytes, ascii}
use zrh_rtsp_server.H264Source.{h264_frame_fps}
use zrh_rtsp_server.MediaSession
use zrh_rtsp_server.MediaSession.{MediaSession, Track, add_sink, track_id0, track_id1, h264, aac}
use zrh_rtsp_server.RtspServer.{RtspServer, Manager, add_media_session, handle_trigger_event}
use zrh_rtsp_server.RtspServer.Loop.{Arrival, fd_of, serve_all}
use zrh_rtsp_server.RtspServer.Serving.{all_distinct, AllFresh}

-- The session, with what `rand()` gave and what memory held.
unfoldable pub test_session : ℕ → Track → Track → MediaSession
test_session rand memory0 memory1 =
    let m = MediaSession.construct (ascii "test") rand memory0 memory1 in
    add_sink (add_sink m track_id0 (h264 h264_frame_fps)) track_id1 aac

-- `RtspServer::RtspServer` with a manager, whose sessions are on the heap: the listening descriptor is
-- polled.
unfoldable pub new_server : ℕ → Manager → (ℕ → Option MediaSession) → RtspServer
new_server socket_fd manager sessions = record {
  fd2conn = [];
  manager = manager;
  sessions = sessions;
  rtp_store = λ address. none;
  rtp_next = 0;
  disconnect_list = [];
  triggers = 0;
  watched = socket_fd ∷ [];
  sent = [];
  closed = [];
}

-- The server of `main`, with the session at an address.
unfoldable pub main_server : ℕ → ℕ → MediaSession → RtspServer
main_server socket_fd address session =
    new_server socket_fd (add_media_session session.session_name address [])
      (λ a. if a == address then some session else none)

-- The states of a server between the turns of `loop`: in each turn the ready descriptors are served, and
-- then the queue is worked off.
pub data Reach (s₀ : RtspServer) : RtspServer → Type 0 where
  start : Reach s₀ s₀
  turn :
      {s s' s'' : RtspServer} (arrivals : List Arrival)
      → Reach s₀ s
      → all_distinct (map fd_of arrivals) ≡ true
      → AllFresh arrivals s
      → serve_all arrivals s ≡ some s'
      → handle_trigger_event s' ≡ some s''
      → Reach s₀ s''
