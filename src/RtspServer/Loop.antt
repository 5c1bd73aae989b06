-- ===== src/RtspServer/Loop.antt =====
-- A turn of the scheduler's loop as the server sees it: the descriptors that `Poll` finds ready are served
-- one after the other, then `handleTriggerEvent` works off the queue.
use zrh_rtsp_server.Prelude.{ℕ, Option, none, some, List, [], ◌∷◌}
use zrh_rtsp_server.Rtp.{RtpConnection}
use zrh_rtsp_server.FdMap.{find_fd, set_fd}
use zrh_rtsp_server.RtspConnection.{RtspConnection}
use zrh_rtsp_server.RtspConnection.Handlers.{UdpSockets}
use zrh_rtsp_server.RtspConnection.Dispatch.{ReadResult, handle_rtsp_request}
use zrh_rtsp_server.RtspServer.{RtspServer, handle_read}

-- A descriptor that is ready, with what the system gives: the listening one, of which `Accept` gives a
-- new descriptor, or that of a client.
pub data Arrival : Type 0 where
  connects : ℕ → RtspConnection → Arrival
  requests : ℕ → ReadResult → List ReadResult → ℕ → RtpConnection → UdpSockets → Arrival

abbrev pub fd_of : Arrival → ℕ
fd_of (connects fd memory) = fd
fd_of (requests fd first reads time memory sockets) = fd

-- The read callbacks `readCb` of the server and of a connection. The table holds the connection that the
-- callback's argument points to, so the changed connection is put back.
unfoldable pub serve : Arrival → RtspServer → Option RtspServer
serve (connects fd memory) s = handle_read fd memory s
serve (requests fd first reads time memory sockets) s = elim (find_fd fd s.fd2conn) [
  | none ↦ none
  | some c ↦ elim (handle_rtsp_request first reads time memory sockets c s) [
    | none ↦ none
    | some (result, c', s') ↦ some (record s' { fd2conn = set_fd fd c' s'.fd2conn })
  ]
]

unfoldable pub serve_all : List Arrival → RtspServer → Option RtspServer
serve_all [] s = some s
serve_all (a ∷ arrivals) s = elim (serve a s) [ none ↦ none | some s' ↦ serve_all arrivals s' ]
