-- ===== src/Main/Tests.antt =====
-- A client that connects, and closes in the next turn.
use zrh_rtsp_server.Prelude.{refl, false, none, [], ◌∷◌, arith}
use zrh_rtsp_server.Text.{pos}
use zrh_rtsp_server.Rtp.{RtpConnection}
use zrh_rtsp_server.FdMap.{find_fd, erase_fd}
use zrh_rtsp_server.MediaSession.{MediaSession, Track, track_id0}
use zrh_rtsp_server.RtspConnection.{RtspConnection, options}
use zrh_rtsp_server.RtspConnection.Dispatch.{received, handle_rtsp_request}
use zrh_rtsp_server.RtspServer.{
  free_all, RtspServer, accepted, handle_read, handle_dis_connect, destroy, leave_session, unwatch,
  close_all, handle_close_connect, run_triggers, handle_trigger_event,
}
use zrh_rtsp_server.RtspServer.Loop.{connects, requests, serve, serve_all}
use zrh_rtsp_server.RtspServer.Serving.{IsSound}
use zrh_rtsp_server.Main.{test_session, new_server, main_server, Reach, start, turn}
use zrh_rtsp_server.Main.Reachable.{Reach-IsSound}

abbrev track : Track
track = record { sink = none; track_id = track_id0; alive = false; rtp_conns = [] }

abbrev session : MediaSession
session = test_session 7 track track

abbrev memory : RtspConnection
memory = record {
  client_fd = 0;
  rbuf = [];
  buf_size = 0;
  alive = false;
  rtp_conns = [];
  manager = [];
  cseq = pos 0;
  method = options;
  port = 0;
  ip = [];
  suffix = [];
  method_buf = [];
  url = [];
  version = [];
  track = [];
  channel1 = pos 0;
  channel2 = pos 0;
  session_name = [];
  session_id = 0;
  is_tcp = false;
}

abbrev rtp_memory : RtpConnection
rtp_memory = record {
  sock_fd = 0;
  rtcp_sock_fd = 0;
  alive = false;
  rtp_channel = 0;
  is_tcp = false;
  remote_rtp_port = 0;
  remote_rtcp_port = 0;
  local_rtp_port = 0;
  local_rtcp_port = 0;
  remote_addr = (0, 0);
}

abbrev started : RtspServer
started = main_server 3 0 session

abbrev connected : RtspServer
connected = record started { fd2conn = (8, accepted 8 memory started) ∷ []; watched = 8 ∷ 3 ∷ [] }

abbrev given_up : RtspServer
given_up = record connected {
  fd2conn = (8, record (accepted 8 memory started) { alive = false }) ∷ [];
  disconnect_list = 8 ∷ [];
  triggers = 1;
}

abbrev left : RtspServer
left = record started { closed = 8 ∷ [] }

left-Reach : Reach started left
unfolding main_server new_server serve_all serve handle_read find_fd erase_fd handle_rtsp_request
    handle_dis_connect destroy leave_session unwatch close_all handle_close_connect run_triggers
    handle_trigger_event free_all
left-Reach =
    turn {s = connected} {s' = given_up}
      (requests 8 (received []) [] 0 rtp_memory
          (record { peer = 0; sock_fd = 0; rtcp_sock_fd = 0; local_rtp_port = 0 })
        ∷ [])
      (turn {s = started} {s' = connected} (connects 8 memory ∷ []) start refl
        ((refl, omega arith, omega arith), tt) refl refl)
      refl (tt, tt) refl refl

Reach-IsSound_example : IsSound left
Reach-IsSound_example = Reach-IsSound 3 0 session left-Reach
