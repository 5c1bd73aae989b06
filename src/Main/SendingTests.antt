-- ===== src/Main/SendingTests.antt =====
-- A client that names the session of `main`, sets up its two tracks and goes.
use zrh_rtsp_server.Prelude.{◌≡◌, refl, Bool, true, false, none, some, List, [], ◌∷◌, arith}
use zrh_rtsp_server.Text.{
  ascii, pos, span, decimal, scan_run, skip_space, print_unsigned, print_int, scan_word,
  scan_literal, starts_with,
}
use zrh_rtsp_server.Rtp.{RtpPacket, RtpConnection, Transmission}
use zrh_rtsp_server.Sink.{zero_header}
use zrh_rtsp_server.FdMap.{find_fd, erase_fd, set_fd}
use zrh_rtsp_server.MediaSession.{
  MediaSession, Track, track_id0, track_id1, track_id_none, construct, add_sink,
  handle_session_send, add_rtp_connection, remove_rtp_connection, remove,
}
use zrh_rtsp_server.RtspConnection.{RtspConnection, options, setup, unknown}
use zrh_rtsp_server.RtspConnection.Handlers.{
  UdpSockets, handle_options, handle_setup, setup_track, scan_track, track_named, respond,
  rtp_over_tcp,
}
use zrh_rtsp_server.RtspConnection.Dispatch.{dispatch}
use zrh_rtsp_server.RtspServer.{
  RtspServer, accepted, handle_read, look_media_session, add_media_session, handle_session_add,
  handle_session_remove, leave_session, destroy, close_all, unwatch, free_all,
}
use zrh_rtsp_server.RtspServer.Protocol.{Reach, start, comes, asks, goes, first, second}
use zrh_rtsp_server.Main.{main_server, new_server, test_session}
use zrh_rtsp_server.Main.Sending.{Reach-sends}

abbrev nothing : Track
nothing = record { sink = none; track_id = track_id_none; alive = false; rtp_conns = [] }

abbrev memory : RtspConnection
memory = record {
  client_fd = 0;
  rbuf = [];
  buf_size = 0;
  alive = false;
  rtp_conns = [];
  manager = [];
  cseq = pos 0;
  method = unknown;
  port = 0;
  ip = [];
  suffix = [];
  method_buf = [];
  url = [];
  version = [];
  track = [];
  channel1 = pos 0;
  channel2 = pos 1;
  session_name = [];
  session_id = 0;
  is_tcp = true;
}

abbrev rtp_memory : RtpConnection
rtp_memory = record {
  sock_fd = 0;
  rtcp_sock_fd = 0;
  alive = false;
  rtp_channel = 0;
  is_tcp = false;
  remote_rtp_port = 0;
  remote_rtcp_port = 0;
  local_rtp_port = 0;
  local_rtcp_port = 0;
  remote_addr = (0, 0);
}

abbrev sockets : UdpSockets
sockets = record { peer = 0; sock_fd = 0; rtcp_sock_fd = 0; local_rtp_port = 0 }

abbrev initial : RtspServer
initial = main_server 3 0 (test_session 7 nothing nothing)

abbrev connected : RtspServer
connected = record initial { fd2conn = (8, accepted 8 memory initial) ∷ []; watched = 8 ∷ 3 ∷ [] }

connected-Reach : Reach initial connected
unfolding handle_read find_fd erase_fd main_server new_server
connected-Reach = comes 8 memory start refl refl

abbrev naming : RtspConnection
naming = record (accepted 8 memory initial) { method = options; suffix = ascii "test" }

named :
    (r : Bool × RtspConnection × RtspServer) × (dispatch 0 rtp_memory sockets naming connected
      ≡ some r)
unfolding dispatch handle_options main_server new_server test_session construct add_sink
    add_media_session look_media_session respond print_int print_unsigned decimal
named = (_, refl)

abbrev after_named : RtspServer
after_named = record named.0.2 { fd2conn = set_fd 8 named.0.1 named.0.2.fd2conn }

named-Reach : Reach initial after_named
unfolding find_fd main_server new_server
named-Reach =
    asks 8 0 rtp_memory sockets (accepted 8 memory initial) naming connected-Reach refl refl refl
      refl named.1

abbrev first_track : RtspConnection
first_track = record named.0.1 { method = setup; suffix = ascii "test/track0" }

first_set_up :
    (r : Bool × RtspConnection × RtspServer) × (dispatch 0 rtp_memory sockets first_track
        after_named
      ≡ some r)
unfolding dispatch handle_options handle_setup scan_track span scan_word scan_run skip_space
    scan_literal setup_track track_named starts_with handle_session_add rtp_over_tcp
    add_rtp_connection named main_server new_server test_session construct add_sink
    add_media_session look_media_session respond print_int print_unsigned decimal
first_set_up = (_, refl)

abbrev after_first : RtspServer
after_first = record first_set_up.0.2 {
  fd2conn = set_fd 8 first_set_up.0.1 first_set_up.0.2.fd2conn;
}

first-Reach : Reach initial after_first
unfolding dispatch handle_options handle_setup scan_track span scan_word scan_run skip_space
    scan_literal setup_track track_named starts_with handle_session_add rtp_over_tcp
    add_rtp_connection named main_server new_server test_session construct add_sink
    add_media_session look_media_session respond print_int print_unsigned decimal find_fd
first-Reach =
    asks 8 0 rtp_memory sockets named.0.1 first_track named-Reach refl refl refl
      (record first_track { track = ascii "track0" }, track_id0, 0, refl, refl, first, refl)
      first_set_up.1

abbrev second_track : RtspConnection
second_track = record first_set_up.0.1 { suffix = ascii "test/track1" }

second_set_up :
    (r : Bool × RtspConnection × RtspServer) × (dispatch 0 rtp_memory sockets second_track
        after_first
      ≡ some r)
unfolding dispatch handle_options handle_setup scan_track span scan_word scan_run skip_space
    scan_literal setup_track track_named starts_with handle_session_add rtp_over_tcp
    add_rtp_connection named main_server new_server test_session construct add_sink
    add_media_session look_media_session respond print_int print_unsigned decimal first_set_up
second_set_up = (_, refl)

abbrev after_second : RtspServer
after_second = record second_set_up.0.2 {
  fd2conn = set_fd 8 second_set_up.0.1 second_set_up.0.2.fd2conn;
}

second-Reach : Reach initial after_second
unfolding dispatch handle_options handle_setup scan_track span scan_word scan_run skip_space
    scan_literal setup_track track_named starts_with handle_session_add rtp_over_tcp
    add_rtp_connection named main_server new_server test_session construct add_sink
    add_media_session look_media_session respond print_int print_unsigned decimal first_set_up
    find_fd
second-Reach =
    asks 8 0 rtp_memory sockets first_set_up.0.1 second_track first-Reach refl refl refl
      (record second_track { track = ascii "track1" }, track_id1, 0, refl, refl, second 0, refl)
      second_set_up.1

left : (s : RtspServer) × (close_all (8 ∷ []) after_second ≡ some s)
unfolding dispatch handle_options handle_setup scan_track span scan_word scan_run skip_space
    scan_literal setup_track track_named starts_with handle_session_add rtp_over_tcp
    add_rtp_connection named main_server new_server test_session construct add_sink
    add_media_session look_media_session respond print_int print_unsigned decimal first_set_up
    second_set_up find_fd erase_fd unwatch close_all destroy leave_session handle_session_remove
    remove_rtp_connection remove free_all
left = (_, refl)

left-Reach : Reach initial left.0
left-Reach = goes 8 second-Reach left.1

shared : (m : MediaSession) × (after_second.sessions 0 ≡ some m)
unfolding dispatch handle_options handle_setup scan_track span scan_word scan_run skip_space
    scan_literal setup_track track_named starts_with handle_session_add rtp_over_tcp
    add_rtp_connection named main_server new_server test_session construct add_sink
    add_media_session look_media_session respond print_int print_unsigned decimal first_set_up
    second_set_up
shared = (_, refl)

abbrev packet : RtpPacket
packet = record {
  size = 2;
  prefix = 0 ∷ 0 ∷ 0 ∷ 0 ∷ [];
  rtp_header = zero_header;
  payload = 9 ∷ 8 ∷ 7 ∷ [];
}

Reach-sends_example :
    ((result : RtpPacket × List Transmission) × (handle_session_send after_second.rtp_store
          shared.0.track0 packet
        ≡ some result))
    × ((result : RtpPacket × List Transmission) × (handle_session_send after_second.rtp_store
            shared.0.track1 packet
          ≡ some result))
Reach-sends_example =
    Reach-sends 3 0 7 nothing nothing 0 shared.0 packet second-Reach shared.1 (omega arith)
      (omega arith)
