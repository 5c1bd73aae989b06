-- ===== src/RtspConnection/Tests.antt =====
-- Requests of a player.
use zrh_rtsp_server.Prelude.{
  ℕ, Option, ◌≡◌, refl, true, false, none, some, List, [], ◌∷◌, ◌++◌, ◌==◌, if◌then◌else◌, arith,
  take, replicate,
}
use zrh_rtsp_server.Text.{Bytes, print_int, ascii, pos, print_unsigned, decimal}
use zrh_rtsp_server.RtspConnection.{
  RtspConnection, options, setup, parse_address, parse_request_method, parse_request_line,
}
use zrh_rtsp_server.RtspConnection.Request.{
  line_text, url_text, address_text, parse_request_method-line_text,
}
use zrh_rtsp_server.RtspConnection.Headers.{
  channels_text, parse_request_line-transport, parse_address_overrun,
}
use zrh_rtsp_server.RtspConnection.Dispatch.{ReadResult, received, read_more, handle_rtsp_request}
use zrh_rtsp_server.RtspConnection.Message.{text_of}
use zrh_rtsp_server.RtspConnection.Setup.{setup_lines, handle_rtsp_request-setup}
use zrh_rtsp_server.Rtp.{RtpConnection}
use zrh_rtsp_server.RtspServer.{RtspServer}
use zrh_rtsp_server.RtspConnection.Handlers.{UdpSockets, handle_play, handle_setup}
use zrh_rtsp_server.RtspConnection.Playing.{contains, enlivened, play_answer, handle_play-alive}
use zrh_rtsp_server.RtspConnection.Receiving.{Holds, read_more-Holds}

abbrev connection : RtspConnection
connection = record {
  client_fd = 5;
  rbuf = 1 ∷ 2 ∷ [];
  buf_size = 2;
  alive = true;
  rtp_conns = [];
  manager = [];
  cseq = pos 0;
  method = options;
  port = 0;
  ip = [];
  suffix = [];
  method_buf = [];
  url = [];
  version = [];
  track = [];
  channel1 = pos 0;
  channel2 = pos 0;
  session_name = [];
  session_id = 0;
  is_tcp = false;
}

line_of_setup :
    line_text setup
      (url_text (address_text (ascii "127.0.0.1") 11451 (ascii "live/track0")))
      (ascii "RTSP/1.0")
      (ascii "\r")
    ≡ ascii "SETUP rtsp://127.0.0.1:11451/live/track0 RTSP/1.0\r"
unfolding print_unsigned decimal
line_of_setup = refl

parse_request_method-line_text_example :
    parse_request_method
      (line_text setup
        (url_text (address_text (ascii "127.0.0.1") 11451 (ascii "live/track0")))
        (ascii "RTSP/1.0")
        (ascii "\r"))
      connection
    ≡ some (
      true,
      record connection {
        method = setup;
        method_buf = ascii "SETUP";
        url = url_text (address_text (ascii "127.0.0.1") 11451 (ascii "live/track0"));
        version = ascii "RTSP/1.0";
        ip = ascii "127.0.0.1";
        port = 11451;
        suffix = ascii "live/track0";
      },
    )
unfolding print_unsigned decimal
parse_request_method-line_text_example =
    parse_request_method-line_text setup (ascii "127.0.0.1") 11451 (ascii "live/track0")
      (ascii "RTSP/1.0") (ascii "\r") connection (ground arith) refl refl (omega arith)
      (omega arith) (omega arith) refl (omega arith) (omega arith) (omega arith) refl (omega arith)
      (omega arith) refl

transport_of_three :
    (parse_request_line
        (ascii "Transport: RTP/AVP/TCP;unicast;interleaved=" ++ channels_text 0 1 (ascii "\r"))
        connection
      ≡ some (record connection { channel1 = pos 0; channel2 = pos 1; is_tcp = true }))
    × (parse_request_line
          (ascii "Transport: RTP/AVP/UDP;unicast;client_port=" ++ channels_text 0 1 (ascii "\r"))
          connection
        ≡ some (record connection { channel1 = pos 0; channel2 = pos 1; is_tcp = false }))
    × (parse_request_line
          (ascii "Transport: RTP/AVP;unicast;client_port=" ++ channels_text 0 1 (ascii "\r"))
          connection
        ≡ some (record connection { channel1 = pos 0; channel2 = pos 1; is_tcp = false }))
transport_of_three =
    parse_request_line-transport 0 1 (ascii "\r") connection (omega arith) (omega arith) refl

parse_address_overrun_example : parse_address (ascii "192.168.1.100/live/track0") connection ≡ none
parse_address_overrun_example =
    parse_address_overrun (ascii "192.168.1.100/live/track0") connection refl (omega arith)

abbrev reads : List ReadResult
reads = received (3 ∷ 4 ∷ []) ∷ received (5 ∷ []) ∷ []

read_more-Holds_example : Holds (take 2 connection.rbuf) reads (read_more reads 2 connection)
read_more-Holds_example =
    read_more-Holds reads 2 connection (refl, omega arith) (omega arith)
      (omega arith, (omega arith, tt))

abbrev heap : ℕ → Option RtpConnection
heap p =
    if p == 3
    then some (record {
      sock_fd = 5;
      rtcp_sock_fd = 0;
      alive = false;
      rtp_channel = 0;
      is_tcp = true;
      remote_rtp_port = 0;
      remote_rtcp_port = 0;
      local_rtp_port = 0;
      local_rtcp_port = 0;
      remote_addr = (0, 0);
    })
    else none

abbrev player : RtspConnection
player = record connection { rtp_conns = 3 ∷ [] }

abbrev server : RtspServer
server = record {
  fd2conn = (5, player) ∷ [];
  manager = [];
  sessions = λ address. none;
  rtp_store = heap;
  rtp_next = 4;
  disconnect_list = [];
  triggers = 0;
  watched = 5 ∷ [];
  sent = [];
  closed = [];
}

handle_play-alive_example :
    (s' : RtspServer) × (handle_play player server ≡ some (false, player, s'))
    × (s'.sent ≡ (5, play_answer player) ∷ [])
    × ((p : ℕ) → s'.rtp_store p ≡ (if contains (3 ∷ []) p then enlivened (heap p) else heap p))
unfolding print_int print_unsigned decimal
handle_play-alive_example = handle_play-alive player server (omega arith)

abbrev sockets : UdpSockets
sockets = record { peer = 0; sock_fd = 0; rtcp_sock_fd = 0; local_rtp_port = 0 }

abbrev rtp_memory : RtpConnection
rtp_memory = record {
  sock_fd = 0;
  rtcp_sock_fd = 0;
  alive = false;
  rtp_channel = 0;
  is_tcp = false;
  remote_rtp_port = 0;
  remote_rtcp_port = 0;
  local_rtp_port = 0;
  local_rtcp_port = 0;
  remote_addr = (0, 0);
}

-- The connection of a client that has sent nothing yet.
abbrev silent : RtspConnection
silent = record connection { rbuf = replicate 1024 0; buf_size = 1024 }

abbrev request : Bytes
request =
    text_of (setup_lines (ascii "127.0.0.1") 11451 (ascii "test/track0") (ascii "RTSP/1.0") 3 0 1)
      []

handle_rtsp_request-setup_example :
    (rbuf : Bytes) × (handle_rtsp_request (received request) [] 0 rtp_memory sockets silent server
      ≡ handle_setup rtp_memory sockets
          (record silent {
            rbuf = rbuf;
            method = setup;
            method_buf = ascii "SETUP";
            url = url_text (address_text (ascii "127.0.0.1") 11451 (ascii "test/track0"));
            version = ascii "RTSP/1.0";
            ip = ascii "127.0.0.1";
            port = 11451;
            suffix = ascii "test/track0";
            cseq = pos 3;
            channel1 = pos 0;
            channel2 = pos 1;
            is_tcp = true;
          })
          server)
unfolding print_unsigned decimal
handle_rtsp_request-setup_example =
    handle_rtsp_request-setup (ascii "127.0.0.1") 11451 (ascii "test/track0") (ascii "RTSP/1.0") 3 0
      1 0 rtp_memory sockets silent server refl refl refl (omega arith) (omega arith) (omega arith)
      refl refl (omega arith) (omega arith) (omega arith) refl refl (omega arith) (omega arith)
      (omega arith) (omega arith) (omega arith) (omega arith) refl
