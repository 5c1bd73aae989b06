-- ===== src/Rtp/Tests.antt =====
-- A small packet over a TCP connection.
use zrh_rtsp_server.Prelude.{◌≡◌, refl, true, some, [], ◌∷◌, ◌++◌, take, arith}
use zrh_rtsp_server.Rtp.{RtpHeader, RtpPacket, RtpConnection, send, send_frame, header_bytes}
use zrh_rtsp_server.Rtp.Framing.{datagram, interleaved, read_interleaved, send_frame_tcp}

abbrev header : RtpHeader
header = record {
  csrc_len = 0;
  extension = 0;
  padding = 0;
  version = 2;
  payload_type = 96;
  marker = 0;
  seq = 0x0201;
  timestamp = 0;
  ssrc = 7;
}

abbrev packet : RtpPacket
packet = record { size = 2; prefix = []; rtp_header = header; payload = 5 ∷ 6 ∷ 99 ∷ [] }

abbrev connection : RtpConnection
connection = record {
  sock_fd = 4;
  rtcp_sock_fd = 0;
  alive = true;
  rtp_channel = 2;
  is_tcp = true;
  remote_rtp_port = 0;
  remote_rtcp_port = 0;
  local_rtp_port = 0;
  local_rtcp_port = 0;
  remote_addr = (0, 0);
}

on_the_wire :
    interleaved connection packet
    ≡ 0x24 ∷ 2 ∷ 0 ∷ 14 ∷ 128 ∷ 96 ∷ 1 ∷ 2 ∷ 0 ∷ 0 ∷ 0 ∷ 0 ∷ 7 ∷ 0 ∷ 0 ∷ 0 ∷ 5 ∷ 6 ∷ []
unfolding header_bytes
on_the_wire = refl

send_frame_tcp_example :
    (send_frame connection packet
      ≡ some (
        record packet { prefix = take 4 (interleaved connection packet) },
        send 4 (interleaved connection packet) ∷ [],
      ))
    × (read_interleaved (interleaved connection packet ++ 36 ∷ [])
        ≡ some (2, datagram packet, 36 ∷ []))
send_frame_tcp_example =
    send_frame_tcp connection packet (36 ∷ []) refl refl (omega arith) (omega arith) (omega arith)
