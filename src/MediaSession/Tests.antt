-- ===== src/MediaSession/Tests.antt =====
-- A track with a live TCP connection and a dead one.
use zrh_rtsp_server.Prelude.{
  ℕ, ◌≡◌, refl, true, false, none, some, List, [], ◌∷◌, ◌==◌, if◌then◌else◌, arith,
}
use zrh_rtsp_server.Rtp.{RtpHeader, RtpPacket, RtpConnection, header_bytes}
use zrh_rtsp_server.MediaSession.{Store, Track, h264, track_id0, to_network, handle_session_send}
use zrh_rtsp_server.MediaSession.Broadcast.{
  nil, cons, deliveries, network_header, header_bytes-to_network, handle_session_send-deliveries,
}

abbrev live : RtpConnection
live = record {
  sock_fd = 4;
  rtcp_sock_fd = 0;
  alive = true;
  rtp_channel = 0;
  is_tcp = true;
  remote_rtp_port = 0;
  remote_rtcp_port = 0;
  local_rtp_port = 0;
  local_rtcp_port = 0;
  remote_addr = (0, 0);
}

abbrev dead : RtpConnection
dead = record live { alive = false }

abbrev store : Store
store p = if p == 1 then some live else if p == 2 then some dead else none

abbrev track : Track
track = record { sink = some (h264 25); track_id = track_id0; alive = true; rtp_conns = 1 ∷ 2 ∷ [] }

abbrev header : RtpHeader
header = record {
  csrc_len = 0;
  extension = 0;
  padding = 0;
  version = 2;
  payload_type = 96;
  marker = 0;
  seq = 258;
  timestamp = 480;
  ssrc = 5;
}

abbrev packet : RtpPacket
packet = record {
  size = 2;
  prefix = 0 ∷ 0 ∷ 0 ∷ 0 ∷ [];
  rtp_header = header;
  payload = 9 ∷ 8 ∷ 7 ∷ [];
}

header_bytes-to_network_example : header_bytes (to_network header) ≡ network_header header
header_bytes-to_network_example =
    header_bytes-to_network header (omega arith) (omega arith) (omega arith)

handle_session_send-deliveries_example :
    (prefix : List ℕ) × (let p' = record packet {
      prefix = prefix;
      rtp_header = to_network header;
    } in
      handle_session_send store track packet ≡ some (p', deliveries (live ∷ dead ∷ []) p'))
handle_session_send-deliveries_example =
    handle_session_send-deliveries store track (live ∷ dead ∷ []) packet refl
      (cons refl (omega arith) (cons refl (omega arith) nil)) (omega arith) (omega arith)
