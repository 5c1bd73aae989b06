-- ===== src/RtspConnection/Handlers.antt =====
-- The handlers of src/live/RtspConnection.cpp and `handleRtspRequest`. A handler takes the connection
-- and the server, whose callbacks it calls, and gives its result and both again; `none` is a fault.
use zrh_rtsp_server.Prelude.{
  ℕ, ◌+◌, ◌-◌, ◌%◌, ◌^◌, Bool, true, false, Option, none, some, List, [], ◌∷◌, ◌++◌, ◌==◌, ltb,
  if◌then◌else◌, length,
}
use zrh_rtsp_server.Text.{
  Bytes, ascii, ℤ, pos, negsuc, matched, mismatch, undefined, starts_with, scan_word, scan_until,
  scan_literal, span, print_unsigned, print_int,
}
use zrh_rtsp_server.Rtp.{RtpConnection, set_alive}
use zrh_rtsp_server.MediaSession.{TrackId, track_id0, track_id1, Store}
use zrh_rtsp_server.MediaSession.Sdp.{gen_sdp_description}
use zrh_rtsp_server.RtspConnection.{RtspConnection}
use zrh_rtsp_server.RtspServer.{
  RtspServer, update, look_media_session, handle_session_add, handle_dis_connect,
}

abbrev pub Handler : Type 0
Handler = RtspConnection → RtspServer → Option (Bool × RtspConnection × RtspServer)

-- `sprintf(result_, ...)` into 1024 bytes, and `Write`.
unfoldable pub respond : Bytes → Bool → Handler
respond text result c s =
    if ltb (length text) 1024
    then some (result, c, record s { sent = (c.client_fd, text) ∷ s.sent })
    else none

-- The start of the answers; the texts are ASCII without a zero, as are the buffers they take in.
abbrev pub ok : RtspConnection → Bytes
ok c = ascii "RTSP/1.0 200 OK\r\nCSeq: " ++ print_int c.cseq ++ ascii "\r\n"

-- `"Session: %ul; timeout=10\r\n\r\n"`.
abbrev pub session_line : RtspConnection → Bytes
session_line c = ascii "Session: " ++ print_unsigned c.session_id ++ ascii "l; timeout=10\r\n\r\n"

-- `handleOptions`.
unfoldable pub handle_options : Handler
handle_options c s =
    let named = record c { session_name = c.suffix } in
    elim (look_media_session c.suffix c.manager) [
      | none ↦
          respond
            (ascii "RTSP/1.0 454 Session Not Found\r\nCSeq: "
              ++ print_int c.cseq
              ++ ascii "\r\n\r\n")
            false named s
      | some address ↦ elim (s.sessions address) [
        | none ↦ none
        | some session ↦
            respond (ok c ++ ascii "Public: OPTIONS, DESCRIBE, SETUP, PLAY\r\n\r\n") true
              (record named { session_id = session.session_id }) s
      ]
    ]

-- `sscanf(url_, "rtsp://%[^:]:", localIp)` into 100 bytes that nothing reads.
abbrev scan_local_ip : Bytes → Bool
scan_local_ip url = elim (scan_literal (ascii "rtsp://") url) [
  | none ↦ true
  | some rest ↦ elim (scan_until 58 100 rest) [ undefined ↦ false | _ ↦ true ]
]

-- `handleDescribe` at what `time(NULL)` gives; the session is used without a test for the null pointer.
unfoldable pub handle_describe : ℕ → Handler
handle_describe time c s =
    if scan_local_ip c.url
    then elim (look_media_session c.session_name c.manager) [
      | none ↦ none
      | some address ↦ elim (s.sessions address) [
        | none ↦ none
        | some session ↦ elim (gen_sdp_description time session) [
          | none ↦ none
          | some sdp ↦
              respond
                (ok c
                  ++ ascii "Content-Base: "
                  ++ c.url
                  ++ ascii "\r\nContent-type: application/sdp\r\nContent-length: "
                  ++ print_unsigned (length sdp)
                  ++ ascii "\r\n\r\n"
                  ++ sdp)
                false c s
        ]
      ]
    ]
    else none

-- An `int` as a `uint16_t`.
abbrev pub to_uint16 : ℤ → ℕ
to_uint16 (pos n) = n % 2 ^ 16
to_uint16 (negsuc n) = 2 ^ 16 - 1 - n % 2 ^ 16

-- What the socket helper gives to a connection by UDP: the peer's address and two sockets.
pub record UdpSockets : Type 0 where
  pub peer : ℕ
  pub sock_fd : ℕ
  pub rtcp_sock_fd : ℕ
  pub local_rtp_port : ℕ

-- The two constructors of `RtpConnection`; `memory` is what they leave as it is.
unfoldable pub rtp_over_tcp : RtpConnection → ℕ → ℤ → RtpConnection
rtp_over_tcp memory fd channel = record memory {
  sock_fd = fd;
  alive = false;
  rtp_channel = to_uint16 channel;
  is_tcp = true;
}

unfoldable pub rtp_over_udp : RtpConnection → UdpSockets → ℤ → RtpConnection
rtp_over_udp memory sockets port = record memory {
  sock_fd = sockets.sock_fd;
  rtcp_sock_fd = sockets.rtcp_sock_fd;
  alive = false;
  is_tcp = false;
  remote_rtp_port = to_uint16 port;
  remote_rtcp_port = (to_uint16 port + 1) % 2 ^ 16;
  local_rtp_port = sockets.local_rtp_port;
  remote_addr = (sockets.peer, to_uint16 port);
}

-- `sscanf(suffix_, "%*[^/]/%s", track_) == 1`.
unfoldable pub scan_track : RtspConnection → Option (Bool × RtspConnection)
unfolding span
scan_track c =
    let (skipped, rest) = span (λ x. if x == 47 then false else true) c.suffix in
    elim skipped [
      | [] ↦ some (false, c)
      | x ∷ xs ↦ elim (scan_literal (ascii "/") rest) [
        | none ↦ some (false, c)
        | some rest ↦ elim (scan_word 32 rest) [
          | undefined ↦ none
          | mismatch ↦ some (false, c)
          | matched track rest ↦ some (true, record c { track = track })
        ]
      ]
    ]

-- The track that the text in `track_` names.
unfoldable pub track_named : Bytes → Option TrackId
track_named track =
    if starts_with track (ascii "track0")
    then some track_id0
    else if starts_with track (ascii "track1")
    then some track_id1
    else none

abbrev pub transport_line : RtspConnection → RtpConnection → Bytes
transport_line c conn =
    if c.is_tcp
    then ascii "Transport: RTP/AVP/TCP;unicast;interleaved="
      ++ print_int c.channel1
      ++ ascii "-"
      ++ print_int c.channel2
      ++ ascii "\r\n"
    else ascii "Transport: RTP/AVP;unicast;client_port="
      ++ print_int c.channel1
      ++ ascii "-"
      ++ print_int c.channel2
      ++ ascii ";server_port="
      ++ print_unsigned conn.local_rtp_port
      ++ ascii "-"
      ++ print_unsigned (conn.local_rtp_port + 1)
      ++ ascii "\r\n"

-- The two branches of `handleSetup` behind the scan of the track, which differ in the constructor and in
-- the answer: the RTP connection is on the connection's list before its track is known.
unfoldable pub setup_track : RtpConnection → UdpSockets → Handler
setup_track memory sockets c s =
    let conn =
      if c.is_tcp
      then rtp_over_tcp memory c.client_fd c.channel1
      else rtp_over_udp memory sockets c.channel1 in
    let p1 = s.rtp_next in
    let c₁ = record c { rtp_conns = c.rtp_conns ++ p1 ∷ [] } in
    let s₁ = record s { rtp_store = update s.rtp_store p1 conn; rtp_next = p1 + 1 } in
    elim (track_named c.track) [
      | none ↦ some (false, c₁, s₁)
      | some id ↦ elim (handle_session_add id p1 c.session_name s₁) [
        | none ↦ none
        | some s₂ ↦ respond (ok c ++ transport_line c conn ++ session_line c) false c₁ s₂
      ]
    ]

-- `handleSetup`.
unfoldable pub handle_setup : RtpConnection → UdpSockets → Handler
handle_setup memory sockets c s = elim (scan_track c) [
  | none ↦ none
  | some (false, c₁) ↦ some (false, c₁, s)
  | some (true, c₁) ↦ setup_track memory sockets c₁ s
]

-- The loop of `handlePlay` over shared pointers, each of which stands for a connection.
unfoldable pub all_alive : List ℕ → Store → Store
all_alive [] store = store
all_alive (p ∷ ps) store = elim (store p) [
  | none ↦ all_alive ps store
  | some conn ↦ all_alive ps (update store p (set_alive conn true))
]

-- `handlePlay`.
unfoldable pub handle_play : Handler
handle_play c s =
    elim (respond (ok c ++ ascii "Range: npt=0.000-\r\n" ++ session_line c) false c s) [
      | none ↦ none
      | some (result, c₁, s₁) ↦
          some (result, c₁, record s₁ { rtp_store = all_alive c.rtp_conns s₁.rtp_store })
    ]

-- `handleTeardown`.
unfoldable pub handle_teardown : Handler
handle_teardown c s = elim (respond (ok c ++ ascii "\r\n") false c s) [
  | none ↦ none
  | some (result, c₁, s₁) ↦
      some (result, record c₁ { alive = false }, handle_dis_connect c.client_fd s₁)
]
