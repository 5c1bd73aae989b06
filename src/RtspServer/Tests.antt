-- ===== src/RtspServer/Tests.antt =====
-- A server with one session and two connections.
use zrh_rtsp_server.Prelude.{
  ℕ, ◌≡◌, ◌≢◌, ◌<◌, length, refl, sym, ap, ◌∙◌, ℕ_discrete, true, false, none, some, List, [], ◌∷◌,
  if◌then◌else◌, ◌==◌, arith, Bool-cases, inl, inr,
}
use zrh_rtsp_server.Text.{ascii, pos}
use zrh_rtsp_server.MediaSession.{MediaSession, track_id0, track_id1, aac, handle_session_send}
use zrh_rtsp_server.RtspConnection.{RtspConnection, play}
use zrh_rtsp_server.FdMap.{find_fd, erase_fd}
use zrh_rtsp_server.Rtp.{RtpConnection, RtpPacket}
use zrh_rtsp_server.RtspConnection.Dispatch.{received, handle_rtsp_request}
use zrh_rtsp_server.RtspServer.{
  RtspServer, look_media_session, handle_trigger_event, same_bytes, accepted, handle_read,
  handle_dis_connect, handle_session_remove, leave_session, destroy,
}
use zrh_rtsp_server.RtspServer.Loop.{Arrival, connects, requests, serve, serve_all}
use zrh_rtsp_server.RtspServer.Serving.{IsSound}
use zrh_rtsp_server.RtspServer.Dangling.{destroy_dangling}
use zrh_rtsp_server.RtspServer.Orderly.{IsOrderly}
use zrh_rtsp_server.RtspServer.Pointers.{NoDangling}
use zrh_rtsp_server.RtspServer.Resolved.{serve_all-NoDangling}
use zrh_rtsp_server.RtspServer.Turns.{serve_all-IsSound}
use zrh_rtsp_server.RtspServer.Closing.{Managed, mem_fd, disconnects, disconnects_single}

abbrev live : MediaSession
live = record {
  session_name = ascii "live";
  session_id = 7;
  track0 = record { sink = some aac; track_id = track_id0; alive = true; rtp_conns = 0 ∷ 2 ∷ [] };
  track1 = record { sink = none; track_id = track_id1; alive = false; rtp_conns = 1 ∷ [] };
}

abbrev connection : ℕ → List ℕ → RtspConnection
connection fd rtp_conns = record {
  client_fd = fd;
  rbuf = [];
  buf_size = 1024;
  alive = true;
  rtp_conns = rtp_conns;
  manager = (ascii "live", 0) ∷ [];
  cseq = pos 4;
  method = play;
  port = 11451;
  ip = ascii "127.0.0.1";
  suffix = ascii "live";
  method_buf = ascii "PLAY";
  url = ascii "rtsp://127.0.0.1:11451/live";
  version = ascii "RTSP/1.0";
  track = ascii "track1";
  channel1 = pos 2;
  channel2 = pos 3;
  session_name = ascii "live";
  session_id = 7;
  is_tcp = true;
}

abbrev server : RtspServer
server = record {
  fd2conn = (5, connection 5 (0 ∷ 1 ∷ [])) ∷ (6, connection 6 []) ∷ (7, connection 7 (2 ∷ [])) ∷ [];
  manager = (ascii "live", 0) ∷ [];
  sessions = λ address. if address == 0 then some live else none;
  rtp_store = λ address. none;
  rtp_next = 3;
  disconnect_list = [];
  triggers = 0;
  watched = 7 ∷ 6 ∷ 5 ∷ [];
  sent = [];
  closed = [];
}

server-Managed : Managed server
unfolding look_media_session
server-Managed name address h = elim (Bool-cases (same_bytes (ascii "live") name)) [
  | inl e ↦ (live, ground (arith, e))
  | inr e ↦ absurd (ground (arith, e))
]

disconnects_single_example : handle_trigger_event (disconnects (7 ∷ []) server) ≡ none
unfolding find_fd
disconnects_single_example = disconnects_single 7 2 (connection 7 (2 ∷ [])) server refl refl refl

-- One entry of the table that is found.
at_key :
    (key fd : ℕ) (d c : RtspConnection)
    → fd ≡ key
    → c ≡ d
    → (d.client_fd ≡ key) × (0 < key) × (key < 0x80000000)
    → (c.client_fd ≡ fd) × (0 < fd) × (fd < 0x80000000)
at_key key fd d c e f (own, above, below) =
    (ap (λ (k : RtspConnection). k.client_fd) f ∙ own ∙ sym e, omega (arith, e), omega (arith, e))

-- A client connects while another one closes.
abbrev rtp_memory : RtpConnection
rtp_memory = record {
  sock_fd = 0;
  rtcp_sock_fd = 0;
  alive = false;
  rtp_channel = 0;
  is_tcp = false;
  remote_rtp_port = 0;
  remote_rtcp_port = 0;
  local_rtp_port = 0;
  local_rtcp_port = 0;
  remote_addr = (0, 0);
}

abbrev arrivals : List Arrival
arrivals =
    connects 8 (connection 0 [])
    ∷ requests 6 (received []) [] 0 rtp_memory
        (record { peer = 0; sock_fd = 0; rtcp_sock_fd = 0; local_rtp_port = 0 })
    ∷ []

abbrev served : RtspServer
served = record server {
  fd2conn =
      (6, record (connection 6 []) { alive = false })
      ∷ (8, accepted 8 (connection 0 []) server)
      ∷ (5, connection 5 (0 ∷ 1 ∷ []))
      ∷ (7, connection 7 (2 ∷ []))
      ∷ [];
  disconnect_list = 6 ∷ [];
  triggers = 1;
  watched = 8 ∷ 7 ∷ 6 ∷ 5 ∷ [];
}

arrivals-served : serve_all arrivals server ≡ some served
unfolding serve_all serve handle_read find_fd erase_fd handle_rtsp_request handle_dis_connect
arrivals-served = refl

server-IsSound : IsSound server
unfolding find_fd
server-IsSound = record {
  clients = λ fd c h. elim (ℕ_discrete fd 5) [
    | yes e ↦
        at_key 5 fd (connection 5 (0 ∷ 1 ∷ [])) c e (ground (arith, h, e))
          (refl, omega arith, omega arith)
    | no five ↦ elim (ℕ_discrete fd 6) [
      | yes e ↦
          at_key 6 fd (connection 6 []) c e (ground (arith, h, e)) (refl, omega arith, omega arith)
      | no six ↦ elim (ℕ_discrete fd 7) [
        | yes e ↦
            at_key 7 fd (connection 7 (2 ∷ [])) c e (ground (arith, h, e))
              (refl, omega arith, omega arith)
        | no seven ↦ absurd (ground (arith, h, five, six, seven))
      ]
    ]
  ];
  managed = server-Managed;
  nothing_to_close = refl;
  no_trigger = refl;
}

served_leavable :
    (fd : ℕ) (c : RtspConnection)
    → mem_fd fd served.disconnect_list ≡ true
    → find_fd fd served.fd2conn ≡ some c
    → length c.rtp_conns ≢ 1
unfolding find_fd
served_leavable fd c h found one =
    let six : fd ≡ 6 = ground (arith, h) in
    let same : c ≡ record (connection 6 []) { alive = false } = ground (arith, found, six) in
    absurd (ground (arith, one, ap (λ (k : RtspConnection). length k.rtp_conns) same))

serve_all-IsSound_example :
    (s'' : RtspServer) × (handle_trigger_event served ≡ some s'')
    × IsSound s''
    × ((fd : ℕ)
        → find_fd fd s''.fd2conn ≡ (if mem_fd fd (6 ∷ []) then none else find_fd fd served.fd2conn))
    × (s''.closed ≡ 6 ∷ [])
unfolding find_fd
serve_all-IsSound_example =
    serve_all-IsSound arrivals server served server-IsSound refl
      ((refl, omega arith, omega arith), (tt, tt)) arrivals-served served_leavable

-- The same server with its RTP connections on the heap.
abbrev stored : RtspServer
stored = record server { rtp_store = λ address. some rtp_memory }

-- The client with two RTP connections closes.
abbrev closing : List Arrival
closing =
    requests 5 (received []) [] 0 rtp_memory
      (record { peer = 0; sock_fd = 0; rtcp_sock_fd = 0; local_rtp_port = 0 })
    ∷ []

abbrev given_up : RtspServer
given_up = record stored {
  fd2conn =
      (5, record (connection 5 (0 ∷ 1 ∷ [])) { alive = false })
      ∷ (6, connection 6 [])
      ∷ (7, connection 7 (2 ∷ []))
      ∷ [];
  disconnect_list = 5 ∷ [];
  triggers = 1;
}

closing-given_up : serve_all closing stored ≡ some given_up
unfolding serve_all serve find_fd erase_fd handle_rtsp_request handle_dis_connect
closing-given_up = refl

stored-NoDangling : NoDangling stored
stored-NoDangling address m h = elim (ℕ_discrete address 0) [
  | yes e ↦
      let same : m ≡ live = ground (arith, h, e) in
      rw same (((rtp_memory, refl), ((rtp_memory, refl), tt)), ((rtp_memory, refl), tt))
  | no ne ↦ absurd (ground (arith, h, ne))
]

stored-IsSound : IsSound stored
stored-IsSound = record {
  clients = server-IsSound.clients;
  managed = server-Managed;
  nothing_to_close = refl;
  no_trigger = refl;
}

given_up-IsOrderly :
    (fd : ℕ) (c : RtspConnection)
    → mem_fd fd (5 ∷ []) ≡ true
    → find_fd fd given_up.fd2conn ≡ some c
    → IsOrderly c given_up
unfolding find_fd look_media_session
given_up-IsOrderly fd c h found =
    let five : fd ≡ 5 = ground (arith, h) in
    let same : c ≡ record (connection 5 (0 ∷ 1 ∷ [])) { alive = false } =
      ground (arith, found, five) in
    rw same (
      inr (record {
        first = 0;
        second = 1;
        conns = refl;
        address = 0;
        looked = refl;
        own = λ m there. let session : m ≡ live = ground (arith, there) in rw session (refl, refl);
        others = λ other m ne there. absurd (ground (arith, ne, there));
      }))

serve_all-NoDangling_example :
    (s'' : RtspServer) × (handle_trigger_event given_up ≡ some s'')
    × IsSound s''
    × NoDangling given_up
    × NoDangling s''
serve_all-NoDangling_example =
    serve_all-NoDangling closing stored given_up stored-IsSound stored-NoDangling refl (tt, tt)
      closing-given_up given_up-IsOrderly

-- The same session with two live tracks, and a client that set up its tracks in the other order.
abbrev both : MediaSession
both = record live { track1 = record live.track1 { alive = true } }

abbrev both_stored : RtspServer
both_stored = record stored { sessions = λ address. if address == 0 then some both else none }

abbrev swapped : RtspConnection
swapped = connection 5 (1 ∷ 0 ∷ [])

swapped_destroyed : (s' : RtspServer) × (destroy swapped both_stored ≡ some s')
unfolding destroy leave_session handle_session_remove look_media_session
swapped_destroyed = (_, refl)

destroy_dangling_example :
    (m' : MediaSession) × (swapped_destroyed.0.sessions 0 ≡ some m')
    × ((packet : RtpPacket)
        → handle_session_send swapped_destroyed.0.rtp_store m'.track1 packet ≡ none)
unfolding look_media_session
destroy_dangling_example =
    destroy_dangling swapped both_stored swapped_destroyed.0 1 0 0 [] both refl
      (λ e. absurd (omega (arith, e))) refl refl refl refl swapped_destroyed.1
