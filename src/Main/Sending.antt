-- ===== src/Main/Sending.antt =====
-- What the tracks of `main`'s session send while clients come, ask and go.
use Prim.Native.Nat.{bit_and}
use zrh_rtsp_server.Prelude.{
  ℕ, ◌%◌, ◌/◌, ◌++◌, ◌≤◌, ◌≡◌, refl, some, List, [], ◌∷◌, ◌==◌, arith, length, Bool-cases, inl, inr,
}
use zrh_rtsp_server.Rtp.{
  RtpPacket, RtpConnection, Transmission, send, send_to, send_frame, send_packet_over_tcp,
  send_packet_over_udp, rtp_size,
}
use zrh_rtsp_server.Rtp.Framing.{datagram, from_header_lem}
use zrh_rtsp_server.MediaSession.{
  MediaSession, Track, Store, add_sink, construct, send_all, handle_session_send, to_network,
}
use zrh_rtsp_server.FdMap.{find_fd}
use zrh_rtsp_server.RtspServer.{RtspServer, same_bytes, look_media_session, add_media_session}
use zrh_rtsp_server.RtspServer.Pointers.{AllPoint}
use zrh_rtsp_server.RtspServer.Protocol
use zrh_rtsp_server.RtspServer.Protocol.Reachable.{Reach-IsWell}
use zrh_rtsp_server.RtspServer.Protocol.Safety.{IsWell}
use zrh_rtsp_server.Main.{main_server, new_server, test_session}

-- A packet that lies in its buffer and fits the prefix goes out, whatever the connection is.
send_frame_possible :
    (c : RtpConnection) (p : RtpPacket)
    → p.size ≤ length p.payload
    → p.size ≤ 1402
    → (prefix : List ℕ) × (ts : List Transmission) × (send_frame c p
        ≡ some (record p { prefix = prefix }, ts))
unfolding send_frame send_packet_over_tcp send_packet_over_udp
send_frame_possible c p fits small = elim (Bool-cases c.alive) [
  | inl a ↦ elim (Bool-cases c.is_tcp) [
    | inl t ↦
        let n = rtp_size p in
        let prefix : List ℕ =
          0x24 ∷ c.rtp_channel % 256 ∷ bit_and n 0xff00 / 256 % 256 ∷ bit_and n 0xff ∷ [] in
        (
          prefix,
          send c.sock_fd (prefix ++ datagram p) ∷ [],
          ground (arith, a, t, from_header_lem p fits small),
        )
    | inr t ↦ (
      p.prefix,
      send_to c.sock_fd c.remote_addr (datagram p) ∷ [],
      ground (arith, a, t, from_header_lem p fits small),
    )
  ]
  | inr a ↦ (p.prefix, [], ground (arith, a))
]

send_all_possible :
    (store : Store) (conns : List ℕ) (p : RtpPacket)
    → AllPoint store conns
    → p.size ≤ length p.payload
    → p.size ≤ 1402
    → (result : RtpPacket × List Transmission) × (send_all store conns p ≡ some result)
unfolding send_all
send_all_possible store [] p points fits small = ((p, []), refl)
send_all_possible store (conn ∷ conns) p ((c, found), points) fits small =
    let (prefix, ts, sent) = send_frame_possible c p fits small in
    let ((p', us), later) =
      send_all_possible store conns (record p { prefix = prefix }) points fits small in
    ((p', ts ++ us), ground (arith, found, sent, later))

handle_session_send_possible :
    (store : Store) (track : Track) (p : RtpPacket)
    → AllPoint store track.rtp_conns
    → p.size ≤ length p.payload
    → p.size ≤ 1402
    → (result : RtpPacket × List Transmission) × (handle_session_send store track p ≡ some result)
unfolding handle_session_send
handle_session_send_possible store track p points fits small = elim (Bool-cases track.alive) [
  | inl a ↦
      let (result, sent) =
        send_all_possible store track.rtp_conns (record p { rtp_header = to_network p.rtp_header })
          points fits small in
      (result, ground (arith, a, sent))
  | inr a ↦ ((p, []), ground (arith, a))
]

main_server-IsWell :
    (socket_fd address rand : ℕ) (memory0 memory1 : Track)
    → IsWell (main_server socket_fd address (test_session rand memory0 memory1))
unfolding main_server new_server test_session construct add_sink add_media_session
    look_media_session find_fd
main_server-IsWell socket_fd address rand memory0 memory1 =
    let session = test_session rand memory0 memory1 in
    record {
      resolved = λ a m h. elim (Bool-cases (a == address)) [
        | inl e ↦ let same : m ≡ session = ground (arith, h, e) in rw same (tt, tt)
        | inr e ↦ absurd (ground (arith, h, e))
      ];
      managed = λ name a h. elim (Bool-cases (same_bytes session.session_name name)) [
        | inl e ↦ (session, ground (arith, h, e))
        | inr e ↦ absurd (ground (arith, h, e))
      ];
      bounded = λ a m h p bound. elim (Bool-cases (a == address)) [
        | inl e ↦ let same : m ≡ session = ground (arith, h, e) in rw same (refl, refl)
        | inr e ↦ absurd (ground (arith, h, e))
      ];
      stages = λ fd c h. absurd (ground (arith, h));
    }

-- The server of `main`, whose session has no RTP connection at first, in every state that clients lead to
-- that come, ask and go in any order: a descriptor that no connection has is accepted, a parsed request is
-- dispatched, a connection is closed. Let each client name its session by `OPTIONS` before its first
-- `SETUP` only, and set up the first track and then the second one of a session that the server has,
-- each once. Then no track holds a pointer to an RTP connection that was freed with its client: each of
-- the two tracks of each session sends any packet of at most 1402 payload bytes that lie in its buffer
-- without a fault.
pub Reach-sends :
    (socket_fd address rand : ℕ) (memory0 memory1 : Track) {s : RtspServer} (a : ℕ)
    (m : MediaSession) (p : RtpPacket)
    → Protocol.Reach (main_server socket_fd address (test_session rand memory0 memory1)) s
    → s.sessions a ≡ some m
    → p.size ≤ length p.payload
    → p.size ≤ 1402
    → ((result : RtpPacket × List Transmission) × (handle_session_send s.rtp_store m.track0 p
          ≡ some result))
      × ((result : RtpPacket × List Transmission) × (handle_session_send s.rtp_store m.track1 p
            ≡ some result))
Reach-sends socket_fd address rand memory0 memory1 {s} a m p r there fits small =
    let v = Reach-IsWell (main_server-IsWell socket_fd address rand memory0 memory1) r in
    let (points0, points1) = v.resolved a m there in
    (
      handle_session_send_possible s.rtp_store m.track0 p points0 fits small,
      handle_session_send_possible s.rtp_store m.track1 p points1 fits small,
    )
