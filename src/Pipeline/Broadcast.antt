-- ===== src/Pipeline/Broadcast.antt =====
-- The callback of a session against the one that keeps what it is given.
use zrh_rtsp_server.Prelude.{
  ◌≤◌, ◌≡◌, refl, sym, ap, ◌∙◌, true, Option, some, List, [], ◌∷◌, ◌++◌, arith, length, take,
  length-take, take_all, append-nil, append_assoc,
}
use zrh_rtsp_server.Rtp.{RtpPacket, RtpConnection, Transmission, header_bytes}
use zrh_rtsp_server.Rtp.Framing.{datagram}
use zrh_rtsp_server.Sink.Log.{Sent, log}
use zrh_rtsp_server.Sink.Simulation.{Respects}
use zrh_rtsp_server.MediaSession.{Store, Track, to_network, session_cb}
use zrh_rtsp_server.MediaSession.Broadcast.{
  Resolves, delivery, deliveries, handle_session_send-deliveries, length-session_cb,
}

-- A packet as it goes out, its header words in network order.
abbrev pub packet_of : Sent → RtpPacket
packet_of x = record {
  size = length x.payload;
  prefix = [];
  rtp_header = to_network x.header;
  payload = x.payload;
}

-- What the connections of a track send of some packets.
abbrev pub broadcast : List RtpConnection → List Sent → List Transmission
broadcast cs [] = []
broadcast cs (x ∷ sent) = deliveries cs (packet_of x) ++ broadcast cs sent

pub broadcast_snoc :
    (cs : List RtpConnection) (sent : List Sent) (x : Sent)
    → broadcast cs (sent ++ x ∷ []) ≡ broadcast cs sent ++ deliveries cs (packet_of x)
broadcast_snoc cs [] x = append-nil (deliveries cs (packet_of x))
broadcast_snoc cs (y ∷ sent) x =
    ap (λ ts. deliveries cs (packet_of y) ++ ts) (broadcast_snoc cs sent x)
    ∙ sym (
        append_assoc (deliveries cs (packet_of y)) (broadcast cs sent)
          (deliveries cs (packet_of x)))

-- A delivery depends on the packet's size and datagram only.
delivery_same :
    (c : RtpConnection) (p q : RtpPacket)
    → p.size ≡ q.size
    → datagram p ≡ datagram q
    → delivery c p ≡ delivery c q
delivery_same c p q e f = ground (arith, e, f)

deliveries_same :
    (cs : List RtpConnection) (p q : RtpPacket)
    → p.size ≡ q.size
    → datagram p ≡ datagram q
    → deliveries cs p ≡ deliveries cs q
deliveries_same [] p q e f = refl
deliveries_same (c ∷ cs) p q e f =
    ground (arith, delivery_same c p q e f, deliveries_same cs p q e f)

-- Packets that fit a packet buffer, which is what the prefix has room for.
abbrev pub AllFit : List Sent → Type 0
AllFit [] = Unit {0}
AllFit (x ∷ sent) = (length x.payload ≤ 1402) × AllFit sent

AllFit-snoc :
    (sent : List Sent) (x : Sent) → AllFit sent → length x.payload ≤ 1402 → AllFit (sent ++ x ∷ [])
AllFit-snoc [] x fit small = (small, tt)
AllFit-snoc (y ∷ sent) x (first, fit) small = (first, AllFit-snoc sent x fit small)

abbrev pub IsBroadcast : List RtpConnection → List Sent → Option (List Transmission) → Type 0
IsBroadcast cs sent ts = (ts ≡ some (broadcast cs sent)) × AllFit sent

module _ (store : Store) (track : Track) (cs : List RtpConnection) (live : track.alive ≡ true)
    (resolves : Resolves store track.rtp_conns cs) where
  -- How the session's callback changes the packet.
  abbrev pub change : RtpPacket → RtpPacket
  change p = (session_cb store track p (some [])).0

  pub session_cb-Respects : Respects (IsBroadcast cs) (log change) (session_cb store track)
  unfolding session_cb
  session_cb-Respects p sent ts fits room (r, fit) =
      let (prefix, got) =
        handle_session_send-deliveries store track cs p live resolves fits (omega arith) in
      let p' : RtpPacket = record p { prefix = prefix; rtp_header = to_network p.rtp_header } in
      let x : Sent = record { header = p.rtp_header; payload = take p.size p.payload } in
      let size : length x.payload ≡ p.size = omega (arith, length-take p.size p.payload) in
      let whole : take (length x.payload) x.payload ≡ x.payload =
        take_all (length x.payload) x.payload (omega arith) in
      let same : deliveries cs p' ≡ deliveries cs (packet_of x) =
        deliveries_same cs p' (packet_of x) (sym size)
          (ap (λ ys. header_bytes (to_network p.rtp_header) ++ ys) (sym whole)) in
      (
        ground (arith, r, got),
        (
          ground (arith, r, got, same, broadcast_snoc cs sent x),
          AllFit-snoc sent x fit (omega (arith, size)),
        ),
        length-session_cb store track p (some []) ∙ room,
      )
