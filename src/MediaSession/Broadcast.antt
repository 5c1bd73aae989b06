-- ===== src/MediaSession/Broadcast.antt =====
-- One packet to all connections of a track.
use zrh_rtsp_server.Prelude.{
  ℕ, ◌+◌, ◌*◌, ◌/◌, ◌%◌, ◌^◌, ◌≤◌, ◌<◌, ◌≡◌, refl, sym, ap, ◌∙◌, true, false, Option, none, some,
  List, [], ◌∷◌, ◌++◌, if◌then◌else◌, arith, length, take, Bool-cases, Option-cases, inl, inr,
}
use zrh_rtsp_server.Rtp.{
  RtpHeader, RtpPacket, RtpConnection, Transmission, send, send_to, header_bytes, send_frame,
  send_packet_over_tcp, send_packet_over_udp,
}
use zrh_rtsp_server.Rtp.Framing.{datagram, interleaved, send_frame_tcp, send_frame_udp}
use zrh_rtsp_server.MediaSession.{
  Store, Track, to_network, send_all, handle_session_send, session_cb,
}

-- An RTP header as it goes over the network (RFC 3550, section 5.1).
abbrev pub network_header : RtpHeader → List ℕ
network_header h =
    (h.version * 64 + h.padding * 32 + h.extension * 16 + h.csrc_len)
    ∷ (h.marker * 128 + h.payload_type)
    ∷ h.seq / 256
    ∷ h.seq % 256
    ∷ h.timestamp / 2 ^ 24
    ∷ h.timestamp / 2 ^ 16 % 256
    ∷ h.timestamp / 256 % 256
    ∷ h.timestamp % 256
    ∷ h.ssrc / 2 ^ 24
    ∷ h.ssrc / 2 ^ 16 % 256
    ∷ h.ssrc / 256 % 256
    ∷ h.ssrc % 256
    ∷ []

-- A header whose three words are within their widths, and have been put into network order, lies in
-- memory as the header of RFC 3550, byte by byte.
pub header_bytes-to_network :
    (h : RtpHeader)
    → h.seq < 2 ^ 16
    → h.timestamp < 2 ^ 32
    → h.ssrc < 2 ^ 32
    → header_bytes (to_network h) ≡ network_header h
unfolding header_bytes
header_bytes-to_network h s t r = ground arith

-- What a live connection sends of a packet, and a dead one does not.
abbrev pub delivery : RtpConnection → RtpPacket → List Transmission
delivery c p =
    if c.alive
    then (if c.is_tcp
        then send c.sock_fd (interleaved c p)
        else send_to c.sock_fd c.remote_addr (datagram p))
      ∷ []
    else []

-- The pointers of a track and the connections that they stand for.
pub data Resolves (store : Store) : List ℕ → List RtpConnection → Type 0 where
  nil : Resolves store [] []
  cons :
      {conn : ℕ} {conns : List ℕ} {c : RtpConnection} {cs : List RtpConnection}
      → store conn ≡ some c
      → c.rtp_channel < 256
      → Resolves store conns cs
      → Resolves store (conn ∷ conns) (c ∷ cs)

abbrev pub deliveries : List RtpConnection → RtpPacket → List Transmission
deliveries [] p = []
deliveries (c ∷ cs) p = delivery c p ++ deliveries cs p

send_frame_dead :
    (c : RtpConnection) (p : RtpPacket) → c.alive ≡ false → send_frame c p ≡ some (p, [])
unfolding send_frame
send_frame_dead c p a = ground arith

send_frame-delivery :
    (c : RtpConnection) (p : RtpPacket)
    → c.rtp_channel < 256
    → p.size ≤ length p.payload
    → p.size ≤ 1402
    → (prefix : List ℕ) × (send_frame c p ≡ some (record p { prefix = prefix }, delivery c p))
send_frame-delivery c p ch fits small = elim (Bool-cases c.alive) [
  | inl a ↦ elim (Bool-cases c.is_tcp) [
    | inl t ↦
        (take 4 (interleaved c p), ground (arith, (send_frame_tcp c p [] a t ch fits small).0))
    | inr t ↦ (p.prefix, ground (arith, send_frame_udp c p a t fits small))
  ]
  | inr a ↦ (p.prefix, ground (arith, send_frame_dead c p a))
]

deliveries-prefix :
    (cs : List RtpConnection) (p : RtpPacket) (prefix : List ℕ)
    → deliveries cs (record p { prefix = prefix }) ≡ deliveries cs p
deliveries-prefix [] p prefix = refl
deliveries-prefix (c ∷ cs) p prefix = ap (λ ts. delivery c p ++ ts) (deliveries-prefix cs p prefix)

send_all-deliveries :
    {store : Store} {conns : List ℕ} {cs : List RtpConnection} (p : RtpPacket)
    → Resolves store conns cs
    → p.size ≤ length p.payload
    → p.size ≤ 1402
    → (prefix : List ℕ) × (send_all store conns p
        ≡ some (record p { prefix = prefix }, deliveries cs p))
unfolding send_all
send_all-deliveries p nil fits small = (p.prefix, refl)
send_all-deliveries {store} p (cons {conns = conns} {c = c} {cs = cs} found ch r) fits small =
    let (prefix, got) = send_frame-delivery c p ch fits small in
    let p' : RtpPacket = record p { prefix = prefix } in
    let (prefix', later) = send_all-deliveries p' r fits small in
    (prefix', ground (arith, found, got, later, deliveries-prefix cs p prefix))

-- On a live track whose pointers all stand for connections with a channel of one byte, and for a packet
-- of at most 1402 payload bytes that lie in its buffer, the callback sends the packet, with its header
-- words in network order, once to each live connection of the track, in the order of the track and in
-- the framing of the connection; apart from the prefix and the order of those words it leaves the packet
-- as it was.
pub handle_session_send-deliveries :
    (store : Store) (track : Track) (cs : List RtpConnection) (p : RtpPacket)
    → track.alive ≡ true
    → Resolves store track.rtp_conns cs
    → p.size ≤ length p.payload
    → p.size ≤ 1402
    → (prefix : List ℕ) × (let p' = record p {
      prefix = prefix;
      rtp_header = to_network p.rtp_header;
    } in
        handle_session_send store track p ≡ some (p', deliveries cs p'))
unfolding handle_session_send
handle_session_send-deliveries store track cs p live r fits small =
    let q : RtpPacket = record p { rtp_header = to_network p.rtp_header } in
    let (prefix, got) = send_all-deliveries q r fits small in
    (
      prefix,
      rw live (
          got
          ∙ ap (λ ts. some (record q { prefix = prefix }, ts))
              (sym (deliveries-prefix cs q prefix))),
    )

abbrev Kept : ℕ → Option (RtpPacket × List Transmission) → Type 0
Kept n none = Unit {0}
Kept n (some (p, ts)) = length p.payload ≡ n

send_frame-Kept : (c : RtpConnection) (p : RtpPacket) → Kept (length p.payload) (send_frame c p)
unfolding send_frame send_packet_over_tcp send_packet_over_udp
send_frame-Kept c p = ground arith

send_all-Kept :
    (store : Store) (conns : List ℕ) (p : RtpPacket)
    → Kept (length p.payload) (send_all store conns p)
unfolding send_all
send_all-Kept store [] p = refl
send_all-Kept store (conn ∷ conns) p = elim (Option-cases (store conn)) [
  | inl e ↦ ground arith
  | inr (c, e) ↦ elim (Option-cases (send_frame c p)) [
    | inl f ↦ ground arith
    | inr ((p', ts), f) ↦
        let kept : Kept (length p.payload) (some (p', ts)) = rw f at (send_frame-Kept c p) in
        let rest = send_all-Kept store conns p' in
        elim (Option-cases (send_all store conns p')) [
          | inl g ↦ ground arith
          | inr ((p'', us), g) ↦
              let kept' : Kept (length p'.payload) (some (p'', us)) = rw g at rest in ground arith
        ]
  ]
]

-- The callback never changes the length of the packet's buffer, which is what the sinks rely on.
pub length-session_cb :
    (store : Store) (track : Track) (p : RtpPacket) (sent : Option (List Transmission))
    → length (session_cb store track p sent).0.payload ≡ length p.payload
unfolding session_cb handle_session_send
length-session_cb store track p none = refl
length-session_cb store track p (some sent) =
    ground (
      arith,
      send_all-Kept store track.rtp_conns (record p { rtp_header = to_network p.rtp_header }),
    )
