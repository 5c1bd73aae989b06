-- ===== src/Pipeline/Clients.antt =====
-- What one client gets of the packets that a track's connections send.
use zrh_rtsp_server.Prelude.{
  ℕ, zero, suc, ◌≤◌, ◌<◌, ◌≡◌, ◌≢◌, refl, sym, ap, ◌∙◌, true, Option, none, some, List, [], ◌∷◌,
  ◌++◌, map, ◌==◌, if◌then◌else◌, arith, length, append-nil, append_assoc,
}
use zrh_rtsp_server.Rtp.{RtpPacket, RtpConnection, Transmission, send, send_to}
use zrh_rtsp_server.Rtp.Framing.{read_interleaved, datagram, interleaved, send_frame_tcp}
use zrh_rtsp_server.Sink.Log.{Sent}
use zrh_rtsp_server.MediaSession.Broadcast.{delivery, deliveries}
use zrh_rtsp_server.Pipeline.Broadcast.{AllFit, packet_of, broadcast}

-- The bytes that these transmissions put on a stream socket; what else is written to it is not among them.
abbrev pub stream : ℕ → List Transmission → List ℕ
stream fd [] = []
stream fd (send to bytes ∷ ts) = if to == fd then bytes ++ stream fd ts else stream fd ts
stream fd (send_to from address bytes ∷ ts) = stream fd ts

-- Packets are taken off the bytes until they end, at most as many as this: their channels and what they hold.
abbrev pub read_packets : ℕ → List ℕ → Option (List (ℕ × List ℕ))
read_packets n [] = some []
read_packets zero (x ∷ xs) = none
read_packets (suc n) (x ∷ xs) = elim (read_interleaved (x ∷ xs)) [
  | none ↦ none
  | some (channel, packet, rest) ↦ elim (read_packets n rest) [
    | none ↦ none
    | some packets ↦ some ((channel, packet) ∷ packets)
  ]
]

-- Connections that are on other sockets.
abbrev pub AllElsewhere : ℕ → List RtpConnection → Type 0
AllElsewhere fd [] = Unit {0}
AllElsewhere fd (c ∷ cs) = (c.sock_fd ≢ fd) × AllElsewhere fd cs

stream-append :
    (fd : ℕ) (ts us : List Transmission) → stream fd (ts ++ us) ≡ stream fd ts ++ stream fd us
stream-append fd [] us = refl
stream-append fd (send to bytes ∷ ts) us =
    ground (arith, stream-append fd ts us, append_assoc bytes (stream fd ts) (stream fd us))
stream-append fd (send_to from address bytes ∷ ts) us = stream-append fd ts us

stream-delivery_elsewhere :
    (fd : ℕ) (c : RtpConnection) (p : RtpPacket) → c.sock_fd ≢ fd → stream fd (delivery c p) ≡ []
stream-delivery_elsewhere fd c p apart = ground (arith, apart)

stream-deliveries_elsewhere :
    (fd : ℕ) (cs : List RtpConnection) (p : RtpPacket)
    → AllElsewhere fd cs
    → stream fd (deliveries cs p) ≡ []
stream-deliveries_elsewhere fd [] p h = refl
stream-deliveries_elsewhere fd (c ∷ cs) p (apart, h) =
    stream-append fd (delivery c p) (deliveries cs p)
    ∙ ground (arith, stream-delivery_elsewhere fd c p apart, stream-deliveries_elsewhere fd cs p h)

deliveries-append :
    (cs ds : List RtpConnection) (p : RtpPacket)
    → deliveries (cs ++ ds) p ≡ deliveries cs p ++ deliveries ds p
deliveries-append [] ds p = refl
deliveries-append (c ∷ cs) ds p =
    ap (λ ts. delivery c p ++ ts) (deliveries-append cs ds p)
    ∙ sym (append_assoc (delivery c p) (deliveries cs p) (deliveries ds p))

-- A live TCP connection, alone on its socket among those of a track.
pub record IsClient (before : List RtpConnection) (c : RtpConnection) (after : List RtpConnection)
    : Type 0 where
  pub alive : c.alive ≡ true
  pub is_tcp : c.is_tcp ≡ true
  pub byte : c.rtp_channel < 256
  pub before_apart : AllElsewhere c.sock_fd before
  pub after_apart : AllElsewhere c.sock_fd after

module _ (before : List RtpConnection) (c : RtpConnection) (after : List RtpConnection)
    (client : IsClient before c after) where
  stream-deliveries :
      (p : RtpPacket) → stream c.sock_fd (deliveries (before ++ c ∷ after) p) ≡ interleaved c p
  stream-deliveries p =
      let fd = c.sock_fd in
      let own : stream fd (delivery c p) ≡ interleaved c p =
        ground (arith, client.alive, client.is_tcp, append-nil (interleaved c p)) in
      ap (stream fd) (deliveries-append before (c ∷ after) p)
      ∙ stream-append fd (deliveries before p) (deliveries (c ∷ after) p)
      ∙ ap (λ xs. xs ++ stream fd (deliveries (c ∷ after) p))
          (stream-deliveries_elsewhere fd before p client.before_apart)
      ∙ stream-append fd (delivery c p) (deliveries after p)
      ∙ ap (λ xs. xs ++ stream fd (deliveries after p)) own
      ∙ ap (λ xs. interleaved c p ++ xs) (stream-deliveries_elsewhere fd after p client.after_apart)
      ∙ append-nil (interleaved c p)

  pub read_packets-broadcast :
      (sent : List Sent) (n : ℕ)
      → AllFit sent
      → length sent ≤ n
      → read_packets n (stream c.sock_fd (broadcast (before ++ c ∷ after) sent))
        ≡ some (map (λ x. (c.rtp_channel, datagram (packet_of x))) sent)
  read_packets-broadcast [] n fit enough = refl
  read_packets-broadcast (x ∷ sent) zero fit enough = absurd (omega arith)
  read_packets-broadcast (x ∷ sent) (suc n) (small, fit) enough =
      let cs = before ++ c ∷ after in
      let p = packet_of x in
      let rest = stream c.sock_fd (broadcast cs sent) in
      let split : stream c.sock_fd (broadcast cs (x ∷ sent)) ≡ interleaved c p ++ rest =
        stream-append c.sock_fd (deliveries cs p) (broadcast cs sent)
        ∙ ap (λ xs. xs ++ rest) (stream-deliveries p) in
      let (sends, read) =
        send_frame_tcp c p rest client.alive client.is_tcp client.byte (omega arith) small in
      ap (read_packets (suc n)) split
      ∙ ground (arith, read, read_packets-broadcast sent n fit (omega arith))
