-- ===== src/Pipeline/Audio.antt =====
-- The AAC frames from the file to the packets.
use zrh_rtsp_server.Prelude.{
  ℕ, ◌≤◌, ◌≡◌, ◌≢◌, refl, ap, ◌∙◌, Option, none, some, List, [], ◌∷◌, ◌++◌, arith, length,
  length-append, Option-cases, inl, inr,
}
use zrh_rtsp_server.Rtp.{RtpHeader, RtpPacket}
use zrh_rtsp_server.Sink.{Sink}
use zrh_rtsp_server.Sink.Log.{Sent, log}
use zrh_rtsp_server.AacSink.{send_frame}
use zrh_rtsp_server.AacSink.Delivery.{read_au, send_frame_au}
use zrh_rtsp_server.FrameQueue.{Frame}
use zrh_rtsp_server.Pipeline.Delivery.{IsReady}
use zrh_rtsp_server.Pipeline.Sends.{Sends}

-- What a receiver reads of some packets, a frame in each.
abbrev pub read_aus : List Sent → Option (List Frame)
read_aus [] = some []
read_aus (x ∷ sent) = elim (read_au x.payload) [
  | none ↦ none
  | some frame ↦ elim (read_aus sent) [ none ↦ none | some frames ↦ some (frame ∷ frames) ]
]

read_aus-snoc :
    (sent : List Sent) (x : Sent) (fs : List Frame) (f : Frame)
    → read_aus sent ≡ some fs
    → read_au x.payload ≡ some f
    → read_aus (sent ++ x ∷ []) ≡ some (fs ++ f ∷ [])
read_aus-snoc [] x fs f got last =
    let none_before : fs ≡ [] = ground (arith, got) in rw none_before (ground (arith, last))
read_aus-snoc (y ∷ sent) x fs f got last = elim (Option-cases (read_au y.payload)) [
  | inl e ↦ absurd (ground (arith, got, e))
  | inr (g, e) ↦ elim (Option-cases (read_aus sent)) [
    | inl h ↦ absurd (ground (arith, got, e, h))
    | inr (gs, h) ↦
        let split : fs ≡ g ∷ gs = ground (arith, got, e, h) in
        rw split (ground (arith, e, read_aus-snoc sent x gs f h last))
  ]
]

-- A frame with data that fits a packet behind its AU header.
abbrev pub FitsPacket : Frame → Type 0
FitsPacket f = (f ≢ []) × (length f ≤ 1398)

module _ (change : RtpPacket → RtpPacket)
    (keeps : (p : RtpPacket) → length (change p).payload ≡ length p.payload) (seq₀ : ℕ) where
  pub send_au :
      (sink : Sink) (sent : List Sent) (f : Frame)
      → IsReady seq₀ sink sent
      → FitsPacket f
      → (sink' : Sink) × (sent' : List Sent) × (send_frame (log change) f (sink, sent)
          ≡ some (sink', sent'))
        × IsReady seq₀ sink' sent'
        × ((fs : List Frame) → read_aus sent ≡ some fs → read_aus sent' ≡ some (fs ++ f ∷ []))
  send_au sink sent [] v (some_bytes, small) = absurd (some_bytes refl)
  send_au sink sent (x ∷ rest) v (some_bytes, small) =
      let (sink', payload, got, read, header, room) =
        send_frame_au change keeps sink sent x rest small v.room in
      let packet : Sent = record { header = sink.rtp_header; payload = payload } in
      (
        sink',
        sent ++ packet ∷ [],
        got,
        record {
          room = room;
          seq =
              ap (λ (h : RtpHeader). h.seq) header
              ∙ omega (arith, v.seq, length-append sent (packet ∷ []));
        },
        λ fs before. read_aus-snoc sent packet fs (x ∷ rest) before read,
      )

  -- The sink keeps its promise.
  abbrev pub aac_sends : Sends (λ beyond f. send_frame (log change) f)
  aac_sends = record {
    IsGood = FitsPacket;
    IsReady = λ s. IsReady seq₀ s.0 s.1;
    HasSent = λ fs s. read_aus s.1 ≡ some fs;
    some_bytes = λ f fits. fits.0;
    sends = λ s f stray more ready fits.
        let (sink', sent', got, ready', read) = send_au s.0 s.1 f ready fits in
        ((sink', sent'), got, ready', read);
  }
