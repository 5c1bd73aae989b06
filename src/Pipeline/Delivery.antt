-- ===== src/Pipeline/Delivery.antt =====
-- From the file to the packets.
use zrh_rtsp_server.Prelude.{
  ℕ, ◌+◌, ◌/◌, ◌%◌, ◌^◌, ◌<◌, ◌≡◌, ◌≢◌, refl, ap, ◌∙◌, Bool, true, false, ◌||◌, ◌==◌, if◌then◌else◌,
  some, List, [], ◌∷◌, ◌++◌, arith, length, length-append, dec_lt,
}
use zrh_rtsp_server.Rtp.{RtpHeader, RtpPacket}
use zrh_rtsp_server.Sink.{Sink, next_seq, add_timestamp}
use zrh_rtsp_server.Sink.Log.{Sent, log}
use zrh_rtsp_server.H264Sink.{send_frame}
use zrh_rtsp_server.Pipeline.Sends.{Sends, All}
use zrh_rtsp_server.H264Sink.Depacketize.{depacketize}
use zrh_rtsp_server.H264Sink.Delivery.{send_frame_single, send_frame_fragments}
use zrh_rtsp_server.FrameQueue.{Frame}

-- A NAL unit: not empty, its forbidden bit clear.
abbrev pub IsUnit : Frame → Type 0
IsUnit f = (nalu : ℕ) × (rest : List ℕ) × (f ≡ nalu ∷ rest) × (nalu < 128)

pub IsUnit-nonempty : (f : Frame) → IsUnit f → f ≢ []
IsUnit-nonempty f (nalu, rest, e, clear) empty = absurd (ground (arith, e, empty))

abbrev pub AllUnits : List Frame → Type 0
AllUnits = All IsUnit

-- The packets that carry some units in order: one packet with the whole unit, or fragments that the
-- receiver puts together to the unit and one stray byte.
pub data Carries : List Frame → List Sent → Type 0 where
  none_sent : Carries [] []
  whole :
      {fs : List Frame} {sent : List Sent} (f : Frame) (h : RtpHeader)
      → Carries fs sent
      → Carries (fs ++ f ∷ []) (sent ++ record { header = h; payload = f } ∷ [])
  fragments :
      {fs : List Frame} {sent : List Sent} (f : Frame) (packets : List Sent) (stray : ℕ)
      → Carries fs sent
      → depacketize packets ≡ some (f ++ stray ∷ [])
      → Carries (fs ++ f ∷ []) (sent ++ packets)

-- A sink whose packet buffer has its size, and whose sequence number counts the packets from `seq₀`.
pub record IsReady (seq₀ : ℕ) (sink : Sink) (sent : List Sent) : Type 0 where
  pub room : length sink.buf.payload ≡ 1402
  pub seq : sink.rtp_header.seq ≡ (seq₀ + length sent) % 2 ^ 16

seq-if :
    (set : Bool) (n : ℕ) (h : RtpHeader)
    → (if set then next_seq h else add_timestamp n (next_seq h)).seq ≡ (h.seq + 1) % 2 ^ 16
seq-if true n h = refl
seq-if false n h = refl

module _ (change : RtpPacket → RtpPacket)
    (keeps : (p : RtpPacket) → length (change p).payload ≡ length p.payload) (seq₀ : ℕ) where
  counted :
      (seq : ℕ) (sent packets : List Sent)
      → seq ≡ (seq₀ + length sent) % 2 ^ 16
      → (seq + length packets) % 2 ^ 16 ≡ (seq₀ + length (sent ++ packets)) % 2 ^ 16
  counted seq sent packets h = omega (arith, h, length-append sent packets)

  pub send_unit :
      (sink : Sink) (sent : List Sent) (f : Frame) (stray : ℕ) (more : List ℕ)
      → IsReady seq₀ sink sent
      → IsUnit f
      → (sink' : Sink) × (sent' : List Sent) × (send_frame
            (log change)
            f
            (stray ∷ more)
            (sink, sent)
          ≡ some (sink', sent'))
        × IsReady seq₀ sink' sent'
        × ((fs : List Frame) → Carries fs sent → Carries (fs ++ f ∷ []) sent')
  send_unit sink sent f stray more v (nalu, rest, e, clear) =
      rw e (elim (dec_lt 1400 (length (nalu ∷ rest))) [
        | no small ↦
            let (sink', got, header, room) =
              send_frame_single change keeps sink sent nalu rest (stray ∷ more) (omega arith)
                (omega arith) v.room in
            let packet : List Sent =
              record { header = sink.rtp_header; payload = nalu ∷ rest } ∷ [] in
            (
              sink',
              _,
              got,
              record {
                room = room;
                seq =
                    ap (λ (h : RtpHeader). h.seq) header
                    ∙ seq-if ((nalu % 32 == 7) || (nalu % 32 == 8)) (12000 / sink.fps)
                        sink.rtp_header
                    ∙ counted sink.rtp_header.seq sent packet v.seq;
              },
              λ fs carried. whole (nalu ∷ rest) sink.rtp_header carried,
            )
        | yes big ↦
            let (sink', packets, got, received, seq, time, room) =
              send_frame_fragments change keeps sink sent nalu rest stray more clear big v.room
                (omega (arith, v.seq)) in
            (
              sink',
              _,
              got,
              record { room = room; seq = seq ∙ counted sink.rtp_header.seq sent packets v.seq },
              λ fs carried. fragments (nalu ∷ rest) packets stray carried received,
            )
      ])

  -- The sink keeps its promise.
  abbrev pub h264_sends : Sends (λ beyond f. send_frame (log change) f beyond)
  h264_sends = record {
    IsGood = IsUnit;
    IsReady = λ s. IsReady seq₀ s.0 s.1;
    HasSent = λ fs s. Carries fs s.1;
    some_bytes = IsUnit-nonempty;
    sends = λ s f stray more ready a_unit.
        let (sink', sent', got, ready', carried) = send_unit s.0 s.1 f stray more ready a_unit in
        ((sink', sent'), got, ready', carried);
  }
