-- ===== src/H264Sink/Delivery.antt =====
-- `sendFrame` from the frame to what the receiver has.
use zrh_rtsp_server.Prelude.{
  ℕ, zero, suc, ◌+◌, ◌/◌, ◌%◌, ◌^◌, ◌≤◌, ◌<◌, ◌≡◌, refl, sym, ap, ◌∙◌, Bool, true, false, ◌||◌,
  some, List, [], ◌∷◌, ◌++◌, ◌==◌, if◌then◌else◌, arith, length, take, length-append,
}
use zrh_rtsp_server.Bits.{bit_and_1f}
use zrh_rtsp_server.Rtp.{RtpHeader, RtpPacket}
use zrh_rtsp_server.Sink.{Sink, next_seq, add_timestamp}
use zrh_rtsp_server.Sink.Log.{Sent, log, send_packet-log}
use zrh_rtsp_server.H264Sink.{send_frame}
use zrh_rtsp_server.H264Sink.Depacketize.{concat, fu_run, depacketize, depacketize-fu_run}
use zrh_rtsp_server.H264Sink.Fragments.{
  after, chunks, concat-chunks, chunks_two, send_fragments_lem,
}

seq-after : (n : ℕ) (h : RtpHeader) → h.seq < 2 ^ 16 → (after n h).seq ≡ (h.seq + n) % 2 ^ 16
seq-after zero h lt = omega arith
seq-after (suc n) h lt = seq-after n (next_seq h) (omega arith) ∙ omega arith

timestamp-after : (n : ℕ) (h : RtpHeader) → (after n h).timestamp ≡ h.timestamp
timestamp-after zero h = refl
timestamp-after (suc n) h = timestamp-after n (next_seq h)

length-fu_run :
    (h : RtpHeader) (nalu : ℕ) (first last : Bool) (cs : List (List ℕ))
    → length (fu_run h nalu first last cs) ≡ length cs
unfolding fu_run
length-fu_run h nalu first last [] = refl
length-fu_run h nalu first last (c ∷ cs) = ap suc (length-fu_run (next_seq h) nalu false last cs)

take-append_one :
    (xs more : List ℕ) (x : ℕ) → take (suc (length xs)) (xs ++ x ∷ more) ≡ xs ++ x ∷ []
take-append_one [] more x = refl
take-append_one (y ∷ xs) more x = ap (◌∷◌ y) (take-append_one xs more x)

module _ (change : RtpPacket → RtpPacket)
    (keeps : (p : RtpPacket) → length (change p).payload ≡ length p.payload) where
  -- From a packet buffer of 1402 payload bytes, which the callback keeps, a frame of one byte to 1400
  -- goes out as it is, in one packet under the running header; the sequence
  -- number grows by one, and the timestamp by a frame's share of 12000 unless the unit is a parameter
  -- set (type 7 or 8).
  pub send_frame_single :
      (sink : Sink) (sent : List Sent) (nalu : ℕ) (rest beyond : List ℕ)
      → nalu < 256
      → length (nalu ∷ rest) ≤ 1400
      → length sink.buf.payload ≡ 1402
      → (sink' : Sink) × (send_frame (log change) (nalu ∷ rest) beyond (sink, sent)
          ≡ some (sink', sent ++ record { header = sink.rtp_header; payload = nalu ∷ rest } ∷ []))
        × (sink'.rtp_header ≡ (
            if (nalu % 32 == 7) || (nalu % 32 == 8)
            then next_seq sink.rtp_header
            else add_timestamp (12000 / sink.fps) (next_seq sink.rtp_header)))
        × (length sink'.buf.payload ≡ 1402)
  unfolding send_frame
  send_frame_single sink sent nalu rest beyond byte small room =
      let (buf, got, kept) = send_packet-log change keeps sink (nalu ∷ rest) sent (omega arith) in
      let set : Bool = (nalu % 32 == 7) || (nalu % 32 == 8) in
      let h = next_seq sink.rtp_header in
      (
        record sink {
          buf = buf;
          rtp_header = if set then h else add_timestamp (12000 / sink.fps) h;
        },
        ground (arith, got, bit_and_1f nalu byte),
        refl,
        omega arith,
      )

  -- From a packet buffer of 1402 payload bytes, which the callback keeps, a frame of more than 1400
  -- bytes, whose first byte has its forbidden bit clear and behind which
  -- there is memory, goes out in fragments that the
  -- receiver puts together to the frame and the one byte that stands behind it in memory. The sequence
  -- number grows by the number of packets, and the timestamp by a frame's share of 12000.
  pub send_frame_fragments :
      (sink : Sink) (sent : List Sent) (nalu : ℕ) (rest : List ℕ) (stray : ℕ) (more : List ℕ)
      → nalu < 128
      → 1400 < length (nalu ∷ rest)
      → length sink.buf.payload ≡ 1402
      → sink.rtp_header.seq < 2 ^ 16
      → (sink' : Sink) × (packets : List Sent) × (send_frame
            (log change)
            (nalu ∷ rest)
            (stray ∷ more)
            (sink, sent)
          ≡ some (sink', sent ++ packets))
        × (depacketize packets ≡ some ((nalu ∷ rest) ++ stray ∷ []))
        × (sink'.rtp_header.seq ≡ (sink.rtp_header.seq + length packets) % 2 ^ 16)
        × (sink'.rtp_header.timestamp ≡ (sink.rtp_header.timestamp + 12000 / sink.fps) % 2 ^ 32)
        × (length sink'.buf.payload ≡ 1402)
  unfolding send_frame
  send_frame_fragments sink sent nalu rest stray more bit big room seq =
      let frame = nalu ∷ rest in
      let xs = rest ++ stray ∷ more in
      let size : ℕ = length frame in
      let long : 1 + size ≤ length (frame ++ stray ∷ more) =
        omega (arith, length-append {0} rest (stray ∷ more)) in
      let (sink₁, got, kind, kept) =
        send_fragments_lem change keeps (frame ++ stray ∷ more) nalu (omega arith) size sink sent
          big long room in
      let cs = chunks size xs in
      let (c, d, ds, e) = chunks_two size xs big in
      let h = sink.rtp_header in
      let packets = fu_run h nalu true true cs in
      let whole : c ++ (d ++ concat ds) ≡ rest ++ stray ∷ [] =
        sym (ap concat e) ∙ concat-chunks size xs ∙ take-append_one rest more stray in
      let received : depacketize packets ≡ some (frame ++ stray ∷ []) =
        ap (λ ys. depacketize (fu_run h nalu true true ys)) e
        ∙ depacketize-fu_run h nalu c d ds bit
        ∙ ap (λ ys. some (nalu ∷ ys)) whole in
      (
        record sink₁ { rtp_header = add_timestamp (12000 / sink₁.fps) sink₁.rtp_header },
        packets,
        ground (arith, got),
        received,
        ap (λ (k : Sink). k.rtp_header.seq) kind
            ∙ seq-after (length cs) h seq
            ∙ ap (λ n. (h.seq + n) % 2 ^ 16) (sym (length-fu_run h nalu true true cs)),
        ap (λ (k : Sink). (k.rtp_header.timestamp + 12000 / k.fps) % 2 ^ 32) kind
            ∙ ap (λ (t : ℕ). (t + 12000 / sink.fps) % 2 ^ 32) (timestamp-after (length cs) h),
        kept,
      )
