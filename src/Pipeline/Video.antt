-- ===== src/Pipeline/Video.antt =====
-- The H.264 sink over its source: from the file to the packets.
use zrh_rtsp_server.Prelude.{
  ℕ, ◌+◌, ◌%◌, ◌^◌, ◌≤◌, ◌<◌, ◌≡◌, refl, some, List, [], ◌∷◌, ◌++◌, arith, length,
}
use zrh_rtsp_server.Rtp.{RtpPacket}
use zrh_rtsp_server.Sink
use zrh_rtsp_server.Sink.{Sink, handle_timeout, next_seq, add_timestamp}
use zrh_rtsp_server.Sink.Log.{Sent, log}
use zrh_rtsp_server.RingBuffer.{RingBuffer}
use zrh_rtsp_server.RingBuffer
use zrh_rtsp_server.H264Source.{get_frame_from_file, h264_frame_fps}
use zrh_rtsp_server.H264Source.RoundTrip.{AllEmulationFree, mux}
use zrh_rtsp_server.H264Source.Streaming.{Streams-mux}
use zrh_rtsp_server.H264Sink.{send_frame, rtp_payload_type_h264}
use zrh_rtsp_server.FrameQueue.{Frame, Source, Queue, take_frame, max_buffer_size, AllNonempty}
use zrh_rtsp_server.FrameQueue.Delivery.{Reach-Follows}
use zrh_rtsp_server.Pipeline.{Run, read_next}
use zrh_rtsp_server.Pipeline.Sends.{Run-IsDelivered, timeout_possible}
use zrh_rtsp_server.Pipeline.Delivery.{AllUnits, Carries, none_sent, IsReady, h264_sends}

AllUnits-AllNonempty : (fs : List Frame) → AllUnits fs → AllNonempty fs
AllUnits-AllNonempty [] u = tt
AllUnits-AllNonempty (f ∷ fs) ((nalu, rest, e, clear), us) =
    (λ empty. absurd (ground (arith, e, empty)), AllUnits-AllNonempty fs us)

-- The video from the file to its packets. Let a source read a stream of NAL units, each behind the start
-- code `0 0 0 1`, none of them holding `0 0 1`, each not empty and with its forbidden bit clear, that with
-- four bytes more fits a block of the ring buffer; let a new sink send what `handleTimeout` takes from
-- it, from frames behind which there is memory, to a callback that keeps the length of the packet's
-- buffer. In every state that any interleaving of tasks and timeouts leads to, the packets sent carry
-- units in order, each whole in one packet or in fragments that a receiver puts together to the unit and
-- one stray byte; these units, those in the queue and some others are those of the file in order; the
-- sequence number has counted the packets; and a timeout that finds a frame in the queue sends it without
-- a fault. Fuel beyond the length of the stream is enough for the search for start codes.
pub Run-mux :
    (change : RtpPacket → RtpPacket)
    (keeps : (p : RtpPacket) → length (change p).payload ≡ length p.payload) (this fuel ssrc : ℕ)
    (units : List Frame) (q : Queue RingBuffer) (sink : Sink) (sent : List Sent)
    → AllEmulationFree units
    → AllUnits units
    → length (mux units) + 4 ≤ max_buffer_size
    → length (mux units) < fuel
    → Run
        (get_frame_from_file fuel)
        (λ beyond f. send_frame (log change) f beyond)
        (RingBuffer.construct this max_buffer_size (some (mux units)))
        (Sink.construct h264_frame_fps rtp_payload_type_h264 ssrc, [])
        q
        (sink, sent)
    → Carries q.delivered sent
      × ((others : List Frame) × (units ≡ q.delivered ++ (q.source.frames ++ others)))
      × (sink.rtp_header.seq ≡ length sent % 2 ^ 16)
      × ((f : Frame) (source : Source RingBuffer) (stray : ℕ) (more : List ℕ)
          → take_frame q.source ≡ some (f, source)
          → (q' : Queue RingBuffer) × (s' : Sink × List Sent) × (handle_timeout read_next
                (λ g. send_frame (log change) g (stray ∷ more))
                (q, (sink, sent))
              ≡ some (q', s')))
unfolding Sink.construct
Run-mux change keeps this fuel ssrc units q sink sent free good room enough run =
    let b = RingBuffer.construct this max_buffer_size (some (mux units)) in
    let get_frame = get_frame_from_file fuel in
    let streams =
      Streams-mux this max_buffer_size fuel units free (AllUnits-AllNonempty units good) room
        (omega arith) enough in
    let sends = h264_sends change keeps 0 in
    let st₀ : Sink × List Sent = (Sink.construct h264_frame_fps rtp_payload_type_h264 ssrc, []) in
    let ready : IsReady 0 st₀.0 st₀.1 = record { room = refl; seq = refl } in
    let d = Run-IsDelivered sends get_frame units b st₀ good streams ready none_sent run in
    let v = Reach-Follows get_frame streams d.reached in
    (
      d.sent,
      (v.ahead, v.split),
      omega (arith, d.ready_again.seq),
      λ f source stray more front.
          timeout_possible sends get_frame units b st₀ good streams ready none_sent q (sink, sent) f
            source stray more d front,
    )
