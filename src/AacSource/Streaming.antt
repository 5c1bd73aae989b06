-- ===== src/AacSource/Streaming.antt =====
-- The ADTS reader against the frame queue.
use zrh_rtsp_server.Prelude.{
  ℕ, ◌+◌, ◌-◌, ◌^◌, ◌≤◌, ◌<◌, ◌≡◌, ap, ◌∙◌, ◌⊎◌, some, none, List, [], ◌∷◌, ◌++◌, arith, length,
  drop,
}
use zrh_rtsp_server.RingBuffer.{RingBuffer, construct}
use zrh_rtsp_server.RingBuffer.Held.{
  IsHeld, ahead, zeros, construct-IsHeld, offect-construct, begin-at,
}
use zrh_rtsp_server.FrameQueue.{
  Queue, take_frame, AllNonempty, Streams, Reads-Streams, Reach, Step, max_buffer_size,
}
use zrh_rtsp_server.FrameQueue.Delivery.{Reach-Follows, Reach-progress}
use zrh_rtsp_server.AacSource.{get_frame_from_file, parse_adts_header}
use zrh_rtsp_server.AacSource.RoundTrip.{
  AdtsFrame, AllFrames, adts_stream, payloads, get_frames_lem,
}
use zrh_rtsp_server.H264Source.RoundTrip.{zeros_shape}

-- Zeros hold no sync word.
get_frame_at_end :
    (file : List ℕ) (b : RingBuffer)
    → IsHeld file b
    → ahead b b.offect ≡ zeros file b
    → get_frame_from_file b ≡ some ([], b)
unfolding get_frame_from_file parse_adts_header
get_frame_at_end file b v e =
    let (rest, four) = zeros_shape (b.capacity - length file) (omega (arith, v)) in
    let z : ahead b b.offect ≡ 0 ∷ 0 ∷ 0 ∷ 0 ∷ rest = e ∙ four in
    ground (arith, begin-at file b v, z, ap parse_adts_header z)

pub Streams-adts :
    (this capacity : ℕ) (fs : List AdtsFrame)
    → AllFrames fs
    → AllNonempty (payloads fs)
    → length (adts_stream fs) + 4 ≤ capacity
    → capacity < 2 ^ 62
    → Streams get_frame_from_file (construct this capacity (some (adts_stream fs))) (payloads fs)
Streams-adts this capacity fs good some_bytes room small =
    let file = adts_stream fs in
    let b = construct this capacity (some file) in
    let o = offect-construct this capacity file in
    let v = construct-IsHeld this capacity file room small in
    let (b', got, end_at, reads, v', rest_zero) =
      get_frames_lem file fs b v (ap (λ (k : ℕ). drop k b.arr0) o ∙ v.bytes) (omega (arith, o))
        good in
    Reads-Streams get_frame_from_file reads some_bytes (get_frame_at_end file b' v' rest_zero)

-- A source on an ADTS stream whose headers have all ones for their sync word, their other fields within
-- their bits and the lengths of their frames in them, no frame without data, and that with four bytes more
-- fits one block of the ring buffer, which is 1 MiB (a longer stream is not covered): after any
-- interleaving of tasks and reads the frames returned, those in the queue and some others are the data of
-- the frames in order, at most 8 are in the queue or asked for, and either a task or `ReadFrame` can go
-- on, or all frames have been returned and `ReadFrame` waits for ever.
pub Reach-adts :
    (this : ℕ) (fs : List AdtsFrame) (q : Queue RingBuffer)
    → AllFrames fs
    → AllNonempty (payloads fs)
    → length (adts_stream fs) + 4 ≤ max_buffer_size
    → Reach get_frame_from_file (construct this max_buffer_size (some (adts_stream fs))) q
    → ((others : List (List ℕ)) × (payloads fs ≡ q.delivered ++ (q.source.frames ++ others)))
      × (length q.source.frames + q.pending ≤ 8)
      × (((r : Queue RingBuffer) × Step get_frame_from_file q r)
          ⊎ ((q.delivered ≡ payloads fs) × (take_frame q.source ≡ none)))
Reach-adts this fs q good some_bytes room r =
    let streams = Streams-adts this max_buffer_size fs good some_bytes room (omega arith) in
    let v = Reach-Follows get_frame_from_file streams r in
    ((v.ahead, v.split), v.few, Reach-progress get_frame_from_file streams r)
