-- ===== src/H264Source/Streaming.antt =====
-- The H.264 reader against the frame queue: the units, and then nothing, however often it is asked.
use zrh_rtsp_server.Prelude.{
  ℕ, ◌+◌, ◌-◌, ◌^◌, ◌≤◌, ◌<◌, ◌≡◌, ap, ◌∙◌, ◌⊎◌, some, none, List, [], ◌∷◌, ◌++◌, arith, length,
  drop,
}
use zrh_rtsp_server.RingBuffer.{RingBuffer, construct}
use zrh_rtsp_server.RingBuffer.Held.{
  IsHeld, ahead, zeros, construct-IsHeld, offect-construct, begin-at,
}
use zrh_rtsp_server.FrameQueue.{
  Queue, take_frame, AllNonempty, Streams, Reads-Streams, Reach, Step, max_buffer_size,
}
use zrh_rtsp_server.FrameQueue.Delivery.{Reach-Follows, Reach-progress}
use zrh_rtsp_server.H264Source.{get_frame_from_file, frame_behind_4}
use zrh_rtsp_server.H264Source.StartCode.{code3, code4}
use zrh_rtsp_server.H264Source.RoundTrip.{
  AllEmulationFree, mux, codes-at, eq-end, zeros_shape, get_frames_lem,
}

-- Zeros hold no start code.
get_frame_at_end :
    (file : List ℕ) (fuel : ℕ) (b : RingBuffer)
    → IsHeld file b
    → b.offect ≡ length file
    → ahead b b.offect ≡ zeros file b
    → get_frame_from_file fuel b ≡ some ([], b)
unfolding get_frame_from_file frame_behind_4
get_frame_at_end file fuel b v o e =
    let (rest, four) = zeros_shape (b.capacity - length file) (omega (arith, v)) in
    let z : ahead b b.offect ≡ 0 ∷ 0 ∷ 0 ∷ 0 ∷ rest = e ∙ four in
    ground (
      arith,
      begin-at file b v,
      eq-end file b v b.offect,
      codes-at file b v b.offect (omega arith),
      ap code3 z,
      ap code4 z,
    )

pub Streams-mux :
    (this capacity fuel : ℕ) (units : List (List ℕ))
    → AllEmulationFree units
    → AllNonempty units
    → length (mux units) + 4 ≤ capacity
    → capacity < 2 ^ 62
    → length (mux units) < fuel
    → Streams (get_frame_from_file fuel) (construct this capacity (some (mux units))) units
Streams-mux this capacity fuel units free some_bytes room small h =
    let file = mux units in
    let b = construct this capacity (some file) in
    let o = offect-construct this capacity file in
    let v = construct-IsHeld this capacity file room small in
    let (b', got, end_at, reads, v', rest_zero) =
      get_frames_lem file fuel units b v (ap (λ (k : ℕ). drop k b.arr0) o ∙ v.bytes)
        (omega (arith, o)) free h in
    Reads-Streams (get_frame_from_file fuel) reads some_bytes
      (get_frame_at_end file fuel b' v' end_at rest_zero)

-- A source on a stream of units that puts the start code `0 0 0 1` before each of them, none of them
-- empty or holding `0 0 1`, and that with four bytes more fits a block of the ring buffer: after any
-- interleaving of the tasks of `CacheFrame` with the calls of `ReadFrame`, the frames returned so far,
-- those in the queue and some others are the units in order, at most 8 are in the queue or asked for, and
-- either a task or `ReadFrame` can go on, or all units have been returned and `ReadFrame` waits for ever.
-- Fuel beyond the length of the stream is enough.
pub Reach-mux :
    (this fuel : ℕ) (units : List (List ℕ)) (q : Queue RingBuffer)
    → AllEmulationFree units
    → AllNonempty units
    → length (mux units) + 4 ≤ max_buffer_size
    → length (mux units) < fuel
    → Reach (get_frame_from_file fuel) (construct this max_buffer_size (some (mux units))) q
    → ((others : List (List ℕ)) × (units ≡ q.delivered ++ (q.source.frames ++ others)))
      × (length q.source.frames + q.pending ≤ 8)
      × (((r : Queue RingBuffer) × Step (get_frame_from_file fuel) q r)
          ⊎ ((q.delivered ≡ units) × (take_frame q.source ≡ none)))
Reach-mux this fuel units q free some_bytes room h r =
    let streams =
      Streams-mux this max_buffer_size fuel units free some_bytes room (omega arith) h in
    let v = Reach-Follows (get_frame_from_file fuel) streams r in
    ((v.ahead, v.split), v.few, Reach-progress (get_frame_from_file fuel) streams r)
