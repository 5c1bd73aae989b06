-- ===== src/H264Source.antt =====
-- include/live/H264MediaSource.h and src/live/H264MediaSource.cpp: the NAL units of a byte stream,
-- cut out of the ring buffer at the start codes, and the queue of the units read ahead.
mod Tests
pub mod StartCode
pub mod RoundTrip
pub mod Streaming
use zrh_rtsp_server.Prelude.{
  ℕ, zero, suc, ◌+◌, Bool, true, false, Option, none, some, List, [], ◌∷◌, ◌++◌, ◌==◌,
  if◌then◌else◌,
}
use zrh_rtsp_server.RingBuffer.{
  RingBuffer, Iterator, begin, end, set_offect, dereference, ne, eq, increment, advance,
  get_data_between,
}
use zrh_rtsp_server.RingBuffer
use zrh_rtsp_server.FrameQueue
use zrh_rtsp_server.FrameQueue.{Source, Queue, max_buffer_size, run_cache_task, take_frame}
use zrh_rtsp_server.RingBuffer.Access.{M, pure, ◌>>=◌, read, plus, read_plus, next}

-- `&&` and `||`, whose second operand is run where the first decides nothing.
abbrev pub and_then : Bool → M Bool → M Bool
and_then c m b = elim c [ true ↦ m b | false ↦ some (false, b) ]

abbrev pub or_else : Bool → M Bool → M Bool
or_else c m b = elim c [ true ↦ some (true, b) | false ↦ m b ]

-- `startCode3` and `startCode4`.
unfoldable pub start_code3 : Iterator → M Bool
start_code3 it = do
  x ← read it
  and_then (x == 0)
      (do y ← read_plus it 1; and_then (y == 0) (do z ← read_plus it 2; pure (z == 1)))

unfoldable pub start_code4 : Iterator → M Bool
start_code4 it = do
  x ← read it
  and_then (x == 0) (do
    y ← read_plus it 1
    and_then (y == 0)
        (do z ← read_plus it 2; and_then (z == 0) (do w ← read_plus it 3; pure (w == 1))))

-- The loop of `GetFrameFromFile` that looks for the next start code.
unfoldable pub find_start_code : ℕ → Iterator → M Iterator
find_start_code zero it b = none
find_start_code (suc fuel) it b =
    let rest = (do it' ← next it; find_start_code fuel it') in
    if ne it (end b)
    then (do
      three ← start_code3 it
      found ← or_else three (start_code4 it)
      if found then pure it else rest)
        b
    else some (it, b)

-- What `GetFrameFromFile` does behind a start code of `off` bytes.
unfoldable pub frame_behind : ℕ → Iterator → ℕ → M (List ℕ)
frame_behind fuel it off = do
  it₁ ← plus it off
  it₂ ← find_start_code fuel it₁
  λ b.
      if eq it₂ (end b)
      then some ([], b)
      else let (from, b') = advance off (begin b, b) in
        elim (get_data_between from it₂ b') [
          | none ↦ none
          | some data_between ↦ some (data_between, set_offect b' it₂)
        ]

-- Its second test, where there is no start code of three bytes.
unfoldable pub frame_behind_4 : ℕ → Iterator → M (List ℕ)
frame_behind_4 fuel it = do four ← start_code4 it; if four then frame_behind fuel it 4 else pure []

-- `GetFrameFromFile`; no frame is the empty vector.
unfoldable pub get_frame_from_file : ℕ → M (List ℕ)
get_frame_from_file fuel b =
    let it = begin b in
    if eq it (end b)
    then some ([], b)
    else (do
      three ← start_code3 it
      if three then frame_behind fuel it 3 else frame_behind_4 fuel it)
        b

-- `H264_FRAME_FPS`.
abbrev pub h264_frame_fps : ℕ
h264_frame_fps = 25

-- The constructor, with the file's bytes: the ring buffer reads its first two blocks.
unfoldable pub new_queue : ℕ → Option (List ℕ) → Queue RingBuffer
new_queue this file = FrameQueue.construct (RingBuffer.construct this max_buffer_size file)

-- The task that `CacheFrame` enqueues, and `ReadFrame`.
unfoldable pub cache_task : ℕ → Source RingBuffer → Option (Source RingBuffer)
cache_task fuel = run_cache_task (get_frame_from_file fuel)

unfoldable pub read_frame : Source RingBuffer → Option (List ℕ × Source RingBuffer)
read_frame = take_frame
