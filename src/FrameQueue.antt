-- ===== src/FrameQueue.antt =====
-- The queue of frames read ahead, which src/live/H264MediaSource.cpp and src/live/AACMediaSource.cpp
-- have in the same words: `CacheFrame` gives a task to the thread pool that reads one frame of the
-- file, and `ReadFrame` takes a frame and asks for another. Both hold the source's mutex, so each is one
-- step; the tasks of one source are alike, so those not run yet are counted.
pub mod Delivery
mod Tests
use zrh_rtsp_server.Prelude.{
  ℕ, zero, suc, ◌+◌, ◌*◌, ◌≡◌, ◌≢◌, Bool, true, false, Option, none, some, List, [], ◌∷◌, ◌++◌,
  if◌then◌else◌,
}

abbrev pub Frame : Type 0
Frame = List ℕ

-- The reader of a file: `ring_buffer_`, and `GetFrameFromFile` on it; `none` is a fault.
abbrev pub Reader : Type 0 → Type 0
Reader Buffer = Buffer → Option (Frame × Buffer)

pub record Source (Buffer : Type 0) : Type 0 where
  pub ring_buffer : Buffer
  pub frames : List Frame

-- `MAX_BUFFER_SIZE` of include/live/MediaSource.h, the capacity of either source's ring buffer.
abbrev pub max_buffer_size : ℕ
max_buffer_size = 1024 * 1024

-- `max_frame_size_`.
abbrev pub max_frame_size : ℕ
max_frame_size = 8

-- `frame.size() > 0`.
abbrev pub is_empty : Frame → Bool
is_empty [] = true
is_empty (x ∷ xs) = false

-- The task that `CacheFrame` enqueues.
unfoldable pub run_cache_task :
    {Buffer : Type 0} → Reader Buffer → Source Buffer → Option (Source Buffer)
run_cache_task get_frame s = elim (get_frame s.ring_buffer) [
  | none ↦ none
  | some (frame, b) ↦
      if is_empty frame
      then some (record s { ring_buffer = b })
      else some (record { ring_buffer = b; frames = s.frames ++ frame ∷ [] })
]

abbrev pub pop_front : List Frame → Option (Frame × List Frame)
pop_front [] = none
pop_front (frame ∷ rest) = some (frame, rest)

-- `ReadFrame` up to `lock.unlock()`; `none` is where it waits for a frame.
unfoldable pub take_frame : {Buffer : Type 0} → Source Buffer → Option (Frame × Source Buffer)
take_frame s = elim (pop_front s.frames) [
  | none ↦ none
  | some (frame, rest) ↦ some (frame, record s { frames = rest })
]

-- A source at work: `pending` tasks have been enqueued and not yet run, `delivered` is what `ReadFrame`
-- has returned so far.
pub record Queue (Buffer : Type 0) : Type 0 where
  pub source : Source Buffer
  pub pending : ℕ
  pub delivered : List Frame

-- The constructor: `CacheFrame` so many times.
unfoldable pub construct : {Buffer : Type 0} → Buffer → Queue Buffer
construct b = record {
  source = record { ring_buffer = b; frames = [] };
  pending = max_frame_size;
  delivered = [];
}

pub data Step {Buffer : Type 0} (get_frame : Reader Buffer) (q : Queue Buffer)
    : Queue Buffer → Type 0 where
  caches :
      {n : ℕ} {source : Source Buffer}
      → q.pending ≡ suc n
      → run_cache_task get_frame q.source ≡ some source
      → Step get_frame q (record q { source = source; pending = n })
  reads :
      {frame : Frame} {source : Source Buffer}
      → take_frame q.source ≡ some (frame, source)
      → Step get_frame q (record {
        source = source;
        pending = suc q.pending;
        delivered = q.delivered ++ frame ∷ [];
      })

pub data Reach {Buffer : Type 0} (get_frame : Reader Buffer) (b : Buffer)
    : Queue Buffer → Type 0 where
  start : Reach get_frame b (construct b)
  later : {q r : Queue Buffer} → Reach get_frame b q → Step get_frame q r → Reach get_frame b r

-- What a reader promises, whatever its file format: the frames, none of them empty, and then no frame
-- any more, however often it is asked.
pub data Streams {Buffer : Type 0} (get_frame : Reader Buffer) : Buffer → List Frame → Type 0 where
  ended : {b : Buffer} → get_frame b ≡ some ([], b) → Streams get_frame b []
  frame :
      {b b' : Buffer} {f : Frame} {fs : List Frame}
      → f ≢ []
      → get_frame b ≡ some (f, b')
      → Streams get_frame b' fs
      → Streams get_frame b (f ∷ fs)

-- The frames that a reader gives one after the other, and the buffer behind them.
pub data Reads {Buffer : Type 0} (get_frame : Reader Buffer)
    : Buffer → List Frame → Buffer → Type 0 where
  none_read : {b : Buffer} → Reads get_frame b [] b
  then_read :
      {b b' b'' : Buffer} {f : Frame} {fs : List Frame}
      → get_frame b ≡ some (f, b')
      → Reads get_frame b' fs b''
      → Reads get_frame b (f ∷ fs) b''

abbrev pub AllNonempty : List Frame → Type 0
AllNonempty [] = Unit {0}
AllNonempty (f ∷ fs) = (f ≢ []) × AllNonempty fs

pub Reads-Streams :
    {Buffer : Type 0} (get_frame : Reader Buffer) {b b' : Buffer} {fs : List Frame}
    → Reads get_frame b fs b'
    → AllNonempty fs
    → get_frame b' ≡ some ([], b')
    → Streams get_frame b fs
Reads-Streams get_frame none_read some_bytes e = ended e
Reads-Streams get_frame (then_read g r) some_bytes e =
    Streams.frame some_bytes.0 g (Reads-Streams get_frame r some_bytes.1 e)
