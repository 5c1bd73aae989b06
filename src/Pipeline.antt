-- ===== src/Pipeline.antt =====
-- A sink with its media source: the timer's `handleTimeout` of include/live/Sink.h takes a frame from the
-- queue of the source and sends it, between the tasks that read ahead.
mod AudioTests
mod Tests
pub mod Delivery
pub mod Live
pub mod Video
pub mod Audio
pub mod AudioLive
pub mod Broadcast
pub mod Clients
pub mod Sends
pub mod Simulation
use zrh_rtsp_server.Prelude.{ℕ, suc, ◌≡◌, Option, none, some, List, [], ◌∷◌, ◌++◌}
use zrh_rtsp_server.Sink.{handle_timeout}
use zrh_rtsp_server.FrameQueue.{Frame, Reader, Source, Queue, run_cache_task, take_frame, construct}

-- `ReadFrame` on a source at work: the frame is delivered and another one asked for.
unfoldable pub read_next : {Buffer : Type 0} → Queue Buffer → Option (Frame × Queue Buffer)
read_next q = elim (take_frame q.source) [
  | none ↦ none
  | some (frame, source) ↦ some (
    frame,
    record { source = source; pending = suc q.pending; delivered = q.delivered ++ frame ∷ [] },
  )
]

-- The states of source and sink, `send` being `sendFrame` with the bytes that lie in memory behind the
-- frame, of which there is one at least.
pub data Run {Buffer S : Type 0} (get_frame : Reader Buffer) (send : List ℕ → Frame → S → Option S)
    (b : Buffer) (s₀ : S) : Queue Buffer → S → Type 0 where
  start : Run get_frame send b s₀ (construct b) s₀
  caches :
      {q : Queue Buffer} {s : S} {n : ℕ} {source : Source Buffer}
      → Run get_frame send b s₀ q s
      → q.pending ≡ suc n
      → run_cache_task get_frame q.source ≡ some source
      → Run get_frame send b s₀ (record q { source = source; pending = n }) s
  timeout :
      {q q' : Queue Buffer} {s s' : S} (stray : ℕ) (more : List ℕ)
      → Run get_frame send b s₀ q s
      → handle_timeout read_next (send (stray ∷ more)) (q, s) ≡ some (q', s')
      → Run get_frame send b s₀ q' s'
