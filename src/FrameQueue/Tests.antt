-- ===== src/FrameQueue/Tests.antt =====
-- Two files of which one frame has been read.
use zrh_rtsp_server.Prelude.{
  ℕ, ◌≡◌, ◌≤◌, ◌+◌, refl, ◌⊎◌, none, some, List, [], ◌∷◌, ◌++◌, arith, length,
}
use zrh_rtsp_server.RingBuffer.{RingBuffer}
use zrh_rtsp_server.RingBuffer
use zrh_rtsp_server.FrameQueue.{
  Frame, Reader, Queue, run_cache_task, take_frame, Step, caches, reads, Reach, start, later,
  Streams, ended, construct, max_buffer_size,
}
use zrh_rtsp_server.FrameQueue.Delivery.{Follows, Reach-Follows}
use zrh_rtsp_server.H264Source.{get_frame_from_file}
use zrh_rtsp_server.H264Source.RoundTrip.{mux}
use zrh_rtsp_server.H264Source.Streaming.{Reach-mux}

-- A reader of a file that is a list of frames.
abbrev listed : Reader (List Frame)
listed [] = some ([], [])
listed (f ∷ fs) = some (f, fs)

abbrev file : List Frame
file = (1 ∷ []) ∷ (2 ∷ 3 ∷ []) ∷ []

file-Streams : Streams listed file file
file-Streams = Streams.frame (ground arith) refl (Streams.frame (ground arith) refl (ended refl))

abbrev after_one : Queue (List Frame)
after_one = record {
  source = record { ring_buffer = (2 ∷ 3 ∷ []) ∷ []; frames = [] };
  pending = 8;
  delivered = (1 ∷ []) ∷ [];
}

after_one-Reach : Reach listed file after_one
unfolding construct run_cache_task take_frame
after_one-Reach =
    later
      (later
        {r = record {
          source = record { ring_buffer = (2 ∷ 3 ∷ []) ∷ []; frames = (1 ∷ []) ∷ [] };
          pending = 7;
          delivered = [];
        }}
        start
        (caches {source = record { ring_buffer = (2 ∷ 3 ∷ []) ∷ []; frames = (1 ∷ []) ∷ [] }} refl
          refl))
      (reads refl)

Reach-Follows_example : Follows listed file after_one
Reach-Follows_example = Reach-Follows listed file-Streams after_one-Reach

abbrev units : List (List ℕ)
units = (103 ∷ 0 ∷ []) ∷ (104 ∷ 1 ∷ []) ∷ []

Reach-mux_example :
    let b = RingBuffer.construct 1 max_buffer_size (some (mux units)) in
    let q = construct b in
    ((others : List (List ℕ)) × (units ≡ q.delivered ++ (q.source.frames ++ others)))
    × (length q.source.frames + q.pending ≤ 8)
    × (((r : Queue RingBuffer) × Step (get_frame_from_file 13) q r)
        ⊎ ((q.delivered ≡ units) × (take_frame q.source ≡ none)))
Reach-mux_example =
    Reach-mux 1 13 units (construct (RingBuffer.construct 1 max_buffer_size (some (mux units))))
      (ground arith) (ground arith, (ground arith, tt)) (omega arith) (omega arith) start
