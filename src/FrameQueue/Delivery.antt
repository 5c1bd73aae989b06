-- ===== src/FrameQueue/Delivery.antt =====
-- Whatever the interleaving of the workers with the reader, the frames come in the order of the file.
use zrh_rtsp_server.Prelude.{
  ℕ, suc, ◌+◌, ◌≤◌, ◌≡◌, ◌≢◌, refl, sym, ap, ◌∙◌, ◌⊎◌, inl, inr, none, some, List, [], ◌∷◌, ◌++◌,
  append_assoc, append-nil, length, length-append, arith, List-cases, ℕ-cases,
}
use zrh_rtsp_server.FrameQueue.{
  Frame, Reader, Source, max_frame_size, run_cache_task, take_frame, Queue, construct, Step, caches,
  reads, Reach, start, later, Streams, ended, frame,
}

module _ {Buffer : Type 0} where
  pub take_frame_lem :
      (s s' : Source Buffer) (f : Frame)
      → take_frame s ≡ some (f, s')
      → (s.frames ≡ f ∷ s'.frames) × (s'.ring_buffer ≡ s.ring_buffer)
  unfolding take_frame
  take_frame_lem s s' f e = elim (List-cases s.frames) [
    | inl none_there ↦ absurd (ground (arith, none_there, e))
    | inr (g, rest, there) ↦ ground (arith, there, e)
  ]

  take_possible :
      (s : Source Buffer) (f : Frame) (rest : List Frame)
      → s.frames ≡ f ∷ rest
      → take_frame s ≡ some (f, record s { frames = rest })
  unfolding take_frame
  take_possible s f rest e = ground (arith, e)

  take_blocked : (s : Source Buffer) → s.frames ≡ [] → take_frame s ≡ none
  unfolding take_frame
  take_blocked s e = ground (arith, e)

module _ {Buffer : Type 0} (get_frame : Reader Buffer) where
  -- A task that runs on a buffer with frames ahead.
  pub run_cache_task_frame :
      (s : Source Buffer) (f : Frame) (b : Buffer)
      → f ≢ []
      → get_frame s.ring_buffer ≡ some (f, b)
      → run_cache_task get_frame s ≡ some (record { ring_buffer = b; frames = s.frames ++ f ∷ [] })
  unfolding run_cache_task
  run_cache_task_frame s [] b h e = absurd (h refl)
  run_cache_task_frame s (x ∷ xs) b h e = ground (arith, e)

  pub run_cache_task_ended :
      (s : Source Buffer)
      → get_frame s.ring_buffer ≡ some ([], s.ring_buffer)
      → run_cache_task get_frame s ≡ some s
  unfolding run_cache_task
  run_cache_task_ended s e = ground (arith, e)

  pub cache_possible :
      {b : Buffer} {ahead : List Frame} (s : Source Buffer)
      → Streams get_frame b ahead
      → b ≡ s.ring_buffer
      → (s' : Source Buffer) × (run_cache_task get_frame s ≡ some s')
  cache_possible s (ended e) same = (s, run_cache_task_ended s (rw same at e))
  cache_possible s (frame {b' = b'} {f = f} some_bytes e more) same =
      (_, run_cache_task_frame s f b' some_bytes (rw same at e))

-- A state against the abstract one, the frames of the file in order: those delivered, those in the
-- queue, and those ahead in the buffer.
pub record Follows {Buffer : Type 0} (get_frame : Reader Buffer) (fs : List Frame)
    (q : Queue Buffer) : Type 0 where
  pub ahead : List Frame
  pub split : fs ≡ q.delivered ++ (q.source.frames ++ ahead)
  pub streams : Streams get_frame q.source.ring_buffer ahead
  pub few : length q.source.frames + q.pending ≤ max_frame_size
  pub full : (ahead ≡ []) ⊎ (length q.source.frames + q.pending ≡ max_frame_size)

module _ {Buffer : Type 0} (get_frame : Reader Buffer) {fs : List Frame} where
  cached :
      (q : Queue Buffer) (n : ℕ) (source : Source Buffer) (b : Buffer) (ahead : List Frame)
      → q.pending ≡ suc n
      → b ≡ q.source.ring_buffer
      → run_cache_task get_frame q.source ≡ some source
      → fs ≡ q.delivered ++ (q.source.frames ++ ahead)
      → Streams get_frame b ahead
      → length q.source.frames + q.pending ≤ max_frame_size
      → (ahead ≡ []) ⊎ (length q.source.frames + q.pending ≡ max_frame_size)
      → Follows get_frame fs (record q { source = source; pending = n })
  cached q n source b [] p same run split (Streams.ended e) few full =
      let unchanged : source ≡ q.source =
        ground (arith, run, run_cache_task_ended get_frame q.source (rw same at e)) in
      rw unchanged (record {
        ahead = [];
        split = split;
        streams = ended (rw same at e);
        few = omega arith;
        full = inl refl;
      })
  cached q n source b (f ∷ rest) p same run split (frame {b' = b'} some_bytes e more) few full =
      let grown : source ≡ record { ring_buffer = b'; frames = q.source.frames ++ f ∷ [] } =
        ground
          (arith, run, run_cache_task_frame get_frame q.source f b' some_bytes (rw same at e)) in
      rw grown (record {
        ahead = rest;
        split =
            split ∙ ap (λ ts. q.delivered ++ ts) (sym (append_assoc q.source.frames (f ∷ []) rest));
        streams = more;
        few = omega (arith, length-append q.source.frames (f ∷ []));
        full = elim full [
          | inl none_left ↦ absurd (ground (arith, none_left))
          | inr all_out ↦ inr (omega (arith, all_out, length-append q.source.frames (f ∷ [])))
        ];
      })

  Step-Follows :
      {q r : Queue Buffer} → Step get_frame q r → Follows get_frame fs q → Follows get_frame fs r
  Step-Follows {q} (caches {n} {source} p run) v =
      cached q n source q.source.ring_buffer v.ahead p refl run v.split v.streams v.few v.full
  Step-Follows {q} (reads {frame = f} {source = s} e) v =
      let (there, same) = take_frame_lem q.source s f e in
      record {
        ahead = v.ahead;
        split =
            v.split
            ∙ ap (λ ts. q.delivered ++ (ts ++ v.ahead)) there
            ∙ sym (append_assoc q.delivered (f ∷ []) (s.frames ++ v.ahead));
        streams = rw same v.streams;
        few = omega (arith, v.few, ap length there);
        full = elim v.full [
          | inl none_left ↦ inl none_left
          | inr all_out ↦ inr (omega (arith, all_out, ap length there))
        ];
      }

  -- The queue implements the abstract reader of a file: in every state that the interleavings of the
  -- tasks and of `ReadFrame` lead to, the frames delivered, then those in the queue, then those ahead in
  -- the buffer are the frames of the file in order, and no more than 8 are in the queue or asked for.
  pub Reach-Follows :
      {b : Buffer} {q : Queue Buffer}
      → Streams get_frame b fs
      → Reach get_frame b q
      → Follows get_frame fs q
  unfolding construct
  Reach-Follows streams start = record {
    ahead = fs;
    split = refl;
    streams = streams;
    few = omega arith;
    full = inr refl;
  }
  Reach-Follows streams (later r st) = Step-Follows st (Reach-Follows streams r)

  -- `ReadFrame` waits for ever only at the end of the file: in every such state, a step is possible, or
  -- every frame of the file has been delivered, and then `ReadFrame` does not return.
  pub Reach-progress :
      {b : Buffer} {q : Queue Buffer}
      → Streams get_frame b fs
      → Reach get_frame b q
      → ((r : Queue Buffer) × Step get_frame q r)
        ⊎ ((q.delivered ≡ fs) × (take_frame q.source ≡ none))
  Reach-progress {q = q} streams r =
      let v = Reach-Follows streams r in
      elim (List-cases q.source.frames) [
        | inr (f, rest, e) ↦ inl (_, reads (take_possible q.source f rest e))
        | inl empty ↦ elim (ℕ-cases q.pending) [
          | inr (n, p) ↦
              let (s, run) = cache_possible get_frame q.source v.streams refl in
              inl (_, caches p run)
          | inl none_pending ↦
              let none_ahead : v.ahead ≡ [] = elim v.full [
                | inl e ↦ e
                | inr all_out ↦ absurd (omega (arith, all_out, none_pending, ap length empty))
              ] in
              inr (
                sym (v.split ∙ rw (empty, none_ahead) (append-nil q.delivered)),
                take_blocked q.source empty,
              )
        ]
      ]
