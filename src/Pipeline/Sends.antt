-- ===== src/Pipeline/Sends.antt =====
-- A pipeline over any sink that sends each frame of a file without a fault.
use mathlib.Core.Path.{subst}
use zrh_rtsp_server.Prelude.{
  ℕ, suc, ◌≡◌, ◌≢◌, refl, ap, ◌∙◌, Option, some, List, [], ◌∷◌, ◌++◌, arith, Option-cases, inl, inr,
}
use zrh_rtsp_server.Sink.{handle_timeout}
use zrh_rtsp_server.FrameQueue.{
  Frame, Reader, Source, Queue, take_frame, construct, Reach, Streams, start, later,
}
use zrh_rtsp_server.FrameQueue
use zrh_rtsp_server.FrameQueue.Delivery.{Reach-Follows, take_frame_lem}
use zrh_rtsp_server.Pipeline.{Run, read_next}
use zrh_rtsp_server.Pipeline

-- What a sink promises: which frames it sends without a fault, from which states, and what it has then
-- sent of them.
pub record Sends {S : Type 0} (send : List ℕ → Frame → S → Option S) : Type 1 where
  pub IsGood : Frame → Type 0
  pub IsReady : S → Type 0
  pub HasSent : List Frame → S → Type 0
  pub some_bytes : (f : Frame) → IsGood f → f ≢ []
  pub sends :
      (s : S) (f : Frame) (stray : ℕ) (more : List ℕ)
      → IsReady s
      → IsGood f
      → (s' : S) × (send (stray ∷ more) f s ≡ some s')
        × IsReady s'
        × ((fs : List Frame) → HasSent fs s → HasSent (fs ++ f ∷ []) s')

abbrev pub All : (Frame → Type 0) → List Frame → Type 0
All P [] = Unit {0}
All P (f ∷ fs) = P f × All P fs

All-at :
    (P : Frame → Type 0) (before : List Frame) (f : Frame) (after : List Frame)
    → All P (before ++ f ∷ after)
    → P f
All-at P [] f after (u, us) = u
All-at P (g ∷ before) f after (u, us) = All-at P before f after us

read_next-Reach :
    {Buffer : Type 0} (get_frame : Reader Buffer) (b : Buffer) (q q' : Queue Buffer) (f : Frame)
    → Reach get_frame b q
    → read_next q ≡ some (f, q')
    → Reach get_frame b q'
      × ((source : Source Buffer) × (take_frame q.source ≡ some (f, source)))
      × (q'.delivered ≡ q.delivered ++ f ∷ [])
unfolding read_next
read_next-Reach get_frame b q q' f r run = elim (Option-cases (take_frame q.source)) [
  | inl e ↦ absurd (ground (arith, run, e))
  | inr ((g, source), e) ↦
      let next : Queue _ = record {
        source = source;
        pending = suc q.pending;
        delivered = q.delivered ++ g ∷ [];
      } in
      let same : q' ≡ next = ground (arith, run, e) in
      let frame : f ≡ g = ground (arith, run, e) in
      (rw same (later r (FrameQueue.Step.reads e)), (source, rw frame e), rw (same, frame) refl)
]

-- What a timeout does: it takes a frame, and sends it unless it is empty.
handle_timeout_lem :
    {Buffer S : Type 0} (send : Frame → S → Option S) (q q' : Queue Buffer) (s s' : S)
    → handle_timeout read_next send (q, s) ≡ some (q', s')
    → (f : Frame) × (read_next q ≡ some (f, q')) × ((f ≢ []) → send f s ≡ some s')
unfolding handle_timeout
handle_timeout_lem send q q' s s' run = elim (Option-cases (read_next q)) [
  | inl e ↦ absurd (ground (arith, run, e))
  | inr (([], q₁), e) ↦
      let same : q' ≡ q₁ = ground (arith, run, e) in
      ([], rw same e, λ some_bytes. absurd (some_bytes refl))
  | inr ((x ∷ xs, q₁), e) ↦ elim (Option-cases (send (x ∷ xs) s)) [
    | inl f ↦ absurd (ground (arith, run, e, f))
    | inr (s₁, f) ↦
        let same : q' ≡ q₁ = ground (arith, run, e, f) in
        let sent : s' ≡ s₁ = ground (arith, run, e, f) in
        (x ∷ xs, rw same e, λ some_bytes. rw sent f)
  ]
]

handle_timeout_sends :
    {Buffer S : Type 0} (send : Frame → S → Option S) (q : Queue Buffer) (s s' : S) (f : Frame)
    (source : Source Buffer)
    → take_frame q.source ≡ some (f, source)
    → f ≢ []
    → send f s ≡ some s'
    → handle_timeout read_next send (q, s)
      ≡ some (
        record { source = source; pending = suc q.pending; delivered = q.delivered ++ f ∷ [] },
        s',
      )
unfolding handle_timeout read_next
handle_timeout_sends send q s s' [] source front ne sent = absurd (ne refl)
handle_timeout_sends send q s s' (x ∷ xs) source front ne sent = ground (arith, front, sent)

module _ {Buffer S : Type 0} {send : List ℕ → Frame → S → Option S} (sink : Sends send)
    (get_frame : Reader Buffer) (frames : List Frame) (b : Buffer) (s₀ : S)
    (good : All sink.IsGood frames) (streams : Streams get_frame b frames) (ready : sink.IsReady s₀)
    (none_sent : sink.HasSent [] s₀) where
  -- What is known of a state of source and sink.
  pub record IsDelivered (q : Queue Buffer) (s : S) : Type 0 where
    pub reached : Reach get_frame b q
    pub ready_again : sink.IsReady s
    pub sent : sink.HasSent q.delivered s

  -- The frame at the front of the queue is one of the file.
  front-IsGood :
      (q : Queue Buffer) (f : Frame) (source : Source Buffer)
      → Reach get_frame b q
      → take_frame q.source ≡ some (f, source)
      → sink.IsGood f
  front-IsGood q f source r e =
      let v = Reach-Follows get_frame streams r in
      let (there, same) = take_frame_lem q.source source f e in
      All-at sink.IsGood q.delivered f (source.frames ++ v.ahead)
        (subst (All sink.IsGood) (v.split ∙ ap (λ ts. q.delivered ++ (ts ++ v.ahead)) there) good)

  pub Run-IsDelivered : {q : Queue Buffer} {s : S} → Run get_frame send b s₀ q s → IsDelivered q s
  unfolding construct
  Run-IsDelivered Pipeline.start = record { reached = start; ready_again = ready; sent = none_sent }
  Run-IsDelivered (Pipeline.caches r p run) =
      let d = Run-IsDelivered r in
      record {
        reached = later d.reached (FrameQueue.Step.caches p run);
        ready_again = d.ready_again;
        sent = d.sent;
      }
  Run-IsDelivered (Pipeline.timeout {q} {q'} {s} {s'} stray more r run) =
      let d = Run-IsDelivered r in
      let (f, taken, sent) = handle_timeout_lem (send (stray ∷ more)) q q' s s' run in
      let (reached, (source, front), delivered) =
        read_next-Reach get_frame b q q' f d.reached taken in
      let a_frame = front-IsGood q f source d.reached front in
      let (s₁, got, ready_again, more_sent) = sink.sends s f stray more d.ready_again a_frame in
      let same : s' ≡ s₁ = ground (arith, got, sent (sink.some_bytes f a_frame)) in
      record {
        reached = reached;
        ready_again = rw same ready_again;
        sent = rw (same, delivered) (more_sent q.delivered d.sent);
      }

  -- A timeout with a frame in the queue comes to its end.
  pub timeout_possible :
      (q : Queue Buffer) (s : S) (f : Frame) (source : Source Buffer) (stray : ℕ) (more : List ℕ)
      → IsDelivered q s
      → take_frame q.source ≡ some (f, source)
      → (q' : Queue Buffer) × (s' : S) × (handle_timeout read_next (send (stray ∷ more)) (q, s)
          ≡ some (q', s'))
  timeout_possible q s f source stray more d front =
      let a_frame = front-IsGood q f source d.reached front in
      let (s', got, ready_again, more_sent) = sink.sends s f stray more d.ready_again a_frame in
      (
        _,
        s',
        handle_timeout_sends (send (stray ∷ more)) q s s' f source front (sink.some_bytes f a_frame)
            got,
      )
