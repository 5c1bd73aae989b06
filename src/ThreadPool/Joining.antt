-- ===== src/ThreadPool/Joining.antt =====
-- The destructor comes to its end: its workers' steps run out, and leave nothing undone.
use mathlib.Core.List.{Perm}
use zrh_rtsp_server.Prelude.{
  ℕ, ◌≡◌, ◌+◌, ◌*◌, ◌≤◌, ◌<◌, refl, ap, ◌∙◌, Bool, true, false, not, List, [], ◌∷◌, ◌++◌, map,
  if◌then◌else◌, length, suc, arith, Bool-cases, ℕ-cases, inl, inr, ◌⊎◌, length-append,
}
use zrh_rtsp_server.ThreadPool.{
  Worker, testing, asleep, running, returned, ThreadPool, take_task, taken, destroy, notify_all,
  wake, Move, takes, ends, one, nobody, all, Step, move, notification, destroys, Reach, later,
  every_worker, is_asleep, no_asleep,
}
use zrh_rtsp_server.ThreadPool.Wakeup.{is_still, is_returned, IsQuiet, Reach-quiet}

module _ {T : Type 0} where
  abbrev work : Worker T → ℕ
  work testing = 1
  work (running task) = 2
  work w = 0

  abbrev pub work_of : List (Worker T) → ℕ
  work_of [] = 0
  work_of (w ∷ ws) = work w + work_of ws

  work_of_at :
      (before : List (Worker T)) (w : Worker T) (after : List (Worker T))
      → work_of (before ++ w ∷ after) ≡ work_of before + work w + work_of after
  work_of_at [] w after = omega arith
  work_of_at (x ∷ xs) w after = omega (arith, work_of_at xs w after)

  work_of-wake : (ws : List (Worker T)) → work_of (map wake ws) ≤ work_of ws + length ws
  work_of-wake [] = omega arith
  work_of-wake (testing ∷ ws) = omega (arith, work_of-wake ws)
  work_of-wake (asleep ∷ ws) = omega (arith, work_of-wake ws)
  work_of-wake (returned ∷ ws) = omega (arith, work_of-wake ws)
  work_of-wake (running task ∷ ws) = omega (arith, work_of-wake ws)

  -- The steps that are left at most.
  abbrev pub measure : ThreadPool T → ℕ
  measure s =
      2 * length s.tasks
      + work_of s.workers
      + 2 * s.notifying
      + (if s.notifying_all then suc (length s.workers) else 0)

-- The steps that are neither a new task, nor the destructor, nor a wake-up out of nothing.
pub data OwnStep {T : Type 0} (s : ThreadPool T) : ThreadPool T → Type 0 where
  own_move : {t : ThreadPool T} → Move s t → OwnStep s t
  own_one :
      {n : ℕ} (before after : List (Worker T))
      → s.notifying ≡ suc n
      → s.workers ≡ before ++ asleep ∷ after
      → OwnStep s (record s { notifying = n; workers = before ++ testing ∷ after })
  own_nobody :
      {n : ℕ}
      → s.notifying ≡ suc n
      → no_asleep s.workers ≡ true
      → OwnStep s (record s { notifying = n })
  own_all : s.notifying_all ≡ true → OwnStep s (notify_all s)

module _ {T : Type 0} where
  taken-measure :
      (s : ThreadPool T) (before after : List (Worker T)) (tasks : List T) (stop : Bool)
      → s.workers ≡ before ++ testing ∷ after
      → s.tasks ≡ tasks
      → measure
          (record (taken tasks stop s).1 { workers = before ++ (taken tasks stop s).0 ∷ after })
        < measure s
  taken-measure s before after [] true e q = ground (
    arith,
    e,
    q,
    work_of_at before testing after,
    work_of_at before returned after,
    length-append before (testing ∷ after),
    length-append before (returned ∷ after),
  )
  taken-measure s before after [] false e q = ground (
    arith,
    e,
    q,
    work_of_at before testing after,
    work_of_at before asleep after,
    length-append before (testing ∷ after),
    length-append before (asleep ∷ after),
  )
  taken-measure s before after (task ∷ rest) stop e q = ground (
    arith,
    e,
    q,
    work_of_at before testing after,
    work_of_at before (running task) after,
    length-append before (testing ∷ after),
    length-append before (running task ∷ after),
  )

  -- Every such step leaves fewer to come.
  pub OwnStep-measure : {s t : ThreadPool T} → OwnStep s t → measure t < measure s
  unfolding take_task notify_all
  OwnStep-measure {s} (own_move (takes before after e)) =
      taken-measure s before after s.tasks s.stop e refl
  OwnStep-measure {s} (own_move (ends before after task e)) = ground (
    arith,
    e,
    work_of_at before testing after,
    work_of_at before (running task) after,
    length-append before (testing ∷ after),
    length-append before (running task ∷ after),
  )
  OwnStep-measure {s} (own_one before after n e) = ground (
    arith,
    e,
    n,
    work_of_at before testing after,
    work_of_at before asleep after,
    length-append before (testing ∷ after),
    length-append before (asleep ∷ after),
  )
  OwnStep-measure {s} (own_nobody n e) = ground (arith, n)
  OwnStep-measure {s} (own_all e) = ground (arith, e, work_of-wake s.workers)

  OwnStep-Step : {s t : ThreadPool T} → OwnStep s t → Step s t
  OwnStep-Step (own_move m) = move m
  OwnStep-Step (own_one before after n e) = notification (one before after n e)
  OwnStep-Step (own_nobody n e) = notification (nobody n e)
  OwnStep-Step (own_all e) = notification (all e)

  find_worker :
      (p : Worker T → Bool) (ws : List (Worker T))
      → every_worker p ws ≡ false
      → (before : List (Worker T)) × (w : Worker T) × (after : List (Worker T)) × (ws
          ≡ before ++ w ∷ after)
        × (p w ≡ false)
  find_worker p [] h = absurd (ground arith)
  find_worker p (w ∷ ws) h = elim (Bool-cases (p w)) [
    | inl good ↦
        let (before, v, after, e, bad) = find_worker p ws (ground (arith, good, h)) in
        (w ∷ before, v, after, ap (◌∷◌ w) e, bad)
    | inr bad ↦ ([], w, ws, refl, bad)
  ]

  moving_step :
      (s : ThreadPool T) (before : List (Worker T)) (w : Worker T) (after : List (Worker T))
      → s.workers ≡ before ++ w ∷ after
      → is_still w ≡ false
      → (t : ThreadPool T) × OwnStep s t
  moving_step s before testing after e m = (_, own_move (takes before after e))
  moving_step s before (running task) after e m = (_, own_move (ends before after task e))
  moving_step s before asleep after e m = absurd (ground arith)
  moving_step s before returned after e m = absurd (ground arith)

  asleep_step :
      (s : ThreadPool T) (n : ℕ) (before : List (Worker T)) (w : Worker T) (after : List (Worker T))
      → s.notifying ≡ suc n
      → s.workers ≡ before ++ w ∷ after
      → not (is_asleep w) ≡ false
      → (t : ThreadPool T) × OwnStep s t
  asleep_step s n before asleep after k e m = (_, own_one before after k e)
  asleep_step s n before testing after k e m = absurd (ground arith)
  asleep_step s n before returned after k e m = absurd (ground arith)
  asleep_step s n before (running task) after k e m = absurd (ground arith)

  notify_step : (s : ThreadPool T) (n : ℕ) → s.notifying ≡ suc n → (t : ThreadPool T) × OwnStep s t
  notify_step s n k = elim (Bool-cases (no_asleep s.workers)) [
    | inl none_asleep ↦ (_, own_nobody k none_asleep)
    | inr found ↦
        let (before, w, after, e, m) = find_worker (λ w. not (is_asleep w)) s.workers found in
        asleep_step s n before w after k e m
  ]

  -- A state is quiet, or such a step is possible.
  pub IsQuiet-or_step : (s : ThreadPool T) → IsQuiet s ⊎ ((t : ThreadPool T) × OwnStep s t)
  IsQuiet-or_step s = elim (Bool-cases (every_worker is_still s.workers)) [
    | inr m ↦
        let (before, w, after, e, moves) = find_worker is_still s.workers m in
        inr (moving_step s before w after e moves)
    | inl still ↦ elim (Bool-cases s.notifying_all) [
      | inl k ↦ inr (_, own_all k)
      | inr all_notified ↦ elim (ℕ-cases s.notifying) [
        | inl notified ↦
            inl (record { still = still; notified = notified; all_notified = all_notified })
        | inr (n, k) ↦ inr (notify_step s n k)
      ]
    ]
  ]

-- So many such steps.
pub data Run {T : Type 0} : ℕ → ThreadPool T → ThreadPool T → Type 0 where
  halt : {s : ThreadPool T} → Run 0 s s
  on : {n : ℕ} {s t u : ThreadPool T} → OwnStep s t → Run n t u → Run (suc n) s u

module _ {T : Type 0} where
  Run-measure : {n : ℕ} {s t : ThreadPool T} → Run n s t → n + measure t ≤ measure s
  Run-measure halt = omega arith
  Run-measure (on st r) = omega (arith, OwnStep-measure st, Run-measure r)

  Run-Reach : {threads n : ℕ} {s t : ThreadPool T} → Reach threads s → Run n s t → Reach threads t
  Run-Reach r halt = r
  Run-Reach r (on st more) = Run-Reach (later r (OwnStep-Step st)) more

module _ {T : Type 0} where
  taken-keeps :
      (tasks : List T) (stop : Bool) (s : ThreadPool T)
      → ((taken tasks stop s).1.stop ≡ s.stop) × ((taken tasks stop s).1.accepted ≡ s.accepted)
  taken-keeps [] true s = (refl, refl)
  taken-keeps [] false s = (refl, refl)
  taken-keeps (task ∷ rest) stop s = (refl, refl)

  OwnStep-keeps : {s t : ThreadPool T} → OwnStep s t → (t.stop ≡ s.stop) × (t.accepted ≡ s.accepted)
  unfolding take_task notify_all
  OwnStep-keeps {s} (own_move (takes before after e)) = taken-keeps s.tasks s.stop s
  OwnStep-keeps (own_move (ends before after task e)) = (refl, refl)
  OwnStep-keeps (own_one before after n e) = (refl, refl)
  OwnStep-keeps (own_nobody n e) = (refl, refl)
  OwnStep-keeps (own_all e) = (refl, refl)

  Run-keeps :
      {n : ℕ} {s t : ThreadPool T} → Run n s t → (t.stop ≡ s.stop) × (t.accepted ≡ s.accepted)
  Run-keeps halt = (refl, refl)
  Run-keeps (on st r) =
      let (stop, accepted) = OwnStep-keeps st in
      let (stop', accepted') = Run-keeps r in (stop' ∙ stop, accepted' ∙ accepted)

-- The destructor joins. From any state that a pool of at least one worker comes to, once the destructor
-- has set `stop_`, no schedule makes more steps than `measure` says (tasks end, and wake-ups out of
-- nothing are left aside); and where a schedule has come to, either a further step is possible, or every
-- worker has returned and all tasks that were ever accepted have been finished, each as often as it was
-- accepted.
pub destroy-joins :
    {T : Type 0} {threads n : ℕ} {s t : ThreadPool T}
    → 0 < threads
    → Reach threads s
    → Run n (destroy s) t
    → (n ≤ measure (destroy s))
      × (((u : ThreadPool T) × OwnStep t u)
          ⊎ ((every_worker is_returned t.workers ≡ true) × Perm t.finished s.accepted))
unfolding destroy
destroy-joins {s} {t} few r run = (
  omega (arith, Run-measure run),
  elim (IsQuiet-or_step t) [
    | inr further ↦ inl further
    | inl quiet ↦
        let (stop, accepted) = Run-keeps run in
        let (empty, finished, joined) = Reach-quiet few (Run-Reach (later r destroys) run) quiet in
        inr (elim joined [
          | inl going ↦ absurd (ground (arith, going, stop))
          | inr all_back ↦ (all_back, rw accepted at finished)
        ])
  ],
)
