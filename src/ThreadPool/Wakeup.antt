-- ===== src/ThreadPool/Wakeup.antt =====
-- The condition variable loses no task: where nothing moves, nothing is left to do.
use zrh_rtsp_server.Prelude.{
  ℕ, ◌≡◌, ◌≢◌, ◌<◌, refl, sym, ap, ◌∙◌, Bool, true, false, not, ◌&&◌, List, [], ◌∷◌, ◌++◌, map,
  replicate, length, zero, suc, arith, Bool-cases, List-cases, inl, inr, ◌⊎◌, length-replicate,
  append-nil, length-append,
}
use zrh_rtsp_server.ThreadPool.{
  Worker, testing, asleep, running, returned, ThreadPool, construct, take_task, taken, destroy,
  notify_all, wake, takes, ends, one, nobody, all, spurious, Step, move, notification, enqueues,
  destroys, Reach, start, later, every_worker, is_asleep, no_asleep,
}
use zrh_rtsp_server.ThreadPool.Order.{enqueue_lem, in_progress, Reach-IsOrdered}
use mathlib.Core.List.{Perm}

abbrev pub is_returned : {T : Type 0} → Worker T → Bool
is_returned returned = true
is_returned w = false

-- A worker that does not move by itself.
abbrev pub is_still : {T : Type 0} → Worker T → Bool
is_still asleep = true
is_still returned = true
is_still w = false

abbrev nobody_returned : {T : Type 0} → List (Worker T) → Bool
nobody_returned = every_worker (λ w. not (is_returned w))

module _ {T : Type 0} where
  pub every_worker_at :
      (p : Worker T → Bool) (before : List (Worker T)) (w : Worker T) (after : List (Worker T))
      → every_worker p (before ++ w ∷ after)
        ≡ (every_worker p before && (p w && every_worker p after))
  every_worker_at p [] w after = refl
  every_worker_at p (x ∷ xs) w after = ground (arith, every_worker_at p xs w after)

  every_worker-wake :
      (p : Worker T → Bool) (ws : List (Worker T))
      → p asleep ≡ p testing
      → every_worker p (map wake ws) ≡ every_worker p ws
  every_worker-wake p [] h = refl
  every_worker-wake p (testing ∷ ws) h = ground (arith, every_worker-wake p ws h)
  every_worker-wake p (asleep ∷ ws) h = ground (arith, every_worker-wake p ws h)
  every_worker-wake p (returned ∷ ws) h = ground (arith, every_worker-wake p ws h)
  every_worker-wake p (running task ∷ ws) h = ground (arith, every_worker-wake p ws h)

  no_asleep-wake : (ws : List (Worker T)) → no_asleep (map wake ws) ≡ true
  no_asleep-wake [] = refl
  no_asleep-wake (testing ∷ ws) = no_asleep-wake ws
  no_asleep-wake (asleep ∷ ws) = no_asleep-wake ws
  no_asleep-wake (returned ∷ ws) = no_asleep-wake ws
  no_asleep-wake (running task ∷ ws) = no_asleep-wake ws

  still-wake :
      (ws : List (Worker T))
      → every_worker is_still ws ≡ false
      → every_worker is_still (map wake ws) ≡ false
  still-wake [] h = h
  still-wake (testing ∷ ws) h = refl
  still-wake (asleep ∷ ws) h = refl
  still-wake (returned ∷ ws) h = still-wake ws h
  still-wake (running task ∷ ws) h = refl

  length-wake : (ws : List (Worker T)) → length (map wake ws) ≡ length ws
  length-wake [] = refl
  length-wake (w ∷ ws) = ap suc (length-wake ws)

  -- Workers of which none is asleep and none has returned move.
  moving :
      (ws : List (Worker T))
      → 0 < length ws
      → no_asleep ws ≡ true
      → nobody_returned ws ≡ true
      → every_worker is_still ws ≡ false
  moving [] few a r = absurd (omega arith)
  moving (testing ∷ ws) few a r = refl
  moving (asleep ∷ ws) few a r = ground arith
  moving (returned ∷ ws) few a r = ground arith
  moving (running task ∷ ws) few a r = refl

pub record IsAttended {T : Type 0} (s : ThreadPool T) : Type 0 where
  pub some_worker : 0 < length s.workers
  pub awake : s.tasks ≢ [] → s.notifying ≡ 0 → every_worker is_still s.workers ≡ false
  pub closing : s.stop ≡ true → s.notifying_all ≡ false → no_asleep s.workers ≡ true
  pub left : nobody_returned s.workers ≡ false → (s.stop ≡ true) × (s.tasks ≡ [])

module _ {T : Type 0} {s : ThreadPool T} (attended : IsAttended s)
    (before after : List (Worker T)) where
  abbrev at : Worker T → List (Worker T)
  at w = before ++ w ∷ after

  length-at : (w w' : Worker T) → length (at w) ≡ length (at w')
  length-at w w' =
      omega (arith, length-append before (w ∷ after), length-append before (w' ∷ after))

  every_at :
      (p : Worker T → Bool) (w w' : Worker T)
      → s.workers ≡ at w
      → p w ≡ p w'
      → every_worker p (at w') ≡ every_worker p s.workers
  every_at p w w' e same =
      every_worker_at p before w' after
      ∙ ap (λ b. every_worker p before && (b && every_worker p after)) (sym same)
      ∙ sym (every_worker_at p before w after)
      ∙ ap (every_worker p) (sym e)

  moves_at : (w : Worker T) → is_still w ≡ false → every_worker is_still (at w) ≡ false
  moves_at w h = ground (arith, every_worker_at is_still before w after)

  some_worker_at : (w w' : Worker T) → s.workers ≡ at w → 0 < length (at w')
  some_worker_at w w' e = omega (arith, attended.some_worker, ap length e, length-at w w')

  -- A worker that moves, and neither falls asleep nor returns, leaves the rest as it was.
  stays-IsAttended :
      (w w' : Worker T)
      → s.workers ≡ at w
      → is_returned w ≡ is_returned w'
      → is_asleep w' ≡ false
      → is_still w' ≡ false
      → (is_asleep w ≡ false) ⊎ (is_asleep w ≡ true)
      → IsAttended (record s { workers = at w' })
  stays-IsAttended w w' e r a m was = record {
    some_worker = some_worker_at w w' e;
    awake = λ h n. moves_at w' m;
    closing = λ st n. elim was [
      | inl awake ↦
          every_at (λ v. not (is_asleep v)) w w' e (ap not (awake ∙ sym a)) ∙ attended.closing st n
      | inr sleeping ↦ absurd (
          ground (
            arith,
            attended.closing st n,
            e,
            every_worker_at (λ v. not (is_asleep v)) before w after,
          ))
    ];
    left = λ h. attended.left (sym (every_at (λ v. not (is_returned v)) w w' e (ap not r)) ∙ h);
  }

  taken-IsAttended :
      (tasks : List T) (stop : Bool)
      → s.workers ≡ at testing
      → s.tasks ≡ tasks
      → s.stop ≡ stop
      → IsAttended (record (taken tasks stop s).1 { workers = at (taken tasks stop s).0 })
  taken-IsAttended [] true e q st = record {
    some_worker = some_worker_at testing returned e;
    awake = λ h. absurd (h q);
    closing =
        λ st n. every_at (λ w. not (is_asleep w)) testing returned e refl ∙ attended.closing st n;
    left = λ h. (st, q);
  }
  taken-IsAttended [] false e q st = record {
    some_worker = some_worker_at testing asleep e;
    awake = λ h. absurd (h q);
    closing = λ stopped n. absurd (ground (arith, st, stopped));
    left = λ h. attended.left (sym (every_at (λ w. not (is_returned w)) testing asleep e refl) ∙ h);
  }
  taken-IsAttended (task ∷ rest) stop e q st = record {
    some_worker = some_worker_at testing (running task) e;
    awake = λ h n. moves_at (running task) refl;
    closing = λ st n.
        every_at (λ w. not (is_asleep w)) testing (running task) e refl ∙ attended.closing st n;
    left = λ h.
        let (stopped, empty) =
          attended.left
            (sym (every_at (λ w. not (is_returned w)) testing (running task) e refl) ∙ h) in
        absurd (ground (arith, q, empty));
  }

unnotified-IsAttended :
    {T : Type 0} {s : ThreadPool T} (n : ℕ)
    → IsAttended s
    → no_asleep s.workers ≡ true
    → IsAttended (record s { notifying = n })
unnotified-IsAttended {s} n attended none_asleep = record {
  some_worker = attended.some_worker;
  awake = λ h zero_left. elim (Bool-cases (nobody_returned s.workers)) [
    | inl here ↦ moving s.workers attended.some_worker none_asleep here
    | inr gone ↦ absurd (h (attended.left gone).1)
  ];
  closing = attended.closing;
  left = attended.left;
}

Step-IsAttended : {T : Type 0} {s t : ThreadPool T} → Step s t → IsAttended s → IsAttended t
unfolding take_task destroy notify_all
Step-IsAttended {s} (move (takes before after e)) attended =
    taken-IsAttended attended before after s.tasks s.stop e refl refl
Step-IsAttended (move (ends before after task e)) attended =
    let kept =
      stays-IsAttended attended before after (running task) testing e refl refl refl (inl refl) in
    record {
      some_worker = kept.some_worker;
      awake = kept.awake;
      closing = kept.closing;
      left = kept.left;
    }
Step-IsAttended (notification (one before after n e)) attended =
    let kept = stays-IsAttended attended before after asleep testing e refl refl refl (inr refl) in
    record {
      some_worker = kept.some_worker;
      awake = λ h z. moves_at attended before after testing refl;
      closing = kept.closing;
      left = kept.left;
    }
Step-IsAttended (notification (nobody {n} q none_asleep)) attended =
    unnotified-IsAttended n attended none_asleep
Step-IsAttended {s} (notification (all e)) attended = record {
  some_worker = rw (length-wake s.workers) attended.some_worker;
  awake = λ h z. still-wake s.workers (attended.awake h z);
  closing = λ st n. no_asleep-wake s.workers;
  left = λ h. attended.left (sym (every_worker-wake (λ w. not (is_returned w)) s.workers refl) ∙ h);
}
Step-IsAttended (notification (spurious before after e)) attended =
    stays-IsAttended attended before after asleep testing e refl refl refl (inr refl)
Step-IsAttended {s} {t} (enqueues task e) attended =
    let (going, pushed) = enqueue_lem task s t e in
    rw pushed (record {
      some_worker = attended.some_worker;
      awake = λ h z. absurd (omega arith);
      closing = attended.closing;
      left = λ h. absurd (ground (arith, (attended.left h).0, going));
    })
Step-IsAttended destroys attended = record {
  some_worker = attended.some_worker;
  awake = attended.awake;
  closing = λ st n. absurd (ground arith);
  left = λ h. (refl, (attended.left h).1);
}

every_worker-replicate :
    {T : Type 0} (p : Worker T → Bool) (n : ℕ)
    → p testing ≡ true
    → every_worker p (replicate n testing) ≡ true
every_worker-replicate p zero h = refl
every_worker-replicate p (suc n) h = ground (arith, every_worker-replicate p n h)

pub Reach-IsAttended :
    {T : Type 0} {threads : ℕ} {s : ThreadPool T} → 0 < threads → Reach threads s → IsAttended s
unfolding construct
Reach-IsAttended {T} {threads} few start = record {
  some_worker = omega (arith, length-replicate {A = Worker T} threads testing);
  awake = λ h. absurd (h refl);
  closing = λ st n. absurd (ground arith);
  left = λ h.
      absurd
        (ground (arith, every_worker-replicate {T = T} (λ w. not (is_returned w)) threads refl, h));
}
Reach-IsAttended few (later r st) = Step-IsAttended st (Reach-IsAttended few r)

-- A state that only a new task, the destructor or a wake-up out of nothing can change.
pub record IsQuiet {T : Type 0} (s : ThreadPool T) : Type 0 where
  pub still : every_worker is_still s.workers ≡ true
  pub notified : s.notifying ≡ 0
  pub all_notified : s.notifying_all ≡ false

module _ {T : Type 0} where
  still-in_progress : (ws : List (Worker T)) → every_worker is_still ws ≡ true → in_progress ws ≡ []
  still-in_progress [] h = refl
  still-in_progress (asleep ∷ ws) h = still-in_progress ws h
  still-in_progress (returned ∷ ws) h = still-in_progress ws h
  still-in_progress (testing ∷ ws) h = absurd (ground arith)
  still-in_progress (running task ∷ ws) h = absurd (ground arith)

  all_returned :
      (ws : List (Worker T))
      → every_worker is_still ws ≡ true
      → no_asleep ws ≡ true
      → every_worker is_returned ws ≡ true
  all_returned [] h a = refl
  all_returned (returned ∷ ws) h a = all_returned ws h a
  all_returned (asleep ∷ ws) h a = absurd (ground arith)
  all_returned (testing ∷ ws) h a = absurd (ground arith)
  all_returned (running task ∷ ws) h a = absurd (ground arith)

-- No wake-up is lost: in a state that a pool of at least one worker comes to, and that only a new task,
-- the destructor or a spurious wake-up can change, the queue is empty, every task that was accepted has
-- been finished, each as often as it was accepted, and where the destructor has begun, every worker has
-- returned.
pub Reach-quiet :
    {T : Type 0} {threads : ℕ} {s : ThreadPool T}
    → 0 < threads
    → Reach threads s
    → IsQuiet s
    → (s.tasks ≡ [])
      × Perm s.finished s.accepted
      × ((s.stop ≡ false) ⊎ (every_worker is_returned s.workers ≡ true))
Reach-quiet {s} few r quiet =
    let attended = Reach-IsAttended few r in
    let ordered = Reach-IsOrdered r in
    let empty : s.tasks ≡ [] = elim (List-cases s.tasks) [
      | inl e ↦ e
      | inr (task, rest, e) ↦
          let moves =
            attended.awake (λ none_left. absurd (ground (arith, e, none_left))) quiet.notified in
          absurd (ground (arith, moves, quiet.still))
    ] in
    let idle = still-in_progress s.workers quiet.still in
    let done : Perm s.finished s.started = rw idle at ordered.progress in
    (
      empty,
      rw (ordered.fifo, empty, append-nil s.started) done,
      elim (Bool-cases s.stop) [
        | inl st ↦ inr (all_returned s.workers quiet.still (attended.closing st quiet.all_notified))
        | inr going ↦ inl going
      ],
    )
