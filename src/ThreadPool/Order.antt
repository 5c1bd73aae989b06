-- ===== src/ThreadPool/Order.antt =====
-- The order in which tasks are run.
use mathlib.Core.List.Perm
use mathlib.Core.List.{Perm, perm_middle, perm_append_singleton}
use zrh_rtsp_server.Prelude.{
  ℕ, ◌≡◌, refl, sym, ap, ◌∙◌, Bool, true, false, some, List, [], ◌∷◌, ◌++◌, map, append_assoc,
  replicate, zero, suc, arith,
}
use zrh_rtsp_server.ThreadPool.{
  Worker, testing, asleep, running, returned, ThreadPool, construct, take_task, taken, finish_task,
  enqueue, destroy, notify_all, wake, takes, ends, one, nobody, all, spurious, Step, move,
  notification, enqueues, destroys, Reach, start, later,
}

module _ {T : Type 0} where
  abbrev pub own : Worker T → List T
  own (running task) = task ∷ []
  own w = []

  -- The tasks that workers are running.
  abbrev pub in_progress : List (Worker T) → List T
  in_progress [] = []
  in_progress (w ∷ ws) = own w ++ in_progress ws

  pub in_progress_at :
      (before : List (Worker T)) (w : Worker T) (after : List (Worker T))
      → in_progress (before ++ w ∷ after) ≡ in_progress before ++ (own w ++ in_progress after)
  in_progress_at [] w after = refl
  in_progress_at (x ∷ xs) w after =
      ap (λ ts. own x ++ ts) (in_progress_at xs w after)
      ∙ sym (append_assoc (own x) (in_progress xs) (own w ++ in_progress after))

  in_progress-wake : (ws : List (Worker T)) → in_progress (map wake ws) ≡ in_progress ws
  in_progress-wake [] = refl
  in_progress-wake (testing ∷ ws) = in_progress-wake ws
  in_progress-wake (asleep ∷ ws) = in_progress-wake ws
  in_progress-wake (returned ∷ ws) = in_progress-wake ws
  in_progress-wake (running task ∷ ws) = ap (◌∷◌ task) (in_progress-wake ws)

  in_progress-replicate : (n : ℕ) → in_progress (replicate n testing) ≡ []
  in_progress-replicate zero = refl
  in_progress-replicate (suc n) = in_progress-replicate n

  perm_inside : (x : T) (xs ys zs : List T) → Perm ((xs ++ x ∷ ys) ++ zs) (x ∷ ((xs ++ ys) ++ zs))
  perm_inside x xs ys zs = Perm.append_right zs (perm_middle xs ys)

-- What every state of a pool keeps.
pub record IsOrdered {T : Type 0} (s : ThreadPool T) : Type 0 where
  pub fifo : s.accepted ≡ s.started ++ s.tasks
  pub progress : Perm (in_progress s.workers ++ s.finished) s.started

module _ {T : Type 0} {s : ThreadPool T} (ordered : IsOrdered s) where
  abbrev others : List (Worker T) → List (Worker T) → List T
  others before after = (in_progress before ++ in_progress after) ++ s.finished

  -- A worker that runs nothing gets something else to do than a task.
  idle_progress :
      (before after : List (Worker T)) (w w' : Worker T)
      → s.workers ≡ before ++ w ∷ after
      → own w ≡ own w'
      → Perm (in_progress (before ++ w' ∷ after) ++ s.finished) s.started
  idle_progress before after w w' e o =
      let same : in_progress s.workers ≡ in_progress (before ++ w' ∷ after) =
        ap in_progress e
        ∙ in_progress_at before w after
        ∙ ap (λ ts. in_progress before ++ (ts ++ in_progress after)) o
        ∙ sym (in_progress_at before w' after) in
      rw same at ordered.progress

  others_progress :
      (before after : List (Worker T))
      → s.workers ≡ before ++ testing ∷ after
      → Perm (others before after) s.started
  others_progress before after e =
      rw (ap in_progress e ∙ in_progress_at before testing after) at ordered.progress

  taken-IsOrdered :
      (before after : List (Worker T)) (tasks : List T) (stop : Bool)
      → s.workers ≡ before ++ testing ∷ after
      → s.tasks ≡ tasks
      → IsOrdered
          (record (taken tasks stop s).1 { workers = before ++ (taken tasks stop s).0 ∷ after })
  taken-IsOrdered before after [] true e queue = record {
    fifo = ordered.fifo;
    progress = idle_progress before after testing returned e refl;
  }
  taken-IsOrdered before after [] false e queue = record {
    fifo = ordered.fifo;
    progress = idle_progress before after testing asleep e refl;
  }
  taken-IsOrdered before after (task ∷ rest) stop e queue = record {
    fifo =
        ordered.fifo
        ∙ ap (λ ts. s.started ++ ts) queue
        ∙ sym (append_assoc s.started (task ∷ []) rest);
    progress = rw (in_progress_at before (running task) after) (
        Perm.trans (perm_inside task (in_progress before) (in_progress after) s.finished) (
          Perm.trans (Perm.cons task (others_progress before after e))
            (Perm.symm (perm_append_singleton task s.started))));
  }

  ends-IsOrdered :
      (before after : List (Worker T)) (task : T)
      → s.workers ≡ before ++ running task ∷ after
      → IsOrdered (record (finish_task task s).1 { workers = before ++ testing ∷ after })
  ends-IsOrdered before after task e = record {
    fifo = ordered.fifo;
    progress =
        let run : Perm ((in_progress before ++ task ∷ in_progress after) ++ s.finished) s.started =
          rw (ap in_progress e ∙ in_progress_at before (running task) after) at ordered.progress in
        rw
          (
            in_progress_at before testing after,
            ← append_assoc (in_progress before ++ in_progress after) s.finished (task ∷ []),
          )
          (Perm.trans (perm_append_singleton task (others before after)) (
            Perm.trans
              (Perm.symm (perm_inside task (in_progress before) (in_progress after) s.finished))
              run));
  }

pub enqueue_lem :
    {T : Type 0} (task : T) (s t : ThreadPool T)
    → enqueue task s ≡ some t
    → (s.stop ≡ false)
      × (t ≡ record s {
        tasks = s.tasks ++ task ∷ [];
        notifying = suc s.notifying;
        accepted = s.accepted ++ task ∷ [];
      })
unfolding enqueue
enqueue_lem task s t e = ground (arith, e)

pub Step-IsOrdered : {T : Type 0} {s t : ThreadPool T} → Step s t → IsOrdered s → IsOrdered t
unfolding take_task destroy notify_all
Step-IsOrdered {s} (move (takes before after e)) ordered =
    taken-IsOrdered ordered before after s.tasks s.stop e refl
Step-IsOrdered (move (ends before after task e)) ordered =
    ends-IsOrdered ordered before after task e
Step-IsOrdered (notification (one before after n e)) ordered = record {
  fifo = ordered.fifo;
  progress = idle_progress ordered before after asleep testing e refl;
}
Step-IsOrdered (notification (nobody n e)) ordered = record {
  fifo = ordered.fifo;
  progress = ordered.progress;
}
Step-IsOrdered {s} (notification (all e)) ordered = record {
  fifo = ordered.fifo;
  progress = rw (in_progress-wake s.workers) ordered.progress;
}
Step-IsOrdered (notification (spurious before after e)) ordered = record {
  fifo = ordered.fifo;
  progress = idle_progress ordered before after asleep testing e refl;
}
Step-IsOrdered {s} {t} (enqueues task e) ordered = rw ((enqueue_lem task s t e).1) (record {
  fifo = ap (λ ts. ts ++ task ∷ []) ordered.fifo ∙ append_assoc s.started s.tasks (task ∷ []);
  progress = ordered.progress;
})
Step-IsOrdered destroys ordered = record { fifo = ordered.fifo; progress = ordered.progress }

-- In every state that a pool of any number of workers comes to, by any interleaving: the tasks were
-- accepted in the order in which they were or will be started, and a task was started as often as it
-- is running or has been finished.
pub Reach-IsOrdered : {T : Type 0} {threads : ℕ} {s : ThreadPool T} → Reach threads s → IsOrdered s
unfolding construct
Reach-IsOrdered {threads} start = record {
  fifo = refl;
  progress = rw (in_progress-replicate threads) Perm.nil;
}
Reach-IsOrdered (later r st) = Step-IsOrdered st (Reach-IsOrdered r)
