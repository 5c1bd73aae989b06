-- ===== src/ThreadPool/Tests.antt =====
-- A pool of two workers, through a task and the destructor.
use mathlib.Core.List.{Perm}
use zrh_rtsp_server.Prelude.{ℕ, ◌≡◌, ◌≤◌, refl, true, false, [], ◌∷◌, arith, ◌⊎◌}
use zrh_rtsp_server.ThreadPool.{
  testing, asleep, running, returned, ThreadPool, construct, take_task, enqueue, destroy,
  notify_all, takes, ends, one, move, notification, enqueues, Reach, start, later, every_worker,
}
use zrh_rtsp_server.ThreadPool.Order.{IsOrdered, Reach-IsOrdered}
use zrh_rtsp_server.ThreadPool.Wakeup.{is_returned, Reach-quiet}
use zrh_rtsp_server.ThreadPool.Joining.{
  measure, OwnStep, own_move, own_all, Run, halt, on, destroy-joins,
}

abbrev fresh : ThreadPool ℕ
fresh = record {
  workers = testing ∷ testing ∷ [];
  tasks = [];
  stop = false;
  notifying = 0;
  notifying_all = false;
  accepted = [];
  started = [];
  finished = [];
}

fresh-Reach : Reach 2 fresh
unfolding construct
fresh-Reach = start

-- One worker falls asleep, a task comes, the other takes it.
abbrev waiting : ThreadPool ℕ
waiting = record fresh { workers = asleep ∷ testing ∷ [] }

abbrev pushed : ThreadPool ℕ
pushed = record waiting { tasks = 7 ∷ []; notifying = 1; accepted = 7 ∷ [] }

abbrev busy : ThreadPool ℕ
busy = record pushed { workers = asleep ∷ running 7 ∷ []; tasks = []; started = 7 ∷ [] }

busy-Reach : Reach 2 busy
unfolding take_task enqueue
busy-Reach =
    later
      (later (later fresh-Reach (move (takes [] (testing ∷ []) refl)))
        (enqueues {t = pushed} 7 refl))
      (move (takes (asleep ∷ []) [] refl))

Reach-IsOrdered_example : IsOrdered busy
Reach-IsOrdered_example = Reach-IsOrdered busy-Reach

-- The task ends, and both workers sleep.
abbrev resting : ThreadPool ℕ
resting = record busy { workers = asleep ∷ asleep ∷ []; notifying = 0; finished = 7 ∷ [] }

resting-Reach : Reach 2 resting
unfolding take_task
resting-Reach =
    later
      (later
        (later (later busy-Reach (notification (one [] (running 7 ∷ []) refl refl)))
          (move (ends (testing ∷ []) [] 7 refl)))
        (move (takes [] (testing ∷ []) refl)))
      (move (takes (asleep ∷ []) [] refl))

Reach-quiet_example :
    (resting.tasks ≡ [])
    × Perm resting.finished resting.accepted
    × ((resting.stop ≡ false) ⊎ (every_worker is_returned resting.workers ≡ true))
Reach-quiet_example =
    Reach-quiet (omega arith) resting-Reach
      (record { still = refl; notified = refl; all_notified = refl })

-- The destructor wakes both, and one returns.
abbrev leaving : ThreadPool ℕ
leaving = record resting { workers = returned ∷ testing ∷ []; stop = true }

leaving-Run : Run 2 (destroy resting) leaving
unfolding destroy notify_all take_task
leaving-Run = on (own_all refl) (on (own_move (takes [] (testing ∷ []) refl)) halt)

destroy-joins_example :
    (2 ≤ measure (destroy resting))
    × (((u : ThreadPool ℕ) × OwnStep leaving u)
        ⊎ ((every_worker is_returned leaving.workers ≡ true)
            × Perm leaving.finished resting.accepted))
destroy-joins_example = destroy-joins (omega arith) resting-Reach leaving-Run
