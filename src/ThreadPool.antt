-- ===== src/ThreadPool.antt =====
-- include/helper/ThreadPool.h: the workers, the queue of tasks, and the condition variable, as steps
-- that any schedule may interleave. What a worker does under the mutex is one step.
mod Tests
pub mod Order
pub mod Wakeup
pub mod Joining
use zrh_rtsp_server.Prelude.{
  ℕ, zero, suc, ◌+◌, ◌≡◌, Bool, true, false, not, ◌&&◌, ◌||◌, Option, none, some, List, [], ◌∷◌,
  ◌++◌, map, if◌then◌else◌, replicate,
}

-- Where a worker is: about to evaluate the predicate of `wait`, blocked in `wait`, in `task()`, or
-- behind its `return`.
pub data Worker (T : Type 0) : Type 0 where
  testing asleep returned : Worker T
  running : T → Worker T

-- The members. `notifying` counts the calls of `enqueue` between the end of the locked block and
-- `notify_one`, `notifying_all` is the same place in the destructor. The three lists of tasks that were
-- put into the queue, taken out of it, and run to their end are the history.
pub record ThreadPool (T : Type 0) : Type 0 where
  pub workers : List (Worker T)
  pub tasks : List T
  pub stop : Bool
  pub notifying : ℕ
  pub notifying_all : Bool
  pub accepted : List T
  pub started : List T
  pub finished : List T

module _ {T : Type 0} where
  -- The constructor.
  unfoldable pub construct : ℕ → ThreadPool T
  construct threads = record {
    workers = replicate threads testing;
    tasks = [];
    stop = false;
    notifying = 0;
    notifying_all = false;
    accepted = [];
    started = [];
    finished = [];
  }

  -- The locked block of a worker's loop from the predicate on: where the worker is then.
  abbrev pub taken : List T → Bool → ThreadPool T → Worker T × ThreadPool T
  taken [] true s = (returned, s)
  taken [] false s = (asleep, s)
  taken (task ∷ rest) stop s =
      (running task, record s { tasks = rest; started = s.started ++ task ∷ [] })

  unfoldable pub take_task : ThreadPool T → Worker T × ThreadPool T
  take_task s = taken s.tasks s.stop s

  -- The end of `task()`.
  abbrev pub finish_task : T → ThreadPool T → Worker T × ThreadPool T
  finish_task task s = (testing, record s { finished = s.finished ++ task ∷ [] })

  -- `enqueue` up to the end of its locked block; `none` is the exception.
  unfoldable pub enqueue : T → ThreadPool T → Option (ThreadPool T)
  enqueue task s =
      if s.stop
      then none
      else some (record s {
        tasks = s.tasks ++ task ∷ [];
        notifying = suc s.notifying;
        accepted = s.accepted ++ task ∷ [];
      })

  -- The locked block of the destructor.
  unfoldable pub destroy : ThreadPool T → ThreadPool T
  destroy s = record s { stop = true; notifying_all = true }

  abbrev pub wake : Worker T → Worker T
  wake asleep = testing
  wake w = w

  -- `notify_all`.
  unfoldable pub notify_all : ThreadPool T → ThreadPool T
  notify_all s = record s { workers = map wake s.workers; notifying_all = false }

-- A worker at a place in the list moves.
pub data Move {T : Type 0} (s : ThreadPool T) : ThreadPool T → Type 0 where
  takes :
      (before after : List (Worker T))
      → s.workers ≡ before ++ testing ∷ after
      → Move s (record (take_task s).1 { workers = before ++ (take_task s).0 ∷ after })
  ends :
      (before after : List (Worker T)) (task : T)
      → s.workers ≡ before ++ running task ∷ after
      → Move s (record (finish_task task s).1 { workers = before ++ testing ∷ after })

-- The condition variable at work: `notify_one` wakes a blocked worker, or none if there is none;
-- `wait` may also wake on its own.
abbrev pub every_worker : {T : Type 0} → (Worker T → Bool) → List (Worker T) → Bool
every_worker p [] = true
every_worker p (w ∷ ws) = p w && every_worker p ws

abbrev pub is_asleep : {T : Type 0} → Worker T → Bool
is_asleep asleep = true
is_asleep w = false

abbrev pub no_asleep : {T : Type 0} → List (Worker T) → Bool
no_asleep = every_worker (λ w. not (is_asleep w))

pub data Notification {T : Type 0} (s : ThreadPool T) : ThreadPool T → Type 0 where
  one :
      {n : ℕ} (before after : List (Worker T))
      → s.notifying ≡ suc n
      → s.workers ≡ before ++ asleep ∷ after
      → Notification s (record s { notifying = n; workers = before ++ testing ∷ after })
  nobody :
      {n : ℕ}
      → s.notifying ≡ suc n
      → no_asleep s.workers ≡ true
      → Notification s (record s { notifying = n })
  all : s.notifying_all ≡ true → Notification s (notify_all s)
  spurious :
      (before after : List (Worker T))
      → s.workers ≡ before ++ asleep ∷ after
      → Notification s (record s { workers = before ++ testing ∷ after })

pub data Step {T : Type 0} (s : ThreadPool T) : ThreadPool T → Type 0 where
  move : {t : ThreadPool T} → Move s t → Step s t
  notification : {t : ThreadPool T} → Notification s t → Step s t
  enqueues : {t : ThreadPool T} (task : T) → enqueue task s ≡ some t → Step s t
  destroys : Step s (destroy s)

-- The states that a new pool of so many workers comes to.
pub data Reach {T : Type 0} (threads : ℕ) : ThreadPool T → Type 0 where
  start : Reach threads (construct threads)
  later : {s t : ThreadPool T} → Reach threads s → Step s t → Reach threads t
