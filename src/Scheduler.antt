-- ===== src/Scheduler.antt =====
-- include/helper/Scheduler.h and src/helper/Scheduler.cpp: the timers by their identifiers, and the
-- poller that has them by their descriptors. Both have shared pointers to the timer events, which are on
-- a heap here.
pub mod Timers
mod Tests
use zrh_rtsp_server.Prelude.{
  ℕ, ◌+◌, ◌%◌, ◌^◌, Bool, true, false, Option, none, some, List, [], ◌∷◌, ◌++◌, ◌==◌, if◌then◌else◌,
}
use zrh_rtsp_server.FdMap.{find_fd, erase_fd, set_fd}
use zrh_rtsp_server.Event.{TimerEvent, TriggerEvent, new_timer, stop_timer_event, handle_trigger}
use zrh_rtsp_server.Poller.{Poller, new_poller, add_timer_event, remove_timer_event}

-- `TimerManager`: `timer_events_` and `cur_timer_id_`, a `uint64_t`.
pub record TimerManager : Type 0 where
  pub timer_events : List (ℕ × ℕ)
  pub cur_timer_id : ℕ

-- `Scheduler`, with the heap of timer events and the descriptors that were closed.
pub record Scheduler (C : Type 0) : Type 0 where
  pub poller : Poller
  pub timer_manager : TimerManager
  pub trigger_events : List (TriggerEvent C)
  pub timers : ℕ → Option (TimerEvent C)
  pub timers_next : ℕ
  pub closed : List ℕ

-- `GetTimer`; `none` is the null pointer.
unfoldable pub get_timer : ℕ → TimerManager → Option ℕ
get_timer id m = find_fd id m.timer_events

abbrev pub at_address : {A : Type 0} → (ℕ → Option A) → ℕ → A → (ℕ → Option A)
at_address heap address a i = if i == address then some a else heap i

module _ {C : Type 0} where
  -- The constructor.
  unfoldable pub new_scheduler : Scheduler C
  new_scheduler = record {
    poller = new_poller;
    timer_manager = record { timer_events = []; cur_timer_id = 0 };
    trigger_events = [];
    timers = λ address. none;
    timers_next = 0;
    closed = [];
  }

  -- `addTriggerEvent`.
  unfoldable pub add_trigger_event : TriggerEvent C → Scheduler C → Scheduler C
  add_trigger_event event s = record s { trigger_events = s.trigger_events ++ event ∷ [] }

  -- `TimerManager::StartTimer`, with the descriptor that `timerfd_create` gives.
  unfoldable pub manager_start_timer : Option C → ℕ → ℕ → Scheduler C → ℕ × Scheduler C
  manager_start_timer cb time_ms time_fd s =
      let id = (s.timer_manager.cur_timer_id + 1) % 2 ^ 64 in
      (
        id,
        record s {
          timer_manager = record {
            timer_events = set_fd id s.timers_next s.timer_manager.timer_events;
            cur_timer_id = id;
          };
          timers = at_address s.timers s.timers_next (new_timer cb time_ms time_fd);
          timers_next = s.timers_next + 1;
        },
      )

  -- `TimerManager::StopTimer`; `none` is a pointer to no timer.
  unfoldable pub manager_stop_timer : ℕ → Scheduler C → Option (Bool × Scheduler C)
  manager_stop_timer id s = elim (find_fd id s.timer_manager.timer_events) [
    | none ↦ some (false, s)
    | some address ↦ elim (s.timers address) [
      | none ↦ none
      | some event ↦
          let (event', closed) = stop_timer_event event s.closed in
          some (
            true,
            record s {
              timers = at_address s.timers address event';
              closed = closed;
              timer_manager = record s.timer_manager {
                timer_events = erase_fd id s.timer_manager.timer_events;
              };
            },
          )
    ]
  ]

  -- `Scheduler::StartTimer`, where `added` says whether `epoll_ctl` succeeded.
  unfoldable pub start_timer : Bool → Option C → ℕ → ℕ → Scheduler C → Option (ℕ × Scheduler C)
  unfolding get_timer manager_start_timer
  start_timer added cb time_ms time_fd s =
      let (id, s₁) = manager_start_timer cb time_ms time_fd s in
      elim (get_timer id s₁.timer_manager) [
        | none ↦ some (0, s₁)
        | some address ↦ elim (s₁.timers address) [
          | none ↦ none
          | some event ↦
              some (
                id,
                record s₁ { poller = (add_timer_event added event.time_fd address s₁.poller).1 },
              )
        ]
      ]

  -- `Scheduler::StopTimer`.
  unfoldable pub stop_timer : Bool → ℕ → Scheduler C → Option (Bool × Scheduler C)
  unfolding get_timer
  stop_timer removed id s = elim (get_timer id s.timer_manager) [
    | none ↦ some (false, s)
    | some address ↦ elim (s.timers address) [
      | none ↦ none
      | some event ↦
          elim (manager_stop_timer id
            (record s { poller = (remove_timer_event removed event.time_fd s.poller).1 })) [
              | none ↦ none
              | some (found, s') ↦ some (true, s')
            ]
    ]
  ]

-- `handleTriggerEvent`: the queue is emptied from its front. `none` is a fault of a callback; a callback
-- that added an event would block on the mutex, so none does.
unfoldable pub run_trigger_events :
    {C S : Type 0} → (C → S → Option S) → List (TriggerEvent C) → S → Option S
run_trigger_events invoke [] s = some s
run_trigger_events invoke (event ∷ events) s = elim (handle_trigger invoke event s) [
  | none ↦ none
  | some s' ↦ run_trigger_events invoke events s'
]
