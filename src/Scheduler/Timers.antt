-- ===== src/Scheduler/Timers.antt =====
-- Starting a timer and stopping it again.
use zrh_rtsp_server.Prelude.{
  ℕ, ◌+◌, ◌^◌, ◌<◌, ◌≡◌, refl, true, false, Option, none, some, ◌∷◌, ◌==◌, if◌then◌else◌, arith,
}
use zrh_rtsp_server.FdMap.{find_fd, erase_fd, set_fd, find-erase_fd, find-set_fd}
use zrh_rtsp_server.Event.{new_timer, stop_timer_event}
use zrh_rtsp_server.Poller.{add_timer_event, remove_timer_event}
use zrh_rtsp_server.Scheduler.{
  Scheduler, at_address, get_timer, manager_start_timer, manager_stop_timer, start_timer,
  stop_timer,
}

-- Identifiers have been given up to the current one.
abbrev pub IsNumbered : {C : Type 0} → Scheduler C → Type 0
IsNumbered s = (id : ℕ) → s.timer_manager.cur_timer_id < id → get_timer id s.timer_manager ≡ none

module _ {C : Type 0} (s : Scheduler C) (cb : Option C) (time_ms time_fd : ℕ) where
  abbrev id : ℕ
  id = s.timer_manager.cur_timer_id + 1

  -- A started timer.
  abbrev running : Scheduler C
  running = record s {
    poller = (add_timer_event true time_fd s.timers_next s.poller).1;
    timer_manager = record {
      timer_events = set_fd id s.timers_next s.timer_manager.timer_events;
      cur_timer_id = id;
    };
    timers = at_address s.timers s.timers_next (new_timer cb time_ms time_fd);
    timers_next = s.timers_next + 1;
  }

  -- The same, stopped.
  abbrev stopped : Scheduler C
  stopped = record running {
    poller = (remove_timer_event true time_fd running.poller).1;
    timers =
        at_address running.timers s.timers_next
          (stop_timer_event (new_timer cb time_ms time_fd) s.closed).0;
    closed = time_fd ∷ s.closed;
    timer_manager = record running.timer_manager {
      timer_events = erase_fd id running.timer_manager.timer_events;
    };
  }

  start_timer-running : id < 2 ^ 64 → start_timer true cb time_ms time_fd s ≡ some (id, running)
  unfolding start_timer get_timer manager_start_timer new_timer
  start_timer-running small =
      ground (arith, find-set_fd id id s.timers_next s.timer_manager.timer_events)

  stop_timer-stopped :
      0 < time_fd → time_fd < 0x80000000 → stop_timer true id running ≡ some (true, stopped)
  unfolding stop_timer get_timer manager_stop_timer new_timer stop_timer_event
  stop_timer-stopped above below =
      ground (arith, find-set_fd id id s.timers_next s.timer_manager.timer_events)

  stop_timer-again : stop_timer true id stopped ≡ some (false, stopped)
  unfolding stop_timer get_timer
  stop_timer-again = ground (arith, find-erase_fd id id running.timer_manager.timer_events)

  -- Where identifiers have been given up to the current one and are not used up, and `timerfd_create` and
  -- `epoll_ctl` succeed: `StartTimer` gives the next identifier; `StopTimer` on it finds the timer,
  -- closes its descriptor, takes it out of the poller, and leaves every identifier and every other
  -- descriptor with the timer that it had before; a second `StopTimer` finds nothing and changes nothing.
  pub start-stop :
      IsNumbered s
      → id < 2 ^ 64
      → 0 < time_fd
      → time_fd < 0x80000000
      → (s' s'' : Scheduler C) × (start_timer true cb time_ms time_fd s ≡ some (id, s'))
        × (stop_timer true id s' ≡ some (true, s''))
        × (s''.closed ≡ time_fd ∷ s.closed)
        × ((other : ℕ) → get_timer other s''.timer_manager ≡ get_timer other s.timer_manager)
        × ((fd : ℕ)
            → find_fd fd s''.poller.fd2timer
              ≡ (if fd == time_fd then none else find_fd fd s.poller.fd2timer))
        × (stop_timer true id s'' ≡ some (false, s''))
  unfolding get_timer add_timer_event remove_timer_event
  start-stop numbered small above below = (
    running,
    stopped,
    start_timer-running small,
    stop_timer-stopped above below,
    refl,
    λ other.
        let unused = numbered id (omega arith) in
        ground (
          arith,
          unused,
          find-erase_fd id other running.timer_manager.timer_events,
          find-set_fd id other s.timers_next s.timer_manager.timer_events,
        ),
    λ fd. ground (
      arith,
      find-erase_fd time_fd fd running.poller.fd2timer,
      find-set_fd time_fd fd s.timers_next s.poller.fd2timer,
    ),
    stop_timer-again,
  )
