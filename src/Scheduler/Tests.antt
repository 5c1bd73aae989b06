-- ===== src/Scheduler/Tests.antt =====
-- A timer on a new scheduler.
use zrh_rtsp_server.Prelude.{
  ℕ, ◌≡◌, refl, true, false, none, some, [], ◌∷◌, ◌==◌, if◌then◌else◌, arith,
}
use zrh_rtsp_server.FdMap.{find_fd}
use zrh_rtsp_server.Scheduler.{Scheduler, new_scheduler, get_timer, start_timer, stop_timer}
use zrh_rtsp_server.Scheduler.Timers.{IsNumbered, start-stop}

new_scheduler-IsNumbered : IsNumbered (new_scheduler {C = ℕ})
unfolding new_scheduler get_timer find_fd
new_scheduler-IsNumbered id h = refl

start-stop_example :
    (s' s'' : Scheduler ℕ) × (start_timer true (some 3) 40 9 new_scheduler ≡ some (1, s'))
    × (stop_timer true 1 s' ≡ some (true, s''))
    × (s''.closed ≡ 9 ∷ [])
    × ((other : ℕ)
        → get_timer other s''.timer_manager ≡ get_timer other (new_scheduler {C = ℕ}).timer_manager)
    × ((fd : ℕ)
        → find_fd fd s''.poller.fd2timer
          ≡ (if fd == 9 then none else find_fd fd (new_scheduler {C = ℕ}).poller.fd2timer))
    × (stop_timer true 1 s'' ≡ some (false, s''))
unfolding new_scheduler
start-stop_example =
    start-stop new_scheduler (some 3) 40 9 new_scheduler-IsNumbered (omega arith) (omega arith)
      (omega arith)
