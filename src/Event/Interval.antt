-- ===== src/Event/Interval.antt =====
-- When the timer of a sink runs.
use zrh_rtsp_server.Prelude.{
  ℕ, ◌+◌, ◌*◌, ◌/◌, ◌≤◌, ◌<◌, ◌≡◌, Bool, ◌&&◌, ltb, ◌==◌, not, arith, ◌↔◌, ℕ_discrete, dec_lt,
}
use native.Mathlib.Nat.{div-le_self, le-div_iff_mul-le, div-le_of_le-mul, div-eq_of_lt}
use zrh_rtsp_server.Event.{TimerSpec, timer_spec}

-- What `timerfd_settime` accepts as a timer that runs on: nanoseconds below a second, and an interval.
abbrev pub is_periodic : TimerSpec → Bool
is_periodic t =
    ltb t.value_nsec 1000000000
    && ltb t.interval_nsec 1000000000
    && not (t.interval_sec + t.interval_nsec == 0)

-- A timer for a rate of `fps` frames, of the interval `1000 / fps` that a sink asks for, is accepted and
-- runs on for rates from 2 to 1000, with that interval in milliseconds; for a rate of 1 its interval has
-- too many nanoseconds to be accepted, and for one above 1000 it does not repeat.
pub timer_spec-fps :
    (fps : ℕ)
    → 0 < fps
    → (is_periodic (timer_spec (1000 / fps)) ≡ (ltb 1 fps && ltb fps 1001))
      × ((timer_spec (1000 / fps)).interval_nsec ≡ 1000 / fps * 1000000)
unfolding timer_spec
timer_spec-fps fps h =
    let short : 1000 / fps ≤ 1000 = div-le_self 1000 fps in
    let some_ms : (1 ≤ 1000 / fps) ↔ (1 * fps ≤ 1000) = le-div_iff_mul-le h in
    elim (ℕ_discrete fps 1) [
      | yes one ↦ rw one (ground arith, ground arith)
      | no more ↦
          let half : 1000 / fps ≤ 500 = div-le_of_le-mul fps (omega arith) in
          elim (dec_lt fps 1001) [
            | yes low ↦ let ms = some_ms.1 (omega arith) in (ground arith, omega arith)
            | no high ↦
                let none_left : 1000 / fps ≡ 0 = div-eq_of_lt (omega arith) in
                (ground arith, omega arith)
          ]
    ]
