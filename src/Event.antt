-- ===== src/Event.antt =====
-- include/helper/Event.h and src/helper/Event.cpp: the three kinds of events. A callback with its
-- argument is a value of a type `C`, and what calling it does is given by `invoke`.
mod Tests
pub mod Flags
pub mod Interval
use Prim.Native.Nat.{bit_and, bit_or}
use zrh_rtsp_server.Prelude.{
  ℕ, ◌+◌, ◌-◌, ◌*◌, ◌/◌, ◌%◌, ◌^◌, Bool, true, false, not, ◌&&◌, Option, none, some, List, [], ◌∷◌,
  ◌==◌, ltb, if◌then◌else◌,
}

-- `TriggerEvent` and its `handleEvent`.
pub record TriggerEvent (C : Type 0) : Type 0 where
  pub trigger_call_back : Option C

unfoldable pub handle_trigger : {C S : Type 0} → (C → S → Option S) → TriggerEvent C → S → Option S
handle_trigger invoke event s = elim event.trigger_call_back [
  | none ↦ some s
  | some cb ↦ invoke cb s
]

-- `struct itimerspec`, as `timerfd_settime` takes it.
pub record TimerSpec : Type 0 where
  pub value_sec : ℕ
  pub value_nsec : ℕ
  pub interval_sec : ℕ
  pub interval_nsec : ℕ

-- What the constructors give it; the product is one of `uint64_t`.
unfoldable pub timer_spec : ℕ → TimerSpec
timer_spec time_ms = record {
  value_sec = 1;
  value_nsec = 0;
  interval_sec = 0;
  interval_nsec = time_ms * 1000000 % 2 ^ 64;
}

pub record TimerEvent (C : Type 0) : Type 0 where
  pub timeout_call_back : Option C
  pub stopped : Bool
  pub interval_ms : ℕ
  pub time_fd : ℕ

-- The constructors, with the descriptor that `timerfd_create` gives.
unfoldable pub new_timer : {C : Type 0} → Option C → ℕ → ℕ → TimerEvent C
new_timer cb time_ms time_fd = record {
  timeout_call_back = cb;
  stopped = false;
  interval_ms = time_ms;
  time_fd = time_fd;
}

-- `TimerEvent::handleEvent`: its result is `stop_` before the call where that is set. The callback does
-- not reach the event.
unfoldable pub handle_timer :
    {C S : Type 0} → (C → S → Option S) → TimerEvent C → S → Option (Bool × S)
handle_timer invoke event s =
    if event.stopped then some (true, s) else elim event.timeout_call_back [
      | none ↦ some (event.stopped, s)
      | some cb ↦ elim (invoke cb s) [ none ↦ none | some s' ↦ some (event.stopped, s') ]
    ]

-- `stop`, with the descriptors that are closed; one from `2 ^ 31` on is negative.
unfoldable pub stop_timer_event : {C : Type 0} → TimerEvent C → List ℕ → TimerEvent C × List ℕ
stop_timer_event event closed =
    if ltb 0 event.time_fd && ltb event.time_fd 0x80000000
    then (record event { stopped = true; time_fd = 0 }, event.time_fd ∷ closed)
    else (record event { stopped = true }, closed)

abbrev pub event_read : ℕ
event_read = 1

abbrev pub event_write : ℕ
event_write = 2

abbrev pub event_error : ℕ
event_error = 4

pub record IoEvent (C : Type 0) : Type 0 where
  pub fd : ℕ
  pub event : ℕ
  pub read_call_back : Option C
  pub write_call_back : Option C
  pub error_call_back : Option C

unfoldable pub new_io_event : {C : Type 0} → ℕ → IoEvent C
new_io_event fd = record {
  fd = fd;
  event = 0;
  read_call_back = none;
  write_call_back = none;
  error_call_back = none;
}

-- `event_ |= flag` and `event_ &= ~flag` on an `int`, and `(event_ & flag) != 0`.
unfoldable pub enable : {C : Type 0} → ℕ → IoEvent C → IoEvent C
enable flag e = record e { event = bit_or e.event flag }

unfoldable pub disable : {C : Type 0} → ℕ → IoEvent C → IoEvent C
disable flag e = record e { event = bit_and e.event (2 ^ 32 - 1 - flag) }

unfoldable pub is_handling : {C : Type 0} → ℕ → IoEvent C → Bool
is_handling flag e = not (bit_and e.event flag == 0)

-- `IOEvent::handleEvent`: the callbacks may change the event, which is tested again before each.
abbrev pub Invoke : Type 0 → Type 0 → Type 0
Invoke C S = C → IoEvent C × S → Option (IoEvent C × S)

unfoldable pub handle_flag :
    {C S : Type 0} → Invoke C S → Option C → ℕ → IoEvent C × S → Option (IoEvent C × S)
unfolding is_handling
handle_flag invoke none flag (e, s) = some (e, s)
handle_flag invoke (some cb) flag (e, s) =
    if is_handling flag e then invoke cb (e, s) else some (e, s)

unfoldable pub handle_io_event :
    {C S : Type 0} → Invoke C S → IoEvent C × S → Option (IoEvent C × S)
handle_io_event invoke (e, s) = elim (handle_flag invoke e.read_call_back event_read (e, s)) [
  | none ↦ none
  | some (e₁, s₁) ↦ elim (handle_flag invoke e₁.write_call_back event_write (e₁, s₁)) [
    | none ↦ none
    | some (e₂, s₂) ↦ handle_flag invoke e₂.error_call_back event_error (e₂, s₂)
  ]
]
