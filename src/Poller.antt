-- ===== src/Poller.antt =====
-- include/helper/Poller.h and src/helper/Poller.cpp. The events are at addresses; what the calls of
-- epoll give is an argument.
use Prim.Native.Nat.{bit_or}
use zrh_rtsp_server.Prelude.{
  ℕ, ◌*◌, Bool, true, false, Option, none, some, List, [], ◌∷◌, ◌==◌, if◌then◌else◌, length,
}
use zrh_rtsp_server.FdMap.{find_fd, erase_fd, set_fd}
use zrh_rtsp_server.Event.{IoEvent, event_read, event_write, event_error, is_handling}

-- `fd2event_`, `fd2timer_` and the size of `events_`.
pub record Poller : Type 0 where
  pub fd2event : List (ℕ × ℕ)
  pub fd2timer : List (ℕ × ℕ)
  pub events_size : ℕ

-- The constructor.
unfoldable pub new_poller : Poller
new_poller = record { fd2event = []; fd2timer = []; events_size = 16 }

-- The mask for `epoll_ctl`: `event.events` is not initialised, and `memory` is what it holds.
unfoldable pub io_mask : {C : Type 0} → ℕ → IoEvent C → ℕ
unfolding is_handling
io_mask memory e =
    let m₁ = if is_handling event_read e then bit_or memory 0x001 else memory in
    let m₂ = if is_handling event_write e then bit_or m₁ 0x004 else m₁ in
    let m₃ = if is_handling event_error e then bit_or m₂ 0x008 else m₂ in bit_or m₃ 0x80000000

-- `AddIOEvent` and its kin, where `succeeds` says whether `epoll_ctl` did.
unfoldable pub add_io_event : Bool → ℕ → ℕ → Poller → Bool × Poller
add_io_event false fd event p = (false, p)
add_io_event true fd event p = (true, record p { fd2event = set_fd fd event p.fd2event })

unfoldable pub remove_io_event : Bool → ℕ → Poller → Bool × Poller
remove_io_event false fd p = (false, p)
remove_io_event true fd p = (true, record p { fd2event = erase_fd fd p.fd2event })

-- `UpdateIOEvent` changes the kernel's mask only.
unfoldable pub update_io_event : Bool → ℕ → Poller → Bool × Poller
update_io_event succeeds fd p = (succeeds, p)

unfoldable pub add_timer_event : Bool → ℕ → ℕ → Poller → Bool × Poller
add_timer_event false fd event p = (false, p)
add_timer_event true fd event p = (true, record p { fd2timer = set_fd fd event p.fd2timer })

unfoldable pub remove_timer_event : Bool → ℕ → Poller → Bool × Poller
remove_timer_event false fd p = (false, p)
remove_timer_event true fd p = (true, record p { fd2timer = erase_fd fd p.fd2timer })

-- What `epoll_wait` gives: an error, or the descriptors that are ready, none at a timeout.
pub data Waited : Type 0 where
  wait_error : Waited
  ready : List ℕ → Waited

-- The loop of `Poll` over the state that the events change: `poller_of` finds the poller in it, and an
-- event at an address is handled by `handle_io` or `handle_timer`; the `read` of a timer's descriptor
-- changes nothing here. `none` is a descriptor of neither map, whose iterator is dereferenced at the end
-- of the map, or a fault of a callback.
module _ {S : Type 0} (poller_of : S → Poller) (handle_io handle_timer : ℕ → S → Option S) where
  unfoldable pub handle_ready : ℕ → S → Option S
  handle_ready fd s = elim (find_fd fd (poller_of s).fd2event) [
    | some event ↦ handle_io event s
    | none ↦ elim (find_fd fd (poller_of s).fd2timer) [
      | some event ↦ handle_timer event s
      | none ↦ none
    ]
  ]

  unfoldable pub handle_all : List ℕ → S → Option S
  handle_all [] s = some s
  handle_all (fd ∷ fds) s = elim (handle_ready fd s) [ none ↦ none | some s' ↦ handle_all fds s' ]

-- `Poll`; `resize` doubles the array of events where it was full.
abbrev pub grown : ℕ → Poller → Poller
grown count p = if p.events_size == count then record p { events_size = p.events_size * 2 } else p

unfoldable pub poll :
    {S : Type 0}
    → (S → Poller)
    → (Poller → S → S)
    → (ℕ → S → Option S)
    → (ℕ → S → Option S)
    → Waited
    → S
    → Option S
poll poller_of with_poller handle_io handle_timer wait_error s = some s
poll poller_of with_poller handle_io handle_timer (ready []) s = some s
poll poller_of with_poller handle_io handle_timer (ready (fd ∷ fds)) s =
    elim (handle_all poller_of handle_io handle_timer (fd ∷ fds) s) [
      | none ↦ none
      | some s' ↦ some (with_poller (grown (length (fd ∷ fds)) (poller_of s')) s')
    ]
