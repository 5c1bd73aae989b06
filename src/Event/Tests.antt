-- ===== src/Event/Tests.antt =====
-- Instances of the theorems on events.
use zrh_rtsp_server.Prelude.{ℕ, ◌/◌, ◌<◌, ◌≡◌, refl, true, arith, some}
use zrh_rtsp_server.Event.{
  IoEvent, new_io_event, event_read, event_write, enable, disable, is_handling, timer_spec,
}
use zrh_rtsp_server.Event.Flags.{read, write, enable-disable}
use zrh_rtsp_server.Event.Interval.{is_periodic, timer_spec-fps}

-- A client's event, with reading enabled.
abbrev client : IoEvent ℕ
client = record (new_io_event 7) { event = event_read; read_call_back = some 1 }

enabled :
    enable event_read (new_io_event {C = ℕ} 7) ≡ record (new_io_event 7) { event = event_read }
unfolding enable new_io_event
enabled = refl

client_reading :
    (is_handling event_read (enable event_write client) ≡ true)
    × (is_handling event_read (disable event_write client) ≡ true)
    × ((enable event_write client).event < 8)
    × ((disable event_write client).event < 8)
unfolding is_handling new_io_event
client_reading = enable-disable client (omega arith) event_write event_read (write refl) (read refl)

timer_spec-fps_example :
    (is_periodic (timer_spec (1000 / 25)) ≡ true)
    × ((timer_spec (1000 / 25)).interval_nsec ≡ 40000000)
timer_spec-fps_example = timer_spec-fps 25 (omega arith)
