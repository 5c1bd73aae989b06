-- ===== src/RtspServer/Resolved.antt =====
-- A turn of the loop and the pointers of the tracks.
use zrh_rtsp_server.Prelude.{
  ℕ, ◌≡◌, ◌≢◌, ap, true, some, List, [], map, length, arith, Option-cases, List-cases, inl, inr,
}
use zrh_rtsp_server.FdMap.{find_fd}
use zrh_rtsp_server.RtspConnection.{RtspConnection}
use zrh_rtsp_server.RtspServer.{
  RtspServer, handle_trigger_event, run_triggers, handle_close_connect, close_all,
}
use zrh_rtsp_server.RtspServer.Closing.{mem_fd}
use zrh_rtsp_server.RtspServer.Loop.{Arrival, fd_of, serve_all}
use zrh_rtsp_server.RtspServer.Orderly.{IsOrderly, close_all-Freed}
use zrh_rtsp_server.RtspServer.Pointers.{NoDangling}
use zrh_rtsp_server.RtspServer.Serving.{
  AllFresh, IsServing, IsSound, IsSound-IsServing, all_distinct, serve_all-IsServing,
}
use zrh_rtsp_server.RtspServer.Turns.{serve_all-IsSound}

IsOrderly-leavable : (c : RtspConnection) (s : RtspServer) → IsOrderly c s → length c.rtp_conns ≢ 1
IsOrderly-leavable c s (inl e) one = absurd (ground (arith, one, ap (λ (l : List ℕ). length l) e))
IsOrderly-leavable c s (inr pair) one =
    absurd (ground (arith, one, ap (λ (l : List ℕ). length l) pair.conns))

pub handle_trigger_event-NoDangling :
    (s s' : RtspServer)
    → IsServing s
    → ((fd : ℕ) (c : RtspConnection)
        → mem_fd fd s.disconnect_list ≡ true
        → find_fd fd s.fd2conn ≡ some c
        → IsOrderly c s)
    → NoDangling s
    → handle_trigger_event s ≡ some s'
    → NoDangling s'
unfolding handle_trigger_event run_triggers handle_close_connect
handle_trigger_event-NoDangling s s' i orderly v run = elim (List-cases s.disconnect_list) [
  | inl e ↦
      let zero_added : s.triggers ≡ 0 = ground (arith, i.triggered, e) in
      let same : s' ≡ record s { triggers = 0 } = ground (arith, run, zero_added) in rw same v
  | inr (fd, fds, e) ↦
      let one : s.triggers ≡ 1 = ground (arith, i.triggered, e) in
      elim (Option-cases (close_all s.disconnect_list s)) [
        | inl f ↦ absurd (ground (arith, run, one, f))
        | inr (s₁, f) ↦
            let v₁ = close_all-Freed s.disconnect_list s s₁ i.managed orderly v f in
            let same : s' ≡ record s₁ { disconnect_list = []; triggers = 0 } =
              ground (arith, run, one, f) in
            rw same v₁
      ]
]

-- A turn of the loop and the heap of RTP connections, which are freed with the connection that they belong
-- to while the tracks hold plain pointers to them. From a server as between two turns in which no track
-- holds a pointer to a freed connection, let distinct descriptors be ready, `Accept` give descriptors that
-- no connection has, and the server serve all of them without a fault, whatever the clients send. Let each
-- connection that is then given up be orderly: it has no RTP connection, or two of which the first is only
-- on the first track of its session and the second only on the second one. Then no track holds a pointer
-- to a freed connection after the serving, `handleTriggerEvent` comes to its end and leaves the server as
-- between two turns again, and no track holds a pointer to a freed connection after it.
pub serve_all-NoDangling :
    (arrivals : List Arrival) (s s' : RtspServer)
    → IsSound s
    → NoDangling s
    → all_distinct (map fd_of arrivals) ≡ true
    → AllFresh arrivals s
    → serve_all arrivals s ≡ some s'
    → ((fd : ℕ) (c : RtspConnection)
        → mem_fd fd s'.disconnect_list ≡ true
        → find_fd fd s'.fd2conn ≡ some c
        → IsOrderly c s')
    → (s'' : RtspServer) × (handle_trigger_event s' ≡ some s'')
      × IsSound s''
      × NoDangling s'
      × NoDangling s''
serve_all-NoDangling arrivals s s' v resolved distinct fresh run orderly =
    let (i, later) =
      serve_all-IsServing arrivals s s' (IsSound-IsServing s v) distinct
        (λ fd h. ap (mem_fd fd) v.nothing_to_close) fresh run in
    let (s'', done, sound, left, closed) =
      serve_all-IsSound arrivals s s' v distinct fresh run
        (λ fd c h found. IsOrderly-leavable c s' (orderly fd c h found)) in
    (
      s'',
      done,
      sound,
      later resolved,
      handle_trigger_event-NoDangling s' s'' i orderly (later resolved) done,
    )
