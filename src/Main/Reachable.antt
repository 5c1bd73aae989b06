-- ===== src/Main/Reachable.antt =====
-- The server between the turns of the loop.
use zrh_rtsp_server.Prelude.{
  ℕ, ◌≡◌, ◌≢◌, refl, ap, ◌∙◌, true, false, Bool-cases, some, List, [], ◌∷◌, length, arith,
  Option-cases, List-cases, inl, inr, ◌==◌,
}
use zrh_rtsp_server.MediaSession.{MediaSession}
use zrh_rtsp_server.FdMap.{find_fd, erase_fd, find-erase_fd}
use zrh_rtsp_server.RtspConnection.{RtspConnection}
use zrh_rtsp_server.RtspServer.{
  RtspServer, same_bytes, look_media_session, add_media_session, destroy, close_all,
  handle_close_connect, run_triggers, handle_trigger_event,
}
use zrh_rtsp_server.RtspServer.Closing.{Managed, destroy-Keeps, mem_fd}
use zrh_rtsp_server.RtspServer.Orderly.{destroy_leavable}
use zrh_rtsp_server.RtspServer.Serving.{
  IsSound, IsServing, IsSound-IsServing, serve_all-IsServing, all_distinct, IsClient,
}
use zrh_rtsp_server.RtspServer.Turns.{serve_all-IsSound}
use zrh_rtsp_server.Main.{main_server, new_server, Reach, start, turn}

-- The loop of `handleCloseConnect` that comes to its end closed connections that could be closed.
close_all_leavable :
    (fds : List ℕ) (s s' : RtspServer)
    → Managed s
    → close_all fds s ≡ some s'
    → all_distinct fds ≡ true
    → ((fd : ℕ)
        → mem_fd fd fds ≡ true
        → (c : RtspConnection) × (find_fd fd s.fd2conn ≡ some c) × IsClient fd c)
    → (fd : ℕ) (c : RtspConnection) → mem_fd fd fds ≡ true
    → find_fd fd s.fd2conn ≡ some c
    → length c.rtp_conns ≢ 1
unfolding close_all
close_all_leavable [] s s' managed run distinct there fd c h found = absurd (ground (arith, h))
close_all_leavable (next ∷ fds) s s' managed run distinct there fd c h found =
    let (d, at_next, (own, above, below)) = there next (ground arith) in
    let erased : RtspServer = record s { fd2conn = erase_fd next s.fd2conn } in
    elim (Option-cases (destroy d erased)) [
      | inl e ↦ absurd (ground (arith, run, at_next, e))
      | inr (s₁, e) ↦
          let leavable = destroy_leavable d erased s₁ e in
          let (s₂, run₂, kept, closed) =
            destroy-Keeps d erased managed leavable (omega (arith, own)) (omega (arith, own)) in
          let same : s₂ ≡ s₁ = ground (arith, run₂, e) in
          let once : mem_fd next fds ≡ false = ground (arith, distinct) in
          elim (Bool-cases (fd == next)) [
            | inl f ↦ let here : c ≡ d = ground (arith, f, found, at_next) in rw here leavable
            | inr f ↦
                close_all_leavable fds s₂ s' kept.managed (ground (arith, run, at_next, run₂))
                  (ground (arith, distinct))
                  (λ other k.
                    let (d', found', client) = there other (ground (arith, k)) in
                    let ne : other ≢ next =
                      λ q. absurd (ground (arith, k, once, ap (λ i. mem_fd i fds) q)) in
                    (
                      d',
                      ap (find_fd other) kept.fd2conn
                          ∙ ground (arith, find-erase_fd next other s.fd2conn, ne, found'),
                      client,
                    ))
                  fd c (ground (arith, h, f))
                  (ap (find_fd fd) kept.fd2conn
                    ∙ ground (arith, find-erase_fd next fd s.fd2conn, f, found))
          ]
    ]

-- A trigger event that came to its end.
handle_trigger_event_leavable :
    (s s' : RtspServer)
    → IsServing s
    → handle_trigger_event s ≡ some s'
    → (fd : ℕ) (c : RtspConnection) → mem_fd fd s.disconnect_list ≡ true
    → find_fd fd s.fd2conn ≡ some c
    → length c.rtp_conns ≢ 1
unfolding handle_trigger_event run_triggers handle_close_connect
handle_trigger_event_leavable s s' i done fd c h found = elim (List-cases s.disconnect_list) [
  | inl e ↦ absurd (ground (arith, h, ap (mem_fd fd) e))
  | inr (first, more, e) ↦
      let one : s.triggers ≡ 1 = ground (arith, i.triggered, e) in
      elim (Option-cases (close_all s.disconnect_list s)) [
        | inl f ↦ absurd (ground (arith, done, one, f))
        | inr (s₁, f) ↦
            close_all_leavable s.disconnect_list s s₁ i.managed f i.distinct
              (λ other k. let (d, there) = i.listed other k in (d, there, i.clients other d there))
              fd c h found
      ]
]

main_server-IsSound :
    (socket_fd address : ℕ) (session : MediaSession)
    → IsSound (main_server socket_fd address session)
unfolding main_server new_server add_media_session look_media_session find_fd
main_server-IsSound socket_fd address session = record {
  clients = λ fd c h. absurd (ground (arith, h));
  managed = λ name a h. elim (Bool-cases (same_bytes session.session_name name)) [
    | inl e ↦ (session, ground (arith, h, e))
    | inr e ↦ absurd (ground (arith, h, e))
  ];
  nothing_to_close = refl;
  no_trigger = refl;
}

-- In every state between two turns that the server of `main` comes to, where the descriptors ready in a
-- turn are distinct and `Accept` gives descriptors that no connection has, whatever clients send, and as
-- long as the program has met no fault: each connection of the table stands under its own positive
-- descriptor, every name of the manager has a session, no connection is left to be closed, and no trigger
-- event is left in the queue.
pub Reach-IsSound :
    (socket_fd address : ℕ) (session : MediaSession) {s : RtspServer}
    → Reach (main_server socket_fd address session) s
    → IsSound s
Reach-IsSound socket_fd address session start = main_server-IsSound socket_fd address session
Reach-IsSound socket_fd address session (turn {s} {s'} {s''} arrivals r distinct fresh run done) =
    let v = Reach-IsSound socket_fd address session r in
    let (i, resolved) =
      serve_all-IsServing arrivals s s' (IsSound-IsServing s v) distinct
        (λ fd h. ap (mem_fd fd) v.nothing_to_close) fresh run in
    let (s₁, done₁, sound, left, closed) =
      serve_all-IsSound arrivals s s' v distinct fresh run
        (handle_trigger_event_leavable s' s'' i done) in
    let same : s'' ≡ s₁ = ground (arith, done, done₁) in rw same sound
