-- ===== src/RtspServer/Turns.antt =====
-- What a turn of the loop keeps.
use zrh_rtsp_server.Prelude.{
  ℕ, ◌≡◌, ◌≢◌, refl, sym, ap, ◌∙◌, true, false, none, some, List, [], ◌∷◌, map, Bool-cases,
  if◌then◌else◌, length, arith, List-cases, inl, inr,
}
use zrh_rtsp_server.FdMap.{find_fd, erase_fd, find-erase_fd}
use zrh_rtsp_server.RtspConnection.{RtspConnection}
use zrh_rtsp_server.RtspServer.{
  RtspServer, handle_trigger_event, run_triggers, handle_close_connect,
}
use zrh_rtsp_server.RtspServer.Closing.{
  Managed, Closable, nil, cons, close_all-Closed, erase_fds, reverse_onto, mem_fd, find-erase_fds,
}
use zrh_rtsp_server.RtspServer.Loop.{Arrival, fd_of, serve_all}
use zrh_rtsp_server.RtspServer.Serving.{
  AllFresh, IsClient, IsServing, IsSound, IsSound-IsServing, all_distinct, serve_all-IsServing,
}

-- Distinct descriptors of clients that can leave can be closed one after the other.
all_distinct-Closable :
    (fds : List ℕ) (conns : List (ℕ × RtspConnection))
    → all_distinct fds ≡ true
    → ((fd : ℕ)
        → mem_fd fd fds ≡ true
        → (c : RtspConnection) × (find_fd fd conns ≡ some c)
          × IsClient fd c
          × (length c.rtp_conns ≢ 1))
    → Closable fds conns
all_distinct-Closable [] conns distinct there = nil
all_distinct-Closable (fd ∷ fds) conns distinct there =
    let (c, found, (own, above, below), leavable) = there fd (ground arith) in
    let once : mem_fd fd fds ≡ false = ground (arith, distinct) in
    cons found own above below leavable (
      all_distinct-Closable fds (erase_fd fd conns) (ground (arith, distinct)) (λ other h.
        let (c', found', client, leavable') = there other (ground (arith, h)) in
        let ne : other ≢ fd = λ e. absurd (ground (arith, h, once, ap (λ k. mem_fd k fds) e)) in
        (c', ground (arith, found', find-erase_fd fd other conns, ne), client, leavable')))

-- The queue worked off.
IsServing-handle_trigger_event :
    (s : RtspServer)
    → IsServing s
    → Closable s.disconnect_list s.fd2conn
    → (s' : RtspServer) × (handle_trigger_event s ≡ some s')
      × (s'.fd2conn ≡ erase_fds s.disconnect_list s.fd2conn)
      × (s'.closed ≡ reverse_onto s.disconnect_list s.closed)
      × Managed s'
      × (s'.disconnect_list ≡ [])
      × (s'.triggers ≡ 0)
unfolding handle_trigger_event run_triggers handle_close_connect
IsServing-handle_trigger_event s i closable = elim (List-cases s.disconnect_list) [
  | inl e ↦
      let none_added : s.triggers ≡ 0 = ground (arith, i.triggered, e) in
      (
        record s { triggers = 0 },
        rw none_added refl,
        ap (λ l. erase_fds l s.fd2conn) (sym e),
        ap (λ l. reverse_onto l s.closed) (sym e),
        i.managed,
        e,
        refl,
      )
  | inr (fd, fds, e) ↦
      let one : s.triggers ≡ 1 = ground (arith, i.triggered, e) in
      let (s', run, closed) = close_all-Closed closable s refl i.managed in
      (
        record s' { disconnect_list = []; triggers = 0 },
        rw one (ground (arith, run)),
        closed.fd2conn,
        closed.closed,
        closed.managed,
        refl,
        refl,
      )
]

-- A turn of the loop, from a server between two turns: its connections stand in the table under their own
-- positive descriptors, every name of its manager has a session, and nothing is to be closed. Let distinct
-- descriptors be ready, `Accept` give descriptors that no connection has, and the server serve all of
-- them without a fault, whatever the clients send. Then, unless a connection that was given up has exactly
-- one RTP connection, the next `handleTriggerEvent` meets no failing assertion and no fault: it takes
-- exactly the connections that were given up out of the table, closes each descriptor once, in order, and
-- leaves the server as between two turns again.
pub serve_all-IsSound :
    (arrivals : List Arrival) (s s' : RtspServer)
    → IsSound s
    → all_distinct (map fd_of arrivals) ≡ true
    → AllFresh arrivals s
    → serve_all arrivals s ≡ some s'
    → ((fd : ℕ) (c : RtspConnection)
        → mem_fd fd s'.disconnect_list ≡ true
        → find_fd fd s'.fd2conn ≡ some c
        → length c.rtp_conns ≢ 1)
    → (s'' : RtspServer) × (handle_trigger_event s' ≡ some s'')
      × IsSound s''
      × ((fd : ℕ)
          → find_fd fd s''.fd2conn
            ≡ (if mem_fd fd s'.disconnect_list then none else find_fd fd s'.fd2conn))
      × (s''.closed ≡ reverse_onto s'.disconnect_list s'.closed)
serve_all-IsSound arrivals s s' v distinct fresh run leavable =
    let (i, resolved) =
      serve_all-IsServing arrivals s s' (IsSound-IsServing s v) distinct
        (λ fd h. ap (mem_fd fd) v.nothing_to_close) fresh run in
    let closable = all_distinct-Closable s'.disconnect_list s'.fd2conn i.distinct (λ fd h.
      let (c, found) = i.listed fd h in (c, found, i.clients fd c found, leavable fd c h found)) in
    let (s'', done, table, closed, managed, list, triggers) =
      IsServing-handle_trigger_event s' i closable in
    let left : (fd : ℕ)
        → find_fd fd s''.fd2conn
          ≡ (if mem_fd fd s'.disconnect_list then none else find_fd fd s'.fd2conn) =
      λ fd. ap (find_fd fd) table ∙ find-erase_fds s'.disconnect_list fd s'.fd2conn in
    (
      s'',
      done,
      record {
        clients = λ fd c h. elim (Bool-cases (mem_fd fd s'.disconnect_list)) [
          | inl e ↦ absurd (ground (arith, h, left fd, e))
          | inr e ↦ i.clients fd c (ground (arith, h, left fd, e))
        ];
        managed = managed;
        nothing_to_close = list;
        no_trigger = triggers;
      },
      left,
      closed,
    )
