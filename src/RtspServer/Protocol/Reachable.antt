-- ===== src/RtspServer/Protocol/Reachable.antt =====
-- Every state that polite clients lead to.
use zrh_rtsp_server.Prelude.{
  ℕ, ◌≡◌, ◌≢◌, refl, ap, none, some, List, [], ◌∷◌, arith, length, Option-cases, inl, inr,
}
use zrh_rtsp_server.FdMap.{find_fd, erase_fd, find-erase_fd}
use zrh_rtsp_server.RtspConnection.{RtspConnection}
use zrh_rtsp_server.RtspServer.{RtspServer, accepted, handle_read, destroy, close_all}
use zrh_rtsp_server.RtspServer.Orderly.{
  Freed, destroy-Freed, destroy_leavable, Shrinks-IsOrderly, same_sessions-Shrinks,
}
use zrh_rtsp_server.RtspServer.Protocol.{Reach, start, comes, asks, goes}
use zrh_rtsp_server.RtspServer.Protocol.Joining.{same_parts-Moves}
use zrh_rtsp_server.RtspServer.Protocol.Safety.{IsWell, put, put-AllStages, asks-IsWell}
use zrh_rtsp_server.RtspServer.Protocol.Stages.{fresh, Moves, Stage-Moves, Stage-IsOrderly}

comes-IsWell :
    (fd : ℕ) (memory : RtspConnection) (s s' : RtspServer)
    → IsWell s
    → find_fd fd s.fd2conn ≡ none
    → handle_read fd memory s ≡ some s'
    → IsWell s'
unfolding handle_read
comes-IsWell fd memory s s' v free run =
    let watched : RtspServer = record s { watched = fd ∷ s.watched } in
    let c = accepted fd memory s in
    let same : s' ≡ put fd c watched = ground (arith, run, free) in
    rw same (record {
      resolved = v.resolved;
      managed = v.managed;
      bounded = v.bounded;
      stages = λ other d h.
          Stage-Moves d s (put fd c watched) (same_parts-Moves s (put fd c watched) refl refl refl)
            (put-AllStages fd c s s v.stages (same_parts-Moves s s refl refl refl) refl (fresh refl)
              other d h);
    })

Freed-Moves : (s s' : RtspServer) → Freed s s' → Moves s s'
Freed-Moves s s' freed = record {
  manager = freed.shrinks.manager;
  next = omega (arith, freed.next);
  came_from = λ address m' h.
      let (m, there, on_first, on_second) = freed.shrinks.shrunk address m' h in
      (m, there, (λ p bound. on_first p), λ p bound. on_second p);
}

goes-IsWell : (fd : ℕ) (s s' : RtspServer) → IsWell s → close_all (fd ∷ []) s ≡ some s' → IsWell s'
unfolding close_all
goes-IsWell fd s s' v run = elim (Option-cases (find_fd fd s.fd2conn)) [
  | inl e ↦ absurd (ground (arith, run, e))
  | inr (c, e) ↦
      let erased : RtspServer = record s { fd2conn = erase_fd fd s.fd2conn } in
      let step : destroy c erased ≡ some s' = ground (arith, run, e) in
      let whole : (p : ℕ) → c.rtp_conns ≢ p ∷ [] =
        λ p one. destroy_leavable c erased s' step (ap (λ (l : List ℕ). length l) one) in
      let orderly =
        Shrinks-IsOrderly c s erased (same_sessions-Shrinks s erased refl refl)
          (Stage-IsOrderly c s (v.stages fd c e) whole) in
      let freed = destroy-Freed c erased s' v.managed orderly v.resolved step in
      let moves = Freed-Moves erased s' freed in
      record {
        resolved = freed.resolved;
        managed = freed.managed;
        bounded = λ address m' h p bound.
            let (m, there, on_first, on_second) = freed.shrinks.shrunk address m' h in
            let (k, k') = v.bounded address m there p (omega (arith, freed.next, bound)) in
            (on_first p k, on_second p k');
        stages = λ other d h.
            let there : find_fd other s.fd2conn ≡ some d =
              ground
                (arith, find-erase_fd fd other s.fd2conn, ap (find_fd other) freed.fd2conn, h) in
            Stage-Moves d erased s' moves (
              Stage-Moves d s erased (same_parts-Moves s erased refl refl refl)
                (v.stages other d there));
      }
]

pub Reach-IsWell : {s₀ s : RtspServer} → IsWell s₀ → Reach s₀ s → IsWell s
Reach-IsWell v start = v
Reach-IsWell v (comes {s} {s'} fd memory r free run) =
    comes-IsWell fd memory s s' (Reach-IsWell v r) free run
Reach-IsWell v (asks {s} {s'} {c''} {b} fd time memory sockets c c' r found conns name polite run) =
    asks-IsWell fd time c memory sockets c' c'' b s s' (Reach-IsWell v r) found conns name polite
      run
Reach-IsWell v (goes {s} {s'} fd r run) = goes-IsWell fd s s' (Reach-IsWell v r) run
