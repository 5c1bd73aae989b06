-- ===== src/RtspServer/Protocol/Joining.antt =====
-- A client that sets up a track whose turn it is, and the others meanwhile.
use mathlib.Core.Path.{subst}
use zrh_rtsp_server.Prelude.{
  ℕ, ◌≤◌, ◌≡◌, ◌≢◌, refl, sym, ap, ◌∙◌, false, Option, some, List, [], ◌∷◌, ◌++◌, ◌==◌,
  if◌then◌else◌, arith, ℕ_discrete, inl, inr, ◌⊎◌,
}
use zrh_rtsp_server.MediaSession.{
  MediaSession, TrackId, track_id_none, track_id0, track_id1, add_rtp_connection,
}
use zrh_rtsp_server.FdMap.{find_fd}
use zrh_rtsp_server.RtspConnection.{RtspConnection}
use zrh_rtsp_server.RtspServer.{RtspServer, look_media_session}
use zrh_rtsp_server.RtspServer.Closing.{mem_fd}
use zrh_rtsp_server.RtspServer.Serving.{mem_fd-append}
use zrh_rtsp_server.RtspServer.Protocol.{Next, first, second}
use zrh_rtsp_server.RtspServer.Protocol.Stages.{
  OnlyOn, Stage, fresh, half, full, Moves, Stage-Moves, first_track, second_track,
}
use zrh_rtsp_server.RtspServer.Protocol.Steps.{Joined}

-- Pointers that are not handed out yet are on no track.
abbrev pub AllBounded : RtspServer → Type 0
AllBounded s =
    (address : ℕ) (m : MediaSession)
    → s.sessions address ≡ some m
    → (p : ℕ) → s.rtp_next ≤ p
    → (mem_fd p (first_track m) ≡ false) × (mem_fd p (second_track m) ≡ false)

-- The table, the connection of one descriptor apart.
abbrev pub AllStages : RtspServer → Type 0
AllStages s = (fd : ℕ) (c : RtspConnection) → find_fd fd s.fd2conn ≡ some c → Stage c s

pub same_parts-Moves :
    (s s' : RtspServer)
    → s'.manager ≡ s.manager
    → s'.sessions ≡ s.sessions
    → s'.rtp_next ≡ s.rtp_next
    → Moves s s'
same_parts-Moves s s' e f g = record {
  manager = e;
  next = omega (arith, g);
  came_from = λ address m' h. (
    m',
    ap (λ (heap : ℕ → Option MediaSession). heap address) (sym f) ∙ h,
    (λ p bound k. k),
    λ p bound k. k,
  );
}

pub same_parts-AllBounded :
    (s s' : RtspServer)
    → s'.sessions ≡ s.sessions
    → s'.rtp_next ≡ s.rtp_next
    → AllBounded s
    → AllBounded s'
same_parts-AllBounded s s' f g v address m h p bound =
    v address m (ap (λ (heap : ℕ → Option MediaSession). heap address) (sym f) ∙ h) p
      (omega (arith, g, bound))

-- What `add_rtp_connection` does to the two lists.
add-tracks :
    (id : TrackId) (m : MediaSession) (p q : ℕ)
    → let m' = add_rtp_connection m id q in
      p ≢ q
      → (mem_fd p (first_track m) ≡ false → mem_fd p (first_track m') ≡ false)
        × (mem_fd p (second_track m) ≡ false → mem_fd p (second_track m') ≡ false)
unfolding add_rtp_connection
add-tracks track_id0 m p q ne =
    ((λ h. ground (arith, ne, h, mem_fd-append p q (first_track m))), λ h. h)
add-tracks track_id1 m p q ne =
    ((λ h. h), λ h. ground (arith, ne, h, mem_fd-append p q (second_track m)))
add-tracks track_id_none m p q ne =
    ((λ h. h), λ h. ground (arith, ne, h, mem_fd-append p q (second_track m)))

module _ (id : TrackId) (address : ℕ) (m : MediaSession) (c c' : RtspConnection) (s s' : RtspServer)
    (joined : Joined id address m c c' s s') (there : s.sessions address ≡ some m)
    (bounded : AllBounded s) where
  sessions-Joined :
      (other : ℕ)
      → s'.sessions other
        ≡ (if other == address then some (add_rtp_connection m id s.rtp_next) else s.sessions other)
  sessions-Joined other = ap (λ (heap : ℕ → Option MediaSession). heap other) joined.sessions

  -- A session afterwards is the session that was joined, or as it was.
  session-cases :
      (other : ℕ) (m' : MediaSession)
      → s'.sessions other ≡ some m'
      → ((other ≡ address) × (m' ≡ add_rtp_connection m id s.rtp_next))
        ⊎ ((other ≢ address) × (s.sessions other ≡ some m'))
  session-cases other m' h = elim (ℕ_discrete other address) [
    | yes e ↦ inl (e, ground (arith, h, sessions-Joined other, e))
    | no ne ↦ inr (ne, ground (arith, h, sessions-Joined other, ne))
  ]

  pub Joined-Moves : Moves s s'
  Joined-Moves = record {
    manager = joined.manager;
    next = omega (arith, joined.next);
    came_from = λ other m' h. elim (session-cases other m' h) [
      | inl (e, same) ↦ (
        m,
        ap s.sessions e ∙ there,
        (λ p bound k.
            rw same ((add-tracks id m p s.rtp_next (λ q. absurd (omega (arith, q, bound)))).0 k)),
        λ p bound k.
            rw same ((add-tracks id m p s.rtp_next (λ q. absurd (omega (arith, q, bound)))).1 k),
      )
      | inr (ne, old) ↦ (m', old, (λ p bound k. k), λ p bound k. k)
    ];
  }

  pub Joined-AllBounded : AllBounded s'
  Joined-AllBounded other m' h p bound =
      let low : s.rtp_next ≤ p = omega (arith, joined.next, bound) in
      elim (session-cases other m' h) [
        | inl (e, same) ↦
            let (on_first, on_second) = bounded address m there p low in
            let (kept_first, kept_second) =
              add-tracks id m p s.rtp_next (λ q. absurd (omega (arith, q, joined.next, bound))) in
            rw same (kept_first on_first, kept_second on_second)
        | inr (ne, old) ↦ bounded other m' old p low
      ]

new_first :
    (address : ℕ) (m : MediaSession) (c c' : RtspConnection) (s s' : RtspServer)
    → Joined track_id0 address m c c' s s'
    → s.sessions address ≡ some m
    → AllBounded s
    → OnlyOn s.rtp_next address first_track second_track s'
unfolding add_rtp_connection
new_first address m c c' s s' joined there bounded = record {
  bound = omega (arith, joined.next);
  elsewhere = λ other m' h ne.
      elim (session-cases track_id0 address m c c' s s' joined there bounded other m' h) [
        | inl (e, same) ↦ absurd (ne e)
        | inr (ne, old) ↦ (bounded other m' old s.rtp_next (omega arith)).0
      ];
  never = λ other m' h.
      elim (session-cases track_id0 address m c c' s s' joined there bounded other m' h) [
        | inl (e, same) ↦
            ap (mem_fd s.rtp_next) (ap second_track same)
            ∙ (bounded address m there s.rtp_next (omega arith)).1
        | inr (ne, old) ↦ (bounded other m' old s.rtp_next (omega arith)).1
      ];
}

new_second :
    (address : ℕ) (m : MediaSession) (c c' : RtspConnection) (s s' : RtspServer)
    → Joined track_id1 address m c c' s s'
    → s.sessions address ≡ some m
    → AllBounded s
    → OnlyOn s.rtp_next address second_track first_track s'
unfolding add_rtp_connection
new_second address m c c' s s' joined there bounded = record {
  bound = omega (arith, joined.next);
  elsewhere = λ other m' h ne.
      elim (session-cases track_id1 address m c c' s s' joined there bounded other m' h) [
        | inl (e, same) ↦ absurd (ne e)
        | inr (ne, old) ↦ (bounded other m' old s.rtp_next (omega arith)).1
      ];
  never = λ other m' h.
      elim (session-cases track_id1 address m c c' s s' joined there bounded other m' h) [
        | inl (e, same) ↦
            ap (mem_fd s.rtp_next) (ap first_track same)
            ∙ (bounded address m there s.rtp_next (omega arith)).0
        | inr (ne, old) ↦ (bounded other m' old s.rtp_next (omega arith)).0
      ];
}

Next-cases :
    {conns : List ℕ} {id : TrackId}
    → Next conns id
    → ((conns ≡ []) × (id ≡ track_id0)) ⊎ ((p : ℕ) × (conns ≡ p ∷ []) × (id ≡ track_id1))
Next-cases first = inl (refl, refl)
Next-cases (second p) = inr (p, refl, refl)

-- The client that set up the track whose turn it was has come one step further.
pub Joined-Stage :
    (id : TrackId) (address : ℕ) (m : MediaSession) (c c' : RtspConnection) (s s' : RtspServer)
    → Joined id address m c c' s s'
    → s.sessions address ≡ some m
    → AllBounded s
    → look_media_session c.session_name s.manager ≡ some address
    → Next c.rtp_conns id
    → Stage c s
    → Stage c' s'
Joined-Stage id address m c c' s s' joined there bounded looked next stage =
    let looked' : look_media_session c'.session_name s'.manager ≡ some address =
      rw (joined.name, joined.manager) looked in
    elim (Next-cases next) [
      | inl (none_yet, e) ↦
          let joined₀ = subst (λ i. Joined i address m c c' s s') e joined in
          half s.rtp_next address (joined.conns ∙ ap (λ ps. ps ++ s.rtp_next ∷ []) none_yet) looked'
            (new_first address m c c' s s' joined₀ there bounded)
      | inr (p, one, e) ↦
          let joined₁ = subst (λ i. Joined i address m c c' s s') e joined in
          let conns : c'.rtp_conns ≡ p ∷ s.rtp_next ∷ [] =
            joined.conns ∙ ap (λ ps. ps ++ s.rtp_next ∷ []) one in
          let moved =
            Stage-Moves c s s' (Joined-Moves id address m c c' s s' joined there bounded) stage in
          elim moved [
            | fresh none_yet ↦ absurd (ground (arith, one, none_yet))
            | half p' address' one' looked₀ o ↦
                let same : p' ≡ p = ground (arith, one, one') in
                let same_address : address' ≡ address =
                  ground (
                    arith,
                    looked₀,
                    looked,
                    ap (look_media_session c.session_name) joined.manager,
                  ) in
                full p s.rtp_next address conns looked'
                  (subst (λ a. OnlyOn p a first_track second_track s') same_address
                    (subst (λ k. OnlyOn k address' first_track second_track s') same o))
                  (new_second address m c c' s s' joined₁ there bounded)
            | full p' q address' two looked₀ o o' ↦ absurd (ground (arith, one, two))
          ]
    ]
