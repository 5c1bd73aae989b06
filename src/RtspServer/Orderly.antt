-- ===== src/RtspServer/Orderly.antt =====
-- What closing a connection whose tracks were set up in order does to the pointers of the tracks: its RTP connections are freed with it.
use zrh_rtsp_server.Prelude.{
  ℕ, ◌≡◌, ◌≢◌, refl, sym, ap, ◌∙◌, true, false, Option, some, List, [], ◌∷◌, ◌==◌, if◌then◌else◌,
  arith, ℕ_discrete, Option-cases, List-cases, length, inl, inr, ◌⊎◌,
}
use zrh_rtsp_server.MediaSession.{track_id0, track_id1, MediaSession, remove_rtp_connection}
use zrh_rtsp_server.RtspConnection.{RtspConnection}
use zrh_rtsp_server.FdMap.{find_fd, erase_fd, find-erase_fd}
use zrh_rtsp_server.RtspServer.{
  RtspServer, update, look_media_session, handle_session_remove, leave_session, free_all, destroy,
  unwatch, close_all,
}
use zrh_rtsp_server.RtspServer.Closing.{Managed, mem_fd}
use zrh_rtsp_server.RtspServer.Pointers.{NoDangling, Extends-NoDangling, same_store-Extends}
use zrh_rtsp_server.RtspServer.Freeing.{
  IsAlone, IsAbsent, left-SessionPoints, absent-SessionPoints, left-shrunk,
}

-- A destructor that comes to its end had not exactly one RTP connection.
pub destroy_leavable :
    (c : RtspConnection) (s s' : RtspServer) → destroy c s ≡ some s' → length c.rtp_conns ≢ 1
unfolding destroy leave_session
destroy_leavable c s s' run one = elim (List-cases c.rtp_conns) [
  | inl e ↦ absurd (ground (arith, one, ap (λ (l : List ℕ). length l) e))
  | inr (first, more, e) ↦ elim (List-cases more) [
    | inl f ↦ absurd (ground (arith, run, e, f))
    | inr (second, others, f) ↦
        absurd
          (omega (arith, one, ap (λ (l : List ℕ). length l) e, ap (λ (l : List ℕ). length l) f))
  ]
]

pub record IsPair (c : RtspConnection) (s : RtspServer) : Type 0 where
  pub first : ℕ
  pub second : ℕ
  pub conns : c.rtp_conns ≡ first ∷ second ∷ []
  pub address : ℕ
  pub looked : look_media_session c.session_name s.manager ≡ some address
  pub own : (m : MediaSession) → s.sessions address ≡ some m → IsAlone first second m
  pub others :
      (other : ℕ) (m : MediaSession)
      → other ≢ address
      → s.sessions other ≡ some m
      → IsAbsent first second m

-- Closing a connection changes the sessions by taking pointers out of their lists.
pub record Shrinks (s s' : RtspServer) : Type 0 where
  pub manager : s'.manager ≡ s.manager
  pub shrunk :
      (address : ℕ) (m' : MediaSession)
      → s'.sessions address ≡ some m'
      → (m : MediaSession) × (s.sessions address ≡ some m)
        × ((p : ℕ) → mem_fd p m.track0.rtp_conns ≡ false → mem_fd p m'.track0.rtp_conns ≡ false)
        × ((p : ℕ) → mem_fd p m.track1.rtp_conns ≡ false → mem_fd p m'.track1.rtp_conns ≡ false)

Shrinks-IsPair : (c : RtspConnection) (s s' : RtspServer) → Shrinks s s' → IsPair c s → IsPair c s'
Shrinks-IsPair c s s' less pair = record {
  first = pair.first;
  second = pair.second;
  conns = pair.conns;
  address = pair.address;
  looked = ap (look_media_session c.session_name) less.manager ∙ pair.looked;
  own = λ m' h.
      let (m, there, less0, less1) = less.shrunk pair.address m' h in
      let (apart1, apart0) = pair.own m there in
      (less1 pair.first apart1, less0 pair.second apart0);
  others = λ other m' ne h.
      let (m, there, less0, less1) = less.shrunk other m' h in
      let ((first1, second0), first0, second1) = pair.others other m ne there in
      (
        (less1 pair.first first1, less0 pair.second second0),
        less0 pair.first first0,
        less1 pair.second second1,
      );
}

-- A connection that has no RTP connection, or its two in order.
abbrev pub IsOrderly : RtspConnection → RtspServer → Type 0
IsOrderly c s = (c.rtp_conns ≡ []) ⊎ IsPair c s

pub Shrinks-IsOrderly :
    (c : RtspConnection) (s s' : RtspServer) → Shrinks s s' → IsOrderly c s → IsOrderly c s'
Shrinks-IsOrderly c s s' less (inl e) = inl e
Shrinks-IsOrderly c s s' less (inr pair) = inr (Shrinks-IsPair c s s' less pair)

leave_session-IsPair :
    (c : RtspConnection) (s : RtspServer) (pair : IsPair c s) (m : MediaSession)
    → s.sessions pair.address ≡ some m
    → let m₁ = remove_rtp_connection m track_id0 pair.first in
      let m₂ = remove_rtp_connection m₁ track_id1 pair.second in
      leave_session c s
      ≡ some (record s { sessions = update (update s.sessions pair.address m₁) pair.address m₂ })
unfolding leave_session handle_session_remove
leave_session-IsPair c s pair m there = ground (arith, pair.conns, pair.looked, there)

pub destroy_lem :
    (c : RtspConnection) (s s₁ s' : RtspServer)
    → leave_session c (record s { watched = unwatch c.client_fd s.watched }) ≡ some s₁
    → destroy c s ≡ some s'
    → (s'.sessions ≡ s₁.sessions)
      × (s'.rtp_store ≡ free_all c.rtp_conns s₁.rtp_store)
      × (s'.manager ≡ s₁.manager)
      × (s'.fd2conn ≡ s₁.fd2conn)
      × (s'.rtp_next ≡ s₁.rtp_next)
unfolding destroy
destroy_lem c s s₁ s' left run = ground (arith, left, run)

leave_session-empty :
    (c : RtspConnection) (s : RtspServer) → c.rtp_conns ≡ [] → leave_session c s ≡ some s
unfolding leave_session
leave_session-empty c s e = ground (arith, e)

pub record Freed (s s' : RtspServer) : Type 0 where
  pub fd2conn : s'.fd2conn ≡ s.fd2conn
  pub managed : Managed s'
  pub next : s'.rtp_next ≡ s.rtp_next
  pub shrinks : Shrinks s s'
  pub resolved : NoDangling s'

pub same_sessions-Shrinks :
    (s s' : RtspServer) → s'.manager ≡ s.manager → s'.sessions ≡ s.sessions → Shrinks s s'
same_sessions-Shrinks s s' e f = record {
  manager = e;
  shrunk = λ address m h.
      (m, ap (λ (heap : ℕ → Option MediaSession). heap address) (sym f) ∙ h, (λ p k. k), λ p k. k);
}

-- An orderly connection leaves its session, and its RTP connections are freed.
pub destroy-Freed :
    (c : RtspConnection) (s s' : RtspServer)
    → Managed s
    → IsOrderly c s
    → NoDangling s
    → destroy c s ≡ some s'
    → Freed s s'
unfolding free_all
destroy-Freed c s s' managed (inl e) v run =
    let (sessions, store, manager, table, next) =
      destroy_lem c s _ s' (leave_session-empty c _ e) run in
    let same : s'.rtp_store ≡ s.rtp_store = store ∙ ap (λ ps. free_all ps s.rtp_store) e in
    record {
      fd2conn = table;
      next = next;
      managed = λ name address h.
          let (m, found) = managed name address (ap (look_media_session name) (sym manager) ∙ h) in
          (m, ap (λ (heap : ℕ → Option MediaSession). heap address) sessions ∙ found);
      shrinks = same_sessions-Shrinks s s' manager sessions;
      resolved = Extends-NoDangling s s' sessions (same_store-Extends same) v;
    }
destroy-Freed c s s' managed (inr pair) v run =
    let (m, there) = managed c.session_name pair.address pair.looked in
    let unwatched : RtspServer = record s { watched = unwatch c.client_fd s.watched } in
    let (sessions, store, manager, table, next) =
      destroy_lem c s _ s'
        (leave_session-IsPair c unwatched
          (record {
            first = pair.first;
            second = pair.second;
            conns = pair.conns;
            address = pair.address;
            looked = pair.looked;
            own = pair.own;
            others = pair.others;
          })
          m there)
        run in
    let m₁ = remove_rtp_connection m track_id0 pair.first in
    let m₂ = remove_rtp_connection m₁ track_id1 pair.second in
    let heap : s'.rtp_store ≡ free_all (pair.first ∷ pair.second ∷ []) s.rtp_store =
      store ∙ ap (λ ps. free_all ps s.rtp_store) pair.conns in
    let at : (other : ℕ)
        → s'.sessions other ≡ (if other == pair.address then some m₂ else s.sessions other) =
      λ other. ap (λ (heap : ℕ → Option MediaSession). heap other) sessions ∙ ground arith in
    record {
      fd2conn = table;
      next = next;
      managed = λ name other h.
          let (m', found) = managed name other (ap (look_media_session name) (sym manager) ∙ h) in
          elim (ℕ_discrete other pair.address) [
            | yes e ↦ (m₂, ground (arith, at other, e))
            | no ne ↦ (m', ground (arith, at other, ne, found))
          ];
      shrinks = record {
        manager = manager;
        shrunk = λ other m' h. elim (ℕ_discrete other pair.address) [
          | yes e ↦
              let same : m' ≡ m₂ = ground (arith, h, at other, e) in
              (
                m,
                ap s.sessions e ∙ there,
                (λ p k.
                    ap (λ (n : MediaSession). mem_fd p n.track0.rtp_conns) same
                    ∙ (left-shrunk pair.first pair.second p m).0 k),
                λ p k.
                    ap (λ (n : MediaSession). mem_fd p n.track1.rtp_conns) same
                    ∙ (left-shrunk pair.first pair.second p m).1 k,
              )
          | no ne ↦ (m', ground (arith, h, at other, ne), (λ p k. k), λ p k. k)
        ];
      };
      resolved = λ other m' h. elim (ℕ_discrete other pair.address) [
        | yes e ↦
            let same : m' ≡ m₂ = ground (arith, h, at other, e) in
            rw (heap, same)
              (left-SessionPoints s.rtp_store pair.first pair.second m (pair.own m there)
                (v pair.address m there))
        | no ne ↦
            let found : s.sessions other ≡ some m' = ground (arith, h, at other, ne) in
            rw heap (
              absent-SessionPoints s.rtp_store pair.first pair.second m'
                (pair.others other m' ne found) (v other m' found))
      ];
    }

pub close_all-Freed :
    (fds : List ℕ) (s s' : RtspServer)
    → Managed s
    → ((fd : ℕ) (c : RtspConnection)
        → mem_fd fd fds ≡ true
        → find_fd fd s.fd2conn ≡ some c
        → IsOrderly c s)
    → NoDangling s
    → close_all fds s ≡ some s'
    → NoDangling s'
unfolding close_all
close_all-Freed [] s s' managed orderly v run = let same : s' ≡ s = ground (arith, run) in rw same v
close_all-Freed (fd ∷ fds) s s' managed orderly v run = elim (Option-cases (find_fd fd s.fd2conn)) [
  | inl e ↦ absurd (ground (arith, run, e))
  | inr (c, e) ↦
      let erased : RtspServer = record s { fd2conn = erase_fd fd s.fd2conn } in
      elim (Option-cases (destroy c erased)) [
        | inl f ↦ absurd (ground (arith, run, e, f))
        | inr (s₁, f) ↦
            let unchanged : Shrinks s erased = same_sessions-Shrinks s erased refl refl in
            let orderly₁ = Shrinks-IsOrderly c s erased unchanged (orderly fd c (ground arith) e) in
            let freed = destroy-Freed c erased s₁ managed orderly₁ v f in
            close_all-Freed fds s₁ s' freed.managed
              (λ other c' h found.
                let there : find_fd other s.fd2conn ≡ some c' = ground (
                  arith,
                  find-erase_fd fd other s.fd2conn,
                  ap (find_fd other) freed.fd2conn,
                  found,
                ) in
                Shrinks-IsOrderly c' erased s₁ freed.shrinks (
                  Shrinks-IsOrderly c' s erased unchanged
                    (orderly other c' (ground (arith, h)) there)))
              freed.resolved (ground (arith, run, e, f))
      ]
]
