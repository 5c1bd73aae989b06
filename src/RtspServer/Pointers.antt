-- ===== src/RtspServer/Pointers.antt =====
-- The pointers that the tracks hold.
use zrh_rtsp_server.Prelude.{
  ℕ, ◌≡◌, sym, ap, ◌∙◌, Option, some, List, [], ◌∷◌, ◌++◌, ◌==◌, arith, ℕ_discrete, Bool-cases, inl,
  inr,
}
use zrh_rtsp_server.Rtp.{RtpConnection}
use zrh_rtsp_server.MediaSession.{
  TrackId, track_id_none, track_id0, track_id1, MediaSession, Store, add_rtp_connection,
}
use zrh_rtsp_server.RtspServer.{RtspServer, update}

-- Every pointer stands for a connection.
abbrev pub AllPoint : Store → List ℕ → Type 0
AllPoint store [] = Unit {0}
AllPoint store (p ∷ ps) = ((conn : RtpConnection) × (store p ≡ some conn)) × AllPoint store ps

abbrev pub SessionPoints : Store → MediaSession → Type 0
SessionPoints store m = AllPoint store m.track0.rtp_conns × AllPoint store m.track1.rtp_conns

-- No track of a session holds a pointer to a connection that has been freed.
abbrev pub NoDangling : RtspServer → Type 0
NoDangling s =
    (address : ℕ) (m : MediaSession) → s.sessions address ≡ some m → SessionPoints s.rtp_store m

-- A heap that has all that another one had.
abbrev pub Extends : Store → Store → Type 0
Extends store store' =
    (p : ℕ)
    → (conn : RtpConnection) × (store p ≡ some conn)
    → (conn : RtpConnection) × (store' p ≡ some conn)

pub Extends-AllPoint :
    (store store' : Store)
    → Extends store store'
    → (ps : List ℕ) → AllPoint store ps
    → AllPoint store' ps
Extends-AllPoint store store' more [] h = tt
Extends-AllPoint store store' more (p ∷ ps) (found, h) =
    (more p found, Extends-AllPoint store store' more ps h)

AllPoint-snoc :
    (store : Store) (ps : List ℕ) (p : ℕ)
    → AllPoint store ps
    → (conn : RtpConnection) × (store p ≡ some conn)
    → AllPoint store (ps ++ p ∷ [])
AllPoint-snoc store [] p h found = (found, tt)
AllPoint-snoc store (q ∷ ps) p (first, h) found = (first, AllPoint-snoc store ps p h found)

-- A new connection, or one that changes.
pub update-Extends :
    (store : Store) (p : ℕ) (conn : RtpConnection) → Extends store (update store p conn)
update-Extends store p conn q (found, e) = elim (Bool-cases (q == p)) [
  | inl same ↦ (conn, ground (arith, same))
  | inr other ↦ (found, ground (arith, other, e))
]

pub add_rtp_connection-SessionPoints :
    (store : Store) (m : MediaSession) (id : TrackId) (p : ℕ)
    → SessionPoints store m
    → (conn : RtpConnection) × (store p ≡ some conn)
    → SessionPoints store (add_rtp_connection m id p)
unfolding add_rtp_connection
add_rtp_connection-SessionPoints store m track_id0 p (first, second) found =
    (AllPoint-snoc store m.track0.rtp_conns p first found, second)
add_rtp_connection-SessionPoints store m track_id1 p (first, second) found =
    (first, AllPoint-snoc store m.track1.rtp_conns p second found)
add_rtp_connection-SessionPoints store m track_id_none p (first, second) found =
    (first, AllPoint-snoc store m.track1.rtp_conns p second found)

pub update-NoDangling :
    (s : RtspServer) (address : ℕ) (m : MediaSession)
    → SessionPoints s.rtp_store m
    → NoDangling s
    → NoDangling (record s { sessions = update s.sessions address m })
update-NoDangling s address m points v other m' h = elim (ℕ_discrete other address) [
  | yes e ↦ let same : m' ≡ m = ground (arith, h, e) in rw same points
  | no ne ↦ v other m' (ground (arith, h, ne))
]

pub Extends-NoDangling :
    (s s' : RtspServer)
    → s'.sessions ≡ s.sessions
    → Extends s.rtp_store s'.rtp_store
    → NoDangling s
    → NoDangling s'
Extends-NoDangling s s' e more v address m h =
    let (first, second) =
      v address m (ap (λ (heap : ℕ → Option MediaSession). heap address) (sym e) ∙ h) in
    (
      Extends-AllPoint s.rtp_store s'.rtp_store more m.track0.rtp_conns first,
      Extends-AllPoint s.rtp_store s'.rtp_store more m.track1.rtp_conns second,
    )

pub same_store-Extends : {store store' : Store} → store' ≡ store → Extends store store'
same_store-Extends e p (conn, found) = (conn, ap (λ (heap : Store). heap p) e ∙ found)
