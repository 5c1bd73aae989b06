-- ===== src/RtspServer/Freeing.antt =====
-- The pointers of a session when two RTP connections are taken from its tracks and freed.
use zrh_rtsp_server.Prelude.{
  ℕ, ◌≡◌, refl, false, none, List, [], ◌∷◌, ◌==◌, if◌then◌else◌, arith, Bool-cases, inl, inr,
}
use zrh_rtsp_server.MediaSession.{
  track_id0, track_id1, MediaSession, Store, remove, remove_rtp_connection,
}
use zrh_rtsp_server.RtspServer.{free_all}
use zrh_rtsp_server.RtspServer.Closing.{mem_fd}
use zrh_rtsp_server.RtspServer.Pointers.{AllPoint, SessionPoints}

-- A heap without a connection.
abbrev freed : ℕ → Store → Store
freed p store i = if i == p then none else store i

-- A list without the pointer is as good as before.
pub freed-AllPoint :
    (p : ℕ) (store : Store) (ps : List ℕ)
    → mem_fd p ps ≡ false
    → AllPoint store ps
    → AllPoint (freed p store) ps
freed-AllPoint p store [] apart h = tt
freed-AllPoint p store (q ∷ ps) apart ((conn, found), h) =
    ((conn, ground (arith, apart, found)), freed-AllPoint p store ps (ground (arith, apart)) h)

pub remove-AllPoint :
    (p : ℕ) (store : Store) (ps : List ℕ)
    → AllPoint store ps
    → AllPoint (freed p store) (remove p ps)
unfolding remove
remove-AllPoint p store [] h = tt
remove-AllPoint p store (q ∷ ps) ((conn, found), h) =
    let rest = remove-AllPoint p store ps h in
    elim (Bool-cases (q == p)) [
      | inl e ↦ let step : remove p (q ∷ ps) ≡ remove p ps = ground (arith, e) in rw step rest
      | inr e ↦
          let step : remove p (q ∷ ps) ≡ q ∷ remove p ps = ground (arith, e) in
          rw step ((conn, ground (arith, found, e)), rest)
    ]

pub mem_fd-remove : (p q : ℕ) (ps : List ℕ) → mem_fd p ps ≡ false → mem_fd p (remove q ps) ≡ false
unfolding remove
mem_fd-remove p q [] h = refl
mem_fd-remove p q (x ∷ ps) h = ground (arith, h, mem_fd-remove p q ps)

-- The first RTP connection is on the first track of the connection's session, the second one on the
-- second, and neither is anywhere else.
abbrev pub IsAlone : ℕ → ℕ → MediaSession → Type 0
IsAlone first second m =
    (mem_fd first m.track1.rtp_conns ≡ false) × (mem_fd second m.track0.rtp_conns ≡ false)

abbrev pub IsAbsent : ℕ → ℕ → MediaSession → Type 0
IsAbsent first second m =
    IsAlone first second m
    × (mem_fd first m.track0.rtp_conns ≡ false)
    × (mem_fd second m.track1.rtp_conns ≡ false)

-- A session that the pair has left.
pub left-SessionPoints :
    (store : Store) (first second : ℕ) (m : MediaSession)
    → IsAlone first second m
    → SessionPoints store m
    → SessionPoints
        (free_all (first ∷ second ∷ []) store)
        (remove_rtp_connection (remove_rtp_connection m track_id0 first) track_id1 second)
unfolding free_all remove_rtp_connection
left-SessionPoints store first second m (apart1, apart0) (points0, points1) = (
  freed-AllPoint second (freed first store) (remove first m.track0.rtp_conns)
      (mem_fd-remove second first m.track0.rtp_conns apart0)
      (remove-AllPoint first store m.track0.rtp_conns points0),
  remove-AllPoint second (freed first store) m.track1.rtp_conns
      (freed-AllPoint first store m.track1.rtp_conns apart1 points1),
)

pub absent-SessionPoints :
    (store : Store) (first second : ℕ) (m : MediaSession)
    → IsAbsent first second m
    → SessionPoints store m
    → SessionPoints (free_all (first ∷ second ∷ []) store) m
unfolding free_all
absent-SessionPoints store first second m ((first1, second0), first0, second1) (points0, points1) =
    (
      freed-AllPoint second (freed first store) m.track0.rtp_conns second0
          (freed-AllPoint first store m.track0.rtp_conns first0 points0),
      freed-AllPoint second (freed first store) m.track1.rtp_conns second1
          (freed-AllPoint first store m.track1.rtp_conns first1 points1),
    )

pub left-shrunk :
    (first second p : ℕ) (m : MediaSession)
    → let m' = remove_rtp_connection (remove_rtp_connection m track_id0 first) track_id1 second in
      (mem_fd p m.track0.rtp_conns ≡ false → mem_fd p m'.track0.rtp_conns ≡ false)
      × (mem_fd p m.track1.rtp_conns ≡ false → mem_fd p m'.track1.rtp_conns ≡ false)
unfolding remove_rtp_connection
left-shrunk first second p m =
    (mem_fd-remove p first m.track0.rtp_conns, mem_fd-remove p second m.track1.rtp_conns)
