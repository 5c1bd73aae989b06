-- ===== src/RtspServer/Protocol/Stages.antt =====
-- Where the pointers of a connection are, and that other connections do not change it.
use zrh_rtsp_server.Prelude.{
  ℕ, ◌≤◌, ◌<◌, ◌≡◌, ◌≢◌, ap, ◌∙◌, false, some, List, [], ◌∷◌, arith, inl, inr,
}
use zrh_rtsp_server.MediaSession.{MediaSession}
use zrh_rtsp_server.RtspConnection.{RtspConnection}
use zrh_rtsp_server.RtspServer.{RtspServer, look_media_session}
use zrh_rtsp_server.RtspServer.Closing.{mem_fd}
use zrh_rtsp_server.RtspServer.Orderly.{IsPair, IsOrderly}

-- The two lists of a session.
abbrev pub first_track : MediaSession → List ℕ
first_track m = m.track0.rtp_conns

abbrev pub second_track : MediaSession → List ℕ
second_track m = m.track1.rtp_conns

-- A pointer that is handed out, and is at most on one track of one session.
pub record OnlyOn (p address : ℕ) (home away : MediaSession → List ℕ) (s : RtspServer)
    : Type 0 where
  pub bound : p < s.rtp_next
  pub elsewhere :
      (other : ℕ) (m : MediaSession)
      → s.sessions other ≡ some m
      → other ≢ address
      → mem_fd p (home m) ≡ false
  pub never : (other : ℕ) (m : MediaSession) → s.sessions other ≡ some m → mem_fd p (away m) ≡ false

-- How far a client has come.
pub data Stage (c : RtspConnection) (s : RtspServer) : Type 0 where
  fresh : c.rtp_conns ≡ [] → Stage c s
  half :
      (p address : ℕ)
      → c.rtp_conns ≡ p ∷ []
      → look_media_session c.session_name s.manager ≡ some address
      → OnlyOn p address first_track second_track s
      → Stage c s
  full :
      (p q address : ℕ)
      → c.rtp_conns ≡ p ∷ q ∷ []
      → look_media_session c.session_name s.manager ≡ some address
      → OnlyOn p address first_track second_track s
      → OnlyOn q address second_track first_track s
      → Stage c s

-- A change of the server that puts no old pointer on a track.
pub record Moves (s s' : RtspServer) : Type 0 where
  pub manager : s'.manager ≡ s.manager
  pub next : s.rtp_next ≤ s'.rtp_next
  pub came_from :
      (address : ℕ) (m' : MediaSession)
      → s'.sessions address ≡ some m'
      → (m : MediaSession) × (s.sessions address ≡ some m)
        × ((p : ℕ)
            → p < s.rtp_next
            → mem_fd p (first_track m) ≡ false
            → mem_fd p (first_track m') ≡ false)
        × ((p : ℕ)
            → p < s.rtp_next
            → mem_fd p (second_track m) ≡ false
            → mem_fd p (second_track m') ≡ false)

OnlyOn-first :
    (p address : ℕ) (s s' : RtspServer)
    → Moves s s'
    → OnlyOn p address first_track second_track s
    → OnlyOn p address first_track second_track s'
OnlyOn-first p address s s' v o = record {
  bound = omega (arith, o.bound, v.next);
  elsewhere = λ other m' h ne.
      let (m, there, first, second) = v.came_from other m' h in
      first p o.bound (o.elsewhere other m there ne);
  never = λ other m' h.
      let (m, there, first, second) = v.came_from other m' h in
      second p o.bound (o.never other m there);
}

OnlyOn-second :
    (p address : ℕ) (s s' : RtspServer)
    → Moves s s'
    → OnlyOn p address second_track first_track s
    → OnlyOn p address second_track first_track s'
OnlyOn-second p address s s' v o = record {
  bound = omega (arith, o.bound, v.next);
  elsewhere = λ other m' h ne.
      let (m, there, first, second) = v.came_from other m' h in
      second p o.bound (o.elsewhere other m there ne);
  never = λ other m' h.
      let (m, there, first, second) = v.came_from other m' h in
      first p o.bound (o.never other m there);
}

pub Stage-Moves : (c : RtspConnection) (s s' : RtspServer) → Moves s s' → Stage c s → Stage c s'
Stage-Moves c s s' v (fresh e) = fresh e
Stage-Moves c s s' v (half p address e looked o) =
    half p address e (ap (look_media_session c.session_name) v.manager ∙ looked)
      (OnlyOn-first p address s s' v o)
Stage-Moves c s s' v (full p q address e looked o o') =
    full p q address e (ap (look_media_session c.session_name) v.manager ∙ looked)
      (OnlyOn-first p address s s' v o) (OnlyOn-second q address s s' v o')

-- Only the RTP connections and the session of a connection count.
pub Stage-same :
    (c c' : RtspConnection) (s : RtspServer)
    → c'.rtp_conns ≡ c.rtp_conns
    → c'.session_name ≡ c.session_name
    → Stage c s
    → Stage c' s
Stage-same c c' s e f (fresh h) = fresh (e ∙ h)
Stage-same c c' s e f (half p address h looked o) =
    half p address (e ∙ h) (ap (λ name. look_media_session name s.manager) f ∙ looked) o
Stage-same c c' s e f (full p q address h looked o o') =
    full p q address (e ∙ h) (ap (λ name. look_media_session name s.manager) f ∙ looked) o o'

full-IsPair :
    (p q address : ℕ) (c : RtspConnection) (s : RtspServer)
    → c.rtp_conns ≡ p ∷ q ∷ []
    → look_media_session c.session_name s.manager ≡ some address
    → OnlyOn p address first_track second_track s
    → OnlyOn q address second_track first_track s
    → IsPair c s
full-IsPair p q address c s e looked o o' = record {
  first = p;
  second = q;
  conns = e;
  address = address;
  looked = looked;
  own = λ m h. (o.never address m h, o'.never address m h);
  others = λ other m ne h. (
    (o.never other m h, o'.never other m h),
    o.elsewhere other m h ne,
    o'.elsewhere other m h ne,
  );
}

-- A client that is not half way can go.
pub Stage-IsOrderly :
    (c : RtspConnection) (s : RtspServer)
    → Stage c s
    → ((p : ℕ) → c.rtp_conns ≢ p ∷ [])
    → IsOrderly c s
Stage-IsOrderly c s (fresh e) whole = inl e
Stage-IsOrderly c s (half p address e looked o) whole = absurd (whole p e)
Stage-IsOrderly c s (full p q address e looked o o') whole =
    inr (full-IsPair p q address c s e looked o o')
