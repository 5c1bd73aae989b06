-- ===== src/RtspConnection/Growth.antt =====
-- What the handlers do to the heap of RTP connections: they add to it and change what is there, and they
-- free nothing.
use mathlib.Core.Path.{subst}
use zrh_rtsp_server.Prelude.{
  ℕ, ◌≡◌, sym, inl, inr, Bool, true, false, Option, none, some, List, [], ◌∷◌, ◌++◌, arith,
  Option-cases,
}
use zrh_rtsp_server.Text.{Bytes, ascii}
use zrh_rtsp_server.Rtp.{set_alive}
use zrh_rtsp_server.MediaSession.{Store}
use zrh_rtsp_server.RtspConnection.{RtspConnection}
use zrh_rtsp_server.RtspConnection.Handlers.{
  respond, handle_options, handle_describe, handle_play, ok, session_line, all_alive,
}
use zrh_rtsp_server.RtspServer.{RtspServer, update}
use zrh_rtsp_server.RtspServer.Pointers.{Extends, update-Extends, same_store-Extends}

abbrev pub Grows : RtspServer → Option (Bool × RtspConnection × RtspServer) → Type 0
Grows s none = Unit {0}
Grows s (some (b, c', s')) = Extends s.rtp_store s'.rtp_store

abbrev pub SameStore : RtspServer → Option (Bool × RtspConnection × RtspServer) → Type 0
SameStore s none = Unit {0}
SameStore s (some (b, c', s')) = s'.rtp_store ≡ s.rtp_store

pub SameStore-Grows :
    (s : RtspServer) (o : Option (Bool × RtspConnection × RtspServer)) → SameStore s o → Grows s o
SameStore-Grows s none e = tt
SameStore-Grows s (some (b, c', s')) e = same_store-Extends e

pub respond-SameStore :
    (text : Bytes) (result : Bool) (c : RtspConnection) (s : RtspServer)
    → SameStore s (respond text result c s)
unfolding respond
respond-SameStore text result c s = ground arith

pub handle_options-Grows : (c : RtspConnection) (s : RtspServer) → Grows s (handle_options c s)
unfolding handle_options respond
handle_options-Grows c s =
    let same : SameStore s (handle_options c s) = ground arith in
    SameStore-Grows s (handle_options c s) same

pub handle_describe-Grows :
    (time : ℕ) (c : RtspConnection) (s : RtspServer) → Grows s (handle_describe time c s)
unfolding handle_describe respond
handle_describe-Grows time c s =
    let same : SameStore s (handle_describe time c s) = ground arith in
    SameStore-Grows s (handle_describe time c s) same

all_alive-Extends : (ps : List ℕ) (store : Store) → Extends store (all_alive ps store)
unfolding all_alive
all_alive-Extends [] store p found = found
all_alive-Extends (q ∷ ps) store p found = elim (Option-cases (store q)) [
  | inl e ↦
      let step : all_alive (q ∷ ps) store ≡ all_alive ps store = ground (arith, e) in
      rw step (all_alive-Extends ps store p found)
  | inr (conn, e) ↦
      let changed = update store q (set_alive conn true) in
      let step : all_alive (q ∷ ps) store ≡ all_alive ps changed = ground (arith, e) in
      rw step
        (all_alive-Extends ps changed p (update-Extends store q (set_alive conn true) p found))
]

pub handle_play-Grows : (c : RtspConnection) (s : RtspServer) → Grows s (handle_play c s)
unfolding handle_play
handle_play-Grows c s =
    let answer = ok c ++ ascii "Range: npt=0.000-\r\n" ++ session_line c in
    elim (Option-cases (respond answer false c s)) [
      | inl e ↦
          let step : handle_play c s ≡ none = ground (arith, e) in subst (Grows s) (sym step) tt
      | inr ((b, c₁, s₁), e) ↦
          let same : SameStore s (some (b, c₁, s₁)) =
            subst (SameStore s) e (respond-SameStore answer false c s) in
          let s' : RtspServer = record s₁ { rtp_store = all_alive c.rtp_conns s₁.rtp_store } in
          let step : handle_play c s ≡ some (b, c₁, s') = ground (arith, e) in
          subst (Grows s) (sym step) (
            subst (λ store. Extends store s'.rtp_store) same
              (all_alive-Extends c.rtp_conns s₁.rtp_store))
    ]
