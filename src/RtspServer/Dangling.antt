-- ===== src/RtspServer/Dangling.antt =====
-- What closing a connection leaves behind when its tracks were set up in the other order.
use zrh_rtsp_server.Prelude.{
  ℕ, ◌≡◌, ◌≢◌, refl, ap, ◌∙◌, true, Option, none, some, List, [], ◌∷◌, ◌==◌, if◌then◌else◌, arith,
  ℕ_discrete, Option-cases, inl, inr,
}
use zrh_rtsp_server.Rtp.{RtpPacket, send_frame}
use zrh_rtsp_server.MediaSession.{
  track_id0, track_id1, MediaSession, Store, remove, remove_rtp_connection, to_network, send_all,
  handle_session_send,
}
use zrh_rtsp_server.RtspConnection.{RtspConnection}
use zrh_rtsp_server.RtspServer.{
  RtspServer, update, look_media_session, handle_session_remove, leave_session, free_all, destroy,
  unwatch,
}
use zrh_rtsp_server.RtspServer.Closing.{mem_fd}
use zrh_rtsp_server.RtspServer.Orderly.{destroy_lem}

send_all_dangling :
    (store : Store) (conns : List ℕ) (p : ℕ) (packet : RtpPacket)
    → mem_fd p conns ≡ true
    → store p ≡ none
    → send_all store conns packet ≡ none
unfolding send_all
send_all_dangling store [] p packet h e = absurd (ground (arith, h))
send_all_dangling store (conn ∷ conns) p packet h e = elim (ℕ_discrete p conn) [
  | yes same ↦ ground (arith, e, ap store same)
  | no ne ↦ elim (Option-cases (store conn)) [
    | inl f ↦ ground (arith, f)
    | inr (c, f) ↦ elim (Option-cases (send_frame c packet)) [
      | inl g ↦ ground (arith, f, g)
      | inr ((packet', sent), g) ↦
          ground (arith, f, g, send_all_dangling store conns p packet' (ground (arith, h, ne)) e)
    ]
  ]
]

mem_fd-remove_other : (p q : ℕ) (ps : List ℕ) → p ≢ q → mem_fd p (remove q ps) ≡ mem_fd p ps
unfolding remove
mem_fd-remove_other p q [] ne = refl
mem_fd-remove_other p q (x ∷ ps) ne = ground (arith, ne, mem_fd-remove_other p q ps ne)

free_all-none : (ps : List ℕ) (store : Store) (p : ℕ) → store p ≡ none → free_all ps store p ≡ none
unfolding free_all
free_all-none [] store p e = e
free_all-none (q ∷ ps) store p e =
    free_all-none ps (λ i. if i == q then none else store i) p (ground (arith, e))

free_all-first : (p : ℕ) (ps : List ℕ) (store : Store) → free_all (p ∷ ps) store p ≡ none
unfolding free_all
free_all-first p ps store =
    free_all-none ps (λ i. if i == p then none else store i) p (ground arith)

-- The destructor takes its first RTP connection from the first track and its second one from the second
-- track. Where the first of two or more distinct ones is on the second, live track of the connection's
-- session, as after a client has set up that track first, the destructor that comes to its end leaves the
-- pointer on the track although the RTP connection is freed: whatever packet the track then sends is a fault.
pub destroy_dangling :
    (c : RtspConnection) (s s' : RtspServer) (first second address : ℕ) (others : List ℕ)
    (m : MediaSession)
    → c.rtp_conns ≡ first ∷ second ∷ others
    → first ≢ second
    → look_media_session c.session_name s.manager ≡ some address
    → s.sessions address ≡ some m
    → m.track1.alive ≡ true
    → mem_fd first m.track1.rtp_conns ≡ true
    → destroy c s ≡ some s'
    → (m' : MediaSession) × (s'.sessions address ≡ some m')
      × ((packet : RtpPacket) → handle_session_send s'.rtp_store m'.track1 packet ≡ none)
unfolding leave_session handle_session_remove remove_rtp_connection handle_session_send
destroy_dangling c s s' first second address others m conns distinct looked there live here run =
    let unwatched : RtspServer = record s { watched = unwatch c.client_fd s.watched } in
    let m₁ = remove_rtp_connection m track_id0 first in
    let m₂ = remove_rtp_connection m₁ track_id1 second in
    let left : leave_session c unwatched
        ≡ some (record unwatched { sessions = update (update s.sessions address m₁) address m₂ }) =
      ground (arith, conns, looked, there) in
    let (sessions, store, manager, table, next) = destroy_lem c s _ s' left run in
    let gone : s'.rtp_store first ≡ none =
      ap (λ (heap : Store). heap first) (store ∙ ap (λ ps. free_all ps s.rtp_store) conns)
      ∙ free_all-first first (second ∷ others) s.rtp_store in
    let held : mem_fd first m₂.track1.rtp_conns ≡ true =
      mem_fd-remove_other first second m.track1.rtp_conns distinct ∙ here in
    (
      m₂,
      ap (λ (heap : ℕ → Option MediaSession). heap address) sessions ∙ ground arith,
      λ packet. rw live (
          send_all_dangling s'.rtp_store m₂.track1.rtp_conns first
            (record packet { rtp_header = to_network packet.rtp_header }) held gone),
    )
