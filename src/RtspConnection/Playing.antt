-- ===== src/RtspConnection/Playing.antt =====
-- What `handlePlay` does to the heap of RTP connections.
use zrh_rtsp_server.Prelude.{
  ℕ, ◌<◌, ◌≡◌, refl, Bool, true, false, Option, none, some, List, [], ◌∷◌, ◌++◌, ◌==◌,
  if◌then◌else◌, length, arith, ℕ_discrete, Option-cases, inl, inr,
}
use zrh_rtsp_server.Text.{ascii}
use zrh_rtsp_server.Rtp.{RtpConnection, set_alive}
use zrh_rtsp_server.MediaSession.{Store}
use zrh_rtsp_server.RtspConnection.{RtspConnection}
use zrh_rtsp_server.RtspConnection.Handlers.{all_alive, handle_play, respond, ok, session_line}
use zrh_rtsp_server.RtspServer.{RtspServer, update}

abbrev pub contains : List ℕ → ℕ → Bool
contains [] p = false
contains (q ∷ qs) p = if p == q then true else contains qs p

abbrev pub enlivened : Option RtpConnection → Option RtpConnection
enlivened none = none
enlivened (some conn) = some (record conn { alive = true })

all_alive-lookup :
    (ps : List ℕ) (store : Store) (p : ℕ)
    → all_alive ps store p ≡ (if contains ps p then enlivened (store p) else store p)
unfolding all_alive set_alive
all_alive-lookup [] store p = refl
all_alive-lookup (q ∷ qs) store p = elim (Option-cases (store q)) [
  | inl e ↦ elim (ℕ_discrete p q) [
    | yes same ↦ ground (arith, e, all_alive-lookup qs store p)
    | no other ↦ ground (arith, e, all_alive-lookup qs store p)
  ]
  | inr (conn, e) ↦
      let later = all_alive-lookup qs (update store q (set_alive conn true)) p in
      elim (ℕ_discrete p q) [
        | yes same ↦ ground (arith, e, same, later)
        | no other ↦ ground (arith, e, later)
      ]
]

abbrev pub play_answer : RtspConnection → List ℕ
play_answer c = ok c ++ ascii "Range: npt=0.000-\r\n" ++ session_line c

-- `PLAY`, where the answer is shorter than its buffer: the answer is written to the client, every RTP
-- connection of the client is alive afterwards and otherwise as it was, and each other one is as it was.
pub handle_play-alive :
    (c : RtspConnection) (s : RtspServer)
    → length (play_answer c) < 1024
    → (s' : RtspServer) × (handle_play c s ≡ some (false, c, s'))
      × (s'.sent ≡ (c.client_fd, play_answer c) ∷ s.sent)
      × ((p : ℕ)
          → s'.rtp_store p
            ≡ (if contains c.rtp_conns p then enlivened (s.rtp_store p) else s.rtp_store p))
unfolding handle_play respond
handle_play-alive c s fits =
    let answered : RtspServer = record s {
      sent = (c.client_fd, play_answer c) ∷ s.sent;
      rtp_store = all_alive c.rtp_conns s.rtp_store;
    } in
    (answered, ground (arith, fits), refl, all_alive-lookup c.rtp_conns s.rtp_store)
