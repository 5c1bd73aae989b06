-- ===== src/AacSink/Simulation.antt =====
-- `sendFrame` over two callbacks that leave the same packet.
use zrh_rtsp_server.Prelude.{ℕ, ◌≡◌, refl, List, [], ◌∷◌, ◌++◌, length}
use zrh_rtsp_server.Sink.{Callback, Sink}
use zrh_rtsp_server.Sink.Simulation.{Same, Same-bind, Respects, send_packet-Same}
use zrh_rtsp_server.AacSink.{au_header, send_frame}

pub send_frame-Same :
    {S₁ S₂ : Type 0} (R : S₁ → S₂ → Type 0) (cb₁ : Callback S₁) (cb₂ : Callback S₂)
    → Respects R cb₁ cb₂
    → (frame : List ℕ) (sink : Sink) (s₁ : S₁) (s₂ : S₂) → R s₁ s₂
    → length sink.buf.payload ≡ 1402
    → Same R (send_frame cb₁ frame (sink, s₁)) (send_frame cb₂ frame (sink, s₂))
unfolding send_frame
send_frame-Same R cb₁ cb₂ respects [] sink s₁ s₂ r room = (refl, r, room)
send_frame-Same R cb₁ cb₂ respects (x ∷ rest) sink s₁ s₂ r room =
    let frame = x ∷ rest in
    Same-bind R _ _ _ _
      (send_packet-Same R cb₁ cb₂ respects sink (au_header (length frame) ++ frame) s₁ s₂ r room)
      (λ k t₁ t₂ r' room'. (refl, r', room'))
