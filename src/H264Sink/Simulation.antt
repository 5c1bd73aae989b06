-- ===== src/H264Sink/Simulation.antt =====
-- `sendFrame` over two callbacks that leave the same packet.
use Prim.Native.Nat.{bit_and}
use zrh_rtsp_server.Prelude.{
  ℕ, zero, suc, ◌+◌, ◌*◌, ◌/◌, ◌%◌, ◌≡◌, refl, Bool, ◌||◌, none, List, [], ◌∷◌, ◌++◌, ◌==◌, leb,
  ltb, arith, length, Option-cases, inl, inr,
}
use zrh_rtsp_server.RingBuffer.{memcpy}
use zrh_rtsp_server.Rtp.{rtp_max_pkt_size}
use zrh_rtsp_server.Sink.{Callback, Sink, send_packet}
use zrh_rtsp_server.Sink.Simulation.{Same, Same-bind, Same-eq, Same-if, Respects, send_packet-Same}
use zrh_rtsp_server.H264Sink.{
  fu_indicator, fu_header, full_flag, send_fragment, send_full, send_fragments, send_frame,
}

module _ {S₁ S₂ : Type 0} (R : S₁ → S₂ → Type 0) (cb₁ : Callback S₁) (cb₂ : Callback S₂)
    (respects : Respects R cb₁ cb₂) where
  send_fragment-Same :
      (memory : List ℕ) (nalu_type flag pos n : ℕ) (sink : Sink) (s₁ : S₁) (s₂ : S₂)
      → R s₁ s₂
      → length sink.buf.payload ≡ 1402
      → Same R
          (send_fragment cb₁ memory nalu_type flag pos n (sink, s₁))
          (send_fragment cb₂ memory nalu_type flag pos n (sink, s₂))
  unfolding send_fragment
  send_fragment-Same memory nalu_type flag pos n sink s₁ s₂ r room =
      elim (Option-cases (memcpy memory pos n)) [
        | inl e ↦ Same-eq R {o₁' = none} {o₂' = none} (ground (arith, e)) (ground (arith, e)) tt
        | inr (bytes, e) ↦
            let xs = fu_indicator nalu_type ∷ fu_header nalu_type flag ∷ bytes in
            Same-eq R {o₁' = send_packet cb₁ sink xs s₁} {o₂' = send_packet cb₂ sink xs s₂}
              (ground (arith, e)) (ground (arith, e))
              (send_packet-Same R cb₁ cb₂ respects sink xs s₁ s₂ r room)
      ]

  send_full-Same :
      (memory : List ℕ) (nalu_type pkt_num remain_pkt_size left i pos : ℕ) (sink : Sink) (s₁ : S₁)
      (s₂ : S₂)
      → R s₁ s₂
      → length sink.buf.payload ≡ 1402
      → Same R
          (send_full cb₁ memory nalu_type pkt_num remain_pkt_size left i pos (sink, s₁))
          (send_full cb₂ memory nalu_type pkt_num remain_pkt_size left i pos (sink, s₂))
  unfolding send_full
  send_full-Same memory nalu_type pkt_num remain_pkt_size zero i pos sink s₁ s₂ r room =
      (refl, r, room)
  send_full-Same memory nalu_type pkt_num remain_pkt_size (suc left) i pos sink s₁ s₂ r room =
      let flag = full_flag pkt_num remain_pkt_size i in
      Same-bind R _ _ _ _
        (send_fragment-Same memory nalu_type flag pos rtp_max_pkt_size sink s₁ s₂ r room)
        (λ k t₁ t₂ r' room'.
          send_full-Same memory nalu_type pkt_num remain_pkt_size left (i + 1)
            (pos + rtp_max_pkt_size) k t₁ t₂ r' room')

  send_fragments-Same :
      (memory : List ℕ) (nalu_type frame_size : ℕ) (sink : Sink) (s₁ : S₁) (s₂ : S₂)
      → R s₁ s₂
      → length sink.buf.payload ≡ 1402
      → Same R
          (send_fragments cb₁ memory nalu_type frame_size (sink, s₁))
          (send_fragments cb₂ memory nalu_type frame_size (sink, s₂))
  unfolding send_fragments
  send_fragments-Same memory nalu_type frame_size sink s₁ s₂ r room =
      let pkt_num = frame_size / rtp_max_pkt_size in
      let remain_pkt_size = frame_size % rtp_max_pkt_size in
      Same-bind R _ _ _ _
        (send_full-Same memory nalu_type pkt_num remain_pkt_size pkt_num 0 1 sink s₁ s₂ r room)
        (λ k t₁ t₂ r' room'.
          Same-if R (ltb 0 remain_pkt_size) _ _ _ _
            (send_fragment-Same memory nalu_type 64 (1 + pkt_num * rtp_max_pkt_size) remain_pkt_size
              k t₁ t₂ r' room')
            (refl, r', room'))

  pub send_frame-Same :
      (frame beyond : List ℕ) (sink : Sink) (s₁ : S₁) (s₂ : S₂)
      → R s₁ s₂
      → length sink.buf.payload ≡ 1402
      → Same R (send_frame cb₁ frame beyond (sink, s₁)) (send_frame cb₂ frame beyond (sink, s₂))
  unfolding send_frame
  send_frame-Same [] beyond sink s₁ s₂ r room = (refl, r, room)
  send_frame-Same (nalu_type ∷ rest) beyond sink s₁ s₂ r room =
      let frame = nalu_type ∷ rest in
      let set : Bool = (bit_and nalu_type 0x1f == 7) || (bit_and nalu_type 0x1f == 8) in
      Same-if R (leb (length frame) rtp_max_pkt_size) _ _ _ _
        (Same-bind R _ _ _ _ (send_packet-Same R cb₁ cb₂ respects sink frame s₁ s₂ r room)
          (λ k t₁ t₂ r' room'. Same-if R set _ _ _ _ (refl, r', room') (refl, r', room')))
        (Same-bind R _ _ _ _
          (send_fragments-Same (frame ++ beyond) nalu_type (length frame) sink s₁ s₂ r room)
          (λ k t₁ t₂ r' room'. (refl, r', room')))
