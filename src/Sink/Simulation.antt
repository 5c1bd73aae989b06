-- ===== src/Sink/Simulation.antt =====
-- Two callbacks that leave the same packet: a sink over the one does what it does over the other.
use mathlib.Core.Path.{subst}
use zrh_rtsp_server.Prelude.{
  ℕ, ◌≤◌, ◌≡◌, sym, ap, Bool, true, false, Option, none, some, List, ◌++◌, if◌then◌else◌, leb,
  arith, length, drop, length-append, length-drop, Bool-cases, inl, inr,
}
use zrh_rtsp_server.Rtp.{RtpPacket}
use zrh_rtsp_server.Sink.{Callback, Sink, send_packet, next_seq}

module _ {S₁ S₂ : Type 0} (R : S₁ → S₂ → Type 0) where
  -- The same fault, or sinks that are the same and have a whole packet buffer, with related states.
  abbrev pub Same : Option (Sink × S₁) → Option (Sink × S₂) → Type 0
  Same none none = Unit {0}
  Same (some (k₁, s₁)) (some (k₂, s₂)) = (k₁ ≡ k₂) × R s₁ s₂ × (length k₁.buf.payload ≡ 1402)
  Same none (some st) = ⊥
  Same (some st) none = ⊥

  -- What callbacks must keep to, on packets that a sink makes.
  abbrev pub Respects : Callback S₁ → Callback S₂ → Type 0
  Respects cb₁ cb₂ =
      (p : RtpPacket) (s₁ : S₁) (s₂ : S₂)
      → p.size ≤ length p.payload
      → length p.payload ≡ 1402
      → R s₁ s₂
      → ((cb₁ p s₁).0 ≡ (cb₂ p s₂).0)
        × R (cb₁ p s₁).1 (cb₂ p s₂).1
        × (length (cb₁ p s₁).0.payload ≡ 1402)

  pub Same-bind :
      (o₁ : Option (Sink × S₁)) (o₂ : Option (Sink × S₂)) (f₁ : Sink × S₁ → Option (Sink × S₁))
      (f₂ : Sink × S₂ → Option (Sink × S₂))
      → Same o₁ o₂
      → ((k : Sink) (s₁ : S₁) (s₂ : S₂)
          → R s₁ s₂
          → length k.buf.payload ≡ 1402
          → Same (f₁ (k, s₁)) (f₂ (k, s₂)))
      → Same (elim o₁ [ none ↦ none | some st ↦ f₁ st ]) (elim o₂ [ none ↦ none | some st ↦ f₂ st ])
  Same-bind none none f₁ f₂ h next = tt
  Same-bind (some (k₁, s₁)) (some (k₂, s₂)) f₁ f₂ (same, r, room) next =
      subst (λ k. Same (f₁ (k₁, s₁)) (f₂ (k, s₂))) same (next k₁ s₁ s₂ r room)
  Same-bind none (some st) f₁ f₂ h next = absurd h
  Same-bind (some st) none f₁ f₂ h next = absurd h

  pub Same-eq :
      {o₁ o₁' : Option (Sink × S₁)} {o₂ o₂' : Option (Sink × S₂)}
      → o₁ ≡ o₁'
      → o₂ ≡ o₂'
      → Same o₁' o₂'
      → Same o₁ o₂
  Same-eq {o₁' = o₁'} {o₂ = o₂} e₁ e₂ h =
      subst (λ o. Same o o₂) (sym e₁) (subst (Same o₁') (sym e₂) h)

  pub Same-if :
      (b : Bool) (o₁ p₁ : Option (Sink × S₁)) (o₂ p₂ : Option (Sink × S₂))
      → Same o₁ o₂
      → Same p₁ p₂
      → Same (if b then o₁ else p₁) (if b then o₂ else p₂)
  Same-if true o₁ p₁ o₂ p₂ h k = h
  Same-if false o₁ p₁ o₂ p₂ h k = k

  pub send_packet-Same :
      (cb₁ : Callback S₁) (cb₂ : Callback S₂)
      → Respects cb₁ cb₂
      → (sink : Sink) (xs : List ℕ) (s₁ : S₁) (s₂ : S₂) → R s₁ s₂
      → length sink.buf.payload ≡ 1402
      → Same (send_packet cb₁ sink xs s₁) (send_packet cb₂ sink xs s₂)
  unfolding send_packet
  send_packet-Same cb₁ cb₂ respects sink xs s₁ s₂ r room =
      let o₁ = send_packet cb₁ sink xs s₁ in
      let o₂ = send_packet cb₂ sink xs s₂ in
      elim (Bool-cases (leb (length xs) (length sink.buf.payload))) [
        | inr e ↦ Same-eq {o₁' = none} {o₂' = none} (ground (arith, e)) (ground (arith, e)) tt
        | inl e ↦
            let fits : length xs ≤ length sink.buf.payload = ground (arith, e) in
            let p : RtpPacket = record sink.buf {
              payload = xs ++ drop (length xs) sink.buf.payload;
              rtp_header = sink.rtp_header;
              size = length xs;
            } in
            let whole : length p.payload ≡ 1402 = omega (
              arith,
              length-append xs (drop (length xs) sink.buf.payload),
              length-drop (length xs) sink.buf.payload,
            ) in
            let (packet, related, kept) = respects p s₁ s₂ (omega (arith, whole)) whole r in
            let after =
              λ (b : RtpPacket). record sink { buf = b; rtp_header = next_seq sink.rtp_header } in
            Same-eq {o₁' = some (after (cb₁ p s₁).0, (cb₁ p s₁).1)}
              {o₂' = some (after (cb₂ p s₂).0, (cb₂ p s₂).1)} (ground (arith, e))
              (ground (arith, e)) (ap after packet, related, kept)
      ]
