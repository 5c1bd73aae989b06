-- ===== src/Pipeline/Simulation.antt =====
-- Two pipelines over the same source, whose sinks send to callbacks that leave the same packet.
use mathlib.Core.Path.{subst}
use zrh_rtsp_server.Prelude.{ℕ, ◌≡◌, refl, ◌∙◌, Option, none, some, List, [], ◌∷◌, arith, length}
use zrh_rtsp_server.Sink.{Sink, handle_timeout}
use zrh_rtsp_server.Sink.Simulation.{Same}
use zrh_rtsp_server.FrameQueue.{Frame, Reader, Queue}
use zrh_rtsp_server.Pipeline.{Run, start, caches, timeout, read_next}

module _ {S₁ S₂ : Type 0} (R : S₁ → S₂ → Type 0) where
  -- The same fault, or the same source and the same sink, with related states.
  abbrev pub SameTurn :
      {Media : Type 0} → Option (Media × (Sink × S₁)) → Option (Media × (Sink × S₂)) → Type 0
  SameTurn none none = Unit {0}
  SameTurn (some (m₁, st₁)) (some (m₂, st₂)) = (m₁ ≡ m₂) × Same R (some st₁) (some st₂)
  SameTurn none (some st) = ⊥
  SameTurn (some st) none = ⊥

  abbrev pub SameSend :
      (Frame → Sink × S₁ → Option (Sink × S₁)) → (Frame → Sink × S₂ → Option (Sink × S₂)) → Type 0
  SameSend send₁ send₂ =
      (f : Frame) (k : Sink) (s₁ : S₁) (s₂ : S₂)
      → R s₁ s₂
      → length k.buf.payload ≡ 1402
      → Same R (send₁ f (k, s₁)) (send₂ f (k, s₂))

  sent-SameTurn :
      {Media : Type 0} (m : Media) (o₁ : Option (Sink × S₁)) (o₂ : Option (Sink × S₂))
      → Same R o₁ o₂
      → SameTurn
          (elim o₁ [ none ↦ none | some st ↦ some (m, st) ])
          (elim o₂ [ none ↦ none | some st ↦ some (m, st) ])
  sent-SameTurn m none none h = tt
  sent-SameTurn m (some st₁) (some st₂) h = (refl, h)
  sent-SameTurn m none (some st) h = absurd h
  sent-SameTurn m (some st) none h = absurd h

  pub handle_timeout-SameTurn :
      {Media : Type 0} (read : Media → Option (Frame × Media))
      (send₁ : Frame → Sink × S₁ → Option (Sink × S₁))
      (send₂ : Frame → Sink × S₂ → Option (Sink × S₂))
      → SameSend send₁ send₂
      → (m : Media) (k : Sink) (s₁ : S₁) (s₂ : S₂) → R s₁ s₂
      → length k.buf.payload ≡ 1402
      → SameTurn (handle_timeout read send₁ (m, (k, s₁))) (handle_timeout read send₂ (m, (k, s₂)))
  unfolding handle_timeout
  handle_timeout-SameTurn {Media} read send₁ send₂ same m k s₁ s₂ r room = of_read (read m)
    where
      of_read :
          (o : Option (Frame × Media))
          → SameTurn
              (elim o [
                | none ↦ none
                | some (frame, media') ↦ elim frame [
                  | [] ↦ some (media', (k, s₁))
                  | x ∷ xs ↦ elim (send₁ (x ∷ xs) (k, s₁)) [
                    | none ↦ none
                    | some s' ↦ some (media', s')
                  ]
                ]
              ])
              (elim o [
                | none ↦ none
                | some (frame, media') ↦ elim frame [
                  | [] ↦ some (media', (k, s₂))
                  | x ∷ xs ↦ elim (send₂ (x ∷ xs) (k, s₂)) [
                    | none ↦ none
                    | some s' ↦ some (media', s')
                  ]
                ]
              ])
      of_read none = tt
      of_read (some ([], m')) = (refl, (refl, r, room))
      of_read (some (x ∷ xs, m')) = sent-SameTurn m' _ _ (same (x ∷ xs) k s₁ s₂ r room)

  -- The end of the one turn is the end of the other.
  pub SameTurn-left :
      {Media : Type 0} (o₁ : Option (Media × (Sink × S₁))) (o₂ : Option (Media × (Sink × S₂)))
      (m : Media) (k : Sink) (s₂ : S₂)
      → SameTurn o₁ o₂
      → o₂ ≡ some (m, (k, s₂))
      → (s₁ : S₁) × (o₁ ≡ some (m, (k, s₁))) × R s₁ s₂ × (length k.buf.payload ≡ 1402)
  SameTurn-left none none m k s₂ h e = absurd (ground (arith, e))
  SameTurn-left none (some x) m k s₂ h e = absurd h
  SameTurn-left (some x) none m k s₂ h e = absurd h
  SameTurn-left (some (m₁, (k₁, s₁))) (some (m₂, (k₂, t₂))) m k s₂ (media, (sink, r, room)) e =
      let last : t₂ ≡ s₂ = ground (arith, e) in
      let queue : m₁ ≡ m = media ∙ ground (arith, e) in
      let same : k₁ ≡ k = sink ∙ ground (arith, e) in
      (
        s₁,
        rw (queue, same) refl,
        subst (R s₁) last r,
        subst (λ (j : Sink). length j.buf.payload ≡ 1402) same room,
      )

  pub SameTurn-right :
      {Media : Type 0} (o₁ : Option (Media × (Sink × S₁))) (o₂ : Option (Media × (Sink × S₂)))
      (x : Media × (Sink × S₁))
      → SameTurn o₁ o₂
      → o₁ ≡ some x
      → (y : Media × (Sink × S₂)) × (o₂ ≡ some y)
  SameTurn-right none o₂ x h e = absurd (ground (arith, e))
  SameTurn-right (some x₁) none x h e = absurd h
  SameTurn-right (some x₁) (some y) x h e = (y, refl)

  -- Whatever the second pipeline does, the first one does as well.
  pub Run-Same :
      {Buffer : Type 0} (get_frame : Reader Buffer)
      (send₁ : List ℕ → Frame → Sink × S₁ → Option (Sink × S₁))
      (send₂ : List ℕ → Frame → Sink × S₂ → Option (Sink × S₂)) (b : Buffer) (sink₀ : Sink)
      (s₁ : S₁) (s₂ : S₂)
      → ((beyond : List ℕ) → SameSend (send₁ beyond) (send₂ beyond))
      → R s₁ s₂
      → length sink₀.buf.payload ≡ 1402
      → {q : Queue Buffer} {st : Sink × S₂} → Run get_frame send₂ b (sink₀, s₂) q st
      → (t₁ : S₁) × Run get_frame send₁ b (sink₀, s₁) q (st.0, t₁)
        × R t₁ st.1
        × (length st.0.buf.payload ≡ 1402)
  Run-Same get_frame send₁ send₂ b sink₀ s₁ s₂ same r room start = (s₁, start, r, room)
  Run-Same get_frame send₁ send₂ b sink₀ s₁ s₂ same r room (caches run p e) =
      let (t₁, other, r', room') = Run-Same get_frame send₁ send₂ b sink₀ s₁ s₂ same r room run in
      (t₁, caches other p e, r', room')
  Run-Same get_frame send₁ send₂ b sink₀ s₁ s₂ same r room
        (timeout {q = q} {q' = q'} {s = st} {s' = st'} stray more run e) =
      let (t₁, other, r', room') = Run-Same get_frame send₁ send₂ b sink₀ s₁ s₂ same r room run in
      let turn =
        handle_timeout-SameTurn read_next (send₁ (stray ∷ more)) (send₂ (stray ∷ more))
          (same (stray ∷ more)) q st.0 t₁ st.1 r' room' in
      let (u₁, e₁, r'', room'') = SameTurn-left _ _ q' st'.0 st'.1 turn e in
      (u₁, timeout stray more other e₁, r'', room'')
