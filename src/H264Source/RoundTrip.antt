-- ===== src/H264Source/RoundTrip.antt =====
-- Cutting NAL units out of a stream that puts a start code of four bytes before each of them.
use zrh_rtsp_server.Prelude.{
  ℕ, zero, suc, ◌+◌, ◌-◌, ◌^◌, ◌≤◌, ◌<◌, ◌≡◌, refl, sym, ap, ap₂, ◌∙◌, ◌⊎◌, inl, inr, true, false,
  some, List, [], ◌∷◌, ◌++◌, arith, length, drop, replicate, length-append, length-drop,
  append_assoc, ℕ_discrete,
}
use zrh_rtsp_server.RingBuffer.{RingBuffer, end, construct, ne, eq, set_offect}
use zrh_rtsp_server.H264Source.{
  start_code3, start_code4, find_start_code, frame_behind, frame_behind_4, get_frame_from_file,
}
use zrh_rtsp_server.FrameQueue.{Reads, none_read, then_read}
use zrh_rtsp_server.RingBuffer.Access.{M, pure, ◌>>=◌}
use zrh_rtsp_server.RingBuffer.Held.{
  IsHeld, at, ahead, zeros, construct-IsHeld, advance-at, increment-at, ahead-skip, length-arr,
  set_offect-IsHeld, offect-set_offect, offect-construct, data_at, begin-at,
}
use zrh_rtsp_server.H264Source.StartCode.{code3, code4, start_code3-at, start_code4-at}

-- No `0 0 1` in the unit, which H.264's emulation prevention sees to.
abbrev pub IsEmulationFree : List ℕ → Type 0
IsEmulationFree [] = Unit {0}
IsEmulationFree (x ∷ xs) = (code3 (x ∷ xs) ≡ false) × IsEmulationFree xs

abbrev pub AllEmulationFree : List (List ℕ) → Type 0
AllEmulationFree [] = Unit {0}
AllEmulationFree (f ∷ fs) = IsEmulationFree f × AllEmulationFree fs

-- The stream of some units.
abbrev pub mux : List (List ℕ) → List ℕ
mux [] = []
mux (f ∷ fs) = 0 ∷ 0 ∷ 0 ∷ 1 ∷ (f ++ mux fs)

-- No start code begins inside a unit that three zeros follow.
code-inside :
    (x : ℕ) (f : List ℕ) (t : ℕ) (rest : List ℕ)
    → IsEmulationFree (x ∷ f)
    → (code3 (x ∷ (f ++ 0 ∷ 0 ∷ 0 ∷ t ∷ rest)) ≡ false)
      × (code4 (x ∷ (f ++ 0 ∷ 0 ∷ 0 ∷ t ∷ rest)) ≡ false)
code-inside x [] t rest free = ground arith
code-inside x (y ∷ []) t rest free = ground arith
code-inside x (y ∷ z ∷ []) t rest free = ground arith
code-inside x (y ∷ z ∷ w ∷ f) t rest free = ground arith

four : (xs : List ℕ) → 4 ≤ length xs → (x y z w : ℕ) × (rest : List ℕ) × (xs ≡ x ∷ y ∷ z ∷ w ∷ rest)
four [] h = absurd (omega arith)
four (x ∷ []) h = absurd (omega arith)
four (x ∷ y ∷ []) h = absurd (omega arith)
four (x ∷ y ∷ z ∷ []) h = absurd (omega arith)
four (x ∷ y ∷ z ∷ w ∷ rest) h = (x, y, z, w, rest, refl)

module _ (file : List ℕ) (b : RingBuffer) (v : IsHeld file b) where
  -- The two tests at a byte that lies before the end of the stream, or at it.
  pub codes-at :
      (i : ℕ)
      → i ≤ length file
      → (start_code3 (at b i) b ≡ some (code3 (ahead b i), b))
        × (start_code4 (at b i) b ≡ some (code4 (ahead b i), b))
  codes-at i h =
      let (x, y, z, w, rest, e) =
        four (ahead b i) (omega (arith, v, length-drop i b.arr0, length-arr file b v)) in
      (
        start_code3-at b i x y z w rest e (omega (arith, v)) v.small,
        start_code4-at b i x y z w rest e (omega (arith, v)) v.small,
      )

  ne-end : (i : ℕ) → i < length file → ne (at b i) (end b) ≡ true
  unfolding ne end
  ne-end i h = ground (arith, v)

  at-end : (i : ℕ) → i ≡ length file → ne (at b i) (end b) ≡ false
  unfolding ne end
  at-end i h = ground (arith, v)

  pub eq-end : (i : ℕ) → eq (at b i) (end b) ≡ false
  unfolding eq end
  eq-end i = ground (arith, v)

  scan_end :
      (fuel i : ℕ) → i ≡ length file → find_start_code (suc fuel) (at b i) b ≡ some (at b i, b)
  unfolding find_start_code
  scan_end fuel i h = rw (at-end i h)

  scan_stop :
      (fuel i : ℕ)
      → i < length file
      → code3 (ahead b i) ≡ false
      → code4 (ahead b i) ≡ true
      → find_start_code (suc fuel) (at b i) b ≡ some (at b i, b)
  unfolding find_start_code
  scan_stop fuel i h e3 e4 = ground (arith, ne-end i h, codes-at i (omega arith))

  scan_step :
      (fuel i : ℕ)
      → i < length file
      → code3 (ahead b i) ≡ false
      → code4 (ahead b i) ≡ false
      → find_start_code (suc fuel) (at b i) b ≡ find_start_code fuel (at b (i + 1)) b
  unfolding find_start_code
  scan_step fuel i h e3 e4 =
      ground
        (arith, ne-end i h, codes-at i (omega arith), increment-at b i (omega (arith, v)) v.small)

  -- The scan stops behind a unit: at the start code that follows, or at the end of the stream.
  find_start_code_lem :
      (fuel i : ℕ) (f : List ℕ) (t : ℕ) (rest : List ℕ)
      → length f < fuel
      → ahead b i ≡ f ++ 0 ∷ 0 ∷ 0 ∷ t ∷ rest
      → IsEmulationFree f
      → i + length f ≤ length file
      → (t ≡ 1) ⊎ (i + length f ≡ length file)
      → find_start_code fuel (at b i) b ≡ some (at b (i + length f), b)
  find_start_code_lem zero i f t rest h e free le stop = absurd (omega arith)
  find_start_code_lem (suc fuel) i [] t rest h e free le stop =
      stopped ∙ ap (λ k. some (at b k, b)) {x = i} {y = i + 0} (omega arith)
    where
      stopped : find_start_code (suc fuel) (at b i) b ≡ some (at b i, b)
      stopped = elim (ℕ_discrete i (length file)) [
        | yes d ↦ scan_end fuel i d
        | no d ↦ scan_stop fuel i (omega arith) (rw e) (rw e (ground arith))
      ]
  find_start_code_lem (suc fuel) i (x ∷ f) t rest h e free le stop =
      let (c3, c4) = code-inside x f t rest free in
      scan_step fuel i (omega arith) (ap code3 e ∙ c3) (ap code4 e ∙ c4)
      ∙ find_start_code_lem fuel (i + 1) f t rest (omega arith)
          (ahead-skip b i 1 (x ∷ []) (f ++ 0 ∷ 0 ∷ 0 ∷ t ∷ rest) e refl) free.1 (omega arith)
          (ground arith)
      ∙ ap (λ k. some (at b k, b)) {x = i + 1 + length f} {y = i + suc (length f)} (omega arith)

-- One unit, behind a start code of four bytes.
module _ (file : List ℕ) (b : RingBuffer) (v : IsHeld file b) (fuel : ℕ) (f : List ℕ) (t : ℕ)
    (rest : List ℕ) (enough : length f < fuel)
    (e : ahead b b.offect ≡ 0 ∷ 0 ∷ 0 ∷ 1 ∷ (f ++ 0 ∷ 0 ∷ 0 ∷ t ∷ rest)) (free : IsEmulationFree f)
    (le : b.offect + 4 + length f ≤ length file)
    (stop : (t ≡ 1) ⊎ (b.offect + 4 + length f ≡ length file)) where
  abbrev behind : RingBuffer
  behind = set_offect b (at b (b.offect + 4 + length f))

  pub after_code : ahead b (b.offect + 4) ≡ f ++ 0 ∷ 0 ∷ 0 ∷ t ∷ rest
  after_code = ahead-skip b b.offect 4 (0 ∷ 0 ∷ 0 ∷ 1 ∷ []) (f ++ 0 ∷ 0 ∷ 0 ∷ t ∷ rest) e refl

  frame_behind_lem : frame_behind fuel (at b b.offect) 4 b ≡ some (f, behind)
  unfolding frame_behind
  frame_behind_lem = ground (
    arith,
    begin-at file b v,
    advance-at b b.offect 4 (omega (arith, v)) v.small,
    find_start_code_lem file b v fuel (b.offect + 4) f t rest enough after_code free le stop,
    eq-end file b v (b.offect + 4 + length f),
    data_at file b v (b.offect + 4) f (0 ∷ 0 ∷ 0 ∷ t ∷ rest) after_code le,
  )

  pub get_frame_lem : get_frame_from_file fuel b ≡ some (f, behind)
  unfolding get_frame_from_file frame_behind_4
  get_frame_lem = ground (
    arith,
    begin-at file b v,
    eq-end file b v b.offect,
    codes-at file b v b.offect (omega arith),
    ap code3 e,
    ap code4 e,
    frame_behind_lem,
  )

-- `GetFrameFromFile` so many times.
unfoldable pub get_frames : ℕ → ℕ → M (List (List ℕ))
get_frames fuel zero = pure []
get_frames fuel (suc n) = do
  frame ← get_frame_from_file fuel
  frames ← get_frames fuel n
  pure (frame ∷ frames)

pub zeros_shape : (k : ℕ) → 4 ≤ k → (rest : List ℕ) × (replicate {A = ℕ} k 0 ≡ 0 ∷ 0 ∷ 0 ∷ 0 ∷ rest)
zeros_shape zero h = absurd (omega arith)
zeros_shape (suc zero) h = absurd (omega arith)
zeros_shape (suc (suc zero)) h = absurd (omega arith)
zeros_shape (suc (suc (suc zero))) h = absurd (omega arith)
zeros_shape (suc (suc (suc (suc k)))) h = (replicate k 0, refl)

-- Behind a unit stand three zeros: those of a start code, or those behind the stream.
tail_shape :
    (fs : List (List ℕ)) (k : ℕ)
    → 4 ≤ k
    → (t : ℕ) × (rest : List ℕ) × (mux fs ++ replicate k 0 ≡ 0 ∷ 0 ∷ 0 ∷ t ∷ rest)
      × ((t ≡ 1) ⊎ (length (mux fs) ≡ 0))
tail_shape [] k h = let (rest, e) = zeros_shape k h in (0, rest, e, inr refl)
tail_shape (f ∷ fs) k h = (1, (f ++ mux fs) ++ replicate k 0, refl, inl refl)

-- The units that lie ahead are read one by one, and then the stream is at its end.
pub get_frames_lem :
    (file : List ℕ) (fuel : ℕ) (fs : List (List ℕ)) (b : RingBuffer)
    → IsHeld file b
    → ahead b b.offect ≡ mux fs ++ zeros file b
    → b.offect + length (mux fs) ≡ length file
    → AllEmulationFree fs
    → length file < fuel
    → (b' : RingBuffer) × (get_frames fuel (length fs) b ≡ some (fs, b'))
      × (b'.offect ≡ length file)
      × Reads (get_frame_from_file fuel) b fs b'
      × IsHeld file b'
      × (ahead b' b'.offect ≡ zeros file b')
unfolding get_frames
get_frames_lem file fuel [] b v e o free h = (b, refl, omega arith, none_read, v, e)
get_frames_lem file fuel (f ∷ fs) b v e o free h =
    let (t, rest, shape, stop) = tail_shape fs (b.capacity - length file) (omega (arith, v)) in
    let size = length-append f (mux fs) in
    let behind_f : ahead b b.offect ≡ 0 ∷ 0 ∷ 0 ∷ 1 ∷ (f ++ 0 ∷ 0 ∷ 0 ∷ t ∷ rest) =
      e
      ∙ ap (λ ys. 0 ∷ 0 ∷ 0 ∷ 1 ∷ ys)
          (append_assoc f (mux fs) (zeros file b) ∙ ap (◌++◌ f) shape) in
    let le : b.offect + 4 + length f ≤ length file = omega (arith, size) in
    let stop' : (t ≡ 1) ⊎ (b.offect + 4 + length f ≡ length file) = omega (arith, size, stop) in
    let enough : length f < fuel = omega (arith, size) in
    let got = get_frame_lem file b v fuel f t rest enough behind_f free.0 le stop' in
    let i : ℕ = b.offect + 4 + length f in
    let c = set_offect b (at b i) in
    let (oc, ac, cc') = offect-set_offect b i in
    let behind_code = after_code file b v fuel f t rest enough behind_f free.0 le stop' in
    let e' : ahead c c.offect ≡ mux fs ++ zeros file c =
      ap₂ (λ (k : ℕ) (a : List ℕ). drop k a) oc ac
      ∙ ahead-skip b (b.offect + 4) (length f) f (0 ∷ 0 ∷ 0 ∷ t ∷ rest) behind_code refl
      ∙ sym shape
      ∙ ap (λ (k : ℕ). mux fs ++ replicate {A = ℕ} (k - length file) 0) (sym cc') in
    let (b', all, end_at, reads, v', rest_zero) =
      get_frames_lem file fuel fs c (set_offect-IsHeld file b i v) e' (omega (arith, oc, size))
        free.1 h in
    (b', ground (arith, got, all), end_at, then_read {b'' = b'} got reads, v', rest_zero)

-- Of a stream that puts the start code `0 0 0 1` before each of its units, none of which holds
-- `0 0 1`, and that leaves four bytes of the first array free, `GetFrameFromFile` gives the units one
-- by one, in order and unchanged, the last one included; the capacity is below 2 ^ 62, and fuel beyond the
-- stream's length is enough.
pub get_frames-mux :
    (this capacity fuel : ℕ) (units : List (List ℕ))
    → AllEmulationFree units
    → length (mux units) + 4 ≤ capacity
    → capacity < 2 ^ 62
    → length (mux units) < fuel
    → (b' : RingBuffer) × (get_frames fuel
          (length units)
          (construct this capacity (some (mux units)))
        ≡ some (units, b'))
get_frames-mux this capacity fuel units free room small h =
    let file = mux units in
    let b = construct this capacity (some file) in
    let o = offect-construct this capacity file in
    let v = construct-IsHeld this capacity file room small in
    let (b', got, _, _, _, _) =
      get_frames_lem file fuel units b v (ap (λ (k : ℕ). drop k b.arr0) o ∙ v.bytes)
        (omega (arith, o)) free h in
    (b', got)
