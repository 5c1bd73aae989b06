-- ===== src/RingBuffer/Advance.antt =====
-- `operator+=` against as many `operator++`, and what it does at the far end of the buffers.
use zrh_rtsp_server.Prelude.{
  ℕ, zero, suc, ◌+◌, ◌-◌, ◌*◌, ◌%◌, ◌^◌, ◌≤◌, ◌<◌, ◌≡◌, refl, sym, ap, ◌∙◌, none, some, arith,
  length, List, [], ◌∷◌, get_elem?, dec_lt, Option-cases, inl, inr,
}
use zrh_rtsp_server.RingBuffer.{
  RingBuffer, Iterator, read_file, increment, advance, dereference, array,
}
use zrh_rtsp_server.RingBuffer.Reading.{entered, refilled, length-fread}

-- `++` so many times.
unfoldable pub increments : ℕ → Iterator × RingBuffer → Iterator × RingBuffer
increments zero s = s
increments (suc n) s = increments n (increment s)

increments-add :
    (m n : ℕ) (s : Iterator × RingBuffer) → increments (m + n) s ≡ increments n (increments m s)
unfolding increments
increments-add zero n s = ap (λ k. increments k s) {x = 0 + n} {y = n} (omega arith)
increments-add (suc m) n s =
    ap (λ k. increments k s) {x = suc m + n} {y = suc (m + n)} (omega arith)
    ∙ increments-add m n (increment s)

pub capacity-refilled : (it : Iterator) (b : RingBuffer) → (refilled it b).capacity ≡ b.capacity
unfolding read_file
capacity-refilled it b = ground arith

module _ (p : ℕ) where
  increment_inner :
      (it : Iterator) (b : RingBuffer)
      → it.ring_buffer ≡ some p
      → it.offect + 1 < b.capacity
      → b.capacity < 2 ^ 62
      → increment (it, b) ≡ (record it { offect = it.offect + 1 }, b)
  unfolding increment
  increment_inner it b e h small = ground arith

  increment_outer :
      (it : Iterator) (b : RingBuffer)
      → it.ring_buffer ≡ some p
      → it.offect + 1 ≡ b.capacity
      → b.capacity < 2 ^ 62
      → increment (it, b) ≡ (entered it, refilled it b)
  unfolding increment
  increment_outer it b e h small = ground arith

  pub increments_within :
      (n : ℕ) (it : Iterator) (b : RingBuffer)
      → it.ring_buffer ≡ some p
      → it.offect + n < b.capacity
      → b.capacity < 2 ^ 62
      → increments n (it, b) ≡ (record it { offect = it.offect + n }, b)
  unfolding increments
  increments_within zero it b e h small = ground arith
  increments_within (suc n) it b e h small =
      ap (increments n) (increment_inner it b e (omega arith) small)
      ∙ increments_within n (record it { offect = it.offect + 1 }) b e (omega arith) small
      ∙ ap (λ (k : ℕ). (record it { offect = k }, b)) {x = it.offect + 1 + n}
          {y = it.offect + suc n} (omega arith)

  increments_outer :
      (n : ℕ) (it : Iterator) (b : RingBuffer)
      → it.ring_buffer ≡ some p
      → it.offect + suc n ≡ b.capacity
      → b.capacity < 2 ^ 62
      → increments (suc n) (it, b) ≡ (entered it, refilled it b)
  unfolding increments
  increments_outer zero it b e h small = increment_outer it b e h small
  increments_outer (suc n) it b e h small =
      ap (λ s. increments (suc n) s) (increment_inner it b e (omega arith) small)
      ∙ increments_outer n (record it { offect = it.offect + 1 }) b e (omega arith) small

  advance_inner :
      (n : ℕ) (it : Iterator) (b : RingBuffer)
      → it.ring_buffer ≡ some p
      → it.offect + n < b.capacity
      → b.capacity < 2 ^ 62
      → advance n (it, b) ≡ (record it { offect = it.offect + n }, b)
  unfolding advance
  advance_inner n it b e h small = ground arith

  pub advance_outer :
      (n : ℕ) (it : Iterator) (b : RingBuffer)
      → it.ring_buffer ≡ some p
      → it.offect ≤ b.capacity
      → b.capacity ≤ it.offect + n
      → it.offect + n ≤ 2 * b.capacity
      → b.capacity < 2 ^ 62
      → advance n (it, b)
        ≡ (record (entered it) { offect = it.offect + n - b.capacity }, refilled it b)
  unfolding advance
  advance_outer n it b e i h k small = ground arith

  -- What `++` does past the last byte of the array.
  pub increments_beyond :
      (n : ℕ) (it : Iterator) (b : RingBuffer)
      → it.ring_buffer ≡ some p
      → it.offect < b.capacity
      → b.capacity ≤ it.offect + n
      → it.offect + n < 2 * b.capacity
      → b.capacity < 2 ^ 62
      → increments n (it, b)
        ≡ (record (entered it) { offect = it.offect + n - b.capacity }, refilled it b)
  increments_beyond n it b e i h k small =
      ap (λ m. increments m (it, b)) {x = n} {y = suc m + j} (omega arith)
      ∙ increments-add (suc m) j (it, b)
      ∙ ap (increments j) (increments_outer m it b e (omega arith) small)
      ∙ increments_within j (entered it) (refilled it b) e (omega (arith, capacity-refilled it b))
          (omega (arith, capacity-refilled it b))
      ∙ ap (λ (o : ℕ). (record (entered it) { offect = o }, refilled it b)) {x = 0 + j}
          {y = it.offect + n - b.capacity} (omega arith)
    where
      m : ℕ
      m = b.capacity - it.offect - 1

      j : ℕ
      j = it.offect + n - b.capacity

-- Over less than the rest of this array and the whole of the other, `+=` is as many `++`, reads from the
-- file included; the capacity is below 2 ^ 62.
pub advance-increments :
    (p n : ℕ) (it : Iterator) (b : RingBuffer)
    → it.ring_buffer ≡ some p
    → it.offect < b.capacity
    → b.capacity < 2 ^ 62
    → it.offect + n < 2 * b.capacity
    → advance n (it, b) ≡ increments n (it, b)
advance-increments p n it b e inside small h = elim (dec_lt (it.offect + n) b.capacity) [
  | yes w ↦ advance_inner p n it b e w small ∙ sym (increments_within p n it b e w small)
  | no w ↦
      advance_outer p n it b e (omega arith) (omega arith) (omega arith) small
      ∙ sym (increments_beyond p n it b e inside (omega arith) h small)
]

-- Past the whole of the other array, for a capacity below 2 ^ 62 and a step below 2 ^ 63, `+=` moves
-- nothing and reads nothing.
advance_too_big :
    (p n : ℕ) (it : Iterator) (b : RingBuffer)
    → it.ring_buffer ≡ some p
    → it.offect ≤ b.capacity
    → b.capacity < 2 ^ 62
    → n < 2 ^ 63
    → 2 * b.capacity < it.offect + n
    → advance n (it, b) ≡ (it, b)
unfolding advance
advance_too_big p n it b e inside small ln h = ground arith

get_elem?_past : (xs : List ℕ) (n : ℕ) → length xs ≤ n → get_elem? xs n ≡ none
get_elem?_past [] n h = refl
get_elem?_past (x ∷ xs) zero h = absurd (omega arith)
get_elem?_past (x ∷ xs) (suc n) h = get_elem?_past xs n (omega arith)

length-refilled :
    (it : Iterator) (b : RingBuffer)
    → length b.arr0 ≡ b.capacity
    → length b.arr1 ≡ b.capacity
    → (cur : ℕ) → length (array (refilled it b) cur) ≡ b.capacity
unfolding read_file
length-refilled it b h0 h1 cur = elim (Option-cases b.fp) [
  | inl e ↦ ground arith
  | inr (bytes, e) ↦
      ground
        (arith, length-fread b.capacity bytes b.arr0 h0, length-fread b.capacity bytes b.arr1 h1)
]

-- At exactly twice the capacity the test `offect > 2 * capacity_ - offect_` lets `+=` through: the
-- iterator, which was within its array, stands past the end of the other one, and reading through it is
-- out of bounds. The arrays have the buffer's capacity, which is below 2 ^ 62.
pub advance_boundary :
    (p n : ℕ) (it : Iterator) (b : RingBuffer)
    → it.ring_buffer ≡ some p
    → length b.arr0 ≡ b.capacity
    → length b.arr1 ≡ b.capacity
    → it.offect < b.capacity
    → b.capacity < 2 ^ 62
    → it.offect + n ≡ 2 * b.capacity
    → let (it', b') = advance n (it, b) in (it'.offect ≡ b.capacity) × (dereference it' b' ≡ none)
unfolding dereference
advance_boundary p n it b e h0 h1 inside small h =
    let cur : ℕ = (it.cur_arr + 1) % 2 in
    let o : it.offect + n - b.capacity ≡ b.capacity = omega arith in
    rw (advance_outer p n it b e (omega arith) (omega arith) (omega arith) small, e)
      (
        o,
        get_elem?_past (array (refilled it b) cur) _
            (omega (arith, length-refilled it b h0 h1 cur)),
      )
