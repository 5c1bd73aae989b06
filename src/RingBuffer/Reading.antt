-- ===== src/RingBuffer/Reading.antt =====
-- What an iterator has before it: the bytes up to the end of the file, in order, whichever array
-- they are in and whether they are read yet.
use zrh_rtsp_server.Prelude.{
  ℕ, zero, suc, ◌+◌, ◌-◌, ◌%◌, ◌^◌, ◌≤◌, ◌<◌, min, ◌≡◌, refl, ap, ◌∙◌, inl, inr, Bool, true, false,
  some, List, [], ◌∷◌, ◌++◌, arith, if◌then◌else◌, length, get_elem?, take, drop, length-append,
  length-take, length-drop, take-append-drop, take-append_le, take_all, Bool-cases, ℕ_discrete,
}
use zrh_rtsp_server.RingBuffer.{
  RingBuffer, Iterator, fread, array, read_file, dereference, increment,
}

-- How many bytes of the array that is being read come from the file.
abbrev pub filled : RingBuffer → ℕ
filled b = if b.eof then b.remain_size else b.capacity

-- The bytes from the iterator to the end of the file.
abbrev pub upcoming : Iterator → RingBuffer → List ℕ → List ℕ
upcoming it b unread = take (filled b - it.offect) (drop it.offect (array b it.cur_arr)) ++ unread

-- The iterator is the front one: what it has not reached is in its array or still in the file.
pub record IsReading (it : Iterator) (b : RingBuffer) (unread : List ℕ) : Type 0 where
  pub attached : it.ring_buffer ≡ some b.this
  pub opened : b.fp ≡ some unread
  pub nonempty : 0 < b.capacity
  pub small : b.capacity < 2 ^ 62
  pub full0 : length b.arr0 ≡ b.capacity
  pub full1 : length b.arr1 ≡ b.capacity
  pub two : it.cur_arr < 2
  pub inside : it.offect < b.capacity
  pub last :
      b.eof ≡ true
      → (unread ≡ [])
        × (b.remain_size < b.capacity)
        × (b.eof_arr ≡ it.cur_arr)
        × (it.offect ≤ b.remain_size)

pub length-fread : (n : ℕ) (bytes arr : List ℕ) → length arr ≡ n → length (fread n bytes arr) ≡ n
length-fread n bytes arr h = omega (
  arith,
  length-append (take n bytes) (drop (min n (length bytes)) arr),
  length-take n bytes,
  length-drop (min n (length bytes)) arr,
)

-- The front of an array after a read is what was read.
pub take-fread :
    (n : ℕ) (bytes arr : List ℕ) → take (min n (length bytes)) (fread n bytes arr) ≡ take n bytes
take-fread n bytes arr =
    rw (take-append_le (min n (length bytes)) (take n bytes) _ (omega (arith, length-take n bytes)))
      (take_all (min n (length bytes)) (take n bytes) (omega (arith, length-take n bytes)))

drop-cons :
    (n : ℕ) (xs : List ℕ)
    → n < length xs
    → (x : ℕ) × (get_elem? xs n ≡ some x) × (drop n xs ≡ x ∷ drop (n + 1) xs)
drop-cons n [] h = absurd (omega arith)
drop-cons zero (x ∷ xs) h = (x, refl, refl)
drop-cons (suc n) (x ∷ xs) h =
    let (y, e, d) = drop-cons n xs (omega arith) in
    (y, e, d ∙ ap (λ k. y ∷ drop k (x ∷ xs)) {x = suc (n + 1)} {y = suc n + 1} (omega arith))

take_pred : (n x : ℕ) (xs : List ℕ) → 0 < n → take n (x ∷ xs) ≡ x ∷ take (n - 1) xs
take_pred zero x xs h = absurd (omega arith)
take_pred (suc n) x xs h = ap (λ k. x ∷ take k xs) (omega arith)

-- A read into the other array puts the iterator at its start, with the rest of the file before it.
abbrev pub entered : Iterator → Iterator
entered it = record it { offect = 0; cur_arr = (it.cur_arr + 1) % 2 }

abbrev pub refilled : Iterator → RingBuffer → RingBuffer
refilled it b = (read_file b ((it.cur_arr + 1) % 2)).1

module _ (it : Iterator) (b : RingBuffer) (unread : List ℕ) (r : IsReading it b unread) where
  pub refilled-IsReading :
      b.eof ≡ false → IsReading (entered it) (refilled it b) (drop b.capacity unread)
  unfolding read_file
  refilled-IsReading e = ground (
    arith,
    r,
    length-fread b.capacity unread b.arr0,
    length-fread b.capacity unread b.arr1,
    length-drop b.capacity unread,
  )

  pub refilled-upcoming :
      b.eof ≡ false → upcoming (entered it) (refilled it b) (drop b.capacity unread) ≡ unread
  unfolding read_file
  refilled-upcoming e = ground (
    arith,
    r,
    take-fread b.capacity unread b.arr0,
    take-fread b.capacity unread b.arr1,
    take-append-drop b.capacity unread,
  )

-- The state one byte further on: where the file goes on, and what the file holds from there.
abbrev pub Continues : Iterator × RingBuffer → List ℕ → Type 0
Continues (it, b) rest = (unread : List ℕ) × IsReading it b unread × (upcoming it b unread ≡ rest)

-- Within the array.
pub increment_within :
    (it : Iterator) (b : RingBuffer) (unread : List ℕ)
    → IsReading it b unread
    → it.offect + 1 < b.capacity
    → increment (it, b) ≡ (record it { offect = it.offect + 1 }, b)
unfolding increment
increment_within it b unread r h = ground (arith, r)

-- At the last byte of the array.
pub increment_across :
    (it : Iterator) (b : RingBuffer) (unread : List ℕ)
    → IsReading it b unread
    → it.offect + 1 ≡ b.capacity
    → increment (it, b) ≡ (entered it, refilled it b)
unfolding increment
increment_across it b unread r h = ground (arith, r)

module _ (it : Iterator) (b : RingBuffer) (unread : List ℕ) (r : IsReading it b unread) where
  pub length-array : length (array b it.cur_arr) ≡ b.capacity
  length-array = ground (arith, r)

  pub length-upcoming : length (upcoming it b unread) ≡ filled b - it.offect + length unread
  length-upcoming = elim (Bool-cases b.eof) [
    | inl e ↦ omega (
      arith,
      r,
      r.last e,
      length-array,
      length-append (take (filled b - it.offect) (drop it.offect (array b it.cur_arr))) unread,
      length-take (filled b - it.offect) (drop it.offect (array b it.cur_arr)),
      length-drop it.offect (array b it.cur_arr),
      ap (λ (e : Bool). if e then b.remain_size else b.capacity) e,
    )
    | inr e ↦ omega (
      arith,
      r,
      length-array,
      length-append (take (filled b - it.offect) (drop it.offect (array b it.cur_arr))) unread,
      length-take (filled b - it.offect) (drop it.offect (array b it.cur_arr)),
      length-drop it.offect (array b it.cur_arr),
      ap (λ (e : Bool). if e then b.remain_size else b.capacity) e,
    )
  ]

  -- Where bytes are left, the iterator stands on one of the file's.
  pub offect-lt-filled : 0 < length (upcoming it b unread) → it.offect < filled b
  offect-lt-filled h = elim (Bool-cases b.eof) [
    | inl e ↦ omega (arith, r, ap length (r.last e).0, length-upcoming)
    | inr e ↦ rw e r.inside
  ]

  pub upcoming_cons :
      it.offect < filled b
      → (x : ℕ) × (dereference it b ≡ some x)
        × (upcoming it b unread
            ≡ x
              ∷ (take (filled b - (it.offect + 1)) (drop (it.offect + 1) (array b it.cur_arr))
                  ++ unread))
  unfolding dereference
  upcoming_cons h =
      let (x, get, rest) =
        drop-cons it.offect (array b it.cur_arr) (omega (arith, r, length-array)) in
      (
        x,
        rw r.attached get,
        ap (λ ys. ys ++ unread)
            (ap (take (filled b - it.offect)) rest
              ∙ take_pred (filled b - it.offect) x _ (omega arith)
              ∙ ap (λ k. x ∷ take k (drop (it.offect + 1) (array b it.cur_arr))) (omega arith)),
      )

  pub length-upcoming_pos :
      {x : ℕ} {xs : List ℕ} → upcoming it b unread ≡ x ∷ xs → 0 < length (upcoming it b unread)
  length-upcoming_pos e = omega (arith, ap length e)

  -- Before the array's last byte the iterator moves on by one byte.
  moved_within :
      (x : ℕ) (xs : List ℕ)
      → it.offect + 1 < b.capacity
      → upcoming it b unread ≡ x ∷ xs
      → (dereference it b ≡ some x) × Continues (record it { offect = it.offect + 1 }, b) xs
  moved_within x xs h e =
      let lt : it.offect < filled b = offect-lt-filled (length-upcoming_pos e) in
      let (y, get, rest) = upcoming_cons lt in (cc, (unread, ground (arith, r, lt), cc))

  -- At the array's last byte the other array is filled.
  moved_across :
      (x : ℕ) (xs : List ℕ)
      → it.offect + 1 ≡ b.capacity
      → upcoming it b unread ≡ x ∷ xs
      → (dereference it b ≡ some x) × Continues (entered it, refilled it b) xs
  moved_across x xs h e =
      let lt : it.offect < filled b = offect-lt-filled (length-upcoming_pos e) in
      let going : b.eof ≡ false = ground (arith, r, lt) in
      let (y, get, rest) = upcoming_cons lt in
      let none_left : filled b - (it.offect + 1) ≡ 0 = ground (arith, r) in
      let rest' : upcoming it b unread ≡ y ∷ unread =
        rest
        ∙ ap (λ k. y ∷ (take k (drop (it.offect + 1) (array b it.cur_arr)) ++ unread)) none_left in
      (
        cc,
        (
          drop b.capacity unread,
          refilled-IsReading it b unread r going,
          refilled-upcoming it b unread r going ∙ cc,
        ),
      )

-- While the front iterator has bytes before it, it reads the first of them, and `++` makes it the front
-- iterator before the rest.
pub increment_lem :
    (it : Iterator) (b : RingBuffer) (x : ℕ) (xs : List ℕ)
    → Continues (it, b) (x ∷ xs)
    → (dereference it b ≡ some x) × Continues (increment (it, b)) xs
increment_lem it b x xs (unread, r, e) = elim (ℕ_discrete (it.offect + 1) b.capacity) [
  | yes h ↦ rw (increment_across it b unread r h) (moved_across it b unread r x xs h e)
  | no h ↦
      let h' : it.offect + 1 < b.capacity = omega (arith, r.inside) in
      rw (increment_within it b unread r h') (moved_within it b unread r x xs h' e)
]
