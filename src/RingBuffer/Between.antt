-- ===== src/RingBuffer/Between.antt =====
-- `GetSizeBetween` and `GetDataBetween` against the bytes that `++` has walked over.
use zrh_rtsp_server.Prelude.{
  ℕ, zero, suc, ◌+◌, ◌-◌, ◌*◌, ◌≤◌, ◌<◌, ◌≡◌, refl, ap, ◌∙◌, some, arith, length, List, [], ◌∷◌,
  ◌++◌, ◌==◌, if◌then◌else◌, dec_lt, inl, inr, take, drop, false, Bool-cases, length-take,
  length-drop, length-append, take-append_le, take-append_ge, take_all,
}
use zrh_rtsp_server.RingBuffer.{
  RingBuffer, Iterator, fread, read_file, array, memcpy, get_size_between, get_data_between,
}
use zrh_rtsp_server.RingBuffer.Reading.{
  entered, refilled, filled, upcoming, length-fread, IsReading, length-upcoming, length-array,
}
use zrh_rtsp_server.RingBuffer.Advance.{
  increments, capacity-refilled, increments_within, increments_beyond,
}

pub take-take : (k m : ℕ) (xs : List ℕ) → k ≤ m → take k (take m xs) ≡ take k xs
take-take zero m xs h = refl
take-take (suc k) zero xs h = absurd (omega arith)
take-take (suc k) (suc m) [] h = refl
take-take (suc k) (suc m) (x ∷ xs) h = ap (◌∷◌ x) (take-take k m xs (omega arith))

pub memcpy-some :
    (arr : List ℕ) (i n : ℕ) → i + n ≤ length arr → memcpy arr i n ≡ some (take n (drop i arr))
memcpy-some arr i n h = ground arith

abbrev other : RingBuffer → ℕ → List ℕ
other b cur = if cur == 0 then b.arr1 else b.arr0

-- What a refill leaves in the two arrays.
module _ (it : Iterator) (b : RingBuffer) (unread : List ℕ) (r : IsReading it b unread)
    (going : b.eof ≡ false) where
  refilled-array : array (refilled it b) it.cur_arr ≡ array b it.cur_arr
  unfolding read_file
  refilled-array = ground (arith, r)

  refilled-other : other (refilled it b) it.cur_arr ≡ fread b.capacity unread (other b it.cur_arr)
  unfolding read_file
  refilled-other = ground (arith, r)

-- What has been walked over lies before `filled`.
module _ (it : Iterator) (b : RingBuffer) (unread : List ℕ) (r : IsReading it b unread) (k : ℕ)
    (some_left : k ≤ length (upcoming it b unread)) where
  walked_within : it.offect + k < b.capacity → k ≤ filled b - it.offect
  walked_within h = elim (Bool-cases b.eof) [
    | inl e ↦ omega (arith, some_left, length-upcoming it b unread r, ap length (r.last e).0)
    | inr e ↦ rw e (omega (arith, r))
  ]

  walked_beyond : b.capacity ≤ it.offect + k → b.eof ≡ false
  walked_beyond h = elim (Bool-cases b.eof) [
    | inl e ↦
        let f : filled b ≡ b.remain_size = rw e in
        absurd (
          omega (
            arith,
            r,
            some_left,
            length-upcoming it b unread r,
            r.last e,
            f,
            ap length (r.last e).0,
          ))
    | inr e ↦ e
  ]

  pub between_within :
      it.offect + k < b.capacity
      → let it' = record it { offect = it.offect + k } in
        (get_size_between it it' b ≡ k)
        × (get_data_between it it' b ≡ some (take k (upcoming it b unread)))
  unfolding get_size_between get_data_between
  between_within h =
      let arr = array b it.cur_arr in
      let part : take k (upcoming it b unread) ≡ take k (drop it.offect arr) =
        take-append_le k (take (filled b - it.offect) (drop it.offect arr)) unread (
          omega (
            arith,
            walked_within h,
            length-take (filled b - it.offect) (drop it.offect arr),
            length-drop it.offect arr,
            length-array it b unread r,
          ))
        ∙ take-take k (filled b - it.offect) (drop it.offect arr) (walked_within h) in
      (
        ground (arith, r),
        rw part (
            ground
              (arith, r, memcpy-some arr it.offect k (omega (arith, length-array it b unread r)))),
      )

  module _ (h : b.capacity ≤ it.offect + k) where
    -- The file's part of this array, to its end, and the front of the file's rest.
    whole :
        take (filled b - it.offect) (drop it.offect (array b it.cur_arr))
        ≡ drop it.offect (array b it.cur_arr)
    whole = take_all _ _ (
        omega (
          arith,
          length-drop it.offect (array b it.cur_arr),
          length-array it b unread r,
          full_filled,
        ))
      where
        full_filled : filled b ≡ b.capacity
        full_filled = rw (walked_beyond h)

    part_beyond :
        take k (upcoming it b unread)
        ≡ drop it.offect (array b it.cur_arr) ++ take (it.offect + k - b.capacity) unread
    part_beyond =
        ap (λ ys. take k (ys ++ unread)) whole
        ∙ take-append_ge k (drop it.offect (array b it.cur_arr)) unread (omega (arith, sizes))
        ∙ ap (λ n. drop it.offect (array b it.cur_arr) ++ take n unread) (omega (arith, r, sizes))
      where
        sizes : length (drop it.offect (array b it.cur_arr)) ≡ b.capacity - it.offect
        sizes =
            omega (arith, length-drop it.offect (array b it.cur_arr), length-array it b unread r)

    first_part :
        memcpy (array (refilled it b) it.cur_arr) it.offect (b.capacity - it.offect)
        ≡ some (drop it.offect (array b it.cur_arr))
    first_part = rw (refilled-array it b unread r (walked_beyond h)) (
        memcpy-some (array b it.cur_arr) it.offect (b.capacity - it.offect)
          (omega (arith, r, length-array it b unread r))
        ∙ ap some (
            take_all _ _ (
              omega
                (arith, length-drop it.offect (array b it.cur_arr), length-array it b unread r))))

    second_part :
        it.offect + k < 2 * b.capacity
        → memcpy (other (refilled it b) it.cur_arr) 0 (it.offect + k - b.capacity)
          ≡ some (take (it.offect + k - b.capacity) unread)
    second_part lt = rw (refilled-other it b unread r (walked_beyond h)) (
        memcpy-some (fread b.capacity unread (other b it.cur_arr)) 0 (it.offect + k - b.capacity)
          (omega (arith, length-fread b.capacity unread (other b it.cur_arr) full))
        ∙ ap some (
            take-append_le _ (take b.capacity unread) _
              (omega (arith, length-take b.capacity unread, room))
            ∙ take-take _ b.capacity unread (omega arith)))
      where
        full : length (other b it.cur_arr) ≡ b.capacity
        full = ground (arith, r)

        room : it.offect + k - b.capacity ≤ length unread
        room = omega (
          arith,
          some_left,
          length-upcoming it b unread r,
          ap length whole,
          length-append (take (filled b - it.offect) (drop it.offect (array b it.cur_arr))) unread,
          length-drop it.offect (array b it.cur_arr),
          length-array it b unread r,
        )

    pub between_beyond :
        it.offect + k < 2 * b.capacity
        → let it' = record (entered it) { offect = it.offect + k - b.capacity } in
          (get_size_between it it' (refilled it b) ≡ k)
          × (get_data_between it it' (refilled it b) ≡ some (take k (upcoming it b unread)))
    unfolding get_size_between get_data_between
    between_beyond lt = (
      ground (arith, r, capacity-refilled it b),
      rw part_beyond (ground (arith, r, capacity-refilled it b, first_part, second_part lt)),
    )

-- After `k` rounds of `++`, less than the rest of this array and the whole of the other and no more
-- than there are bytes: the size between the two iterators is `k`, and the data between them are the
-- next `k` bytes of the file.
pub get_data_between-increments :
    (it : Iterator) (b : RingBuffer) (unread : List ℕ) (k : ℕ)
    → IsReading it b unread
    → k ≤ length (upcoming it b unread)
    → it.offect + k < 2 * b.capacity
    → let (it', b') = increments k (it, b) in
      (get_size_between it it' b' ≡ k)
      × (get_data_between it it' b' ≡ some (take k (upcoming it b unread)))
get_data_between-increments it b unread k r h lt = elim (dec_lt (it.offect + k) b.capacity) [
  | yes w ↦
      rw (increments_within b.this k it b r.attached w r.small) (between_within it b unread r k h w)
  | no w ↦
      rw (increments_beyond b.this k it b r.attached r.inside (omega arith) lt r.small)
        (between_beyond it b unread r k h (omega arith) lt)
]
