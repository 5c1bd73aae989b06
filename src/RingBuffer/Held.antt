-- ===== src/RingBuffer/Held.antt =====
-- A file that fits into the first array, with four bytes to spare: iterators, sizes and copies there.
use zrh_rtsp_server.Prelude.{
  ℕ, zero, suc, ◌+◌, ◌-◌, ◌^◌, ◌≤◌, ◌<◌, ◌≡◌, refl, sym, ap, ap₂, ◌∙◌, true, some, List, [], ◌∷◌,
  ◌++◌, arith, length, drop, take, take_all, min, replicate, get_elem?, length-append,
  length-replicate, drop-drop,
}
use zrh_rtsp_server.RingBuffer.{
  RingBuffer, Iterator, begin, construct, dereference, increment, advance, fread, set_offect,
  get_data_between, memcpy, sub_size,
}
use zrh_rtsp_server.RingBuffer.Between.{memcpy-some}

-- `file` lies in the first array, followed by zeros, and the end of the file has been seen.
pub record IsHeld (file : List ℕ) (b : RingBuffer) : Type 0 where
  pub at_end : b.eof ≡ true
  pub in_first : b.eof_arr ≡ 0
  pub size : b.remain_size ≡ length file
  pub current : b.cur_arr ≡ 0
  pub bytes : b.arr0 ≡ file ++ replicate (b.capacity - length file) 0
  pub room : length file + 4 ≤ b.capacity
  pub small : b.capacity < 2 ^ 62

-- The iterator at byte `i` of the first array.
abbrev pub at : RingBuffer → ℕ → Iterator
at b i = record { offect = i; cur_arr = 0; ring_buffer = some b.this }

-- The stream from byte `i` on, with the zeros behind it.
abbrev pub ahead : RingBuffer → ℕ → List ℕ
ahead b i = drop i b.arr0

drop-replicate : (n m : ℕ) → drop n (replicate m 0) ≡ replicate {A = ℕ} (m - n) 0
drop-replicate zero m = ap (λ k. replicate k 0) (omega arith)
drop-replicate (suc n) zero = ap (λ k. replicate {A = ℕ} k 0) {x = 0} {y = 0 - suc n} (omega arith)
drop-replicate (suc n) (suc m) = drop-replicate n m ∙ ap (λ k. replicate k 0) (omega arith)

-- The constructor holds every file that leaves room for a start code behind it.
pub construct-IsHeld :
    (this capacity : ℕ) (file : List ℕ)
    → length file + 4 ≤ capacity
    → capacity < 2 ^ 62
    → IsHeld file (construct this capacity (some file))
unfolding construct
construct-IsHeld this capacity file room small = ground (arith, filled)
  where
    filled :
        fread capacity file (replicate capacity 0) ≡ file ++ replicate (capacity - length file) 0
    filled = ap₂ ◌++◌ (take_all capacity file (omega arith)) (
        drop-replicate (min capacity (length file)) capacity
        ∙ ap (λ k. replicate k 0) (omega arith))

pub get_elem?-drop :
    (xs : List ℕ) (i x : ℕ) (rest : List ℕ)
    → drop i xs ≡ x ∷ rest
    → (get_elem? xs i ≡ some x) × (drop (i + 1) xs ≡ rest)
get_elem?-drop [] zero x rest h = cc
get_elem?-drop [] (suc i) x rest h = cc
get_elem?-drop (y ∷ xs) zero x rest h = ground arith
get_elem?-drop (y ∷ xs) (suc i) x rest h =
    let (g, d) = get_elem?-drop xs i x rest h in
    (g, ap (λ k. drop k (y ∷ xs)) {x = suc i + 1} {y = suc (i + 1)} (omega arith) ∙ d)

pub dereference-at : (b : RingBuffer) (i : ℕ) → dereference (at b i) b ≡ get_elem? b.arr0 i
unfolding dereference
dereference-at b i = refl

pub advance-at :
    (b : RingBuffer) (i n : ℕ)
    → i + n < b.capacity
    → b.capacity < 2 ^ 62
    → advance n (at b i, b) ≡ (at b (i + n), b)
unfolding advance
advance-at b i n h small = ground arith

pub increment-at :
    (b : RingBuffer) (i : ℕ)
    → i + 1 < b.capacity
    → b.capacity < 2 ^ 62
    → increment (at b i, b) ≡ (at b (i + 1), b)
unfolding increment
increment-at b i h small = ground arith

pub drop-append : (f rest : List ℕ) → drop (length f) (f ++ rest) ≡ rest
drop-append [] rest = refl
drop-append (x ∷ f) rest = drop-append f rest

pub take-append : (f rest : List ℕ) → take (length f) (f ++ rest) ≡ f
take-append [] rest = refl
take-append (x ∷ f) rest = ap (◌∷◌ x) (take-append f rest)

pub ahead-skip :
    (b : RingBuffer) (i n : ℕ) (f rest : List ℕ)
    → ahead b i ≡ f ++ rest
    → n ≡ length f
    → ahead b (i + n) ≡ rest
ahead-skip b i n f rest e h =
    sym (drop-drop n i b.arr0) ∙ ap (drop n) e ∙ ap (λ k. drop k (f ++ rest)) h ∙ drop-append f rest

pub length-arr : (file : List ℕ) (b : RingBuffer) → IsHeld file b → length b.arr0 ≡ b.capacity
length-arr file b v = omega (
  arith,
  v,
  ap length v.bytes,
  length-append file (replicate (b.capacity - length file) 0),
  length-replicate {A = ℕ} (b.capacity - length file) 0,
)

pub set_offect-IsHeld :
    (file : List ℕ) (b : RingBuffer) (i : ℕ) → IsHeld file b → IsHeld file (set_offect b (at b i))
unfolding set_offect
set_offect-IsHeld file b i v = ground (arith, v)

pub offect-set_offect :
    (b : RingBuffer) (i : ℕ)
    → ((set_offect b (at b i)).offect ≡ i)
      × ((set_offect b (at b i)).arr0 ≡ b.arr0)
      × ((set_offect b (at b i)).capacity ≡ b.capacity)
unfolding set_offect
offect-set_offect b i = (refl, refl, refl)

pub offect-construct :
    (this capacity : ℕ) (file : List ℕ) → (construct this capacity (some file)).offect ≡ 0
unfolding construct
offect-construct this capacity file = ground arith

abbrev pub zeros : List ℕ → RingBuffer → List ℕ
zeros file b = replicate (b.capacity - length file) 0

module _ (file : List ℕ) (b : RingBuffer) (v : IsHeld file b) where
  pub data_at :
      (i : ℕ) (f rest : List ℕ)
      → ahead b i ≡ f ++ rest
      → i + length f ≤ length file
      → get_data_between (at b i) (at b (i + length f)) b ≡ some f
  unfolding get_data_between
  data_at i f rest e h =
      ap (memcpy b.arr0 i) {x = sub_size (i + length f) i} {y = length f} (omega (arith, v))
      ∙ memcpy-some b.arr0 i (length f) (omega (arith, v, length-arr file b v))
      ∙ ap some (ap (take (length f)) e ∙ take-append f rest)

  pub begin-at : begin b ≡ at b b.offect
  unfolding begin
  begin-at = ground (arith, v)
