-- ===== src/RingBuffer.antt =====
-- include/helper/RingBuffer.h and src/helper/RingBuffer.cpp: two arrays that are filled by turns
-- from a file, and the iterator that walks over them and refills the array that it enters.
-- A byte is a number; `fp_` is the list of the bytes that `fread` has not handed out yet.
pub mod Access
pub mod Reading
mod Tests
pub mod Comparison
pub mod Peek
pub mod Between
pub mod Held
pub mod Advance
pub mod Traversal
use zrh_rtsp_server.Prelude.{
  ℕ, ◌+◌, ◌-◌, ◌*◌, ◌%◌, ◌^◌, min, Bool, true, false, not, ◌&&◌, ◌||◌, Option, none, some, List,
  ◌++◌, ltb, leb, ◌==◌, if◌then◌else◌, length, get_elem?, take, drop, replicate,
}

-- `size_t` arithmetic, and the patterns of -1 as a `size_t` and as an `int`.
abbrev pub add_size : ℕ → ℕ → ℕ
add_size a b = (a + b) % 2 ^ 64

abbrev pub sub_size : ℕ → ℕ → ℕ
sub_size a b = (a + 2 ^ 64 - b) % 2 ^ 64

abbrev pub mul_size : ℕ → ℕ → ℕ
mul_size a b = (a * b) % 2 ^ 64

abbrev pub minus_one_size : ℕ
minus_one_size = 2 ^ 64 - 1

abbrev pub minus_one_int : ℕ
minus_one_int = 2 ^ 32 - 1

-- The fields of `RingBuffer`; `this` is the address that its iterators hold.
pub record RingBuffer : Type 0 where
  pub this : ℕ
  pub fp : Option (List ℕ)
  pub capacity : ℕ
  pub offect : ℕ
  pub remain_size : ℕ
  pub cur_arr : ℕ
  pub arr0 : List ℕ
  pub arr1 : List ℕ
  pub eof : Bool
  pub eof_arr : ℕ

-- The fields of `RingBufferIterator`; `none` is the null pointer.
pub record Iterator : Type 0 where
  pub offect : ℕ
  pub cur_arr : ℕ
  pub ring_buffer : Option ℕ

-- `fread(arr.data(), 1, capacity, fp)`: the array, over whose front the bytes that are there go.
abbrev pub fread : ℕ → List ℕ → List ℕ → List ℕ
fread capacity bytes arr = take capacity bytes ++ drop (min capacity (length bytes)) arr

-- What follows a read of `read_size` bytes into array `arr`.
abbrev pub after_read : RingBuffer → ℕ → ℕ → RingBuffer
after_read b arr read_size =
    if ltb read_size b.capacity
    then record b { eof = true; eof_arr = arr; remain_size = read_size }
    else b

-- `ReadFile`, with its `int` result. `fread` reports no failure but a short count.
unfoldable pub read_file : RingBuffer → ℕ → ℕ × RingBuffer
read_file b arr = elim b.fp [
  | none ↦ (minus_one_int, b)
  | some bytes ↦
      let read_size = min b.capacity (length bytes) in
      let rest = some (drop b.capacity bytes) in
      if b.eof
      then (minus_one_int, b)
      else if arr == 0
      then (
        0,
        after_read (record b { fp = rest; arr0 = fread b.capacity bytes b.arr0 }) arr read_size,
      )
      else (
        0,
        after_read (record b { fp = rest; arr1 = fread b.capacity bytes b.arr1 }) arr read_size,
      )
]

-- The members' initialisers, before the constructor's body.
unfoldable pub fresh : ℕ → ℕ → Option (List ℕ) → RingBuffer
fresh this capacity file = record {
  this = this;
  fp = file;
  capacity = capacity;
  offect = 0;
  remain_size = minus_one_size;
  cur_arr = 0;
  arr0 = replicate capacity 0;
  arr1 = replicate capacity 0;
  eof = false;
  eof_arr = minus_one_int;
}

-- The constructor, on the file that `fopen` opened (`none` where it failed).
unfoldable pub construct : ℕ → ℕ → Option (List ℕ) → RingBuffer
unfolding read_file fresh
construct this capacity file = (read_file (fresh this capacity file) 0).1

-- `getSize`.
unfoldable pub get_size : RingBuffer → ℕ
get_size b = b.capacity

-- `begin` and `end`.
unfoldable pub begin : RingBuffer → Iterator
begin b = record { offect = b.offect; cur_arr = b.cur_arr; ring_buffer = some b.this }

unfoldable pub end : RingBuffer → Iterator
end b =
    if b.eof
    then record { offect = b.remain_size; cur_arr = b.eof_arr; ring_buffer = some b.this }
    else record { offect = add_size b.capacity 1; cur_arr = b.cur_arr; ring_buffer = some b.this }

-- `SetOffect`.
unfoldable pub set_offect : RingBuffer → Iterator → RingBuffer
set_offect b it = record b { offect = it.offect; cur_arr = it.cur_arr }

-- The move constructor: the new iterator, and what is left of the old one.
unfoldable pub move : Iterator → Iterator × Iterator
move it = (it, record { offect = minus_one_size; cur_arr = minus_one_int; ring_buffer = none })

-- The array that an iterator with this `cur_arr_` reads.
abbrev pub array : RingBuffer → ℕ → List ℕ
array b cur = if cur == 0 then b.arr0 else b.arr1

-- `operator*`; `none` is a read past the array.
unfoldable pub dereference : Iterator → RingBuffer → Option ℕ
dereference it b = elim it.ring_buffer [
  | none ↦ some 0
  | some _ ↦ get_elem? (array b it.cur_arr) it.offect
]

abbrev pub same_pointer : Option ℕ → Option ℕ → Bool
same_pointer none none = true
same_pointer (some p) (some q) = p == q
same_pointer _ _ = false

-- `operator!=` and `operator==`, as they are written.
unfoldable pub ne : Iterator → Iterator → Bool
ne a b =
    not (same_pointer a.ring_buffer b.ring_buffer)
    || not (a.offect == b.offect)
    || not (a.cur_arr == b.cur_arr)

unfoldable pub eq : Iterator → Iterator → Bool
eq a b =
    same_pointer a.ring_buffer b.ring_buffer
    && (a.offect == b.offect)
    && not (a.cur_arr == b.cur_arr)

-- `operator++`, which refills the array that it enters.
unfoldable pub increment : Iterator × RingBuffer → Iterator × RingBuffer
increment (it, b) = elim it.ring_buffer [
  | none ↦ (it, b)
  | some _ ↦
      let cur = (it.cur_arr + 1) % 2 in
      if it.offect == sub_size b.capacity 1
      then (record it { offect = 0; cur_arr = cur }, (read_file b cur).1)
      else (record it { offect = add_size it.offect 1 }, b)
]

-- `operator+=`; `operator+` is it on a copy.
unfoldable pub advance : ℕ → Iterator × RingBuffer → Iterator × RingBuffer
advance n (it, b) = elim it.ring_buffer [
  | none ↦ (it, b)
  | some _ ↦
      let cur = (it.cur_arr + 1) % 2 in
      let sum = add_size it.offect n in
      if ltb sum b.capacity
      then (record it { offect = sum }, b)
      else if ltb (sub_size (mul_size 2 b.capacity) it.offect) n
      then (it, b)
      else (record it { offect = sub_size sum b.capacity; cur_arr = cur }, (read_file b cur).1)
]

-- `memcpy` of `n` bytes from index `i` on; `none` where they are not all in the array.
abbrev pub memcpy : List ℕ → ℕ → ℕ → Option (List ℕ)
memcpy arr i n = if leb (i + n) (length arr) then some (take n (drop i arr)) else none

-- `GetSizeBetween`.
unfoldable pub get_size_between : Iterator → Iterator → RingBuffer → ℕ
get_size_between it to b =
    if to.cur_arr == it.cur_arr
    then sub_size to.offect it.offect
    else sub_size (add_size to.offect b.capacity) it.offect

abbrev pub append_parts : Option (List ℕ) → Option (List ℕ) → Option (List ℕ)
append_parts (some xs) (some ys) = some (xs ++ ys)
append_parts _ _ = none

-- `GetDataBetween`; `none` is a copy from outside of the arrays.
unfoldable pub get_data_between : Iterator → Iterator → RingBuffer → Option (List ℕ)
get_data_between it to b =
    if to.cur_arr == it.cur_arr
    then memcpy (array b it.cur_arr) it.offect (sub_size to.offect it.offect)
    else append_parts (memcpy (array b it.cur_arr) it.offect (sub_size b.capacity it.offect))
        (memcpy (if it.cur_arr == 0 then b.arr1 else b.arr0) 0 to.offect)
