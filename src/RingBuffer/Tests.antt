-- ===== src/RingBuffer/Tests.antt =====
-- Runs of the ring buffer on a file of five bytes and arrays of two, and instances of its theorems.
use zrh_rtsp_server.Prelude.{
  ℕ, ◌-◌, ◌^◌, ◌≡◌, refl, ◌↔◌, false, not, ◌&&◌, none, some, List, [], ◌∷◌, arith,
}
use zrh_rtsp_server.RingBuffer.{
  RingBuffer, Iterator, construct, begin, end, read_file, fresh, increment, advance, dereference,
  ne, eq, get_size_between, get_data_between,
}
use zrh_rtsp_server.RingBuffer.Reading.{IsReading, Continues, increment_lem}
use zrh_rtsp_server.RingBuffer.Traversal.{print_all, print_all-construct}
use zrh_rtsp_server.RingBuffer.Advance.{increments, advance-increments, advance_boundary}
use zrh_rtsp_server.RingBuffer.Between.{get_data_between-increments}
use zrh_rtsp_server.RingBuffer.Peek.{advance_loses_block}
use zrh_rtsp_server.RingBuffer.Comparison.{eq-and-ne}

abbrev five : List ℕ
five = 10 ∷ 20 ∷ 30 ∷ 40 ∷ 50 ∷ []

-- The buffer after its constructor: two of the five bytes are read.
abbrev two_read : RingBuffer
two_read = record {
  this = 1;
  fp = some (30 ∷ 40 ∷ 50 ∷ []);
  capacity = 2;
  offect = 0;
  remain_size = 2 ^ 64 - 1;
  cur_arr = 0;
  arr0 = 10 ∷ 20 ∷ [];
  arr1 = 0 ∷ 0 ∷ [];
  eof = false;
  eof_arr = 2 ^ 32 - 1;
}

abbrev first : Iterator
first = record { offect = 0; cur_arr = 0; ring_buffer = some 1 }

abbrev second : Iterator
second = record { offect = 1; cur_arr = 0; ring_buffer = some 1 }

constructed : construct 1 2 (some five) ≡ two_read
unfolding construct
constructed = refl

no_file : construct 1 2 none ≡ fresh 1 2 none
unfolding construct
no_file = refl

printed : print_all 6 (begin two_read, two_read) ≡ some five
unfolding print_all increment read_file begin end ne dereference
printed = refl

first-IsReading : IsReading first two_read (30 ∷ 40 ∷ 50 ∷ [])
first-IsReading = ground arith

second-IsReading : IsReading second two_read (30 ∷ 40 ∷ 50 ∷ [])
second-IsReading = ground arith

print_all-construct_example :
    let b = construct 1 2 (some five) in print_all 6 (begin b, b) ≡ some five
print_all-construct_example =
    print_all-construct 1 2 6 five (omega arith) (omega arith) (omega arith)

second_reads :
    (dereference second two_read ≡ some 20)
    × Continues (increment (second, two_read)) (30 ∷ 40 ∷ 50 ∷ [])
second_reads =
    increment_lem second two_read 20 (30 ∷ 40 ∷ 50 ∷ []) (30 ∷ 40 ∷ 50 ∷ [], second-IsReading, refl)

advance-increments_example : advance 2 (second, two_read) ≡ increments 2 (second, two_read)
advance-increments_example =
    advance-increments 1 2 second two_read refl (omega arith) (omega arith) (omega arith)

advance_boundary_example :
    let (it', b') = advance 3 (second, two_read) in (it'.offect ≡ 2) × (dereference it' b' ≡ none)
advance_boundary_example =
    advance_boundary 1 3 second two_read refl refl refl (omega arith) (omega arith) (omega arith)

get_data_between-increments_example :
    let (it', b') = increments 2 (second, two_read) in
    (get_size_between second it' b' ≡ 2) × (get_data_between second it' b' ≡ some (20 ∷ 30 ∷ []))
get_data_between-increments_example =
    get_data_between-increments second two_read (30 ∷ 40 ∷ 50 ∷ []) 2 second-IsReading (omega arith)
      (omega arith)

advance_loses_block_example :
    let b' = (advance 1 (second, two_read)).1 in Continues (increment (second, b')) (50 ∷ [])
advance_loses_block_example =
    advance_loses_block second two_read (30 ∷ 40 ∷ 50 ∷ []) second-IsReading refl (omega arith)
      (omega arith)

eq-and-ne_example :
    ((ne first second ≡ false) ↔ (first ≡ second))
    × ((eq first second && not (ne first second)) ≡ false)
eq-and-ne_example = eq-and-ne first second
