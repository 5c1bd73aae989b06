-- ===== src/RingBuffer/Peek.antt =====
-- `*(it + 1)` at the last byte of an array: `operator+` works on a copy of the iterator, and on the
-- buffer itself.
use zrh_rtsp_server.Prelude.{ℕ, ◌+◌, ◌≤◌, ◌≡◌, sym, ◌∙◌, arith, length, List, drop, false}
use zrh_rtsp_server.RingBuffer.{RingBuffer, Iterator, read_file, increment, advance}
use zrh_rtsp_server.RingBuffer.Reading.{
  refilled, length-fread, IsReading, Continues, increment_across, refilled-IsReading,
  refilled-upcoming,
}
use zrh_rtsp_server.RingBuffer.Advance.{advance_outer, capacity-refilled}

-- The iterator is where it was, but the file is a block further.
refilled-keeps-IsReading :
    (it : Iterator) (b : RingBuffer) (unread : List ℕ)
    → IsReading it b unread
    → b.eof ≡ false
    → b.capacity ≤ length unread
    → IsReading it (refilled it b) (drop b.capacity unread) × ((refilled it b).eof ≡ false)
unfolding read_file
refilled-keeps-IsReading it b unread r going full = (
  ground (arith, r, length-fread b.capacity unread b.arr0, length-fread b.capacity unread b.arr1),
  ground (arith, r),
)

-- At the last byte of an array, with the end of the file not seen and a whole block left in it, a look at
-- `it + 1` loses that block: `++` then goes on with what follows it, and never reads the block's bytes.
pub advance_loses_block :
    (it : Iterator) (b : RingBuffer) (unread : List ℕ)
    → IsReading it b unread
    → b.eof ≡ false
    → it.offect + 1 ≡ b.capacity
    → b.capacity ≤ length unread
    → let b' = (advance 1 (it, b)).1 in Continues (increment (it, b')) (drop b.capacity unread)
advance_loses_block it b unread r going h full =
    let b' = refilled it b in
    let (r', going') = refilled-keeps-IsReading it b unread r going full in
    rw
      (
        advance_outer b.this 1 it b r.attached (omega (arith, r)) (omega arith) (omega arith)
            r.small,
        increment_across it b' (drop b.capacity unread) r' (h ∙ sym (capacity-refilled it b)),
      )
      (
        drop b'.capacity (drop b.capacity unread),
        refilled-IsReading it b' (drop b.capacity unread) r' going',
        refilled-upcoming it b' (drop b.capacity unread) r' going',
      )
