-- ===== src/RingBuffer/Traversal.antt =====
-- The loop of test/RingBufferTest.cpp, `while (iterator != ring_buffer.end())`, over a file.
use zrh_rtsp_server.Prelude.{
  ℕ, zero, suc, ◌^◌, ◌<◌, ◌≡◌, ap, true, false, Option, none, some, List, [], ◌∷◌, arith,
  if◌then◌else◌, length, drop, length-replicate, take-append-drop, length-drop, replicate,
}
use zrh_rtsp_server.RingBuffer.{
  RingBuffer, Iterator, construct, begin, end, dereference, ne, increment,
}
use zrh_rtsp_server.RingBuffer.Reading.{
  Continues, length-upcoming, offect-lt-filled, length-upcoming_pos, increment_lem, length-fread,
  take-fread,
}

-- After the constructor `begin` has the whole file before it.
pub construct-Continues :
    (this capacity : ℕ) (file : List ℕ)
    → 0 < capacity
    → capacity < 2 ^ 62
    → let b = construct this capacity (some file) in Continues (begin b, b) file
unfolding construct begin
construct-Continues this capacity file pos small = (
  drop capacity file,
  ground (
    arith,
    length-replicate {A = ℕ} capacity 0,
    length-fread capacity file (replicate capacity 0),
    length-drop capacity file,
  ),
  ground (arith, take-fread capacity file (replicate capacity 0), take-append-drop capacity file),
)

-- `end()` is reached exactly when no byte is left.
pub ne-end_nil : (it : Iterator) (b : RingBuffer) → Continues (it, b) [] → ne it (end b) ≡ false
unfolding ne end
ne-end_nil it b (unread, r, e) = ground (arith, r, length-upcoming it b unread r, ap length e)

pub ne-end_cons :
    (it : Iterator) (b : RingBuffer) (x : ℕ) (xs : List ℕ)
    → Continues (it, b) (x ∷ xs)
    → ne it (end b) ≡ true
unfolding ne end
ne-end_cons it b x xs (unread, r, e) =
    ground (arith, r, offect-lt-filled it b unread r (length-upcoming_pos it b unread r e))

-- The loop, with fuel: the bytes that it prints, `none` where it runs out of fuel or reads outside.
unfoldable pub print_all : ℕ → Iterator × RingBuffer → Option (List ℕ)
print_all zero s = none
print_all (suc fuel) s =
    let rest = print_all fuel (increment s) in
    if ne s.0 (end s.1)
    then elim (dereference s.0 s.1) [
      | none ↦ none
      | some x ↦ elim rest [ none ↦ none | some xs ↦ some (x ∷ xs) ]
    ]
    else some []

print_all-Continues :
    (fuel : ℕ) (it : Iterator) (b : RingBuffer) (rest : List ℕ)
    → length rest < fuel
    → Continues (it, b) rest
    → print_all fuel (it, b) ≡ some rest
unfolding print_all
print_all-Continues zero it b rest h c = absurd (omega arith)
print_all-Continues (suc fuel) it b [] h c = rw (ne-end_nil it b c)
print_all-Continues (suc fuel) it b (x ∷ xs) h c =
    let (got, next) = increment_lem it b x xs c in
    let s = increment (it, b) in
    ground
      (arith, ne-end_cons it b x xs c, got, print_all-Continues fuel s.0 s.1 xs (omega arith) next)

-- For a capacity of at least 1 and below 2 ^ 62, the loop from `begin` prints the bytes of the file, each
-- once and in order, and ends; one round more than there are bytes is fuel enough.
pub print_all-construct :
    (this capacity fuel : ℕ) (file : List ℕ)
    → 0 < capacity
    → capacity < 2 ^ 62
    → length file < fuel
    → let b = construct this capacity (some file) in print_all fuel (begin b, b) ≡ some file
print_all-construct this capacity fuel file pos small h =
    let b = construct this capacity (some file) in
    print_all-Continues fuel (begin b) b file h (construct-Continues this capacity file pos small)
