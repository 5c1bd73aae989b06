-- ===== src/RingBuffer/Comparison.antt =====
-- `operator!=` and `operator==` of the iterator.
use zrh_rtsp_server.Prelude.{ℕ, ◌≡◌, ◌↔◌, true, false, not, ◌&&◌, Option, none, some, arith}
use zrh_rtsp_server.RingBuffer.{Iterator, same_pointer, ne, eq}

same_pointer_iff : (p q : Option ℕ) → (same_pointer p q ≡ true) ↔ (p ≡ q)
same_pointer_iff none none = ground arith
same_pointer_iff none (some q) = ground arith
same_pointer_iff (some p) none = ground arith
same_pointer_iff (some p) (some q) = ground arith

-- `!=` is false exactly on iterators whose three fields agree, and `==` is not its negation: it never
-- holds of iterators of which `!=` does not hold, so it holds of no iterator and itself.
pub eq-and-ne : (a b : Iterator) → ((ne a b ≡ false) ↔ (a ≡ b)) × ((eq a b && not (ne a b)) ≡ false)
unfolding eq ne
eq-and-ne a b = (ground (arith, same_pointer_iff a.ring_buffer b.ring_buffer), ground arith)
