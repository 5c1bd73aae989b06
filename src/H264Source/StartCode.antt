-- ===== src/H264Source/StartCode.antt =====
-- `startCode3` and `startCode4` on a stream that fits into the first array.
use zrh_rtsp_server.Prelude.{
  ℕ, ◌+◌, ◌^◌, ◌≤◌, ◌<◌, ◌≡◌, ap, ◌∙◌, Bool, false, ◌&&◌, some, List, ◌∷◌, ◌==◌, arith, drop,
  get_elem?,
}
use zrh_rtsp_server.RingBuffer.{RingBuffer}
use zrh_rtsp_server.RingBuffer.Held.{at, ahead, get_elem?-drop, dereference-at, advance-at}
use zrh_rtsp_server.H264Source.{start_code3, start_code4}

-- The tests on four bytes that the two functions make.
abbrev pub code3 : List ℕ → Bool
code3 (x ∷ y ∷ z ∷ _) = (x == 0) && (y == 0) && (z == 1)
code3 _ = false

abbrev pub code4 : List ℕ → Bool
code4 (x ∷ y ∷ z ∷ w ∷ _) = (x == 0) && (y == 0) && (z == 0) && (w == 1)
code4 _ = false

-- Four bytes of the array, as the four reads get them.
module _ (b : RingBuffer) (i x y z w : ℕ) (rest : List ℕ)
    (e : ahead b i ≡ x ∷ y ∷ z ∷ w ∷ rest) where
  byte0 : get_elem? b.arr0 i ≡ some x
  byte0 = (get_elem?-drop b.arr0 i x _ e).0

  tail1 : drop (i + 1) b.arr0 ≡ y ∷ z ∷ w ∷ rest
  tail1 = (get_elem?-drop b.arr0 i x _ e).1

  tail2 : drop (i + 1 + 1) b.arr0 ≡ z ∷ w ∷ rest
  tail2 = (get_elem?-drop b.arr0 (i + 1) y _ tail1).1

  tail3 : drop (i + 1 + 1 + 1) b.arr0 ≡ w ∷ rest
  tail3 = (get_elem?-drop b.arr0 (i + 1 + 1) z _ tail2).1

  byte1 : get_elem? b.arr0 (i + 1) ≡ some y
  byte1 = (get_elem?-drop b.arr0 (i + 1) y _ tail1).0

  byte2 : get_elem? b.arr0 (i + 2) ≡ some z
  byte2 = ap (get_elem? b.arr0) (omega arith) ∙ (get_elem?-drop b.arr0 (i + 1 + 1) z _ tail2).0

  byte3 : get_elem? b.arr0 (i + 3) ≡ some w
  byte3 = ap (get_elem? b.arr0) (omega arith) ∙ (get_elem?-drop b.arr0 (i + 1 + 1 + 1) w _ tail3).0

  pub start_code3-at :
      i + 4 ≤ b.capacity
      → b.capacity < 2 ^ 62
      → start_code3 (at b i) b ≡ some (code3 (ahead b i), b)
  unfolding start_code3
  start_code3-at h small = rw e (
      ground (
        arith,
        dereference-at b i,
        dereference-at b (i + 1),
        dereference-at b (i + 2),
        advance-at b i 1,
        advance-at b i 2,
        byte0,
        byte1,
        byte2,
      ))

  pub start_code4-at :
      i + 4 ≤ b.capacity
      → b.capacity < 2 ^ 62
      → start_code4 (at b i) b ≡ some (code4 (ahead b i), b)
  unfolding start_code4
  start_code4-at h small = rw e (
      ground (
        arith,
        dereference-at b i,
        dereference-at b (i + 1),
        dereference-at b (i + 2),
        dereference-at b (i + 3),
        advance-at b i 1,
        advance-at b i 2,
        advance-at b i 3,
        byte0,
        byte1,
        byte2,
        byte3,
      ))
