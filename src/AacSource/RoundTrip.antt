-- ===== src/AacSource/RoundTrip.antt =====
-- Cutting frames out of an ADTS stream.
use zrh_rtsp_server.Prelude.{
  ℕ, zero, suc, ◌+◌, ◌-◌, ◌^◌, ◌≤◌, ◌<◌, ◌≡◌, refl, sym, ap, ap₂, ◌∙◌, some, List, [], ◌∷◌, ◌++◌,
  arith, length, drop, take, replicate, length-append, append_assoc,
}
use zrh_rtsp_server.RingBuffer.{RingBuffer, begin, construct, set_offect}
use zrh_rtsp_server.FrameQueue.{Reads, none_read, then_read}
use zrh_rtsp_server.RingBuffer.Access.{M, pure, ◌>>=◌}
use zrh_rtsp_server.RingBuffer.Between.{memcpy-some}
use zrh_rtsp_server.RingBuffer.Held.{
  IsHeld, at, ahead, zeros, construct-IsHeld, advance-at, ahead-skip, length-arr, set_offect-IsHeld,
  offect-set_offect, offect-construct, take-append,
}
use zrh_rtsp_server.AacSource.{
  AdtsHeader, parse_adts_header, copy_array, copy_frame, get_frame_from_file,
}
use zrh_rtsp_server.AacSource.Header.{IsAdts, adts_bytes, parse_adts_header-bytes}

-- A frame as it stands in a stream: its header, which names the length of both, and its data.
pub record AdtsFrame : Type 0 where
  pub header : AdtsHeader
  pub payload : List ℕ

abbrev pub IsFrame : AdtsFrame → Type 0
IsFrame f = IsAdts f.header × (f.header.aac_frame_length ≡ 7 + length f.payload)

abbrev pub AllFrames : List AdtsFrame → Type 0
AllFrames [] = Unit {0}
AllFrames (f ∷ fs) = IsFrame f × AllFrames fs

abbrev pub adts_stream : List AdtsFrame → List ℕ
adts_stream [] = []
adts_stream (f ∷ fs) = adts_bytes f.header ++ (f.payload ++ adts_stream fs)

abbrev pub payloads : List AdtsFrame → List (List ℕ)
payloads [] = []
payloads (f ∷ fs) = f.payload ∷ payloads fs

-- The buffer is in its first array.
pub record IsFirst (b : RingBuffer) : Type 0 where
  pub current : b.cur_arr ≡ 0
  pub full : length b.arr0 ≡ b.capacity
  pub small : b.capacity < 2 ^ 62

IsHeld-IsFirst : (file : List ℕ) (b : RingBuffer) → IsHeld file b → IsFirst b
IsHeld-IsFirst file b v = record {
  current = v.current;
  full = length-arr file b v;
  small = v.small;
}

pub begin-at_first : (b : RingBuffer) → IsFirst b → begin b ≡ at b b.offect
unfolding begin
begin-at_first b v = ground (arith, v)

-- One frame at the offset.
module _ (b : RingBuffer) (v : IsFirst b) (f : AdtsFrame) (good : IsFrame f) (rest : List ℕ)
    (e : ahead b b.offect ≡ adts_bytes f.header ++ (f.payload ++ rest))
    (le : b.offect + 7 + length f.payload < b.capacity) where
  abbrev pub behind : RingBuffer
  behind = set_offect b (at b (b.offect + (7 + length f.payload)))

  after_header : ahead b (b.offect + 7) ≡ f.payload ++ rest
  after_header = ahead-skip b b.offect 7 (adts_bytes f.header) (f.payload ++ rest) e refl

  pub after_payload : ahead b (b.offect + (7 + length f.payload)) ≡ rest
  after_payload =
      ap (ahead b) {x = b.offect + (7 + length f.payload)} {y = b.offect + 7 + length f.payload}
        (omega arith)
      ∙ ahead-skip b (b.offect + 7) (length f.payload) f.payload rest after_header refl

  copied : copy_array (at b (b.offect + 7)) (length f.payload) b ≡ some (f.payload, b)
  copied = ground (
    arith,
    memcpy-some b.arr0 (b.offect + 7) (length f.payload) (omega (arith, v)),
    ap (take (length f.payload)) after_header ∙ take-append f.payload rest,
  )

  copy_frame_lem : copy_frame (at b b.offect) (7 + length f.payload) b ≡ some (f.payload, behind)
  unfolding copy_frame
  copy_frame_lem = ground (
    arith,
    advance-at b b.offect 7 (omega (arith, v)) v.small,
    advance-at b b.offect (7 + length f.payload) (omega (arith, v)) v.small,
    copied,
    ap (λ n. copy_array (at b (b.offect + 7)) n b) {x = 7 + length f.payload - 7}
        {y = length f.payload} (omega arith),
  )

  pub get_frame_lem : get_frame_from_file b ≡ some (f.payload, behind)
  unfolding get_frame_from_file
  get_frame_lem = ground (
    arith,
    begin-at_first b v,
    ap parse_adts_header e,
    parse_adts_header-bytes f.header good.0 (f.payload ++ rest),
    good.1,
    copy_frame_lem,
    ap (λ n. copy_frame (at b b.offect) n b) good.1,
  )

-- `GetFrameFromFile` so many times.
unfoldable pub get_frames : ℕ → M (List (List ℕ))
get_frames zero = pure []
get_frames (suc n) = do frame ← get_frame_from_file; frames ← get_frames n; pure (frame ∷ frames)

-- The frames that lie ahead are read one by one, and then the stream is at its end.
pub get_frames_lem :
    (file : List ℕ) (fs : List AdtsFrame) (b : RingBuffer)
    → IsHeld file b
    → ahead b b.offect ≡ adts_stream fs ++ zeros file b
    → b.offect + length (adts_stream fs) ≡ length file
    → AllFrames fs
    → (b' : RingBuffer) × (get_frames (length fs) b ≡ some (payloads fs, b'))
      × (b'.offect ≡ length file)
      × Reads get_frame_from_file b (payloads fs) b'
      × IsHeld file b'
      × (ahead b' b'.offect ≡ zeros file b')
unfolding get_frames
get_frames_lem file [] b v e o good = (b, refl, omega arith, none_read, v, e)
get_frames_lem file (f ∷ fs) b v e o good =
    let rest = adts_stream fs ++ zeros file b in
    let size = length-append f.payload (adts_stream fs) in
    let e' : ahead b b.offect ≡ adts_bytes f.header ++ (f.payload ++ rest) =
      e
      ∙ ap (λ ys. adts_bytes f.header ++ ys)
          (append_assoc f.payload (adts_stream fs) (zeros file b)) in
    let le : b.offect + 7 + length f.payload < b.capacity = omega (arith, size, v.room) in
    let first = IsHeld-IsFirst file b v in
    let got = get_frame_lem b first f good.0 rest e' le in
    let i : ℕ = b.offect + (7 + length f.payload) in
    let c = set_offect b (at b i) in
    let (oc, ac, sc) = offect-set_offect b i in
    let next : ahead c c.offect ≡ adts_stream fs ++ zeros file c =
      ap₂ (λ (k : ℕ) (a : List ℕ). drop k a) oc ac
      ∙ after_payload b first f good.0 rest e' le
      ∙ ap (λ (k : ℕ). adts_stream fs ++ replicate {A = ℕ} (k - length file) 0) (sym sc) in
    let (b', all, end_at, reads, v', rest_zero) =
      get_frames_lem file fs c (set_offect-IsHeld file b i v) next (omega (arith, oc, size))
        good.1 in
    (b', ground (arith, got, all), end_at, then_read {b'' = b'} got reads, v', rest_zero)

-- Of an ADTS stream whose headers have all ones for their sync word, their other fields within their bits
-- and the lengths of their frames in them, and that leaves four bytes of the first array free, at a
-- capacity below 2 ^ 62, `GetFrameFromFile` gives the data of the frames, without the headers, one by one,
-- in order and unchanged. A longer stream is not covered.
pub get_frames-adts_stream :
    (this capacity : ℕ) (fs : List AdtsFrame)
    → AllFrames fs
    → length (adts_stream fs) + 4 ≤ capacity
    → capacity < 2 ^ 62
    → (b' : RingBuffer) × (get_frames (length fs) (construct this capacity (some (adts_stream fs)))
        ≡ some (payloads fs, b'))
get_frames-adts_stream this capacity fs good room small =
    let file = adts_stream fs in
    let b = construct this capacity (some file) in
    let o = offect-construct this capacity file in
    let v = construct-IsHeld this capacity file room small in
    let (b', got, _, _, _, _) =
      get_frames_lem file fs b v (ap (λ (k : ℕ). drop k b.arr0) o ∙ v.bytes) (omega (arith, o))
        good in
    (b', got)
