-- ===== src/AacSource/Crossing.antt =====
-- A file that is longer than one array of the ring buffer: the frame that crosses the end of the array.
use zrh_rtsp_server.Prelude.{
  ℕ, ◌+◌, ◌-◌, ◌^◌, ◌≤◌, ◌<◌, ◌≡◌, refl, ap, ◌∙◌, none, some, List, [], ◌∷◌, ◌++◌, arith, length,
  drop, take, min, length-append, length-take, append_assoc, append-nil, take-append_le,
  take-append_ge, drop_all, length-replicate, replicate,
}
use zrh_rtsp_server.RingBuffer.{RingBuffer, construct, set_offect, memcpy, fread}
use zrh_rtsp_server.RingBuffer.Held.{at, ahead, advance-at, offect-construct}
use zrh_rtsp_server.AacSource.{parse_adts_header, copy_frame, get_frame_from_file}
use zrh_rtsp_server.AacSource.Header.{adts_bytes, parse_adts_header-bytes}
use zrh_rtsp_server.AacSource.RoundTrip.{
  AdtsFrame, IsFrame, AllFrames, adts_stream, payloads, IsFirst, begin-at_first, get_frame_lem,
  after_payload, get_frames,
}

-- The header lies in the array with one byte behind it, the data does not.
get_frame_crossing :
    (b : RingBuffer) (f : AdtsFrame) (rest : List ℕ)
    → IsFirst b
    → IsFrame f
    → ahead b b.offect ≡ adts_bytes f.header ++ rest
    → b.offect + 7 < b.capacity
    → b.capacity < b.offect + 7 + length f.payload
    → get_frame_from_file b ≡ none
unfolding get_frame_from_file copy_frame
get_frame_crossing b f rest v good e fits crosses = ground (
  arith,
  begin-at_first b v,
  ap parse_adts_header e,
  parse_adts_header-bytes f.header good.0 rest,
  good.1,
  advance-at b b.offect 7 fits v.small,
  beyond,
)
  where
    beyond : memcpy b.arr0 (b.offect + 7) (f.header.aac_frame_length - 7) ≡ none
    beyond = ground (arith, v.full, good.1)

-- What the frames before leave.
get_frames_before :
    (fs : List AdtsFrame) (b : RingBuffer) (tail : List ℕ)
    → IsFirst b
    → AllFrames fs
    → ahead b b.offect ≡ adts_stream fs ++ tail
    → b.offect + length (adts_stream fs) < b.capacity
    → (b' : RingBuffer) × (get_frames (length fs) b ≡ some (payloads fs, b'))
      × (b'.offect ≡ b.offect + length (adts_stream fs))
      × (b'.capacity ≡ b.capacity)
      × IsFirst b'
      × (ahead b' b'.offect ≡ tail)
unfolding get_frames set_offect
get_frames_before [] b tail v good e lt = (b, refl, omega arith, refl, v, e)
get_frames_before (f ∷ fs) b tail v good e lt =
    let rest = adts_stream fs ++ tail in
    let size = length-append f.payload (adts_stream fs) in
    let e' : ahead b b.offect ≡ adts_bytes f.header ++ (f.payload ++ rest) =
      e ∙ ap (λ ys. adts_bytes f.header ++ ys) (append_assoc f.payload (adts_stream fs) tail) in
    let le : b.offect + 7 + length f.payload < b.capacity = omega (arith, size) in
    let got = get_frame_lem b v f good.0 rest e' le in
    let i : ℕ = b.offect + (7 + length f.payload) in
    let c = set_offect b (at b i) in
    let first : IsFirst c = record { current = refl; full = v.full; small = v.small } in
    let (b', all, end_at, same, v', behind) =
      get_frames_before fs c tail first good.1 (after_payload b v f good.0 rest e' le)
        (omega (arith, size)) in
    (b', ground (arith, got, all), omega (arith, end_at, size), same, v', behind)

-- The first array of a file that does not fit in it.
construct-IsFirst :
    (this capacity : ℕ) (file : List ℕ)
    → capacity ≤ length file
    → capacity < 2 ^ 62
    → IsFirst (construct this capacity (some file))
      × ((construct this capacity (some file)).arr0 ≡ take capacity file)
      × ((construct this capacity (some file)).capacity ≡ capacity)
unfolding construct
construct-IsFirst this capacity file long small =
    let b = construct this capacity (some file) in
    let filled : b.arr0 ≡ take capacity file = ground (arith, kept) in
    let same : b.capacity ≡ capacity = ground arith in
    let first : b.cur_arr ≡ 0 = ground arith in
    let size : length b.arr0 ≡ b.capacity =
      omega (arith, ap length filled, same, length-take capacity file) in
    (record { current = first; full = size; small = omega (arith, same) }, filled, same)
  where
    kept : fread capacity file (replicate capacity 0) ≡ take capacity file
    kept =
        ap (λ ys. take capacity file ++ ys)
          (drop_all (min capacity (length file)) (replicate capacity 0)
            (omega (arith, length-replicate {A = ℕ} capacity 0)))
        ∙ append-nil (take capacity file)

take_crossing :
    (k : ℕ) (before header payload rest : List ℕ)
    → length before + length header ≤ k
    → k ≤ length before + length header + length payload
    → take k (before ++ (header ++ (payload ++ rest)))
      ≡ before ++ (header ++ take (k - length before - length header) payload)
take_crossing k before header payload rest le ge =
    take-append_ge k before (header ++ (payload ++ rest)) (omega arith)
    ∙ ap (λ ys. before ++ ys)
        (take-append_ge (k - length before) header (payload ++ rest) (omega arith)
          ∙ ap (λ ys. header ++ ys)
              (take-append_le (k - length before - length header) payload rest (omega arith)))

-- A file longer than the first array, at a capacity below 2 ^ 62: frames as an ADTS stream has them,
-- headers with their fields within their bits and the lengths in them; then one more such frame, whose
-- header ends before the last byte of the array, and whose data goes on past its end; then anything.
-- `GetFrameFromFile` gives the data of the frames before in order and unchanged, and on the one that
-- crosses the end its `memcpy` reads outside of the array.
pub get_frames_crossing :
    (this capacity : ℕ) (fs : List AdtsFrame) (f : AdtsFrame) (rest : List ℕ)
    → AllFrames fs
    → IsFrame f
    → capacity < 2 ^ 62
    → length (adts_stream fs) + 7 < capacity
    → capacity < length (adts_stream fs) + 7 + length f.payload
    → (b' : RingBuffer) × (get_frames (length fs) (
          construct this capacity
            (some (adts_stream fs ++ (adts_bytes f.header ++ (f.payload ++ rest)))))
        ≡ some (payloads fs, b'))
      × (get_frame_from_file b' ≡ none)
get_frames_crossing this capacity fs f rest good frame small fits crosses =
    let before = adts_stream fs in
    let header = adts_bytes f.header in
    let file = before ++ (header ++ (f.payload ++ rest)) in
    let b = construct this capacity (some file) in
    let long : capacity ≤ length file = omega (
      arith,
      length-append before (header ++ (f.payload ++ rest)),
      length-append header (f.payload ++ rest),
      length-append f.payload rest,
    ) in
    let (first, filled, same) = construct-IsFirst this capacity file long small in
    let o = offect-construct this capacity file in
    let k : ℕ = capacity - length before - 7 in
    let cut = take_crossing capacity before header f.payload rest (omega arith) (omega arith) in
    let (b', got, at, same', first', behind) =
      get_frames_before fs b (header ++ take k f.payload) first good
        (ap (λ (i : ℕ). drop i b.arr0) o ∙ (filled ∙ cut)) (omega (arith, o, same)) in
    (
      b',
      got,
      get_frame_crossing b' f (take k f.payload) first' frame behind
          (omega (arith, at, o, same, same')) (omega (arith, at, o, same, same')),
    )
