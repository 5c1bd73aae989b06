-- ===== src/H264Sink/Depacketize.antt =====
-- What a receiver makes of FU-A fragments (RFC 6184, section 5.8), and the fragments of a NAL unit.
use zrh_rtsp_server.Prelude.{
  ℕ, ◌+◌, ◌*◌, ◌/◌, ◌%◌, ◌^◌, ◌<◌, ◌≡◌, refl, Bool, true, false, ◌&&◌, Option, none, some, List, [],
  ◌∷◌, ◌++◌, ◌==◌, leb, ltb, if◌then◌else◌, arith, append-nil,
}
use zrh_rtsp_server.Rtp.{RtpHeader}
use zrh_rtsp_server.Sink.{next_seq}
use zrh_rtsp_server.Sink.Log.{Sent}

abbrev pub concat : List (List ℕ) → List ℕ
concat [] = []
concat (c ∷ cs) = c ++ concat cs

abbrev pub is_last : List (List ℕ) → Bool
is_last [] = true
is_last (c ∷ cs) = false

-- The flags of a fragment: start on the first, end on the last of a run that ends the unit.
abbrev pub run_flag : Bool → Bool → ℕ
run_flag first last = if first then 128 else (if last then 64 else 0)

-- A run of fragments, one for each chunk, under consecutive sequence numbers.
unfoldable pub fu_run : RtpHeader → ℕ → Bool → Bool → List (List ℕ) → List Sent
fu_run h nalu first last [] = []
fu_run h nalu first last (c ∷ cs) =
    record {
      header = h;
      payload = (nalu / 32 % 4 * 32 + 28) ∷ (nalu % 32 + run_flag first (last && is_last cs)) ∷ c;
    }
    ∷ fu_run (next_seq h) nalu false last cs

-- The receiver behind the first fragment: it wants the sequence numbers without a gap, no second start
-- bit, and the end bit on the last fragment and there alone.
abbrev pub prepend : List ℕ → Option (List ℕ) → Option (List ℕ)
prepend xs none = none
prepend xs (some ys) = some (xs ++ ys)

abbrev pub is_nil : List Sent → Bool
is_nil [] = true
is_nil (p ∷ ps) = false

-- One fragment behind the first, with what the rest of the fragments gives.
abbrev pub fragment : ℕ → Sent → Bool → List ℕ → Option (List ℕ) → Option (List ℕ)
fragment seq p nothing_left (ind ∷ fu ∷ bytes) rest =
    if (p.header.seq == seq) && (ind % 32 == 28) && ltb fu 128
    then (if leb 64 fu then (if nothing_left then some bytes else none) else prepend bytes rest)
    else none
fragment seq p nothing_left _ rest = none

pub collect : ℕ → List Sent → Option (List ℕ)
collect seq [] = none
collect seq (p ∷ ps) = fragment seq p (is_nil ps) p.payload (collect ((seq + 1) % 2 ^ 16) ps)

-- The first fragment has the start bit, and with the indicator gives the unit's first byte.
abbrev pub start_fragment : List ℕ → Option (List ℕ) → Option (List ℕ)
start_fragment (ind ∷ fu ∷ bytes) rest =
    if (ind % 32 == 28) && leb 128 fu && ltb fu 192
    then prepend ((ind / 32 * 32 + fu % 32) ∷ bytes) rest
    else none
start_fragment _ rest = none

pub depacketize : List Sent → Option (List ℕ)
depacketize [] = none
depacketize (p ∷ ps) = start_fragment p.payload (collect ((p.header.seq + 1) % 2 ^ 16) ps)

is_nil-fu_run :
    (h : RtpHeader) (nalu : ℕ) (first last : Bool) (cs : List (List ℕ))
    → is_nil (fu_run h nalu first last cs) ≡ is_last cs
unfolding fu_run
is_nil-fu_run h nalu first last [] = refl
is_nil-fu_run h nalu first last (c ∷ cs) = refl

collect-fu_run :
    (h : RtpHeader) (nalu : ℕ) (c : List ℕ) (cs : List (List ℕ))
    → collect h.seq (fu_run h nalu false true (c ∷ cs)) ≡ some (c ++ concat cs)
unfolding collect fu_run
collect-fu_run h nalu c [] = ground (arith, append-nil c)
collect-fu_run h nalu c (d ∷ cs) = ground (
  arith,
  collect-fu_run (next_seq h) nalu d cs,
  is_nil-fu_run (next_seq h) nalu false true (d ∷ cs),
)

-- Two fragments or more, of a unit whose first byte has its forbidden bit clear, are put together to
-- that byte and the chunks in order.
pub depacketize-fu_run :
    (h : RtpHeader) (nalu : ℕ) (c d : List ℕ) (cs : List (List ℕ))
    → nalu < 128
    → depacketize (fu_run h nalu true true (c ∷ d ∷ cs)) ≡ some (nalu ∷ (c ++ (d ++ concat cs)))
unfolding depacketize fu_run
depacketize-fu_run h nalu c d cs lt = ground (arith, collect-fu_run (next_seq h) nalu d cs)
