-- ===== src/H264Sink/Fragments.antt =====
-- `sendFrame` on a NAL unit that is larger than a packet.
use zrh_rtsp_server.Prelude.{
  ℕ, zero, suc, ◌+◌, ◌*◌, ◌/◌, ◌%◌, ◌≤◌, ◌<◌, ◌≡◌, refl, sym, ap, ◌∙◌, Bool, true, false, ◌&&◌,
  some, List, [], ◌∷◌, ◌++◌, ◌==◌, ltb, if◌then◌else◌, arith, length, take, drop, append_assoc,
  append-nil, length-append, length-take, drop-drop, ne→==, Bool-cases, inl, inr, take_all, ◌≢◌,
  ℕ_discrete,
}
use zrh_rtsp_server.Bits.{
  bit_and_60, bit_and_1f, bit_or_indicator, bit_or_start, bit_or_end, bit_or_none,
}
use zrh_rtsp_server.RingBuffer.Between.{memcpy-some}
use zrh_rtsp_server.Rtp.{RtpHeader, RtpPacket}
use zrh_rtsp_server.Sink.{Sink, next_seq}
use zrh_rtsp_server.Sink.Log.{Sent, log, send_packet-log}
use zrh_rtsp_server.H264Sink.{
  fu_indicator, fu_header, full_flag, send_fragment, send_full, send_fragments,
}
use zrh_rtsp_server.H264Sink.Depacketize.{concat, is_last, run_flag, fu_run}

fu_indicator_lem : (nalu : ℕ) → nalu < 256 → fu_indicator nalu ≡ nalu / 32 % 4 * 32 + 28
fu_indicator_lem nalu h = rw (bit_and_60 nalu h) (bit_or_indicator (nalu / 32 % 4) (omega arith))

fu_header_lem :
    (nalu : ℕ)
    → nalu < 256
    → (fu_header nalu 0x80 ≡ nalu % 32 + 128)
      × (fu_header nalu 0x40 ≡ nalu % 32 + 64)
      × (fu_header nalu 0 ≡ nalu % 32 + 0)
fu_header_lem nalu h = rw (bit_and_1f nalu h) (
  bit_or_start (nalu % 32) (omega arith),
  bit_or_end (nalu % 32) (omega arith),
  bit_or_none (nalu % 32) (omega arith),
)

-- The header after so many packets.
abbrev pub after : ℕ → RtpHeader → RtpHeader
after zero h = h
after (suc n) h = after n (next_seq h)

-- The full chunks at the front of some bytes.
abbrev pub fulls : ℕ → List ℕ → List (List ℕ)
fulls zero xs = []
fulls (suc n) xs = take 1400 xs ∷ fulls n (drop 1400 xs)

is_last-fulls : (n : ℕ) (xs : List ℕ) → is_last (fulls n xs) ≡ (n == 0)
is_last-fulls zero xs = refl
is_last-fulls (suc n) xs = sym (ne→== (suc n) 0 (omega arith))

full_flag_lem :
    (pkt_num remain left i nalu : ℕ) (xs : List ℕ)
    → nalu < 256
    → i + suc left ≡ pkt_num
    → fu_header nalu (full_flag pkt_num remain i)
      ≡ nalu % 32 + run_flag (i == 0) ((remain == 0) && is_last (fulls left xs))
full_flag_lem pkt_num remain left i nalu xs byte e =
    rw (is_last-fulls left xs) (ground (arith, fu_header_lem nalu byte))

module _ (change : RtpPacket → RtpPacket)
    (keeps : (p : RtpPacket) → length (change p).payload ≡ length p.payload) (memory : List ℕ)
    (nalu : ℕ) (byte : nalu < 256) where
  -- One fragment.
  send_fragment_lem :
      (flag value pos n : ℕ) (sink : Sink) (sent : List Sent)
      → fu_header nalu flag ≡ value
      → pos + n ≤ length memory
      → n ≤ 1400
      → length sink.buf.payload ≡ 1402
      → (buf : RtpPacket) × (send_fragment (log change) memory nalu flag pos n (sink, sent)
          ≡ some (
            record sink { buf = buf; rtp_header = next_seq sink.rtp_header },
            sent
                ++ record {
                  header = sink.rtp_header;
                  payload = (nalu / 32 % 4 * 32 + 28) ∷ value ∷ take n (drop pos memory);
                }
                  ∷ [],
          ))
        × (length buf.payload ≡ 1402)
  unfolding send_fragment
  send_fragment_lem flag value pos n sink sent e inside small room =
      let bytes = take n (drop pos memory) in
      let size : length bytes ≤ 1400 = omega (arith, length-take n (drop pos memory)) in
      let xs = fu_indicator nalu ∷ fu_header nalu flag ∷ bytes in
      let (buf, got, kept) = send_packet-log change keeps sink xs sent (omega arith) in
      (
        buf,
        ground (arith, memcpy-some memory pos n inside, got, fu_indicator_lem nalu byte, e),
        omega arith,
      )

  -- The loop over the full packets.
  send_full_lem :
      (pkt_num remain left i pos : ℕ) (sink : Sink) (sent : List Sent)
      → i + left ≡ pkt_num
      → pos + left * 1400 ≤ length memory
      → length sink.buf.payload ≡ 1402
      → (buf : RtpPacket) × (send_full
            (log change)
            memory
            nalu
            pkt_num
            remain
            left
            i
            pos
            (sink, sent)
          ≡ some (
            record sink { buf = buf; rtp_header = after left sink.rtp_header },
            sent
                ++ fu_run sink.rtp_header nalu
                    (i == 0)
                    (remain == 0)
                    (fulls left (drop pos memory)),
          ))
        × (length buf.payload ≡ 1402)
  unfolding send_full fu_run
  send_full_lem pkt_num remain zero i pos sink sent e inside room =
      (sink.buf, ground (arith, append-nil sent), room)
  send_full_lem pkt_num remain (suc left) i pos sink sent e inside room =
      let xs = drop 1400 (drop pos memory) in
      let value = nalu % 32 + run_flag (i == 0) ((remain == 0) && is_last (fulls left xs)) in
      let flag = full_flag_lem pkt_num remain left i nalu xs byte e in
      let (buf, got, kept) =
        send_fragment_lem (full_flag pkt_num remain i) value pos 1400 sink sent flag (omega arith)
          (omega arith) room in
      let sink' : Sink = record sink { buf = buf; rtp_header = next_seq sink.rtp_header } in
      let packet : Sent = record {
        header = sink.rtp_header;
        payload = (nalu / 32 % 4 * 32 + 28) ∷ value ∷ take 1400 (drop pos memory);
      } in
      let (buf', all, kept') =
        send_full_lem pkt_num remain left (i + 1) (pos + 1400) sink' (sent ++ packet ∷ [])
          (omega arith) (omega arith) kept in
      let later = fu_run sink'.rtp_header nalu false (remain == 0) (fulls left xs) in
      (
        buf',
        ground (arith, got, all, drop-drop 1400 pos memory, append_assoc sent (packet ∷ []) later),
        kept',
      )

take-take-drop : (a b : ℕ) (xs : List ℕ) → take a xs ++ take b (drop a xs) ≡ take (a + b) xs
take-take-drop zero b xs = ap (λ k. take k xs) (omega arith)
take-take-drop (suc a) b [] =
    take_all b [] (omega arith) ∙ sym (take_all (suc a + b) [] (omega arith))
take-take-drop (suc a) b (x ∷ xs) =
    ap (◌∷◌ x) (take-take-drop a b xs)
    ∙ ap (λ k. take k (x ∷ xs)) {x = suc (a + b)} {y = suc a + b} (omega arith)

concat-fulls : (n : ℕ) (xs : List ℕ) → concat (fulls n xs) ≡ take (n * 1400) xs
concat-fulls zero xs = ap (λ k. take k xs) {x = 0} {y = 0 * 1400} (omega arith)
concat-fulls (suc n) xs =
    ap (λ ys. take 1400 xs ++ ys) (concat-fulls n (drop 1400 xs))
    ∙ take-take-drop 1400 (n * 1400) xs
    ∙ ap (λ k. take k xs) {x = 1400 + n * 1400} {y = suc n * 1400} (omega arith)

concat-append : (cs : List (List ℕ)) (c : List ℕ) → concat (cs ++ c ∷ []) ≡ concat cs ++ c
concat-append [] c = append-nil c
concat-append (d ∷ cs) c = ap (◌++◌ d) (concat-append cs c) ∙ sym (append_assoc d (concat cs) c)

is_last-append : (cs : List (List ℕ)) (c : List ℕ) → is_last (cs ++ c ∷ []) ≡ false
is_last-append [] c = refl
is_last-append (d ∷ cs) c = refl

-- A run that does not end the unit, and one fragment that does.
fu_run-append :
    (h : RtpHeader) (nalu n : ℕ) (xs c : List ℕ)
    → fu_run h nalu false false (fulls n xs) ++ fu_run (after n h) nalu false true (c ∷ [])
      ≡ fu_run h nalu false true (fulls n xs ++ c ∷ [])
unfolding fu_run
fu_run-append h nalu zero xs c = refl
fu_run-append h nalu (suc n) xs c = ground (
  arith,
  fu_run-append (next_seq h) nalu n (drop 1400 xs) c,
  is_last-append (fulls n (drop 1400 xs)) c,
)

fu_run-append_first :
    (h : RtpHeader) (nalu n : ℕ) (xs c : List ℕ)
    → 0 < n
    → fu_run h nalu true false (fulls n xs) ++ fu_run (after n h) nalu false true (c ∷ [])
      ≡ fu_run h nalu true true (fulls n xs ++ c ∷ [])
unfolding fu_run
fu_run-append_first h nalu zero xs c pos = absurd (omega arith)
fu_run-append_first h nalu (suc n) xs c pos =
    ground (arith, fu_run-append (next_seq h) nalu n (drop 1400 xs) c)

after-suc : (n : ℕ) (h : RtpHeader) → next_seq (after n h) ≡ after (suc n) h
after-suc zero h = refl
after-suc (suc n) h = after-suc n (next_seq h)

-- The chunks of a unit of `size` bytes.
abbrev pub chunks : ℕ → List ℕ → List (List ℕ)
chunks size xs =
    if ltb 0 (size % 1400)
    then fulls (size / 1400) xs ++ take (size % 1400) (drop (size / 1400 * 1400) xs) ∷ []
    else fulls (size / 1400) xs

pub concat-chunks : (size : ℕ) (xs : List ℕ) → concat (chunks size xs) ≡ take size xs
concat-chunks size xs = elim (Bool-cases (ltb 0 (size % 1400))) [
  | inl e ↦ rw e (
      concat-append (fulls (size / 1400) xs) _
      ∙ ap (λ ys. ys ++ take (size % 1400) (drop (size / 1400 * 1400) xs))
          (concat-fulls (size / 1400) xs)
      ∙ take-take-drop (size / 1400 * 1400) (size % 1400) xs
      ∙ ap (λ k. take k xs) (omega arith))
  | inr e ↦ rw e (concat-fulls (size / 1400) xs ∙ ap (λ k. take k xs) (ground arith))
]

length-fulls : (n : ℕ) (xs : List ℕ) → length (fulls n xs) ≡ n
length-fulls zero xs = refl
length-fulls (suc n) xs = ap suc (length-fulls n (drop 1400 xs))

two_of_length :
    (cs : List (List ℕ))
    → 2 ≤ length cs
    → (c d : List ℕ) × (rest : List (List ℕ)) × (cs ≡ c ∷ d ∷ rest)
two_of_length [] h = absurd (omega arith)
two_of_length (c ∷ []) h = absurd (omega arith)
two_of_length (c ∷ d ∷ rest) h = (c, d, rest, refl)

length-chunks : (size : ℕ) (xs : List ℕ) → 1400 < size → 2 ≤ length (chunks size xs)
length-chunks size xs h = elim (Bool-cases (ltb 0 (size % 1400))) [
  | inl e ↦ rw e (
      omega (
        arith,
        length-append {0} (fulls (size / 1400) xs)
            (take (size % 1400) (drop (size / 1400 * 1400) xs) ∷ []),
        length-fulls (size / 1400) xs,
      ))
  | inr e ↦ rw e (ground (arith, length-fulls (size / 1400) xs))
]

-- There are two chunks or more.
pub chunks_two :
    (size : ℕ) (xs : List ℕ)
    → 1400 < size
    → (c d : List ℕ) × (cs : List (List ℕ)) × (chunks size xs ≡ c ∷ d ∷ cs)
chunks_two size xs h = two_of_length (chunks size xs) (length-chunks size xs h)

module _ (change : RtpPacket → RtpPacket)
    (keeps : (p : RtpPacket) → length (change p).payload ≡ length p.payload) (memory : List ℕ)
    (nalu : ℕ) (byte : nalu < 256) where
  unroll :
      (n : ℕ) (h : RtpHeader) (c : List ℕ)
      → fu_run (after n h) nalu false true (c ∷ [])
        ≡ record { header = after n h; payload = (nalu / 32 % 4 * 32 + 28) ∷ (nalu % 32 + 64) ∷ c }
          ∷ []
  unfolding fu_run
  unroll n h c = refl

  -- What the branch leaves: the log, the running header and the buffer's length.
  abbrev pub Done : ℕ → Sink → List Sent → Type 0
  Done size sink sent =
      (sink' : Sink) × (send_fragments (log change) memory nalu size (sink, sent)
        ≡ some (sink', sent ++ fu_run sink.rtp_header nalu true true (chunks size (drop 1 memory))))
      × (sink' ≡ record sink {
        buf = sink'.buf;
        rtp_header = after (length (chunks size (drop 1 memory))) sink.rtp_header;
      })
      × (length sink'.buf.payload ≡ 1402)

  module _ (size : ℕ) (sink : Sink) (sent : List Sent) (big : 1400 < size)
      (inside : 1 + size ≤ length memory) (room : length sink.buf.payload ≡ 1402) where
    without_rest : size % 1400 ≡ 0 → Done size sink sent
    unfolding send_fragments
    without_rest e =
        let n : ℕ = size / 1400 in
        let xs = drop 1 memory in
        let (buf, got, kept) =
          send_full_lem change keeps memory nalu byte n (size % 1400) n 0 1 sink sent (omega arith)
            (omega arith) room in
        let whole : chunks size xs ≡ fulls n xs = ground arith in
        (
          record sink { buf = buf; rtp_header = after n sink.rtp_header },
          ground (arith, got, whole),
          ap (λ (k : ℕ). record sink { buf = buf; rtp_header = after k sink.rtp_header })
              (sym (ap length whole ∙ length-fulls n xs)),
          kept,
        )

    with_rest : size % 1400 ≢ 0 → Done size sink sent
    unfolding send_fragments
    with_rest e =
        let n : ℕ = size / 1400 in
        let rem : ℕ = size % 1400 in
        let h = sink.rtp_header in
        let xs = drop 1 memory in
        let c = take rem (drop (n * 1400) xs) in
        let (buf, got, kept) =
          send_full_lem change keeps memory nalu byte n rem n 0 1 sink sent (omega arith)
            (omega arith) room in
        let sink₁ : Sink = record sink { buf = buf; rtp_header = after n h } in
        let run₁ = fu_run h nalu true false (fulls n xs) in
        let open_run : fu_run h nalu true (rem == 0) (fulls n xs) ≡ run₁ =
          ap (λ (l : Bool). fu_run h nalu true l (fulls n xs)) (ne→== rem 0 e) in
        let (buf₂, got₂, kept₂) =
          send_fragment_lem change keeps memory nalu byte 0x40 (nalu % 32 + 64) (1 + n * 1400) rem
            sink₁ (sent ++ run₁) (fu_header_lem nalu byte).1 (omega arith) (omega arith) kept in
        let same : take rem (drop (1 + n * 1400) memory) ≡ c =
          ap (take rem) (sym (drop-drop (n * 1400) 1 memory)) in
        let whole : chunks size xs ≡ fulls n xs ++ c ∷ [] = ground arith in
        let last = fu_run (after n h) nalu false true (c ∷ []) in
        let joined : (sent ++ run₁) ++ last ≡ sent ++ fu_run h nalu true true (chunks size xs) =
          append_assoc sent run₁ last
          ∙ ap (◌++◌ sent) (
              fu_run-append_first h nalu n xs c (omega arith)
              ∙ ap (fu_run h nalu true true) (sym whole)) in
        let size_chunks : length (chunks size xs) ≡ suc n =
          ap length whole
          ∙ omega (arith, length-append {0} (fulls n xs) (c ∷ []), length-fulls n xs) in
        (
          record sink { buf = buf₂; rtp_header = next_seq (after n h) },
          ground (arith, got, open_run, got₂, same, joined, unroll n h c),
          ap (λ (k : RtpHeader). record sink { buf = buf₂; rtp_header = k })
              (after-suc n h ∙ ap (λ (k : ℕ). after k h) (sym size_chunks)),
          kept₂,
        )

  pub send_fragments_lem :
      (size : ℕ) (sink : Sink) (sent : List Sent)
      → 1400 < size
      → 1 + size ≤ length memory
      → length sink.buf.payload ≡ 1402
      → Done size sink sent
  send_fragments_lem size sink sent big inside room = elim (ℕ_discrete (size % 1400) 0) [
    | yes e ↦ without_rest size sink sent big inside room e
    | no e ↦ with_rest size sink sent big inside room e
  ]
