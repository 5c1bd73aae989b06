-- ===== src/AacSource/Tests.antt =====
-- A stream of one ADTS frame, and instances of the round trips.
use zrh_rtsp_server.Prelude.{
  ℕ, ◌+◌, ◌≤◌, ◌⊎◌, ◌≡◌, refl, none, some, List, [], ◌∷◌, ◌++◌, arith, length,
}
use zrh_rtsp_server.FrameQueue
use zrh_rtsp_server.FrameQueue.{Queue, Step, take_frame, start, max_buffer_size}
use zrh_rtsp_server.AacSource.Streaming.{Reach-adts}
use zrh_rtsp_server.RingBuffer.{RingBuffer, construct}
use zrh_rtsp_server.AacSource.{get_frame_from_file, AdtsHeader, zeroed, parse_adts_header}
use zrh_rtsp_server.AacSource.Header.{IsAdts, adts_bytes, stored, parse_adts_header-bytes}
use zrh_rtsp_server.AacSource.RoundTrip.{
  AdtsFrame, adts_stream, payloads, get_frames, get_frames-adts_stream,
}
use zrh_rtsp_server.AacSource.Crossing.{get_frames_crossing}

abbrev small_header : AdtsHeader
small_header = record zeroed {
  syncword = 0xfff;
  protection_absent = 1;
  profile = 1;
  sampling_freq_index = 3;
  channel_cfg = 2;
  copyright_identification_start = 1;
  aac_frame_length = 9;
  adts_buffer_fullness = 2047;
}

small_header-IsAdts : IsAdts small_header
small_header-IsAdts = omega arith

abbrev one_frame : List AdtsFrame
one_frame = record { header = small_header; payload = 33 ∷ 16 ∷ [] } ∷ []

-- The sync word and the copyright start bit of the header are lost.
parsed :
    parse_adts_header (255 ∷ 241 ∷ 76 ∷ 132 ∷ 1 ∷ 63 ∷ 252 ∷ [])
    ≡ some (0, record small_header { syncword = 0; copyright_identification_start = 0 })
unfolding parse_adts_header
parsed = refl

parse_adts_header-bytes_example :
    parse_adts_header (adts_bytes small_header ++ 33 ∷ []) ≡ some (0, stored small_header)
parse_adts_header-bytes_example = parse_adts_header-bytes small_header small_header-IsAdts (33 ∷ [])

get_frames-adts_stream_example :
    (b' : RingBuffer) × (get_frames 1 (construct 1 16 (some (adts_stream one_frame)))
      ≡ some (payloads one_frame, b'))
get_frames-adts_stream_example =
    get_frames-adts_stream 1 16 one_frame ((small_header-IsAdts, refl), tt) (omega arith)
      (omega arith)

-- The first array holds one frame, and of a second one the header and one byte of data.
get_frames_crossing_example :
    (b' : RingBuffer) × (get_frames 1 (
        construct 1 17
          (some (adts_stream one_frame ++ (adts_bytes small_header ++ (33 ∷ 16 ∷ 7 ∷ [])))))
      ≡ some (payloads one_frame, b'))
    × (get_frame_from_file b' ≡ none)
get_frames_crossing_example =
    get_frames_crossing 1 17 one_frame (record { header = small_header; payload = 33 ∷ 16 ∷ [] })
      (7 ∷ []) ((small_header-IsAdts, refl), tt) (small_header-IsAdts, refl) (omega arith)
      (omega arith) (omega arith)

Reach-adts_example :
    let b = construct 1 max_buffer_size (some (adts_stream one_frame)) in
    let q = FrameQueue.construct b in
    ((others : List (List ℕ)) × (payloads one_frame ≡ q.delivered ++ (q.source.frames ++ others)))
    × (length q.source.frames + q.pending ≤ 8)
    × (((r : Queue RingBuffer) × Step get_frame_from_file q r)
        ⊎ ((q.delivered ≡ payloads one_frame) × (take_frame q.source ≡ none)))
Reach-adts_example =
    Reach-adts 1 one_frame
      (FrameQueue.construct (construct 1 max_buffer_size (some (adts_stream one_frame))))
      ((small_header-IsAdts, refl), tt) (ground arith, tt) (omega arith) start
