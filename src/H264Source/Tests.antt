-- ===== src/H264Source/Tests.antt =====
-- A stream of two NAL units, and an instance of the round trip.
use zrh_rtsp_server.Prelude.{ℕ, ◌≡◌, refl, some, List, [], ◌∷◌, arith}
use zrh_rtsp_server.RingBuffer.{
  RingBuffer, construct, begin, end, ne, eq, dereference, advance, increment, get_data_between,
  set_offect,
}
use zrh_rtsp_server.H264Source.{
  get_frame_from_file, frame_behind, frame_behind_4, find_start_code, start_code3, start_code4,
}
use zrh_rtsp_server.H264Source.RoundTrip.{mux, get_frames, get_frames-mux}

abbrev units : List (List ℕ)
units = (103 ∷ 0 ∷ 0 ∷ []) ∷ (104 ∷ 1 ∷ []) ∷ []

-- The first unit of the stream, behind a start code of three bytes.
short_code :
    let b = construct 1 16 (some (0 ∷ 0 ∷ 1 ∷ 7 ∷ 8 ∷ 0 ∷ 0 ∷ 1 ∷ 9 ∷ [])) in
    get_frame_from_file 16 b
    ≡ some (7 ∷ 8 ∷ [], set_offect b (record { offect = 5; cur_arr = 0; ring_buffer = some 1 }))
unfolding construct get_frame_from_file frame_behind frame_behind_4 find_start_code start_code3
    start_code4 begin end ne eq dereference advance increment get_data_between set_offect
short_code = refl

get_frames-mux_example :
    (b' : RingBuffer) × (get_frames 20 2 (construct 1 20 (some (mux units))) ≡ some (units, b'))
get_frames-mux_example =
    get_frames-mux 1 20 20 units (ground arith) (omega arith) (omega arith) (omega arith)
