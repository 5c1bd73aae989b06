-- ===== src/AacSource.antt =====
-- include/live/AACMediaSource.h and src/live/AACMediaSource.cpp: the ADTS header, and the frames
-- that are cut out of the ring buffer by the length it names.
mod Tests
pub mod Header
pub mod RoundTrip
pub mod Streaming
pub mod Crossing
use Prim.Native.Nat.{bit_and, bit_or}
use zrh_rtsp_server.Prelude.{
  ℕ, ◌+◌, ◌-◌, ◌*◌, ◌/◌, Bool, true, false, Option, none, some, List, [], ◌∷◌, ◌++◌, ◌==◌, ltb, leb,
  if◌then◌else◌, length, get_elem?, take, drop,
}
use zrh_rtsp_server.RingBuffer.{
  RingBuffer, Iterator, minus_one_int, begin, set_offect, array, memcpy,
}
use zrh_rtsp_server.RingBuffer
use zrh_rtsp_server.FrameQueue
use zrh_rtsp_server.FrameQueue.{Source, Queue, max_buffer_size, run_cache_task, take_frame}
use zrh_rtsp_server.RingBuffer.Access.{M, pure, ◌>>=◌, plus}

-- `AdtsHeader`.
pub record AdtsHeader : Type 0 where
  pub syncword : ℕ
  pub id : ℕ
  pub layer : ℕ
  pub protection_absent : ℕ
  pub profile : ℕ
  pub sampling_freq_index : ℕ
  pub private_bit : ℕ
  pub channel_cfg : ℕ
  pub original_copy : ℕ
  pub home : ℕ
  pub copyright_identification_bit : ℕ
  pub copyright_identification_start : ℕ
  pub aac_frame_length : ℕ
  pub adts_buffer_fullness : ℕ
  pub number_of_raw_data_block_in_frame : ℕ

-- `memset(res, 0, sizeof(*res))`.
abbrev pub zeroed : AdtsHeader
zeroed = record {
  syncword = 0;
  id = 0;
  layer = 0;
  protection_absent = 0;
  profile = 0;
  sampling_freq_index = 0;
  private_bit = 0;
  channel_cfg = 0;
  original_copy = 0;
  home = 0;
  copyright_identification_bit = 0;
  copyright_identification_start = 0;
  aac_frame_length = 0;
  adts_buffer_fullness = 0;
  number_of_raw_data_block_in_frame = 0;
}

-- The assignments behind the test of the sync word. `in[3] & 0x04 >> 2` is `in[3] & (0x04 >> 2)`.
unfoldable pub fields : ℕ → ℕ → ℕ → ℕ → ℕ → ℕ → AdtsHeader
fields in1 in2 in3 in4 in5 in6 = record zeroed {
  id = bit_and in1 0x08 / 8;
  layer = bit_and in1 0x06 / 2;
  protection_absent = bit_and in1 0x01;
  profile = bit_and in2 0xc0 / 64;
  sampling_freq_index = bit_and in2 0x3c / 4;
  private_bit = bit_and in2 0x02 / 2;
  channel_cfg = bit_or (bit_and in2 0x01 * 4) (bit_and in3 0xc0 / 64);
  original_copy = bit_and in3 0x20 / 32;
  home = bit_and in3 0x10 / 16;
  copyright_identification_bit = bit_and in3 0x08 / 8;
  copyright_identification_start = bit_and in3 (0x04 / 4);
  aac_frame_length =
      bit_or (bit_or (bit_and in3 0x03 * 2048) (bit_and in4 0xff * 8)) (bit_and in5 0xe0 / 32);
  adts_buffer_fullness = bit_or (bit_and in5 0x1f * 64) (bit_and in6 0xfc / 4);
  number_of_raw_data_block_in_frame = bit_and in6 0x03;
}

-- The first operand of `&&` decides whether `in[1]` is read, and both whether the rest is.
abbrev pub parse_rest : List ℕ → Option (ℕ × AdtsHeader)
parse_rest (in1 ∷ in2 ∷ in3 ∷ in4 ∷ in5 ∷ in6 ∷ _) =
    if bit_and in1 0xf0 == 0xf0
    then some (0, fields in1 in2 in3 in4 in5 in6)
    else some (minus_one_int, zeroed)
parse_rest (in1 ∷ _) = if bit_and in1 0xf0 == 0xf0 then none else some (minus_one_int, zeroed)
parse_rest [] = none

-- `parseAdtsHeader` on the bytes at `in`, with its `int` result; `none` is a read past them.
unfoldable pub parse_adts_header : List ℕ → Option (ℕ × AdtsHeader)
unfolding fields
parse_adts_header [] = none
parse_adts_header (in0 ∷ rest) =
    if in0 == 0xff then parse_rest rest else some (minus_one_int, zeroed)

-- `memcpy(frame.data(), data_at.get(), n)`.
abbrev pub copy_array : Iterator → ℕ → M (List ℕ)
copy_array data_at n b = elim (memcpy (array b data_at.cur_arr) data_at.offect n) [
  | none ↦ none
  | some bytes ↦ some (bytes, b)
]

-- What `GetFrameFromFile` does with a header of this `aacFrameLength`. A length below 7 asks
-- `resize` for a negative number of bytes, which throws.
unfoldable pub copy_frame : Iterator → ℕ → M (List ℕ)
copy_frame it frame_length = if ltb frame_length 7 then (λ _. none) else do
  data_at ← plus it 7
  frame ← copy_array data_at (frame_length - 7)
  behind ← plus it frame_length
  λ b. some (frame, set_offect b behind)

-- `GetFrameFromFile`: the frame without its header, empty where there is no sync word.
unfoldable pub get_frame_from_file : M (List ℕ)
unfolding parse_adts_header
get_frame_from_file b =
    let it = begin b in
    elim (parse_adts_header (drop it.offect (array b it.cur_arr))) [
      | none ↦ none
      | some (result, header) ↦
          if result == minus_one_int then some ([], b) else copy_frame it header.aac_frame_length b
    ]

-- The frame rate that the constructor gives.
abbrev pub aac_frame_fps : ℕ
aac_frame_fps = 96

-- The constructor, with the file's bytes.
unfoldable pub new_queue : ℕ → Option (List ℕ) → Queue RingBuffer
new_queue this file = FrameQueue.construct (RingBuffer.construct this max_buffer_size file)

-- The task that `CacheFrame` enqueues, and `ReadFrame`.
unfoldable pub cache_task : Source RingBuffer → Option (Source RingBuffer)
cache_task = run_cache_task get_frame_from_file

unfoldable pub read_frame : Source RingBuffer → Option (List ℕ × Source RingBuffer)
read_frame = take_frame
