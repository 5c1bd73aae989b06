-- ===== src/H264Sink.antt =====
-- include/live/H264MediaSink.h: a NAL unit in one RTP packet, or in FU-A fragments.
mod Tests
pub mod Depacketize
pub mod Delivery
pub mod Fragments
pub mod Simulation
use Prim.Native.Nat.{bit_and, bit_or}
use zrh_rtsp_server.Prelude.{
  ℕ, zero, suc, ◌+◌, ◌-◌, ◌*◌, ◌/◌, ◌%◌, Bool, true, false, ◌&&◌, ◌||◌, Option, none, some, List,
  [], ◌∷◌, ◌++◌, ◌==◌, leb, ltb, if◌then◌else◌, length,
}
use zrh_rtsp_server.RingBuffer.{memcpy}
use zrh_rtsp_server.Rtp.{RtpHeader, RtpPacket, rtp_max_pkt_size}
use zrh_rtsp_server.Sink.{Callback, Sink, add_timestamp, send_packet}

abbrev pub rtp_payload_type_h264 : ℕ
rtp_payload_type_h264 = 96

-- The two bytes before a fragment: `(naluType & 0x60) | 28`, and the type with a flag.
abbrev pub fu_indicator : ℕ → ℕ
fu_indicator nalu_type = bit_or (bit_and nalu_type 0x60) 28

abbrev pub fu_header : ℕ → ℕ → ℕ
fu_header nalu_type flag = bit_or (bit_and nalu_type 0x1f) flag

-- One round of the fragmenting: `n` bytes from `pos` on in the memory that begins with the frame.
unfoldable pub send_fragment :
    {S : Type 0} → Callback S → List ℕ → ℕ → ℕ → ℕ → ℕ → Sink × S → Option (Sink × S)
send_fragment callback memory nalu_type flag pos n (sink, s) = elim (memcpy memory pos n) [
  | none ↦ none
  | some bytes ↦
      send_packet callback sink (fu_indicator nalu_type ∷ fu_header nalu_type flag ∷ bytes) s
]

-- The flag of packet `i` in the loop over the full packets.
abbrev pub full_flag : ℕ → ℕ → ℕ → ℕ
full_flag pkt_num remain_pkt_size i =
    if i == 0 then 0x80 else if (remain_pkt_size == 0) && (i == pkt_num - 1) then 0x40 else 0

-- `for (i = 0; i < pktNum; i++)`, with the number of rounds left.
unfoldable pub send_full :
    {S : Type 0} → Callback S → List ℕ → ℕ → ℕ → ℕ → ℕ → ℕ → ℕ → Sink × S → Option (Sink × S)
send_full callback memory nalu_type pkt_num remain_pkt_size zero i pos st = some st
send_full callback memory nalu_type pkt_num remain_pkt_size (suc left) i pos st =
    elim (send_fragment callback memory nalu_type (full_flag pkt_num remain_pkt_size i) pos
      rtp_max_pkt_size st) [
        | none ↦ none
        | some st' ↦
            send_full callback memory nalu_type pkt_num remain_pkt_size left (i + 1)
              (pos + rtp_max_pkt_size) st'
      ]

-- The branch for a frame that is larger than a packet. `int pos = 1` at the start.
unfoldable pub send_fragments :
    {S : Type 0} → Callback S → List ℕ → ℕ → ℕ → Sink × S → Option (Sink × S)
send_fragments callback memory nalu_type frame_size st =
    let pkt_num = frame_size / rtp_max_pkt_size in
    let remain_pkt_size = frame_size % rtp_max_pkt_size in
    elim (send_full callback memory nalu_type pkt_num remain_pkt_size pkt_num 0 1 st) [
      | none ↦ none
      | some st' ↦
          if ltb 0 remain_pkt_size
          then send_fragment callback memory nalu_type 0x40 (1 + pkt_num * rtp_max_pkt_size)
              remain_pkt_size st'
          else some st'
    ]

abbrev pub tick : {S : Type 0} → Sink × S → Sink × S
tick (sink, s) = (record sink { rtp_header = add_timestamp (12000 / sink.fps) sink.rtp_header }, s)

-- `sendFrame`. `beyond` is what lies in memory behind the bytes of the vector `frame_vec`; `none` is
-- a write past the packet's buffer, or a read past even that.
unfoldable pub send_frame :
    {S : Type 0} → Callback S → List ℕ → List ℕ → Sink × S → Option (Sink × S)
send_frame callback [] beyond st = some st
send_frame callback (nalu_type ∷ rest) beyond st =
    let frame = nalu_type ∷ rest in
    if leb (length frame) rtp_max_pkt_size
    then elim (send_packet callback st.0 frame st.1) [
      | none ↦ none
      | some st' ↦
          if (bit_and nalu_type 0x1f == 7) || (bit_and nalu_type 0x1f == 8)
          then some st'
          else some (tick st')
    ]
    else elim (send_fragments callback (frame ++ beyond) nalu_type (length frame) st) [
      | none ↦ none
      | some st' ↦ some (tick st')
    ]
