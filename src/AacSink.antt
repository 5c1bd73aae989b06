-- ===== src/AacSink.antt =====
-- include/live/AACMediaSink.h: an AAC frame in one RTP packet, behind an AU header.
mod Tests
pub mod Delivery
pub mod Simulation
use Prim.Native.Nat.{bit_and}
use zrh_rtsp_server.Prelude.{
  ℕ, ◌+◌, ◌*◌, ◌/◌, ◌%◌, ◌^◌, Option, none, some, List, [], ◌∷◌, ◌++◌, length,
}
use zrh_rtsp_server.Sink.{Callback, Sink, add_timestamp, send_packet}

abbrev pub rtp_payload_type_aac : ℕ
rtp_payload_type_aac = 97

-- The four bytes before the frame, stored as `uint8_t`.
abbrev pub au_header : ℕ → List ℕ
au_header frame_size =
    0x00 ∷ 0x10 ∷ bit_and frame_size 0x1fe0 / 32 % 256 ∷ bit_and frame_size 0x1f * 8 % 256 ∷ []

-- `sendFrame`. `none` is a write past the packet's buffer: the code makes no check of the size.
unfoldable pub send_frame : {S : Type 0} → Callback S → List ℕ → Sink × S → Option (Sink × S)
send_frame callback [] st = some st
send_frame callback (x ∷ rest) (sink, s) =
    let frame = x ∷ rest in
    elim (send_packet callback sink (au_header (length frame) ++ frame) s) [
      | none ↦ none
      | some (sink', s') ↦
          some (record sink' { rtp_header = add_timestamp 1024 sink'.rtp_header }, s')
    ]
