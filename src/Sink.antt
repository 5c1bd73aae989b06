-- ===== src/Sink.antt =====
-- include/live/Sink.h: what the two sinks share. A packet goes out through the callback that the
-- session has set, `session_send_packet_`, which may change the packet's memory.
pub mod Log
pub mod Simulation
use zrh_rtsp_server.Prelude.{
  ℕ, ◌+◌, ◌/◌, ◌%◌, ◌^◌, Bool, true, false, Option, none, some, List, [], ◌∷◌, ◌++◌, leb,
  if◌then◌else◌, length, take, drop, replicate,
}
use zrh_rtsp_server.Rtp.{RtpHeader, RtpPacket, rtp_max_pkt_size}

-- `session_send_packet_` with its two arguments: the packet's memory and the callee's state.
abbrev pub Callback : Type 0 → Type 0
Callback S = RtpPacket → S → RtpPacket × S

-- The fields of `Sink` that sending uses; `buf` is the packet that lies over the vector `buf`.
pub record Sink : Type 0 where
  pub fps : ℕ
  pub interval_ms : ℕ
  pub rtp_header : RtpHeader
  pub buf : RtpPacket

abbrev pub zero_header : RtpHeader
zero_header = record {
  csrc_len = 0;
  extension = 0;
  padding = 0;
  version = 0;
  payload_type = 0;
  marker = 0;
  seq = 0;
  timestamp = 0;
  ssrc = 0;
}

-- The constructor. `buf` has `RTP_MAX_PKT_SIZE + sizeof(RtpPacket) + 2` bytes, of which the payload
-- has those behind the packet's 24; `ssrc` is what `rand()` gave.
unfoldable pub construct : ℕ → ℕ → ℕ → Sink
construct fps payload_type ssrc = record {
  fps = fps;
  interval_ms = 1000 / fps;
  rtp_header = record zero_header { version = 2; payload_type = payload_type; ssrc = ssrc };
  buf = record {
    size = 0;
    prefix = 0 ∷ 0 ∷ 0 ∷ 0 ∷ [];
    rtp_header = zero_header;
    payload = replicate (rtp_max_pkt_size + 2) 0;
  };
}

-- Bytes written to the start of the payload; `none` is a write past the buffer.
abbrev pub write_payload : RtpPacket → List ℕ → Option RtpPacket
write_payload p xs =
    if leb (length xs) (length p.payload)
    then some (record p { payload = xs ++ drop (length xs) p.payload })
    else none

-- `rtp_header_.seq++` and `rtp_header_.timestamp += n`.
abbrev pub next_seq : RtpHeader → RtpHeader
next_seq h = record h { seq = (h.seq + 1) % 2 ^ 16 }

abbrev pub add_timestamp : ℕ → RtpHeader → RtpHeader
add_timestamp n h = record h { timestamp = (h.timestamp + n) % 2 ^ 32 }

-- A packet made in `buf` from the running header and these payload bytes, sent, and counted.
unfoldable pub send_packet : {S : Type 0} → Callback S → Sink → List ℕ → S → Option (Sink × S)
send_packet callback sink xs s = elim (write_payload sink.buf xs) [
  | none ↦ none
  | some p ↦
      let (p', s') = callback (record p { rtp_header = sink.rtp_header; size = length xs }) s in
      some (record sink { buf = p'; rtp_header = next_seq sink.rtp_header }, s')
]

-- `handleTimeout`, which the timer calls: `read_frame` is `ReadFrame` of the media source and `send` is
-- `sendFrame` of the sink. `none` is a wait in `ReadFrame`, or a fault.
unfoldable pub handle_timeout :
    {Media S : Type 0}
    → (Media → Option (List ℕ × Media))
    → (List ℕ → S → Option S)
    → Media × S
    → Option (Media × S)
handle_timeout read_frame send (media, s) = elim (read_frame media) [
  | none ↦ none
  | some (frame, media') ↦ elim frame [
    | [] ↦ some (media', s)
    | x ∷ xs ↦ elim (send (x ∷ xs) s) [ none ↦ none | some s' ↦ some (media', s') ]
  ]
]
