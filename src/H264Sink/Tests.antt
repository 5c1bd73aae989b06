-- ===== src/H264Sink/Tests.antt =====
-- A unit that fits a packet, and one that does not.
use zrh_rtsp_server.Prelude.{
  ℕ, ◌+◌, ◌%◌, ◌^◌, ◌≡◌, refl, some, List, [], ◌∷◌, ◌++◌, replicate, length, arith,
}
use zrh_rtsp_server.Sink
use zrh_rtsp_server.Sink.{Sink, next_seq, add_timestamp}
use zrh_rtsp_server.Sink.Log.{Sent, log}
use zrh_rtsp_server.H264Sink.{send_frame}
use zrh_rtsp_server.H264Sink.Depacketize.{depacketize}
use zrh_rtsp_server.H264Sink.Delivery.{send_frame_fragments}
use zrh_rtsp_server.Rtp.{RtpPacket}

abbrev new_sink : Sink
new_sink = record {
  fps = 25;
  interval_ms = 40;
  rtp_header = record Sink.zero_header { version = 2; payload_type = 96; ssrc = 5 };
  buf = record {
    size = 0;
    prefix = 0 ∷ 0 ∷ 0 ∷ 0 ∷ [];
    rtp_header = Sink.zero_header;
    payload = replicate 1402 0;
  };
}

constructed : Sink.construct 25 96 5 ≡ new_sink
unfolding Sink.construct
constructed = refl

abbrev unchanged : RtpPacket → RtpPacket
unchanged p = p

-- A unit of 1401 bytes.
abbrev tail_bytes : List ℕ
tail_bytes = replicate 1400 7

send_frame_fragments_example :
    (sink' : Sink) × (packets : List Sent) × (send_frame
        (log unchanged)
        (101 ∷ tail_bytes)
        (9 ∷ [])
        (new_sink, [])
      ≡ some (sink', packets))
    × (depacketize packets ≡ some ((101 ∷ tail_bytes) ++ 9 ∷ []))
    × (sink'.rtp_header.seq ≡ (0 + length packets) % 2 ^ 16)
    × (sink'.rtp_header.timestamp ≡ 480)
    × (length sink'.buf.payload ≡ 1402)
send_frame_fragments_example =
    send_frame_fragments unchanged (λ p. refl) new_sink [] 101 tail_bytes 9 [] (omega arith)
      (omega arith) refl (omega arith)
