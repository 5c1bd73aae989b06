-- ===== src/AacSink/Tests.antt =====
-- A frame that fits a packet, and one that does not.
use zrh_rtsp_server.Prelude.{ℕ, ◌≡◌, refl, none, some, List, [], ◌∷◌, replicate, length, arith}
use zrh_rtsp_server.Rtp.{RtpPacket}
use zrh_rtsp_server.Sink
use zrh_rtsp_server.Sink.{Sink, next_seq, add_timestamp}
use zrh_rtsp_server.Sink.Log.{log}
use zrh_rtsp_server.AacSink.{send_frame}
use zrh_rtsp_server.AacSink.Delivery.{read_au, send_frame_au, send_frame_overflow}

abbrev new_sink : Sink
new_sink = record {
  fps = 96;
  interval_ms = 10;
  rtp_header = record Sink.zero_header { version = 2; payload_type = 97; ssrc = 5 };
  buf = record {
    size = 0;
    prefix = 0 ∷ 0 ∷ 0 ∷ 0 ∷ [];
    rtp_header = Sink.zero_header;
    payload = replicate 1402 0;
  };
}

abbrev unchanged : RtpPacket → RtpPacket
unchanged p = p

send_frame_au_example :
    (sink' : Sink) × (payload : List ℕ) × (send_frame (log unchanged) (33 ∷ 16 ∷ []) (new_sink, [])
      ≡ some (sink', record { header = new_sink.rtp_header; payload = payload } ∷ []))
    × (read_au payload ≡ some (33 ∷ 16 ∷ []))
    × (sink'.rtp_header ≡ add_timestamp 1024 (next_seq new_sink.rtp_header))
    × (length sink'.buf.payload ≡ 1402)
send_frame_au_example =
    send_frame_au unchanged (λ p. refl) new_sink [] 33 (16 ∷ []) (omega arith) refl

send_frame_overflow_example :
    send_frame (log unchanged) (33 ∷ replicate 1398 0) (new_sink, []) ≡ none
send_frame_overflow_example =
    send_frame_overflow (log unchanged) new_sink [] 33 (replicate 1398 0) (omega arith) refl
