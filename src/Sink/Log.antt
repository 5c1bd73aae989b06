-- ===== src/Sink/Log.antt =====
-- A callback that keeps what it is given: the header and the payload's bytes of each packet. It leaves
-- the packet's memory in any state, of the same length.
use zrh_rtsp_server.Prelude.{
  ℕ, ◌≤◌, ◌≡◌, ◌∙◌, some, List, [], ◌∷◌, ◌++◌, arith, length, take, drop, length-append,
  length-drop, take-append_le, take_all,
}
use zrh_rtsp_server.Rtp.{RtpHeader, RtpPacket}
use zrh_rtsp_server.Sink.{Callback, Sink, next_seq, send_packet}

pub record Sent : Type 0 where
  pub header : RtpHeader
  pub payload : List ℕ

abbrev pub log : (RtpPacket → RtpPacket) → Callback (List Sent)
log change p sent =
    (change p, sent ++ record { header = p.rtp_header; payload = take p.size p.payload } ∷ [])

module _ (change : RtpPacket → RtpPacket)
    (keeps : (p : RtpPacket) → length (change p).payload ≡ length p.payload) where
  -- One packet: what is logged, the sequence number after it, and the buffer's length.
  pub send_packet-log :
      (sink : Sink) (xs : List ℕ) (sent : List Sent)
      → length xs ≤ length sink.buf.payload
      → (buf : RtpPacket) × (send_packet (log change) sink xs sent
          ≡ some (
            record sink { buf = buf; rtp_header = next_seq sink.rtp_header },
            sent ++ record { header = sink.rtp_header; payload = xs } ∷ [],
          ))
        × (length buf.payload ≡ length sink.buf.payload)
  unfolding send_packet
  send_packet-log sink xs sent fits =
      let whole = xs ++ drop (length xs) sink.buf.payload in
      let p : RtpPacket = record sink.buf {
        payload = whole;
        rtp_header = sink.rtp_header;
        size = length xs;
      } in
      let front : take (length xs) whole ≡ xs =
        take-append_le (length xs) xs _ (omega arith) ∙ take_all (length xs) xs (omega arith) in
      (
        change p,
        ground (arith, front),
        omega (
          arith,
          keeps p,
          length-append xs (drop (length xs) sink.buf.payload),
          length-drop (length xs) sink.buf.payload,
        ),
      )
