-- ===== src/AacSink/Delivery.antt =====
-- `sendFrame` from the frame to what the receiver has.
use zrh_rtsp_server.Prelude.{
  ℕ, ◌+◌, ◌*◌, ◌/◌, ◌%◌, ◌≤◌, ◌<◌, ◌≡◌, refl, ◌&&◌, Option, none, some, List, [], ◌∷◌, ◌++◌, ◌==◌,
  if◌then◌else◌, arith, length,
}
use zrh_rtsp_server.Bits.{bit_and_size_high, bit_and_size_low}
use zrh_rtsp_server.Rtp.{RtpPacket}
use zrh_rtsp_server.Sink.{Callback, Sink, next_seq, add_timestamp, send_packet}
use zrh_rtsp_server.Sink.Log.{Sent, log, send_packet-log}
use zrh_rtsp_server.AacSink.{au_header, send_frame}

-- A receiver of `mode=AAC-hbr` (RFC 3640): a headers' length of 16 bits, a size of 13 bits and an index
-- of 3, and then as many bytes as the size says, and no more.
pub read_au : List ℕ → Option (List ℕ)
read_au (l1 ∷ l0 ∷ s1 ∷ s0 ∷ bytes) =
    if (l1 * 256 + l0 == 16) && (length bytes == (s1 * 256 + s0) / 8) && (s0 % 8 == 0)
    then some bytes
    else none
read_au _ = none

module _ (change : RtpPacket → RtpPacket)
    (keeps : (p : RtpPacket) → length (change p).payload ≡ length p.payload) where
  -- From a packet buffer of 1402 payload bytes, which the callback keeps, a frame of one byte to 1398
  -- goes out in one packet under the running header, of which the receiver reads the frame; the sequence number grows by one and the timestamp by 1024.
  pub send_frame_au :
      (sink : Sink) (sent : List Sent) (x : ℕ) (rest : List ℕ)
      → length (x ∷ rest) ≤ 1398
      → length sink.buf.payload ≡ 1402
      → (sink' : Sink) × (payload : List ℕ) × (send_frame (log change) (x ∷ rest) (sink, sent)
          ≡ some (sink', sent ++ record { header = sink.rtp_header; payload = payload } ∷ []))
        × (read_au payload ≡ some (x ∷ rest))
        × (sink'.rtp_header ≡ add_timestamp 1024 (next_seq sink.rtp_header))
        × (length sink'.buf.payload ≡ 1402)
  unfolding send_frame read_au
  send_frame_au sink sent x rest small room =
      let frame = x ∷ rest in
      let n : ℕ = length frame in
      let (buf, got, kept) =
        send_packet-log change keeps sink (au_header n ++ frame) sent (omega arith) in
      (
        record sink { buf = buf; rtp_header = add_timestamp 1024 (next_seq sink.rtp_header) },
        au_header n ++ frame,
        ground (arith, got),
        ground (arith, bit_and_size_high n (omega arith), bit_and_size_low n (omega arith)),
        refl,
        omega arith,
      )

-- A frame of more than 1398 bytes is written past the packet's buffer of 1402 payload bytes, whatever
-- the callback does.
pub send_frame_overflow :
    {S : Type 0} (callback : Callback S) (sink : Sink) (s : S) (x : ℕ) (rest : List ℕ)
    → 1398 < length (x ∷ rest)
    → length sink.buf.payload ≡ 1402
    → send_frame callback (x ∷ rest) (sink, s) ≡ none
unfolding send_frame send_packet
send_frame_overflow callback sink s x rest big room = ground arith
