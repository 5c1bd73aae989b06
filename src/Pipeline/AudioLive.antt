-- ===== src/Pipeline/AudioLive.antt =====
-- The audio from the file to the clients.
use zrh_rtsp_server.Prelude.{
  ℕ, ◌+◌, ◌≤◌, ◌≡◌, refl, true, Option, some, List, [], ◌∷◌, ◌++◌, map, arith, length,
}
use zrh_rtsp_server.RingBuffer.{RingBuffer}
use zrh_rtsp_server.RingBuffer
use zrh_rtsp_server.Rtp.{RtpConnection, Transmission}
use zrh_rtsp_server.Rtp.Framing.{datagram}
use zrh_rtsp_server.Sink.{Sink, handle_timeout}
use zrh_rtsp_server.Sink
use zrh_rtsp_server.Sink.Log.{Sent, log}
use zrh_rtsp_server.AacSink.{send_frame, rtp_payload_type_aac}
use zrh_rtsp_server.AacSink.Simulation.{send_frame-Same}
use zrh_rtsp_server.AacSource.{get_frame_from_file, aac_frame_fps}
use zrh_rtsp_server.AacSource.RoundTrip.{AdtsFrame, AllFrames, adts_stream, payloads}
use zrh_rtsp_server.AacSource.Streaming.{Streams-adts}
use zrh_rtsp_server.FrameQueue.{Frame, Source, Queue, AllNonempty, take_frame, max_buffer_size}
use zrh_rtsp_server.FrameQueue.Delivery.{Reach-Follows}
use zrh_rtsp_server.MediaSession.{Store, Track, session_cb}
use zrh_rtsp_server.MediaSession.Broadcast.{Resolves, length-session_cb}
use zrh_rtsp_server.Pipeline.{Run, read_next}
use zrh_rtsp_server.Pipeline.Audio.{read_aus, FitsPacket, aac_sends}
use zrh_rtsp_server.Pipeline.Broadcast.{
  IsBroadcast, packet_of, broadcast, change, session_cb-Respects,
}
use zrh_rtsp_server.Pipeline.Clients.{IsClient, stream, read_packets, read_packets-broadcast}
use zrh_rtsp_server.Pipeline.Delivery.{IsReady}
use zrh_rtsp_server.Pipeline.Sends.{All, Run-IsDelivered, timeout_possible}
use zrh_rtsp_server.Pipeline.Simulation.{
  SameSend, Run-Same, SameTurn-right, handle_timeout-SameTurn,
}

All-AllNonempty : (fs : List Frame) → All FitsPacket fs → AllNonempty fs
All-AllNonempty [] good = tt
All-AllNonempty (f ∷ fs) ((some_bytes, small), good) = (some_bytes, All-AllNonempty fs good)

-- The audio from a file of at most one block to a client. Let a source read an ADTS stream whose headers
-- have all ones for their sync word, their other fields within their bits and the lengths of their frames
-- in them, each frame of 1 to 1398 bytes of data, and that with four bytes more fits one block of the ring
-- buffer, which is 1 MiB (a longer file is not covered); let a new sink send to the callback of a session,
-- on a live track whose pointers all stand for connections with a channel of one byte and which do not
-- change meanwhile; let one of these connections be a live TCP connection, alone on its socket among them.
-- In every state that any interleaving of tasks and timeouts leads to, for some packets: what has gone out
-- is each packet in turn to each live connection of the track, without a fault; the bytes that these sends
-- put on the client's socket are, taken apart by the prefixes, these packets in order, header words in
-- network order (what else goes to the same socket, the answers to requests and the packets of another
-- track, is not part of these bytes); a receiver reads of these packets exactly the frames taken from the
-- queue, one in each, in order; these frames, those in the queue and some others are the data of the file
-- in order; and a timeout that finds a frame in the queue comes to its end.
pub Run-listeners :
    (store : Store) (track : Track) (before : List RtpConnection) (c : RtpConnection)
    (after : List RtpConnection) (this ssrc : ℕ) (fs : List AdtsFrame) (q : Queue RingBuffer)
    (sink : Sink) (ts : Option (List Transmission))
    → track.alive ≡ true
    → Resolves store track.rtp_conns (before ++ c ∷ after)
    → IsClient before c after
    → AllFrames fs
    → All FitsPacket (payloads fs)
    → length (adts_stream fs) + 4 ≤ max_buffer_size
    → Run get_frame_from_file
        (λ beyond f. send_frame (session_cb store track) f)
        (RingBuffer.construct this max_buffer_size (some (adts_stream fs)))
        (Sink.construct aac_frame_fps rtp_payload_type_aac ssrc, some [])
        q
        (sink, ts)
    → (sent : List Sent) × (ts ≡ some (broadcast (before ++ c ∷ after) sent))
      × (read_packets (length sent) (stream c.sock_fd (broadcast (before ++ c ∷ after) sent))
          ≡ some (map (λ x. (c.rtp_channel, datagram (packet_of x))) sent))
      × (read_aus sent ≡ some q.delivered)
      × ((others : List Frame) × (payloads fs ≡ q.delivered ++ (q.source.frames ++ others)))
      × ((f : Frame) (source : Source RingBuffer)
          → take_frame q.source ≡ some (f, source)
          → (next : Queue RingBuffer × (Sink × Option (List Transmission))) × (handle_timeout
                read_next
                (λ g. send_frame (session_cb store track) g)
                (q, (sink, ts))
              ≡ some next))
unfolding Sink.construct
Run-listeners store track before c after this ssrc fs q sink ts live resolves client frames good
      room run =
    let cs = before ++ c ∷ after in
    let cb₁ = log (change store track cs live resolves) in
    let cb₂ = session_cb store track in
    let b = RingBuffer.construct this max_buffer_size (some (adts_stream fs)) in
    let sink₀ : Sink = Sink.construct aac_frame_fps rtp_payload_type_aac ssrc in
    let same : SameSend (IsBroadcast cs) (send_frame cb₁) (send_frame cb₂) =
      send_frame-Same (IsBroadcast cs) cb₁ cb₂ (session_cb-Respects store track cs live resolves) in
    let (sent, logged, (sends, fit), whole) =
      Run-Same (IsBroadcast cs) get_frame_from_file (λ beyond f. send_frame cb₁ f)
        (λ beyond f. send_frame cb₂ f) b sink₀ [] (some []) (λ beyond. same) (refl, tt) refl run in
    let sender =
      aac_sends (change store track cs live resolves)
        (λ p. length-session_cb store track p (some [])) 0 in
    let ready : IsReady 0 sink₀ [] = record { room = refl; seq = refl } in
    let streams =
      Streams-adts this max_buffer_size fs frames (All-AllNonempty (payloads fs) good) room
        (omega arith) in
    let d =
      Run-IsDelivered sender get_frame_from_file (payloads fs) b (sink₀, []) good streams ready refl
        logged in
    let v = Reach-Follows get_frame_from_file streams d.reached in
    (
      sent,
      sends,
      read_packets-broadcast before c after client sent (length sent) fit (omega arith),
      d.sent,
      (v.ahead, v.split),
      λ f source front.
          let (q', s', step) =
            timeout_possible sender get_frame_from_file (payloads fs) b (sink₀, []) good streams
              ready refl q (sink, sent) f source 0 [] d front in
          SameTurn-right (IsBroadcast cs) _ _ _
            (handle_timeout-SameTurn (IsBroadcast cs) read_next (send_frame cb₁) (send_frame cb₂)
              same q sink sent ts (sends, fit) whole)
            step,
    )
