-- ===== src/Pipeline/Live.antt =====
-- From the file to the clients.
use zrh_rtsp_server.Prelude.{
  ℕ, ◌+◌, ◌≤◌, ◌<◌, ◌≡◌, refl, true, Option, some, List, [], ◌∷◌, ◌++◌, map, arith, length,
}
use zrh_rtsp_server.RingBuffer.{RingBuffer}
use zrh_rtsp_server.RingBuffer
use zrh_rtsp_server.Rtp.{RtpConnection, Transmission}
use zrh_rtsp_server.Rtp.Framing.{datagram}
use zrh_rtsp_server.Sink.{Sink, handle_timeout}
use zrh_rtsp_server.Sink
use zrh_rtsp_server.Sink.Log.{Sent, log}
use zrh_rtsp_server.H264Sink.{send_frame, rtp_payload_type_h264}
use zrh_rtsp_server.H264Sink.Simulation.{send_frame-Same}
use zrh_rtsp_server.H264Source.{get_frame_from_file, h264_frame_fps}
use zrh_rtsp_server.H264Source.RoundTrip.{mux, AllEmulationFree}
use zrh_rtsp_server.FrameQueue.{Frame, Source, Queue, take_frame, max_buffer_size}
use zrh_rtsp_server.MediaSession.{Store, Track, session_cb}
use zrh_rtsp_server.MediaSession.Broadcast.{Resolves, length-session_cb}
use zrh_rtsp_server.Pipeline.{Run, read_next}
use zrh_rtsp_server.Pipeline.Broadcast.{
  IsBroadcast, packet_of, broadcast, change, session_cb-Respects,
}
use zrh_rtsp_server.Pipeline.Clients.{IsClient, stream, read_packets, read_packets-broadcast}
use zrh_rtsp_server.Pipeline.Delivery.{AllUnits, Carries}
use zrh_rtsp_server.Pipeline.Simulation.{
  SameSend, Run-Same, SameTurn-right, handle_timeout-SameTurn,
}
use zrh_rtsp_server.Pipeline.Video.{Run-mux}

-- The video from a file of at most one block to a client. Let a source read a stream of NAL units, each
-- behind the start code `0 0 0 1`, none of them holding `0 0 1`, each not empty and with its forbidden bit
-- clear, that with four bytes more fits one block of the ring buffer, which is 1 MiB (a longer file is not
-- covered); let a new sink send to the callback of a session, on a live track whose pointers all stand for
-- connections with a channel of one byte and which do not change meanwhile; let one of these connections
-- be a live TCP connection, alone on its socket among them. In every state that any interleaving of tasks
-- and timeouts leads to, for some packets: what has gone out is each packet in turn to each live
-- connection of the track, without a fault; the bytes that these sends put on the client's socket are,
-- taken apart by the prefixes, these packets in order, header words in network order (what else goes to
-- the same socket, the answers to requests and the packets of another track, is not part of these bytes);
-- the packets carry units in order, each whole in one packet or in fragments that a receiver puts together
-- to the unit and one stray byte; these units, those in the queue and some others are those of the file in
-- order; and a timeout that finds a frame in the queue, behind which there is memory, comes to its end.
pub Run-clients :
    (store : Store) (track : Track) (before : List RtpConnection) (c : RtpConnection)
    (after : List RtpConnection) (this fuel ssrc : ℕ) (units : List Frame) (q : Queue RingBuffer)
    (sink : Sink) (ts : Option (List Transmission))
    → track.alive ≡ true
    → Resolves store track.rtp_conns (before ++ c ∷ after)
    → IsClient before c after
    → AllEmulationFree units
    → AllUnits units
    → length (mux units) + 4 ≤ max_buffer_size
    → length (mux units) < fuel
    → Run
        (get_frame_from_file fuel)
        (λ beyond f. send_frame (session_cb store track) f beyond)
        (RingBuffer.construct this max_buffer_size (some (mux units)))
        (Sink.construct h264_frame_fps rtp_payload_type_h264 ssrc, some [])
        q
        (sink, ts)
    → (sent : List Sent) × (ts ≡ some (broadcast (before ++ c ∷ after) sent))
      × (read_packets (length sent) (stream c.sock_fd (broadcast (before ++ c ∷ after) sent))
          ≡ some (map (λ x. (c.rtp_channel, datagram (packet_of x))) sent))
      × Carries q.delivered sent
      × ((others : List Frame) × (units ≡ q.delivered ++ (q.source.frames ++ others)))
      × ((f : Frame) (source : Source RingBuffer) (stray : ℕ) (more : List ℕ)
          → take_frame q.source ≡ some (f, source)
          → (next : Queue RingBuffer × (Sink × Option (List Transmission))) × (handle_timeout
                read_next
                (λ g. send_frame (session_cb store track) g (stray ∷ more))
                (q, (sink, ts))
              ≡ some next))
unfolding Sink.construct
Run-clients store track before c after this fuel ssrc units q sink ts live resolves client free good
      room enough run =
    let cs = before ++ c ∷ after in
    let cb₁ = log (change store track cs live resolves) in
    let cb₂ = session_cb store track in
    let same : (beyond : List ℕ)
        → SameSend (IsBroadcast cs) (λ f. send_frame cb₁ f beyond) (λ f. send_frame cb₂ f beyond) =
      λ beyond f k s₁ s₂ r whole.
        send_frame-Same (IsBroadcast cs) cb₁ cb₂ (session_cb-Respects store track cs live resolves)
          f beyond k s₁ s₂ r whole in
    let (sent, logged, (sends, fit), whole) =
      Run-Same (IsBroadcast cs) (get_frame_from_file fuel) (λ beyond f. send_frame cb₁ f beyond)
        (λ beyond f. send_frame cb₂ f beyond)
        (RingBuffer.construct this max_buffer_size (some (mux units)))
        (Sink.construct h264_frame_fps rtp_payload_type_h264 ssrc) [] (some []) same (refl, tt) refl
        run in
    let (carried, order, seq, possible) =
      Run-mux (change store track cs live resolves) (λ p. length-session_cb store track p (some []))
        this fuel ssrc units q sink sent free good room enough logged in
    (
      sent,
      sends,
      read_packets-broadcast before c after client sent (length sent) fit (omega arith),
      carried,
      order,
      λ f source stray more front.
          let (q', s', step) = possible f source stray more front in
          SameTurn-right (IsBroadcast cs) _ _ _
            (handle_timeout-SameTurn (IsBroadcast cs) read_next
              (λ g. send_frame cb₁ g (stray ∷ more)) (λ g. send_frame cb₂ g (stray ∷ more))
              (same (stray ∷ more)) q sink sent ts (sends, fit) whole)
            step,
    )
