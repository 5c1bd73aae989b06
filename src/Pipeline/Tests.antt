-- ===== src/Pipeline/Tests.antt =====
-- A stream of two units, of which the first has been read ahead.
use zrh_rtsp_server.Prelude.{
  ℕ, ◌≡◌, refl, true, false, Option, some, List, [], ◌∷◌, ◌++◌, map, ◌==◌, if◌then◌else◌, arith,
  length,
}
use zrh_rtsp_server.RingBuffer.{RingBuffer}
use zrh_rtsp_server.RingBuffer
use zrh_rtsp_server.Rtp.{RtpPacket, RtpConnection, Transmission}
use zrh_rtsp_server.Rtp.Framing.{datagram}
use zrh_rtsp_server.MediaSession.{Store, Track, h264, track_id0, session_cb}
use zrh_rtsp_server.MediaSession.Broadcast.{nil, cons}
use zrh_rtsp_server.Sink.{Sink, handle_timeout}
use zrh_rtsp_server.Sink
use zrh_rtsp_server.Sink.Log.{log, Sent}
use zrh_rtsp_server.H264Sink.{send_frame, rtp_payload_type_h264}
use zrh_rtsp_server.H264Source.{get_frame_from_file, h264_frame_fps}
use zrh_rtsp_server.H264Source.RoundTrip.{mux}
use zrh_rtsp_server.H264Source.Streaming.{Streams-mux}
use zrh_rtsp_server.FrameQueue.{
  Frame, Queue, Source, construct, take_frame, max_buffer_size, run_cache_task,
}
use zrh_rtsp_server.FrameQueue.Delivery.{cache_possible}
use zrh_rtsp_server.Pipeline.{Run, start, caches, read_next}
use zrh_rtsp_server.Pipeline.Broadcast.{packet_of, broadcast}
use zrh_rtsp_server.Pipeline.Clients.{stream, read_packets}
use zrh_rtsp_server.Pipeline.Delivery.{Carries}
use zrh_rtsp_server.Pipeline.Live.{Run-clients}
use zrh_rtsp_server.Pipeline.Video.{Run-mux}

abbrev units : List Frame
units = (103 ∷ 0 ∷ []) ∷ (104 ∷ 1 ∷ []) ∷ []

abbrev buffer : RingBuffer
buffer = RingBuffer.construct 1 max_buffer_size (some (mux units))

abbrev sink : Sink
sink = Sink.construct h264_frame_fps rtp_payload_type_h264 5

abbrev unchanged : RtpPacket → RtpPacket
unchanged p = p

first_task :
    (source : Source RingBuffer) × (run_cache_task
        (get_frame_from_file 13)
        (construct buffer).source
      ≡ some source)
unfolding construct
first_task =
    cache_possible (get_frame_from_file 13) (record { ring_buffer = buffer; frames = [] })
      (Streams-mux 1 max_buffer_size 13 units (ground arith) (ground arith, (ground arith, tt))
        (omega arith) (omega arith) (omega arith))
      refl

abbrev read_ahead : Queue RingBuffer
read_ahead = record { source = first_task.0; pending = 7; delivered = [] }

read_ahead-Run :
    Run
      (get_frame_from_file 13)
      (λ beyond f. send_frame (log unchanged) f beyond)
      buffer
      (sink, [])
      read_ahead
      (sink, [])
unfolding construct
read_ahead-Run = caches start refl first_task.1

Run-mux_example :
    Carries [] []
    × ((others : List Frame) × (units ≡ read_ahead.source.frames ++ others))
    × (sink.rtp_header.seq ≡ 0)
    × ((f : Frame) (source : Source RingBuffer) (stray : ℕ) (more : List ℕ)
        → take_frame read_ahead.source ≡ some (f, source)
        → (q' : Queue RingBuffer) × (s' : Sink × List Sent) × (handle_timeout read_next
              (λ g. send_frame (log unchanged) g (stray ∷ more))
              (read_ahead, (sink, []))
            ≡ some (q', s')))
Run-mux_example =
    Run-mux unchanged (λ p. refl) 1 13 5 units read_ahead sink [] (ground arith)
      ((103, 0 ∷ [], refl, omega arith), ((104, 1 ∷ [], refl, omega arith), tt)) (omega arith)
      (omega arith) read_ahead-Run

abbrev client : RtpConnection
client = record {
  sock_fd = 4;
  rtcp_sock_fd = 0;
  alive = true;
  rtp_channel = 0;
  is_tcp = true;
  remote_rtp_port = 0;
  remote_rtcp_port = 0;
  local_rtp_port = 0;
  local_rtcp_port = 0;
  remote_addr = (0, 0);
}

abbrev store : Store
store p = if p == 1 then some (record client { is_tcp = false }) else some client

abbrev track : Track
track = record { sink = some (h264 25); track_id = track_id0; alive = true; rtp_conns = 2 ∷ [] }

read_ahead_live :
    Run
      (get_frame_from_file 13)
      (λ beyond f. send_frame (session_cb store track) f beyond)
      buffer
      (sink, some [])
      read_ahead
      (sink, some [])
unfolding construct
read_ahead_live = caches start refl first_task.1

Run-clients_example :
    (sent : List Sent) × (some [] ≡ some (broadcast (client ∷ []) sent))
    × (read_packets (length sent) (stream 4 (broadcast (client ∷ []) sent))
        ≡ some (map (λ x. (0, datagram (packet_of x))) sent))
    × Carries [] sent
    × ((others : List Frame) × (units ≡ read_ahead.source.frames ++ others))
    × ((f : Frame) (source : Source RingBuffer) (stray : ℕ) (more : List ℕ)
        → take_frame read_ahead.source ≡ some (f, source)
        → (next : Queue RingBuffer × (Sink × Option (List Transmission))) × (handle_timeout
              read_next
              (λ g. send_frame (session_cb store track) g (stray ∷ more))
              (read_ahead, (sink, some []))
            ≡ some next))
Run-clients_example =
    Run-clients store track [] client [] 1 13 5 units read_ahead sink (some []) refl
      (cons refl (omega arith) nil)
      (record {
        alive = refl;
        is_tcp = refl;
        byte = omega arith;
        before_apart = tt;
        after_apart = tt;
      })
      (ground arith) ((103, 0 ∷ [], refl, omega arith), ((104, 1 ∷ [], refl, omega arith), tt))
      (omega arith) (omega arith) read_ahead_live
