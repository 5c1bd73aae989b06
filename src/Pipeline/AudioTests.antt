-- ===== src/Pipeline/AudioTests.antt =====
-- A stream of one ADTS frame, sent by a first timeout.
use zrh_rtsp_server.Prelude.{◌≡◌, refl, true, Option, some, List, [], ◌∷◌, ◌++◌, map, arith, length}
use zrh_rtsp_server.RingBuffer.{RingBuffer}
use zrh_rtsp_server.RingBuffer
use zrh_rtsp_server.Rtp.{RtpConnection, Transmission}
use zrh_rtsp_server.Rtp.Framing.{datagram}
use zrh_rtsp_server.Sink.{Sink, handle_timeout}
use zrh_rtsp_server.Sink
use zrh_rtsp_server.Sink.Log.{Sent}
use zrh_rtsp_server.AacSink.{send_frame, rtp_payload_type_aac}
use zrh_rtsp_server.AacSource.{get_frame_from_file, AdtsHeader, zeroed, aac_frame_fps}
use zrh_rtsp_server.AacSource.Header.{IsAdts}
use zrh_rtsp_server.AacSource.RoundTrip.{AdtsFrame, adts_stream}
use zrh_rtsp_server.AacSource.Streaming.{Streams-adts}
use zrh_rtsp_server.FrameQueue.{
  Frame, Source, Queue, construct, take_frame, max_buffer_size, run_cache_task,
}
use zrh_rtsp_server.FrameQueue.Delivery.{cache_possible}
use zrh_rtsp_server.MediaSession.{Store, Track, aac, track_id1, session_cb}
use zrh_rtsp_server.MediaSession.Broadcast.{nil, cons}
use zrh_rtsp_server.Pipeline.{Run, start, caches, read_next}
use zrh_rtsp_server.Pipeline.Audio.{read_aus}
use zrh_rtsp_server.Pipeline.AudioLive.{Run-listeners}
use zrh_rtsp_server.Pipeline.Broadcast.{packet_of, broadcast}
use zrh_rtsp_server.Pipeline.Clients.{stream, read_packets}

abbrev header : AdtsHeader
header = record zeroed {
  syncword = 0xfff;
  protection_absent = 1;
  profile = 1;
  sampling_freq_index = 3;
  channel_cfg = 2;
  aac_frame_length = 9;
  adts_buffer_fullness = 2047;
}

abbrev one_frame : List AdtsFrame
one_frame = record { header = header; payload = 33 ∷ 16 ∷ [] } ∷ []

header-IsAdts : IsAdts header
header-IsAdts = omega arith

abbrev buffer : RingBuffer
buffer = RingBuffer.construct 1 max_buffer_size (some (adts_stream one_frame))

abbrev sink : Sink
sink = Sink.construct aac_frame_fps rtp_payload_type_aac 5

abbrev client : RtpConnection
client = record {
  sock_fd = 4;
  rtcp_sock_fd = 0;
  alive = true;
  rtp_channel = 2;
  is_tcp = true;
  remote_rtp_port = 0;
  remote_rtcp_port = 0;
  local_rtp_port = 0;
  local_rtcp_port = 0;
  remote_addr = (0, 0);
}

abbrev store : Store
store p = some client

abbrev track : Track
track = record { sink = some aac; track_id = track_id1; alive = true; rtp_conns = 1 ∷ [] }

first_task :
    (source : Source RingBuffer) × (run_cache_task get_frame_from_file (construct buffer).source
      ≡ some source)
unfolding construct
first_task =
    cache_possible get_frame_from_file (record { ring_buffer = buffer; frames = [] })
      (Streams-adts 1 max_buffer_size one_frame ((header-IsAdts, refl), tt) (ground arith, tt)
        (omega arith) (omega arith))
      refl

abbrev read_ahead : Queue RingBuffer
read_ahead = record { source = first_task.0; pending = 7; delivered = [] }

read_ahead-Run :
    Run get_frame_from_file
      (λ beyond f. send_frame (session_cb store track) f)
      buffer
      (sink, some [])
      read_ahead
      (sink, some [])
unfolding construct
read_ahead-Run = caches start refl first_task.1

Run-listeners_example :
    (sent : List Sent) × (some [] ≡ some (broadcast (client ∷ []) sent))
    × (read_packets (length sent) (stream 4 (broadcast (client ∷ []) sent))
        ≡ some (map (λ x. (2, datagram (packet_of x))) sent))
    × (read_aus sent ≡ some [])
    × ((others : List Frame) × ((33 ∷ 16 ∷ []) ∷ [] ≡ read_ahead.source.frames ++ others))
    × ((f : Frame) (source : Source RingBuffer)
        → take_frame read_ahead.source ≡ some (f, source)
        → (next : Queue RingBuffer × (Sink × Option (List Transmission))) × (handle_timeout
              read_next
              (λ g. send_frame (session_cb store track) g)
              (read_ahead, (sink, some []))
            ≡ some next))
Run-listeners_example =
    Run-listeners store track [] client [] 1 5 one_frame read_ahead sink (some []) refl
      (cons refl (omega arith) nil)
      (record {
        alive = refl;
        is_tcp = refl;
        byte = omega arith;
        before_apart = tt;
        after_apart = tt;
      })
      ((header-IsAdts, refl), tt) ((ground arith, omega arith), tt) (omega arith) read_ahead-Run
