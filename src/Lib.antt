-- ===== src/Lib.antt =====
-- A verification library for the RTSP streaming server of this repository.
--
-- The program reads an H.264 and an AAC file, cuts them into frames, packs the frames into RTP packets
-- at a timer's pace, and sends each packet to the clients that have asked for the track, over TCP or
-- UDP. Frames flow from `RingBuffer` through a media source to a sink, and packets from the sink through
-- a callback of the `MediaSession` to the `RtpConnection`s of the track.
--
-- Where each part is modelled:
--   Prelude      library names, Boolean tests, lists measured by native numbers
--   Bits         what the program's masks pick out of a byte
--   RingBuffer   include/helper/RingBuffer.h, src/helper/RingBuffer.cpp, test/RingBufferTest.cpp: the
--                buffer is a record, an iterator is an offset, an array and a pointer; each member
--                function is a function of the same name in snake case that gives the new iterator and
--                buffer. Access is the monad in which the two sources use them.
--   H264Source   src/live/H264MediaSource.cpp, include/live/H264MediaSource.h
--   AacSource    src/live/AACMediaSource.cpp, include/live/AACMediaSource.h
--                RoundTrip and Streaming are about files that fit one block of the ring buffer,
--                Crossing about a longer one
--   Rtp          include/live/Rtp.h, src/live/Rtp.cpp
--   Sink         include/live/Sink.h; H264Sink and AacSink the two sinks of include/live/H264MediaSink.h
--                and include/live/AACMediaSink.h
--   MediaSession src/live/MediaSession.cpp, include/live/MediaSession.h
--   Text         the C library functions on text that the program uses: sscanf, atoi, sprintf, getline
--   RtspConnection  include/live/RtspConnection.h and src/live/RtspConnection.cpp: the members and the
--                parser; Handlers has the five handlers, Dispatch `handleRtspRequest`, and
--                Parsing, Effects, Growth and Requests what they leave alone; Message and Setup are
--                about whole requests
--   RtspServer   include/live/RtspServer.h, src/live/RtspServer.cpp, include/live/MediaSessionManager.h:
--                the server with the heap of sessions and RTP connections, and the trigger queue of
--                include/helper/Scheduler.h; Loop, Serving and Turns are about a turn of the
--                scheduler's loop; Pointers, Freeing, Orderly, Resolved and Dangling are about
--                the pointers of the tracks, which the RTP connections are freed behind, and
--                Protocol about clients that set up their tracks in order.
--                MediaSession.Sdp is `GenSdpDescription`.
--   Main         src/main.cpp: the server that it starts, and the turns of its loop; Sending has what
--                the tracks of its session send
--   FrameQueue   the frames read ahead, which the two sources have in the same words
--   Pipeline     `handleTimeout` of a sink over the queue of its source; Sends is what any
--                sink promises; Broadcast, Clients, Live and AudioLive add the callback of the
--                session and what its sends put on the socket of a client
--   ThreadPool   include/helper/ThreadPool.h: workers and the queue of tasks as a step relation
--   Event        include/helper/Event.h and src/helper/Event.cpp
--   Poller       include/helper/Poller.h and src/helper/Poller.cpp, on the maps of FdMap
--   Scheduler    include/helper/Scheduler.h and src/helper/Scheduler.cpp: timers and triggers
--   SocketHelper include/helper/SocketHelper.h and src/helper/SocketHelper.cpp: the sockets it opens,
--                and in Calls what its functions make of a system call
--
-- A request changes a connection and the server: a handler takes both and gives both, and its callbacks
-- are the server's functions. What `recv`, `read`, `Accept`, `time` and the UDP sockets give are
-- arguments; what a constructor leaves uninitialised is an argument called `memory`.
--
-- Conventions. Numbers are natural numbers; a `size_t`, `uint32_t` or `uint16_t` keeps its wrap-around
-- as `% 2 ^ w`, and -1 is the pattern of ones. A file is the list of its bytes. `none` stands for what
-- C++ leaves undefined (a read or write outside of an array, a dangling pointer), for an exception that
-- ends the program, and for a loop that ran out of fuel; the theorems that give a result show that none
-- of these happens under their conditions.
--
-- Fuel: `print_all` and `find_start_code` are loops without a bound in the code, and take a number of
-- rounds. One more than the bytes that lie ahead is enough, since each round passes one byte; the
-- theorems are for every fuel of that size. `decimal` prints a number of 64 bits, which has no more
-- than 64 digits.
--
-- Memory: an RTP packet lies in a buffer whose payload has 1402 bytes; a frame is read from the memory
-- that begins with its bytes, and what stands behind them is an argument. A little-endian host is
-- assumed for the layout of headers. The sinks are proved for every callback that logs what it is given
-- and changes the packet's memory in any way that keeps its length.
--
-- Not modelled: logging, and the sample programs under test but the one of the ring buffer.
pub mod Prelude
pub mod Bits
pub mod Text
pub mod RingBuffer
pub mod Rtp
pub mod Sink
pub mod H264Sink
pub mod AacSink
pub mod MediaSession
pub mod H264Source
pub mod AacSource
pub mod RtspConnection
pub mod RtspServer
pub mod Main
pub mod ThreadPool
pub mod FrameQueue
pub mod Pipeline
pub mod FdMap
pub mod Event
pub mod Poller
pub mod Scheduler
pub mod SocketHelper
