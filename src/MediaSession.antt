-- ===== src/MediaSession.antt =====
-- include/live/MediaSession.h and src/live/MediaSession.cpp: two tracks, each with the RTP connections
-- that its packets go to. A connection is on a heap, and the tracks hold plain pointers to it.
mod Tests
pub mod Broadcast
pub mod Sdp
use zrh_rtsp_server.Prelude.{
  ℕ, ◌+◌, Bool, true, false, Option, none, some, List, [], ◌∷◌, ◌++◌, ◌==◌, if◌then◌else◌,
}
use zrh_rtsp_server.Rtp.{
  RtpHeader, RtpPacket, RtpConnection, Transmission, htons, htonl, send_frame,
}
use zrh_rtsp_server.Sink.{Callback}

pub data TrackId : Type 0 where
  track_id_none track_id0 track_id1 : TrackId

-- What stands behind `sink_`: the sink's class, and for H.264 the frame rate of its source.
pub data SinkKind : Type 0 where
  h264 : ℕ → SinkKind
  aac : SinkKind

-- `Track`.
pub record Track : Type 0 where
  pub sink : Option SinkKind
  pub track_id : TrackId
  pub alive : Bool
  pub rtp_conns : List ℕ

pub record MediaSession : Type 0 where
  pub session_name : List ℕ
  pub session_id : ℕ
  pub track0 : Track
  pub track1 : Track

-- The constructor, with what `rand()` gave. It leaves the members of the tracks but the lists as
-- they are in memory: these are its arguments.
unfoldable pub construct : List ℕ → ℕ → Track → Track → MediaSession
construct session_name rand memory0 memory1 = record {
  session_name = session_name;
  session_id = rand;
  track0 = record memory0 { sink = none; rtp_conns = [] };
  track1 = record memory1 { sink = none; rtp_conns = [] };
}

-- The heap: `none` is an address with no connection.
abbrev pub Store : Type 0
Store = ℕ → Option RtpConnection

-- `track_id == TrackId0` is the first track, and anything else the second.
abbrev pub get_track : MediaSession → TrackId → Track
get_track m track_id0 = m.track0
get_track m _ = m.track1

abbrev pub set_track : MediaSession → TrackId → Track → MediaSession
set_track m track_id0 t = record m { track0 = t }
set_track m _ t = record m { track1 = t }

-- `AddSink`, `AddRtpConnection` and `RemoveRtpConnection`; `list::remove` takes out every copy.
unfoldable pub add_sink : MediaSession → TrackId → SinkKind → MediaSession
add_sink m id sink = set_track m id (record {
  sink = some sink;
  track_id = id;
  alive = true;
  rtp_conns = (get_track m id).rtp_conns;
})

unfoldable pub add_rtp_connection : MediaSession → TrackId → ℕ → MediaSession
add_rtp_connection m id conn =
    let t = get_track m id in set_track m id (record t { rtp_conns = t.rtp_conns ++ conn ∷ [] })

unfoldable pub remove : ℕ → List ℕ → List ℕ
remove x [] = []
remove x (y ∷ ys) = if y == x then remove x ys else y ∷ remove x ys

unfoldable pub remove_rtp_connection : MediaSession → TrackId → ℕ → MediaSession
remove_rtp_connection m id conn =
    let t = get_track m id in set_track m id (record t { rtp_conns = remove conn t.rtp_conns })

-- The header words are put into network order in the packet itself.
abbrev pub to_network : RtpHeader → RtpHeader
to_network h = record h { seq = htons h.seq; timestamp = htonl h.timestamp; ssrc = htonl h.ssrc }

-- The loop over the connections of a track: the packet, whose prefix each TCP connection rewrites, and
-- what is sent. `none` is a pointer to no connection, or a read past the packet.
unfoldable pub send_all : Store → List ℕ → RtpPacket → Option (RtpPacket × List Transmission)
send_all store [] p = some (p, [])
send_all store (conn ∷ conns) p = elim (store conn) [
  | none ↦ none
  | some c ↦ elim (send_frame c p) [
    | none ↦ none
    | some (p', sent) ↦ elim (send_all store conns p') [
      | none ↦ none
      | some (p'', later) ↦ some (p'', sent ++ later)
    ]
  ]
]

-- `handleSessionSend`.
unfoldable pub handle_session_send :
    Store → Track → RtpPacket → Option (RtpPacket × List Transmission)
handle_session_send store track packet =
    if track.alive
    then send_all store track.rtp_conns
        (record packet { rtp_header = to_network packet.rtp_header })
    else some (packet, [])

-- `SessionCb`, as a sink calls it; the state is what has been sent, `none` after a fault.
unfoldable pub session_cb : Store → Track → Callback (Option (List Transmission))
session_cb store track packet none = (packet, none)
session_cb store track packet (some sent) = elim (handle_session_send store track packet) [
  | none ↦ (packet, none)
  | some (packet', more) ↦ (packet', some (sent ++ more))
]
