-- ===== src/MediaSession/Sdp.antt =====
-- `GenSdpDescription` of src/live/MediaSession.cpp, with `getMediaDescription` and `getAttribute` of
-- include/live/H264MediaSink.h and include/live/AACMediaSink.h.
use zrh_rtsp_server.Prelude.{ℕ, Option, none, some, [], ◌++◌, true, false}
use zrh_rtsp_server.Text.{Bytes, ascii, ℤ, pos, negsuc, print_unsigned, print_int}
use zrh_rtsp_server.MediaSession.{
  TrackId, track_id_none, track_id0, track_id1, SinkKind, h264, aac, Track, MediaSession,
}

unfoldable pub get_media_description : SinkKind → ℕ → Bytes
get_media_description (h264 fps) port =
    ascii "m=video " ++ print_unsigned port ++ ascii " RTP/AVP 96\r\n"
get_media_description aac port = ascii "m=audio " ++ print_unsigned port ++ ascii " RTP/AVP 97\r\n"

unfoldable pub get_attribute : SinkKind → Bytes
get_attribute (h264 fps) =
    ascii "a=rtpmap:96 H264/12000\r\n" ++ ascii "a=framerate:" ++ print_unsigned fps ++ ascii "\r\n"
get_attribute aac =
    ascii "a=rtpmap:97 mpeg4-generic/48000/2\r\n"
    ++ ascii
        "a=fmtp:97 streamtype=5;profile-level-id=1;sizeLength=13;IndexLength=3;indexDeltaLength=3;mode=AAC-hbr;config=2190;\r\n"

abbrev track_number : TrackId → ℤ
track_number track_id_none = negsuc 0
track_number track_id0 = pos 0
track_number track_id1 = pos 1

-- One turn of the loop; `none` is a live track without a sink.
abbrev pub track_description : Track → Option Bytes
track_description t = elim t.alive [
  | false ↦ some []
  | true ↦ elim t.sink [
    | none ↦ none
    | some sink ↦ some (
        get_media_description sink 0
        ++ ascii "c=IN IP4 0.0.0.0\r\n"
        ++ get_attribute sink
        ++ ascii "a=control:track"
        ++ print_int (track_number t.track_id)
        ++ ascii "\r\n")
  ]
]

-- The description at what `time(NULL)` gave.
unfoldable pub gen_sdp_description : ℕ → MediaSession → Option Bytes
gen_sdp_description time m = elim (track_description m.track0) [
  | none ↦ none
  | some first ↦ elim (track_description m.track1) [
    | none ↦ none
    | some second ↦ some (
        ascii "v=0\r\no=- 9%"
        ++ print_unsigned time
        ++ ascii "1 IN IP4 0.0.0.0\r\n"
        ++ ascii "t=0 0\r\na=control:*\r\na=type:broadcast\r\n"
        ++ first
        ++ second)
  ]
]
