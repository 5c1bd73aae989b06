-- ===== src/RtspConnection.antt =====
-- include/live/RtspConnection.h and the parsing half of src/live/RtspConnection.cpp. A buffer that
-- `sscanf` overruns, or a number that does not fit its variable, is `none`.
mod Tests
pub mod Handlers
pub mod Dispatch
pub mod Message
pub mod Parsing
pub mod Effects
pub mod Growth
pub mod Requests
pub mod Setup
pub mod Headers
pub mod Playing
pub mod Receiving
pub mod Request
use zrh_rtsp_server.Prelude.{
  ℕ, ◌+◌, Bool, true, false, Option, none, some, List, [], ◌∷◌, ◌++◌, if◌then◌else◌, drop,
}
use zrh_rtsp_server.Text.{
  Bytes, ascii, ℤ, Scan, matched, mismatch, undefined, starts_with, scan_word, scan_until,
  scan_literal, scan_short, scan_int, skip_space, atoi,
}

pub data Method : Type 0 where
  options describe setup play teardown unknown : Method

-- The members; `manager` is the copy of the session manager's map that the connection looks sessions up
-- in, `rtp_conns` are addresses of RTP connections.
pub record RtspConnection : Type 0 where
  pub client_fd : ℕ
  pub rbuf : Bytes
  pub buf_size : ℕ
  pub alive : Bool
  pub rtp_conns : List ℕ
  pub manager : List (Bytes × ℕ)
  pub cseq : ℤ
  pub method : Method
  pub port : ℕ
  pub ip : Bytes
  pub suffix : Bytes
  pub method_buf : Bytes
  pub url : Bytes
  pub version : Bytes
  pub track : Bytes
  pub channel1 : ℤ
  pub channel2 : ℤ
  pub session_name : Bytes
  pub session_id : ℕ
  pub is_tcp : Bool

abbrev pub method_of : Bytes → Method
method_of line =
    if starts_with line (ascii "DESCRIBE")
    then describe
    else if starts_with line (ascii "SETUP")
    then setup
    else if starts_with line (ascii "PLAY")
    then play
    else if starts_with line (ascii "TEARDOWN")
    then teardown
    else if starts_with line (ascii "OPTIONS")
    then options
    else unknown

-- `sscanf(line, "%s %s %s", method_buf_, url_, version_) == 3`.
unfoldable pub scan_request : Bytes → RtspConnection → Option (Bool × RtspConnection)
scan_request line c = elim (scan_word 32 line) [
  | undefined ↦ none
  | mismatch ↦ some (false, c)
  | matched method_buf rest ↦
      let c₁ = record c { method_buf = method_buf } in
      elim (scan_word 256 rest) [
        | undefined ↦ none
        | mismatch ↦ some (false, c₁)
        | matched url rest ↦
            let c₂ = record c₁ { url = url } in
            elim (scan_word 32 rest) [
              | undefined ↦ none
              | mismatch ↦ some (false, c₂)
              | matched version rest ↦ some (true, record c₂ { version = version })
            ]
      ]
]

-- `sscanf(url_ + 7, "%[^:]:%hu/%s", ip_, &port_, suffix_) == 3`.
unfoldable pub scan_with_port : Bytes → RtspConnection → Option (Bool × RtspConnection)
scan_with_port address c = elim (scan_until 58 24 address) [
  | undefined ↦ none
  | mismatch ↦ some (false, c)
  | matched ip rest ↦
      let c₁ = record c { ip = ip } in
      elim (scan_literal (ascii ":") rest) [
        | none ↦ some (false, c₁)
        | some rest ↦ elim (scan_short rest) [
          | undefined ↦ none
          | mismatch ↦ some (false, c₁)
          | matched port rest ↦
              let c₂ = record c₁ { port = port } in
              elim (scan_literal (ascii "/") rest) [
                | none ↦ some (false, c₂)
                | some rest ↦ elim (scan_word 128 rest) [
                  | undefined ↦ none
                  | mismatch ↦ some (false, c₂)
                  | matched suffix rest ↦ some (true, record c₂ { suffix = suffix })
                ]
              ]
        ]
      ]
]

-- `sscanf(url_ + 7, "%[^/]/%s", ip_, suffix_) == 2`.
unfoldable pub scan_without_port : Bytes → RtspConnection → Option (Bool × RtspConnection)
scan_without_port address c = elim (scan_until 47 24 address) [
  | undefined ↦ none
  | mismatch ↦ some (false, c)
  | matched ip rest ↦
      let c₁ = record c { ip = ip } in
      elim (scan_literal (ascii "/") rest) [
        | none ↦ some (false, c₁)
        | some rest ↦ elim (scan_word 128 rest) [
          | undefined ↦ none
          | mismatch ↦ some (false, c₁)
          | matched suffix rest ↦ some (true, record c₁ { suffix = suffix })
        ]
      ]
]

-- The address of the URL: with a port, or else without and with the default port.
unfoldable pub parse_address : Bytes → RtspConnection → Option RtspConnection
parse_address address c = elim (scan_with_port address c) [
  | none ↦ none
  | some (true, c₁) ↦ some c₁
  | some (false, c₁) ↦ elim (scan_without_port address c₁) [
    | none ↦ none
    | some (true, c₂) ↦ some (record c₂ { port = 554 })
    | some (false, c₂) ↦ some c₂
  ]
]

-- Behind the test of the method.
unfoldable pub parse_request_rest : Bytes → RtspConnection → Option (Bool × RtspConnection)
parse_request_rest line c = elim (scan_request line c) [
  | none ↦ none
  | some (false, c₁) ↦ some (false, c₁)
  | some (true, c₁) ↦
      if starts_with c₁.url (ascii "rtsp://")
      then elim (parse_address (drop 7 c₁.url) c₁) [ none ↦ none | some c₂ ↦ some (true, c₂) ]
      else some (false, c₁)
]

-- `parseRequestMethod`.
unfoldable pub parse_request_method : Bytes → RtspConnection → Option (Bool × RtspConnection)
parse_request_method line c =
    let c₁ = record c { method = method_of line } in
    elim (method_of line) [ unknown ↦ some (false, c₁) | _ ↦ parse_request_rest line c₁ ]

-- `sscanf(line, "Transport: ...=%d-%d", &channel1_, &channel2_)`, with the text between as `transport`;
-- a blank of the format stands for any white space.
unfoldable pub scan_channels : Bytes → Bytes → RtspConnection → Option RtspConnection
scan_channels line transport c = elim (scan_literal (ascii "Transport:") line) [
  | none ↦ some c
  | some rest ↦ elim (scan_literal transport (skip_space rest)) [
    | none ↦ some c
    | some rest ↦ elim (scan_int rest) [
      | undefined ↦ none
      | mismatch ↦ some c
      | matched channel1 rest ↦
          let c₁ = record c { channel1 = channel1 } in
          elim (scan_literal (ascii "-") rest) [
            | none ↦ some c₁
            | some rest ↦ elim (scan_int rest) [
              | undefined ↦ none
              | mismatch ↦ some c₁
              | matched channel2 rest ↦ some (record c₁ { channel2 = channel2 })
            ]
          ]
    ]
  ]
]

-- After `scan_channels`, `is_tcp_`.
abbrev pub with_transport : Bool → Option RtspConnection → Option RtspConnection
with_transport is_tcp none = none
with_transport is_tcp (some c) = some (record c { is_tcp = is_tcp })

abbrev parse_transport : Bytes → RtspConnection → Option RtspConnection
parse_transport line c =
    if starts_with (drop 11 line) (ascii "RTP/AVP/TCP")
    then with_transport true (scan_channels line (ascii "RTP/AVP/TCP;unicast;interleaved=") c)
    else if starts_with (drop 11 line) (ascii "RTP/AVP/UDP")
    then with_transport false (scan_channels line (ascii "RTP/AVP/UDP;unicast;client_port=") c)
    else if starts_with (drop 11 line) (ascii "RTP/AVP")
    then with_transport false (scan_channels line (ascii "RTP/AVP;unicast;client_port=") c)
    else some c

-- `parseRequestLine`. Its result, which is always `false`, is not used; a `Session:` line changes
-- nothing, but its number is read.
unfoldable pub parse_request_line : Bytes → RtspConnection → Option RtspConnection
parse_request_line line c =
    if starts_with line (ascii "CSeq: ")
    then elim (atoi (drop 6 line)) [ none ↦ none | some cseq ↦ some (record c { cseq = cseq }) ]
    else if starts_with line (ascii "Session: ")
    then elim (atoi (drop 9 line)) [ none ↦ none | some session_id ↦ some c ]
    else if starts_with line (ascii "Transport: ")
    then parse_transport line c
    else some c
