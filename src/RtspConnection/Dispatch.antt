-- ===== src/RtspConnection/Dispatch.antt =====
-- `handleRtspRequest` of src/live/RtspConnection.cpp: reading a request into the buffer, and its
-- dispatch. What `recv` and `read` give are arguments.
use zrh_rtsp_server.Prelude.{
  ℕ, ◌+◌, ◌*◌, ◌^◌, ltb, true, false, Option, none, some, List, [], ◌∷◌, ◌++◌, ◌==◌, if◌then◌else◌,
  length, take, drop, replicate,
}
use zrh_rtsp_server.Text.{Bytes, c_str, lines}
use zrh_rtsp_server.Rtp.{RtpConnection}
use zrh_rtsp_server.RtspConnection.{
  RtspConnection, options, describe, setup, play, teardown, unknown, parse_request_method,
  parse_request_line,
}
use zrh_rtsp_server.RtspConnection.Handlers.{
  Handler, UdpSockets, handle_options, handle_describe, handle_setup, handle_play, handle_teardown,
}
use zrh_rtsp_server.RtspServer.{handle_dis_connect}

-- -1, or the bytes that were read, none of them at the end of the stream; there are no more of them
-- than were asked for.
pub data ReadResult : Type 0 where
  read_error : ReadResult
  received : Bytes → ReadResult

-- Bytes at the start of a buffer, which they fit.
abbrev pub overwrite : Bytes → Bytes → Bytes
overwrite bytes buffer = bytes ++ drop (length bytes) buffer

-- What the reading comes to: the number of bytes in the buffer, an error of a later `read`, the end
-- of the stream in a later `read`, a `read` that has not returned, or a number that is no `int`, which
-- is undefined behaviour.
pub data Reading : Type 0 where
  complete : ℕ → RtspConnection → Reading
  failed closed : RtspConnection → Reading
  waiting overflow : RtspConnection → Reading

-- The loop while the buffer is full: `rbuf_ += buf` adds as many bytes as it had, and the buffer is said
-- to be twice as large. `n += tmp` and `buf_size_ *= 2` are on `int`.
unfoldable pub read_more : List ReadResult → ℕ → RtspConnection → Reading
read_more [] n c = if n == c.buf_size then waiting c else complete n c
read_more (read_error ∷ reads) n c = if n == c.buf_size then failed c else complete n c
read_more (received [] ∷ reads) n c = if n == c.buf_size then closed c else complete n c
read_more (received (x ∷ xs) ∷ reads) n c =
    let tmp = x ∷ xs in
    let grown = record c {
      rbuf = c.rbuf ++ overwrite tmp (replicate c.buf_size 0);
      buf_size = c.buf_size * 2;
    } in
    let rest = read_more reads (n + length tmp) grown in
    let next = if ltb (n + length tmp) (2 ^ 31) then rest else overflow c in
    let doubled = if ltb (c.buf_size * 2) (2 ^ 31) then next else overflow c in
    if n == c.buf_size then doubled else complete n c

-- The `do` loop over the lines behind the first; with no such line the first one is parsed again, since
-- `getline` leaves it as it is.
unfoldable pub parse_lines : List Bytes → RtspConnection → Option RtspConnection
parse_lines [] c = some c
parse_lines (line ∷ others) c = elim (parse_request_line (c_str line) c) [
  | none ↦ none
  | some c₁ ↦ parse_lines others c₁
]

-- The `switch` over the method.
unfoldable pub dispatch : ℕ → RtpConnection → UdpSockets → Handler
dispatch time memory sockets c s = elim c.method [
  | options ↦ handle_options c s
  | describe ↦ handle_describe time c s
  | setup ↦ handle_setup memory sockets c s
  | play ↦ handle_play c s
  | teardown ↦ handle_teardown c s
  | unknown ↦ some (false, c, s)
]

-- From `rbuf_[n] = '\0'` on; the stream is over all of `rbuf_`.
unfoldable pub handle_text : ℕ → RtpConnection → UdpSockets → Handler
unfolding lines
handle_text time memory sockets c s =
    let (first, others) = lines c.rbuf in
    elim first [
      | [] ↦ some (false, c, s)
      | x ∷ xs ↦ elim (parse_request_method (c_str (x ∷ xs)) c) [
        | none ↦ none
        | some (false, c₁) ↦ some (false, c₁, s)
        | some (true, c₁) ↦
            elim (parse_lines (elim others [ [] ↦ (x ∷ xs) ∷ [] | l ∷ ls ↦ l ∷ ls ]) c₁) [
              | none ↦ none
              | some c₂ ↦ dispatch time memory sockets c₂ s
            ]
      ]
    ]

abbrev pub terminate : ℕ → Bytes → Bytes
terminate n rbuf = take n rbuf ++ 0 ∷ drop (n + 1) rbuf

-- `disconnect_cb_(server_, client_fd_)` and the `alive_` before it.
abbrev pub give_up : Handler
give_up c s = some (false, record c { alive = false }, handle_dis_connect c.client_fd s)

-- `handleRtspRequest`, with what the first `recv` gives and what the later `read`s give; a `read` that
-- does not return is `none`, as a fault and an overflow of an `int` are.
unfoldable pub handle_rtsp_request :
    ReadResult → List ReadResult → ℕ → RtpConnection → UdpSockets → Handler
handle_rtsp_request read_error reads time memory sockets c s = give_up c s
handle_rtsp_request (received []) reads time memory sockets c s = give_up c s
handle_rtsp_request (received (x ∷ xs)) reads time memory sockets c s =
    let bytes = x ∷ xs in
    elim (read_more reads (length bytes) (record c { rbuf = overwrite bytes c.rbuf })) [
      | complete n c₁ ↦ handle_text time memory sockets (record c₁ { rbuf = terminate n c₁.rbuf }) s
      | failed c₁ ↦ some (false, c₁, s)
      | closed c₁ ↦ give_up c₁ s
      | waiting c₁ ↦ none
      | overflow c₁ ↦ none
    ]
