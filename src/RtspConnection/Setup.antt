-- ===== src/RtspConnection/Setup.antt =====
-- A `SETUP` by TCP, from the bytes that `recv` gives to its handler.
use zrh_rtsp_server.Prelude.{
  ℕ, ◌^◌, ◌<◌, ◌≡◌, refl, ap, ◌∙◌, true, not, some, List, [], ◌∷◌, ◌++◌, ◌==◌, length, drop, arith,
}
use zrh_rtsp_server.Text.{Bytes, ascii, pos, is_digit, c_str, print_unsigned, starts_with}
use zrh_rtsp_server.Text.Decimal.{every, decimal-every}
use zrh_rtsp_server.Rtp.{RtpConnection}
use zrh_rtsp_server.RtspConnection.{RtspConnection, setup, parse_request_line}
use zrh_rtsp_server.RtspConnection.Handlers.{UdpSockets, handle_setup}
use zrh_rtsp_server.RtspConnection.Dispatch.{received, parse_lines, dispatch, handle_rtsp_request}
use zrh_rtsp_server.RtspConnection.Request.{
  is_black, every-append, address_text, url_text, line_text, parse_request_method-line_text,
}
use zrh_rtsp_server.RtspConnection.Headers.{
  channels_text, parse_request_line-cseq, parse_request_line-transport,
}
use zrh_rtsp_server.RtspServer.{RtspServer}
use zrh_rtsp_server.RtspConnection.Message.{
  is_text, is_no_newline, all_text, text_of, c_str-text, every-drop, text_of-append,
  handle_text-lines, received-text,
}

abbrev pub header_lines : ℕ → ℕ → ℕ → List Bytes
header_lines cseq a b =
    (ascii "CSeq: " ++ (print_unsigned cseq ++ ascii "\r"))
    ∷ (ascii "Transport: RTP/AVP/TCP;unicast;interleaved=" ++ channels_text a b (ascii "\r"))
    ∷ ascii "\r"
    ∷ []

-- The lines of a `SETUP` by TCP.
abbrev pub setup_lines : Bytes → ℕ → Bytes → Bytes → ℕ → ℕ → ℕ → List Bytes
setup_lines host port suffix version cseq a b =
    line_text setup (url_text (address_text host port suffix)) version (ascii "\r")
    ∷ header_lines cseq a b

digits-text : (xs : Bytes) → every is_digit xs ≡ true → every is_text xs ≡ true
digits-text [] h = refl
digits-text (x ∷ xs) h = ground (arith, digits-text xs)

number-text :
    (n : ℕ) (tail : Bytes)
    → every is_text tail ≡ true
    → every is_text (print_unsigned n ++ tail) ≡ true
unfolding print_unsigned
number-text n tail h =
    every-append is_text (print_unsigned n) tail
      (digits-text (print_unsigned n) (decimal-every 64 n [] refl)) h

setup_lines-text :
    (host : Bytes) (port : ℕ) (suffix version : Bytes) (cseq a b : ℕ)
    → every is_text host ≡ true
    → every is_text suffix ≡ true
    → every is_text version ≡ true
    → all_text (setup_lines host port suffix version cseq a b) ≡ true
setup_lines-text host port suffix version cseq a b h s v =
    let address : every is_text (address_text host port suffix) ≡ true =
      every-append is_text host (58 ∷ (print_unsigned port ++ 47 ∷ suffix)) h
        (number-text port (47 ∷ suffix) s) in
    let line : every is_text (address_text host port suffix ++ 32 ∷ (version ++ ascii "\r"))
        ≡ true =
      every-append is_text (address_text host port suffix) (32 ∷ (version ++ ascii "\r")) address
        (every-append is_text version (ascii "\r") v refl) in
    ground (
      arith,
      line,
      number-text cseq (ascii "\r") refl,
      number-text a (45 ∷ (print_unsigned b ++ ascii "\r")) (number-text b (ascii "\r") refl),
    )

parse_lines-step :
    (l : Bytes) (ls : List Bytes) (c c' : RtspConnection)
    → parse_request_line (c_str l) c ≡ some c'
    → parse_lines (l ∷ ls) c ≡ parse_lines ls c'
unfolding parse_lines
parse_lines-step l ls c c' h = ground (arith, h)

parse_lines-headers :
    (cseq a b : ℕ) (c : RtspConnection)
    → cseq < 2 ^ 31
    → a < 2 ^ 31
    → b < 2 ^ 31
    → parse_lines (header_lines cseq a b) c
      ≡ some (record c { cseq = pos cseq; channel1 = pos a; channel2 = pos b; is_tcp = true })
unfolding parse_lines c_str parse_request_line starts_with
parse_lines-headers cseq a b c small small_a small_b =
    let c₁ : RtspConnection = record c { cseq = pos cseq } in
    let line₁ = ascii "CSeq: " ++ (print_unsigned cseq ++ ascii "\r") in
    let line₂ =
      ascii "Transport: RTP/AVP/TCP;unicast;interleaved=" ++ channels_text a b (ascii "\r") in
    let same₁ : c_str line₁ ≡ line₁ = c_str-text line₁ (number-text cseq (ascii "\r") refl) in
    let same₂ : c_str line₂ ≡ line₂ =
      c_str-text line₂
        (number-text a (45 ∷ (print_unsigned b ++ ascii "\r")) (number-text b (ascii "\r") refl)) in
    let first : parse_request_line (c_str line₁) c ≡ some c₁ =
      ap (λ l. parse_request_line l c) same₁
      ∙ parse_request_line-cseq cseq (ascii "\r") c small refl in
    let second : parse_request_line (c_str line₂) c₁
        ≡ some (record c₁ { channel1 = pos a; channel2 = pos b; is_tcp = true }) =
      ap (λ l. parse_request_line l c₁) same₂
      ∙ (parse_request_line-transport a b (ascii "\r") c₁ small_a small_b refl).0 in
    parse_lines-step line₁ (line₂ ∷ ascii "\r" ∷ []) c c₁ first
    ∙ parse_lines-step line₂ (ascii "\r" ∷ []) c₁ _ second

-- A request of `SETUP` by TCP, from the bytes that one `recv` gives to the handler. Let the request have a
-- request line with a URL `rtsp://host:port/suffix` of less than 256 bytes, a `CSeq:` line and a
-- `Transport:` line for TCP with two channels, an empty line, and each line end in a carriage return and a
-- newline; let host, suffix and version be words without white space and without a zero byte, none empty
-- and below 24, 128 and 32 bytes, the host without a colon, the port a number of 16 bits, and the
-- number of `CSeq` and the channels fit an `int`; let the request be shorter than the buffer, and let no
-- newline be in the buffer behind it. Then `handleRtspRequest` overruns nothing and does exactly what
-- `handleSetup` does on the connection that has method, words, host, port, suffix, number and channels
-- of the request and is by TCP, whatever its buffer then holds.
pub handle_rtsp_request-setup :
    (host : Bytes) (port : ℕ) (suffix version : Bytes) (cseq a b time : ℕ) (memory : RtpConnection)
    (sockets : UdpSockets) (c : RtspConnection) (s : RtspServer)
    → every is_black host ≡ true
    → every is_text host ≡ true
    → every (λ x. not (x == 58)) host ≡ true
    → 0 < length host
    → length host < 24
    → port < 2 ^ 16
    → every is_black suffix ≡ true
    → every is_text suffix ≡ true
    → 0 < length suffix
    → length suffix < 128
    → length (url_text (address_text host port suffix)) < 256
    → every is_black version ≡ true
    → every is_text version ≡ true
    → 0 < length version
    → length version < 32
    → cseq < 2 ^ 31
    → a < 2 ^ 31
    → b < 2 ^ 31
    → let bytes = text_of (setup_lines host port suffix version cseq a b) [] in
      length bytes < c.buf_size
      → every is_no_newline (drop (length bytes) c.rbuf) ≡ true
      → (rbuf : Bytes) × (handle_rtsp_request (received bytes) [] time memory sockets c s
          ≡ handle_setup memory sockets
              (record c {
                rbuf = rbuf;
                method = setup;
                method_buf = ascii "SETUP";
                url = url_text (address_text host port suffix);
                version = version;
                ip = host;
                port = port;
                suffix = suffix;
                cseq = pos cseq;
                channel1 = pos a;
                channel2 = pos b;
                is_tcp = true;
              })
              s)
unfolding dispatch parse_lines
handle_rtsp_request-setup host port suffix version cseq a b time memory sockets c s hb ht h h₀ h₁ p
      sb st s₀ s₁ u vb vt v₀ v₁ small small_a small_b short old =
    let ls = setup_lines host port suffix version cseq a b in
    let bytes = text_of ls [] in
    let behind = drop (length bytes) c.rbuf in
    let stale = drop 1 behind in
    let rbuf = bytes ++ 0 ∷ stale in
    let c₀ : RtspConnection = record c { rbuf = rbuf } in
    let c₁ : RtspConnection = record c₀ {
      method = setup;
      method_buf = ascii "SETUP";
      url = url_text (address_text host port suffix);
      version = version;
      ip = host;
      port = port;
      suffix = suffix;
    } in
    let c₂ : RtspConnection = record c₁ {
      cseq = pos cseq;
      channel1 = pos a;
      channel2 = pos b;
      is_tcp = true;
    } in
    let text = setup_lines-text host port suffix version cseq a b ht st vt in
    let first =
      parse_request_method-line_text setup host port suffix version (ascii "\r") c₀ (ground arith)
        hb h h₀ h₁ p sb s₀ s₁ u vb v₀ v₁ refl in
    let others = parse_lines-headers cseq a b c₁ small small_a small_b in
    (
      rbuf,
      received-text _ _ time memory sockets c s short
          ∙ handle_text-lines _ _ (header_lines cseq a b) stale time memory sockets c₀ c₁ c₂ s text
              (every-drop is_no_newline behind old) (text_of-append ls (0 ∷ stale)) first others,
    )
