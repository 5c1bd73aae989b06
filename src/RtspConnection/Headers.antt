-- ===== src/RtspConnection/Headers.antt =====
-- Header lines, and a URL that the parser is not fit for.
use zrh_rtsp_server.Prelude.{
  ℕ, ◌^◌, ◌≤◌, ◌<◌, ◌≡◌, refl, Bool, true, false, not, none, some, [], ◌∷◌, ◌++◌, ◌==◌, length,
  arith, append-nil,
}
use zrh_rtsp_server.Text.{
  Bytes, ascii, pos, is_digit, span, matched, undefined, scan_run, scan_int, skip_space,
  scan_literal, starts_with, print_unsigned,
}
use zrh_rtsp_server.Text.Decimal.{
  every, ends, span-every, atoi-print_unsigned, scan_number-print_unsigned,
}
use zrh_rtsp_server.RtspConnection.{
  RtspConnection, scan_with_port, parse_address, scan_channels, parse_request_line,
}

-- A `CSeq:` line stores its number, if that is an `int` and no digit follows it.
pub parse_request_line-cseq :
    (n : ℕ) (tail : Bytes) (c : RtspConnection)
    → n < 2 ^ 31
    → ends is_digit tail ≡ true
    → parse_request_line (ascii "CSeq: " ++ (print_unsigned n ++ tail)) c
      ≡ some (record c { cseq = pos n })
unfolding parse_request_line starts_with
parse_request_line-cseq n tail c h t = ground (arith, atoi-print_unsigned n tail h t)

scan_int-print_unsigned :
    (n : ℕ) (rest : Bytes)
    → n < 2 ^ 31
    → ends is_digit rest ≡ true
    → scan_int (print_unsigned n ++ rest) ≡ matched (pos n) rest
unfolding scan_int
scan_int-print_unsigned n rest h e =
    ground (arith, scan_number-print_unsigned n rest (omega arith) e)

abbrev pub channels_text : ℕ → ℕ → Bytes → Bytes
channels_text a b tail = print_unsigned a ++ 45 ∷ (print_unsigned b ++ tail)

-- A `Transport:` line for TCP stores both channels and that the transport is TCP, and one for UDP, in
-- either spelling, both ports and that it is not.
pub parse_request_line-transport :
    (a b : ℕ) (tail : Bytes) (c : RtspConnection)
    → a < 2 ^ 31
    → b < 2 ^ 31
    → ends is_digit tail ≡ true
    → (parse_request_line
          (ascii "Transport: RTP/AVP/TCP;unicast;interleaved=" ++ channels_text a b tail)
          c
        ≡ some (record c { channel1 = pos a; channel2 = pos b; is_tcp = true }))
      × (parse_request_line
            (ascii "Transport: RTP/AVP/UDP;unicast;client_port=" ++ channels_text a b tail)
            c
          ≡ some (record c { channel1 = pos a; channel2 = pos b; is_tcp = false }))
      × (parse_request_line
            (ascii "Transport: RTP/AVP;unicast;client_port=" ++ channels_text a b tail)
            c
          ≡ some (record c { channel1 = pos a; channel2 = pos b; is_tcp = false }))
unfolding parse_request_line starts_with scan_channels scan_literal skip_space span
parse_request_line-transport a b tail c ha hb t =
    let first = scan_int-print_unsigned a (45 ∷ (print_unsigned b ++ tail)) ha refl in
    let second = scan_int-print_unsigned b tail hb t in
    (ground (arith, first, second), ground (arith, first, second), ground (arith, first, second))

scan_run_overrun :
    (p : ℕ → Bool) (size : ℕ) (x : ℕ) (xs : Bytes)
    → every p (x ∷ xs) ≡ true
    → size ≤ length (x ∷ xs)
    → scan_run p size (x ∷ xs) ≡ undefined
unfolding scan_run
scan_run_overrun p size x xs h long =
    let whole : span p (x ∷ xs) ≡ (x ∷ xs, []) =
      rw (append-nil xs) at (span-every p (x ∷ xs) [] h refl) in
    ground (arith, whole)

-- A URL without a port whose host and path have 24 bytes or more together: the attempt to read a host
-- that a colon ends takes all of it, and overruns the host's buffer of 24 bytes.
pub parse_address_overrun :
    (address : Bytes) (c : RtspConnection)
    → every (λ x. not (x == 58)) address ≡ true
    → 24 ≤ length address
    → parse_address address c ≡ none
unfolding parse_address scan_with_port
parse_address_overrun [] c h long = absurd (omega arith)
parse_address_overrun (x ∷ xs) c h long =
    ground (arith, scan_run_overrun (λ x. not (x == 58)) 24 x xs h long)
