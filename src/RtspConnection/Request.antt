-- ===== src/RtspConnection/Request.antt =====
-- A well-formed request line, and what the parser makes of it.
use zrh_rtsp_server.Prelude.{
  ℕ, ◌^◌, ◌<◌, ◌≡◌, ◌≢◌, refl, sym, ap, ◌∙◌, Bool, true, not, some, [], ◌∷◌, ◌++◌, ◌==◌, length,
  arith, append-nil,
}
use zrh_rtsp_server.Text.{
  Bytes, ascii, is_space, is_digit, span, skip_space, matched, scan_word, scan_until, scan_literal,
  starts_with, print_unsigned,
}
use zrh_rtsp_server.Text.Decimal.{
  every, ends, scan_run-every, scan_short-print_unsigned, decimal-every,
}
use zrh_rtsp_server.RtspConnection.{
  RtspConnection, Method, options, describe, setup, play, teardown, unknown, scan_request,
  scan_with_port, parse_address, parse_request_rest, parse_request_method,
}

abbrev pub is_black : ℕ → Bool
is_black c = not (is_space c)

pub every-append :
    (p : ℕ → Bool) (xs ys : Bytes)
    → every p xs ≡ true
    → every p ys ≡ true
    → every p (xs ++ ys) ≡ true
every-append p [] ys h k = k
every-append p (x ∷ xs) ys h k = ground (arith, every-append p xs ys)

digits-black : (xs : Bytes) → every is_digit xs ≡ true → every is_black xs ≡ true
digits-black [] h = refl
digits-black (x ∷ xs) h = ground (arith, digits-black xs)

-- A word, at the start of the text or behind a blank.
scan_word-every :
    (size : ℕ) (w rest : Bytes)
    → every is_black w ≡ true
    → ends is_black rest ≡ true
    → 0 < length w
    → length w < size
    → (scan_word size (w ++ rest) ≡ matched w rest)
      × (scan_word size (32 ∷ (w ++ rest)) ≡ matched w rest)
unfolding scan_word skip_space span
scan_word-every size [] rest h e above below = absurd (omega arith)
scan_word-every size (x ∷ xs) rest h e above below =
    let run = scan_run-every is_black size x xs rest h e below in
    (ground (arith, run), ground (arith, run))

scan_until-every :
    (stop size : ℕ) (w rest : Bytes)
    → every (λ c. not (c == stop)) w ≡ true
    → 0 < length w
    → length w < size
    → scan_until stop size (w ++ stop ∷ rest) ≡ matched w (stop ∷ rest)
scan_until-every stop size [] rest h above below = absurd (omega arith)
scan_until-every stop size (x ∷ xs) rest h above below =
    scan_run-every (λ c. not (c == stop)) size x xs (stop ∷ rest) h (ground arith) below

abbrev pub method_name : Method → Bytes
method_name options = ascii "OPTIONS"
method_name describe = ascii "DESCRIBE"
method_name setup = ascii "SETUP"
method_name play = ascii "PLAY"
method_name teardown = ascii "TEARDOWN"
method_name unknown = []

-- `host:port/suffix`, the URL, and the line; `tail` is what stands behind the version.
abbrev pub address_text : Bytes → ℕ → Bytes → Bytes
address_text host port suffix = host ++ 58 ∷ (print_unsigned port ++ 47 ∷ suffix)

abbrev pub url_text : Bytes → Bytes
url_text address = ascii "rtsp://" ++ address

abbrev pub line_text : Method → Bytes → Bytes → Bytes → Bytes
line_text m url version tail = method_name m ++ 32 ∷ (url ++ 32 ∷ (version ++ tail))

scan_with_port-address_text :
    (host : Bytes) (port : ℕ) (suffix : Bytes) (c : RtspConnection)
    → every (λ x. not (x == 58)) host ≡ true
    → 0 < length host
    → length host < 24
    → port < 2 ^ 16
    → every is_black suffix ≡ true
    → 0 < length suffix
    → length suffix < 128
    → scan_with_port (address_text host port suffix) c
      ≡ some (true, record c { ip = host; port = port; suffix = suffix })
unfolding scan_with_port scan_literal
scan_with_port-address_text host port suffix c h h₀ h₁ p s s₀ s₁ =
    let whole : scan_word 128 suffix ≡ matched suffix [] =
      ap (scan_word 128) (sym (append-nil suffix))
      ∙ (scan_word-every 128 suffix [] s refl s₀ s₁).0 in
    ground (
      arith,
      scan_until-every 58 24 host (print_unsigned port ++ 47 ∷ suffix) h h₀ h₁,
      scan_short-print_unsigned port (47 ∷ suffix) p refl,
      whole,
    )

method_name-IsWord :
    (m : Method)
    → m ≢ unknown
    → (every is_black (method_name m) ≡ true)
      × (0 < length (method_name m))
      × (length (method_name m) < 32)
method_name-IsWord options h = (refl, omega arith, omega arith)
method_name-IsWord describe h = (refl, omega arith, omega arith)
method_name-IsWord setup h = (refl, omega arith, omega arith)
method_name-IsWord play h = (refl, omega arith, omega arith)
method_name-IsWord teardown h = (refl, omega arith, omega arith)
method_name-IsWord unknown h = absurd (h refl)

-- The three words of the line.
scan_request-line_text :
    (m : Method) (url version tail : Bytes) (c : RtspConnection)
    → m ≢ unknown
    → every is_black url ≡ true
    → 0 < length url
    → length url < 256
    → every is_black version ≡ true
    → 0 < length version
    → length version < 32
    → ends is_black tail ≡ true
    → scan_request (line_text m url version tail) c
      ≡ some (true, record c { method_buf = method_name m; url = url; version = version })
unfolding scan_request
scan_request-line_text m url version tail c known u u₀ u₁ v v₀ v₁ t =
    let (black, above, below) = method_name-IsWord m known in
    ground (
      arith,
      (scan_word-every 32 (method_name m) (32 ∷ (url ++ 32 ∷ (version ++ tail))) black refl above
          below).0,
      (scan_word-every 256 url (32 ∷ (version ++ tail)) u refl u₀ u₁).1,
      (scan_word-every 32 version tail v t v₀ v₁).1,
    )

parse_by_name :
    (m : Method) (rest : Bytes) (c : RtspConnection)
    → m ≢ unknown
    → parse_request_method (method_name m ++ rest) c
      ≡ parse_request_rest (method_name m ++ rest) (record c { method = m })
unfolding parse_request_method starts_with
parse_by_name options rest c h = refl
parse_by_name describe rest c h = refl
parse_by_name setup rest c h = refl
parse_by_name play rest c h = refl
parse_by_name teardown rest c h = refl
parse_by_name unknown rest c h = absurd (h refl)

address-black :
    (host : Bytes) (port : ℕ) (suffix : Bytes)
    → every is_black host ≡ true
    → every is_black suffix ≡ true
    → every is_black (address_text host port suffix) ≡ true
unfolding print_unsigned
address-black host port suffix h s =
    every-append is_black host (58 ∷ (print_unsigned port ++ 47 ∷ suffix)) h (
      every-append is_black (print_unsigned port) (47 ∷ suffix)
        (digits-black (print_unsigned port) (decimal-every 64 port [] refl)) s)

-- A line of one of the five methods, a URL `rtsp://host:port/suffix` of less than 256 bytes and a
-- version, each separated by a blank, with white space or nothing behind the version: where the host has
-- no colon and the words no white space, the host is below 24 bytes, the suffix below 128, the version
-- below 32, none is empty and the port has 16 bits, the parser accepts the line, overruns no buffer, and
-- stores exactly the method, the three words, and the URL's host, port and suffix.
pub parse_request_method-line_text :
    (m : Method) (host : Bytes) (port : ℕ) (suffix version tail : Bytes) (c : RtspConnection)
    → m ≢ unknown
    → every is_black host ≡ true
    → every (λ x. not (x == 58)) host ≡ true
    → 0 < length host
    → length host < 24
    → port < 2 ^ 16
    → every is_black suffix ≡ true
    → 0 < length suffix
    → length suffix < 128
    → length (url_text (address_text host port suffix)) < 256
    → every is_black version ≡ true
    → 0 < length version
    → length version < 32
    → ends is_black tail ≡ true
    → parse_request_method (line_text m (url_text (address_text host port suffix)) version tail) c
      ≡ some (
        true,
        record c {
          method = m;
          method_buf = method_name m;
          url = url_text (address_text host port suffix);
          version = version;
          ip = host;
          port = port;
          suffix = suffix;
        },
      )
unfolding parse_request_rest parse_address starts_with
parse_request_method-line_text m host port suffix version tail c known hb h h₀ h₁ p s s₀ s₁ u v v₀
      v₁ t =
    let address = address_text host port suffix in
    let url = url_text address in
    let c₁ : RtspConnection = record c { method = m } in
    let c₂ : RtspConnection = record c₁ {
      method_buf = method_name m;
      url = url;
      version = version;
    } in
    parse_by_name m (32 ∷ (url ++ 32 ∷ (version ++ tail))) c known
    ∙ ground (
      arith,
      scan_request-line_text m url version tail c₁ known (address-black host port suffix hb s)
          (omega arith) u v v₀ v₁ t,
      scan_with_port-address_text host port suffix c₂ h h₀ h₁ p s s₀ s₁,
    )
