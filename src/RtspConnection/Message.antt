-- ===== src/RtspConnection/Message.antt =====
-- The lines of a request, from the bytes that `recv` gives to the dispatch.
use zrh_rtsp_server.Prelude.{
  ℕ, suc, ◌+◌, ◌<◌, ◌≡◌, refl, ap, ◌∙◌, Bool, true, not, ◌&&◌, some, List, [], ◌∷◌, ◌++◌, ◌==◌,
  length, take, drop, arith, append_assoc, Option-cases, inl, inr,
}
use zrh_rtsp_server.Text.{Bytes, c_str, lines, starts_with}
use zrh_rtsp_server.Text.Decimal.{every}
use zrh_rtsp_server.Rtp.{RtpConnection}
use zrh_rtsp_server.RtspConnection.{RtspConnection, parse_request_method, parse_request_line}
use zrh_rtsp_server.RtspConnection.Handlers.{UdpSockets}
use zrh_rtsp_server.RtspConnection.Dispatch.{
  received, read_more, parse_lines, dispatch, handle_text, handle_rtsp_request,
}
use zrh_rtsp_server.RtspServer.{RtspServer}

-- What a line is made of.
abbrev pub is_text : ℕ → Bool
is_text x = not (x == 10) && not (x == 0)

abbrev pub is_no_newline : ℕ → Bool
is_no_newline x = not (x == 10)

abbrev pub all_text : List Bytes → Bool
all_text [] = true
all_text (l ∷ ls) = every is_text l && all_text ls

-- Lines, each with its end, and what stands behind the last.
abbrev pub text_of : List Bytes → Bytes → Bytes
text_of [] tail = tail
text_of (l ∷ ls) tail = l ++ 10 ∷ text_of ls tail

lines-line :
    (line rest : Bytes)
    → every is_text line ≡ true
    → lines (line ++ 10 ∷ rest) ≡ (line, (lines rest).0 ∷ (lines rest).1)
unfolding lines
lines-line [] rest h = refl
lines-line (x ∷ line) rest h = ground (arith, lines-line line rest)

lines-last : (t : Bytes) → every is_no_newline t ≡ true → lines t ≡ (t, [])
unfolding lines
lines-last [] h = refl
lines-last (x ∷ t) h = ground (arith, lines-last t)

lines-text_of :
    (l : Bytes) (ls : List Bytes) (tail : Bytes)
    → all_text (l ∷ ls) ≡ true
    → every is_no_newline tail ≡ true
    → lines (text_of (l ∷ ls) tail) ≡ (l, ls ++ tail ∷ [])
lines-text_of l [] tail h t =
    lines-line l tail (ground (arith, h)) ∙ ground (arith, lines-last tail t)
lines-text_of l (k ∷ ls) tail h t =
    lines-line l (text_of (k ∷ ls) tail) (ground (arith, h))
    ∙ ground (arith, lines-text_of k ls tail (ground (arith, h)) t)

pub c_str-text : (line : Bytes) → every is_text line ≡ true → c_str line ≡ line
unfolding c_str
c_str-text [] h = refl
c_str-text (x ∷ line) h = ground (arith, c_str-text line)

-- The last line is empty for `parse_request_line`: it starts with the zero behind the request.
parse_lines-tail :
    (ls : List Bytes) (stale : Bytes) (c c' : RtspConnection)
    → parse_lines ls c ≡ some c'
    → parse_lines (ls ++ (0 ∷ stale) ∷ []) c ≡ some c'
unfolding parse_lines c_str parse_request_line starts_with
parse_lines-tail [] stale c c' h = h
parse_lines-tail (l ∷ ls) stale c c' h = elim (Option-cases (parse_request_line (c_str l) c)) [
  | inl e ↦ absurd (ground (arith, h, e))
  | inr (c₁, e) ↦ ground (arith, e, parse_lines-tail ls stale c₁ c' (ground (arith, h, e)))
]

others_kept :
    (ls : List Bytes) (tail first : Bytes)
    → (elim (ls ++ tail ∷ []) as (λ ks. List Bytes) [ [] ↦ first ∷ [] | k ∷ ks ↦ k ∷ ks ])
      ≡ ls ++ tail ∷ []
others_kept [] tail first = refl
others_kept (l ∷ ls) tail first = refl

-- A request line and header lines in the buffer, up to the dispatch.
pub handle_text-lines :
    (x : ℕ) (xs : Bytes) (ls : List Bytes) (stale : Bytes) (time : ℕ) (memory : RtpConnection)
    (sockets : UdpSockets) (c c₁ c₂ : RtspConnection) (s : RtspServer)
    → all_text ((x ∷ xs) ∷ ls) ≡ true
    → every is_no_newline stale ≡ true
    → c.rbuf ≡ text_of ((x ∷ xs) ∷ ls) (0 ∷ stale)
    → parse_request_method (x ∷ xs) c ≡ some (true, c₁)
    → parse_lines ls c₁ ≡ some c₂
    → handle_text time memory sockets c s ≡ dispatch time memory sockets c₂ s
unfolding handle_text
handle_text-lines x xs ls stale time memory sockets c c₁ c₂ s text old buffer first others =
    let cut : lines c.rbuf ≡ (x ∷ xs, ls ++ (0 ∷ stale) ∷ []) =
      ap lines buffer ∙ lines-text_of (x ∷ xs) ls (0 ∷ stale) text (ground (arith, old)) in
    let same : c_str (x ∷ xs) ≡ x ∷ xs = c_str-text (x ∷ xs) (ground (arith, text)) in
    ground (
      arith,
      cut,
      ap (λ l. parse_request_method l c) same ∙ first,
      others_kept ls (0 ∷ stale) (x ∷ xs),
      parse_lines-tail ls stale c₁ c₂ others,
    )

take-append : (xs ys : Bytes) → take (length xs) (xs ++ ys) ≡ xs
take-append [] ys = refl
take-append (x ∷ xs) ys = ap (◌∷◌ x) (take-append xs ys)

drop-append : (xs ys : Bytes) → drop (length xs + 1) (xs ++ ys) ≡ drop 1 ys
drop-append [] ys = refl
drop-append (x ∷ xs) ys =
    ap (λ n. drop n (x ∷ (xs ++ ys))) {x = suc (length xs) + 1} {y = suc (length xs + 1)}
      (omega arith)
    ∙ drop-append xs ys

pub every-drop : (p : ℕ → Bool) (xs : Bytes) → every p xs ≡ true → every p (drop 1 xs) ≡ true
every-drop p [] h = refl
every-drop p (x ∷ xs) h = ground (arith, h)

pub text_of-append : (ls : List Bytes) (t : Bytes) → text_of ls [] ++ t ≡ text_of ls t
text_of-append [] t = refl
text_of-append (l ∷ ls) t =
    append_assoc l (10 ∷ text_of ls []) t ∙ ap (λ ys. l ++ 10 ∷ ys) (text_of-append ls t)

-- A request that one `recv` gives whole, and that is shorter than the buffer.
pub received-text :
    (y : ℕ) (ys : Bytes) (time : ℕ) (memory : RtpConnection) (sockets : UdpSockets)
    (c : RtspConnection) (s : RtspServer)
    → length (y ∷ ys) < c.buf_size
    → handle_rtsp_request (received (y ∷ ys)) [] time memory sockets c s
      ≡ handle_text time memory sockets
          (record c { rbuf = (y ∷ ys) ++ 0 ∷ drop 1 (drop (length (y ∷ ys)) c.rbuf) })
          s
unfolding handle_rtsp_request read_more
received-text y ys time memory sockets c s short =
    let bytes = y ∷ ys in
    let behind = drop (length bytes) c.rbuf in
    ground (arith, take-append bytes behind, drop-append bytes behind, short)
