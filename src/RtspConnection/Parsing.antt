-- ===== src/RtspConnection/Parsing.antt =====
-- The parser keeps the descriptor of the connection.
use mathlib.Core.Path.{subst}
use zrh_rtsp_server.Prelude.{
  ℕ, ◌≡◌, refl, sym, ◌∙◌, inl, inr, Bool, false, Option, none, some, List, [], ◌∷◌, arith,
  Option-cases, drop,
}
use zrh_rtsp_server.Text.{Bytes, c_str}
use zrh_rtsp_server.RtspConnection.{
  RtspConnection, Method, options, describe, setup, play, teardown, unknown, scan_request,
  scan_with_port, scan_without_port, parse_address, parse_request_rest, parse_request_method,
  scan_channels, method_of, parse_request_line,
}
use zrh_rtsp_server.RtspConnection.Dispatch.{parse_lines}

-- A parser's result keeps the descriptor.
abbrev pub KeepsFd : ℕ → Option (Bool × RtspConnection) → Type 0
KeepsFd fd none = Unit {0}
KeepsFd fd (some (b, c)) = c.client_fd ≡ fd

abbrev pub KeepsFd₁ : ℕ → Option RtspConnection → Type 0
KeepsFd₁ fd none = Unit {0}
KeepsFd₁ fd (some c) = c.client_fd ≡ fd

KeepsFd₁-trans :
    (fd fd' : ℕ) (o : Option RtspConnection) → fd' ≡ fd → KeepsFd₁ fd' o → KeepsFd₁ fd o
KeepsFd₁-trans fd fd' none e h = tt
KeepsFd₁-trans fd fd' (some c) e h = h ∙ e

scan_request-KeepsFd :
    (line : Bytes) (c : RtspConnection) → KeepsFd c.client_fd (scan_request line c)
unfolding scan_request
scan_request-KeepsFd line c = ground arith

scan_with_port-KeepsFd : (t : Bytes) (c : RtspConnection) → KeepsFd c.client_fd (scan_with_port t c)
unfolding scan_with_port
scan_with_port-KeepsFd t c = ground arith

scan_without_port-KeepsFd :
    (t : Bytes) (c : RtspConnection) → KeepsFd c.client_fd (scan_without_port t c)
unfolding scan_without_port
scan_without_port-KeepsFd t c = ground arith

parse_address-KeepsFd : (t : Bytes) (c : RtspConnection) → KeepsFd₁ c.client_fd (parse_address t c)
unfolding parse_address
parse_address-KeepsFd t c = elim (Option-cases (scan_with_port t c)) [
  | inl e ↦ ground (arith, e)
  | inr ((b, c₁), e) ↦
      let kept : c₁.client_fd ≡ c.client_fd = rw e at (scan_with_port-KeepsFd t c) in
      let kept₂ = scan_without_port-KeepsFd t c₁ in
      elim (Option-cases (scan_without_port t c₁)) [
        | inl f ↦ ground (arith, e, f)
        | inr ((b', c₂), f) ↦
            let kept' : c₂.client_fd ≡ c₁.client_fd = rw f at kept₂ in ground (arith, e, f)
      ]
]

parse_request_rest-KeepsFd :
    (line : Bytes) (c : RtspConnection) → KeepsFd c.client_fd (parse_request_rest line c)
unfolding parse_request_rest
parse_request_rest-KeepsFd line c = elim (Option-cases (scan_request line c)) [
  | inl e ↦ ground (arith, e)
  | inr ((b, c₁), e) ↦
      let kept : c₁.client_fd ≡ c.client_fd = rw e at (scan_request-KeepsFd line c) in
      let address = drop 7 c₁.url in
      let kept₂ = parse_address-KeepsFd address c₁ in
      elim (Option-cases (parse_address address c₁)) [
        | inl f ↦ ground (arith, e, f)
        | inr (c₂, f) ↦
            let kept' : c₂.client_fd ≡ c₁.client_fd = rw f at kept₂ in ground (arith, e, f)
      ]
]

by_method-KeepsFd :
    (m : Method) (line : Bytes) (c : RtspConnection)
    → KeepsFd c.client_fd (
        let c₁ = record c { method = m } in
        elim m [ unknown ↦ some (false, c₁) | _ ↦ parse_request_rest line c₁ ])
by_method-KeepsFd options line c = parse_request_rest-KeepsFd line (record c { method = options })
by_method-KeepsFd describe line c = parse_request_rest-KeepsFd line (record c { method = describe })
by_method-KeepsFd setup line c = parse_request_rest-KeepsFd line (record c { method = setup })
by_method-KeepsFd play line c = parse_request_rest-KeepsFd line (record c { method = play })
by_method-KeepsFd teardown line c = parse_request_rest-KeepsFd line (record c { method = teardown })
by_method-KeepsFd unknown line c = refl

pub parse_request_method-KeepsFd :
    (line : Bytes) (c : RtspConnection) → KeepsFd c.client_fd (parse_request_method line c)
unfolding parse_request_method
parse_request_method-KeepsFd line c = by_method-KeepsFd (method_of line) line c

parse_request_line-KeepsFd :
    (line : Bytes) (c : RtspConnection) → KeepsFd₁ c.client_fd (parse_request_line line c)
unfolding parse_request_line scan_channels
parse_request_line-KeepsFd line c = ground arith

pub parse_lines-KeepsFd :
    (ls : List Bytes) (c : RtspConnection) → KeepsFd₁ c.client_fd (parse_lines ls c)
unfolding parse_lines
parse_lines-KeepsFd [] c = refl
parse_lines-KeepsFd (l ∷ ls) c = elim (Option-cases (parse_request_line (c_str l) c)) [
  | inl e ↦ ground (arith, e)
  | inr (c₁, e) ↦
      let kept : c₁.client_fd ≡ c.client_fd = rw e at (parse_request_line-KeepsFd (c_str l) c) in
      let step : parse_lines (l ∷ ls) c ≡ parse_lines ls c₁ = ground (arith, e) in
      subst (KeepsFd₁ c.client_fd) (sym step) (
        KeepsFd₁-trans c.client_fd c₁.client_fd (parse_lines ls c₁) kept
          (parse_lines-KeepsFd ls c₁))
]
