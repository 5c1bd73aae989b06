-- ===== src/RtspConnection/Requests.antt =====
-- What a whole request leaves alone.
use mathlib.Core.Path.{subst}
use zrh_rtsp_server.Prelude.{
  ℕ, ◌+◌, ◌*◌, ◌≡◌, refl, sym, ◌∙◌, inl, inr, Bool, true, false, Option, none, some, List, [], ◌∷◌,
  ◌++◌, arith, length, Option-cases, List-cases, replicate,
}
use zrh_rtsp_server.Text.{Bytes, lines, c_str}
use zrh_rtsp_server.Rtp.{RtpConnection}
use zrh_rtsp_server.RtspConnection.{
  RtspConnection, Method, options, describe, setup, play, teardown, unknown, parse_request_method,
}
use zrh_rtsp_server.RtspConnection.Handlers.{
  UdpSockets, handle_options, handle_describe, handle_setup, handle_play, handle_teardown,
  scan_track, setup_track,
}
use zrh_rtsp_server.RtspConnection.Dispatch.{
  ReadResult, read_error, received, Reading, complete, failed, closed, waiting, overflow, read_more,
  overwrite, parse_lines, dispatch, handle_text, terminate, give_up, handle_rtsp_request,
}
use zrh_rtsp_server.RtspServer.{RtspServer}
use zrh_rtsp_server.RtspConnection.Parsing.{
  KeepsFd, KeepsFd₁, parse_lines-KeepsFd, parse_request_method-KeepsFd,
}
use zrh_rtsp_server.RtspConnection.Growth.{
  handle_options-Grows, handle_describe-Grows, handle_play-Grows,
}
use zrh_rtsp_server.RtspConnection.Effects.{
  untouched, HasEffect, Quiet-HasEffect, dis_connect-Effect, handle_describe-Quiet,
  handle_options-Quiet, handle_play-Quiet, handle_teardown-HasEffect, setup_track-HasEffect,
}

-- A handler on a connection of the same descriptor.
at_fd :
    (fd : ℕ) (c : RtspConnection) (s : RtspServer)
    (o o' : Option (Bool × RtspConnection × RtspServer))
    → c.client_fd ≡ fd
    → o' ≡ o
    → HasEffect c.client_fd s o
    → HasEffect fd s o'
at_fd fd c s o o' e step h = subst (HasEffect fd s) (sym step) (subst (λ k. HasEffect k s o) e h)

stays :
    (fd : ℕ) (c : RtspConnection) (b : Bool) (s : RtspServer)
    → c.client_fd ≡ fd
    → HasEffect fd s (some (b, c, s))
stays fd c b s e = record {
  client_fd = e;
  fd2conn = refl;
  managed = λ managed. managed;
  resolved = λ v. v;
  queued = untouched refl refl;
}

scan_track-KeepsFd : (c : RtspConnection) → KeepsFd c.client_fd (scan_track c)
unfolding scan_track
scan_track-KeepsFd c = ground arith

handle_setup-HasEffect :
    (memory : RtpConnection) (sockets : UdpSockets) (c : RtspConnection) (s : RtspServer)
    → HasEffect c.client_fd s (handle_setup memory sockets c s)
unfolding handle_setup
handle_setup-HasEffect memory sockets c s =
    let o = handle_setup memory sockets c s in
    let kept = scan_track-KeepsFd c in
    elim (Option-cases (scan_track c)) [
      | inl e ↦
          let step : o ≡ none = ground (arith, e) in subst (HasEffect c.client_fd s) (sym step) tt
      | inr ((false, c₁), e) ↦
          let step : o ≡ some (false, c₁, s) = ground (arith, e) in
          subst (HasEffect c.client_fd s) (sym step)
            (stays c.client_fd c₁ false s (subst (KeepsFd c.client_fd) e kept))
      | inr ((true, c₁), e) ↦
          let step : o ≡ setup_track memory sockets c₁ s = ground (arith, e) in
          at_fd c.client_fd c₁ s (setup_track memory sockets c₁ s) o
            (subst (KeepsFd c.client_fd) e kept) step (setup_track-HasEffect memory sockets c₁ s)
    ]

switch-HasEffect :
    (m : Method) (time : ℕ) (memory : RtpConnection) (sockets : UdpSockets) (c : RtspConnection)
    (s : RtspServer)
    → HasEffect c.client_fd s (elim m [
      | options ↦ handle_options c s
      | describe ↦ handle_describe time c s
      | setup ↦ handle_setup memory sockets c s
      | play ↦ handle_play c s
      | teardown ↦ handle_teardown c s
      | unknown ↦ some (false, c, s)
    ])
switch-HasEffect options time memory sockets c s =
    Quiet-HasEffect c s (handle_options c s) (handle_options-Quiet c s) (handle_options-Grows c s)
switch-HasEffect describe time memory sockets c s =
    Quiet-HasEffect c s (handle_describe time c s) (handle_describe-Quiet time c s)
      (handle_describe-Grows time c s)
switch-HasEffect setup time memory sockets c s = handle_setup-HasEffect memory sockets c s
switch-HasEffect play time memory sockets c s =
    Quiet-HasEffect c s (handle_play c s) (handle_play-Quiet c s) (handle_play-Grows c s)
switch-HasEffect teardown time memory sockets c s = handle_teardown-HasEffect c s
switch-HasEffect unknown time memory sockets c s = stays c.client_fd c false s refl

pub dispatch-HasEffect :
    (time : ℕ) (memory : RtpConnection) (sockets : UdpSockets) (c : RtspConnection) (s : RtspServer)
    → HasEffect c.client_fd s (dispatch time memory sockets c s)
unfolding dispatch
dispatch-HasEffect time memory sockets c s = switch-HasEffect c.method time memory sockets c s

handle_text-HasEffect :
    (time : ℕ) (memory : RtpConnection) (sockets : UdpSockets) (c : RtspConnection) (s : RtspServer)
    → HasEffect c.client_fd s (handle_text time memory sockets c s)
unfolding handle_text
handle_text-HasEffect time memory sockets c s =
    let fd : ℕ = c.client_fd in
    let o = handle_text time memory sockets c s in
    let others = (lines c.rbuf).1 in
    elim (List-cases (lines c.rbuf).0) [
      | inl e ↦
          let step : o ≡ some (false, c, s) = ground (arith, e) in
          subst (HasEffect fd s) (sym step) (stays fd c false s refl)
      | inr (x, xs, e) ↦
          let line = c_str (x ∷ xs) in
          let kept = parse_request_method-KeepsFd line c in
          elim (Option-cases (parse_request_method line c)) [
            | inl f ↦
                let step : o ≡ none = ground (arith, e, f) in subst (HasEffect fd s) (sym step) tt
            | inr ((false, c₁), f) ↦
                let step : o ≡ some (false, c₁, s) = ground (arith, e, f) in
                subst (HasEffect fd s) (sym step) (stays fd c₁ false s (subst (KeepsFd fd) f kept))
            | inr ((true, c₁), f) ↦
                let own : c₁.client_fd ≡ fd = subst (KeepsFd fd) f kept in
                let behind : List Bytes = elim others [ [] ↦ (x ∷ xs) ∷ [] | l ∷ ls ↦ l ∷ ls ] in
                let kept₁ = parse_lines-KeepsFd behind c₁ in
                elim (Option-cases (parse_lines behind c₁)) [
                  | inl g ↦
                      let step : o ≡ none = ground (arith, e, f, g) in
                      subst (HasEffect fd s) (sym step) tt
                  | inr (c₂, g) ↦
                      let own₂ : c₂.client_fd ≡ c₁.client_fd =
                        subst (KeepsFd₁ c₁.client_fd) g kept₁ in
                      let step : o ≡ dispatch time memory sockets c₂ s = ground (arith, e, f, g) in
                      at_fd fd c₂ s (dispatch time memory sockets c₂ s) o (own₂ ∙ own) step
                        (dispatch-HasEffect time memory sockets c₂ s)
                ]
          ]
    ]

-- The connection that the reading leaves.
abbrev read_by : Reading → RtspConnection
read_by (complete n c) = c
read_by (failed c) = c
read_by (closed c) = c
read_by (waiting c) = c
read_by (overflow c) = c

client_fd-read_more :
    (reads : List ReadResult) (n : ℕ) (c : RtspConnection)
    → (read_by (read_more reads n c)).client_fd ≡ c.client_fd
unfolding read_more
client_fd-read_more [] n c = ground arith
client_fd-read_more (read_error ∷ reads) n c = ground arith
client_fd-read_more (received [] ∷ reads) n c = ground arith
client_fd-read_more (received (x ∷ xs) ∷ reads) n c =
    let grown : RtspConnection = record c {
      rbuf = c.rbuf ++ overwrite (x ∷ xs) (replicate c.buf_size 0);
      buf_size = c.buf_size * 2;
    } in
    ground (arith, client_fd-read_more reads (n + length (x ∷ xs)) grown)

give_up-HasEffect : (c : RtspConnection) (s : RtspServer) → HasEffect c.client_fd s (give_up c s)
give_up-HasEffect c s =
    dis_connect-Effect c.client_fd (record c { alive = false }) s s refl refl refl refl refl refl
      refl

reading-HasEffect :
    (fd : ℕ) (r : Reading) (time : ℕ) (memory : RtpConnection) (sockets : UdpSockets)
    (s : RtspServer)
    → (read_by r).client_fd ≡ fd
    → HasEffect fd s (elim r [
      | complete n c ↦ handle_text time memory sockets (record c { rbuf = terminate n c.rbuf }) s
      | failed c ↦ some (false, c, s)
      | closed c ↦ give_up c s
      | waiting c ↦ none
      | overflow c ↦ none
    ])
reading-HasEffect fd (complete n c) time memory sockets s e =
    let c₁ : RtspConnection = record c { rbuf = terminate n c.rbuf } in
    let o = handle_text time memory sockets c₁ s in
    at_fd fd c₁ s o o e refl (handle_text-HasEffect time memory sockets c₁ s)
reading-HasEffect fd (failed c) time memory sockets s e = stays fd c false s e
reading-HasEffect fd (closed c) time memory sockets s e =
    at_fd fd c s (give_up c s) (give_up c s) e refl (give_up-HasEffect c s)
reading-HasEffect fd (waiting c) time memory sockets s e = tt
reading-HasEffect fd (overflow c) time memory sockets s e = tt

-- A request on a connection leaves its descriptor, the table of connections and the names of sessions as
-- they are, and at most gives up the connection itself, once.
pub handle_rtsp_request-HasEffect :
    (first : ReadResult) (reads : List ReadResult) (time : ℕ) (memory : RtpConnection)
    (sockets : UdpSockets) (c : RtspConnection) (s : RtspServer)
    → HasEffect c.client_fd s (handle_rtsp_request first reads time memory sockets c s)
unfolding handle_rtsp_request
handle_rtsp_request-HasEffect read_error reads time memory sockets c s = give_up-HasEffect c s
handle_rtsp_request-HasEffect (received []) reads time memory sockets c s = give_up-HasEffect c s
handle_rtsp_request-HasEffect (received (x ∷ xs)) reads time memory sockets c s =
    let c₁ : RtspConnection = record c { rbuf = overwrite (x ∷ xs) c.rbuf } in
    reading-HasEffect c.client_fd (read_more reads (length (x ∷ xs)) c₁) time memory sockets s
      (client_fd-read_more reads (length (x ∷ xs)) c₁)
