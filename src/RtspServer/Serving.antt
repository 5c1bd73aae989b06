-- ===== src/RtspServer/Serving.antt =====
-- What serving the ready descriptors of one turn keeps.
use mathlib.Core.Path.{subst}
use zrh_rtsp_server.Prelude.{
  ℕ, ◌+◌, ◌<◌, ◌≡◌, ◌≢◌, refl, sym, ap, ◌∙◌, Bool, true, false, none, some, List, [], ◌∷◌, ◌++◌,
  map, ◌==◌, if◌then◌else◌, length, arith, ℕ_discrete, Option-cases, length-append, inl, inr,
}
use zrh_rtsp_server.FdMap.{find_fd, set_fd, find-set_fd}
use zrh_rtsp_server.RtspConnection.{RtspConnection}
use zrh_rtsp_server.RtspConnection.Dispatch.{handle_rtsp_request}
use zrh_rtsp_server.RtspConnection.Effects.{Queued, untouched, gave_up, Effect, HasEffect}
use zrh_rtsp_server.RtspConnection.Requests.{handle_rtsp_request-HasEffect}
use zrh_rtsp_server.RtspServer.{RtspServer, accepted, handle_read}
use zrh_rtsp_server.RtspServer.Closing.{Managed, mem_fd}
use zrh_rtsp_server.RtspServer.Pointers.{NoDangling}
use zrh_rtsp_server.RtspServer.Loop.{Arrival, connects, requests, fd_of, serve, serve_all}

abbrev pub all_distinct : List ℕ → Bool
all_distinct [] = true
all_distinct (x ∷ xs) = if mem_fd x xs then false else all_distinct xs

pub mem_fd-append :
    (x y : ℕ) (xs : List ℕ) → mem_fd x (xs ++ y ∷ []) ≡ (if mem_fd x xs then true else x == y)
mem_fd-append x y [] = ground arith
mem_fd-append x y (z ∷ xs) = ground (arith, mem_fd-append x y xs)

all_distinct-append :
    (y : ℕ) (xs : List ℕ)
    → mem_fd y xs ≡ false
    → all_distinct xs ≡ true
    → all_distinct (xs ++ y ∷ []) ≡ true
all_distinct-append y [] h k = refl
all_distinct-append y (z ∷ xs) h k = ground (arith, mem_fd-append z y xs, all_distinct-append y xs)

-- A descriptor of a client, with its connection in the table.
abbrev pub IsClient : ℕ → RtspConnection → Type 0
IsClient fd c = (c.client_fd ≡ fd) × (0 < fd) × (fd < 0x80000000)

abbrev AllClients : List (ℕ × RtspConnection) → Type 0
AllClients conns = (fd : ℕ) (c : RtspConnection) → find_fd fd conns ≡ some c → IsClient fd c

-- Between two turns.
pub record IsSound (s : RtspServer) : Type 0 where
  pub clients : AllClients s.fd2conn
  pub managed : Managed s
  pub nothing_to_close : s.disconnect_list ≡ []
  pub no_trigger : s.triggers ≡ 0

-- Within a turn.
pub record IsServing (s : RtspServer) : Type 0 where
  pub clients : AllClients s.fd2conn
  pub managed : Managed s
  pub listed :
      (fd : ℕ)
      → mem_fd fd s.disconnect_list ≡ true
      → (c : RtspConnection) × (find_fd fd s.fd2conn ≡ some c)
  pub distinct : all_distinct s.disconnect_list ≡ true
  pub triggered : s.triggers ≡ (if length s.disconnect_list == 0 then 0 else 1)

pub IsSound-IsServing : (s : RtspServer) → IsSound s → IsServing s
IsSound-IsServing s v = record {
  clients = v.clients;
  managed = v.managed;
  listed = λ fd h. absurd (ground (arith, h, ap (mem_fd fd) v.nothing_to_close));
  distinct = ap all_distinct v.nothing_to_close;
  triggered = ground (arith, v.no_trigger, v.nothing_to_close);
}

-- Any arrival puts one connection into the table and may give it up.
record Served (fd : ℕ) (c : RtspConnection) (s s' : RtspServer) : Type 0 where
  client : IsClient fd c
  fd2conn : s'.fd2conn ≡ set_fd fd c s.fd2conn
  managed : Managed s'
  resolved : NoDangling s → NoDangling s'
  queued : Queued fd s s'

find-Served :
    (fd : ℕ) (c : RtspConnection) (s s' : RtspServer)
    → Served fd c s s'
    → (other : ℕ)
    → find_fd other s'.fd2conn ≡ (if other == fd then some c else find_fd other s.fd2conn)
find-Served fd c s s' v other = ap (find_fd other) v.fd2conn ∙ find-set_fd fd other c s.fd2conn

mem_fd-Served :
    (fd : ℕ) (s s' : RtspServer)
    → Queued fd s s'
    → (other : ℕ) → other ≢ fd
    → mem_fd other s'.disconnect_list ≡ mem_fd other s.disconnect_list
mem_fd-Served fd s s' (untouched l t) other ne = ap (mem_fd other) l
mem_fd-Served fd s s' (gave_up l t) other ne =
    ap (mem_fd other) l ∙ ground (arith, mem_fd-append other fd s.disconnect_list)

Queued-triggered :
    (fd : ℕ) (s s' : RtspServer)
    → Queued fd s s'
    → s.triggers ≡ (if length s.disconnect_list == 0 then 0 else 1)
    → s'.triggers ≡ (if length s'.disconnect_list == 0 then 0 else 1)
Queued-triggered fd s s' (untouched l t) h = ground (arith, l, t, h)
Queued-triggered fd s s' (gave_up l t) h =
    let longer : length s'.disconnect_list ≡ length s.disconnect_list + 1 =
      ap length l ∙ length-append s.disconnect_list (fd ∷ []) in
    ground (arith, longer, t, h)

Queued-distinct :
    (fd : ℕ) (s s' : RtspServer)
    → Queued fd s s'
    → mem_fd fd s.disconnect_list ≡ false
    → all_distinct s.disconnect_list ≡ true
    → all_distinct s'.disconnect_list ≡ true
Queued-distinct fd s s' (untouched l t) h k = ap all_distinct l ∙ k
Queued-distinct fd s s' (gave_up l t) h k =
    ap all_distinct l ∙ all_distinct-append fd s.disconnect_list h k

Served-IsServing :
    (fd : ℕ) (c : RtspConnection) (s s' : RtspServer)
    → Served fd c s s'
    → mem_fd fd s.disconnect_list ≡ false
    → IsServing s
    → IsServing s'
Served-IsServing fd c s s' v new i = record {
  clients = λ other c' h.
      let found = find-Served fd c s s' v other in
      let (own, above, below) = v.client in
      elim (ℕ_discrete other fd) [
        | yes e ↦
            let same : c' ≡ c = ground (arith, h, found, e) in
            (
              ap (λ (k : RtspConnection). k.client_fd) same ∙ own ∙ sym e,
              omega (arith, e, above),
              omega (arith, e, below),
            )
        | no ne ↦ i.clients other c' (ground (arith, h, found, ne))
      ];
  managed = v.managed;
  listed = λ other h.
      let found = find-Served fd c s s' v other in
      elim (ℕ_discrete other fd) [
        | yes e ↦ (c, ground (arith, found, e))
        | no ne ↦
            let (c', there) = i.listed other (sym (mem_fd-Served fd s s' v.queued other ne) ∙ h) in
            (c', ground (arith, found, ne, there))
      ];
  distinct = Queued-distinct fd s s' v.queued new i.distinct;
  triggered = Queued-triggered fd s s' v.queued i.triggered;
}

-- `Accept` gives a descriptor that no open connection has.
abbrev pub IsFresh : Arrival → RtspServer → Type 0
IsFresh (connects fd memory) s = (find_fd fd s.fd2conn ≡ none) × (0 < fd) × (fd < 0x80000000)
IsFresh (requests fd first reads time memory sockets) s = Unit

abbrev pub AllFresh : List Arrival → RtspServer → Type 0
AllFresh [] s = Unit
AllFresh (a ∷ arrivals) s = IsFresh a s × AllFresh arrivals s

serve-Served :
    (a : Arrival) (s s' : RtspServer)
    → IsServing s
    → IsFresh a s
    → serve a s ≡ some s'
    → (c : RtspConnection) × Served (fd_of a) c s s'
unfolding serve handle_read
serve-Served (connects fd memory) s s' i (free, above, below) run =
    let c = accepted fd memory s in
    let same : s' ≡ record s { watched = fd ∷ s.watched; fd2conn = set_fd fd c s.fd2conn } =
      ground (arith, run, free) in
    (
      c,
      rw same (record {
        client = (refl, above, below);
        fd2conn = refl;
        managed = i.managed;
        resolved = λ resolved. resolved;
        queued = untouched refl refl;
      }),
    )
serve-Served (requests fd first reads time memory sockets) s s' i fresh run =
    elim (Option-cases (find_fd fd s.fd2conn)) [
      | inl e ↦ absurd (ground (arith, run, e))
      | inr (c, e) ↦
          let (own, above, below) = i.clients fd c e in
          let effect = handle_rtsp_request-HasEffect first reads time memory sockets c s in
          elim (Option-cases (handle_rtsp_request first reads time memory sockets c s)) [
            | inl f ↦ absurd (ground (arith, run, e, f))
            | inr ((b, c', s₁), f) ↦
                let same : s' ≡ record s₁ { fd2conn = set_fd fd c' s₁.fd2conn } =
                  ground (arith, run, e, f) in
                let done : Effect c.client_fd c' s s₁ = subst (HasEffect c.client_fd s) f effect in
                let queued : Queued fd s s₁ = subst (λ k. Queued k s s₁) own done.queued in
                (
                  c',
                  rw same (record {
                    client = (done.client_fd ∙ own, above, below);
                    fd2conn = ap (set_fd fd c') done.fd2conn;
                    managed = done.managed i.managed;
                    resolved = done.resolved;
                    queued = elim queued [
                      | untouched l t ↦ untouched l t
                      | gave_up l t ↦ gave_up l t
                    ];
                  }),
                )
          ]
    ]

AllFresh-Served :
    (arrivals : List Arrival) (fd : ℕ) (c : RtspConnection) (s s' : RtspServer)
    → Served fd c s s'
    → mem_fd fd (map fd_of arrivals) ≡ false
    → AllFresh arrivals s
    → AllFresh arrivals s'
AllFresh-Served [] fd c s s' v new fresh = tt
AllFresh-Served (connects other memory ∷ arrivals) fd c s s' v new ((free, above, below), fresh) = (
  (ground (arith, find-Served fd c s s' v other, free, new), above, below),
  AllFresh-Served arrivals fd c s s' v (ground (arith, new)) fresh,
)
AllFresh-Served (requests other first reads time memory sockets ∷ arrivals) fd c s s' v new
      (free, fresh) =
    (tt, AllFresh-Served arrivals fd c s s' v (ground (arith, new)) fresh)

pub serve_all-IsServing :
    (arrivals : List Arrival) (s s' : RtspServer)
    → IsServing s
    → all_distinct (map fd_of arrivals) ≡ true
    → ((fd : ℕ) → mem_fd fd (map fd_of arrivals) ≡ true → mem_fd fd s.disconnect_list ≡ false)
    → AllFresh arrivals s
    → serve_all arrivals s ≡ some s'
    → IsServing s' × (NoDangling s → NoDangling s')
unfolding serve_all
serve_all-IsServing [] s s' i distinct apart fresh run =
    let same : s' ≡ s = ground (arith, run) in rw same (i, λ resolved. resolved)
serve_all-IsServing (a ∷ arrivals) s s' i distinct apart (free, fresh) run =
    elim (Option-cases (serve a s)) [
      | inl e ↦ absurd (ground (arith, run, e))
      | inr (s₁, e) ↦
          let fd = fd_of a in
          let (c, v) = serve-Served a s s₁ i free e in
          let new : mem_fd fd (map fd_of arrivals) ≡ false = ground (arith, distinct) in
          let i₁ = Served-IsServing fd c s s₁ v (apart fd (ground arith)) i in
          let (i', more) =
            serve_all-IsServing arrivals s₁ s' i₁ (ground (arith, distinct))
              (λ other h. elim (ℕ_discrete other fd) [
                | yes same ↦
                    absurd (ground (arith, h, new, ap (λ k. mem_fd k (map fd_of arrivals)) same))
                | no ne ↦ mem_fd-Served fd s s₁ v.queued other ne ∙ apart other (ground (arith, h))
              ])
              (AllFresh-Served arrivals fd c s s₁ v new fresh) (ground (arith, run, e)) in
          (i', λ resolved. more (v.resolved resolved))
    ]
