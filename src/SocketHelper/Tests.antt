-- ===== src/SocketHelper/Tests.antt =====
-- Opening sockets.
use zrh_rtsp_server.Prelude.{
  ◌≡◌, ◌≤◌, ◌<◌, refl, true, false, none, some, List, [], ◌∷◌, ◌++◌, ◌==◌, if◌then◌else◌, length,
}
use zrh_rtsp_server.RingBuffer.{minus_one_int}
use zrh_rtsp_server.SocketHelper.{
  Candidate, no_socket, unbound, bound, open_listenfd, bind_first, port_start, port_end,
  random_port, netstat_command, no_descriptor, exited, opened, open_client_udp,
}
use zrh_rtsp_server.SocketHelper.Listening.{sockets, open_listenfd-bound}
use zrh_rtsp_server.SocketHelper.Ports.{open_client_udp-port}

abbrev before : List Candidate
before = unbound 3 ∷ no_socket ∷ []

-- With no address at all `listen` gets what `listenfd` held.
no_candidates : open_listenfd (some []) (λ fd. true) 77 ≡ (77, [])
unfolding open_listenfd bind_first
no_candidates = refl

open_listenfd-bound_example :
    (open_listenfd (some (before ++ bound 4 ∷ [])) (λ fd. fd == 4) 0
      ≡ (if 4 == 4 then (4, sockets before []) else (minus_one_int, 4 ∷ sockets before [])))
    × (open_listenfd (some (before ++ unbound 4 ∷ [])) (λ fd. fd == 4) 0 ≡ (
        if 4 == 4 then (4, 4 ∷ sockets before []) else (minus_one_int, 4 ∷ 4 ∷ sockets before [])))
open_listenfd-bound_example = open_listenfd-bound before 4 [] (λ fd. fd == 4) 0 refl

open_client_udp-port_example :
    (port_start ≤ random_port 20000)
    × (random_port 20000 ≤ port_end)
    × (length (netstat_command (random_port 20000)) < 64)
    × (open_client_udp ((5, false) ∷ (20000, true) ∷ []) (some 9) (λ port. true)
        ≡ some (random_port 20000, if true then opened 9 else exited 9))
    × (open_client_udp ((5, false) ∷ (20000, true) ∷ []) none (λ port. true)
        ≡ some (random_port 20000, no_descriptor))
open_client_udp-port_example = open_client_udp-port ((5, false) ∷ []) 20000 [] 9 (λ port. true) refl
