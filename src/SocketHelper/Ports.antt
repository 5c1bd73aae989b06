-- ===== src/SocketHelper/Ports.antt =====
-- The ports of the UDP sockets.
use zrh_rtsp_server.Prelude.{
  ℕ, zero, suc, ◌+◌, ◌%◌, ◌/◌, ◌^◌, ◌≤◌, ◌<◌, ◌≡◌, refl, Bool, true, false, none, some, List, [],
  ◌∷◌, ◌++◌, if◌then◌else◌, arith, length, length-append,
}
use zrh_rtsp_server.Text.{Bytes, ascii, print_unsigned, decimal}
use zrh_rtsp_server.SocketHelper.{
  port_start, port_end, random_port, netstat_command, choose_port, no_descriptor, exited, opened,
  open_client_udp,
}

-- A number below a power of ten has no more digits than the exponent says.
length-decimal :
    (digits fuel n : ℕ) (last : Bytes)
    → n < 10 ^ suc digits
    → length (decimal fuel n last) ≤ suc digits + length last
unfolding decimal
length-decimal digits zero n last h = omega arith
length-decimal zero (suc fuel) n last h = ground arith
length-decimal (suc digits) (suc fuel) n last h =
    let shorter : n / 10 < 10 ^ suc digits = omega arith in
    ground (arith, length-decimal digits fuel (n / 10) ((48 + n % 10) ∷ last) shorter)

abbrev pub none_free : List (ℕ × Bool) → Bool
none_free [] = true
none_free ((rand, free) ∷ rounds) = if free then false else none_free rounds

choose_port-append :
    (before : List (ℕ × Bool)) (rand : ℕ) (after : List (ℕ × Bool))
    → none_free before ≡ true
    → choose_port (before ++ (rand, true) ∷ after) ≡ some (random_port rand)
unfolding choose_port
choose_port-append [] rand after h = refl
choose_port-append ((other, true) ∷ before) rand after h = absurd (ground arith)
choose_port-append ((other, false) ∷ before) rand after h = choose_port-append before rand after h

-- Where the first port that is free is that of the number `rand`: the loop of `OpenClientUdp` ends
-- there, the port is one of the dynamic ports from 49152 to 65535, the command that tests it fits its
-- buffer of 64 bytes with the ending zero, and the function stores the port and binds the socket, if
-- there is one, to it.
pub open_client_udp-port :
    (before : List (ℕ × Bool)) (rand : ℕ) (after : List (ℕ × Bool)) (fd : ℕ) (binds : ℕ → Bool)
    → none_free before ≡ true
    → (port_start ≤ random_port rand)
      × (random_port rand ≤ port_end)
      × (length (netstat_command (random_port rand)) < 64)
      × (open_client_udp (before ++ (rand, true) ∷ after) (some fd) binds
          ≡ some (random_port rand, if binds (random_port rand) then opened fd else exited fd))
      × (open_client_udp (before ++ (rand, true) ∷ after) none binds
          ≡ some (random_port rand, no_descriptor))
unfolding open_client_udp netstat_command print_unsigned
open_client_udp-port before rand after fd binds h = (
  omega arith,
  omega arith,
  omega (
    arith,
    length-decimal 4 64 (random_port rand) [] (omega arith),
    length-append (print_unsigned (random_port rand)) (ascii " > /dev/null"),
  ),
  ground (arith, choose_port-append before rand after h),
  ground (arith, choose_port-append before rand after h),
)
