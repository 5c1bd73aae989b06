-- ===== src/SocketHelper/Calls.antt =====
-- The functions of src/helper/SocketHelper.cpp that make one system call and log its failure. What the
-- call gives is an argument, `none` where it fails; -1 is the pattern of ones.
use zrh_rtsp_server.Prelude.{ℕ, Bool, Option, none, some, ◌==◌, if◌then◌else◌}
use zrh_rtsp_server.RingBuffer.{minus_one_int}

-- `Close` and `Setsockopt`: whether `close` and `setsockopt` succeed.
abbrev pub close_fd : Bool → ℕ
close_fd succeeds = if succeeds then 0 else minus_one_int

abbrev pub set_sock_opt : Bool → ℕ
set_sock_opt succeeds = if succeeds then 0 else minus_one_int

-- `Freeaddrinfo`.
abbrev pub free_addr_info : ℕ
free_addr_info = 0

-- `Getaddrinfo`: an error's number is not passed on.
abbrev pub get_addr_info : ℕ → ℕ
get_addr_info ret = if ret == 0 then ret else minus_one_int

-- `Accept`.
abbrev pub accept_fd : Option ℕ → ℕ
accept_fd none = minus_one_int
accept_fd (some connfd) = connfd

-- `Write` and `SendTo`: the number of bytes, which may be less than were given.
abbrev pub write_fd : Option ℕ → ℕ
write_fd none = minus_one_int
write_fd (some n) = n

abbrev pub send_to_address : Option ℕ → ℕ
send_to_address none = minus_one_int
send_to_address (some n) = n

-- `Getsockname` and `GetPeerName`.
abbrev pub get_sock_name : Bool → ℕ
get_sock_name succeeds = if succeeds then 0 else minus_one_int

abbrev pub get_peer_name : Bool → ℕ
get_peer_name succeeds = if succeeds then 0 else minus_one_int
