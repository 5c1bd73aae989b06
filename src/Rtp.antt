-- ===== src/Rtp.antt =====
-- include/live/Rtp.h and src/live/Rtp.cpp: an RTP packet in memory, and the connection that frames it
-- for TCP or sends it by UDP. The host is little-endian, and `sizeof(RtpPacket)` is 24.
mod Tests
pub mod Framing
use Prim.Native.Nat.{bit_and}
use zrh_rtsp_server.Prelude.{
  ℕ, ◌+◌, ◌-◌, ◌*◌, ◌/◌, ◌%◌, ◌^◌, Bool, true, false, Option, none, some, List, [], ◌∷◌, ◌++◌, leb,
  if◌then◌else◌, length, take,
}

abbrev pub rtp_max_pkt_size : ℕ
rtp_max_pkt_size = 1400

abbrev pub rtp_header_size : ℕ
rtp_header_size = 12

-- `RtpHeader`, a field of the record for each bit field.
pub record RtpHeader : Type 0 where
  pub csrc_len : ℕ
  pub extension : ℕ
  pub padding : ℕ
  pub version : ℕ
  pub payload_type : ℕ
  pub marker : ℕ
  pub seq : ℕ
  pub timestamp : ℕ
  pub ssrc : ℕ

-- `RtpPacket`; `payload` is all the memory behind the header that belongs to the packet's buffer.
pub record RtpPacket : Type 0 where
  pub size : ℕ
  pub prefix : List ℕ
  pub rtp_header : RtpHeader
  pub payload : List ℕ

-- `htons` and `htonl` on a little-endian host.
abbrev pub htons : ℕ → ℕ
htons x = x % 256 * 256 + x / 256 % 256

abbrev pub htonl : ℕ → ℕ
htonl x = x % 256 * 2 ^ 24 + x / 256 % 256 * 2 ^ 16 + x / 2 ^ 16 % 256 * 256 + x / 2 ^ 24 % 256

-- How a little-endian host lays a word and the header out in memory.
abbrev pub bytes16 : ℕ → List ℕ
bytes16 x = x % 256 ∷ x / 256 % 256 ∷ []

abbrev pub bytes32 : ℕ → List ℕ
bytes32 x = x % 256 ∷ x / 256 % 256 ∷ x / 2 ^ 16 % 256 ∷ x / 2 ^ 24 % 256 ∷ []

unfoldable pub header_bytes : RtpHeader → List ℕ
header_bytes h =
    (h.csrc_len + h.extension * 16 + h.padding * 32 + h.version * 64)
    ∷ (h.payload_type + h.marker * 128)
    ∷ (bytes16 h.seq ++ (bytes32 h.timestamp ++ bytes32 h.ssrc))

-- An address: host and port.
abbrev pub Address : Type 0
Address = ℕ × ℕ

-- The fields of `RtpConnection`.
pub record RtpConnection : Type 0 where
  pub sock_fd : ℕ
  pub rtcp_sock_fd : ℕ
  pub alive : Bool
  pub rtp_channel : ℕ
  pub is_tcp : Bool
  pub remote_rtp_port : ℕ
  pub remote_rtcp_port : ℕ
  pub local_rtp_port : ℕ
  pub local_rtcp_port : ℕ
  pub remote_addr : Address

-- What goes to the kernel: the bytes of a `send`, or of a `sendto`.
pub data Transmission : Type 0 where
  send : ℕ → List ℕ → Transmission
  send_to : ℕ → Address → List ℕ → Transmission

-- `setAlive`.
unfoldable pub set_alive : RtpConnection → Bool → RtpConnection
set_alive c alive = record c { alive = alive }

-- `RTP_HEADER_SIZE + rtpPacket->size` as a `uint32_t`.
abbrev pub rtp_size : RtpPacket → ℕ
rtp_size p = (rtp_header_size + p.size) % 2 ^ 32

-- The first `n` bytes from the header on; `none` is a read past the packet's buffer.
abbrev pub from_header : RtpPacket → ℕ → Option (List ℕ)
from_header p n =
    if leb n (rtp_header_size + length p.payload)
    then some (take n (header_bytes p.rtp_header ++ p.payload))
    else none

-- `SendPacketOverTcp`: the packet with its prefix filled in, and what is sent.
unfoldable pub send_packet_over_tcp : RtpConnection → RtpPacket → Option (RtpPacket × Transmission)
send_packet_over_tcp c p =
    let n = rtp_size p in
    let prefix = 0x24 ∷ c.rtp_channel % 256 ∷ bit_and n 0xff00 / 256 % 256 ∷ bit_and n 0xff ∷ [] in
    elim (from_header p n) [
      | none ↦ none
      | some bytes ↦ some (record p { prefix = prefix }, send c.sock_fd (prefix ++ bytes))
    ]

-- `SendPacketOverUdp`.
unfoldable pub send_packet_over_udp : RtpConnection → RtpPacket → Option (RtpPacket × Transmission)
send_packet_over_udp c p = elim (from_header p (rtp_size p)) [
  | none ↦ none
  | some bytes ↦ some (p, send_to c.sock_fd c.remote_addr bytes)
]

-- `SendFrame`: a connection that is not alive sends nothing.
unfoldable pub send_frame : RtpConnection → RtpPacket → Option (RtpPacket × List Transmission)
send_frame c p =
    let packet = if c.is_tcp then send_packet_over_tcp c p else send_packet_over_udp c p in
    if c.alive then elim packet [ none ↦ none | some (p', t) ↦ some (p', t ∷ []) ] else some (p, [])
