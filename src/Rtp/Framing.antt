-- ===== src/Rtp/Framing.antt =====
-- What a receiver gets: the header in network order, and packets that a reader of the TCP stream can
-- tell apart by the prefix.
use Prim.Native.Nat.{bit_and}
use zrh_rtsp_server.Prelude.{
  ℕ, zero, suc, ◌+◌, ◌*◌, ◌/◌, ◌%◌, ◌≤◌, ◌<◌, ◌≡◌, refl, sym, ap, true, false, Option, none, some,
  List, [], ◌∷◌, ◌++◌, leb, ◌==◌, if◌then◌else◌, length, take, drop, arith, length-append,
  length-take,
}
use native.Mathlib.Nat.{mod-eq_of_lt}
use zrh_rtsp_server.Bits.{bit_and_high_byte, bit_and_low_byte}
use zrh_rtsp_server.Rtp.{
  RtpHeader, RtpPacket, RtpConnection, send, send_to, header_bytes, rtp_size, from_header,
  send_packet_over_tcp, send_packet_over_udp, send_frame,
}

-- A reader of interleaved data: `$`, the channel, a length of two bytes in network order, and then as
-- many bytes. It gives the channel, the packet and the rest of the stream.
pub read_interleaved : List ℕ → Option (ℕ × List ℕ × List ℕ)
read_interleaved (d ∷ channel ∷ hi ∷ lo ∷ rest) =
    let n = hi * 256 + lo in
    if d == 0x24
    then (if leb n (length rest) then some (channel, take n rest, drop n rest) else none)
    else none
read_interleaved _ = none

take_twelve :
    (n : ℕ) (h : RtpHeader) (payload : List ℕ)
    → take (12 + n) (header_bytes h ++ payload) ≡ header_bytes h ++ take n payload
unfolding header_bytes
take_twelve n h payload =
    ap (λ k. take k (header_bytes h ++ payload)) {x = 12 + n}
      {y = suc (suc (suc (suc (suc (suc (suc (suc (suc (suc (suc (suc n)))))))))))} (omega arith)

length-header_bytes : (h : RtpHeader) (xs : List ℕ) → length (header_bytes h ++ xs) ≡ 12 + length xs
unfolding header_bytes
length-header_bytes h xs = omega arith

-- The packet as it is sent: header and payload.
abbrev pub datagram : RtpPacket → List ℕ
datagram p = header_bytes p.rtp_header ++ take p.size p.payload

pub from_header_lem :
    (p : RtpPacket)
    → p.size ≤ length p.payload
    → p.size ≤ 1402
    → from_header p (rtp_size p) ≡ some (datagram p)
from_header_lem p fits small =
    let n : rtp_size p ≡ 12 + p.size = omega arith in
    rw n (ground (arith, take_twelve p.size p.rtp_header p.payload))

take-append_exact :
    (n : ℕ) (xs ys : List ℕ) → n ≡ length xs → (take n (xs ++ ys) ≡ xs) × (drop n (xs ++ ys) ≡ ys)
take-append_exact zero [] ys h = (refl, refl)
take-append_exact zero (x ∷ xs) ys h = absurd (omega arith)
take-append_exact (suc n) [] ys h = absurd (omega arith)
take-append_exact (suc n) (x ∷ xs) ys h =
    let (t, d) = take-append_exact n xs ys (omega arith) in (ap (◌∷◌ x) t, d)

-- The prefix that TCP puts before a datagram.
abbrev pub interleaved : RtpConnection → RtpPacket → List ℕ
interleaved c p = 0x24 ∷ c.rtp_channel ∷ (12 + p.size) / 256 ∷ (12 + p.size) % 256 ∷ datagram p

-- A live TCP connection sends the datagram behind a prefix of four bytes, and a reader of the stream
-- gets back the channel, the datagram and the rest of the stream; the packet differs only in its
-- prefix. The payload fits its buffer, and the channel is a byte.
pub send_frame_tcp :
    (c : RtpConnection) (p : RtpPacket) (rest : List ℕ)
    → c.alive ≡ true
    → c.is_tcp ≡ true
    → c.rtp_channel < 256
    → p.size ≤ length p.payload
    → p.size ≤ 1402
    → (send_frame c p
        ≡ some
            (record p { prefix = take 4 (interleaved c p) }, send c.sock_fd (interleaved c p) ∷ []))
      × (read_interleaved (interleaved c p ++ rest) ≡ some (c.rtp_channel, datagram p, rest))
unfolding send_frame send_packet_over_tcp read_interleaved
send_frame_tcp c p rest a t ch fits small = (
  ground (
    arith,
    from_header_lem p fits small,
    size,
    high,
    low,
    mod-eq_of_lt {n = c.rtp_channel} {m = 256} ch,
  ),
  rw (count, exact.0, exact.1) (ground (arith, length-append (datagram p) rest, length-datagram)),
)
  where
    size : rtp_size p ≡ 12 + p.size
    size = omega arith

    high : bit_and (rtp_size p) 0xff00 / 256 % 256 ≡ (12 + p.size) / 256
    high = omega (arith, size, bit_and_high_byte (rtp_size p) (omega (arith, size)))

    low : bit_and (rtp_size p) 0xff ≡ (12 + p.size) % 256
    low = omega (arith, size, bit_and_low_byte (rtp_size p) (omega (arith, size)))

    count : (12 + p.size) / 256 * 256 + (12 + p.size) % 256 ≡ 12 + p.size
    count = omega arith

    length-datagram : length (datagram p) ≡ 12 + p.size
    length-datagram = omega (
      arith,
      length-header_bytes p.rtp_header (take p.size p.payload),
      length-take p.size p.payload,
    )

    exact :
        (take (12 + p.size) (datagram p ++ rest) ≡ datagram p)
        × (drop (12 + p.size) (datagram p ++ rest) ≡ rest)
    exact = take-append_exact (12 + p.size) (datagram p) rest (sym length-datagram)

-- A live UDP connection sends the datagram to its peer, and leaves the packet as it is.
pub send_frame_udp :
    (c : RtpConnection) (p : RtpPacket)
    → c.alive ≡ true
    → c.is_tcp ≡ false
    → p.size ≤ length p.payload
    → p.size ≤ 1402
    → send_frame c p ≡ some (p, send_to c.sock_fd c.remote_addr (datagram p) ∷ [])
unfolding send_frame send_packet_over_udp
send_frame_udp c p a t fits small = ground (arith, from_header_lem p fits small)
