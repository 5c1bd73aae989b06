-- ===== src/RtspConnection/Receiving.antt =====
-- The loop that reads a request: the buffer keeps the size that the code takes it to have, and holds
-- what was read, however it was cut into pieces.
use zrh_rtsp_server.Prelude.{
  ℕ, ◌+◌, ◌-◌, ◌*◌, ◌^◌, ◌≤◌, ◌<◌, ◌≢◌, ◌≡◌, true, false, ltb, ltb→lt, Bool-cases, inl, inr, ◌⊎◌,
  sym, ap, ◌∙◌, List, [], ◌∷◌, ◌++◌, length, take, drop, replicate, arith, ℕ_discrete, eq→==, ne→==,
  ap₂, take-append_ge, length-append, length-drop, length-replicate, take_all, take-append_le,
  append-nil, append_assoc,
}
use zrh_rtsp_server.Text.{Bytes}
use zrh_rtsp_server.RtspConnection.{RtspConnection}
use zrh_rtsp_server.RtspConnection.Dispatch.{
  ReadResult, read_error, received, Reading, complete, failed, closed, waiting, overflow, read_more,
  overwrite,
}

-- No read gives more than was asked for, which doubles from one to the next.
abbrev pub Fits : List ReadResult → ℕ → Type 0
Fits [] asked = Unit {0}
Fits (read_error ∷ reads) asked = Unit {0}
Fits (received bytes ∷ reads) asked = (length bytes ≤ asked) × Fits reads (asked * 2)

-- The bytes of the first reads.
abbrev pub gathered : ℕ → List ReadResult → Bytes
gathered ℕ.zero reads = []
gathered (ℕ.suc n) [] = []
gathered (ℕ.suc n) (read_error ∷ reads) = []
gathered (ℕ.suc n) (received bytes ∷ reads) = bytes ++ gathered n reads

-- A buffer of the size that it is said to have, which is an `int`.
abbrev pub IsSized : RtspConnection → Type 0
IsSized c = (length c.rbuf ≡ c.buf_size) × (c.buf_size < 2 ^ 31)

ltb-cases : (a b : ℕ) → ((ltb a b ≡ true) × (a < b)) ⊎ ((ltb a b ≡ false) × (b ≤ a))
ltb-cases a b = elim (Bool-cases (ltb a b)) [
  | inl e ↦ inl (e, ltb→lt a b e)
  | inr e ↦ inr (e, ground (arith, e))
]

-- A finished request: the position of the ending zero lies in the buffer, and before that stands what was
-- there and what the first reads gave. An `int` overflows only with 2 ^ 30 bytes in the buffer.
abbrev pub Holds : Bytes → List ReadResult → Reading → Type 0
Holds before reads (complete n c) =
    IsSized c × (n < c.buf_size) × ((used : ℕ) × (take n c.rbuf ≡ before ++ gathered used reads))
Holds before reads (failed c) = IsSized c
Holds before reads (closed c) = IsSized c
Holds before reads (waiting c) = IsSized c
Holds before reads (overflow c) = IsSized c × (2 ^ 30 ≤ length c.rbuf)

Holds-received :
    (before bytes : Bytes) (reads : List ReadResult) (r : Reading)
    → Holds (before ++ bytes) reads r
    → Holds before (received bytes ∷ reads) r
Holds-received before bytes reads (complete n c) (size, below, (used, held)) =
    (size, below, (ℕ.suc used, held ∙ append_assoc before bytes (gathered used reads)))
Holds-received before bytes reads (failed c) h = h
Holds-received before bytes reads (closed c) h = h
Holds-received before bytes reads (waiting c) h = h
Holds-received before bytes reads (overflow c) h = h

take-grown :
    (n : ℕ) (buffer tmp zeros : Bytes)
    → n ≡ length buffer
    → take (n + length tmp) (buffer ++ (tmp ++ zeros)) ≡ take n buffer ++ tmp
take-grown n buffer tmp zeros e =
    take-append_ge (n + length tmp) buffer (tmp ++ zeros) (omega arith)
    ∙ ap₂ ◌++◌ (sym (take_all n buffer (omega arith))) (
        ap (λ k. take k (tmp ++ zeros)) {x = n + length tmp - length buffer} {y = length tmp}
          (omega arith)
        ∙ take-append_le (length tmp) tmp zeros (omega arith)
        ∙ take_all (length tmp) tmp (omega arith))

length-overwrite :
    (bytes buffer : Bytes)
    → length bytes ≤ length buffer
    → length (overwrite bytes buffer) ≡ length buffer
length-overwrite bytes buffer h =
    omega
      (arith, length-append bytes (drop (length bytes) buffer), length-drop (length bytes) buffer)

-- The buffer behind one more read.
abbrev grow : Bytes → RtspConnection → RtspConnection
grow tmp c = record c {
  rbuf = c.rbuf ++ overwrite tmp (replicate c.buf_size 0);
  buf_size = c.buf_size * 2;
}

length-grow :
    (tmp : Bytes) (c : RtspConnection)
    → length c.rbuf ≡ c.buf_size
    → length tmp ≤ c.buf_size
    → length (grow tmp c).rbuf ≡ c.buf_size * 2
length-grow tmp c size fit =
    let zeros : Bytes = replicate c.buf_size 0 in
    omega (
      arith,
      length-append c.rbuf (overwrite tmp zeros),
      length-overwrite tmp zeros (omega (arith, length-replicate {A = ℕ} c.buf_size 0)),
      length-replicate {A = ℕ} c.buf_size 0,
    )

Holds-complete :
    (reads : List ReadResult) (n : ℕ) (c : RtspConnection)
    → IsSized c
    → n ≤ c.buf_size
    → n ≢ c.buf_size
    → Holds (take n c.rbuf) reads (complete n c)
Holds-complete reads n c size h e = (size, omega arith, (0, sym (append-nil (take n c.rbuf))))

-- From a buffer of the size it is said to have, below 2 ^ 31, with `n` bytes in it, and reads that give no
-- more than was asked for: wherever the loop ends, the buffer has the size that it is said to have, and
-- that size is an `int`. Where it ends with a request, the byte that `rbuf_[n] = '\0'` writes lies in the
-- buffer, and before it stand the bytes that were there and then those of the reads that were made, in
-- order. The additions and doublings of the loop overflow an `int` only once the buffer holds 2 ^ 30 bytes
-- or more.
pub read_more-Holds :
    (reads : List ReadResult) (n : ℕ) (c : RtspConnection)
    → IsSized c
    → n ≤ c.buf_size
    → Fits reads c.buf_size
    → Holds (take n c.rbuf) reads (read_more reads n c)
unfolding read_more
read_more-Holds [] n c size h fits = elim (ℕ_discrete n c.buf_size) [
  | yes e ↦ rw (eq→== n c.buf_size e) size
  | no e ↦ rw (ne→== n c.buf_size e) (Holds-complete [] n c size h e)
]
read_more-Holds (read_error ∷ reads) n c size h fits = elim (ℕ_discrete n c.buf_size) [
  | yes e ↦ rw (eq→== n c.buf_size e) size
  | no e ↦ rw (ne→== n c.buf_size e) (Holds-complete (read_error ∷ reads) n c size h e)
]
read_more-Holds (received [] ∷ reads) n c size h fits = elim (ℕ_discrete n c.buf_size) [
  | yes e ↦ rw (eq→== n c.buf_size e) size
  | no e ↦ rw (ne→== n c.buf_size e) (Holds-complete (received [] ∷ reads) n c size h e)
]
read_more-Holds (received (x ∷ xs) ∷ reads) n c (size, int) h (fit, fits) =
    elim (ℕ_discrete n c.buf_size) [
      | no e ↦
          rw (ne→== n c.buf_size e) (Holds-complete (received (x ∷ xs) ∷ reads) n c (size, int) h e)
      | yes e ↦ elim (ltb-cases (c.buf_size * 2) (2 ^ 31)) [
        | inr (wide, large) ↦ rw (eq→== n c.buf_size e, wide) ((size, int), omega arith)
        | inl (short, doubles) ↦ elim (ltb-cases (n + length (x ∷ xs)) (2 ^ 31)) [
          | inr (wide, large) ↦
              rw (eq→== n c.buf_size e, short, wide) ((size, int), omega (arith, fit))
          | inl (adds, _) ↦
              let grown = grow (x ∷ xs) c in
              let twice = length-grow (x ∷ xs) c size fit in
              let rest : Holds (take (n + length (x ∷ xs)) grown.rbuf) reads
                  (read_more reads (n + length (x ∷ xs)) grown) =
                read_more-Holds reads (n + length (x ∷ xs)) grown (twice, doubles)
                  (omega (arith, fit, e)) fits in
              let zeros : Bytes = replicate c.buf_size 0 in
              let same =
                take-grown n c.rbuf (x ∷ xs) (drop (length (x ∷ xs)) zeros) (omega arith) in
              rw (eq→== n c.buf_size e, short, adds)
                (Holds-received (take n c.rbuf) (x ∷ xs) reads
                  (read_more reads (n + length (x ∷ xs)) grown) (rw same at rest))
        ]
      ]
    ]
