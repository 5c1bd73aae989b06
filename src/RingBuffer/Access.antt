-- ===== src/RingBuffer/Access.antt =====
-- Code that uses the ring buffer through its iterators, as the two media sources do.
use zrh_rtsp_server.Prelude.{ℕ, Option, none, some}
use zrh_rtsp_server.RingBuffer.{RingBuffer, Iterator, dereference, increment, advance}

-- `none` is a read outside of the arrays, an exception, or a loop that ran out of fuel.
abbrev pub M : Type 0 → Type 0
M Result = (buffer : RingBuffer) → Option (Result × RingBuffer)

abbrev pub pure : {Result : Type 0} → Result → M Result
pure result buffer = some (result, buffer)

infixl 5 ◌>>=◌
abbrev pub ◌>>=◌ : {Result Next : Type 0} → M Result → (Result → M Next) → M Next
◌>>=◌ first rest buffer = elim (first buffer) [ some run ↦ rest run.0 run.1 | none ↦ none ]

-- `*it`, `*(it + n)`, `it += n` and `++it`.
abbrev pub read : Iterator → M ℕ
read it b = elim (dereference it b) [ none ↦ none | some x ↦ some (x, b) ]

abbrev pub plus : Iterator → ℕ → M Iterator
plus it n b = some (advance n (it, b))

abbrev pub read_plus : Iterator → ℕ → M ℕ
read_plus it n = do it' ← plus it n; read it'

abbrev pub next : Iterator → M Iterator
next it b = some (increment (it, b))
