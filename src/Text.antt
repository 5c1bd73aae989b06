-- ===== src/Text.antt =====
-- C text and the library calls on it that the program uses: `strncmp`, `sscanf`, `atoi`, `sprintf`
-- and `getline`. A text is the list of its bytes; a C string ends at its first zero.
mod Tests
pub mod Decimal
use Prim.Native.Char.{code}
use Prim.Native.String.{String}
use zrh_rtsp_server.Prelude.{
  ℕ, zero, suc, ◌+◌, ◌-◌, ◌*◌, ◌/◌, ◌%◌, ◌^◌, Bool, true, false, not, ◌&&◌, ◌||◌, Option, none,
  some, List, [], ◌∷◌, ◌++◌, ◌==◌, leb, ltb, if◌then◌else◌, length,
}

abbrev pub Bytes : Type 0
Bytes = List ℕ

abbrev pub ascii : String → Bytes
ascii (String.◌∷◌ character rest) = code character ∷ ascii rest
ascii String.[] = []

-- An `int`.
pub data ℤ : Type 0 where
  pos negsuc : ℕ → ℤ

abbrev pub is_space : ℕ → Bool
is_space c = c == 32 || leb 9 c && leb c 13

abbrev pub is_digit : ℕ → Bool
is_digit c = leb 48 c && leb c 57

-- `s.c_str()` as a C string.
unfoldable pub c_str : Bytes → Bytes
c_str [] = []
c_str (c ∷ cs) = if c == 0 then [] else c ∷ c_str cs

-- `strncmp(line, prefix, sizeof(prefix) - 1) == 0`.
unfoldable pub starts_with : Bytes → Bytes → Bool
starts_with line [] = true
starts_with [] (p ∷ ps) = false
starts_with (c ∷ cs) (p ∷ ps) = c == p && starts_with cs ps

-- The longest prefix whose bytes pass the test, and the rest.
unfoldable pub span : (ℕ → Bool) → Bytes → Bytes × Bytes
span p [] = ([], [])
span p (c ∷ cs) = let s = span p cs in if p c then (c ∷ s.0, s.1) else ([], c ∷ cs)

unfoldable pub skip_space : Bytes → Bytes
unfolding span
skip_space t = (span is_space t).1

-- What a directive of `sscanf` does: it matches, it does not, or it writes past its buffer or stores a
-- number that its type does not hold, which is undefined.
pub data Scan (A : Type 0) : Type 0 where
  matched : A → Bytes → Scan A
  mismatch undefined : Scan A

-- A run of bytes into a buffer of `size` bytes, which also takes the ending zero.
unfoldable pub scan_run : (ℕ → Bool) → ℕ → Bytes → Scan Bytes
unfolding span
scan_run p size t =
    let (run, rest) = span p t in
    elim run [
      | [] ↦ mismatch
      | c ∷ cs ↦ if ltb (length (c ∷ cs)) size then matched (c ∷ cs) rest else undefined
    ]

-- `%s`; and `%[^c]`, which does not skip white space.
unfoldable pub scan_word : ℕ → Bytes → Scan Bytes
scan_word size t = scan_run (λ c. not (is_space c)) size (skip_space t)

abbrev pub scan_until : ℕ → ℕ → Bytes → Scan Bytes
scan_until stop size t = scan_run (λ c. not (c == stop)) size t

-- A literal text; in this program none has white space.
unfoldable pub scan_literal : Bytes → Bytes → Option Bytes
scan_literal [] t = some t
scan_literal (p ∷ ps) [] = none
scan_literal (p ∷ ps) (c ∷ cs) = if c == p then scan_literal ps cs else none

-- The value of a run of digits, behind digits of the value `acc`.
unfoldable pub digits_value : ℕ → Bytes → ℕ
digits_value acc [] = acc
digits_value acc (d ∷ ds) = digits_value (acc * 10 + (d - 48)) ds

-- A sign and the digits, as `strtol` reads them behind white space: whether there is a `-`, and the
-- magnitude.
abbrev pub unsigned_number : Bool → Bytes → Scan (Bool × ℕ)
unfolding span
unsigned_number negative t =
    let (digits, rest) = span is_digit t in
    elim digits [ [] ↦ mismatch | d ∷ ds ↦ matched (negative, digits_value 0 (d ∷ ds)) rest ]

abbrev pub signed_number : Bytes → Scan (Bool × ℕ)
signed_number [] = mismatch
signed_number (c ∷ cs) =
    if c == 45
    then unsigned_number true cs
    else if c == 43
    then unsigned_number false cs
    else unsigned_number false (c ∷ cs)

unfoldable pub scan_number : Bytes → Scan (Bool × ℕ)
scan_number t = signed_number (skip_space t)

-- The `int` of a sign and a magnitude; `none` is out of range.
abbrev pub to_int : Bool → ℕ → Option ℤ
to_int false n = if ltb n (2 ^ 31) then some (pos n) else none
to_int true zero = some (pos 0)
to_int true (suc n) = if ltb n (2 ^ 31) then some (negsuc n) else none

-- `%d`.
unfoldable pub scan_int : Bytes → Scan ℤ
scan_int t = elim (scan_number t) [
  | mismatch ↦ mismatch
  | undefined ↦ undefined
  | matched (negative, n) rest ↦ elim (to_int negative n) [
    | none ↦ undefined
    | some i ↦ matched i rest
  ]
]

-- `%hu`.
unfoldable pub scan_short : Bytes → Scan ℕ
scan_short t = elim (scan_number t) [
  | mismatch ↦ mismatch
  | undefined ↦ undefined
  | matched (negative, n) rest ↦
      if (if negative then n == 0 else ltb n (2 ^ 16)) then matched n rest else undefined
]

-- `atoi`: 0 where there is no number, and undefined out of range.
unfoldable pub atoi : Bytes → Option ℤ
atoi t = elim (scan_number t) [
  | matched (negative, n) rest ↦ to_int negative n
  | mismatch ↦ some (pos 0)
  | undefined ↦ none
]

-- Decimal digits, the last ones given. A number below `2 ^ fuel` has no more than `fuel` digits.
unfoldable pub decimal : ℕ → ℕ → Bytes → Bytes
decimal zero n last = last
decimal (suc fuel) n last =
    let more = (48 + n % 10) ∷ last in
    let all = decimal fuel (n / 10) more in if n / 10 == 0 then more else all

-- `%u`, `%zu` and `std::to_string`, for numbers of at most 64 bits; and `%d`.
unfoldable pub print_unsigned : ℕ → Bytes
print_unsigned n = decimal 64 n []

unfoldable pub print_int : ℤ → Bytes
print_int (pos n) = print_unsigned n
print_int (negsuc n) = 45 ∷ print_unsigned (suc n)

-- The lines that `std::getline` gives until it meets the end of the stream; there is always one.
unfoldable pub lines : Bytes → Bytes × List Bytes
lines [] = ([], [])
lines (c ∷ cs) =
    let (line, others) = lines cs in if c == 10 then ([], line ∷ others) else (c ∷ line, others)
