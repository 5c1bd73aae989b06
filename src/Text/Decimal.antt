-- ===== src/Text/Decimal.antt =====
-- Runs of bytes, and numbers: what `sprintf` writes, `sscanf` and `atoi` read back.
use zrh_rtsp_server.Prelude.{
  ℕ, zero, suc, ◌+◌, ◌/◌, ◌%◌, ◌^◌, ◌<◌, ◌≡◌, refl, sym, ap, ◌∙◌, Bool, true, false, not, ◌&&◌,
  some, [], ◌∷◌, ◌++◌, ◌==◌, length, arith, Bool-cases, inl, inr,
}
use zrh_rtsp_server.Text.{
  Bytes, is_space, is_digit, span, skip_space, matched, scan_run, digits_value, decimal,
  print_unsigned, scan_number, scan_short, atoi, pos,
}

abbrev pub every : (ℕ → Bool) → Bytes → Bool
every p [] = true
every p (x ∷ xs) = p x && every p xs

-- What stands behind a run: nothing, or a byte that fails the test.
abbrev pub ends : (ℕ → Bool) → Bytes → Bool
ends p [] = true
ends p (x ∷ xs) = not (p x)

pub span-every :
    (p : ℕ → Bool) (xs rest : Bytes)
    → every p xs ≡ true
    → ends p rest ≡ true
    → span p (xs ++ rest) ≡ (xs, rest)
unfolding span
span-every p [] [] h e = refl
span-every p [] (x ∷ rest) h e = ground arith
span-every p (x ∷ xs) rest h e = ground (arith, span-every p xs rest)

-- A run that fits its buffer is read, whatever follows it.
pub scan_run-every :
    (p : ℕ → Bool) (size : ℕ) (x : ℕ) (xs rest : Bytes)
    → every p (x ∷ xs) ≡ true
    → ends p rest ≡ true
    → length (x ∷ xs) < size
    → scan_run p size (x ∷ (xs ++ rest)) ≡ matched (x ∷ xs) rest
unfolding scan_run
scan_run-every p size x xs rest h e fits = ground (arith, span-every p (x ∷ xs) rest h e)

digits_value-decimal :
    (fuel n : ℕ) (last : Bytes)
    → n < 2 ^ fuel
    → digits_value 0 (decimal fuel n last) ≡ digits_value n last
unfolding digits_value decimal
digits_value-decimal zero n last h = ap (λ k. digits_value k last) (omega arith)
digits_value-decimal (suc fuel) n last h =
    ground (arith, digits_value-decimal fuel (n / 10) ((48 + n % 10) ∷ last))

pub decimal-every :
    (fuel n : ℕ) (last : Bytes)
    → every is_digit last ≡ true
    → every is_digit (decimal fuel n last) ≡ true
unfolding decimal
decimal-every zero n last h = h
decimal-every (suc fuel) n last h =
    ground (arith, decimal-every fuel (n / 10) ((48 + n % 10) ∷ last))

digit-not-space : (d : ℕ) → is_digit d ≡ true → is_space d ≡ false
digit-not-space d h = ground arith

scan_number-every :
    (d : ℕ) (ds rest : Bytes)
    → every is_digit (d ∷ ds) ≡ true
    → ends is_digit rest ≡ true
    → scan_number (d ∷ (ds ++ rest)) ≡ matched (false, digits_value 0 (d ∷ ds)) rest
unfolding scan_number skip_space span
scan_number-every d ds rest h e = ground (arith, digit-not-space d, span-every is_digit ds rest)

decimal-cons :
    (fuel n : ℕ) (last : Bytes) → (d : ℕ) × (ds : Bytes) × (decimal (suc fuel) n last ≡ d ∷ ds)
unfolding decimal
decimal-cons zero n last = (48 + n % 10, last, ground arith)
decimal-cons (suc fuel) n last = elim (Bool-cases (n / 10 == 0)) [
  | inl e ↦ (48 + n % 10, last, ground arith)
  | inr e ↦
      let (d, ds, more) = decimal-cons fuel (n / 10) ((48 + n % 10) ∷ last) in
      (d, ds, ground (arith, more))
]

pub print_unsigned-cons : (n : ℕ) → (d : ℕ) × (ds : Bytes) × (print_unsigned n ≡ d ∷ ds)
unfolding print_unsigned
print_unsigned-cons n = decimal-cons 63 n []

-- A printed number of 64 bits is read back, up to the first byte that is no digit.
pub scan_number-print_unsigned :
    (n : ℕ) (rest : Bytes)
    → n < 2 ^ 64
    → ends is_digit rest ≡ true
    → scan_number (print_unsigned n ++ rest) ≡ matched (false, n) rest
unfolding print_unsigned digits_value
scan_number-print_unsigned n rest h e =
    let (d, ds, printed) = print_unsigned-cons n in
    let all : every is_digit (d ∷ ds) ≡ true =
      ap (every is_digit) (sym printed) ∙ decimal-every 64 n [] refl in
    let value : digits_value 0 (d ∷ ds) ≡ n =
      ap (digits_value 0) (sym printed) ∙ digits_value-decimal 64 n [] h in
    rw printed (scan_number-every d ds rest all e ∙ ap (λ k. matched (false, k) rest) value)

pub scan_short-print_unsigned :
    (n : ℕ) (rest : Bytes)
    → n < 2 ^ 16
    → ends is_digit rest ≡ true
    → scan_short (print_unsigned n ++ rest) ≡ matched n rest
unfolding scan_short
scan_short-print_unsigned n rest h e =
    ground (arith, scan_number-print_unsigned n rest (omega arith) e)

-- `atoi` reads back a printed `int` that is not negative, whatever follows but a digit.
pub atoi-print_unsigned :
    (n : ℕ) (rest : Bytes)
    → n < 2 ^ 31
    → ends is_digit rest ≡ true
    → atoi (print_unsigned n ++ rest) ≡ some (pos n)
unfolding atoi
atoi-print_unsigned n rest h e = ground (arith, scan_number-print_unsigned n rest (omega arith) e)
