-- ===== src/Bits.antt =====
-- `&` and `|` on bytes: what the masks of the program pick, by checking every byte.
use Prim.Native.Nat.{bit_and, bit_or}
use zrh_rtsp_server.Prelude.{
  ℕ, zero, suc, ◌+◌, ◌*◌, ◌/◌, ◌%◌, ◌<◌, ◌≡◌, refl, ap, ◌∙◌, Bool, true, false, ◌==◌, ==_iff,
  ℕ_discrete, if◌then◌else◌, arith,
}

-- Two functions that agree on the numbers before a bound.
unfoldable pub agree : (f g : ℕ → ℕ) (bound : ℕ) → Bool
agree f g zero = true
agree f g (suc bound) = if agree f g bound then f bound == g bound else false

pub agree-lookup :
    (f g : ℕ → ℕ) (bound : ℕ) → agree f g bound ≡ true → {x : ℕ} → x < bound → f x ≡ g x
unfolding agree
agree-lookup f g zero table below = absurd (omega arith)
agree-lookup f g (suc bound) table {x} below = elim (ℕ_discrete x bound) [
  | yes here ↦ rw here ((==_iff _ _).0 (ground arith))
  | no there ↦ agree-lookup f g bound (ground arith) (omega arith)
]

pub bit_and_f0 : (x : ℕ) → x < 256 → bit_and x 0xf0 ≡ x / 16 * 16
unfolding agree
bit_and_f0 _ = agree-lookup (λ x. bit_and x 0xf0) (λ x. x / 16 * 16) 256 refl

pub bit_and_08 : (x : ℕ) → x < 256 → bit_and x 0x08 ≡ x / 8 % 2 * 8
unfolding agree
bit_and_08 _ = agree-lookup (λ x. bit_and x 0x08) (λ x. x / 8 % 2 * 8) 256 refl

pub bit_and_06 : (x : ℕ) → x < 256 → bit_and x 0x06 ≡ x / 2 % 4 * 2
unfolding agree
bit_and_06 _ = agree-lookup (λ x. bit_and x 0x06) (λ x. x / 2 % 4 * 2) 256 refl

pub bit_and_01 : (x : ℕ) → x < 256 → bit_and x 0x01 ≡ x % 2
unfolding agree
bit_and_01 _ = agree-lookup (λ x. bit_and x 0x01) (λ x. x % 2) 256 refl

pub bit_and_c0 : (x : ℕ) → x < 256 → bit_and x 0xc0 ≡ x / 64 * 64
unfolding agree
bit_and_c0 _ = agree-lookup (λ x. bit_and x 0xc0) (λ x. x / 64 * 64) 256 refl

pub bit_and_3c : (x : ℕ) → x < 256 → bit_and x 0x3c ≡ x / 4 % 16 * 4
unfolding agree
bit_and_3c _ = agree-lookup (λ x. bit_and x 0x3c) (λ x. x / 4 % 16 * 4) 256 refl

pub bit_and_02 : (x : ℕ) → x < 256 → bit_and x 0x02 ≡ x / 2 % 2 * 2
unfolding agree
bit_and_02 _ = agree-lookup (λ x. bit_and x 0x02) (λ x. x / 2 % 2 * 2) 256 refl

pub bit_and_20 : (x : ℕ) → x < 256 → bit_and x 0x20 ≡ x / 32 % 2 * 32
unfolding agree
bit_and_20 _ = agree-lookup (λ x. bit_and x 0x20) (λ x. x / 32 % 2 * 32) 256 refl

pub bit_and_10 : (x : ℕ) → x < 256 → bit_and x 0x10 ≡ x / 16 % 2 * 16
unfolding agree
bit_and_10 _ = agree-lookup (λ x. bit_and x 0x10) (λ x. x / 16 % 2 * 16) 256 refl

pub bit_and_03 : (x : ℕ) → x < 256 → bit_and x 0x03 ≡ x % 4
unfolding agree
bit_and_03 _ = agree-lookup (λ x. bit_and x 0x03) (λ x. x % 4) 256 refl

pub bit_and_ff : (x : ℕ) → x < 256 → bit_and x 0xff ≡ x
unfolding agree
bit_and_ff _ = agree-lookup (λ x. bit_and x 0xff) (λ x. x) 256 refl

pub bit_and_e0 : (x : ℕ) → x < 256 → bit_and x 0xe0 ≡ x / 32 * 32
unfolding agree
bit_and_e0 _ = agree-lookup (λ x. bit_and x 0xe0) (λ x. x / 32 * 32) 256 refl

pub bit_and_1f : (x : ℕ) → x < 256 → bit_and x 0x1f ≡ x % 32
unfolding agree
bit_and_1f _ = agree-lookup (λ x. bit_and x 0x1f) (λ x. x % 32) 256 refl

pub bit_and_fc : (x : ℕ) → x < 256 → bit_and x 0xfc ≡ x / 4 * 4
unfolding agree
bit_and_fc _ = agree-lookup (λ x. bit_and x 0xfc) (λ x. x / 4 * 4) 256 refl

pub bit_and_60 : (x : ℕ) → x < 256 → bit_and x 0x60 ≡ x / 32 % 4 * 32
unfolding agree
bit_and_60 _ = agree-lookup (λ x. bit_and x 0x60) (λ x. x / 32 % 4 * 32) 256 refl

-- `|` of parts that share no bit.
agree_rows : (width k : ℕ) (height : ℕ) → Bool
agree_rows width k zero = true
agree_rows width k (suc height) =
    if agree_rows width k height
    then agree (bit_or (height * k)) (◌+◌ (height * k)) width
    else false

rows-lookup :
    (width k : ℕ) (height : ℕ)
    → agree_rows width k height ≡ true
    → {a : ℕ} → a < height
    → agree (bit_or (a * k)) (◌+◌ (a * k)) width ≡ true
unfolding agree_rows
rows-lookup width k zero table below = absurd (omega arith)
rows-lookup width k (suc height) table {a} below = elim (ℕ_discrete a height) [
  | yes here ↦ rw here (ground arith)
  | no there ↦ rows-lookup width k height (ground arith) (omega arith)
]

disjoint :
    (height width k : ℕ)
    → agree_rows width k height ≡ true
    → (a b : ℕ) → a < height
    → b < width
    → bit_or (a * k) b ≡ a * k + b
disjoint height width k table a b ha hb =
    agree-lookup (bit_or (a * k)) (◌+◌ (a * k)) width (rows-lookup width k height table ha) hb

pub bit_or_channel : (a b : ℕ) → a < 2 → b < 4 → bit_or (a * 4) b ≡ a * 4 + b
unfolding agree agree_rows
bit_or_channel = disjoint 2 4 4 refl

pub bit_or_fullness : (a b : ℕ) → a < 32 → b < 64 → bit_or (a * 64) b ≡ a * 64 + b
unfolding agree agree_rows
bit_or_fullness = disjoint 32 64 64 refl

-- The length's parts: two bits, a byte and three bits.
length_high : (a b : ℕ) → a < 4 → b < 2048 → bit_or (a * 2048) b ≡ a * 2048 + b
unfolding agree agree_rows
length_high = disjoint 4 2048 2048 refl

length_low : (a b : ℕ) → a < 1024 → b < 8 → bit_or (a * 8) b ≡ a * 8 + b
unfolding agree agree_rows
length_low = disjoint 1024 8 8 refl

pub bit_or_length :
    (a b c : ℕ)
    → a < 4
    → b < 256
    → c < 8
    → bit_or (bit_or (a * 2048) (b * 8)) c ≡ a * 2048 + b * 8 + c
bit_or_length a b c ha hb hc = rw (length_high a (b * 8) ha (omega arith)) (
    ap (λ n. bit_or n c) {x = a * 2048 + b * 8} {y = (a * 256 + b) * 8} (omega arith)
    ∙ length_low (a * 256 + b) c (omega arith) hc
    ∙ omega arith)

-- The two bytes of a length below 2048.
pub bit_and_high_byte : (x : ℕ) → x < 2048 → bit_and x 0xff00 ≡ x / 256 * 256
unfolding agree
bit_and_high_byte _ = agree-lookup (λ x. bit_and x 0xff00) (λ x. x / 256 * 256) 2048 refl

pub bit_and_low_byte : (x : ℕ) → x < 2048 → bit_and x 0xff ≡ x % 256
unfolding agree
bit_and_low_byte _ = agree-lookup (λ x. bit_and x 0xff) (λ x. x % 256) 2048 refl

-- The bytes before a fragment of a NAL unit.
pub bit_or_indicator : (a : ℕ) → a < 4 → bit_or (a * 32) 28 ≡ a * 32 + 28
unfolding agree
bit_or_indicator _ = agree-lookup (λ a. bit_or (a * 32) 28) (λ a. a * 32 + 28) 4 refl

pub bit_or_start : (x : ℕ) → x < 32 → bit_or x 0x80 ≡ x + 128
unfolding agree
bit_or_start _ = agree-lookup (λ x. bit_or x 0x80) (λ x. x + 128) 32 refl

pub bit_or_end : (x : ℕ) → x < 32 → bit_or x 0x40 ≡ x + 64
unfolding agree
bit_or_end _ = agree-lookup (λ x. bit_or x 0x40) (λ x. x + 64) 32 refl

pub bit_or_none : (x : ℕ) → x < 32 → bit_or x 0 ≡ x + 0
unfolding agree
bit_or_none _ = agree-lookup (λ x. bit_or x 0) (λ x. x + 0) 32 refl

-- The size of an AAC frame that fits a packet, in an AU header.
pub bit_and_size_high : (x : ℕ) → x < 2048 → bit_and x 0x1fe0 ≡ x / 32 * 32
unfolding agree
bit_and_size_high _ = agree-lookup (λ x. bit_and x 0x1fe0) (λ x. x / 32 * 32) 2048 refl

pub bit_and_size_low : (x : ℕ) → x < 2048 → bit_and x 0x1f ≡ x % 32
unfolding agree
bit_and_size_low _ = agree-lookup (λ x. bit_and x 0x1f) (λ x. x % 32) 2048 refl
