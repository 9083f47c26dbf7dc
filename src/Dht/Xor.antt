-- ===== src/Dht/Xor.antt =====
-- `bit_xor` at variables: the law for the lowest bit, and for the lowest byte.
use Prim.Native.Nat.{bit_xor, bit_xor-bitwise, digits, differ}
use bit_torrent_project.Common.{ℕ, zero, suc, ◌+◌, ◌*◌, ◌/◌, ◌%◌, ◌≤◌, ◌<◌, ◌≡◌, refl, ◌∙◌, arith}

abbrev xor_digits : ℕ → ℕ → ℕ → ℕ
xor_digits = digits (λ bit. bit) differ

-- The digit recursion gives the same with any fuel that reaches its first argument.
xor_digits-fuel : (a b f g : ℕ) → a ≤ f → a ≤ g → xor_digits f a b ≡ xor_digits g a b
xor_digits-fuel a b f g = go f g a b
  where
    go : (f g a b : ℕ) → a ≤ f → a ≤ g → xor_digits f a b ≡ xor_digits g a b
    go zero zero a b hf hg = refl
    go zero (suc g) zero b hf hg = refl
    go zero (suc g) (suc a) b hf hg = elim hf [ ]
    go (suc f) zero zero b hf hg = refl
    go (suc f) zero (suc a) b hf hg = elim hg [ ]
    go (suc f) (suc g) zero b hf hg = refl
    go (suc f) (suc g) (suc a) b hf hg =
        omega (arith, go f g (suc a / 2) (b / 2) (omega arith) (omega arith))

zero-bit_xor : (b : ℕ) → bit_xor 0 b ≡ b
zero-bit_xor b = bit_xor-bitwise 0 b

bit_xor-step : (a b : ℕ) → bit_xor a b ≡ bit_xor (a / 2) (b / 2) * 2 + differ (a % 2) (b % 2)
bit_xor-step zero b = omega (arith, zero-bit_xor b, zero-bit_xor (b / 2))
bit_xor-step (suc a) b = omega (
  arith,
  bit_xor-bitwise (suc a) b,
  bit_xor-bitwise (suc a / 2) (b / 2),
  xor_digits-fuel (suc a / 2) (b / 2) a (suc a / 2) (omega arith) (omega arith),
)

-- Digits to the base `m` are combined one by one.
abbrev Splits : ℕ → Type 0
Splits m =
    (a b x y : ℕ) → x < m → y < m → bit_xor (a * m + x) (b * m + y) ≡ bit_xor a b * m + bit_xor x y

split_one : Splits 1
split_one a b x y hx hy =
    let ex : x ≡ 0 = omega arith in
    let ey : y ≡ 0 = omega arith in
    let ea : a * 1 + 0 ≡ a = omega arith in
    let eb : b * 1 + 0 ≡ b = omega arith in rw (ex, ey) (rw (ea, eb) (omega arith))

half_up :
    (m a x : ℕ)
    → x < 2 * m
    → ((a * (2 * m) + x) / 2 ≡ a * m + x / 2) × ((a * (2 * m) + x) % 2 ≡ x % 2)
half_up m a x h = omega arith

split_double : (m : ℕ) → Splits m → Splits (2 * m)
split_double m s a b x y hx hy =
    let (ha, ra) = half_up m a x hx in
    let (hb, rb) = half_up m b y hy in
    bit_xor-step (a * (2 * m) + x) (b * (2 * m) + y)
    ∙ rw (ha, hb, ra, rb)
        (omega (arith, s a b (x / 2) (y / 2) (omega arith) (omega arith), bit_xor-step x y))

pub split_byte : Splits 256
split_byte = split_double 128 (
    split_double 64 (
      split_double 32 (
        split_double 16
          (split_double 8 (split_double 4 (split_double 2 (split_double 1 split_one)))))))
