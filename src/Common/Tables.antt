-- ===== src/Common/Tables.antt =====
-- Facts on small ranges by evaluation, and powers of two.
use Prim.Native.Nat.{ℕ, zero, suc, ◌+◌, ◌*◌, ◌^◌, ◌<◌}
use mathlib.Core.Path.{◌≡◌, refl, ap}
use mathlib.Core.Bool.{Bool, true, ◌&&◌}
use native.Mathlib.Omega.{arith}
use native.Mathlib.Nat.{pow-zero, pow-suc}

-- A test on all numbers below a bound, run by evaluation.
unfoldable pub holds_under : (ℕ → Bool) → ℕ → Bool
holds_under test zero = true
holds_under test (suc top) = holds_under test top && test top

pub holds_under-at :
    (test : ℕ → Bool) (top x : ℕ) → x < top → holds_under test top ≡ true → test x ≡ true
unfolding holds_under
holds_under-at test zero x below table = elim below [ ]
holds_under-at test (suc top) x below table = ground (arith, holds_under-at test top x)

-- Both tests of a conjunction hold.
pub both_true : (a b : Bool) → (a && b) ≡ true → (a ≡ true) × (b ≡ true)
both_true a b h = ground arith

pub pow-add : (b m n : ℕ) → b ^ (m + n) ≡ b ^ m * b ^ n
pow-add b m zero = let e : m + 0 ≡ m = omega arith in rw (e, pow-zero) (omega arith)
pow-add b m (suc n) =
    let e : m + suc n ≡ suc (m + n) = omega arith in
    rw e (
      omega (
        arith,
        pow-suc b (m + n),
        ap (λ (t : ℕ). b ^ m * t) (pow-suc b n),
        ap (λ (t : ℕ). t * b) (pow-add b m n),
      ))

-- Eight bits to the byte.
pub pow_byte : (r : ℕ) → 256 ^ r ≡ 2 ^ (8 * r)
pow_byte zero = refl
pow_byte (suc r) =
    let e : 8 * suc r ≡ 8 * r + 8 = omega arith in
    rw e (omega (arith, pow-suc 256 r, pow-add 2 (8 * r) 8, pow_byte r))
