-- ===== src/Base/OrBits.antt =====
-- Base: `|` of two numbers that share no bit.
use Prim.Native.Nat.{
  ℕ, zero, suc, ◌+◌, ◌*◌, ◌/◌, ◌%◌, ◌^◌, ◌≤◌, ◌<◌, max, digits, bit_or, bit_or-bitwise,
}
use mathlib.Core.Path.{◌≡◌, refl, sym, ap, ◌∙◌}
use native.Mathlib.Omega.{arith}
use native.Mathlib.Nat.{pow-suc}

abbrev or_digits : ℕ → ℕ → ℕ → ℕ
or_digits n a b = digits (λ c. c) max n a b

-- Of 0 no digits are left.
or_digits-zero : (fuel b : ℕ) → or_digits fuel 0 b ≡ b
or_digits-zero zero b = refl
or_digits-zero (suc fuel) b = refl

-- Any fuel that the first number does not exceed is enough.
or_digits-same :
    (fuel other a b : ℕ) → a ≤ fuel → a ≤ other → or_digits fuel a b ≡ or_digits other a b
or_digits-same fuel other zero b le le' = or_digits-zero fuel b ∙ sym (or_digits-zero other b)
or_digits-same zero other (suc a) b le le' = absurd (omega arith)
or_digits-same (suc fuel) zero (suc a) b le le' = absurd (omega arith)
or_digits-same (suc fuel) (suc other) (suc a) b le le' =
    ap (λ high. high * 2 + max (suc a % 2) (b % 2))
      (or_digits-same fuel other (suc a / 2) (b / 2) (omega arith) (omega arith))

-- The lowest bit, and the others.
bit_or-half : (a b : ℕ) → bit_or a b ≡ max (a % 2) (b % 2) + 2 * bit_or (a / 2) (b / 2)
bit_or-half zero b = omega (arith, bit_or-bitwise zero b, bit_or-bitwise zero (b / 2))
bit_or-half (suc a) b =
    let h = suc a / 2 in
    omega (
      arith,
      bit_or-bitwise (suc a) b,
      bit_or-bitwise h (b / 2),
      or_digits-same h a h (b / 2) (omega arith) (omega arith),
    )

bit_or-nothing : (n a : ℕ) → a ≤ n → bit_or a 0 ≡ a
bit_or-nothing n zero h = refl
bit_or-nothing zero (suc a) h = absurd (omega arith)
bit_or-nothing (suc n) (suc a) h =
    omega (arith, bit_or-half (suc a) 0, bit_or-nothing n (suc a / 2) (omega arith))

-- `x | 1`
pub bit_or-one : (a : ℕ) → bit_or a 1 ≡ a / 2 * 2 + 1
bit_or-one a = omega (arith, bit_or-half a 1, bit_or-nothing (a / 2) (a / 2) (omega arith))

-- A multiple of 2 ^ k and a number below it.
pub bit_or-low : (k a b : ℕ) → b < 2 ^ k → bit_or (a * 2 ^ k) b ≡ a * 2 ^ k + b
bit_or-low zero a b h = ground (arith, bit_or-nothing a a (omega arith))
bit_or-low (suc k) a b h =
    let twice : a * 2 ^ suc k ≡ 2 * (a * 2 ^ k) =
      omega (arith, ap (λ (p : ℕ). a * p) (pow-suc 2 k)) in
    ground (
      arith,
      bit_or-half (a * 2 ^ suc k) b,
      twice,
      pow-suc 2 k,
      bit_or-low k a (b / 2) (omega (arith, pow-suc 2 k)),
    )
