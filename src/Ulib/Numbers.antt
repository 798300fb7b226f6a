-- ===== src/Ulib/Numbers.antt =====
-- ulib.c and printf.c: numbers printed and read back.
use spring18cs.Base.{
  ℕ, zero, suc, ◌+◌, ◌-◌, ◌*◌, ◌/◌, ◌%◌, ◌^◌, ◌<◌, ◌≤◌, ◌≡◌, refl, ◌∙◌, ap, true, false, ◌&&◌, ltb,
  leb, ◌==◌, List, [], ◌∷◌, ◌++◌, arith, Bool-cases, inl, inr,
}
use spring18cs.Ulib.{
  skip_spaces, number_from, parse_int, atoi, digit, put_digits, printint, printf_from, printf,
}

-- 10 to the power of `n`
abbrev tens : ℕ → ℕ
tens zero = 1
tens (suc n) = 10 * tens n

-- Reading the digits of `x` that were put before `buf` goes on with `x` at `buf`.
number_from-put_digits :
    (fuel x : ℕ) (buf : List ℕ)
    → x < tens (suc fuel)
    → x < 2 ^ 32
    → number_from 10 0 (put_digits (suc fuel) 10 x buf) ≡ number_from 10 x buf
unfolding put_digits number_from
number_from-put_digits zero x buf small wide =
    let z : (x / 10 == 0) ≡ true = ground arith in
    let d : digit (x % 10) ≡ 48 + x = ground arith in
    let t : (leb 48 (48 + x) && ltb (48 + x) 58) ≡ true = ground arith in
    let v : (0 * 10 + (48 + x) + 2 ^ 32 - 48) % 2 ^ 32 ≡ x = omega arith in
    rw (put_digits, z, d, number_from, t, v) refl
number_from-put_digits (suc fuel) x buf small wide = elim (Bool-cases (x / 10 == 0)) [
  | inl z ↦
      let d : digit (x % 10) ≡ 48 + x = ground arith in
      let t : (leb 48 (48 + x) && ltb (48 + x) 58) ≡ true = ground arith in
      let v : (0 * 10 + (48 + x) + 2 ^ 32 - 48) % 2 ^ 32 ≡ x = omega arith in
      rw (put_digits, z, d, number_from, t, v) refl
  | inr f ↦
      let d : digit (x % 10) ≡ 48 + x % 10 = ground arith in
      let t : (leb 48 (48 + x % 10) && ltb (48 + x % 10) 58) ≡ true = ground arith in
      let v : (x / 10 * 10 + (48 + x % 10) + 2 ^ 32 - 48) % 2 ^ 32 ≡ x = omega arith in
      let ih =
        number_from-put_digits fuel (x / 10) (digit (x % 10) ∷ buf) (omega arith) (omega arith) in
      rw (put_digits, f) (ih ∙ rw (d, number_from, t, v) refl)
]

-- The first byte that is put is a digit.
abbrev StartsWithDigit : List ℕ → Type 0
StartsWithDigit [] = ⊥
StartsWithDigit (c ∷ s) = (48 ≤ c) × (c < 58)

put_digits-StartsWithDigit :
    (fuel x d : ℕ) (buf : List ℕ)
    → 48 ≤ d
    → d < 58
    → StartsWithDigit (put_digits fuel 10 x (d ∷ buf))
unfolding put_digits
put_digits-StartsWithDigit zero x d buf lo hi = (lo, hi)
put_digits-StartsWithDigit (suc fuel) x d buf lo hi = elim (Bool-cases (x / 10 == 0)) [
  | inl z ↦ rw (put_digits, z) (ground arith, ground arith)
  | inr f ↦
      rw (put_digits, f)
        (put_digits-StartsWithDigit fuel (x / 10) (digit (x % 10)) (d ∷ buf) (ground arith)
          (ground arith))
]

first_put : (x : ℕ) → StartsWithDigit (put_digits 16 10 x [])
unfolding put_digits
first_put x = elim (Bool-cases (x / 10 == 0)) [
  | inl z ↦ rw (put_digits, z) (ground arith, ground arith)
  | inr f ↦
      rw (put_digits, f)
        (put_digits-StartsWithDigit 15 (x / 10) (digit (x % 10)) [] (ground arith) (ground arith))
]

-- Digits are read with no sign, and behind a minus.
parse-digits : (s : List ℕ) → StartsWithDigit s → parse_int 10 s ≡ number_from 10 0 s
unfolding parse_int skip_spaces
parse-digits [] h = absurd h
parse-digits (c ∷ s) (lo, hi) =
    let space : (c == 32) ≡ false = ground arith in
    let plus : (c == 43) ≡ false = ground arith in
    let minus : (c == 45) ≡ false = ground arith in
    rw (parse_int, skip_spaces, space, plus, minus) refl

parse-negative : (s : List ℕ) → parse_int 10 (45 ∷ s) ≡ (2 ^ 32 - number_from 10 0 s) % 2 ^ 32
unfolding parse_int skip_spaces
parse-negative s = refl

append_nil : (xs : List ℕ) → xs ++ [] ≡ xs
append_nil [] = refl
append_nil (x ∷ xs) = ap (◌∷◌ x) (append_nil xs)

number-digits : (x : ℕ) → x < 2 ^ 32 → number_from 10 0 (put_digits 16 10 x []) ≡ x
unfolding number_from
number-digits x wide = number_from-put_digits 15 x [] (omega arith) wide

atoi-printint : (x : ℕ) → x < 2 ^ 32 → atoi (printint x 10 true) ≡ x
unfolding printint
atoi-printint x wide = elim (Bool-cases (leb (2 ^ 31) x)) [
  | inl t ↦
      let back : (2 ^ 32 - (2 ^ 32 - x) % 2 ^ 32) % 2 ^ 32 ≡ x = ground arith in
      rw (printint, t)
        (parse-negative (put_digits 16 10 ((2 ^ 32 - x) % 2 ^ 32) [])
          ∙ ap (λ n. (2 ^ 32 - n) % 2 ^ 32) (number-digits ((2 ^ 32 - x) % 2 ^ 32) (omega arith))
          ∙ back)
  | inr f ↦
      rw (printint, f) (parse-digits (put_digits 16 10 x []) (first_put x) ∙ number-digits x wide)
]

-- atoi() of what printf() makes of "%d" and an `int` is that `int`, whatever its sign.
pub atoi-printf :
    (args : ℕ → ℕ) (string : ℕ → List ℕ)
    → args 0 < 2 ^ 32
    → atoi (printf (b'%' ∷ b'd' ∷ []) args string) ≡ args 0
unfolding printf_from
atoi-printf args string wide =
    rw (append_nil (printint (args 0) 10 true)) (atoi-printint (args 0) wide)
