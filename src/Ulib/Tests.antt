-- ===== src/Ulib/Tests.antt =====
-- ulib.c and printf.c: the theorem on a negative number, and runs.
use spring18cs.Base.{ℕ, ◌≡◌, refl, [], ◌∷◌, true, arith}
use spring18cs.Ulib.{atoi, atoo, printf, printint, put_digits, parse_int, skip_spaces, number_from}
use spring18cs.Ulib.Numbers.{atoi-printf}

-- The `int` -7.
abbrev minus_seven : ℕ
minus_seven = 0xFFFF_FFF9

atoi-printf_example : atoi (printf (b'%' ∷ b'd' ∷ []) (λ n. minus_seven) (λ at. [])) ≡ minus_seven
atoi-printf_example = atoi-printf (λ n. minus_seven) (λ at. []) (omega arith)

-- -7 is printed as a minus and a digit.
print_minus_seven : printint minus_seven 10 true ≡ b'-' ∷ b'7' ∷ []
unfolding printint put_digits
print_minus_seven = refl

-- The octal number 17, behind a space.
read_octal : atoo (b' ' ∷ b'1' ∷ b'7' ∷ []) ≡ 15
unfolding parse_int skip_spaces number_from
read_octal = refl
