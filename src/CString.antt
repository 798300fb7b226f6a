-- ===== src/CString.antt =====
-- string.c: functions on NUL-terminated bytes. A pointer into a buffer is the list from there on.
-- Reading past the end of a list reads 0, and writing there writes nothing.
pub mod Memory
pub mod Moves
pub mod Compare
pub mod Names
mod Tests
use spring18cs.Base.{ℕ, zero, suc, List, [], ◌∷◌, ◌==◌, if◌then◌else◌}

-- `*s = 0`
abbrev pub end_here : List ℕ → List ℕ
end_here [] = []
end_here (_ ∷ s) = 0 ∷ s

-- The loop of safestrcpy() with `n` left of `--n`, and the write behind it. It leaves the loop
-- behind the NUL that it has copied, and so clears one byte more.
unfoldable pub copy_str : ℕ → List ℕ → List ℕ → List ℕ
copy_str zero s t = end_here s
copy_str (suc n) [] t = []
copy_str (suc n) (_ ∷ s) [] = 0 ∷ end_here s
copy_str (suc n) (_ ∷ s) (c ∷ t) = if c == 0 then 0 ∷ end_here s else c ∷ copy_str n s t

-- safestrcpy()
unfoldable pub safestrcpy : List ℕ → List ℕ → ℕ → List ℕ
safestrcpy s t zero = s
safestrcpy s t (suc n) = copy_str n s t
