-- ===== src/CString/Names.antt =====
-- string.c: what safestrcpy() leaves in its buffer.
use spring18cs.Base.{
  ℕ, zero, suc, ◌≡◌, ◌<◌, ◌≤◌, refl, List, [], ◌∷◌, some, arith, length, get_elem?, ◌==◌,
  Bool-cases, inl, inr,
}
use spring18cs.CString.{end_here, copy_str, safestrcpy}

-- `r` is the buffer `s` after a copy of `t` into its first `n` + 1 bytes: the bytes of `t` up to a
-- NUL among them, and what was there behind them.
pub record Terminated (n : ℕ) (s t r : List ℕ) : Type 0 where
  pub stop : ℕ
  pub inside : stop ≤ n
  pub nul : get_elem? r stop ≡ some 0
  pub copied : (j : ℕ) → j < stop → get_elem? r j ≡ get_elem? t j
  pub kept : (j : ℕ) → n < j → get_elem? r j ≡ get_elem? s j

end_here-later : (s : List ℕ) (j : ℕ) → 0 < j → get_elem? (end_here s) j ≡ get_elem? s j
end_here-later [] j h = refl
end_here-later (x ∷ s) zero h = absurd (omega arith)
end_here-later (x ∷ s) (suc j) h = refl

-- The copy stops at once.
stopped : (n x : ℕ) (s t : List ℕ) → Terminated (suc n) (x ∷ s) t (0 ∷ end_here s)
stopped n x s t = record {
  stop = 0;
  inside = omega arith;
  nul = refl;
  copied = λ j h. absurd (omega arith);
  kept = later;
}
  where
    later : (j : ℕ) → suc n < j → get_elem? (0 ∷ end_here s) j ≡ get_elem? (x ∷ s) j
    later zero h = absurd (omega arith)
    later (suc j) h = end_here-later s j (omega arith)

cons_below :
    (c : ℕ) (xs ys : List ℕ) (m : ℕ)
    → ((j : ℕ) → j < m → get_elem? xs j ≡ get_elem? ys j)
    → (j : ℕ) → j < suc m
    → get_elem? (c ∷ xs) j ≡ get_elem? (c ∷ ys) j
cons_below c xs ys m h zero l = refl
cons_below c xs ys m h (suc j) l = h j (omega arith)

cons_above :
    (c d : ℕ) (xs ys : List ℕ) (m : ℕ)
    → ((j : ℕ) → m < j → get_elem? xs j ≡ get_elem? ys j)
    → (j : ℕ) → suc m < j
    → get_elem? (c ∷ xs) j ≡ get_elem? (d ∷ ys) j
cons_above c d xs ys m h zero l = absurd (omega arith)
cons_above c d xs ys m h (suc j) l = h j (omega arith)

copy_str-Terminated : (n : ℕ) (s t : List ℕ) → n < length s → Terminated n s t (copy_str n s t)
unfolding copy_str
copy_str-Terminated n [] t h = absurd (omega arith)
copy_str-Terminated zero (x ∷ s) t h = record {
  stop = 0;
  inside = omega arith;
  nul = refl;
  copied = λ j l. absurd (omega arith);
  kept = λ j l. end_here-later (x ∷ s) j l;
}
copy_str-Terminated (suc n) (x ∷ s) [] h = stopped n x s []
copy_str-Terminated (suc n) (x ∷ s) (c ∷ t) h = elim (Bool-cases (c == 0)) [
  | inl z ↦ rw (z, copy_str) (stopped n x s (c ∷ t))
  | inr nz ↦
      let r = copy_str-Terminated n s t (omega arith) in
      rw (nz, copy_str)
        (record {
          stop = suc r.stop;
          inside = let l = r.inside in omega arith;
          nul = r.nul;
          copied = cons_below c (copy_str n s t) t r.stop r.copied;
          kept = cons_above c x (copy_str n s t) s n r.kept;
        })
]

-- safestrcpy() of `t` into a buffer `s` of at least `n` bytes, `n` not 0: there is a NUL in the
-- first `n` bytes, the bytes before it are those of `t`, and no byte behind the first `n` changes.
pub safestrcpy-Terminated :
    (n : ℕ) (s t : List ℕ) → suc n ≤ length s → Terminated n s t (safestrcpy s t (suc n))
unfolding safestrcpy
safestrcpy-Terminated n s t h = copy_str-Terminated n s t (omega arith)
