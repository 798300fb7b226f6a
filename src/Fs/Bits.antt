-- ===== src/Fs/Bits.antt =====
-- fs.c: the bits of a bitmap block.
use spring18cs.Base.{
  ℕ, zero, suc, ◌+◌, ◌*◌, ◌/◌, ◌%◌, ◌<◌, ◌≤◌, ◌≡◌, inl, inr, refl, ◌∙◌, Bool, true, false, ◌==◌,
  if◌then◌else◌, none, some, arith, Bool-cases, ==_iff,
}
use spring18cs.CString.Memory.{Memory}
use spring18cs.Fs.{bit, put_bit, bit_at, put_bit_at, clear_bit}

bit-put_bit : (v : Bool) (k j w : ℕ) → bit j (put_bit v k w) ≡ (if j == k then v else bit j w)
unfolding bit put_bit
bit-put_bit true zero zero w = ground arith
bit-put_bit false zero zero w = ground arith
bit-put_bit v zero (suc j) w =
    let e : (w / 2 * 2 + (if v then 1 else 0)) / 2 ≡ w / 2 = ground arith in
    let f : (suc j == 0) ≡ false = ground arith in rw (e, f) refl
bit-put_bit v (suc k) zero w =
    let e : (w % 2 + 2 * put_bit v k (w / 2)) % 2 ≡ w % 2 = omega arith in
    let f : (0 == suc k) ≡ false = ground arith in rw (e, f) refl
bit-put_bit v (suc k) (suc j) w =
    let e : (w % 2 + 2 * put_bit v k (w / 2)) / 2 ≡ put_bit v k (w / 2) = omega arith in
    let s : (suc j == suc k) ≡ (j == k) = ground arith in rw (e, s) (bit-put_bit v k j (w / 2))

-- A bit that is put is the one that changes.
pub bit_at-put_bit_at :
    (v : Bool) (i j : ℕ) (m : Memory)
    → bit_at j (put_bit_at v i m) ≡ (if j == i then v else bit_at j m)
unfolding bit put_bit
bit_at-put_bit_at v i j m = elim (Bool-cases (j / 8 == i / 8)) [
  | inl t ↦
      let q : j / 8 ≡ i / 8 = ground arith in
      let s : (j % 8 == i % 8) ≡ (j == i) = ground arith in
      rw (t, ← q) (bit-put_bit v (i % 8) (j % 8) (m (j / 8)) ∙ rw s refl)
  | inr f ↦ let ne : (j == i) ≡ false = ground arith in rw (f, ne) refl
]

-- The inner loop of balloc() finds the first clear bit.
pub clear_bit-some :
    (n bi : ℕ) (m : Memory) {i : ℕ}
    → clear_bit n bi m ≡ some i
    → (bit_at i m ≡ false) × (bi ≤ i) × (i < bi + n)
unfolding clear_bit
clear_bit-some zero bi m e = cc
clear_bit-some (suc n) bi m {i} e = elim (Bool-cases (bit_at bi m)) [
  | inl t ↦
      let (c, lo, hi) = clear_bit-some n (suc bi) m (rw t at (e)) in (c, omega arith, omega arith)
  | inr f ↦
      let same : some bi ≡ some i = rw f at (e) in
      let eq : bi ≡ i = cc in (rw (← eq) f, omega arith, omega arith)
]

pub clear_bit-none :
    (n bi : ℕ) (m : Memory) (i : ℕ)
    → clear_bit n bi m ≡ none
    → bi ≤ i
    → i < bi + n
    → bit_at i m ≡ true
unfolding clear_bit
clear_bit-none zero bi m i e lo hi = absurd (omega arith)
clear_bit-none (suc n) bi m i e lo hi = elim (Bool-cases (bit_at bi m)) [
  | inl t ↦ elim (Bool-cases (i == bi)) [
    | inl s ↦ let eq : i ≡ bi = (==_iff i bi).0 s in rw eq t
    | inr ne ↦ clear_bit-none n (suc bi) m i (rw t at (e)) (ground arith) (omega arith)
  ]
  | inr f ↦ absurd (let bad : some bi ≡ none = rw f at (e) in cc)
]
