-- ===== src/CString/Compare.antt =====
-- string.c: memcmp(), strncmp() and strncpy().
use spring18cs.Base.{
  ℕ, zero, suc, ◌+◌, ◌≡◌, ◌<◌, ◌≤◌, ◌⊎◌, ◌↔◌, inl, inr, refl, ◌∙◌, true, ◌==◌, arith, Bool-cases,
  ==_iff,
}
use spring18cs.CString.Memory.{Memory, set_byte, minus, memcmp, strncmp, pad, strncpy}

-- The memory holds bytes.
abbrev pub Bytes : Memory → Type 0
Bytes mem = (a : ℕ) → mem a < 256

minus-zero : (a b : ℕ) → a < 256 → b < 256 → minus a b ≡ 0 → a ≡ b
minus-zero a b ha hb e = omega arith

-- Two areas hold the same `n` bytes.
abbrev pub Same : ℕ → ℕ → ℕ → Memory → Type 0
Same p q n mem = (i : ℕ) → i < n → mem (p + i) ≡ mem (q + i)

Same-cons :
    (p q n : ℕ) (mem : Memory) → mem p ≡ mem q → Same (p + 1) (q + 1) n mem → Same p q (suc n) mem
Same-cons p q n mem e h zero lt =
    let (ep, eq) : (p + 0 ≡ p) × (q + 0 ≡ q) = (omega arith, omega arith) in rw (ep, eq) e
Same-cons p q n mem e h (suc i) lt =
    let ep : p + suc i ≡ p + 1 + i = omega arith in
    let eq : q + suc i ≡ q + 1 + i = omega arith in rw (ep, eq) (h i (omega arith))

memcmp-to : (p q n : ℕ) (mem : Memory) → Bytes mem → memcmp p q n mem ≡ 0 → Same p q n mem
unfolding memcmp
memcmp-to p q zero mem bytes e = λ i lt. absurd (omega arith)
memcmp-to p q (suc n) mem bytes e = elim (Bool-cases (mem p == mem q)) [
  | inl t ↦ Same-cons p q n mem (ground arith) (memcmp-to (p + 1) (q + 1) n mem bytes (rw t at e))
  | inr f ↦
      let d = minus-zero (mem p) (mem q) (bytes p) (bytes q) (rw f at e) in absurd (ground arith)
]

memcmp-from : (p q n : ℕ) (mem : Memory) → Same p q n mem → memcmp p q n mem ≡ 0
unfolding memcmp
memcmp-from p q zero mem h = refl
memcmp-from p q (suc n) mem h =
    let ep : p + 0 ≡ p = omega arith in
    let eq : q + 0 ≡ q = omega arith in
    let first : mem p ≡ mem q = rw (ep, eq) at (h 0 (omega arith)) in
    let t : (mem p == mem q) ≡ true = ground arith in
    rw t (
      memcmp-from (p + 1) (q + 1) n mem (λ i lt.
        let ip : p + suc i ≡ p + 1 + i = omega arith in
        let iq : q + suc i ≡ q + 1 + i = omega arith in rw (ip, iq) at (h (suc i) (omega arith))))

-- memcmp() returns 0 exactly if the two areas hold the same bytes.
pub memcmp-Same : (p q n : ℕ) (mem : Memory) → Bytes mem → (memcmp p q n mem ≡ 0) ↔ Same p q n mem
memcmp-Same p q n mem bytes = (memcmp-to p q n mem bytes, memcmp-from p q n mem)

pad-off : (s n : ℕ) (mem : Memory) (a : ℕ) → (a < s) ⊎ (s + n ≤ a) → pad s n mem a ≡ mem a
unfolding pad
pad-off s zero mem a off = refl
pad-off s (suc n) mem a (inl h) =
    pad-off (s + 1) n (set_byte s 0 mem) a (inl (omega arith)) ∙ ground arith
pad-off s (suc n) mem a (inr h) =
    pad-off (s + 1) n (set_byte s 0 mem) a (inr (omega arith)) ∙ ground arith

strncpy-off :
    (s t n : ℕ) (mem : Memory) (a : ℕ) → (a < s) ⊎ (s + n ≤ a) → strncpy s t n mem a ≡ mem a
unfolding strncpy
strncpy-off s t zero mem a off = refl
strncpy-off s t (suc n) mem a off =
    let m = set_byte s (mem t) mem in
    let kept : m a ≡ mem a = kept_at off in
    elim (Bool-cases (mem t == 0)) [
      | inl z ↦ rw z (pad-off (s + 1) n m a (further off) ∙ kept)
      | inr nz ↦ rw nz (strncpy-off (s + 1) (t + 1) n m a (further off) ∙ kept)
    ]
  where
    further : (a < s) ⊎ (s + suc n ≤ a) → (a < s + 1) ⊎ (s + 1 + n ≤ a)
    further (inl h) = inl (omega arith)
    further (inr h) = inr (omega arith)

    kept_at : (a < s) ⊎ (s + suc n ≤ a) → set_byte s (mem t) mem a ≡ mem a
    kept_at (inl h) = ground arith
    kept_at (inr h) = ground arith

-- The areas of `n` bytes at `s` and at `t` have no byte in common.
abbrev pub Apart : ℕ → ℕ → ℕ → Type 0
Apart s t n = (s + n ≤ t) ⊎ (t + n ≤ s)

-- What strncpy() copied compares equal to where it came from, over the `n` bytes of the field, if
-- the two do not overlap.
pub strncmp-strncpy :
    (s t n : ℕ) (mem : Memory) → Apart s t n → strncmp s t n (strncpy s t n mem) ≡ 0
unfolding strncmp strncpy
strncmp-strncpy s t zero mem apart = refl
strncmp-strncpy s t (suc n) mem apart =
    let m = set_byte s (mem t) mem in
    let here : m s ≡ mem t = ground arith in
    let there : m t ≡ mem t = ground arith in
    elim (Bool-cases (mem t == 0)) [
      | inl z ↦
          let first : pad (s + 1) n m s ≡ mem t =
            pad-off (s + 1) n m s (inl (omega arith)) ∙ here in
          let second : pad (s + 1) n m t ≡ mem t = pad-off (s + 1) n m t (off apart) ∙ there in
          let nul : mem t ≡ 0 = ground arith in rw (z, first, second, nul) refl
      | inr nz ↦
          let u = strncpy (s + 1) (t + 1) n m in
          let first : u s ≡ mem t = strncpy-off (s + 1) (t + 1) n m s (inl (omega arith)) ∙ here in
          let second : u t ≡ mem t = strncpy-off (s + 1) (t + 1) n m t (off apart) ∙ there in
          let same : (mem t == mem t) ≡ true = (==_iff (mem t) (mem t)).1 refl in
          rw (nz, first, second, nz, same) (strncmp-strncpy (s + 1) (t + 1) n m (closer apart))
    ]
  where
    off : Apart s t (suc n) → (t < s + 1) ⊎ (s + 1 + n ≤ t)
    off (inl h) = inr (omega arith)
    off (inr h) = inl (omega arith)

    closer : Apart s t (suc n) → Apart (s + 1) (t + 1) n
    closer (inl h) = inl (omega arith)
    closer (inr h) = inr (omega arith)
