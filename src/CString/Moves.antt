-- ===== src/CString/Moves.antt =====
-- string.c: what memset() and memmove() leave at every address.
use spring18cs.Base.{
  ℕ, zero, suc, ◌+◌, ◌-◌, ◌*◌, ◌/◌, ◌%◌, ◌^◌, ◌≡◌, ◌<◌, ◌≤◌, ◌⊎◌, inl, inr, refl, ◌∙◌, Bool, true,
  false, ◌&&◌, ltb, leb, ◌==◌, if◌then◌else◌, arith, Bool-cases, ==_ne, ◌≢◌,
}
use native.Mathlib.Decide.{dec_le}
use spring18cs.CString.Memory.{
  Memory, set_byte, stosb, set_word, stosl, memset, copy_up, copy_down, memmove,
}

-- `a` is one of the `n` addresses from `at` on.
abbrev pub within : ℕ → ℕ → ℕ → Bool
within at n a = leb at a && ltb a (at + n)

stosb-Fills :
    (at v n : ℕ) (mem : Memory) (a : ℕ)
    → stosb at v n mem a ≡ (if within at n a then v % 256 else mem a)
unfolding stosb
stosb-Fills at v zero mem a = ground arith
stosb-Fills at v (suc n) mem a =
    stosb-Fills (at + 1) v n (set_byte at (v % 256) mem) a ∙ ground arith

stosl-Fills :
    (at b n : ℕ) (mem : Memory) (a : ℕ)
    → b < 256
    → stosl at (b * 2 ^ 24 + b * 2 ^ 16 + b * 2 ^ 8 + b) n mem a
      ≡ (if within at (4 * n) a then b else mem a)
unfolding stosl
stosl-Fills at b zero mem a h = ground arith
stosl-Fills at b (suc n) mem a h =
    let w = b * 2 ^ 24 + b * 2 ^ 16 + b * 2 ^ 8 + b in
    let b0 : w % 256 ≡ b = omega arith in
    let b1 : w / 2 ^ 8 % 256 ≡ b = omega arith in
    let b2 : w / 2 ^ 16 % 256 ≡ b = omega arith in
    let b3 : w / 2 ^ 24 % 256 ≡ b = omega arith in
    stosl-Fills (at + 4) b n (set_word at w mem) a h ∙ rw (b0, b1, b2, b3) (ground arith)

-- memset() sets the `n` bytes from `dst` on to the low byte of `c`, and no others, whether it goes
-- by words or by bytes.
pub memset-Fills :
    (dst c n : ℕ) (mem : Memory) (a : ℕ)
    → memset dst c n mem a ≡ (if within dst n a then c % 256 else mem a)
unfolding memset
memset-Fills dst c n mem a = elim (Bool-cases (dst % 4 == 0 && n % 4 == 0)) [
  | inl t ↦
      let whole : 4 * (n / 4) ≡ n = ground arith in
      rw t (stosl-Fills dst (c % 256) (n / 4) mem a (omega arith) ∙ rw whole refl)
  | inr f ↦ rw f (stosb-Fills dst c n mem a)
]

-- Bytes before `s` overwritten do not matter to a copy upwards.
copy_up-Copies :
    (d s n : ℕ) (mem : Memory) (a : ℕ)
    → (d ≤ s) ⊎ (s + n ≤ d)
    → copy_up d s n mem a ≡ (if within d n a then mem (s + (a - d)) else mem a)
unfolding copy_up
copy_up-Copies d s zero mem a apart = ground arith
copy_up-Copies d s (suc n) mem a apart =
    copy_up-Copies (d + 1) (s + 1) n (set_byte d (mem s) mem) a (further apart)
    ∙ elim (Bool-cases (within (d + 1) n a)) [
      | inl t ↦
          let ix : s + 1 + (a - (d + 1)) ≡ s + (a - d) = ground arith in
          let big : within d (suc n) a ≡ true = ground arith in
          let ne : (s + (a - d) == d) ≡ false = ==_ne (s + (a - d)) d (safe apart t) in
          rw (t, big, ix, ne) refl
      | inr f ↦ elim (Bool-cases (a == d)) [
        | inl t ↦
            let same : a ≡ d = ground arith in
            let big : within d (suc n) a ≡ true = ground arith in
            let ix : s + (a - d) ≡ s = omega arith in rw (f, big, t, ix) refl
        | inr ne ↦ let small : within d (suc n) a ≡ false = ground arith in rw (f, small, ne) refl
      ]
    ]
  where
    further : (d ≤ s) ⊎ (s + suc n ≤ d) → (d + 1 ≤ s + 1) ⊎ (s + 1 + n ≤ d + 1)
    further (inl h) = inl (omega arith)
    further (inr h) = inr (omega arith)

    safe : (d ≤ s) ⊎ (s + suc n ≤ d) → within (d + 1) n a ≡ true → s + (a - d) ≢ d
    safe (inl h) t = ground arith
    safe (inr h) t = ground arith

copy_down-Copies :
    (d s n : ℕ) (mem : Memory) (a : ℕ)
    → s ≤ d
    → copy_down d s n mem a ≡ (if within d n a then mem (s + (a - d)) else mem a)
unfolding copy_down
copy_down-Copies d s zero mem a below = ground arith
copy_down-Copies d s (suc n) mem a below =
    copy_down-Copies d s n (set_byte (d + n) (mem (s + n)) mem) a below
    ∙ elim (Bool-cases (within d n a)) [
      | inl t ↦
          let big : within d (suc n) a ≡ true = ground arith in
          let ne : (s + (a - d) == d + n) ≡ false = ground arith in rw (t, big, ne) refl
      | inr f ↦ elim (Bool-cases (a == d + n)) [
        | inl t ↦
            let same : a ≡ d + n = ground arith in
            let big : within d (suc n) a ≡ true = ground arith in
            let ix : s + (a - d) ≡ s + n = omega arith in rw (f, big, t, ix) refl
        | inr ne ↦ let small : within d (suc n) a ≡ false = ground arith in rw (f, small, ne) refl
      ]
    ]

-- memmove() copies as if the source were read whole before the first write, however the two areas
-- overlap: the `n` bytes from `dst` on are then what the bytes from `src` on were, and no other
-- byte changes.
pub memmove-Copies :
    (dst src n : ℕ) (mem : Memory) (a : ℕ)
    → memmove dst src n mem a ≡ (if within dst n a then mem (src + (a - dst)) else mem a)
unfolding memmove
memmove-Copies dst src n mem a = elim (Bool-cases (ltb src dst && ltb dst (src + n))) [
  | inl t ↦ rw t (copy_down-Copies dst src n mem a (ground arith))
  | inr f ↦ rw f (copy_up-Copies dst src n mem a (apart f))
]
  where
    apart : (ltb src dst && ltb dst (src + n)) ≡ false → (dst ≤ src) ⊎ (src + n ≤ dst)
    apart f = elim (dec_le dst src) [ yes h ↦ inl h | no h ↦ inr (ground arith) ]
