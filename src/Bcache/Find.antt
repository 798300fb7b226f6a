-- ===== src/Bcache/Find.antt =====
-- bio.c: what the loops of bget() find, and what stays in the ring.
use spring18cs.Base.{
  ℕ, refl, ◌≡◌, inl, inr, Bool, true, false, ◌==◌, List, [], ◌∷◌, ◌++◌, none, some, get_elem?,
  Bool-cases, Option-cases, arith,
}
use spring18cs.Bcache.{Buf, buf_at, find_buf, backwards, unlink_buf}
use spring18cs.Kalloc.Chain.{has}

-- A buffer that passes is in the cache.
pub buf_at-some :
    (test : Buf → Bool) (bufs : List Buf) (i : ℕ)
    → buf_at test bufs i ≡ true
    → (b : Buf) × (get_elem? bufs i ≡ some b) × (test b ≡ true)
buf_at-some test bufs i t = elim (Option-cases (get_elem? bufs i)) [
  | inl n ↦ absurd (ground arith)
  | inr (b, s) ↦ (b, s, ground arith)
]

pub buf_at-of :
    (test : Buf → Bool) (bufs : List Buf) (i : ℕ) {b : Buf}
    → get_elem? bufs i ≡ some b
    → buf_at test bufs i ≡ test b
buf_at-of test bufs i s = rw (s, buf_at) refl

-- The buffer found passes.
pub find_buf-some :
    (test : Buf → Bool) (bufs : List Buf) (ring : List ℕ) {i : ℕ}
    → find_buf test bufs ring ≡ some i
    → (b : Buf) × (get_elem? bufs i ≡ some b) × (test b ≡ true)
unfolding find_buf
find_buf-some test bufs [] e = cc
find_buf-some test bufs (j ∷ ring) {i} e = elim (Bool-cases (buf_at test bufs j)) [
  | inl t ↦
      let (b, s, p) = buf_at-some test bufs j t in
      let same : j ≡ i = ground arith in (b, rw (← same) s, p)
  | inr f ↦ find_buf-some test bufs ring (ground arith)
]

-- Where none is found, none of the ring passes.
pub find_buf-none :
    (test : Buf → Bool) (bufs : List Buf) (ring : List ℕ) (i : ℕ) {b : Buf}
    → find_buf test bufs ring ≡ none
    → has i ring ≡ true
    → get_elem? bufs i ≡ some b
    → test b ≡ false
unfolding find_buf
find_buf-none test bufs [] i e h s = cc
find_buf-none test bufs (j ∷ ring) i {b} e h s = elim (Bool-cases (buf_at test bufs j)) [
  | inl t ↦ absurd (ground arith)
  | inr f ↦ elim (Bool-cases (i == j)) [
    | inl same ↦
        let e' : i ≡ j = ground arith in
        let s' : get_elem? bufs j ≡ some b = rw (← e') s in ground arith
    | inr other ↦ find_buf-none test bufs ring i (ground arith) (ground arith) s
  ]
]

-- A buffer that is moved within the ring, and all others, stay in it.
pub has-unlink_buf :
    (i j : ℕ) (ring : List ℕ) → has j ring ≡ true → has j (i ∷ unlink_buf i ring) ≡ true
unfolding unlink_buf
has-unlink_buf i j [] h = cc
has-unlink_buf i j (k ∷ ring) h = ground (arith, has-unlink_buf i j ring)

pub has-backwards : (i : ℕ) (ring : List ℕ) → has i ring ≡ true → has i (backwards ring) ≡ true
has-backwards i [] h = cc
has-backwards i (j ∷ ring) h = elim (Bool-cases (i == j)) [
  | inl t ↦ last (backwards ring) t
  | inr f ↦ further (backwards ring) (has-backwards i ring (ground arith))
]
  where
    last : (xs : List ℕ) → (i == j) ≡ true → has i (xs ++ (j ∷ [])) ≡ true
    last [] t = ground arith
    last (x ∷ xs) t = ground (arith, last xs t)

    further : (xs : List ℕ) → has i xs ≡ true → has i (xs ++ (j ∷ [])) ≡ true
    further [] h' = cc
    further (x ∷ xs) h' = ground (arith, further xs)
