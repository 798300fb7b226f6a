-- ===== src/Kalloc/Client.antt =====
-- kalloc.c seen by its callers: the pages that they hold, over any sequence of calls.
use spring18cs.Base.{
  ℕ, ◌<◌, ◌≡◌, ◌≢◌, ◌⊎◌, inl, inr, refl, true, false, List, [], ◌∷◌, arith, ◌==◌, Bool-cases, subst,
  if◌then◌else◌, ok,
}
use spring18cs.Kalloc.{Kmem, kfree, kalloc}
use spring18cs.Kalloc.Chain.{IsPage, has, Holds, kfree-push, kalloc-Pops}

-- The allocator, and the pages that are handed out and not yet given back.
pub record Client : Type 0 where
  pub kmem : Kmem
  pub held : List ℕ

pub without : ℕ → List ℕ → List ℕ
without v [] = []
without v (x ∷ xs) = if v == x then xs else x ∷ without v xs

-- A call that succeeds. A caller frees only what it holds.
pub data Step (end_addr : ℕ) (s : Client) (t : Client) : Type 0 where
  alloc : (p : ℕ) → kalloc s.kmem ≡ (p, t.kmem) → p ≢ 0 → t.held ≡ p ∷ s.held → Step end_addr s t
  free :
      (v : ℕ)
      → has v s.held ≡ true
      → kfree end_addr v s.kmem ≡ ok t.kmem
      → t.held ≡ without v s.held
      → Step end_addr s t

pub data Reach (end_addr : ℕ) (s : Client) : Client → Type 0 where
  here : Reach end_addr s s
  next : {t u : Client} → Reach end_addr s t → Step end_addr t u → Reach end_addr s u

-- Distinct pages, none of them on the list `fs`.
abbrev pub Apart : ℕ → List ℕ → List ℕ → Type 0
Apart end_addr fs [] = Unit {0}
Apart end_addr fs (x ∷ xs) =
    IsPage end_addr x × (has x fs ≡ false) × (has x xs ≡ false) × Apart end_addr fs xs

abbrev pub Owned : ℕ → Client → Type 0
Owned end_addr s = (fs : List ℕ) × Holds end_addr s.kmem fs × Apart end_addr fs s.held

Apart-less :
    (end_addr x : ℕ) (fs xs : List ℕ)
    → Apart end_addr (x ∷ fs) xs
    → Apart end_addr fs xs × (has x xs ≡ false)
Apart-less end_addr x fs [] a = (tt, refl)
Apart-less end_addr x fs (y ∷ ys) (py, f, n, a) =
    let (r, d) = Apart-less end_addr x fs ys a in ((py, ground arith, n, r), ground arith)

Apart-more :
    (end_addr v : ℕ) (fs xs : List ℕ)
    → has v xs ≡ false
    → Apart end_addr fs xs
    → Apart end_addr (v ∷ fs) xs
Apart-more end_addr v fs [] d a = tt
Apart-more end_addr v fs (y ∷ ys) d (py, f, n, a) =
    (py, ground arith, n, Apart-more end_addr v fs ys (ground arith) a)

has-without : (v y : ℕ) (xs : List ℕ) → has y xs ≡ false → has y (without v xs) ≡ false
unfolding without
has-without v y [] h = refl
has-without v y (x ∷ xs) h = ground (arith, has-without v y xs)

Apart-without :
    (end_addr v : ℕ) (fs xs : List ℕ)
    → has v xs ≡ true
    → Apart end_addr fs xs
    → Apart end_addr fs (without v xs)
      × (has v (without v xs) ≡ false)
      × (has v fs ≡ false)
      × IsPage end_addr v
unfolding without
Apart-without end_addr v fs [] h a = cc
Apart-without end_addr v fs (x ∷ xs) h (px, f, n, a) = elim (Bool-cases (v == x)) [
  | inl same ↦ let e : v ≡ x = ground arith in rw same (a, rw e n, rw e f, rw e px)
  | inr other ↦
      let (a', n', f', p') = Apart-without end_addr v fs xs (ground arith) a in
      rw other ((px, f, has-without v x xs n, a'), rw other n', f', p')
]

alloc-Owned :
    (end_addr p : ℕ) (k k' : Kmem) (held fs : List ℕ)
    → 0 < end_addr
    → kalloc k ≡ (p, k')
    → p ≢ 0
    → Holds end_addr k fs
    → Apart end_addr fs held
    → (gs : List ℕ) × Holds end_addr k' gs × Apart end_addr gs (p ∷ held)
alloc-Owned end_addr p k k' held [] pos e nz h a =
    absurd (nz (cc (kalloc-Pops end_addr k [] pos h)))
alloc-Owned end_addr p k k' held (x ∷ xs) pos e nz h a =
    let (k1, e1, h1, n1, nz1) = kalloc-Pops end_addr k (x ∷ xs) pos h in
    let same : k1 ≡ k' = cc in
    let first : x ≡ p = cc in
    let (a', n') = Apart-less end_addr x xs held a in
    (xs, rw same at h1, rw (← first) (h.1, n1, n', a'))

-- A page is handed out or on the free list, and never twice, across any call.
Step-Owned :
    (end_addr : ℕ) {s t : Client}
    → 0 < end_addr
    → Step end_addr s t
    → Owned end_addr s
    → Owned end_addr t
Step-Owned end_addr {s} {t} pos (alloc p e nz eh) (fs, h, a) =
    rw eh (alloc-Owned end_addr p s.kmem t.kmem s.held fs pos e nz h a)
Step-Owned end_addr {s} {t} pos (free v hv e eh) (fs, h, a) =
    let (a', n', f', page) = Apart-without end_addr v fs s.held hv a in
    let (k1, e1, h1, _) = kfree-push end_addr v s.kmem fs page f' h in
    let same : k1 ≡ t.kmem = cc in
    (
      v ∷ fs,
      subst (λ k. Holds end_addr k (v ∷ fs)) same h1,
      rw eh (Apart-more end_addr v fs (without v s.held) n' a'),
    )

Reach-Owned :
    (end_addr : ℕ) {s t : Client}
    → 0 < end_addr
    → Owned end_addr s
    → Reach end_addr s t
    → Owned end_addr t
Reach-Owned end_addr pos o here = o
Reach-Owned end_addr pos o (next r st) = Step-Owned end_addr pos st (Reach-Owned end_addr pos o r)

-- From an allocator whose free pages are distinct and not handed out, no sequence of calls, in
-- which callers free only pages that they hold, leads to a kalloc() that returns a page that is
-- still handed out: what it returns is 0, or the start of a page that no caller holds.
pub kalloc_fresh :
    (end_addr : ℕ) {s t : Client}
    → 0 < end_addr
    → Owned end_addr s
    → Reach end_addr s t
    → let p = (kalloc t.kmem).0 in (p ≡ 0) ⊎ (IsPage end_addr p × (has p t.held ≡ false))
kalloc_fresh end_addr {s} {t} pos o r =
    let (fs, h, a) = Reach-Owned end_addr pos o r in fresh_of fs h a
  where
    fresh_of :
        (fs : List ℕ)
        → Holds end_addr t.kmem fs
        → Apart end_addr fs t.held
        → ((kalloc t.kmem).0 ≡ 0)
          ⊎ (IsPage end_addr (kalloc t.kmem).0 × (has (kalloc t.kmem).0 t.held ≡ false))
    fresh_of [] h a = inl (rw (kalloc-Pops end_addr t.kmem [] pos h))
    fresh_of (x ∷ xs) h a =
        let (k1, e1, h1, n1, nz1) = kalloc-Pops end_addr t.kmem (x ∷ xs) pos h in
        inr (rw e1 (h.1, (Apart-less end_addr x xs t.held a).1))
