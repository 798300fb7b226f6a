-- ===== src/Kalloc/Chain.antt =====
-- kalloc.c: the free list as a list of distinct pages.
use spring18cs.Base.{
  ℕ, ◌+◌, ◌%◌, ◌≤◌, ◌<◌, ◌≡◌, ◌≢◌, ◌⊎◌, refl, Bool, true, false, ◌||◌, List, [], ◌∷◌, arith, ◌==◌,
  ok,
}
use spring18cs.Kalloc.{
  Kmem, page_size, v2p, phys_top, is_page, junk_page, store_word, kalloc, kfree,
}

-- `v` starts a page that the allocator may hand out.
pub record IsPage (end_addr v : ℕ) : Type 0 where
  pub aligned : v % page_size ≡ 0
  pub above : end_addr ≤ v
  pub below : v2p v < phys_top

abbrev pub has : ℕ → List ℕ → Bool
has a [] = false
has a (x ∷ xs) = (a == x) || has a xs

-- From `p` the first words of distinct pages lead through `xs` to 0.
abbrev pub Chain : ℕ → (ℕ → ℕ) → ℕ → List ℕ → Type 0
Chain end_addr mem p [] = p ≡ 0
Chain end_addr mem p (x ∷ xs) =
    (p ≡ x) × IsPage end_addr x × (has x xs ≡ false) × Chain end_addr mem (mem x) xs

-- The free list of the allocator holds the pages `xs`, in order.
abbrev pub Holds : ℕ → Kmem → List ℕ → Type 0
Holds end_addr k xs = Chain end_addr k.mem k.freelist xs

-- What kfree(v) does to the memory.
abbrev freed : ℕ → ℕ → (ℕ → ℕ) → ℕ → ℕ
freed v p mem = store_word v p (junk_page v mem)

-- A chain survives a kfree() of a page that is not on it.
pub Chain-freed :
    (end_addr v w : ℕ) (mem : ℕ → ℕ) (p : ℕ) (xs : List ℕ)
    → IsPage end_addr v
    → has v xs ≡ false
    → Chain end_addr mem p xs
    → Chain end_addr (freed v w mem) p xs
unfolding junk_page store_word
Chain-freed end_addr v w mem p [] page out c = c
Chain-freed end_addr v w mem p (x ∷ xs) page out (e, px, nx, c) =
    let same : freed v w mem x ≡ mem x = ground arith in
    (e, px, nx, rw same (Chain-freed end_addr v w mem (mem x) xs page (ground arith) c))

is_page-true : (end_addr v : ℕ) → IsPage end_addr v → is_page end_addr v ≡ true
is_page-true end_addr v p = ground arith

-- Freeing a page that is not on the free list pushes it, and leaves the rest of the memory alone.
pub kfree-push :
    (end_addr v : ℕ) (k : Kmem) (xs : List ℕ)
    → IsPage end_addr v
    → has v xs ≡ false
    → Holds end_addr k xs
    → (k' : Kmem) × (kfree end_addr v k ≡ ok k')
      × Holds end_addr k' (v ∷ xs)
      × ((a : ℕ) → (a < v) ⊎ (v + page_size ≤ a) → k'.mem a ≡ k.mem a)
unfolding kfree junk_page store_word
kfree-push end_addr v k xs page out c =
    let w = k.freelist in
    let mem' : ℕ → ℕ = freed v w k.mem in
    let first : mem' v ≡ w = ground arith in
    (
      record k { mem = mem'; freelist = v },
      rw (is_page-true end_addr v page),
      (refl, page, out, rw first (Chain-freed end_addr v w k.mem w xs page out c)),
      λ a far. ground arith,
    )

-- What kalloc() promises on an allocator that holds `xs`.
abbrev pub Pops : ℕ → Kmem → List ℕ → Type 0
Pops end_addr k [] = kalloc k ≡ (0, k)
Pops end_addr k (x ∷ xs) =
    (k' : Kmem) × (kalloc k ≡ (x, k')) × Holds end_addr k' xs × (has x xs ≡ false) × (x ≢ 0)

-- Where the kernel does not end at 0, kalloc() on the free list `xs` pops: with no page free it
-- returns 0 and changes nothing; otherwise it returns the first page, which is not 0 and is then on
-- the list no more, and the list goes on with the rest.
pub kalloc-Pops :
    (end_addr : ℕ) (k : Kmem) (xs : List ℕ)
    → 0 < end_addr
    → Holds end_addr k xs
    → Pops end_addr k xs
unfolding kalloc
kalloc-Pops end_addr k [] pos c = ground arith
kalloc-Pops end_addr k (x ∷ xs) pos (e, px, nx, c) =
    (record k { freelist = k.mem k.freelist }, ground arith, rw e c, nx, ground arith)
