-- ===== src/Kalloc/Range.antt =====
-- kalloc.c: freerange() and the two phases of kinit.
use spring18cs.Base.{
  ℕ, zero, suc, ◌+◌, ◌-◌, ◌*◌, ◌/◌, ◌%◌, ◌≤◌, ◌<◌, ◌≡◌, ◌∙◌, refl, true, false, List, [], ◌∷◌,
  arith, ok,
}
use native.Mathlib.Decide.{dec_le}
use spring18cs.Kalloc.{
  Kmem, page_size, page_round_up, phys_top, kfree, free_pages, freerange, kinit1, kinit2,
}
use spring18cs.Kalloc.Chain.{IsPage, has, Holds, kfree-push}

-- `n` pages from `p` on, pushed one after the other on `xs`.
unfoldable pub push_pages : ℕ → ℕ → List ℕ → List ℕ
push_pages zero p xs = xs
push_pages (suc n) p xs = push_pages n (p + page_size) (p ∷ xs)

-- All of `xs` lie below `p`.
abbrev pub Below : ℕ → List ℕ → Type 0
Below p [] = Unit {0}
Below p (x ∷ xs) = (x < p) × Below p xs

Below-mono : (p q : ℕ) (xs : List ℕ) → p ≤ q → Below p xs → Below q xs
Below-mono p q [] h b = tt
Below-mono p q (x ∷ xs) h b = (omega arith, Below-mono p q xs h b.1)

has-Below : (p : ℕ) (xs : List ℕ) → Below p xs → has p xs ≡ false
has-Below p [] b = refl
has-Below p (x ∷ xs) b = ground (arith, has-Below p xs b.1)

-- The range lies between the kernel's end and the top of physical memory.
pub record IsRange (end_addr p vend : ℕ) : Type 0 where
  pub aligned : p % page_size ≡ 0
  pub above : end_addr ≤ p
  pub kernel : 0x8000_0000 ≤ p
  pub below : vend ≤ 0x8000_0000 + phys_top

IsPage-in_range :
    {end_addr p vend : ℕ} → IsRange end_addr p vend → p + page_size ≤ vend → IsPage end_addr p
IsPage-in_range r h = omega arith

-- The pages left in the range.
abbrev pub room : ℕ → ℕ → ℕ
room p vend = (vend - p) / page_size

use_lock-kfree :
    (end_addr p : ℕ) (k k' : Kmem) → kfree end_addr p k ≡ ok k' → k'.use_lock ≡ k.use_lock
unfolding kfree
use_lock-kfree end_addr p k k' e = ground arith

free_pages-more :
    (end_addr fuel vend p : ℕ) (k k' : Kmem)
    → p + page_size ≤ vend
    → kfree end_addr p k ≡ ok k'
    → free_pages end_addr (suc fuel) vend p k ≡ free_pages end_addr fuel vend (p + page_size) k'
unfolding free_pages
free_pages-more end_addr fuel vend p k k' h e = ground arith

free_pages-done :
    (end_addr fuel vend p : ℕ) (k : Kmem)
    → vend < p + page_size
    → free_pages end_addr (suc fuel) vend p k ≡ ok k
unfolding free_pages
free_pages-done end_addr fuel vend p k h = ground arith

-- What the loop promises from `p` on.
abbrev Frees : ℕ → ℕ → ℕ → ℕ → Kmem → List ℕ → Type 0
Frees end_addr fuel vend p k xs =
    (k' : Kmem) × (free_pages end_addr fuel vend p k ≡ ok k')
    × Holds end_addr k' (push_pages (room p vend) p xs)
    × (k'.use_lock ≡ k.use_lock)

free_pages_step :
    (end_addr fuel vend p : ℕ) (k : Kmem) (xs : List ℕ)
    → IsRange end_addr p vend
    → p + page_size ≤ vend
    → Below p xs
    → Holds end_addr k xs
    → ((k' : Kmem)
        → Holds end_addr k' (p ∷ xs)
        → Frees end_addr fuel vend (p + page_size) k' (p ∷ xs))
    → Frees end_addr (suc fuel) vend p k xs
unfolding push_pages
free_pages_step end_addr fuel vend p k xs r h b c next =
    let (k', e, c', _) = kfree-push end_addr p k xs (IsPage-in_range r h) (has-Below p xs b) c in
    let (k2, e2, c2, l2) = next k' c' in
    let rooms : room p vend ≡ suc (room (p + page_size) vend) = omega arith in
    (
      k2,
      free_pages-more end_addr fuel vend p k k' h e ∙ e2,
      rw rooms c2,
      l2 ∙ use_lock-kfree end_addr p k k' e,
    )

-- The whole pages between two addresses, the last first, in front of `xs`.
abbrev pub pages_of : ℕ → ℕ → List ℕ → List ℕ
pages_of vstart vend xs = let p = page_round_up vstart in push_pages (room p vend) p xs

free_pages-Frees :
    (end_addr fuel vend p : ℕ) (k : Kmem) (xs : List ℕ)
    → IsRange end_addr p vend
    → room p vend ≤ fuel
    → Below p xs
    → Holds end_addr k xs
    → Frees end_addr fuel vend p k xs
unfolding push_pages free_pages
free_pages-Frees end_addr zero vend p k xs r enough b c =
    let none_left : room p vend ≡ 0 = omega arith in (k, refl, rw none_left c, refl)
free_pages-Frees end_addr (suc fuel) vend p k xs r enough b c = elim (dec_le (p + page_size) vend) [
  | yes more ↦ free_pages_step end_addr fuel vend p k xs r more b c λ k' c'.
      free_pages-Frees end_addr fuel vend (p + page_size) k' (p ∷ xs) (omega arith) (omega arith)
        (omega arith, Below-mono p (p + page_size) xs (omega arith) b) c'
  | no done ↦
      let none_left : room p vend ≡ 0 = omega arith in
      (k, free_pages-done end_addr fuel vend p k (omega arith), rw none_left c, refl)
]

freerange-Frees :
    (end_addr vstart vend : ℕ) (k : Kmem) (xs : List ℕ)
    → end_addr ≤ vstart
    → 0x8000_0000 ≤ vstart
    → vstart ≤ 0x8000_0000 + phys_top
    → vend ≤ 0x8000_0000 + phys_top
    → Below vstart xs
    → Holds end_addr k xs
    → (k' : Kmem) × (freerange end_addr vstart vend k ≡ ok k')
      × Holds end_addr k' (pages_of vstart vend xs)
      × (k'.use_lock ≡ k.use_lock)
unfolding freerange
freerange-Frees end_addr vstart vend k xs above kernel low high b c =
    let p = page_round_up vstart in
    free_pages-Frees end_addr (vend / page_size) vend p k xs (omega arith) (omega arith)
      (Below-mono vstart p xs (omega arith) b) c

Below-push_pages :
    (n p q : ℕ) (xs : List ℕ) → p + n * page_size ≤ q → Below q xs → Below q (push_pages n p xs)
unfolding push_pages
Below-push_pages zero p q xs h b = b
Below-push_pages (suc n) p q xs h b =
    Below-push_pages n (p + page_size) q (p ∷ xs) (omega arith) (omega arith, b)

push_pages-push_pages :
    (m n p q r : ℕ) (xs : List ℕ)
    → q ≡ p + m * page_size
    → r ≡ m + n
    → push_pages n q (push_pages m p xs) ≡ push_pages r p xs
unfolding push_pages
push_pages-push_pages zero n p q r xs e f =
    let e' : q ≡ p = omega arith in let f' : r ≡ n = omega arith in rw (e', f')
push_pages-push_pages (suc m) n p q r xs e f =
    let f' : r ≡ suc (m + n) = omega arith in
    rw f' (push_pages-push_pages m n (p + page_size) q (m + n) (p ∷ xs) (omega arith) refl)

-- Booting as main() does: kinit1(end, mid) and then kinit2(mid, top), with the kernel's end below
-- the page-aligned `mid`, and `mid` below `top`, which is at most the top of physical memory. No
-- call panics; afterwards the free list holds exactly the whole pages between the kernel's end
-- and `top`, each once, and the allocator takes its lock from then on.
pub kinit_lem :
    (end_addr mid top : ℕ) (k : Kmem)
    → 0x8000_0000 ≤ end_addr
    → end_addr ≤ mid
    → mid % page_size ≡ 0
    → mid ≤ top
    → top ≤ 0x8000_0000 + phys_top
    → k.freelist ≡ 0
    → (k1 k2 : Kmem) × (kinit1 end_addr end_addr mid k ≡ ok k1)
      × (kinit2 end_addr mid top k1 ≡ ok k2)
      × Holds end_addr k2 (pages_of end_addr top [])
      × (k1.use_lock ≡ false)
      × (k2.use_lock ≡ true)
unfolding kinit1 kinit2
kinit_lem end_addr mid top k kernel e1 al e2 high empty =
    let p = page_round_up end_addr in
    let (k1, r1, h1, l1) =
      freerange-Frees end_addr end_addr mid (record k { use_lock = false }) [] (omega arith) kernel
        (omega arith) (omega arith) tt empty in
    let (k2, r2, h2, l2) =
      freerange-Frees end_addr mid top k1 (pages_of end_addr mid []) (omega arith) (omega arith)
        (omega arith) high (Below-push_pages (room p mid) p mid [] (omega arith) tt) h1 in
    let joined : pages_of mid top (pages_of end_addr mid []) ≡ pages_of end_addr top [] =
      push_pages-push_pages (room p mid) (room (page_round_up mid) top) p (page_round_up mid)
        (room p top) [] (omega arith) (omega arith) in
    (k1, record k2 { use_lock = true }, r1, rw r2, rw joined at h2, l1, refl)
