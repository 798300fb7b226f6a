-- ===== src/Kalloc/Tests.antt =====
-- kalloc.c: the theorems on an allocator of two pages.
use spring18cs.Base.{
  ℕ, ◌+◌, ◌≡◌, ◌<◌, ◌≤◌, ◌⊎◌, refl, true, false, [], ◌∷◌, arith, ◌==◌, if◌then◌else◌, ok,
}
use spring18cs.Kalloc.{Kmem, page_size, kalloc, kfree, kinit1, kinit2}
use spring18cs.Kalloc.Chain.{IsPage, has, Holds, kfree-push, Pops, kalloc-Pops}
use spring18cs.Kalloc.Range.{pages_of, kinit_lem}
use spring18cs.Kalloc.Client.{Client, Owned, Reach, here, next, alloc, kalloc_fresh}

abbrev kernel_end : ℕ
kernel_end = 0x8010_A5A8

abbrev page_a : ℕ
page_a = 0x8040_0000

abbrev page_b : ℕ
page_b = 0x8040_1000

abbrev page_c : ℕ
page_c = 0x8040_2000

-- `page_a` and `page_b` are free.
abbrev two_pages : Kmem
two_pages = record {
  mem = λ a. if a == page_a then page_b else 0;
  use_lock = true;
  freelist = page_a;
}

a-IsPage : IsPage kernel_end page_a
a-IsPage = record { aligned = refl; above = omega arith; below = omega arith }

b-IsPage : IsPage kernel_end page_b
b-IsPage = record { aligned = refl; above = omega arith; below = omega arith }

c-IsPage : IsPage kernel_end page_c
c-IsPage = record { aligned = refl; above = omega arith; below = omega arith }

two_pages-Holds : Holds kernel_end two_pages (page_a ∷ page_b ∷ [])
two_pages-Holds = (refl, a-IsPage, refl, (refl, b-IsPage, refl, refl))

kfree-push_example :
    (k' : Kmem) × (kfree kernel_end page_c two_pages ≡ ok k')
    × Holds kernel_end k' (page_c ∷ page_a ∷ page_b ∷ [])
    × ((a : ℕ) → (a < page_c) ⊎ (page_c + page_size ≤ a) → k'.mem a ≡ two_pages.mem a)
kfree-push_example =
    kfree-push kernel_end page_c two_pages (page_a ∷ page_b ∷ []) c-IsPage refl two_pages-Holds

kalloc-Pops_example : Pops kernel_end two_pages (page_a ∷ page_b ∷ [])
kalloc-Pops_example =
    kalloc-Pops kernel_end two_pages (page_a ∷ page_b ∷ []) (omega arith) two_pages-Holds

abbrev no_pages : Kmem
no_pages = record { mem = λ a. 0; use_lock = false; freelist = 0 }

kinit_lem_example :
    (k1 k2 : Kmem) × (kinit1 kernel_end kernel_end 0x8040_0000 no_pages ≡ ok k1)
    × (kinit2 kernel_end 0x8040_0000 0x8E00_0000 k1 ≡ ok k2)
    × Holds kernel_end k2 (pages_of kernel_end 0x8E00_0000 [])
    × (k1.use_lock ≡ false)
    × (k2.use_lock ≡ true)
kinit_lem_example =
    kinit_lem kernel_end 0x8040_0000 0x8E00_0000 no_pages (omega arith) (omega arith) refl
      (omega arith) (omega arith) refl

-- One caller takes `page_a`.
abbrev at_first : Client
at_first = record { kmem = two_pages; held = [] }

abbrev after_one : Client
after_one = record { kmem = record two_pages { freelist = page_b }; held = page_a ∷ [] }

at_first-Owned : Owned kernel_end at_first
at_first-Owned = (page_a ∷ page_b ∷ [], two_pages-Holds, tt)

to_after_one : Reach kernel_end at_first after_one
unfolding kalloc
to_after_one = next here (alloc page_a refl (omega arith) refl)

kalloc_fresh_example :
    let p = (kalloc after_one.kmem).0 in
    (p ≡ 0) ⊎ (IsPage kernel_end p × (has p after_one.held ≡ false))
kalloc_fresh_example = kalloc_fresh kernel_end (omega arith) at_first-Owned to_after_one
