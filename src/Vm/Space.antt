-- ===== src/Vm/Space.antt =====
-- vm.c: an address space as a table of entries, and what walkpgdir() does to it.
use spring18cs.Base.{
  ℕ, ◌+◌, ◌*◌, ◌/◌, ◌%◌, ◌<◌, ◌≤◌, ◌≡◌, ◌≢◌, refl, Bool, true, false, ltb, leb, ◌==◌, if◌then◌else◌,
  List, [], ◌∷◌, arith, ==_ne, ◌&&◌,
}
use spring18cs.Kalloc.{Kmem, page_size, kern_base, phys_top, store_word}
use spring18cs.Kalloc.Chain.{has, Holds, Chain}
use spring18cs.Vm.{pdx, ptx, pte_addr, is_present, p2v, zero_page}

-- A page of memory that the kernel maps.
abbrev pub InRam : ℕ → Type 0
InRam v = (v % page_size ≡ 0) × (kern_base ≤ v) × (v < kern_base + phys_top)

-- The page table that entry `n` of the directory leads to.
abbrev pub table_of : Kmem → ℕ → ℕ → ℕ
table_of k pgdir n = p2v (pte_addr (k.mem (pgdir + 4 * n)))

-- Entry `n` of the directory is present.
abbrev pub has_table : Kmem → ℕ → ℕ → Bool
has_table k pgdir n = is_present (k.mem (pgdir + 4 * n))

-- The page table entry of `va`, as the processor finds it; 0 where there is no page table.
abbrev pub entry_at : Kmem → ℕ → ℕ → ℕ
entry_at k pgdir va =
    if has_table k pgdir (pdx va) then k.mem (table_of k pgdir (pdx va) + 4 * ptx va) else 0

-- The directory and the page tables are different pages, and none of them is free.
pub record Space (end_addr pgdir : ℕ) (k : Kmem) (fs : List ℕ) : Type 0 where
  pub free : Holds end_addr k fs
  pub free_ram : (v : ℕ) → has v fs ≡ true → InRam v
  pub root : InRam pgdir
  pub root_taken : has pgdir fs ≡ false
  pub table : (n : ℕ) → n < 1024 → has_table k pgdir n ≡ true → InRam (table_of k pgdir n)
  pub table_taken :
      (n : ℕ) → n < 1024 → has_table k pgdir n ≡ true → has (table_of k pgdir n) fs ≡ false
  pub not_root : (n : ℕ) → n < 1024 → has_table k pgdir n ≡ true → table_of k pgdir n ≢ pgdir
  pub apart :
      (n m : ℕ)
      → n < 1024
      → m < 1024
      → has_table k pgdir n ≡ true
      → has_table k pgdir m ≡ true
      → table_of k pgdir n ≡ table_of k pgdir m
      → n ≡ m

-- Words of different pages are different.
pub words_apart :
    (v w i j : ℕ)
    → v % page_size ≡ 0
    → w % page_size ≡ 0
    → v ≢ w
    → i < 1024
    → j < 1024
    → (v + 4 * i == w + 4 * j) ≡ false
words_apart v w i j hv hw ne hi hj =
    ==_ne (v + 4 * i) (w + 4 * j)
      (λ e. ne (let q : v / page_size ≡ w / page_size = omega arith in omega arith))

-- A store into a page that is not free leaves the free list alone.
pub Chain-stored :
    (end_addr at w v i : ℕ) (mem : ℕ → ℕ) (p : ℕ) (xs : List ℕ)
    → v % page_size ≡ 0
    → i < 1024
    → at ≡ v + 4 * i
    → has v xs ≡ false
    → Chain end_addr mem p xs
    → Chain end_addr (store_word at w mem) p xs
unfolding store_word
Chain-stored end_addr at w v i mem p [] hv hi e out c = c
Chain-stored end_addr at w v i mem p (x ∷ xs) hv hi e out (ex, px, nx, c) =
    let ne : v ≢ x = λ same. ground arith in
    let n : (v + 4 * i == x + 4 * 0) ≡ false =
      words_apart v x i 0 hv px.aligned ne hi (omega arith) in
    let z : x + 4 * 0 ≡ x = omega arith in
    let n' : (at == x) ≡ false = rw (z, ← e) at (n) in
    let same : store_word at w mem x ≡ mem x = rw n' refl in
    (ex, px, nx, rw same (Chain-stored end_addr at w v i mem (mem x) xs hv hi e (ground arith) c))

pub Chain-zeroed :
    (end_addr v : ℕ) (mem : ℕ → ℕ) (p : ℕ) (xs : List ℕ)
    → v % page_size ≡ 0
    → has v xs ≡ false
    → Chain end_addr mem p xs
    → Chain end_addr (zero_page v mem) p xs
unfolding zero_page
Chain-zeroed end_addr v mem p [] hv out c = c
Chain-zeroed end_addr v mem p (x ∷ xs) hv out (ex, px, nx, c) =
    let ne : v ≢ x = λ same. ground arith in
    let al = px.aligned in
    let off : (leb v x && ltb x (v + page_size)) ≡ false = ground arith in
    let same : zero_page v mem x ≡ mem x = rw off refl in
    (ex, px, nx, rw same (Chain-zeroed end_addr v mem (mem x) xs hv (ground arith) c))
