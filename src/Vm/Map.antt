-- ===== src/Vm/Map.antt =====
-- vm.c: mappages() on the entries of an address space.
use spring18cs.Base.{
  ℕ, suc, ◌+◌, ◌-◌, ◌*◌, ◌/◌, ◌%◌, ◌^◌, ◌<◌, ◌≤◌, ◌≡◌, ◌⊎◌, inl, inr, refl, sym, ◌∙◌, Bool, true,
  false, ltb, leb, ◌==◌, if◌then◌else◌, List, Bool-cases, arith, ap, subst, ==_iff, ◌&&◌,
}
use spring18cs.Kalloc.{Kmem, page_size}
use spring18cs.Vm.{pdx, ptx, entry_of, set_word}
use spring18cs.Vm.Walk.{page_entry}
use spring18cs.Vm.Space.{entry_at, Space}
use spring18cs.Vm.Entry.{stored-Space, stored-entry_at, Found}

-- `va` lies in the `n` pages from `a` on.
abbrev pub in_pages : ℕ → ℕ → ℕ → Bool
in_pages a n va = leb a va && ltb va (a + n * page_size)

-- The entry for `va` in a run of pages from `a` on that is mapped to the pages from `pa` on.
abbrev pub run_entry : ℕ → ℕ → ℕ → ℕ → ℕ
run_entry a pa perm va = page_entry (pa + (va - a) / page_size * page_size) perm

-- What mappages() leaves: all pages of the run are mapped, or the memory ran out and a part is.
abbrev pub Mapped : ℕ → ℕ → Kmem → ℕ → ℕ → ℕ → ℕ → Bool × Kmem → ℕ → Type 0
Mapped end_addr pgdir k a n pa perm (true, k') va =
    entry_at k' pgdir va ≡ (if in_pages a n va then run_entry a pa perm va else entry_at k pgdir va)
Mapped end_addr pgdir k a n pa perm (false, k') va =
    (entry_at k' pgdir va ≡ entry_at k pgdir va)
    ⊎ ((in_pages a n va ≡ true) × (entry_at k' pgdir va ≡ run_entry a pa perm va))

abbrev pub Maps : ℕ → ℕ → Kmem → ℕ → ℕ → ℕ → ℕ → Bool × Kmem → Type 0
Maps end_addr pgdir k a n pa perm r =
    ((fs : List ℕ) × Space end_addr pgdir r.1 fs)
    × ((va : ℕ) → va < 2 ^ 32 → Mapped end_addr pgdir k a n pa perm r va)

-- Two addresses have the same entry exactly if they lie in the same page.
same_page :
    (a va : ℕ)
    → a % page_size ≡ 0
    → a < 2 ^ 32
    → va < 2 ^ 32
    → (pdx va == pdx a && ptx va == ptx a) ≡ in_pages a 1 va
same_page a va al la lv = elim (Bool-cases (in_pages a 1 va)) [
  | inl t ↦
      let q : va / 4096 ≡ a / 4096 = ground arith in
      let d : pdx va ≡ pdx a = omega arith in
      let x : ptx va ≡ ptx a = omega arith in
      rw (t, (==_iff (pdx va) (pdx a)).1 d, (==_iff (ptx va) (ptx a)).1 x) refl
  | inr f ↦ elim (Bool-cases (pdx va == pdx a && ptx va == ptx a)) [
    | inr f' ↦ rw (f, f') refl
    | inl t ↦
        let d : pdx va ≡ pdx a = ground arith in
        let x : ptx va ≡ ptx a = ground arith in
        let q : va / 4096 ≡ a / 4096 = omega arith in absurd (ground arith)
  ]
]

-- One round: the entry of the page at `a`.
pub round-entry_at :
    (end_addr pgdir a e : ℕ) (k : Kmem) (r : ℕ × Kmem)
    → a % page_size ≡ 0
    → a < 2 ^ 32
    → Found end_addr pgdir a k r
    → ((fs : List ℕ) × Space end_addr pgdir (set_word r.0 e r.1) fs)
      × ((va : ℕ)
          → va < 2 ^ 32
          → entry_at (set_word r.0 e r.1) pgdir va
            ≡ (if in_pages a 1 va then e else entry_at k pgdir va))
round-entry_at end_addr pgdir a e k r al la f =
    let lt : pdx a < 1024 = omega arith in
    let lj : ptx a < 1024 = omega arith in
    (
      (
        f.left,
        subst (λ at. Space end_addr pgdir (set_word at e r.1) f.left) (sym f.address)
            (stored-Space end_addr pgdir r.1 f.left f.space (pdx a) (ptx a) e lt lj f.tabled),
      ),
      λ va lv.
          subst
            (λ at.
              entry_at (set_word at e r.1) pgdir va
              ≡ (if in_pages a 1 va then e else entry_at k pgdir va))
            (sym f.address)
            (stored-entry_at end_addr pgdir r.1 f.left f.space (pdx a) (ptx a) e lt lj f.tabled va
              ∙ rw (same_page a va al la lv, f.same va) refl),
    )

pub run_entry-first :
    (a pa perm va : ℕ)
    → entry_of pa perm ≡ page_entry pa perm
    → in_pages a 1 va ≡ true
    → run_entry a pa perm va ≡ entry_of pa perm
run_entry-first a pa perm va flat t =
    let z : (va - a) / page_size * page_size ≡ 0 = ground arith in
    let s : pa + 0 ≡ pa = omega arith in rw (z, s, flat) refl

run_entry-rest :
    (a pa perm va : ℕ)
    → a + page_size ≤ va
    → run_entry (a + page_size) (pa + page_size) perm va ≡ run_entry a pa perm va
run_entry-rest a pa perm va h =
    ap (λ q. page_entry q perm)
      (let e : pa + page_size + (va - (a + page_size)) / page_size * page_size
            ≡ pa + (va - a) / page_size * page_size =
          omega arith in
        e)

-- A run is its first page and the run behind it.
pub Mapped-cons :
    (end_addr pgdir : ℕ) (k k1 : Kmem) (a n pa perm : ℕ) (r : Bool × Kmem) (va : ℕ)
    → entry_of pa perm ≡ page_entry pa perm
    → entry_at k1 pgdir va ≡ (if in_pages a 1 va then entry_of pa perm else entry_at k pgdir va)
    → Mapped end_addr pgdir k1 (a + page_size) n (pa + page_size) perm r va
    → Mapped end_addr pgdir k a (suc n) pa perm r va
Mapped-cons end_addr pgdir k k1 a n pa perm (true, k') va flat e m =
    elim (Bool-cases (in_pages a 1 va)) [
      | inl t ↦
          let out : in_pages (a + page_size) n va ≡ false = ground arith in
          let all : in_pages a (suc n) va ≡ true = ground arith in
          rw all (rw out at (m) ∙ rw t at (e) ∙ sym (run_entry-first a pa perm va flat t))
      | inr f ↦ elim (Bool-cases (in_pages (a + page_size) n va)) [
        | inl t ↦
            let all : in_pages a (suc n) va ≡ true = ground arith in
            rw all (rw t at (m) ∙ run_entry-rest a pa perm va (ground arith))
        | inr f' ↦
            let out : in_pages a (suc n) va ≡ false = ground arith in
            rw out (rw f' at (m) ∙ rw f at (e))
      ]
    ]
Mapped-cons end_addr pgdir k k1 a n pa perm (false, k') va flat e (inr (t, m)) =
    inr (ground arith, m ∙ run_entry-rest a pa perm va (ground arith))
Mapped-cons end_addr pgdir k k1 a n pa perm (false, k') va flat e (inl m) =
    elim (Bool-cases (in_pages a 1 va)) [
      | inl t ↦ inr (ground arith, m ∙ rw t at (e) ∙ sym (run_entry-first a pa perm va flat t))
      | inr f ↦ inl (m ∙ rw f at (e))
    ]
