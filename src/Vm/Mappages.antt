-- ===== src/Vm/Mappages.antt =====
-- vm.c: the loop of mappages(), and the call.
use spring18cs.Base.{
  ℕ, zero, suc, ◌+◌, ◌-◌, ◌*◌, ◌/◌, ◌%◌, ◌^◌, ◌<◌, ◌≤◌, ◌≡◌, ◌⊎◌, inl, inr, refl, sym, ◌∙◌, true,
  false, ◌==◌, if◌then◌else◌, List, Bool-cases, arith, ap, ==_ne, Returns, Returns-cases,
}
use spring18cs.Kalloc.{Kmem, page_size}
use spring18cs.Vm.{
  walkpgdir, pdx, ptx, is_present, entry_of, set_word, map_from, mappages, page_round_down,
}
use spring18cs.Vm.Space.{table_of, entry_at, Space}
use spring18cs.Vm.Walk.{entry_of-page_entry, page_entry}
use spring18cs.Vm.Entry.{Found, walkpgdir-Found}
use spring18cs.Vm.Map.{in_pages, Maps, Mapped, round-entry_at, Mapped-cons, run_entry-first}

-- None of the `n` pages from `a` on is mapped.
abbrev pub Unmapped : ℕ → Kmem → ℕ → ℕ → Type 0
Unmapped pgdir k a n =
    (va : ℕ) → va < 2 ^ 32 → in_pages a n va ≡ true → is_present (entry_at k pgdir va) ≡ false

-- The entry that was found is not null, and is the one of the address.
Found-entry :
    (end_addr pgdir a : ℕ) (k : Kmem) (r : ℕ × Kmem)
    → Found end_addr pgdir a k r
    → ((r.0 == 0) ≡ false) × (r.1.mem r.0 ≡ entry_at k pgdir a)
Found-entry end_addr pgdir a k r f =
    let lt : pdx a < 1024 = omega arith in
    let ram = f.space.table (pdx a) lt f.tabled in
    let e : r.0 ≡ table_of r.1 pgdir (pdx a) + 4 * ptx a = f.address in
    (
      ==_ne r.0 0 (λ z.
          let q : table_of r.1 pgdir (pdx a) + 4 * ptx a ≡ 0 = sym e ∙ z in
          let lo = ram.1 in omega arith),
      ap r.1.mem e ∙ (let same = f.same a in rw f.tabled at (same)),
    )

run_of_one :
    (end_addr pgdir a pa perm : ℕ) (k k' : Kmem)
    → entry_of pa perm ≡ page_entry pa perm
    → ((va : ℕ)
        → va < 2 ^ 32
        → entry_at k' pgdir va
          ≡ (if in_pages a 1 va then entry_of pa perm else entry_at k pgdir va))
    → (va : ℕ) → va < 2 ^ 32
    → Mapped end_addr pgdir k a 1 pa perm (true, k') va
run_of_one end_addr pgdir a pa perm k k' flat h va lv =
    h va lv ∙ elim (Bool-cases (in_pages a 1 va)) [
      | inl t ↦ rw t (sym (run_entry-first a pa perm va flat t))
      | inr f ↦ rw f refl
    ]

-- The allocator after a round that maps the page at `a`.
abbrev mapped_one : ℕ → ℕ → ℕ → ℕ → Kmem → Kmem
mapped_one pgdir a pa perm k =
    let r = walkpgdir pgdir a true k in set_word r.0 (entry_of pa perm) r.1

-- A round that goes through.
record Round (end_addr pgdir a pa perm : ℕ) (k : Kmem) : Type 0 where
  found : ((walkpgdir pgdir a true k).0 == 0) ≡ false
  clear : is_present ((walkpgdir pgdir a true k).1.mem (walkpgdir pgdir a true k).0) ≡ false
  left : List ℕ
  space : Space end_addr pgdir (mapped_one pgdir a pa perm k) left
  entries :
      (va : ℕ)
      → va < 2 ^ 32
      → entry_at (mapped_one pgdir a pa perm k) pgdir va
        ≡ (if in_pages a 1 va then entry_of pa perm else entry_at k pgdir va)

Round-cases :
    (end_addr pgdir n a pa perm : ℕ) (k : Kmem) (fs : List ℕ)
    → a % page_size ≡ 0
    → a < 2 ^ 32
    → Space end_addr pgdir k fs
    → Unmapped pgdir k a (suc n)
    → (walkpgdir pgdir a true k ≡ (0, k)) ⊎ Round end_addr pgdir a pa perm k
Round-cases end_addr pgdir n a pa perm k fs al la h free =
    elim (walkpgdir-Found end_addr pgdir a k fs h) [
      | inl e ↦ inl e
      | inr f ↦
          let r = walkpgdir pgdir a true k in
          let (nz, at) = Found-entry end_addr pgdir a k r f in
          let ((gs, sp), ents) = round-entry_at end_addr pgdir a (entry_of pa perm) k r al la f in
          inr (record {
            found = nz;
            clear = rw at (free a la (ground arith));
            left = gs;
            space = sp;
            entries = ents;
          })
    ]

-- `n` is the number of pages behind the one at `a`.
map_from-Maps :
    (end_addr pgdir n fuel a last pa perm : ℕ) (k : Kmem) (fs : List ℕ)
    → n < fuel
    → a % page_size ≡ 0
    → last ≡ a + n * page_size
    → last < 2 ^ 32
    → pa + n * page_size < 2 ^ 32
    → pa % page_size ≡ 0
    → perm < 4096
    → Space end_addr pgdir k fs
    → Unmapped pgdir k a (suc n)
    → Returns (Maps end_addr pgdir k a (suc n) pa perm) (map_from fuel pgdir a last pa perm k)
unfolding map_from
map_from-Maps end_addr pgdir n zero a last pa perm k fs enough al el ll lp pal lf h free =
    absurd (omega arith)
map_from-Maps end_addr pgdir zero (suc fuel) a last pa perm k fs enough al el ll lp pal lf h free =
    elim (Round-cases end_addr pgdir zero a pa perm k fs al (omega arith) h free) [
      | inl e ↦ rw (e, map_from) ((fs, h), λ va lv. inl refl)
      | inr r ↦
          let stop : (a == last) ≡ true = ground arith in
          rw (map_from, r.found, r.clear, stop)
            (
              (r.left, r.space),
              run_of_one end_addr pgdir a pa perm k (mapped_one pgdir a pa perm k)
                  (entry_of-page_entry pa perm pal lf) r.entries,
            )
    ]
map_from-Maps end_addr pgdir (suc m) (suc fuel) a last pa perm k fs enough al el ll lp pal lf h
      free =
    elim (Round-cases end_addr pgdir (suc m) a pa perm k fs al (omega arith) h free) [
      | inl e ↦ rw (e, map_from) ((fs, h), λ va lv. inl refl)
      | inr r ↦
          let on : (a == last) ≡ false = ground arith in
          let ea : (a + page_size) % 2 ^ 32 ≡ a + page_size = omega arith in
          let ep : (pa + page_size) % 2 ^ 32 ≡ pa + page_size = omega arith in
          let done = mapped_one pgdir a pa perm k in
          let free' : Unmapped pgdir done (a + page_size) (suc m) = λ va lv t.
            let out : in_pages a 1 va ≡ false = ground arith in
            let e = rw out at (r.entries va lv) in rw e (free va lv (ground arith)) in
          let (w, ew, (sp', maps)) =
            Returns-cases (map_from fuel pgdir (a + page_size) last (pa + page_size) perm done) (
              map_from-Maps end_addr pgdir m fuel (a + page_size) last (pa + page_size) perm done
                r.left (omega arith) (omega arith) (omega arith) ll (omega arith) (omega arith) lf
                r.space free') in
          rw (map_from, r.found, r.clear, on, ea, ep, ew)
            (
              sp',
              λ va lv.
                  Mapped-cons end_addr pgdir k done a (suc m) pa perm w va
                    (entry_of-page_entry pa perm pal lf) (r.entries va lv) (maps va lv),
            )
    ]

-- The pages that mappages() maps behind that of `va`.
abbrev pub pages_behind : ℕ → ℕ → ℕ
pages_behind va size = (va + size - 1) / page_size - va / page_size

-- mappages() of the pages from the one of `va` to the one of `va + size - 1`, none of them mapped,
-- in a sound address space, to physical pages below 2 ^ 32, with flags below 4096: it does not panic and needs no
-- more rounds than there are pages. Returning 0, the entry of every address in these pages is the
-- address of the physical page in the same place plus the flags given, with PTE_P set, and returning -1 such an entry or
-- the old one; the entries of all other addresses stay, and the address space stays sound.
pub mappages-Maps :
    (end_addr pgdir va size pa perm : ℕ) (k : Kmem) (fs : List ℕ)
    → 0 < size
    → va + size ≤ 2 ^ 32
    → pa + pages_behind va size * page_size < 2 ^ 32
    → pa % page_size ≡ 0
    → perm < 4096
    → Space end_addr pgdir k fs
    → Unmapped pgdir k (page_round_down va) (suc (pages_behind va size))
    → Returns
        (Maps end_addr pgdir k (page_round_down va) (suc (pages_behind va size)) pa perm)
        (mappages pgdir va size pa perm k)
unfolding mappages
mappages-Maps end_addr pgdir va size pa perm k fs pos fits lp pal lf h free =
    let e : (va + size + 2 ^ 32 - 1) % 2 ^ 32 ≡ va + size - 1 = omega arith in
    rw (mappages, e)
      (map_from-Maps end_addr pgdir (pages_behind va size) (2 ^ 20) (page_round_down va)
        (page_round_down (va + size - 1)) pa perm k fs (omega arith) (omega arith) (omega arith)
        (omega arith) lp pal lf h free)
