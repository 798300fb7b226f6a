-- ===== src/Vm/Entry.antt =====
-- vm.c: what walkpgdir() returns, and the store through the address that it returns.
use spring18cs.Base.{
  ℕ, ◌+◌, ◌*◌, ◌<◌, ◌≡◌, ◌≢◌, ◌⊎◌, inl, inr, refl, sym, ◌∙◌, true, false, ◌==◌, if◌then◌else◌, List,
  [], ◌∷◌, Bool-cases, arith, ap, ==_ne, ==_iff, ◌&&◌,
}
use spring18cs.Kalloc.{Kmem, store_word, kalloc}
use spring18cs.Vm.{walkpgdir, pdx, ptx, set_word}
use spring18cs.Vm.Space.{table_of, has_table, entry_at, Space, words_apart, Chain-stored}
use spring18cs.Vm.Walk.{with_table-Space, with_table-entry_at, new_has, with_table, new_table}

module _ (end_addr pgdir : ℕ) (k : Kmem) (fs : List ℕ) (h : Space end_addr pgdir k fs) (n j w : ℕ)
    (lt : n < 1024) (lj : j < 1024) (t : has_table k pgdir n ≡ true) where
  stored_dir :
      (m : ℕ)
      → m < 1024
      → store_word (table_of k pgdir n + 4 * j) w k.mem (pgdir + 4 * m) ≡ k.mem (pgdir + 4 * m)
  unfolding store_word
  stored_dir m hm =
      let f : (table_of k pgdir n + 4 * j == pgdir + 4 * m) ≡ false =
        words_apart (table_of k pgdir n) pgdir j m (h.table n lt t).0 h.root.0 (h.not_root n lt t)
          lj hm in
      rw f refl

  pub stored-Space : Space end_addr pgdir (set_word (table_of k pgdir n + 4 * j) w k) fs
  stored-Space = record {
    free =
        Chain-stored end_addr (table_of k pgdir n + 4 * j) w (table_of k pgdir n) j k.mem k.freelist
          fs (h.table n lt t).0 lj refl (h.table_taken n lt t) h.free;
    free_ram = h.free_ram;
    root = h.root;
    root_taken = h.root_taken;
    table = λ m hm e. rw (stored_dir m hm) (h.table m hm (rw (stored_dir m hm) at (e)));
    table_taken = λ m hm e. rw (stored_dir m hm) (h.table_taken m hm (rw (stored_dir m hm) at (e)));
    not_root = λ m hm e. rw (stored_dir m hm) (h.not_root m hm (rw (stored_dir m hm) at (e)));
    apart = λ m l hm hl e e' q.
        h.apart m l hm hl (rw (stored_dir m hm) at (e)) (rw (stored_dir l hl) at (e'))
          (rw (stored_dir m hm, stored_dir l hl) at (q));
  }

  -- The entry that is stored is the one of its page, and no other entry changes.
  pub stored-entry_at :
      (va : ℕ)
      → entry_at (set_word (table_of k pgdir n + 4 * j) w k) pgdir va
        ≡ (if pdx va == n && ptx va == j then w else entry_at k pgdir va)
  unfolding store_word
  stored-entry_at va =
      let hm : pdx va < 1024 = omega arith in
      let hi : ptx va < 1024 = omega arith in
      rw (stored_dir (pdx va) hm) (elim (Bool-cases (has_table k pgdir (pdx va))) [
        | inr f ↦
            let ne : (pdx va == n) ≡ false =
              ==_ne (pdx va) n (λ e. let t' : has_table k pgdir (pdx va) ≡ true = rw e t in cc) in
            rw (f, ne) refl
        | inl t' ↦ elim (Bool-cases (pdx va == n)) [
          | inr ne ↦
              let q : table_of k pgdir n ≢ table_of k pgdir (pdx va) =
                λ e. let same = h.apart n (pdx va) lt hm t t' e in ground arith in
              let off : (table_of k pgdir n + 4 * j == table_of k pgdir (pdx va) + 4 * ptx va)
                  ≡ false =
                words_apart (table_of k pgdir n) (table_of k pgdir (pdx va)) j (ptx va)
                  (h.table n lt t).0 (h.table (pdx va) hm t').0 q lj hi in
              rw (t', ne, off) refl
          | inl e ↦
              let e' : pdx va ≡ n = (==_iff (pdx va) n).0 e in
              rw (e', t)
                (elim (Bool-cases (ptx va == j)) [
                  | inl y ↦
                      let on : (table_of k pgdir n + 4 * j == table_of k pgdir n + 4 * ptx va)
                          ≡ true =
                        ground arith in
                      let self : (n == n) ≡ true = (==_iff n n).1 refl in rw (on, self, y) refl
                  | inr y ↦
                      let off : (table_of k pgdir n + 4 * j == table_of k pgdir n + 4 * ptx va)
                          ≡ false =
                        ground arith in
                      let self : (n == n) ≡ true = (==_iff n n).1 refl in rw (off, self, y) refl
                ])
        ]
      ])

-- walkpgdir() found the entry of `va`, and no entry changed.
pub record Found (end_addr pgdir va : ℕ) (k : Kmem) (r : ℕ × Kmem) : Type 0 where
  pub left : List ℕ
  pub space : Space end_addr pgdir r.1 left
  pub tabled : has_table r.1 pgdir (pdx va) ≡ true
  pub address : r.0 ≡ table_of r.1 pgdir (pdx va) + 4 * ptx va
  pub same : (va' : ℕ) → entry_at r.1 pgdir va' ≡ entry_at k pgdir va'

-- walkpgdir() that may allocate finds the entry, or returns 0 where no page is free.
pub walkpgdir-Found :
    (end_addr pgdir va : ℕ) (k : Kmem) (fs : List ℕ)
    → Space end_addr pgdir k fs
    → (walkpgdir pgdir va true k ≡ (0, k)) ⊎ Found end_addr pgdir va k (walkpgdir pgdir va true k)
unfolding walkpgdir kalloc
walkpgdir-Found end_addr pgdir va k fs h = elim (Bool-cases (has_table k pgdir (pdx va))) [
  | inl t ↦
      rw (t, walkpgdir)
        (inr (record { left = fs; space = h; tabled = t; address = refl; same = λ va'. refl }))
  | inr f ↦ of_free fs h f
]
  where
    of_free :
        (fs : List ℕ)
        → Space end_addr pgdir k fs
        → has_table k pgdir (pdx va) ≡ false
        → (walkpgdir pgdir va true k ≡ (0, k))
          ⊎ Found end_addr pgdir va k (walkpgdir pgdir va true k)
    of_free [] h f =
        let e : (k.freelist == 0) ≡ true = (==_iff k.freelist 0).1 h.free in
        rw (walkpgdir, f, kalloc, e) (inl refl)
    of_free (x ∷ xs) h f =
        let ram = h.free_ram x (ground arith) in
        let e : (x == 0) ≡ false = ground arith in
        let lt : pdx va < 1024 = omega arith in
        let self : (pdx va == pdx va) ≡ true = (==_iff (pdx va) (pdx va)).1 refl in
        let r : ℕ × Kmem = (x + 4 * ptx va, with_table pgdir (pdx va) x k) in
        let found : Found end_addr pgdir va k r = record {
          left = xs;
          space = with_table-Space end_addr pgdir k x xs h (pdx va) lt f;
          tabled = new_has end_addr pgdir k x xs h (pdx va) lt f (pdx va) lt ∙ rw self refl;
          address =
              ap (λ q. q + 4 * ptx va)
                (sym (new_table end_addr pgdir k x xs h (pdx va) lt f (pdx va) lt ∙ rw self refl));
          same = λ va'. with_table-entry_at end_addr pgdir k x xs h (pdx va) lt f va';
        } in
        let e' : (k.freelist == 0) ≡ false = rw (h.free.0) e in
        let taken : kalloc k ≡ (x, record k { freelist = k.mem k.freelist }) =
          rw (kalloc, e')
            (ap (λ (y : ℕ). (y, record k { freelist = k.mem k.freelist })) h.free.0) in
        let eq : walkpgdir pgdir va true k ≡ r = rw (walkpgdir, f, taken, e) refl in
        inr (rw eq found)
