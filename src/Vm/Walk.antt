-- ===== src/Vm/Walk.antt =====
-- vm.c: walkpgdir() in an address space, and the store of an entry.
use spring18cs.Base.{
  ℕ, ◌+◌, ◌*◌, ◌%◌, ◌<◌, ◌≡◌, ◌≢◌, inl, inr, refl, sym, ◌∙◌, true, false, ltb, leb, ◌==◌,
  if◌then◌else◌, bit_or, bit_or-low, bit_or-one, ◌/◌, ◌^◌, List, ◌∷◌, Bool-cases, arith, ap, ==_iff,
  ◌&&◌,
}
use spring18cs.Kalloc.{Kmem, page_size, v2p, store_word}
use spring18cs.Vm.{pdx, ptx, pte_addr, is_present, pte_w, pte_u, p2v, entry_of, zero_page, set_word}
use spring18cs.Vm.Space.{
  InRam, table_of, has_table, entry_at, Space, words_apart, Chain-stored, Chain-zeroed,
}

-- The entry of a page: its address, the flags, and the present bit.
abbrev pub page_entry : ℕ → ℕ → ℕ
page_entry pa perm = pa + (perm / 2 * 2 + 1)

pub entry_of-page_entry :
    (pa perm : ℕ) → pa % page_size ≡ 0 → perm < 4096 → entry_of pa perm ≡ page_entry pa perm
unfolding entry_of
entry_of-page_entry pa perm al lt =
    let whole : pa / 4096 * 2 ^ 12 ≡ pa = omega arith in
    let low : bit_or pa perm ≡ pa + perm = rw whole at (bit_or-low 12 (pa / 4096) perm lt) in
    omega (arith, bit_or-one (bit_or pa perm), low)

-- What an entry made of the address of a page says.
pub entry_of-page :
    (pa perm : ℕ)
    → pa % page_size ≡ 0
    → perm < 4096
    → (pte_addr (entry_of pa perm) ≡ pa) × (is_present (entry_of pa perm) ≡ true)
entry_of-page pa perm h lt =
    let e = entry_of-page_entry pa perm h lt in rw e (omega arith, ground arith)

p2v-v2p : (v : ℕ) → InRam v → (p2v (v2p v) ≡ v) × (v2p v % page_size ≡ 0)
p2v-v2p v (al, lo, hi) = (omega arith, omega arith)

-- The allocator after its first page became the table of entry `n` of the directory.
abbrev pub with_table : ℕ → ℕ → ℕ → Kmem → Kmem
with_table pgdir n x k =
    set_word (pgdir + 4 * n) (entry_of (v2p x) (pte_w + pte_u))
      (record k { mem = zero_page x k.mem; freelist = k.mem k.freelist })

module _ (end_addr pgdir : ℕ) (k : Kmem) (x : ℕ) (xs : List ℕ) (h : Space end_addr pgdir k (x ∷ xs))
    (n : ℕ) (lt : n < 1024) (no_table : has_table k pgdir n ≡ false) where
  ram : InRam x
  ram = h.free_ram x (ground arith)

  root_apart : pgdir ≢ x
  root_apart e = let t = h.root_taken in ground arith

  table_apart : (m : ℕ) → m < 1024 → has_table k pgdir m ≡ true → table_of k pgdir m ≢ x
  table_apart m hm t e = let f = h.table_taken m hm t in ground arith

  zeroed_else :
      (v i : ℕ)
      → v % page_size ≡ 0
      → v ≢ x
      → i < 1024
      → zero_page x k.mem (v + 4 * i) ≡ k.mem (v + 4 * i)
  unfolding zero_page
  zeroed_else v i hv ne hi =
      let al = ram.0 in
      let off : (leb x (v + 4 * i) && ltb (v + 4 * i) (x + page_size)) ≡ false = ground arith in
      rw off refl

  dir_word :
      (m : ℕ)
      → m < 1024
      → (with_table pgdir n x k).mem (pgdir + 4 * m)
        ≡ (if m == n then entry_of (v2p x) (pte_w + pte_u) else k.mem (pgdir + 4 * m))
  unfolding store_word
  dir_word m hm = elim (Bool-cases (m == n)) [
    | inl t ↦ let t' : (pgdir + 4 * n == pgdir + 4 * m) ≡ true = ground arith in rw (t, t') refl
    | inr f ↦
        let f' : (pgdir + 4 * n == pgdir + 4 * m) ≡ false = ground arith in
        rw (f, f') (zeroed_else pgdir m h.root.0 root_apart hm)
  ]

  -- The directory afterwards.
  pub new_has :
      (m : ℕ)
      → m < 1024
      → has_table (with_table pgdir n x k) pgdir m ≡ (if m == n then true else has_table k pgdir m)
  new_has m hm = ap is_present (dir_word m hm) ∙ elim (Bool-cases (m == n)) [
    | inl t ↦ rw t ((entry_of-page (v2p x) (pte_w + pte_u) (p2v-v2p x ram).1 (omega arith)).1)
    | inr f ↦ rw f refl
  ]

  pub new_table :
      (m : ℕ)
      → m < 1024
      → table_of (with_table pgdir n x k) pgdir m ≡ (if m == n then x else table_of k pgdir m)
  new_table m hm = ap (λ w. p2v (pte_addr w)) (dir_word m hm) ∙ elim (Bool-cases (m == n)) [
    | inl t ↦ rw t (
        ap p2v (entry_of-page (v2p x) (pte_w + pte_u) (p2v-v2p x ram).1 (omega arith)).0
        ∙ (p2v-v2p x ram).0)
    | inr f ↦ rw f refl
  ]

  pub with_table-Space : Space end_addr pgdir (with_table pgdir n x k) xs
  with_table-Space = record {
    free =
        Chain-stored end_addr (pgdir + 4 * n) (entry_of (v2p x) (pte_w + pte_u)) pgdir n
          (zero_page x k.mem) (k.mem k.freelist) xs h.root.0 lt refl
          (let t = h.root_taken in ground arith)
          (Chain-zeroed end_addr x k.mem (k.mem k.freelist) xs ram.0 h.free.2
            (rw h.free.0 h.free.3));
    free_ram = λ v t. h.free_ram v (ground arith);
    root = h.root;
    root_taken = let t = h.root_taken in ground arith;
    table = λ m hm t. elim (Bool-cases (m == n)) [
      | inl e ↦ rw (new_table m hm, e) ram
      | inr f ↦ rw (new_table m hm, f) (h.table m hm (rw (new_has m hm, f) at (t)))
    ];
    table_taken = λ m hm t. elim (Bool-cases (m == n)) [
      | inl e ↦ rw (new_table m hm, e) h.free.2
      | inr f ↦
          let q = h.table_taken m hm (rw (new_has m hm, f) at (t)) in
          rw (new_table m hm, f) (ground arith)
    ];
    not_root = λ m hm t. elim (Bool-cases (m == n)) [
      | inl e ↦ rw (new_table m hm, e) (λ q. root_apart (sym q))
      | inr f ↦ rw (new_table m hm, f) (h.not_root m hm (rw (new_has m hm, f) at (t)))
    ];
    apart = λ m l hm hl t t' q. elim (Bool-cases (m == n)) [
      | inl e ↦ elim (Bool-cases (l == n)) [
        | inl e' ↦ ground arith
        | inr f' ↦ absurd (
            table_apart l hl (rw (new_has l hl, f') at (t'))
              (sym (rw (new_table m hm, e, new_table l hl, f') at (q))))
      ]
      | inr f ↦ elim (Bool-cases (l == n)) [
        | inl e' ↦ absurd (
            table_apart m hm (rw (new_has m hm, f) at (t))
              (rw (new_table m hm, f, new_table l hl, e') at (q)))
        | inr f' ↦
            h.apart m l hm hl (rw (new_has m hm, f) at (t)) (rw (new_has l hl, f') at (t'))
              (rw (new_table m hm, f, new_table l hl, f') at (q))
      ]
    ];
  }

  other_word :
      (v i : ℕ)
      → v % page_size ≡ 0
      → v ≢ pgdir
      → i < 1024
      → (with_table pgdir n x k).mem (v + 4 * i) ≡ zero_page x k.mem (v + 4 * i)
  unfolding store_word
  other_word v i hv ne hi =
      let f : (pgdir + 4 * n == v + 4 * i) ≡ false =
        words_apart pgdir v n i h.root.0 hv (λ e. ne (sym e)) lt hi in
      rw f refl

  pub with_table-entry_at :
      (va : ℕ) → entry_at (with_table pgdir n x k) pgdir va ≡ entry_at k pgdir va
  unfolding zero_page
  with_table-entry_at va =
      let hm : pdx va < 1024 = omega arith in
      let hi : ptx va < 1024 = omega arith in
      elim (Bool-cases (pdx va == n)) [
        | inl e ↦
            let e' : pdx va ≡ n = (==_iff (pdx va) n).0 e in
            let z : zero_page x k.mem (x + 4 * ptx va) ≡ 0 =
              (let on : (leb x (x + 4 * ptx va) && ltb (x + 4 * ptx va) (x + page_size)) ≡ true =
                  ground arith in
                rw on refl) in
            let none_before : has_table k pgdir (pdx va) ≡ false = rw e' no_table in
            rw (new_has (pdx va) hm, new_table (pdx va) hm, e, none_before)
              (other_word x (ptx va) ram.0 (λ q. root_apart (sym q)) hi ∙ z)
        | inr f ↦ elim (Bool-cases (has_table k pgdir (pdx va))) [
          | inr f' ↦ rw (new_has (pdx va) hm, f, f') refl
          | inl t ↦
              rw (new_has (pdx va) hm, new_table (pdx va) hm, f, t)
                (other_word (table_of k pgdir (pdx va)) (ptx va) (h.table (pdx va) hm t).0
                    (h.not_root (pdx va) hm t) hi
                  ∙ zeroed_else (table_of k pgdir (pdx va)) (ptx va) (h.table (pdx va) hm t).0
                      (table_apart (pdx va) hm t) hi)
        ]
      ]
