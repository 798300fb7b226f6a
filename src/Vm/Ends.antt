-- ===== src/Vm/Ends.antt =====
-- vm.c: the loops over the pages of an address space end.
use spring18cs.Base.{
  Ends, Ends-bind, ℕ, zero, suc, ◌+◌, ◌-◌, ◌*◌, ◌%◌, ◌^◌, ◌<◌, ◌≤◌, ◌≡◌, ◌≢◌, inl, inr, true, false,
  ltb, leb, ◌==◌, Bool-cases, arith, ok,
}
use spring18cs.Kalloc.{Kmem, page_size, kern_base, v2p, kfree, kalloc, is_page, page_round_up}
use spring18cs.Vm.{
  walkpgdir, map_from, mappages, unmap_from, deallocuvm, grow_from, allocuvm, pte_addr, is_present,
  p2v, set_word, page_round_down, entry_of, zero_page, pte_w, pte_u,
}

pub kfree-Ends : (end_addr v : ℕ) (k : Kmem) → Ends (kfree end_addr v k)
unfolding kfree
kfree-Ends end_addr v k = elim (Bool-cases (is_page end_addr v)) [
  | inl t ↦ rw (t, kfree) (λ e. cc)
  | inr f ↦ rw (f, kfree) (λ e. cc)
]

pub map_from-Ends :
    (pgdir fuel a last pa perm : ℕ) (k : Kmem)
    → 0 < fuel
    → a % page_size ≡ 0
    → last % page_size ≡ 0
    → last < 2 ^ 32
    → a ≤ last
    → last < a + fuel * page_size
    → Ends (map_from fuel pgdir a last pa perm k)
unfolding map_from
map_from-Ends pgdir zero a last pa perm k pos al ll lw le enough = absurd (omega arith)
map_from-Ends pgdir (suc fuel) a last pa perm k pos al ll lw le enough =
    let r = walkpgdir pgdir a true k in
    elim (Bool-cases (r.0 == 0)) [
      | inl t ↦ rw (map_from, t) (λ e. cc)
      | inr f ↦ elim (Bool-cases (is_present (r.1.mem r.0))) [
        | inl t' ↦ rw (map_from, f, t') (λ e. cc)
        | inr f' ↦ elim (Bool-cases (a == last)) [
          | inl t'' ↦ rw (map_from, f, f', t'') (λ e. cc)
          | inr f'' ↦
              let ne : a ≢ last = λ e. ground arith in
              let ea : (a + page_size) % 2 ^ 32 ≡ a + page_size = omega arith in
              rw (map_from, f, f', f'', ea)
                (map_from-Ends pgdir fuel (a + page_size) last ((pa + page_size) % 2 ^ 32) perm
                  (set_word r.0 (entry_of pa perm) r.1) (omega arith) (omega arith) ll lw
                  (omega arith) (omega arith))
        ]
      ]
    ]

pub mappages-Ends :
    (pgdir va size pa perm : ℕ) (k : Kmem)
    → 0 < size
    → va + size ≤ 2 ^ 32
    → Ends (mappages pgdir va size pa perm k)
unfolding mappages
mappages-Ends pgdir va size pa perm k pos fits =
    let e : (va + size + 2 ^ 32 - 1) % 2 ^ 32 ≡ va + size - 1 = omega arith in
    rw (mappages, e)
      (map_from-Ends pgdir (2 ^ 20) (page_round_down va) (page_round_down (va + size - 1)) pa perm k
        (omega arith) (omega arith) (omega arith) (omega arith) (omega arith) (omega arith))

unmap_from-Ends :
    (end_addr fuel pgdir a oldsz : ℕ) (k : Kmem)
    → 0 < fuel
    → oldsz ≤ kern_base
    → oldsz + page_size ≤ a + fuel * page_size
    → Ends (unmap_from end_addr fuel pgdir a oldsz k)
unfolding unmap_from
unmap_from-Ends end_addr zero pgdir a oldsz k pos low enough = absurd (omega arith)
unmap_from-Ends end_addr (suc fuel) pgdir a oldsz k pos low enough =
    let pte = (walkpgdir pgdir a false k).0 in
    elim (Bool-cases (ltb a oldsz)) [
      | inr f ↦ rw (unmap_from, f) (λ e. cc)
      | inl t ↦
          let small : a < oldsz = ground arith in
          let one : (a + page_size) % 2 ^ 32 ≡ a + page_size = omega arith in
          let many : (a + 1024 * page_size) % 2 ^ 32 ≡ a + 1024 * page_size = omega arith in
          let next = λ (k' : Kmem).
            unmap_from-Ends end_addr fuel pgdir (a + page_size) oldsz k' (omega arith) low
              (omega arith) in
          elim (Bool-cases (pte == 0)) [
            | inl z ↦
                rw (unmap_from, t, z, many)
                  (unmap_from-Ends end_addr fuel pgdir (a + 1024 * page_size) oldsz k (omega arith)
                    low (omega arith))
            | inr nz ↦ elim (Bool-cases (is_present (k.mem pte))) [
              | inr f' ↦ rw (unmap_from, t, nz, f', one) (next k)
              | inl t' ↦ elim (Bool-cases (pte_addr (k.mem pte) == 0)) [
                | inl z' ↦ rw (unmap_from, t, nz, t', z') (λ e. cc)
                | inr nz' ↦
                    rw (unmap_from, t, nz, t', nz', one)
                      (Ends-bind (kfree end_addr (p2v (pte_addr (k.mem pte))) k)
                        (λ k'.
                          unmap_from end_addr fuel pgdir (a + page_size) oldsz (set_word pte 0 k'))
                        (kfree-Ends end_addr (p2v (pte_addr (k.mem pte))) k)
                        (λ k'. next (set_word pte 0 k')))
              ]
            ]
          ]
    ]

pub deallocuvm-Ends :
    (end_addr pgdir oldsz newsz : ℕ) (k : Kmem)
    → oldsz ≤ kern_base
    → Ends (deallocuvm end_addr pgdir oldsz newsz k)
unfolding deallocuvm
deallocuvm-Ends end_addr pgdir oldsz newsz k low = elim (Bool-cases (leb oldsz newsz)) [
  | inl t ↦ rw (deallocuvm, t) (λ e. cc)
  | inr f ↦
      rw (deallocuvm, f)
        (Ends-bind (unmap_from end_addr (2 ^ 20 + 1) pgdir (page_round_up newsz) oldsz k)
          (λ k'. ok (newsz, k'))
          (unmap_from-Ends end_addr (2 ^ 20 + 1) pgdir (page_round_up newsz) oldsz k (omega arith)
            low (omega arith))
          (λ k' e. cc))
]

grow_from-Ends :
    (end_addr fuel pgdir a oldsz newsz : ℕ) (k : Kmem)
    → 0 < fuel
    → newsz ≤ kern_base
    → newsz + page_size ≤ a + fuel * page_size
    → Ends (grow_from end_addr fuel pgdir a oldsz newsz k)
unfolding grow_from
grow_from-Ends end_addr zero pgdir a oldsz newsz k pos low enough = absurd (omega arith)
grow_from-Ends end_addr (suc fuel) pgdir a oldsz newsz k pos low enough =
    let r = kalloc k in
    elim (Bool-cases (ltb a newsz)) [
      | inr f ↦ rw (grow_from, f) (λ e. cc)
      | inl t ↦
          let small : a < newsz = ground arith in
          let one : (a + page_size) % 2 ^ 32 ≡ a + page_size = omega arith in
          elim (Bool-cases (r.0 == 0)) [
            | inl z ↦
                rw (grow_from, t, z)
                  (Ends-bind (deallocuvm end_addr pgdir newsz oldsz r.1) (λ q. ok (0, q.1))
                    (deallocuvm-Ends end_addr pgdir newsz oldsz r.1 low) (λ q e. cc))
            | inr nz ↦
                let k' : Kmem = record r.1 { mem = zero_page r.0 r.1.mem } in
                rw (grow_from, t, nz, one)
                  (Ends-bind (mappages pgdir a page_size (v2p r.0) (pte_w + pte_u) k')
                    (λ q. grow_from end_addr fuel pgdir (a + page_size) oldsz newsz q.1)
                    (mappages-Ends pgdir a page_size (v2p r.0) (pte_w + pte_u) k' (omega arith)
                      (omega arith))
                    (λ q.
                      grow_from-Ends end_addr fuel pgdir (a + page_size) oldsz newsz q.1
                        (omega arith) low (omega arith)))
          ]
    ]

pub allocuvm-Ends :
    (end_addr pgdir oldsz newsz : ℕ) (k : Kmem) → Ends (allocuvm end_addr pgdir oldsz newsz k)
unfolding allocuvm
allocuvm-Ends end_addr pgdir oldsz newsz k = elim (Bool-cases (leb kern_base newsz)) [
  | inl t ↦ rw (allocuvm, t) (λ e. cc)
  | inr f ↦ elim (Bool-cases (ltb newsz oldsz)) [
    | inl t' ↦ rw (allocuvm, f, t') (λ e. cc)
    | inr f' ↦
        rw (allocuvm, f, f')
          (grow_from-Ends end_addr (2 ^ 20) pgdir (page_round_up oldsz) oldsz newsz k (omega arith)
            (ground arith) (ground arith))
  ]
]
