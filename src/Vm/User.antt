-- ===== src/Vm/User.antt =====
-- vm.c: the user part of an address space: its first page, its copy for a child, and the access
-- of the kernel to it.
use spring18cs.Base.{
  ℕ, zero, suc, ◌+◌, ◌-◌, ◌%◌, ◌^◌, true, false, not, ltb, leb, ◌==◌, if◌then◌else◌, List, [], ◌∷◌,
  Outcome, ok, panic, ◌>>=◌,
}
use spring18cs.Kalloc.{Kmem, page_size, v2p, store_word, kalloc}
use spring18cs.Vm.{
  walkpgdir, mappages, setupkvm, freevm, pte_addr, pte_flags, is_present, is_user, pte_w, pte_u,
  p2v, zero_page, copy_page, set_word,
}

-- memmove() of words to address `at`
unfoldable pub store_words : ℕ → List ℕ → (ℕ → ℕ) → ℕ → ℕ
store_words at [] mem = mem
store_words at (w ∷ ws) mem = store_words (at + 4) ws (store_word at w mem)

-- inituvm() of the `sz` bytes that stand in the words `init`. A null page would be written to at
-- address 0.
unfoldable pub inituvm : ℕ → List ℕ → ℕ → Kmem → Outcome Kmem
inituvm pgdir init sz k =
    let (mem, k') = kalloc k in
    if leb page_size sz then panic "inituvm: more than a page" else do
      (_, k'') ←
          mappages pgdir 0 page_size (v2p mem) (pte_w + pte_u)
            (record k' { mem = zero_page mem k'.mem })
      ok (record k'' { mem = store_words mem init k''.mem })

-- clearpteu()
unfoldable pub clearpteu : ℕ → ℕ → Kmem → Outcome Kmem
clearpteu pgdir uva k =
    let (pte, _) = walkpgdir pgdir uva false k in
    if pte == 0
    then panic "clearpteu"
    else ok (set_word pte (if is_user (k.mem pte) then k.mem pte - pte_u else k.mem pte) k)

-- uva2ka(): the address, or 0. Where there is no page table it reads the entry at address 0.
unfoldable pub uva2ka : ℕ → ℕ → Kmem → ℕ
uva2ka pgdir uva k =
    let (pte, _) = walkpgdir pgdir uva false k in
    if not (is_present (k.mem pte))
    then 0
    else if not (is_user (k.mem pte))
    then 0
    else p2v (pte_addr (k.mem pte))

-- `bad:` of copyuvm()
unfoldable pub copy_fails : ℕ → ℕ → Kmem → Outcome (ℕ × Kmem)
copy_fails end_addr d k = do k' ← freevm end_addr d k; ok (0, k')

-- The loop of copyuvm(), on fuel.
unfoldable pub copy_from : ℕ → ℕ → ℕ → ℕ → ℕ → ℕ → Kmem → Outcome (ℕ × Kmem)
copy_from end_addr zero pgdir d i sz k = panic "no fuel"
copy_from end_addr (suc fuel) pgdir d i sz k =
    let (pte, _) = walkpgdir pgdir i false k in
    let entry = k.mem pte in
    let (mem, k') = kalloc k in
    if not (ltb i sz)
    then ok (d, k)
    else if pte == 0
    then panic "copyuvm: pte should exist"
    else if not (is_present entry)
    then panic "copyuvm: page not present"
    else elim (mem == 0) [
      | true ↦ copy_fails end_addr d k'
      | false ↦ (do
        (mapped, k'') ←
            mappages d i page_size (v2p mem) (pte_flags entry)
              (record k' { mem = copy_page mem (p2v (pte_addr entry)) k'.mem })
        elim mapped [
          | true ↦ copy_from end_addr fuel pgdir d ((i + page_size) % 2 ^ 32) sz k''
          | false ↦ copy_fails end_addr d k''
        ])
    ]

-- copyuvm()
unfoldable pub copyuvm : ℕ → ℕ → ℕ → ℕ → Kmem → Outcome (ℕ × Kmem)
copyuvm end_addr data_addr pgdir sz k = do
  (d, k') ← setupkvm data_addr k
  if d == 0 then ok (0, k') else copy_from end_addr (2 ^ 20 + 1) pgdir d 0 sz k'
