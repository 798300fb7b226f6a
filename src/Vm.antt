-- ===== src/Vm.antt =====
-- vm.c: page directories and page tables in the memory of the page allocator, which is by words of
-- 4 bytes. An address is a `uint`, and 0 stands for the null pointer; an `int` that is 0 or -1 is
-- `true` or `false`.
pub mod User
pub mod Space
pub mod Walk
pub mod Entry
pub mod Map
pub mod Mappages
pub mod Ends
pub mod CopyEnds
mod Tests
use spring18cs.Base.{
  ℕ, zero, suc, ◌+◌, ◌-◌, ◌*◌, ◌/◌, ◌%◌, ◌^◌, Bool, true, false, ◌&&◌, not, ltb, leb, ◌==◌,
  if◌then◌else◌, bit_or, List, [], ◌∷◌, Outcome, ok, panic, ◌>>=◌,
}
use spring18cs.Kalloc.{
  Kmem, page_size, kern_base, phys_top, v2p, page_round_up, store_word, kalloc, kfree,
}

-- PDX, PTX, PTE_ADDR, PTE_FLAGS, PGROUNDDOWN
abbrev pub pdx : ℕ → ℕ
pdx va = va / 2 ^ 22 % 1024

abbrev pub ptx : ℕ → ℕ
ptx va = va / 2 ^ 12 % 1024

abbrev pub pte_addr : ℕ → ℕ
pte_addr pte = pte / 4096 * 4096

abbrev pub pte_flags : ℕ → ℕ
pte_flags pte = pte % 4096

abbrev pub page_round_down : ℕ → ℕ
page_round_down a = a / page_size * page_size

-- p2v()
abbrev pub p2v : ℕ → ℕ
p2v a = (a + kern_base) % 2 ^ 32

-- PTE_P and PTE_U of an entry
abbrev pub is_present : ℕ → Bool
is_present pte = pte % 2 == 1

abbrev pub is_user : ℕ → Bool
is_user pte = pte / 4 % 2 == 1

abbrev pub pte_w : ℕ
pte_w = 2

abbrev pub pte_u : ℕ
pte_u = 4

-- `pa | perm | PTE_P`
unfoldable pub entry_of : ℕ → ℕ → ℕ
entry_of pa perm = bit_or (bit_or pa perm) 1

-- memset(v, 0, PGSIZE)
unfoldable pub zero_page : ℕ → (ℕ → ℕ) → ℕ → ℕ
zero_page v mem a = if leb v a && ltb a (v + page_size) then 0 else mem a

-- memmove(dst, src, PGSIZE), of two different pages
unfoldable pub copy_page : ℕ → ℕ → (ℕ → ℕ) → ℕ → ℕ
copy_page dst src mem a =
    if leb dst a && ltb a (dst + page_size) then mem (src + (a - dst)) else mem a

abbrev pub set_word : ℕ → ℕ → Kmem → Kmem
set_word at w k = record k { mem = store_word at w k.mem }

-- walkpgdir(): the address of the entry, or 0
unfoldable pub walkpgdir : ℕ → ℕ → Bool → Kmem → ℕ × Kmem
walkpgdir pgdir va alloc k =
    let pde = pgdir + 4 * pdx va in
    let (pgtab, k') = kalloc k in
    if is_present (k.mem pde)
    then (p2v (pte_addr (k.mem pde)) + 4 * ptx va, k)
    else if not alloc
    then (0, k)
    else if pgtab == 0
    then (0, k')
    else (
      pgtab + 4 * ptx va,
      set_word pde (entry_of (v2p pgtab) (pte_w + pte_u))
          (record k' { mem = zero_page pgtab k'.mem }),
    )

-- The loop of mappages(), on fuel.
unfoldable pub map_from : ℕ → ℕ → ℕ → ℕ → ℕ → ℕ → Kmem → Outcome (Bool × Kmem)
map_from zero pgdir a last pa perm k = panic "no fuel"
map_from (suc fuel) pgdir a last pa perm k =
    let (pte, k') = walkpgdir pgdir a true k in
    let done = set_word pte (entry_of pa perm) k' in
    let rest =
      map_from fuel pgdir ((a + page_size) % 2 ^ 32) last ((pa + page_size) % 2 ^ 32) perm done in
    if pte == 0
    then ok (false, k')
    else if is_present (k'.mem pte)
    then panic "remap"
    else if a == last
    then ok (true, done)
    else rest

-- mappages(). There are 2 ^ 20 pages.
unfoldable pub mappages : ℕ → ℕ → ℕ → ℕ → ℕ → Kmem → Outcome (Bool × Kmem)
mappages pgdir va size pa perm k =
    map_from (2 ^ 20) pgdir (page_round_down va)
      (page_round_down ((va + size + 2 ^ 32 - 1) % 2 ^ 32)) pa perm k

-- An entry of `kmap`.
pub record Kmap : Type 0 where
  pub virt : ℕ
  pub phys_start : ℕ
  pub phys_end : ℕ
  pub perm : ℕ

-- `kmap`. `data_addr` is the linker's symbol `data`.
abbrev pub kmap : ℕ → List Kmap
kmap data_addr =
    record { virt = kern_base; phys_start = 0; phys_end = 0x10_0000; perm = pte_w }
    ∷ record {
      virt = kern_base + 0x10_0000;
      phys_start = 0x10_0000;
      phys_end = v2p data_addr;
      perm = 0;
    }
    ∷ record { virt = data_addr; phys_start = v2p data_addr; phys_end = phys_top; perm = pte_w }
    ∷ record { virt = 0xFE00_0000; phys_start = 0xFE00_0000; phys_end = 0; perm = pte_w }
    ∷ []

-- The loop of setupkvm().
unfoldable pub map_kernel : ℕ → List Kmap → Kmem → Outcome (ℕ × Kmem)
map_kernel pgdir [] k = ok (pgdir, k)
map_kernel pgdir (e ∷ es) k = do
  (mapped, k') ←
      mappages pgdir e.virt ((e.phys_end + 2 ^ 32 - e.phys_start) % 2 ^ 32) e.phys_start e.perm k
  elim mapped [ true ↦ map_kernel pgdir es k' | false ↦ ok (0, k') ]

-- setupkvm()
unfoldable pub setupkvm : ℕ → Kmem → Outcome (ℕ × Kmem)
setupkvm data_addr k =
    let (pgdir, k') = kalloc k in
    if pgdir == 0
    then ok (0, k')
    else if ltb 0xFE00_0000 (p2v phys_top)
    then panic "PHYSTOP too high"
    else map_kernel pgdir (kmap data_addr) (record k' { mem = zero_page pgdir k'.mem })

-- The loop of deallocuvm(), on fuel.
unfoldable pub unmap_from : ℕ → ℕ → ℕ → ℕ → ℕ → Kmem → Outcome Kmem
unmap_from end_addr zero pgdir a oldsz k = panic "no fuel"
unmap_from end_addr (suc fuel) pgdir a oldsz k =
    let (pte, _) = walkpgdir pgdir a false k in
    let pa = pte_addr (k.mem pte) in
    if not (ltb a oldsz) then ok k else elim (pte == 0) [
      | true ↦ unmap_from end_addr fuel pgdir ((a + 1024 * page_size) % 2 ^ 32) oldsz k
      | false ↦ elim (is_present (k.mem pte)) [
        | false ↦ unmap_from end_addr fuel pgdir ((a + page_size) % 2 ^ 32) oldsz k
        | true ↦ if pa == 0 then panic "kfree" else do
          k' ← kfree end_addr (p2v pa) k
          unmap_from end_addr fuel pgdir ((a + page_size) % 2 ^ 32) oldsz (set_word pte 0 k')
      ]
    ]

-- deallocuvm(): the new size, and the allocator
unfoldable pub deallocuvm : ℕ → ℕ → ℕ → ℕ → Kmem → Outcome (ℕ × Kmem)
deallocuvm end_addr pgdir oldsz newsz k = if leb oldsz newsz then ok (oldsz, k) else do
  k' ← unmap_from end_addr (2 ^ 20 + 1) pgdir (page_round_up newsz) oldsz k
  ok (newsz, k')

-- The loop of allocuvm(), on fuel.
unfoldable pub grow_from : ℕ → ℕ → ℕ → ℕ → ℕ → ℕ → Kmem → Outcome (ℕ × Kmem)
grow_from end_addr zero pgdir a oldsz newsz k = panic "no fuel"
grow_from end_addr (suc fuel) pgdir a oldsz newsz k =
    let (mem, k') = kalloc k in
    if not (ltb a newsz) then ok (newsz, k) else elim (mem == 0) [
      | true ↦ (do (_, k'') ← deallocuvm end_addr pgdir newsz oldsz k'; ok (0, k''))
      | false ↦ (do
        (_, k'') ←
            mappages pgdir a page_size (v2p mem) (pte_w + pte_u)
              (record k' { mem = zero_page mem k'.mem })
        grow_from end_addr fuel pgdir ((a + page_size) % 2 ^ 32) oldsz newsz k'')
    ]

-- allocuvm()
unfoldable pub allocuvm : ℕ → ℕ → ℕ → ℕ → Kmem → Outcome (ℕ × Kmem)
allocuvm end_addr pgdir oldsz newsz k =
    if leb kern_base newsz
    then ok (0, k)
    else if ltb newsz oldsz
    then ok (oldsz, k)
    else grow_from end_addr (2 ^ 20) pgdir (page_round_up oldsz) oldsz newsz k

-- The loop of freevm(), over the entries from number `i` on.
unfoldable pub free_tables : ℕ → ℕ → ℕ → ℕ → Kmem → Outcome Kmem
free_tables end_addr pgdir i zero k = ok k
free_tables end_addr pgdir i (suc n) k = do
  k' ←
      if is_present (k.mem (pgdir + 4 * i))
      then kfree end_addr (p2v (pte_addr (k.mem (pgdir + 4 * i)))) k
      else ok k
  free_tables end_addr pgdir (suc i) n k'

-- freevm()
unfoldable pub freevm : ℕ → ℕ → Kmem → Outcome Kmem
freevm end_addr pgdir k = if pgdir == 0 then panic "freevm: no pgdir" else do
  (_, k') ← deallocuvm end_addr pgdir kern_base 0 k
  k'' ← free_tables end_addr pgdir 0 1024 k'
  kfree end_addr pgdir k''
