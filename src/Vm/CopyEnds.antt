-- ===== src/Vm/CopyEnds.antt =====
-- vm.c: freevm() and copyuvm() end.
use spring18cs.Base.{
  Ends, Ends-bind, ℕ, zero, suc, ◌+◌, ◌-◌, ◌*◌, ◌%◌, ◌^◌, ◌<◌, ◌≤◌, ◌≡◌, inl, inr, true, false, ltb,
  ◌==◌, if◌then◌else◌, List, [], ◌∷◌, Bool-cases, arith, ok, ◌>>=◌,
}
use spring18cs.Kalloc.{Kmem, page_size, kern_base, phys_top, v2p, kfree, kalloc}
use spring18cs.Vm.{
  walkpgdir, mappages, deallocuvm, allocuvm, free_tables, freevm, pte_addr, is_present, p2v,
  zero_page,
}
use spring18cs.Vm.{Kmap, kmap, map_kernel, setupkvm, pte_flags, copy_page}
use spring18cs.Vm.User.{copy_fails, copy_from, copyuvm}
use spring18cs.Vm.Ends.{kfree-Ends, mappages-Ends, deallocuvm-Ends, allocuvm-Ends}

free_tables-Ends : (end_addr pgdir i n : ℕ) (k : Kmem) → Ends (free_tables end_addr pgdir i n k)
unfolding free_tables
free_tables-Ends end_addr pgdir i zero k = λ e. cc
free_tables-Ends end_addr pgdir i (suc n) k =
    let pde = k.mem (pgdir + 4 * i) in
    let next = λ (k' : Kmem). free_tables-Ends end_addr pgdir (suc i) n k' in
    elim (Bool-cases (is_present pde)) [
      | inl t ↦
          rw (free_tables, t)
            (Ends-bind (kfree end_addr (p2v (pte_addr pde)) k)
              (free_tables end_addr pgdir (suc i) n) (kfree-Ends end_addr (p2v (pte_addr pde)) k)
              next)
      | inr f ↦ rw (free_tables, f) (next k)
    ]

pub freevm-Ends : (end_addr pgdir : ℕ) (k : Kmem) → Ends (freevm end_addr pgdir k)
unfolding freevm
freevm-Ends end_addr pgdir k = elim (Bool-cases (pgdir == 0)) [
  | inl t ↦ rw (freevm, t) (λ e. cc)
  | inr f ↦
      rw (freevm, f)
        (Ends-bind (deallocuvm end_addr pgdir kern_base 0 k)
          (λ q. free_tables end_addr pgdir 0 1024 q.1 >>= kfree end_addr pgdir)
          (deallocuvm-Ends end_addr pgdir kern_base 0 k (omega arith))
          (λ q.
            Ends-bind (free_tables end_addr pgdir 0 1024 q.1) (kfree end_addr pgdir)
              (free_tables-Ends end_addr pgdir 0 1024 q.1) (kfree-Ends end_addr pgdir)))
]

-- A mapping of the kernel that ends in the address space, and is not empty.
record Whole (e : Kmap) : Type 0 where
  some_page : 0 < (e.phys_end + 2 ^ 32 - e.phys_start) % 2 ^ 32
  fits : e.virt + (e.phys_end + 2 ^ 32 - e.phys_start) % 2 ^ 32 ≤ 2 ^ 32

abbrev AllWhole : List Kmap → Type 0
AllWhole [] = Unit {0}
AllWhole (e ∷ es) = Whole e × AllWhole es

map_kernel-Ends :
    (pgdir : ℕ) (es : List Kmap) (k : Kmem) → AllWhole es → Ends (map_kernel pgdir es k)
unfolding map_kernel
map_kernel-Ends pgdir [] k all = λ e. cc
map_kernel-Ends pgdir (e ∷ es) k (w, all) =
    let size = (e.phys_end + 2 ^ 32 - e.phys_start) % 2 ^ 32 in
    let rest = λ (k' : Kmem). map_kernel-Ends pgdir es k' all in
    Ends-bind (mappages pgdir e.virt size e.phys_start e.perm k)
      (λ q. elim q.0 [ true ↦ map_kernel pgdir es q.1 | false ↦ ok (0, q.1) ])
      (mappages-Ends pgdir e.virt size e.phys_start e.perm k w.some_page w.fits)
      (λ q. elim (Bool-cases q.0) [ inl t ↦ rw t (rest q.1) | inr f ↦ rw f (λ e. cc) ])

-- The kernel's text ends where its data starts, in the memory that it maps.
abbrev pub DataLies : ℕ → Type 0
DataLies data_addr = (kern_base + 0x10_0000 < data_addr) × (data_addr < kern_base + phys_top)

kmap-AllWhole : (data_addr : ℕ) → DataLies data_addr → AllWhole (kmap data_addr)
kmap-AllWhole data_addr (lo, hi) = (
  record { some_page = omega arith; fits = omega arith },
  (
    record { some_page = omega arith; fits = omega arith },
    (
      record { some_page = omega arith; fits = omega arith },
      (record { some_page = omega arith; fits = omega arith }, tt),
    ),
  ),
)

setupkvm-Ends : (data_addr : ℕ) (k : Kmem) → DataLies data_addr → Ends (setupkvm data_addr k)
unfolding setupkvm
setupkvm-Ends data_addr k lies =
    let r = kalloc k in
    elim (Bool-cases (r.0 == 0)) [
      | inl t ↦ rw (setupkvm, t) (λ e. cc)
      | inr f ↦
          rw (setupkvm, f)
            (map_kernel-Ends r.0 (kmap data_addr) (record r.1 { mem = zero_page r.0 r.1.mem })
              (kmap-AllWhole data_addr lies))
    ]

copy_fails-Ends : (end_addr d : ℕ) (k : Kmem) → Ends (copy_fails end_addr d k)
unfolding copy_fails
copy_fails-Ends end_addr d k =
    Ends-bind (freevm end_addr d k) (λ k'. ok (0, k')) (freevm-Ends end_addr d k) (λ k' e. cc)

copy_from-Ends :
    (end_addr fuel pgdir d i sz : ℕ) (k : Kmem)
    → 0 < fuel
    → sz ≤ kern_base
    → sz + page_size ≤ i + fuel * page_size
    → Ends (copy_from end_addr fuel pgdir d i sz k)
unfolding copy_from
copy_from-Ends end_addr zero pgdir d i sz k pos low enough = absurd (omega arith)
copy_from-Ends end_addr (suc fuel) pgdir d i sz k pos low enough =
    let pte = (walkpgdir pgdir i false k).0 in
    let r = kalloc k in
    elim (Bool-cases (ltb i sz)) [
      | inr f ↦ rw (copy_from, f) (λ e. cc)
      | inl t ↦ elim (Bool-cases (pte == 0)) [
        | inl z ↦ rw (copy_from, t, z) (λ e. cc)
        | inr nz ↦ elim (Bool-cases (is_present (k.mem pte))) [
          | inr f ↦ rw (copy_from, t, nz, f) (λ e. cc)
          | inl t' ↦ elim (Bool-cases (r.0 == 0)) [
            | inl z ↦ rw (copy_from, t, nz, t', z) (copy_fails-Ends end_addr d r.1)
            | inr nz' ↦
                let small : i < sz = ground arith in
                let one : (i + page_size) % 2 ^ 32 ≡ i + page_size = omega arith in
                let k' : Kmem = record r.1 {
                  mem = copy_page r.0 (p2v (pte_addr (k.mem pte))) r.1.mem;
                } in
                let next = λ (k'' : Kmem).
                  copy_from-Ends end_addr fuel pgdir d ((i + page_size) % 2 ^ 32) sz k''
                    (omega arith) low (omega arith) in
                rw (copy_from, t, nz, t', nz')
                  (Ends-bind (mappages d i page_size (v2p r.0) (pte_flags (k.mem pte)) k')
                    (λ q. elim q.0 [
                      | true ↦ copy_from end_addr fuel pgdir d ((i + page_size) % 2 ^ 32) sz q.1
                      | false ↦ copy_fails end_addr d q.1
                    ])
                    (mappages-Ends d i page_size (v2p r.0) (pte_flags (k.mem pte)) k' (omega arith)
                      (omega arith))
                    (λ q. elim (Bool-cases q.0) [
                      | inl e ↦ rw e (next q.1)
                      | inr e ↦ rw e (copy_fails-Ends end_addr d q.1)
                    ]))
          ]
        ]
      ]
    ]

-- The loops of vm.c end. For sizes of a process up to KERNBASE, and kernel data that lies in the
-- memory that the kernel maps, deallocuvm(), allocuvm() (for any sizes), freevm() and copyuvm()
-- return or panic after no more rounds than an address space has pages, whatever the page tables
-- and the free list are.
pub uvm-Ends :
    (end_addr data_addr pgdir oldsz newsz : ℕ) (k : Kmem)
    → oldsz ≤ kern_base
    → DataLies data_addr
    → Ends (deallocuvm end_addr pgdir oldsz newsz k)
      × Ends (allocuvm end_addr pgdir oldsz newsz k)
      × Ends (freevm end_addr pgdir k)
      × Ends (copyuvm end_addr data_addr pgdir oldsz k)
unfolding copyuvm
uvm-Ends end_addr data_addr pgdir oldsz newsz k low lies = (
  deallocuvm-Ends end_addr pgdir oldsz newsz k low,
  allocuvm-Ends end_addr pgdir oldsz newsz k,
  freevm-Ends end_addr pgdir k,
  Ends-bind (setupkvm data_addr k)
      (λ q. if q.0 == 0 then ok (0, q.1) else copy_from end_addr (2 ^ 20 + 1) pgdir q.0 0 oldsz q.1)
      (setupkvm-Ends data_addr k lies)
      (λ q. elim (Bool-cases (q.0 == 0)) [
        | inl t ↦ rw t (λ e. cc)
        | inr f ↦ rw f (
            copy_from-Ends end_addr (2 ^ 20 + 1) pgdir q.0 0 oldsz q.1 (omega arith) low
              (omega arith))
      ]),
)
