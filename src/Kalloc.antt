-- ===== src/Kalloc.antt =====
-- kalloc.c: the allocator of physical pages. The free list is threaded through the first word of
-- each free page, so the model keeps the memory: a function from word addresses to words.
-- Each function's critical section is one step; the lock itself is modelled in Spinlock.
pub mod Chain
pub mod Range
pub mod Client
mod Tests
use spring18cs.Base.{
  ℕ, zero, suc, ◌+◌, ◌-◌, ◌*◌, ◌/◌, ◌%◌, ◌^◌, Bool, true, false, ◌&&◌, ◌||◌, not, ltb, leb, ◌==◌,
  if◌then◌else◌, Outcome, ok, panic, ◌>>=◌,
}

-- PGSIZE
abbrev pub page_size : ℕ
page_size = 4096

-- KERNBASE
abbrev pub kern_base : ℕ
kern_base = 0x8000_0000

-- PHYSTOP
abbrev pub phys_top : ℕ
phys_top = 0xE00_0000

-- v2p(): subtraction of `uint`s
abbrev pub v2p : ℕ → ℕ
v2p a = (a + 2 ^ 32 - kern_base) % 2 ^ 32

-- PGROUNDUP
abbrev pub page_round_up : ℕ → ℕ
page_round_up sz = (sz + page_size - 1) % 2 ^ 32 / page_size * page_size

-- `struct kmem`, with the memory that the free list runs through. `mem a` is the word at `a`.
pub record Kmem : Type 0 where
  pub mem : ℕ → ℕ
  pub use_lock : Bool
  pub freelist : ℕ

-- memset(v, 1, PGSIZE), by words
unfoldable pub junk_page : ℕ → (ℕ → ℕ) → ℕ → ℕ
junk_page v mem a = if leb v a && ltb a (v + page_size) then 0x0101_0101 else mem a

-- `*(uint*)p = w`
unfoldable pub store_word : ℕ → ℕ → (ℕ → ℕ) → ℕ → ℕ
store_word p w mem a = if p == a then w else mem a

-- the guard of kfree(), negated
abbrev pub is_page : ℕ → ℕ → Bool
is_page end_addr v = (v % page_size == 0) && leb end_addr v && ltb (v2p v) phys_top

-- kfree(). `end_addr` is the linker's symbol `end`.
unfoldable pub kfree : ℕ → ℕ → Kmem → Outcome Kmem
kfree end_addr v k =
    if is_page end_addr v
    then ok (record k { mem = store_word v k.freelist (junk_page v k.mem); freelist = v })
    else panic "kfree"

-- kalloc(): the page, or 0, and the allocator afterwards
unfoldable pub kalloc : Kmem → ℕ × Kmem
kalloc k =
    if k.freelist == 0 then (0, k) else (k.freelist, record k { freelist = k.mem k.freelist })

-- The loop of freerange(), on fuel.
unfoldable pub free_pages : ℕ → ℕ → ℕ → ℕ → Kmem → Outcome Kmem
free_pages end_addr zero vend p k = ok k
free_pages end_addr (suc fuel) vend p k = elim (leb (p + page_size) vend) [
  | true ↦ (do k' ← kfree end_addr p k; free_pages end_addr fuel vend (p + page_size) k')
  | false ↦ ok k
]

-- freerange(). Each round moves `p` by a page, so `vend` bytes take no more rounds than pages.
unfoldable pub freerange : ℕ → ℕ → ℕ → Kmem → Outcome Kmem
freerange end_addr vstart vend k =
    free_pages end_addr (vend / page_size) vend (page_round_up vstart) k

-- kinit1()
unfoldable pub kinit1 : ℕ → ℕ → ℕ → Kmem → Outcome Kmem
kinit1 end_addr vstart vend k = freerange end_addr vstart vend (record k { use_lock = false })

-- kinit2()
unfoldable pub kinit2 : ℕ → ℕ → ℕ → Kmem → Outcome Kmem
kinit2 end_addr vstart vend k = do
  k' ← freerange end_addr vstart vend k
  ok (record k' { use_lock = true })
