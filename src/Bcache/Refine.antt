-- ===== src/Bcache/Refine.antt =====
-- bio.c: the cache and the disk as one array of blocks, over any sequence of calls.
use spring18cs.Base.{
  ℕ, subst, zero, suc, ◌-◌, ◌+◌, ◌≤◌, [], ◌∷◌, lt_of_get_elem?, ◌^◌, ◌<◌, ◌≡◌, ◌⊎◌, inl, inr, refl,
  true, false, ◌==◌, List, some, none, length, get_elem?, arith, ok, Bool-cases, Option-cases,
  Returns, Returns-cases, map, get_elem?-map,
}
use spring18cs.Log.{Block, set_block}
use spring18cs.Bcache.{Buf, Bcache, Disk, bread, bwrite, brelse, gets, binit, link_bufs}
use spring18cs.Bcache.Cached.{Cached, Pending}
use spring18cs.Bcache.Read.{HasRoom, Reads, bread-Reads}
use spring18cs.Kalloc.Chain.{has}
use spring18cs.Bcache.Write.{
  Read, fill_buf, dirty_buf, dirty_buf-Cached, bwrite-Cached, brelse-Cached,
}

-- Calls on disk 1 by holders that read a block before they write or release its buffer, with
-- `says` the array of blocks that the writes make of the first disk.
pub data Run (bufs : List Buf) (d0 : Disk) : Bcache → Disk → (ℕ → Block) → Type 0 where
  boots : Run bufs d0 (binit bufs) d0 d0.blocks
  reads :
      {c c' : Bcache} {d d' : Disk} {says : ℕ → Block} (blk i : ℕ)
      → Run bufs d0 c d says
      → HasRoom c
      → blk < d.size
      → bread 1 blk c d ≡ ok (gets i c', d')
      → Run bufs d0 c' d' says
  writes :
      {c c' : Bcache} {d d' : Disk} {says : ℕ → Block} (i : ℕ) (b : Buf) (image : Block)
      → Run bufs d0 c d says
      → Read c i b
      → b.blockno < d.size
      → bwrite i (fill_buf i image c) d ≡ ok (c', d')
      → Run bufs d0 c' d' (set_block b.blockno image says)
  logs :
      {c : Bcache} {d : Disk} {says : ℕ → Block} (i : ℕ) (b : Buf) (image : Block)
      → Run bufs d0 c d says
      → Read c i b
      → Run bufs d0 (dirty_buf i image c) d (set_block b.blockno image says)
  releases :
      {c c' : Bcache} {d : Disk} {says : ℕ → Block} (i : ℕ) (b : Buf)
      → Run bufs d0 c d says
      → Read c i b
      → brelse i c ≡ ok c'
      → Run bufs d0 c' d says

-- The buffers before binit() are clear.
abbrev pub Clear : List Buf → Type 0
Clear bufs =
    (i : ℕ) (b : Buf)
    → get_elem? bufs i ≡ some b
    → (b.busy ≡ false) × (b.valid ≡ false) × (b.dirty ≡ false)

has-link_bufs :
    (n b : ℕ) (ring : List ℕ) (i : ℕ)
    → (has i ring ≡ true) ⊎ ((b ≤ i) × (i < b + n))
    → has i (link_bufs n b ring) ≡ true
unfolding link_bufs
has-link_bufs zero b ring i (inl h) = h
has-link_bufs zero b ring i (inr (lo, hi)) = absurd (omega arith)
has-link_bufs (suc n) b ring i h =
    has-link_bufs n (suc b) (b ∷ ring) i (elim (Bool-cases (i == b)) [
      | inl t ↦ inl (ground arith)
      | inr f ↦ elim h [
        | inl e ↦ inl (ground arith)
        | inr (lo, hi) ↦ inr (ground arith, omega arith)
      ]
    ])

abbrev unused_buf : Buf → Buf
unused_buf b = record b { dev = 2 ^ 32 - 1 }

binit-Cached : (bufs : List Buf) (d : Disk) → Clear bufs → Cached (binit bufs) d d.blocks
unfolding binit
binit-Cached bufs d clear = record {
  linked = λ i b e.
      let (o, so, eo) = was i b e in
      has-link_bufs (length bufs) 0 [] i
        (inr (omega arith, omega (arith, lt_of_get_elem? bufs i so)));
  one = λ i j b b' e e' dv dv' at. let (o, so, eo) = was i b e in absurd (wild o b eo dv);
  holds = λ i b e v.
      let (o, so, eo) = was i b e in
      let (x, nv, y) = clear i o so in let v' : o.valid ≡ true = rw eo at (v) in absurd cc;
  filled = λ i b e v.
      let (o, so, eo) = was i b e in
      let (x, y, nd) = clear i o so in let v' : o.dirty ≡ true = rw eo at (v) in absurd cc;
  stored = λ blk. inl refl;
}
  where
    was :
        (i : ℕ) (b : Buf)
        → get_elem? (map unused_buf bufs) i ≡ some b
        → (o : Buf) × (get_elem? bufs i ≡ some o) × (b ≡ unused_buf o)
    was i b e = elim (Option-cases (get_elem? bufs i)) [
      | inl n ↦ let e' : none ≡ some b = rw (get_elem?-map unused_buf bufs i, n) at (e) in absurd cc
      | inr (o, so) ↦
          let e' : some (unused_buf o) ≡ some b = rw (get_elem?-map unused_buf bufs i, so) at (e) in
          (o, so, cc)
    ]

    wild : (o b : Buf) → b ≡ unused_buf o → b.dev ≡ 1 → ⊥
    wild o b eo dv = let dv' : 2 ^ 32 - 1 ≡ 1 = rw eo at (dv) in omega arith

Run-Cached :
    {bufs : List Buf} {d0 : Disk} {c : Bcache} {d : Disk} {says : ℕ → Block}
    → Clear bufs
    → Run bufs d0 c d says
    → Cached c d says
Run-Cached {bufs} {d0} clear boots = binit-Cached bufs d0 clear
Run-Cached clear (reads {c} {c'} {d} {d'} {says} blk i r room lt e) =
    let (v, e', p) =
      Returns-cases (bread 1 blk c d) (bread-Reads c d says blk (Run-Cached clear r) room lt) in
    let same : v ≡ (gets i c', d') = cc in
    let q : Reads c d says blk (gets i c', d') = subst (λ w. Reads c d says blk w) same p in q.0
Run-Cached clear (writes {c} {c'} {d} {d'} {says} i b image r read lt e) =
    let (v, e', p) =
      Returns-cases (bwrite i (fill_buf i image c) d)
        (bwrite-Cached c d says i b image (Run-Cached clear r) read lt) in
    let same : v ≡ (c', d') = cc in
    subst (λ w. Cached w.0 w.1 (set_block b.blockno image says)) same p.0
Run-Cached clear (logs {c} {d} {says} i b image r read) =
    dirty_buf-Cached c d says i b image (Run-Cached clear r) read
Run-Cached clear (releases {c} {c'} {d} {says} i b r read e) =
    let (v, e', p) =
      Returns-cases (brelse i c) (brelse-Cached c d says i b (Run-Cached clear r) read) in
    let same : v ≡ c' = cc in subst (λ w. Cached w d says) same p

-- The buffer cache refines an array of blocks. In any sequence of bread(), bwrite(), log_write()
-- and brelse() calls on disk 1 from the boot, by holders that have read the block they write or
-- release, `says` is the first disk with the writes made to it. Then bread() of a block that lies
-- on the disk, where a buffer is free, does not panic, and returns a buffer that nobody had taken
-- and that holds what `says` has of the block, or sleeps since a buffer of the block is taken; and
-- a block on the disk is as `says` has it, or a dirty buffer of it waits to be written.
pub Run-Refines :
    {bufs : List Buf} {d0 : Disk} {c : Bcache} {d : Disk} {says : ℕ → Block} (blk : ℕ)
    → Clear bufs
    → Run bufs d0 c d says
    → HasRoom c
    → blk < d.size
    → Returns (Reads c d says blk) (bread 1 blk c d)
      × ((d.blocks blk ≡ says blk) ⊎ Pending c.bufs blk)
Run-Refines {c} {d} {says} blk clear r room lt =
    let h = Run-Cached clear r in (bread-Reads c d says blk h room lt, h.stored blk)
