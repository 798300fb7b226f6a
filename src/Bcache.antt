-- ===== src/Bcache.antt =====
-- bio.c: the cache of disk blocks, over the disk of memide.c. A buffer is its index in
-- bcache.buf, and the ring through prev and next is the list of these indices from head.next on.
-- A bget() that sleeps on a buffer is split there: it starts again from the cache that it then
-- finds.
pub mod Find
pub mod Cached
pub mod Calls
pub mod Read
pub mod Write
pub mod Refine
mod Tests
use spring18cs.Base.{
  ℕ, zero, suc, ◌-◌, ◌^◌, Bool, true, false, ◌&&◌, not, ltb, ◌==◌, if◌then◌else◌, List, [], ◌∷◌,
  ◌++◌, map, Option, none, some, length, get_elem?, modify, Outcome, ok, panic, ◌>>=◌,
}
use spring18cs.Log.{Block, set_block}

-- `struct buf`: its flags one by one, without the ring and the disk queue
pub record Buf : Type 0 where
  pub busy : Bool
  pub valid : Bool
  pub dirty : Bool
  pub dev : ℕ
  pub blockno : ℕ
  pub image : Block

-- The variable bcache, without its lock.
pub record Bcache : Type 0 where
  pub bufs : List Buf
  pub mru : List ℕ

-- `memdisk`, by blocks, and `disksize`
pub record Disk : Type 0 where
  pub size : ℕ
  pub blocks : ℕ → Block

-- iderw() of memide.c
unfoldable pub iderw : Buf → Disk → Outcome (Buf × Disk)
iderw b d =
    if not b.busy
    then panic "iderw: buf not busy"
    else if b.valid && not b.dirty
    then panic "iderw: nothing to do"
    else if not (b.dev == 1)
    then panic "iderw: request not for disk 1"
    else if not (ltb b.blockno d.size)
    then panic "iderw: block out of range"
    else if b.dirty
    then ok (
      record b { dirty = false; valid = true },
      record d { blocks = set_block b.blockno b.image d.blocks },
    )
    else ok (record b { valid = true; image = d.blocks b.blockno }, d)

-- The loop of binit(), with `n` buffers to go, from buffer `b` on.
unfoldable pub link_bufs : ℕ → ℕ → List ℕ → List ℕ
link_bufs zero b ring = ring
link_bufs (suc n) b ring = link_bufs n (suc b) (b ∷ ring)

-- binit()
unfoldable pub binit : List Buf → Bcache
binit bufs = record {
  bufs = map (λ (b : Buf). record b { dev = 2 ^ 32 - 1 }) bufs;
  mru = link_bufs (length bufs) 0 [];
}

abbrev pub buf_at : (Buf → Bool) → List Buf → ℕ → Bool
buf_at test bufs i = elim (get_elem? bufs i) [ none ↦ false | some b ↦ test b ]

-- The loops of bget(): the first buffer in the order `ring` that passes.
unfoldable pub find_buf : (Buf → Bool) → List Buf → List ℕ → Option ℕ
find_buf test bufs [] = none
find_buf test bufs (i ∷ ring) = if buf_at test bufs i then some i else find_buf test bufs ring

abbrev pub caches : ℕ → ℕ → Buf → Bool
caches dev blockno b = b.dev == dev && b.blockno == blockno

abbrev pub is_free : Buf → Bool
is_free b = not b.busy && not b.dirty

-- The ring from head.prev on.
abbrev pub backwards : List ℕ → List ℕ
backwards [] = []
backwards (i ∷ ring) = backwards ring ++ (i ∷ [])

abbrev pub take_buf : Buf → Buf
take_buf b = record b { busy = true }

abbrev pub recycle : ℕ → ℕ → Buf → Buf
recycle dev blockno b = record b {
  dev = dev;
  blockno = blockno;
  busy = true;
  valid = false;
  dirty = false;
}

-- How a bget() stands: it returned a buffer, or it sleeps on one.
pub data Getting : Type 0 where
  gets : ℕ → Bcache → Getting
  waits : ℕ → Getting

-- bget()
unfoldable pub bget : ℕ → ℕ → Bcache → Outcome Getting
bget dev blockno c = elim (find_buf (caches dev blockno) c.bufs c.mru) [
  | some i ↦
      if buf_at (λ b. b.busy) c.bufs i
      then ok (waits i)
      else ok (gets i (record c { bufs = modify c.bufs i take_buf }))
  | none ↦ elim (find_buf is_free c.bufs (backwards c.mru)) [
    | some i ↦ ok (gets i (record c { bufs = modify c.bufs i (recycle dev blockno) }))
    | none ↦ panic "bget: no buffers"
  ]
]

-- iderw() on buffer `i` of the cache; a buffer that is none is a wild pointer.
unfoldable pub sync_buf : ℕ → Bcache → Disk → Outcome (Bcache × Disk)
sync_buf i c d = elim (get_elem? c.bufs i) [
  | none ↦ panic "wild pointer"
  | some b ↦ (do (b', d') ← iderw b d; ok (record c { bufs = modify c.bufs i (λ _. b') }, d'))
]

-- bread()
unfoldable pub bread : ℕ → ℕ → Bcache → Disk → Outcome (Getting × Disk)
bread dev blockno c d = do
  got ← bget dev blockno c
  elim got [
    | waits i ↦ ok (waits i, d)
    | gets i c' ↦
        if buf_at (λ b. b.valid) c'.bufs i
        then ok (gets i c', d)
        else do (c'', d') ← sync_buf i c' d; ok (gets i c'', d')
  ]

-- bwrite()
unfoldable pub bwrite : ℕ → Bcache → Disk → Outcome (Bcache × Disk)
bwrite i c d =
    if buf_at (λ b. b.busy) c.bufs i
    then sync_buf i (record c { bufs = modify c.bufs i (λ (b : Buf). record b { dirty = true }) }) d
    else panic "bwrite"

-- The buffer out of its place in the ring.
unfoldable pub unlink_buf : ℕ → List ℕ → List ℕ
unlink_buf i [] = []
unlink_buf i (j ∷ ring) = if i == j then ring else j ∷ unlink_buf i ring

-- brelse(). It also wakes whoever sleeps on the buffer.
unfoldable pub brelse : ℕ → Bcache → Outcome Bcache
brelse i c =
    if buf_at (λ b. b.busy) c.bufs i
    then ok (record {
      bufs = modify c.bufs i (λ (b : Buf). record b { busy = false });
      mru = i ∷ unlink_buf i c.mru;
    })
    else panic "brelse"
