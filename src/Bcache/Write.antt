-- ===== src/Bcache/Write.antt =====
-- bio.c: bwrite(), log_write() on the buffer, and brelse().
use spring18cs.Base.{
  ℕ, ◌<◌, ◌≡◌, inl, inr, refl, ◌∙◌, true, false, ◌==◌, some, get_elem?, modify, modify-at,
  modify-modify, arith, ==_iff, Bool-cases, Returns,
}
use spring18cs.Log.{Block, set_block}
use spring18cs.Bcache.{Buf, Bcache, Disk, bwrite, brelse}
use spring18cs.Bcache.Find.{buf_at-of, has-unlink_buf}
use spring18cs.Bcache.Cached.{Cached, Cached-modify}
use spring18cs.Bcache.Calls.{same_block-Fits, sync_buf-Cached}

-- A buffer whose block was read: taken, and valid.
abbrev pub Read : Bcache → ℕ → Buf → Type 0
Read c i b = (get_elem? c.bufs i ≡ some b) × (b.busy ≡ true) × (b.valid ≡ true)

-- memmove() into the buffer
abbrev pub fill : Block → Buf → Buf
fill image b = record b { image = image }

abbrev pub fill_buf : ℕ → Block → Bcache → Bcache
fill_buf i image c = record c { bufs = modify c.bufs i (fill image) }

-- memmove() into the buffer, and B_DIRTY set, as log_write() does.
abbrev pub fill_dirty : Block → Buf → Buf
fill_dirty image b = record b { image = image; dirty = true }

abbrev pub dirty_buf : ℕ → Block → Bcache → Bcache
dirty_buf i image c = record c { bufs = modify c.bufs i (fill_dirty image) }

pub dirty_buf-Cached :
    (c : Bcache) (d : Disk) (says : ℕ → Block) (i : ℕ) (b : Buf) (image : Block)
    → Cached c d says
    → Read c i b
    → Cached (dirty_buf i image c) d (set_block b.blockno image says)
dirty_buf-Cached c d says i b image h (s, busy, v) =
    let dv = (h.holds i b s v).0 in
    let self : (b.blockno == b.blockno) ≡ true = (==_iff b.blockno b.blockno).1 refl in
    Cached-modify c d d says (set_block b.blockno image says) i (fill_dirty image) h s (record {
      on_disk = dv;
      alone = λ j o ne so d1 same. ne (h.one i j b o s so dv d1 same);
      new_holds = λ e. rw self refl;
      new_filled = λ e. v;
      others = λ blk ne. let n : (blk == b.blockno) ≡ false = ground arith in rw n refl;
      new_stored = λ blk. elim (Bool-cases (blk == b.blockno)) [
        | inl e ↦ inr (inl (refl, ground arith))
        | inr n ↦ elim (h.stored blk) [
          | inl e ↦ inl (rw n e)
          | inr p ↦ inr (inr (inl (λ e. ground arith), p))
        ]
      ];
    })

-- bwrite() of new contents writes them through to the disk.
pub bwrite-Cached :
    (c : Bcache) (d : Disk) (says : ℕ → Block) (i : ℕ) (b : Buf) (image : Block)
    → Cached c d says
    → Read c i b
    → b.blockno < d.size
    → Returns
        (λ r.
          Cached r.0 r.1 (set_block b.blockno image says)
          × (r.1.size ≡ d.size)
          × ((b' : Buf) × (get_elem? r.0.bufs i ≡ some b')
              × (b'.busy ≡ true)
              × (b'.dev ≡ 1)
              × (b'.blockno ≡ b.blockno)
              × (b'.valid ≡ true)
              × (b'.dirty ≡ false)))
        (bwrite i (fill_buf i image c) d)
unfolding bwrite
bwrite-Cached c d says i b image h (s, busy, v) lt =
    let filled =
      buf_at-of (λ b. b.busy) (modify c.bufs i (fill image)) i (modify-at c.bufs i (fill image) s)
      ∙ busy in
    rw
      (bwrite, filled, modify-modify c.bufs i (fill image) (λ (b : Buf). record b { dirty = true }))
      (sync_buf-Cached (dirty_buf i image c) d (set_block b.blockno image says) i
        (fill_dirty image b) (dirty_buf-Cached c d says i b image h (s, busy, v))
        (modify-at c.bufs i (fill_dirty image) s) busy (h.holds i b s v).0 (ground arith) lt)

abbrev release_buf : Buf → Buf
release_buf b = record b { busy = false }

pub brelse-Cached :
    (c : Bcache) (d : Disk) (says : ℕ → Block) (i : ℕ) (b : Buf)
    → Cached c d says
    → Read c i b
    → Returns (λ c'. Cached c' d says) (brelse i c)
unfolding brelse
brelse-Cached c d says i b h (s, busy, v) =
    let taken = buf_at-of (λ b. b.busy) c.bufs i s ∙ busy in
    let dv = (h.holds i b s v).0 in
    let h' : Cached (record c { bufs = modify c.bufs i release_buf }) d says =
      Cached-modify c d d says says i release_buf h s
        (same_block-Fits c d says i b (release_buf b) h s dv dv refl refl refl refl) in
    rw (brelse, taken)
      (record {
        linked = λ j x e. has-unlink_buf i j c.mru (h'.linked j x e);
        one = h'.one;
        holds = h'.holds;
        filled = h'.filled;
        stored = h'.stored;
      })
