-- ===== src/Bcache/Tests.antt =====
-- bio.c: the theorems on a cache of two buffers.
use spring18cs.Base.{
  zero, suc, ◌≡◌, ◌⊎◌, refl, List, [], ◌∷◌, true, false, arith, ok, Returns, modify,
}
use spring18cs.Log.{set_block}
use spring18cs.Bcache.{
  Buf, Bcache, Disk, bread, binit, link_bufs, gets, bget, find_buf, sync_buf, iderw,
}
use spring18cs.Bcache.Cached.{Pending}
use spring18cs.Bcache.Read.{Reads}
use spring18cs.Bcache.Write.{dirty_buf}
use spring18cs.Bcache.Refine.{Run, boots, reads, logs, Clear, Run-Refines}

abbrev clear_buf : Buf
clear_buf = record { busy = false; valid = false; dirty = false; dev = 0; blockno = 0; image = [] }

abbrev two_bufs : List Buf
two_bufs = clear_buf ∷ clear_buf ∷ []

abbrev small_disk : Disk
small_disk = record { size = 4; blocks = λ b. b ∷ [] }

two_bufs-Clear : Clear two_bufs
two_bufs-Clear zero b e = let same : clear_buf ≡ b = cc in rw (← same) (refl, refl, refl)
two_bufs-Clear (suc zero) b e = let same : clear_buf ≡ b = cc in rw (← same) (refl, refl, refl)
two_bufs-Clear (suc (suc i)) b e = cc

-- Block 2 was read into buffer 0.
abbrev with_block : Bcache
with_block = record {
  bufs =
      record { busy = true; valid = true; dirty = false; dev = 1; blockno = 2; image = 2 ∷ [] }
      ∷ record clear_buf { dev = 0xFFFF_FFFF }
      ∷ [];
  mru = 1 ∷ 0 ∷ [];
}

bread-first : bread 1 2 (binit two_bufs) small_disk ≡ ok (gets 0 with_block, small_disk)
unfolding bread bget find_buf sync_buf iderw binit link_bufs modify
bread-first = refl

logged :
    Run two_bufs small_disk
      (dirty_buf 0 (7 ∷ []) with_block)
      small_disk
      (set_block 2 (7 ∷ []) small_disk.blocks)
unfolding binit link_bufs modify
logged =
    logs 0 _ (7 ∷ [])
      (reads 2 0 boots (1, record clear_buf { dev = 0xFFFF_FFFF }, refl, refl) (omega arith)
        bread-first)
      (refl, refl, refl)

Run-Refines_example :
    Returns
      (Reads
        (dirty_buf 0 (7 ∷ []) with_block)
        small_disk
        (set_block 2 (7 ∷ []) small_disk.blocks)
        3)
      (bread 1 3 (dirty_buf 0 (7 ∷ []) with_block) small_disk)
    × ((small_disk.blocks 3 ≡ set_block 2 (7 ∷ []) small_disk.blocks 3)
        ⊎ Pending (dirty_buf 0 (7 ∷ []) with_block).bufs 3)
unfolding modify
Run-Refines_example =
    Run-Refines 3 two_bufs-Clear logged (1, record clear_buf { dev = 0xFFFF_FFFF }, refl, refl)
      (omega arith)
