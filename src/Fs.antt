-- ===== src/Fs.antt =====
-- fs.c: the state of the file system. The kernel runs with one disk: `blocks` is what bread()
-- returns of each block of it, by bytes, and what log_write() has made of it. Each call that locks
-- a buffer releases it before it ends, so buffers are not part of the state; a call inside which
-- another block is read has the block whose buffer it holds as an argument of the inner call.
-- Whether a log_write() panics depends on the log alone: the calls are collected in `logged`, and
-- Logged says what the log makes of them.
pub mod Bits
pub mod Balloc
pub mod Icache
pub mod Content
pub mod Scan
pub mod Iget
pub mod Path
pub mod PathNames
pub mod Logged
pub mod Placed
pub mod ReadWrite
pub mod FileBytes
pub mod Dir
pub mod Ends
pub mod ReadEnds
pub mod WalkEnds
mod Tests
mod FileTests
use spring18cs.Base.{
  ℕ, zero, suc, ◌+◌, ◌-◌, ◌*◌, ◌/◌, ◌%◌, ◌^◌, Bool, true, false, ◌&&◌, ◌||◌, ltb, ◌==◌,
  if◌then◌else◌, List, [], ◌∷◌, Option, none, some, get_elem?, modify, Outcome, ok, panic, ◌>>=◌,
}
use spring18cs.CString.Memory.{Memory, set_byte}

-- BSIZE, BPB, IPB, NDIRECT, NINDIRECT, DIRSIZ
abbrev pub bsize : ℕ
bsize = 512

abbrev pub bpb : ℕ
bpb = bsize * 8

abbrev pub ipb : ℕ
ipb = 8

abbrev pub ndirect : ℕ
ndirect = 12

abbrev pub nindirect : ℕ
nindirect = 128

abbrev pub dirsiz : ℕ
dirsiz = 14

-- `struct superblock`
pub record Super : Type 0 where
  pub size : ℕ
  pub nblocks : ℕ
  pub ninodes : ℕ
  pub nlog : ℕ
  pub logstart : ℕ
  pub inodestart : ℕ
  pub bmapstart : ℕ

-- `struct inode`. `busy` and `valid` are its flags; the fields of type `short` are bit patterns.
pub record Inode : Type 0 where
  pub dev : ℕ
  pub inum : ℕ
  pub ref : ℕ
  pub busy : Bool
  pub valid : Bool
  pub kind : ℕ
  pub major : ℕ
  pub minor : ℕ
  pub nlink : ℕ
  pub size : ℕ
  pub addrs : List ℕ

-- The disk, the variable sb, and icache.inode. A pointer to an inode is its index. `logged` has the
-- blocks that log_write() was called for, the last one first.
pub record Fs : Type 0 where
  pub blocks : ℕ → Memory
  pub sb : Super
  pub inodes : List Inode
  pub logged : List ℕ

-- IBLOCK and BBLOCK
abbrev pub iblock : ℕ → Super → ℕ
iblock i sb = i / ipb + sb.inodestart

abbrev pub bblock : ℕ → Super → ℕ
bblock b sb = b / bpb + sb.bmapstart

-- bread(), a change of the buffer, log_write() and brelse()
abbrev pub log_block : ℕ → (Memory → Memory) → Fs → Fs
log_block b change fs = record fs {
  blocks = λ c. if c == b then change (fs.blocks b) else fs.blocks c;
  logged = b ∷ fs.logged;
}

-- A `ushort` and a `uint` in a block, the lowest byte first.
abbrev pub read16 : Memory → ℕ → ℕ
read16 m at = m at + 2 ^ 8 * m (at + 1)

abbrev pub read32 : Memory → ℕ → ℕ
read32 m at = m at + 2 ^ 8 * m (at + 1) + 2 ^ 16 * m (at + 2) + 2 ^ 24 * m (at + 3)

abbrev pub write16 : ℕ → ℕ → Memory → Memory
write16 at w m = set_byte (at + 1) (w / 2 ^ 8 % 2 ^ 8) (set_byte at (w % 2 ^ 8) m)

-- readsb() into sb
unfoldable pub readsb : Fs → Fs
readsb fs =
    let m = fs.blocks 1 in
    record fs {
      sb = record {
        size = read32 m 0;
        nblocks = read32 m 4;
        ninodes = read32 m 8;
        nlog = read32 m 12;
        logstart = read32 m 16;
        inodestart = read32 m 20;
        bmapstart = read32 m 24;
      };
    }

-- `1 << k` in a byte: the test, and the byte with the bit set or cleared
unfoldable pub bit : ℕ → ℕ → Bool
bit zero w = w % 2 == 1
bit (suc k) w = bit k (w / 2)

unfoldable pub put_bit : Bool → ℕ → ℕ → ℕ
put_bit v zero w = w / 2 * 2 + (if v then 1 else 0)
put_bit v (suc k) w = w % 2 + 2 * put_bit v k (w / 2)

-- bzero()
unfoldable pub bzero : ℕ → Fs → Fs
bzero bno fs = log_block bno (λ m i. if ltb i bsize then 0 else m i) fs

-- The bit of a bitmap block, and its change.
abbrev pub bit_at : ℕ → Memory → Bool
bit_at bi m = bit (bi % 8) (m (bi / 8))

abbrev pub put_bit_at : Bool → ℕ → Memory → Memory
put_bit_at v bi m = set_byte (bi / 8) (put_bit v (bi % 8) (m (bi / 8))) m

-- The inner loop of balloc(), with `n` bits to go, from bit `bi` on.
unfoldable pub clear_bit : ℕ → ℕ → Memory → Option ℕ
clear_bit zero bi m = none
clear_bit (suc n) bi m = if bit_at bi m then clear_bit n (suc bi) m else some bi

-- bread() of block `b`, by a caller that holds the buffer of a block or none, sleeps for ever on
-- that very buffer.
abbrev pub is_held : Option ℕ → ℕ → Bool
is_held none b = false
is_held (some held) b = held == b

-- The sleep for ever.
abbrev pub own_buffer : {A : Type 0} → Outcome A
own_buffer = panic "sleeps on its own buffer"

-- The outer loop, with `n` bitmap blocks to go, from block `b` on.
unfoldable pub balloc_from : Option ℕ → ℕ → ℕ → Fs → Outcome (ℕ × Fs)
balloc_from held zero b fs = panic "balloc: out of blocks"
balloc_from held (suc n) b fs =
    let bits = if ltb (fs.sb.size - b) bpb then fs.sb.size - b else bpb in
    elim (is_held held (bblock b fs.sb)) [
      | true ↦ own_buffer
      | false ↦ elim (clear_bit bits 0 (fs.blocks (bblock b fs.sb))) [
        | some bi ↦
            if is_held held (b + bi)
            then own_buffer
            else ok (b + bi, bzero (b + bi) (log_block (bblock b fs.sb) (put_bit_at true bi) fs))
        | none ↦ balloc_from held n (b + bpb) fs
      ]
    ]

-- balloc(), by a caller that holds a buffer or none
unfoldable pub balloc_holding : Option ℕ → Fs → Outcome (ℕ × Fs)
balloc_holding held fs = balloc_from held ((fs.sb.size + bpb - 1) / bpb) 0 fs

abbrev pub balloc : Fs → Outcome (ℕ × Fs)
balloc fs = balloc_holding none fs

-- bfree(), likewise. It reads the super block, which is block 1, first.
unfoldable pub bfree_holding : Option ℕ → ℕ → Fs → Outcome Fs
bfree_holding held b fs =
    let fs' = readsb fs in
    let at = bblock b fs'.sb in
    if is_held held 1 || is_held held at
    then own_buffer
    else if bit_at (b % bpb) (fs'.blocks at)
    then ok (log_block at (put_bit_at false (b % bpb)) fs')
    else panic "freeing free block"

abbrev pub bfree : ℕ → Fs → Outcome Fs
bfree b fs = bfree_holding none b fs
