-- ===== src/Fs/FileTests.antt =====
-- fs.c: the theorem on the contents of a file, on a file of one block.
use spring18cs.Base.{
  ℕ, ◌≡◌, ◌<◌, refl, [], ◌∷◌, true, false, arith, ◌*◌, some, none, ok, List, ◌++◌, replicate,
}
use spring18cs.Fs.{Fs, Inode, bsize}
use spring18cs.Fs.Content.{Devsw, readi, writei}
use spring18cs.Fs.Placed.{Placed, content, covers}
use spring18cs.Log.{Log}
use spring18cs.Fs.Logged.{log_writes, Room}
use spring18cs.Fs.FileBytes.{readi-writei}

abbrev no_devices : Devsw
no_devices = record { read = λ major. none; write = λ major. none }

-- A file of 5 bytes, in block 6.
abbrev short_file : Inode
short_file = record {
  dev = 1;
  inum = 16;
  ref = 1;
  busy = true;
  valid = true;
  kind = 2;
  major = 0;
  minor = 0;
  nlink = 1;
  size = 5;
  addrs = 6 ∷ [];
}

abbrev file_disk : Fs
file_disk = record {
  blocks = λ b i. 0;
  sb = record {
    size = 8;
    nblocks = 0;
    ninodes = 0;
    nlog = 0;
    logstart = 0;
    inodestart = 0;
    bmapstart = 3;
  };
  inodes = short_file ∷ [];
  logged = [];
}

abbrev in_six : ℕ → ℕ
in_six bn = 6

file_disk-Placed : Placed file_disk 0 short_file in_six 1
file_disk-Placed = record {
  node = refl;
  few = omega arith;
  direct = λ bn lt near. let z : bn ≡ 0 = omega arith in rw z refl;
  indirect = λ bn lt far. absurd (omega arith);
  some_block = λ bn lt e. omega arith;
  some_indirect = λ lt. absurd (omega arith);
  apart = λ bn bm ln lm e. omega arith;
  not_indirect = λ bn lt e. omega arith;
  not_inode = λ bn lt e. omega arith;
  indirect_apart = λ lt. absurd (omega arith);
}

-- An operation has begun, and 20 blocks are logged by others.
abbrev one_begun : Log
one_begun = record {
  start = 2;
  size = 30;
  outstanding = 3;
  committing = false;
  lh = replicate 20 40;
}

one_begun-Room : Room 2 one_begun
one_begun-Room = record {
  fits = omega arith;
  on_disk = omega arith;
  begun = omega arith;
  few = omega arith;
}

readi-writei_example :
    (fs' : Fs) × (writei no_devices 0 4 (7 ∷ 8 ∷ 9 ∷ []) file_disk ≡ ok (some 3, fs'))
    × (readi no_devices 0 4 3 fs' ≡ ok (some (7 ∷ 8 ∷ 9 ∷ []), fs'))
    × ((i : ℕ)
        → i < 1 * bsize
        → covers 4 3 i ≡ false
        → content fs' in_six i ≡ content file_disk in_six i)
    × ((new : List ℕ) × (lg' : Log) × (fs'.logged ≡ new ++ file_disk.logged)
        × (log_writes new one_begun ≡ ok lg'))
readi-writei_example =
    readi-writei no_devices file_disk 0 short_file in_six 1 4 (7 ∷ 8 ∷ 9 ∷ []) one_begun
      file_disk-Placed refl (omega arith) (omega arith) one_begun-Room
