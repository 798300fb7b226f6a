-- ===== src/Sysfile/Tests.antt =====
-- sysfile.c: open() of the root directory.
use spring18cs.Base.{ℕ, ◌≡◌, refl, [], ◌∷◌, true, false, Option, some, none, modify, first_index}
use spring18cs.Files.{fd_none, filealloc}
use spring18cs.Fs.{Inode, bit}
use spring18cs.Fs.Icache.{iget, scan_inodes, ilock, iunlock}
use spring18cs.Fs.Content.{Devsw}
use spring18cs.Fs.Path.{skipelem, skip_slashes}
use spring18cs.Fs.Dir.{namei, namex, walk_from}
use spring18cs.Sysfile.{Run, done, lock, walk, fdalloc}
use spring18cs.Sysfile.Open.{Sys, sys_open, open_inode, give_fd}
use spring18cs.Sysfile.Fds.{After, Opens, Leads, sys_open-Opens}

abbrev no_devices : Devsw
no_devices = record { read = λ major. none; write = λ major. none }

abbrev root_dir : Inode
root_dir = record {
  dev = 1;
  inum = 1;
  ref = 1;
  busy = false;
  valid = true;
  kind = 1;
  major = 0;
  minor = 0;
  nlink = 1;
  size = 0;
  addrs = [];
}

-- No file is open, and the caller has two descriptors to give.
abbrev fresh_sys : Sys
fresh_sys = record {
  fs = record {
    blocks = λ b i. 0;
    sb = record {
      size = 8;
      nblocks = 0;
      ninodes = 0;
      nlog = 0;
      logstart = 0;
      inodestart = 0;
      bmapstart = 3;
    };
    inodes = root_dir ∷ [];
    logged = [];
  };
  ftable =
      record {
        type = fd_none;
        ref = 0;
        readable = false;
        writable = false;
        pipe = 0;
        ip = 0;
        off = 0;
      }
      ∷ [];
  ofile = none ∷ none ∷ [];
  cwd = 0;
}

sys_open-Opens_example :
    After
      (Opens (Leads no_devices (b'/' ∷ []) 0 fresh_sys) 0 fresh_sys)
      (sys_open no_devices (b'/' ∷ []) 0 fresh_sys)
sys_open-Opens_example = sys_open-Opens no_devices (b'/' ∷ []) 0 fresh_sys

abbrev descriptor : Run (Option ℕ × Sys) → Option ℕ
descriptor r = elim r [ done (fd, s) ↦ fd | _ ↦ none ]

-- It returns descriptor 0.
open_root : descriptor (sys_open no_devices (b'/' ∷ []) 0 fresh_sys) ≡ some 0
unfolding sys_open open_inode give_fd fdalloc filealloc first_index walk lock namei namex walk_from
    skipelem skip_slashes iget scan_inodes ilock iunlock bit modify
open_root = refl
