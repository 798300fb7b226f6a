-- ===== src/Sysfile/Open.antt =====
-- sysfile.c and file.c: descriptors, and reading and writing through them.
use spring18cs.Base.{
  ℕ, zero, suc, ◌+◌, ◌-◌, ◌*◌, ◌/◌, ◌%◌, ◌^◌, Bool, true, false, ◌&&◌, ◌||◌, not, ◌==◌,
  if◌then◌else◌, List, drop, length, Option, none, some, get_elem?, modify,
}
use spring18cs.Files.{
  File, fd_none, fd_pipe, fd_inode, Close, nothing, close_pipe, put_inode, filealloc, filedup,
  fileclose,
}
use spring18cs.Fs.{Fs, bit}
use spring18cs.Fs.Icache.{inode_at, iunlock}
use spring18cs.Fs.Content.{Devsw, Stat, stati, readi, writei, iput, iunlockput, t_dir, t_dev}
use spring18cs.Fs.Path.{take}
use spring18cs.Fs.Dir.{namei}
use spring18cs.Sysfile.{Run, done, dies, ◌>>=◌, lift, lock, walk, argfd, fdalloc}
use spring18cs.Sysfile.Names.{create, t_file}

-- The file system, ftable.file, and proc->ofile and proc->cwd of the caller.
pub record Sys : Type 0 where
  pub fs : Fs
  pub ftable : List File
  pub ofile : List (Option ℕ)
  pub cwd : ℕ

-- fileclose(), with the iput() in it. The end of a pipe is left to pipeclose(): it is the result.
unfoldable pub close_file_of : ℕ → Sys → Run (Close × Sys)
close_file_of f s = do
  (todo, ft) ← lift (fileclose f s.ftable)
  let s1 : Sys = record s { ftable = ft }
  elim todo [
    | nothing ↦ done (nothing, s1)
    | close_pipe at writable ↦ done (close_pipe at writable, s1)
    | put_inode ip ↦ (do fs1 ← lift (iput ip s1.fs); done (nothing, record s1 { fs = fs1 }))
  ]

-- sys_dup(): the descriptor, or none for -1
unfoldable pub sys_dup : Option ℕ → Sys → Run (Option ℕ × Sys)
sys_dup arg s = elim (argfd arg s.ofile) [
  | none ↦ done (none, s)
  | some (_, f) ↦
      (let (fd, ofile) = fdalloc f s.ofile in
        elim fd [
          | none ↦ done (none, s)
          | some fd ↦ (do
            ft ← lift (filedup f s.ftable)
            done (some fd, record s { ofile = ofile; ftable = ft }))
        ])
]

-- sys_close(): whether it returned 0, and what is left to close
unfoldable pub sys_close : Option ℕ → Sys → Run (Bool × (Close × Sys))
sys_close arg s = elim (argfd arg s.ofile) [
  | none ↦ done (false, (nothing, s))
  | some (fd, f) ↦ (do
    r ← close_file_of f (record s { ofile = modify s.ofile fd (λ _. none) })
    done (true, r))
]

-- filestat(), and sys_fstat() with it
unfoldable pub filestat : ℕ → Sys → Run (Option Stat × Sys)
filestat f s = elim (get_elem? s.ftable f) [
  | none ↦ dies "wild file pointer"
  | some file ↦ elim file.type [
    | fd_inode ↦ (do
      fs1 ← lock file.ip s.fs
      n ← lift (inode_at file.ip fs1)
      fs2 ← lift (iunlock file.ip fs1)
      done (some (stati n), record s { fs = fs2 }))
    | fd_pipe ↦ done (none, s)
    | fd_none ↦ done (none, s)
  ]
]

-- What a call on a file does: it returned, or it is one on a pipe, with as many bytes.
pub data FileCall (A : Type 0) : Type 0 where
  returned : A → FileCall A
  on_pipe : ℕ → FileCall A

abbrev pub advance : ℕ → ℕ → Sys → Sys
advance f n s = record s {
  ftable = modify s.ftable f (λ (g : File). record g { off = (g.off + n) % 2 ^ 32 });
}

-- fileread(): -1, or the bytes
unfoldable pub fileread : Devsw → ℕ → ℕ → Sys → Run (FileCall (Option (List ℕ) × Sys))
fileread devsw f n s = elim (get_elem? s.ftable f) [
  | none ↦ dies "wild file pointer"
  | some file ↦ if not file.readable then done (returned (none, s)) else elim file.type [
    | fd_pipe ↦ done (on_pipe file.pipe)
    | fd_none ↦ dies "fileread"
    | fd_inode ↦ (do
      fs1 ← lock file.ip s.fs
      (got, fs2) ← lift (readi devsw file.ip file.off n fs1)
      fs3 ← lift (iunlock file.ip fs2)
      let s1 : Sys = record s { fs = fs3 }
      elim got [
        | none ↦ done (returned (none, s1))
        | some bytes ↦ done (returned (some bytes, advance f (length bytes) s1))
      ])
  ]
]

-- `max` of filewrite(), in bytes: ((LOGSIZE-1-1-2) / 2) * 512
abbrev pub write_max : ℕ
write_max = (30 - 1 - 1 - 2) / 2 * 512

-- The loop of filewrite(), on fuel, with the bytes `src` to go: whether all were written.
unfoldable pub write_chunks : ℕ → Devsw → ℕ → List ℕ → Sys → Run (Bool × Sys)
write_chunks zero devsw f src s = if length src == 0 then done (true, s) else dies "no fuel"
write_chunks (suc fuel) devsw f src s = elim (length src == 0) [
  | true ↦ done (true, s)
  | false ↦ elim (get_elem? s.ftable f) [
    | none ↦ dies "wild file pointer"
    | some file ↦ (do
      let chunk = take write_max src
      fs1 ← lock file.ip s.fs
      (wrote, fs2) ← lift (writei devsw file.ip file.off chunk fs1)
      fs3 ← lift (iunlock file.ip fs2)
      let s1 : Sys = record s { fs = fs3 }
      elim wrote [
        | none ↦ done (false, s1)
        | some r ↦
            if r == length chunk
            then write_chunks fuel devsw f (drop write_max src) (advance f r s1)
            else dies "short filewrite"
      ])
  ]
]

-- filewrite(): whether it returned n
unfoldable pub filewrite : Devsw → ℕ → List ℕ → Sys → Run (FileCall (Bool × Sys))
filewrite devsw f src s = elim (get_elem? s.ftable f) [
  | none ↦ dies "wild file pointer"
  | some file ↦ if not file.writable then done (returned (false, s)) else elim file.type [
    | fd_pipe ↦ done (on_pipe file.pipe)
    | fd_none ↦ dies "filewrite"
    | fd_inode ↦ (do r ← write_chunks (length src) devsw f src s; done (returned r))
  ]
]

-- sys_open() up to the inode, which is then locked, or none for -1
unfoldable pub open_inode : Devsw → ℕ → List ℕ → ℕ → Fs → Run (Option ℕ × Fs)
open_inode devsw cwd path omode fs = elim (bit 9 omode) [
  | true ↦ create devsw cwd path t_file 0 0 fs
  | false ↦ (do
    (at, fs1) ← walk (namei devsw path cwd fs)
    elim at [
      | none ↦ done (none, fs1)
      | some (ip, _) ↦ (do
        fs2 ← lock ip fs1
        n ← lift (inode_at ip fs2)
        elim (n.kind == t_dir && not (omode == 0)) [
          | false ↦ done (some ip, fs2)
          | true ↦ (do fs3 ← lift (iunlockput ip fs2); done (none, fs3))
        ])
    ])
]

abbrev pub opened : ℕ → ℕ → File → File
opened ip omode f = record f {
  type = fd_inode;
  ip = ip;
  off = 0;
  readable = not (bit 0 omode);
  writable = bit 0 omode || bit 1 omode;
}

-- sys_open() from the inode on: the descriptor, or none for -1
unfoldable pub give_fd : ℕ → ℕ → Sys → Run (Option ℕ × Sys)
give_fd ip omode s =
    let (file, ft) = filealloc s.ftable in
    elim file [
      | none ↦ (do fs1 ← lift (iunlockput ip s.fs); done (none, record s { fs = fs1; ftable = ft }))
      | some f ↦
          (let (fd, ofile) = fdalloc f s.ofile in
            elim fd [
              | none ↦ (do
                (todo, s1) ← close_file_of f (record s { ftable = ft })
                fs1 ← lift (iunlockput ip s1.fs)
                done (none, record s1 { fs = fs1 }))
              | some fd ↦ (do
                fs1 ← lift (iunlock ip s.fs)
                done (
                  some fd,
                  record s { fs = fs1; ftable = modify ft f (opened ip omode); ofile = ofile },
                ))
            ])
    ]

-- sys_open()
unfoldable pub sys_open : Devsw → List ℕ → ℕ → Sys → Run (Option ℕ × Sys)
sys_open devsw path omode s = do
  (at, fs1) ← open_inode devsw s.cwd path omode s.fs
  elim at [
    | none ↦ done (none, record s { fs = fs1 })
    | some ip ↦ give_fd ip omode (record s { fs = fs1 })
  ]

-- sys_mkdir() and sys_mknod(): whether it returned 0
unfoldable pub make_node : Devsw → List ℕ → ℕ → ℕ → ℕ → Sys → Run (Bool × Sys)
make_node devsw path kind major minor s = do
  (at, fs1) ← create devsw s.cwd path kind major minor s.fs
  elim at [
    | none ↦ done (false, record s { fs = fs1 })
    | some ip ↦ (do fs2 ← lift (iunlockput ip fs1); done (true, record s { fs = fs2 }))
  ]

abbrev pub sys_mkdir : Devsw → List ℕ → Sys → Run (Bool × Sys)
sys_mkdir devsw path s = make_node devsw path t_dir 0 0 s

abbrev pub sys_mknod : Devsw → List ℕ → ℕ → ℕ → Sys → Run (Bool × Sys)
sys_mknod devsw path major minor s = make_node devsw path t_dev (major % 2 ^ 16) (minor % 2 ^ 16) s

-- sys_chdir(): whether it returned 0
unfoldable pub sys_chdir : Devsw → List ℕ → Sys → Run (Bool × Sys)
sys_chdir devsw path s = do
  (at, fs1) ← walk (namei devsw path s.cwd s.fs)
  elim at [
    | none ↦ done (false, record s { fs = fs1 })
    | some (ip, _) ↦ (do
      fs2 ← lock ip fs1
      n ← lift (inode_at ip fs2)
      elim (n.kind == t_dir) [
        | false ↦ (do fs3 ← lift (iunlockput ip fs2); done (false, record s { fs = fs3 }))
        | true ↦ (do
          fs3 ← lift (iunlock ip fs2)
          fs4 ← lift (iput s.cwd fs3)
          done (true, record s { fs = fs4; cwd = ip }))
      ])
  ]
