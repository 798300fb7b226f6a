-- ===== src/Sysfile/Names.antt =====
-- sysfile.c: link(), unlink() and the creation of an inode with a name.
use spring18cs.Base.{
  ℕ, zero, suc, ◌+◌, ◌-◌, ◌*◌, ◌^◌, Bool, true, false, ◌&&◌, ◌||◌, ltb, ◌==◌, if◌then◌else◌, List,
  [], ◌∷◌, Option, none, some, replicate,
}
use spring18cs.Fs.{Fs, Inode}
use spring18cs.Fs.Icache.{inode_at, set_inode, iupdate, iunlock, ialloc}
use spring18cs.Fs.Content.{Devsw, writei, iput, iunlockput, t_dir}
use spring18cs.Fs.Dir.{
  namei, nameiparent, namecmp, dirlookup, dirlink, read_dirent, de_inum, dirent_size, dirents,
}
use spring18cs.Sysfile.{Run, done, dies, ◌>>=◌, lift, lock, walk, add_link, drop_link}

-- T_FILE
abbrev pub t_file : ℕ
t_file = 2

abbrev pub dot : List ℕ
dot = b'.' ∷ []

abbrev pub dots : List ℕ
dots = b'.' ∷ b'.' ∷ []

-- `bad:` of sys_link()
unfoldable pub undo_link : ℕ → Fs → Run (Bool × Fs)
undo_link ip fs = do
  fs1 ← lock ip fs
  fs2 ← lift (drop_link ip fs1)
  fs3 ← lift (iunlockput ip fs2)
  done (false, fs3)

-- sys_link() from where the old name has been found: the new name gets an entry.
unfoldable pub link_new : Devsw → ℕ → ℕ → List ℕ → Fs → Run (Bool × Fs)
link_new devsw cwd ip new fs = do
  (parent, fs1) ← walk (nameiparent devsw new cwd fs)
  elim parent [
    | none ↦ undo_link ip fs1
    | some (dp, name) ↦ (do
      fs2 ← lock dp fs1
      d ← lift (inode_at dp fs2)
      n ← lift (inode_at ip fs2)
      (linked, fs3) ←
          if d.dev == n.dev then lift (dirlink devsw dp name n.inum fs2) else done (false, fs2)
      fs4 ← lift (iunlockput dp fs3)
      elim linked [
        | false ↦ undo_link ip fs4
        | true ↦ (do fs5 ← lift (iput ip fs4); done (true, fs5))
      ])
  ]

-- sys_link(): whether it returned 0
unfoldable pub sys_link : Devsw → ℕ → List ℕ → List ℕ → Fs → Run (Bool × Fs)
sys_link devsw cwd old new fs = do
  (at, fs1) ← walk (namei devsw old cwd fs)
  elim at [
    | none ↦ done (false, fs1)
    | some (ip, _) ↦ (do
      fs2 ← lock ip fs1
      n ← lift (inode_at ip fs2)
      elim (n.kind == t_dir) [
        | true ↦ (do fs3 ← lift (iunlockput ip fs2); done (false, fs3))
        | false ↦ (do
          fs3 ← lift (add_link ip fs2)
          fs4 ← lift (iunlock ip fs3)
          link_new devsw cwd ip new fs4)
      ])
  ]

-- The loop of isdirempty(), with `n` entries to go, from offset `off` on.
unfoldable pub empty_from : Devsw → ℕ → ℕ → ℕ → Fs → Run (Bool × Fs)
empty_from devsw zero dp off fs = done (true, fs)
empty_from devsw (suc n) dp off fs = do
  (de, fs1) ← lift (read_dirent devsw dp off fs)
  elim (de_inum de == 0) [
    | false ↦ done (false, fs1)
    | true ↦ empty_from devsw n dp (off + dirent_size) fs1
  ]

-- isdirempty()
unfoldable pub isdirempty : Devsw → ℕ → Fs → Run (Bool × Fs)
isdirempty devsw dp fs = do
  d ← lift (inode_at dp fs)
  empty_from devsw (dirents d.size - 2) dp (2 * dirent_size) fs

-- `bad:` of sys_unlink()
unfoldable pub unlink_fails : ℕ → Fs → Run (Bool × Fs)
unlink_fails dp fs = do fs1 ← lift (iunlockput dp fs); done (false, fs1)

-- sys_unlink() from where the entry at `off` may go.
unfoldable pub clear_entry : Devsw → ℕ → ℕ → ℕ → Bool → Fs → Run (Bool × Fs)
clear_entry devsw dp ip off is_dir fs = do
  (wrote, fs1) ← lift (writei devsw dp off (replicate dirent_size 0) fs)
  let whole : Bool = elim wrote [ none ↦ false | some n ↦ n == dirent_size ]
  elim whole [
    | false ↦ dies "unlink: writei"
    | true ↦ (do
      fs2 ← if is_dir then lift (drop_link dp fs1) else done fs1
      fs3 ← lift (iunlockput dp fs2)
      fs4 ← lift (drop_link ip fs3)
      fs5 ← lift (iunlockput ip fs4)
      done (true, fs5))
  ]

-- sys_unlink(): whether it returned 0
unfoldable pub sys_unlink : Devsw → ℕ → List ℕ → Fs → Run (Bool × Fs)
sys_unlink devsw cwd path fs = do
  (parent, fs1) ← walk (nameiparent devsw path cwd fs)
  elim parent [
    | none ↦ done (false, fs1)
    | some (dp, name) ↦ (do
      fs2 ← lock dp fs1
      elim (namecmp name dot || namecmp name dots) [
        | true ↦ unlink_fails dp fs2
        | false ↦ (do
          (entry, fs3) ← lift (dirlookup devsw dp name fs2)
          elim entry [
            | none ↦ unlink_fails dp fs3
            | some (ip, off) ↦ (do
              fs4 ← lock ip fs3
              n ← lift (inode_at ip fs4)
              (empty, fs5) ←
                  if ltb 0 n.nlink && ltb n.nlink (2 ^ 15) && n.kind == t_dir
                  then isdirempty devsw ip fs4
                  else done (true, fs4)
              elim (ltb 0 n.nlink && ltb n.nlink (2 ^ 15)) [
                | false ↦ dies "unlink: nlink < 1"
                | true ↦ elim empty [
                  | false ↦ (do fs6 ← lift (iunlockput ip fs5); unlink_fails dp fs6)
                  | true ↦ clear_entry devsw dp ip off (n.kind == t_dir) fs5
                ]
              ])
          ])
      ])
  ]

-- create() where the name is there already.
unfoldable pub open_old : ℕ → ℕ → ℕ → Fs → Run (Option ℕ × Fs)
open_old dp ip kind fs = do
  fs1 ← lift (iunlockput dp fs)
  fs2 ← lock ip fs1
  n ← lift (inode_at ip fs2)
  elim (kind == t_file && n.kind == t_file) [
    | true ↦ done (some ip, fs2)
    | false ↦ (do fs3 ← lift (iunlockput ip fs2); done (none, fs3))
  ]

-- The entries of a directory just made, `ip`, in `dp`.
unfoldable pub make_dots : Devsw → ℕ → ℕ → Fs → Run Fs
make_dots devsw dp ip fs = do
  fs1 ← lift (add_link dp fs)
  n ← lift (inode_at ip fs1)
  d ← lift (inode_at dp fs1)
  (one, fs2) ← lift (dirlink devsw ip dot n.inum fs1)
  (two, fs3) ← if one then lift (dirlink devsw ip dots d.inum fs2) else done (false, fs2)
  if two then done fs3 else dies "create dots"

-- create() where the name is new.
unfoldable pub make_inode : Devsw → ℕ → List ℕ → ℕ → ℕ → ℕ → Fs → Run (Option ℕ × Fs)
make_inode devsw dp name kind major minor fs = do
  d ← lift (inode_at dp fs)
  (ip, fs1) ← lift (ialloc d.dev kind fs)
  fs2 ← lock ip fs1
  let filled =
      set_inode ip (λ (n : Inode). record n { major = major; minor = minor; nlink = 1 }) fs2
  fs3 ← lift (iupdate ip filled)
  fs4 ← if kind == t_dir then make_dots devsw dp ip fs3 else done fs3
  n ← lift (inode_at ip fs4)
  (linked, fs5) ← lift (dirlink devsw dp name n.inum fs4)
  elim linked [
    | false ↦ dies "create: dirlink"
    | true ↦ (do fs6 ← lift (iunlockput dp fs5); done (some ip, fs6))
  ]

-- create(): the inode, locked, or none for 0
unfoldable pub create : Devsw → ℕ → List ℕ → ℕ → ℕ → ℕ → Fs → Run (Option ℕ × Fs)
create devsw cwd path kind major minor fs = do
  (parent, fs1) ← walk (nameiparent devsw path cwd fs)
  elim parent [
    | none ↦ done (none, fs1)
    | some (dp, name) ↦ (do
      fs2 ← lock dp fs1
      (entry, fs3) ← lift (dirlookup devsw dp name fs2)
      elim entry [
        | some (ip, _) ↦ open_old dp ip kind fs3
        | none ↦ make_inode devsw dp name kind major minor fs3
      ])
  ]
