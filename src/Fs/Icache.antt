-- ===== src/Fs/Icache.antt =====
-- fs.c: the inodes on the disk, and the table of those in memory. A call that sleeps is split
-- there. `int` and `short` values are bit patterns.
use spring18cs.Base.{
  ℕ, zero, suc, ◌+◌, ◌-◌, ◌*◌, ◌%◌, ◌^◌, Bool, true, false, ◌&&◌, ◌||◌, not, ltb, ◌==◌,
  if◌then◌else◌, List, [], ◌∷◌, Option, none, some, get_elem?, modify, Outcome, ok, panic, ◌>>=◌,
}
use spring18cs.CString.Memory.{Memory, set_word}
use spring18cs.CString.Moves.{within}
use spring18cs.Fs.{Fs, Inode, log_block, iblock, ipb, ndirect, read16, read32, write16}

-- `x > 0` of an `int`
abbrev pub is_pos : ℕ → Bool
is_pos x = ltb 0 x && ltb x (2 ^ 31)

abbrev pub inode_at : ℕ → Fs → Outcome Inode
inode_at ip fs = elim (get_elem? fs.inodes ip) [ some n ↦ ok n | none ↦ panic "wild pointer" ]

abbrev pub set_inode : ℕ → (Inode → Inode) → Fs → Fs
set_inode ip change fs = record fs { inodes = modify fs.inodes ip change }

-- sizeof(struct dinode), and where an inode stands in its block
abbrev pub dinode_size : ℕ
dinode_size = 64

abbrev pub dinode_at : ℕ → ℕ
dinode_at inum = inum % ipb * dinode_size

-- memmove() of `n` words from and to a block
unfoldable pub get_words : ℕ → ℕ → Memory → List ℕ
get_words zero at m = []
get_words (suc n) at m = read32 m at ∷ get_words n (at + 4) m

unfoldable pub put_words : ℕ → List ℕ → Memory → Memory
put_words at [] m = m
put_words at (w ∷ ws) m = put_words (at + 4) ws (set_word at w m)

-- What iupdate() writes to a `struct dinode`.
unfoldable pub put_dinode : ℕ → Inode → Memory → Memory
put_dinode at n m = put_words (at + 12) n.addrs (
    set_word (at + 8) n.size (
      write16 (at + 6) n.nlink
        (write16 (at + 4) n.minor (write16 (at + 2) n.major (write16 at n.kind m)))))

-- What ilock() reads of it.
unfoldable pub get_dinode : ℕ → Memory → Inode → Inode
get_dinode at m n = record n {
  kind = read16 m at;
  major = read16 m (at + 2);
  minor = read16 m (at + 4);
  nlink = read16 m (at + 6);
  size = read32 m (at + 8);
  addrs = get_words (ndirect + 1) (at + 12) m;
}

-- iupdate()
unfoldable pub iupdate : ℕ → Fs → Outcome Fs
iupdate ip fs = do
  n ← inode_at ip fs
  ok (log_block (iblock n.inum fs.sb) (put_dinode (dinode_at n.inum) n) fs)

abbrev pub names_inode : ℕ → ℕ → Inode → Bool
names_inode dev inum n = is_pos n.ref && n.dev == dev && n.inum == inum

-- The loop of iget(), from slot `ip` on: the slot of the inode, and the first free slot.
unfoldable pub scan_inodes : ℕ → ℕ → List Inode → ℕ → Option ℕ → Option ℕ × Option ℕ
scan_inodes dev inum [] ip empty = (none, empty)
scan_inodes dev inum (n ∷ ns) ip empty =
    let empty' : Option ℕ = elim empty [
      | some e ↦ some e
      | none ↦ if n.ref == 0 then some ip else none
    ] in
    if names_inode dev inum n then (some ip, empty) else scan_inodes dev inum ns (suc ip) empty'

abbrev pub ref_inode : Inode → Inode
ref_inode n = record n { ref = (n.ref + 1) % 2 ^ 32 }

abbrev pub reuse_inode : ℕ → ℕ → Inode → Inode
reuse_inode dev inum n = record n { dev = dev; inum = inum; ref = 1; busy = false; valid = false }

-- iget()
unfoldable pub iget : ℕ → ℕ → Fs → Outcome (ℕ × Fs)
iget dev inum fs =
    let (found, empty) = scan_inodes dev inum fs.inodes 0 none in
    elim found [
      | some ip ↦ ok (ip, set_inode ip ref_inode fs)
      | none ↦ elim empty [
        | some ip ↦ ok (ip, set_inode ip (reuse_inode dev inum) fs)
        | none ↦ panic "iget: no inodes"
      ]
    ]

-- idup()
unfoldable pub idup : ℕ → Fs → Fs
idup ip fs = set_inode ip ref_inode fs

-- How an ilock() stands: it holds the inode, or sleeps on it.
pub data Locking : Type 0 where
  locks : Fs → Locking
  lock_sleeps : Locking

-- ilock(). A pointer that is null is none of the table.
unfoldable pub ilock : ℕ → Fs → Outcome Locking
ilock ip fs = elim (get_elem? fs.inodes ip) [
  | none ↦ panic "ilock"
  | some n ↦
      if not (is_pos n.ref)
      then panic "ilock"
      else if n.busy
      then ok lock_sleeps
      else if n.valid
      then ok (locks (set_inode ip (λ (n : Inode). record n { busy = true }) fs))
      else (let n' = get_dinode (dinode_at n.inum) (fs.blocks (iblock n.inum fs.sb)) n in
          if n'.kind == 0
          then panic "ilock: no type"
          else ok (locks (set_inode ip (λ _. record n' { busy = true; valid = true }) fs)))
]

-- iunlock(). It also wakes whoever sleeps on the inode.
unfoldable pub iunlock : ℕ → Fs → Outcome Fs
iunlock ip fs = elim (get_elem? fs.inodes ip) [
  | none ↦ panic "iunlock"
  | some n ↦
      if not n.busy || not (is_pos n.ref)
      then panic "iunlock"
      else ok (set_inode ip (λ (n : Inode). record n { busy = false }) fs)
]

-- The loop of ialloc(), with `n` inodes to go, from `inum` on.
unfoldable pub ialloc_from : ℕ → ℕ → ℕ → ℕ → Fs → Outcome (ℕ × Fs)
ialloc_from zero inum dev kind fs = panic "ialloc: no inodes"
ialloc_from (suc n) inum dev kind fs =
    let at = dinode_at inum in
    let clear : Memory → Memory = λ m a. if within at dinode_size a then 0 else m a in
    elim (read16 (fs.blocks (iblock inum fs.sb)) at == 0) [
      | true ↦ iget dev inum (log_block (iblock inum fs.sb) (λ m. write16 at kind (clear m)) fs)
      | false ↦ ialloc_from n (suc inum) dev kind fs
    ]

-- ialloc()
unfoldable pub ialloc : ℕ → ℕ → Fs → Outcome (ℕ × Fs)
ialloc dev kind fs = ialloc_from (fs.sb.ninodes - 1) 1 dev kind fs
