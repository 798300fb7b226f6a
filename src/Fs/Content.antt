-- ===== src/Fs/Content.antt =====
-- fs.c: the blocks of an inode and what they hold. A buffer in memory is the list of its bytes.
use spring18cs.Base.{
  ℕ, zero, suc, ◌+◌, ◌-◌, ◌*◌, ◌/◌, ◌%◌, ◌^◌, true, false, ◌&&◌, ◌||◌, not, ltb, ◌==◌,
  if◌then◌else◌, List, [], ◌∷◌, ◌++◌, drop, Option, none, some, length, get_or, modify, Outcome, ok,
  panic, ◌>>=◌,
}
use spring18cs.CString.Memory.{Memory, set_byte, set_word}
use spring18cs.Fs.{
  Fs, Inode, log_block, ndirect, nindirect, bsize, read32, balloc, balloc_holding, bfree,
  bfree_holding,
}
use spring18cs.Fs.Icache.{inode_at, set_inode, iupdate, iunlock}

-- `ip->addrs[i] = a`
abbrev pub set_addr : ℕ → ℕ → ℕ → Fs → Fs
set_addr ip i a fs = set_inode ip (λ (n : Inode). record n { addrs = modify n.addrs i (λ _. a) }) fs

-- `if((addr = ip->addrs[i]) == 0) ip->addrs[i] = addr = balloc(ip->dev)`
unfoldable pub addr_block : ℕ → ℕ → Fs → Outcome (ℕ × Fs)
addr_block ip i fs = do
  n ← inode_at ip fs
  if not (get_or n.addrs i 0 == 0)
      then ok (get_or n.addrs i 0, fs)
      else do (a, fs') ← balloc fs; ok (a, set_addr ip i a fs')

-- bmap(). It holds the buffer of the indirect block while it calls balloc().
unfoldable pub bmap : ℕ → ℕ → Fs → Outcome (ℕ × Fs)
bmap ip bn fs =
    if ltb bn ndirect
    then addr_block ip bn fs
    else if ltb (bn - ndirect) nindirect
    then (do
      (block, fs') ← addr_block ip ndirect fs
      let at = 4 * (bn - ndirect)
      if not (read32 (fs'.blocks block) at == 0) then ok (read32 (fs'.blocks block) at, fs') else do
        (a, fs'') ← balloc_holding (some block) fs'
        ok (a, log_block block (set_word at a) fs''))
    else panic "bmap: out of range"

-- The first loop of itrunc(), with `n` blocks to go, from number `i` on.
unfoldable pub free_direct : ℕ → ℕ → ℕ → Fs → Outcome Fs
free_direct zero i ip fs = ok fs
free_direct (suc n) i ip fs = do
  node ← inode_at ip fs
  fs' ←
      if get_or node.addrs i 0 == 0
      then ok fs
      else do freed ← bfree (get_or node.addrs i 0) fs; ok (set_addr ip i 0 freed)
  free_direct n (suc i) ip fs'

-- The second loop, over the words of block `block`, whose buffer is held throughout.
unfoldable pub free_indirect : ℕ → ℕ → ℕ → Fs → Outcome Fs
free_indirect zero j block fs = ok fs
free_indirect (suc n) j block fs = do
  let a = read32 (fs.blocks block) (4 * j)
  fs' ← if a == 0 then ok fs else bfree_holding (some block) a fs
  free_indirect n (suc j) block fs'

-- itrunc()
unfoldable pub itrunc : ℕ → Fs → Outcome Fs
itrunc ip fs = do
  fs1 ← free_direct ndirect 0 ip fs
  node ← inode_at ip fs1
  let block = get_or node.addrs ndirect 0
  fs3 ← if block == 0 then ok fs1 else do
    fs2 ← free_indirect nindirect 0 block fs1
    freed ← bfree block fs2
    ok (set_addr ip ndirect 0 freed)
  iupdate ip (set_inode ip (λ (n : Inode). record n { size = 0 }) fs3)

-- `ip->ref--`
abbrev pub unref_inode : Inode → Inode
unref_inode n = record n { ref = (n.ref + 2 ^ 32 - 1) % 2 ^ 32 }

-- iput(). It also wakes whoever sleeps on an inode that it frees.
unfoldable pub iput : ℕ → Fs → Outcome Fs
iput ip fs = do
  n ← inode_at ip fs
  if not (n.ref == 1 && n.valid && n.nlink == 0)
      then ok (set_inode ip unref_inode fs)
      else if n.busy
      then panic "iput busy"
      else do
        fs1 ← itrunc ip (set_inode ip (λ (n : Inode). record n { busy = true }) fs)
        fs2 ← iupdate ip (set_inode ip (λ (n : Inode). record n { kind = 0 }) fs1)
        ok (
            set_inode ip (λ (n : Inode). unref_inode (record n { busy = false; valid = false }))
              fs2)

-- iunlockput()
unfoldable pub iunlockput : ℕ → Fs → Outcome Fs
iunlockput ip fs = do fs' ← iunlock ip fs; iput ip fs'

-- The result of a device: -1, or the bytes read or their number.
pub record Devsw : Type 0 where
  pub read : ℕ → Option (ℕ → ℕ → Fs → Outcome (Option (List ℕ) × Fs))
  pub write : ℕ → Option (ℕ → List ℕ → Fs → Outcome (Option ℕ × Fs))

-- NDEV, MAXFILE, T_DIR and T_DEV
abbrev pub ndev : ℕ
ndev = 10

abbrev pub maxfile : ℕ
maxfile = ndirect + nindirect

abbrev pub t_dir : ℕ
t_dir = 1

abbrev pub t_dev : ℕ
t_dev = 3

-- The device number of an inode in devsw; a negative `short` is at least 2 ^ 15.
abbrev pub device {ℓ} : {A : Type ℓ} → (ℕ → Option A) → Inode → Option A
device table n = if ltb n.major ndev then table n.major else none

unfoldable pub get_bytes : ℕ → ℕ → Memory → List ℕ
get_bytes zero at m = []
get_bytes (suc n) at m = m at ∷ get_bytes n (at + 1) m

unfoldable pub put_bytes : ℕ → ℕ → List ℕ → Memory → Memory
put_bytes zero at src m = m
put_bytes (suc n) at [] m = m
put_bytes (suc n) at (c ∷ src) m = put_bytes n (at + 1) src (set_byte at c m)

-- `min(left, BSIZE - off % BSIZE)`
abbrev pub chunk : ℕ → ℕ → ℕ
chunk left off = if ltb left (bsize - off % bsize) then left else bsize - off % bsize

-- The loop of readi(), on fuel, with `left` bytes to go.
unfoldable pub read_from : ℕ → ℕ → ℕ → ℕ → Fs → Outcome (List ℕ × Fs)
read_from zero ip off left fs = if left == 0 then ok ([], fs) else panic "no fuel"
read_from (suc fuel) ip off left fs = elim (left == 0) [
  | true ↦ ok ([], fs)
  | false ↦ (do
    (block, fs') ← bmap ip (off / bsize) fs
    let m = chunk left off
    (rest, fs'') ← read_from fuel ip (off + m) (left - m) fs'
    ok (get_bytes m (off % bsize) (fs'.blocks block) ++ rest, fs''))
]

-- readi(): -1, or the bytes
unfoldable pub readi : Devsw → ℕ → ℕ → ℕ → Fs → Outcome (Option (List ℕ) × Fs)
readi devsw ip off n fs = do
  node ← inode_at ip fs
  if node.kind == t_dev
      then elim (device devsw.read node) [ none ↦ ok (none, fs) | some read ↦ read ip n fs ]
      else if ltb node.size off || ltb ((off + n) % 2 ^ 32) off
      then ok (none, fs)
      else do
        let left = if ltb node.size ((off + n) % 2 ^ 32) then node.size - off else n
        (bytes, fs') ← read_from left ip off left fs
        ok (some bytes, fs')

-- The loop of writei(), on fuel: the bytes of `src` are left.
unfoldable pub write_from : ℕ → ℕ → ℕ → List ℕ → Fs → Outcome (ℕ × Fs)
write_from zero ip off src fs = if length src == 0 then ok (off, fs) else panic "no fuel"
write_from (suc fuel) ip off src fs = elim (length src == 0) [
  | true ↦ ok (off, fs)
  | false ↦ (do
    (block, fs') ← bmap ip (off / bsize) fs
    let m = chunk (length src) off
    write_from fuel ip (off + m) (drop m src) (log_block block (put_bytes m (off % bsize) src) fs'))
]

-- writei(): -1, or the number of bytes
unfoldable pub writei : Devsw → ℕ → ℕ → List ℕ → Fs → Outcome (Option ℕ × Fs)
writei devsw ip off src fs = do
  node ← inode_at ip fs
  let n = length src
  if node.kind == t_dev
      then elim (device devsw.write node) [ none ↦ ok (none, fs) | some write ↦ write ip src fs ]
      else if ltb node.size off || ltb ((off + n) % 2 ^ 32) off
      then ok (none, fs)
      else if ltb (maxfile * bsize) (off + n)
      then ok (none, fs)
      else do
        (off', fs') ← write_from n ip off src fs
        node' ← inode_at ip fs'
        if ltb 0 n && ltb node'.size off'
            then (do
              fs'' ← iupdate ip (set_inode ip (λ (n : Inode). record n { size = off' }) fs')
              ok (some n, fs''))
            else ok (some n, fs')

-- `struct stat`
pub record Stat : Type 0 where
  pub kind : ℕ
  pub dev : ℕ
  pub ino : ℕ
  pub nlink : ℕ
  pub size : ℕ

-- stati()
abbrev pub stati : Inode → Stat
stati n = record { dev = n.dev; ino = n.inum; kind = n.kind; nlink = n.nlink; size = n.size }
