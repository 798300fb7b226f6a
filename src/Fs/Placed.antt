-- ===== src/Fs/Placed.antt =====
-- fs.c: a file whose blocks are allocated, and what bmap() and changes of its blocks do to it.
use spring18cs.Base.{
  ℕ, zero, suc, ◌+◌, ◌-◌, ◌*◌, ◌/◌, ◌%◌, ◌<◌, ◌≤◌, ◌≡◌, ◌≢◌, inl, inr, refl, sym, ◌∙◌, ap, Bool,
  true, false, ◌&&◌, ltb, leb, ◌==◌, if◌then◌else◌, List, [], ◌∷◌, some, arith, Bool-cases, ==_ne,
  ==_iff, ok, get_or, get_elem?, length,
}
use spring18cs.CString.Memory.{Memory, set_byte}
use spring18cs.Fs.{Fs, Inode, log_block, ndirect, nindirect, bsize, read32, iblock}
use spring18cs.Fs.Icache.{inode_at}
use spring18cs.Fs.Content.{addr_block, bmap, put_bytes}

-- Inode `ip` has its first `k` blocks on the disk, the block number `bn` at `addr bn`. They are
-- different blocks, apart from the indirect block and the block of the inode itself.
pub record Placed (fs : Fs) (ip : ℕ) (n : Inode) (addr : ℕ → ℕ) (k : ℕ) : Type 0 where
  pub node : get_elem? fs.inodes ip ≡ some n
  pub few : k ≤ ndirect + nindirect
  pub direct : (bn : ℕ) → bn < k → bn < ndirect → get_or n.addrs bn 0 ≡ addr bn
  pub indirect :
      (bn : ℕ)
      → bn < k
      → ndirect ≤ bn
      → read32 (fs.blocks (get_or n.addrs ndirect 0)) (4 * (bn - ndirect)) ≡ addr bn
  pub some_block : (bn : ℕ) → bn < k → addr bn ≢ 0
  pub some_indirect : ndirect < k → get_or n.addrs ndirect 0 ≢ 0
  pub apart : (bn bm : ℕ) → bn < k → bm < k → addr bn ≡ addr bm → bn ≡ bm
  pub not_indirect : (bn : ℕ) → bn < k → addr bn ≢ get_or n.addrs ndirect 0
  pub not_inode : (bn : ℕ) → bn < k → addr bn ≢ iblock n.inum fs.sb
  pub indirect_apart : ndirect < k → get_or n.addrs ndirect 0 ≢ iblock n.inum fs.sb

pub inode_at-there :
    (fs : Fs) (ip : ℕ) (n : Inode) → get_elem? fs.inodes ip ≡ some n → inode_at ip fs ≡ ok n
inode_at-there fs ip n s = let e = s in rw (inode_at, e) (λ i. ok n)

addr_block-there :
    (fs : Fs) (ip i a : ℕ) (n : Inode)
    → get_elem? fs.inodes ip ≡ some n
    → get_or n.addrs i 0 ≡ a
    → a ≢ 0
    → addr_block ip i fs ≡ ok (a, fs)
unfolding addr_block
addr_block-there fs ip i a n s e nz =
    let f : (a == 0) ≡ false = ==_ne a 0 nz in rw (addr_block, inode_at-there fs ip n s, e, f) refl

-- bmap() finds the block and changes nothing.
pub bmap-Placed :
    (fs : Fs) (ip : ℕ) (n : Inode) (addr : ℕ → ℕ) (k bn : ℕ)
    → Placed fs ip n addr k
    → bn < k
    → bmap ip bn fs ≡ ok (addr bn, fs)
unfolding bmap
bmap-Placed fs ip n addr k bn p lt = elim (Bool-cases (ltb bn ndirect)) [
  | inl t ↦
      rw (bmap, t)
        (addr_block-there fs ip bn (addr bn) n p.node (p.direct bn lt (ground arith))
          (p.some_block bn lt))
  | inr f ↦
      let few = p.few in
      let t : ltb (bn - ndirect) nindirect ≡ true = ground arith in
      let found =
        addr_block-there fs ip ndirect (get_or n.addrs ndirect 0) n p.node refl
          (p.some_indirect (ground arith)) in
      let word = p.indirect bn lt (ground arith) in
      let nz : (addr bn == 0) ≡ false = ==_ne (addr bn) 0 (p.some_block bn lt) in
      rw (bmap, f, t, found, word, nz) refl
]

-- A block of the file written.
pub Placed-log_block :
    (fs : Fs) (ip : ℕ) (n : Inode) (addr : ℕ → ℕ) (k bn : ℕ) (change : Memory → Memory)
    → Placed fs ip n addr k
    → bn < k
    → Placed (log_block (addr bn) change fs) ip n addr k
Placed-log_block fs ip n addr k bn change p lt =
    let f : (get_or n.addrs ndirect 0 == addr bn) ≡ false =
      ==_ne (get_or n.addrs ndirect 0) (addr bn) (λ e. p.not_indirect bn lt (sym e)) in
    record {
      node = p.node;
      few = p.few;
      direct = p.direct;
      indirect = λ bm lm far. rw f (p.indirect bm lm far);
      some_block = p.some_block;
      some_indirect = p.some_indirect;
      apart = p.apart;
      not_indirect = p.not_indirect;
      not_inode = p.not_inode;
      indirect_apart = p.indirect_apart;
    }

-- The byte at offset `i` of the file.
abbrev pub content : Fs → (ℕ → ℕ) → ℕ → ℕ
content fs addr i = fs.blocks (addr (i / bsize)) (i % bsize)

-- `i` is one of the `n` offsets from `off` on.
abbrev pub covers : ℕ → ℕ → ℕ → Bool
covers off n i = leb off i && ltb i (off + n)

pub put_bytes-at :
    (n at : ℕ) (src : List ℕ) (m : Memory) (a : ℕ)
    → n ≤ length src
    → put_bytes n at src m a ≡ (if covers at n a then get_or src (a - at) 0 else m a)
unfolding put_bytes
put_bytes-at zero at src m a h = ground arith
put_bytes-at (suc n) at [] m a h = absurd (omega arith)
put_bytes-at (suc n) at (c ∷ src) m a h =
    put_bytes-at n (at + 1) src (set_byte at c m) a (omega arith)
    ∙ elim (Bool-cases (covers (at + 1) n a)) [
      | inl t ↦
          let all : covers at (suc n) a ≡ true = ground arith in
          let ix : a - at ≡ suc (a - (at + 1)) = ground arith in rw (t, all, ix) refl
      | inr f ↦ elim (Bool-cases (a == at)) [
        | inl t ↦
            let all : covers at (suc n) a ≡ true = ground arith in
            let ix : a - at ≡ 0 = ground arith in rw (f, all, ix, t) refl
        | inr ne ↦ let out : covers at (suc n) a ≡ false = ground arith in rw (f, out, ne) refl
      ]
    ]

-- One round of writei(): the bytes that it writes, and no others of the file.
pub round-content :
    (fs : Fs) (ip : ℕ) (n : Inode) (addr : ℕ → ℕ) (k off m : ℕ) (src : List ℕ) (i : ℕ)
    → Placed fs ip n addr k
    → off < k * bsize
    → m ≤ length src
    → off % bsize + m ≤ bsize
    → i < k * bsize
    → content (log_block (addr (off / bsize)) (put_bytes m (off % bsize) src) fs) addr i
      ≡ (if covers off m i then get_or src (i - off) 0 else content fs addr i)
round-content fs ip n addr k off m src i p lo lm fits li =
    elim (Bool-cases (addr (i / bsize) == addr (off / bsize))) [
      | inl t ↦
          let e : addr (i / bsize) ≡ addr (off / bsize) =
            (==_iff (addr (i / bsize)) (addr (off / bsize))).0 t in
          let same : i / bsize ≡ off / bsize =
            p.apart (i / bsize) (off / bsize) (omega arith) (omega arith) e in
          rw t (
            put_bytes-at m (off % bsize) src (fs.blocks (addr (off / bsize))) (i % bsize) lm
            ∙ elim (Bool-cases (covers off m i)) [
              | inl c ↦
                  let c' : covers (off % bsize) m (i % bsize) ≡ true = ground arith in
                  let ix : i % bsize - off % bsize ≡ i - off = ground arith in rw (c, c', ix) refl
              | inr c ↦
                  let c' : covers (off % bsize) m (i % bsize) ≡ false = ground arith in
                  rw (c, c') (ap (λ a. fs.blocks a (i % bsize)) (sym e))
            ])
      | inr f ↦
          let ne : i / bsize ≢ off / bsize =
            λ same. let e : addr (i / bsize) ≡ addr (off / bsize) = ap addr same in ground arith in
          let out : covers off m i ≡ false = ground arith in rw (f, out) refl
    ]
