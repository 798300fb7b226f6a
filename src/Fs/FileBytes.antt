-- ===== src/Fs/FileBytes.antt =====
-- fs.c: writei() and then readi() of a file whose blocks are allocated.
use spring18cs.Base.{
  ℕ, ◌+◌, ◌-◌, ◌*◌, ◌/◌, ◌%◌, ◌^◌, ◌<◌, ◌≤◌, ◌≡◌, inl, inr, refl, ◌∙◌, ap, true, false, ◌&&◌, ltb,
  ◌==◌, if◌then◌else◌, suc, ◌++◌, ◌∷◌, List, some, arith, Bool-cases, ==_ne, ok, get_or, get_elem?,
  length, modify-at,
}
use spring18cs.Fs.{Fs, Inode, log_block, bsize, ndirect, iblock}
use spring18cs.Fs.Icache.{set_inode, iupdate, put_dinode, dinode_at}
use spring18cs.Fs.Content.{Devsw, readi, writei, t_dev, maxfile, write_from}
use spring18cs.Fs.Placed.{Placed, content, covers, inode_at-there}
use spring18cs.Log.{Log}
use spring18cs.Fs.Logged.{log_writes, Room, log_writes-Room}
use spring18cs.Fs.ReadWrite.{rounds, range, range-list, read_from-range, Wrote, write_from-Wrote}

-- The new size, and iupdate().
abbrev resize : ℕ → Inode → Inode
resize s n = record n { size = s }

abbrev resized : ℕ → ℕ → Inode → Fs → Fs
resized ip s n fs =
    log_block (iblock n.inum fs.sb) (put_dinode (dinode_at n.inum) (resize s n))
      (set_inode ip (resize s) fs)

iupdate-resized :
    (fs : Fs) (ip s : ℕ) (n : Inode)
    → get_elem? fs.inodes ip ≡ some n
    → iupdate ip (set_inode ip (resize s) fs) ≡ ok (resized ip s n fs)
unfolding iupdate
iupdate-resized fs ip s n e =
    let there =
      inode_at-there (set_inode ip (resize s) fs) ip (resize s n)
        (modify-at fs.inodes ip (resize s) e) in
    rw (iupdate, there) refl

Placed-resized :
    (fs : Fs) (ip s : ℕ) (n : Inode) (addr : ℕ → ℕ) (k : ℕ)
    → Placed fs ip n addr k
    → Placed (resized ip s n fs) ip (resize s n) addr k
Placed-resized fs ip s n addr k p = record {
  node = modify-at fs.inodes ip (resize s) p.node;
  few = p.few;
  direct = p.direct;
  indirect = λ bn lt far.
      let f : (get_or n.addrs ndirect 0 == iblock n.inum fs.sb) ≡ false =
        ==_ne (get_or n.addrs ndirect 0) (iblock n.inum fs.sb)
          (p.indirect_apart (in_range lt far)) in
      rw f (p.indirect bn lt far);
  some_block = p.some_block;
  some_indirect = p.some_indirect;
  apart = p.apart;
  not_indirect = p.not_indirect;
  not_inode = p.not_inode;
  indirect_apart = p.indirect_apart;
}
  where
    in_range : {bn : ℕ} → bn < k → ndirect ≤ bn → ndirect < k
    in_range lt far = omega arith

content-resized :
    (fs : Fs) (ip s : ℕ) (n : Inode) (addr : ℕ → ℕ) (k i : ℕ)
    → Placed fs ip n addr k
    → i < k * bsize
    → content (resized ip s n fs) addr i ≡ content fs addr i
content-resized fs ip s n addr k i p lt =
    let f : (addr (i / bsize) == iblock n.inum fs.sb) ≡ false =
      ==_ne (addr (i / bsize)) (iblock n.inum fs.sb) (p.not_inode (i / bsize) (omega arith)) in
    rw f refl

-- What a writei() that returns leaves.
record Written (fs fs' : Fs) (ip : ℕ) (n : Inode) (addr : ℕ → ℕ) (k off : ℕ) (src : List ℕ)
    : Type 0 where
  now : Inode
  kind_same : now.kind ≡ n.kind
  big : off + length src ≤ now.size
  placed : Placed fs' ip now addr k
  bytes :
      (i : ℕ)
      → i < k * bsize
      → content fs' addr i
        ≡ (if covers off (length src) i then get_or src (i - off) 0 else content fs addr i)
  new : List ℕ
  logs : fs'.logged ≡ new ++ fs.logged
  count : length new ≤ suc (rounds off (length src))

after_loop :
    (devsw : Devsw) (fs fs1 : Fs) (ip : ℕ) (n : Inode) (addr : ℕ → ℕ) (k off : ℕ) (src : List ℕ)
    → Placed fs ip n addr k
    → (n.kind == t_dev) ≡ false
    → off ≤ n.size
    → off + length src ≤ k * bsize
    → write_from (length src) ip off src fs ≡ ok (off + length src, fs1)
    → Wrote fs fs1 ip n addr k off src
    → (fs' : Fs) × (writei devsw ip off src fs ≡ ok (some (length src), fs'))
      × Written fs fs' ip n addr k off src
unfolding writei
after_loop devsw fs fs1 ip n addr k off src p file le fits e w =
    let few = p.few in
    let there = inode_at-there fs ip n p.node in
    let g1 : ltb n.size off ≡ false = ground arith in
    let wrap : (off + length src) % 2 ^ 32 ≡ off + length src = omega arith in
    let g2 : ltb (off + length src) off ≡ false = ground arith in
    let g3 : ltb (maxfile * bsize) (off + length src) ≡ false = ground arith in
    let after = inode_at-there fs1 ip n w.placed.node in
    elim (Bool-cases (ltb 0 (length src) && ltb n.size (off + length src))) [
      | inl t ↦
          let s = off + length src in
          let u = iupdate-resized fs1 ip s n w.placed.node in
          (
            resized ip s n fs1,
            rw (writei, there, file, wrap, g1, g2, g3, e, after, t, u) refl,
            record {
              now = resize s n;
              kind_same = refl;
              big = omega arith;
              placed = Placed-resized fs1 ip s n addr k w.placed;
              bytes = λ i li. content-resized fs1 ip s n addr k i w.placed li ∙ w.bytes i li;
              new = iblock n.inum fs1.sb ∷ w.new;
              logs = ap (◌∷◌ (iblock n.inum fs1.sb)) w.logs;
              count = let c = w.count in omega arith;
            },
          )
      | inr f ↦ (
        fs1,
        rw (writei, there, file, wrap, g1, g2, g3, e, after, f) refl,
        record {
          now = n;
          kind_same = refl;
          big = ground arith;
          placed = w.placed;
          bytes = w.bytes;
          new = w.new;
          logs = w.logs;
          count = let c = w.count in omega arith;
        },
      )
    ]

writei-Written :
    (devsw : Devsw) (fs : Fs) (ip : ℕ) (n : Inode) (addr : ℕ → ℕ) (k off : ℕ) (src : List ℕ)
    → Placed fs ip n addr k
    → (n.kind == t_dev) ≡ false
    → off ≤ n.size
    → off + length src ≤ k * bsize
    → (fs' : Fs) × (writei devsw ip off src fs ≡ ok (some (length src), fs'))
      × Written fs fs' ip n addr k off src
writei-Written devsw fs ip n addr k off src p file le fits =
    let (fs1, e, w) = write_from-Wrote fs ip n addr k (length src) off src p (omega arith) fits in
    after_loop devsw fs fs1 ip n addr k off src p file le fits e w

readi-range :
    (devsw : Devsw) (fs : Fs) (ip : ℕ) (n : Inode) (addr : ℕ → ℕ) (k off len : ℕ)
    → Placed fs ip n addr k
    → (n.kind == t_dev) ≡ false
    → off + len ≤ n.size
    → off + len ≤ k * bsize
    → readi devsw ip off len fs ≡ ok (some (range fs addr off len), fs)
unfolding readi
readi-range devsw fs ip n addr k off len p file big fits =
    let few = p.few in
    let there = inode_at-there fs ip n p.node in
    let g1 : ltb n.size off ≡ false = ground arith in
    let wrap : (off + len) % 2 ^ 32 ≡ off + len = omega arith in
    let g2 : ltb (off + len) off ≡ false = ground arith in
    let g3 : ltb n.size (off + len) ≡ false = ground arith in
    let e = read_from-range fs ip n addr k len off len p (omega arith) fits in
    rw (readi, there, file, wrap, g1, g2, g3, e) refl

-- On a file, not a device, whose first `k` blocks are on the disk, apart from each other and from
-- the indirect block and that of the inode: writei() at an offset up to the size, within these
-- blocks, returns the number of bytes. readi() of as many from the same offset then returns these
-- bytes and changes nothing, and every other byte of these blocks is as before. In a transaction
-- with room in the log for as many blocks as the bytes lie in and one more, no log_write() of that
-- writei() panics.
pub readi-writei :
    (devsw : Devsw) (fs : Fs) (ip : ℕ) (n : Inode) (addr : ℕ → ℕ) (k off : ℕ) (src : List ℕ)
    (lg : Log)
    → Placed fs ip n addr k
    → (n.kind == t_dev) ≡ false
    → off ≤ n.size
    → off + length src ≤ k * bsize
    → Room (suc (rounds off (length src))) lg
    → (fs' : Fs) × (writei devsw ip off src fs ≡ ok (some (length src), fs'))
      × (readi devsw ip off (length src) fs' ≡ ok (some src, fs'))
      × ((i : ℕ)
          → i < k * bsize
          → covers off (length src) i ≡ false
          → content fs' addr i ≡ content fs addr i)
      × ((new : List ℕ) × (lg' : Log) × (fs'.logged ≡ new ++ fs.logged)
          × (log_writes new lg ≡ ok lg'))
readi-writei devsw fs ip n addr k off src lg p file le fits room =
    let (fs', e, w) = writei-Written devsw fs ip n addr k off src p file le fits in
    let same = range-list fs' addr off src (λ j lj.
      let t : covers off (length src) (off + j) ≡ true = ground arith in
      let ix : off + j - off ≡ j = omega arith in
      w.bytes (off + j) (omega arith) ∙ rw (t, ix) refl) in
    let r =
      readi-range devsw fs' ip w.now addr k off (length src) w.placed (rw w.kind_same file) w.big
        fits in
    let (lg', goes, _) = log_writes-Room w.new (suc (rounds off (length src))) lg w.count room in
    (
      fs',
      e,
      r ∙ ap (λ (x : List ℕ). ok (some x, fs')) same,
      (λ i li out. w.bytes i li ∙ rw out refl),
      (w.new, lg', w.logs, goes),
    )
