-- ===== src/Fs/Ends.antt =====
-- fs.c: the loops over the blocks of an inode and over the bytes of a file end.
use spring18cs.Base.{
  ℕ, zero, suc, ◌+◌, ◌-◌, ◌*◌, ◌/◌, ◌%◌, true, ◌&&◌, ◌||◌, Option, none, some, ltb, ◌==◌,
  if◌then◌else◌, get_or, get_elem?, Bool-cases, Option-cases, inl, inr, ok, ◌>>=◌, Ends, Ends-bind,
}
use spring18cs.Fs.{
  Fs, Inode, is_held, balloc_holding, bfree_holding, balloc, balloc_from, bfree, readsb, bit_at,
  bpb, bblock, clear_bit, ndirect, nindirect, read32,
}
use spring18cs.Fs.Icache.{inode_at, set_inode, iupdate}
use spring18cs.Fs.Content.{addr_block, bmap, free_direct, free_indirect, itrunc, iput, set_addr}

pub inode_at-Ends : (ip : ℕ) (fs : Fs) → Ends (inode_at ip fs)
inode_at-Ends ip fs = elim (Option-cases (get_elem? fs.inodes ip)) [
  | inl e ↦ rw (inode_at, e) (λ x. cc)
  | inr (n, e) ↦ rw (inode_at, e) (λ x. cc)
]

balloc_from-Ends : (held : Option ℕ) (n b : ℕ) (fs : Fs) → Ends (balloc_from held n b fs)
unfolding balloc_from
balloc_from-Ends held zero b fs = λ e. cc
balloc_from-Ends held (suc n) b fs =
    let bits = if ltb (fs.sb.size - b) bpb then fs.sb.size - b else bpb in
    elim (Bool-cases (is_held held (bblock b fs.sb))) [
      | inl h ↦ rw (balloc_from, h) (λ x. cc)
      | inr h ↦ elim (Option-cases (clear_bit bits 0 (fs.blocks (bblock b fs.sb)))) [
        | inl e ↦ rw (balloc_from, h, e) (balloc_from-Ends held n (b + bpb) fs)
        | inr (bi, e) ↦ elim (Bool-cases (is_held held (b + bi))) [
          | inl h' ↦ rw (balloc_from, h, e, h') (λ x. cc)
          | inr h' ↦ rw (balloc_from, h, e, h') (λ x. cc)
        ]
      ]
    ]

balloc-Ends : (held : Option ℕ) (fs : Fs) → Ends (balloc_holding held fs)
unfolding balloc_holding
balloc-Ends held fs = balloc_from-Ends held ((fs.sb.size + bpb - 1) / bpb) 0 fs

bfree-Ends : (held : Option ℕ) (b : ℕ) (fs : Fs) → Ends (bfree_holding held b fs)
unfolding bfree_holding
bfree-Ends held b fs =
    let fs' = readsb fs in
    elim (Bool-cases (is_held held 1 || is_held held (bblock b fs'.sb))) [
      | inl h ↦ rw (bfree_holding, h) (λ e. cc)
      | inr h ↦ elim (Bool-cases (bit_at (b % bpb) (fs'.blocks (bblock b fs'.sb)))) [
        | inl t ↦ rw (bfree_holding, h, t) (λ e. cc)
        | inr f ↦ rw (bfree_holding, h, f) (λ e. cc)
      ]
    ]

iupdate-Ends : (ip : ℕ) (fs : Fs) → Ends (iupdate ip fs)
unfolding iupdate
iupdate-Ends ip fs = Ends-bind (inode_at ip fs) _ (inode_at-Ends ip fs) (λ n e. cc)

addr_block-Ends : (ip i : ℕ) (fs : Fs) → Ends (addr_block ip i fs)
unfolding addr_block
addr_block-Ends ip i fs = Ends-bind (inode_at ip fs) _ (inode_at-Ends ip fs) (λ n.
    elim (Bool-cases (get_or n.addrs i 0 == 0)) [
      | inr f ↦ rw f (λ e. cc)
      | inl t ↦ rw t (Ends-bind (balloc fs) _ (balloc-Ends none fs) (λ r e. cc))
    ])

pub bmap-Ends : (ip bn : ℕ) (fs : Fs) → Ends (bmap ip bn fs)
unfolding bmap
bmap-Ends ip bn fs = elim (Bool-cases (ltb bn ndirect)) [
  | inl t ↦ rw (bmap, t) (addr_block-Ends ip bn fs)
  | inr f ↦ elim (Bool-cases (ltb (bn - ndirect) nindirect)) [
    | inr f' ↦ rw (bmap, f, f') (λ e. cc)
    | inl t ↦
        rw (bmap, f, t)
          (Ends-bind (addr_block ip ndirect fs) _ (addr_block-Ends ip ndirect fs) (λ r.
            elim (Bool-cases (read32 (r.1.blocks r.0) (4 * (bn - ndirect)) == 0)) [
              | inr g ↦ rw g (λ e. cc)
              | inl g ↦ rw g (
                  Ends-bind (balloc_holding (some r.0) r.1) _ (balloc-Ends (some r.0) r.1)
                    (λ q e. cc))
            ]))
  ]
]

free_direct-Ends : (n i ip : ℕ) (fs : Fs) → Ends (free_direct n i ip fs)
unfolding free_direct
free_direct-Ends zero i ip fs = λ e. cc
free_direct-Ends (suc n) i ip fs =
    let next = λ (fs' : Fs). free_direct-Ends n (suc i) ip fs' in
    Ends-bind (inode_at ip fs) _ (inode_at-Ends ip fs) (λ node.
      elim (Bool-cases (get_or node.addrs i 0 == 0)) [
        | inl t ↦ rw t (next fs)
        | inr f ↦ rw f (
            Ends-bind (bfree (get_or node.addrs i 0) fs >>= λ freed. ok (set_addr ip i 0 freed)) _
              (Ends-bind (bfree (get_or node.addrs i 0) fs) _
                (bfree-Ends none (get_or node.addrs i 0) fs) (λ freed e. cc))
              next)
      ])

free_indirect-Ends : (n j block : ℕ) (fs : Fs) → Ends (free_indirect n j block fs)
unfolding free_indirect
free_indirect-Ends zero j block fs = λ e. cc
free_indirect-Ends (suc n) j block fs =
    let next = λ (fs' : Fs). free_indirect-Ends n (suc j) block fs' in
    let a = read32 (fs.blocks block) (4 * j) in
    elim (Bool-cases (a == 0)) [
      | inl t ↦ rw (free_indirect, t) (next fs)
      | inr f ↦
          rw (free_indirect, f)
            (Ends-bind (bfree_holding (some block) a fs) _ (bfree-Ends (some block) a fs) next)
    ]

itrunc-Ends : (ip : ℕ) (fs : Fs) → Ends (itrunc ip fs)
unfolding itrunc
itrunc-Ends ip fs =
    let last =
      λ (fs' : Fs). iupdate-Ends ip (set_inode ip (λ (n : Inode). record n { size = 0 }) fs') in
    Ends-bind (free_direct ndirect 0 ip fs) _ (free_direct-Ends ndirect 0 ip fs) (λ fs1.
      Ends-bind (inode_at ip fs1) _ (inode_at-Ends ip fs1) (λ node.
        let block = get_or node.addrs ndirect 0 in
        elim (Bool-cases (block == 0)) [
          | inl t ↦ rw t (last fs1)
          | inr f ↦ rw f (
              Ends-bind
                (free_indirect nindirect 0 block fs1 >>= λ fs2.
                  bfree block fs2 >>= λ freed. ok (set_addr ip ndirect 0 freed))
                _
                (Ends-bind (free_indirect nindirect 0 block fs1) _
                  (free_indirect-Ends nindirect 0 block fs1)
                  (λ fs2.
                    Ends-bind (bfree block fs2) _ (bfree-Ends none block fs2) (λ freed e. cc)))
                last)
        ]))

pub iput-Ends : (ip : ℕ) (fs : Fs) → Ends (iput ip fs)
unfolding iput
iput-Ends ip fs = Ends-bind (inode_at ip fs) _ (inode_at-Ends ip fs) (λ n.
    elim (Bool-cases (n.ref == 1 && n.valid && n.nlink == 0)) [
      | inr f ↦ rw f (λ e. cc)
      | inl t ↦ elim (Bool-cases n.busy) [
        | inl b ↦ rw (t, b) (λ e. cc)
        | inr b ↦
            let locked = set_inode ip (λ (n : Inode). record n { busy = true }) fs in
            rw (t, b)
              (Ends-bind (itrunc ip locked) _ (itrunc-Ends ip locked) (λ fs1.
                let typeless = set_inode ip (λ (n : Inode). record n { kind = 0 }) fs1 in
                Ends-bind (iupdate ip typeless) _ (iupdate-Ends ip typeless) (λ fs2 e. cc)))
      ]
    ])
