-- ===== src/Bcache/Cached.antt =====
-- bio.c: what the cache and the disk together say of each block, under a change of one buffer.
use spring18cs.Base.{
  ℕ, ◌≡◌, ◌≢◌, ◌⊎◌, inl, inr, sym, ◌∙◌, true, false, List, some, get_elem?, modify, modified,
  modify-at, modify-else,
}
use spring18cs.Log.{Block}
use spring18cs.Bcache.{Buf, Bcache, Disk}
use spring18cs.Kalloc.Chain.{has}

-- Block `blk` of the disk has a buffer that waits to be written.
abbrev pub Pending : List Buf → ℕ → Type 0
Pending bufs blk =
    (i : ℕ) × (b : Buf) × (get_elem? bufs i ≡ some b) × (b.dirty ≡ true) × (b.blockno ≡ blk)

-- `says` gives the contents of every block of disk 1: no block has two buffers, valid buffers hold
-- what it says, and so does the disk, but for blocks that wait to be written.
pub record Cached (c : Bcache) (d : Disk) (says : ℕ → Block) : Type 0 where
  pub linked : (i : ℕ) (b : Buf) → get_elem? c.bufs i ≡ some b → has i c.mru ≡ true
  pub one :
      (i j : ℕ) (b b' : Buf)
      → get_elem? c.bufs i ≡ some b
      → get_elem? c.bufs j ≡ some b'
      → b.dev ≡ 1
      → b'.dev ≡ 1
      → b.blockno ≡ b'.blockno
      → i ≡ j
  pub holds :
      (i : ℕ) (b : Buf)
      → get_elem? c.bufs i ≡ some b
      → b.valid ≡ true
      → (b.dev ≡ 1) × (b.image ≡ says b.blockno)
  pub filled : (i : ℕ) (b : Buf) → get_elem? c.bufs i ≡ some b → b.dirty ≡ true → b.valid ≡ true
  pub stored : (blk : ℕ) → (d.blocks blk ≡ says blk) ⊎ Pending c.bufs blk

-- What a change of one buffer has to respect: b' is the buffer afterwards.
pub record Fits (c : Bcache) (i : ℕ) (b b' : Buf) (d : Disk) (says says' : ℕ → Block) : Type 0 where
  pub on_disk : b'.dev ≡ 1
  pub alone :
      (j : ℕ) (o : Buf) → i ≢ j → get_elem? c.bufs j ≡ some o → o.dev ≡ 1 → b'.blockno ≢ o.blockno
  pub new_holds : b'.valid ≡ true → b'.image ≡ says' b'.blockno
  pub new_filled : b'.dirty ≡ true → b'.valid ≡ true
  pub others : (blk : ℕ) → b'.blockno ≢ blk → says' blk ≡ says blk
  pub new_stored :
      (blk : ℕ)
      → (d.blocks blk ≡ says' blk)
        ⊎ (((b'.dirty ≡ true) × (b'.blockno ≡ blk))
            ⊎ (((b.blockno ≢ blk) ⊎ (b.dirty ≡ false)) × Pending c.bufs blk))

pub Cached-modify :
    (c : Bcache) (d d' : Disk) (says says' : ℕ → Block) (i : ℕ) (f : Buf → Buf) {b : Buf}
    → Cached c d says
    → get_elem? c.bufs i ≡ some b
    → Fits c i b (f b) d' says says'
    → Cached (record c { bufs = modify c.bufs i f }) d' says'
Cached-modify c d d' says says' i f {b} h s fits = record {
  linked = λ j x e. elim (modified c.bufs i f j e) [
    | inl (same, o, so, _) ↦ h.linked j o so
    | inr (ne, so) ↦ h.linked j x so
  ];
  one = one';
  holds = λ j x e v. elim (modified c.bufs i f j e) [
    | inl (same, o, so, ex) ↦
        let eo : o ≡ b = old same so in
        let ex' : x ≡ f b = cc in rw ex' (fits.on_disk, fits.new_holds (rw (← ex') v))
    | inr (ne, so) ↦
        let (dv, im) = h.holds j x so v in
        (dv, im ∙ sym (fits.others x.blockno (fits.alone j x ne so dv)))
  ];
  filled = λ j x e v. elim (modified c.bufs i f j e) [
    | inl (same, o, so, ex) ↦
        let eo : o ≡ b = old same so in
        let ex' : x ≡ f b = cc in rw ex' (fits.new_filled (rw (← ex') v))
    | inr (ne, so) ↦ h.filled j x so v
  ];
  stored = λ blk. elim (fits.new_stored blk) [
    | inl e ↦ inl e
    | inr (inl (dirty, at)) ↦ inr (i, f b, modify-at c.bufs i f s, dirty, at)
    | inr (inr (apart, (j, o, so, dirty, at))) ↦
        let ne : i ≢ j = λ same. let eo : o ≡ b = old same so in clash apart eo dirty at in
        inr (j, o, modify-else c.bufs i f j ne ∙ so, dirty, at)
  ];
}
  where
    old : {j : ℕ} {o : Buf} → i ≡ j → get_elem? c.bufs j ≡ some o → o ≡ b
    old same so = let s' = rw same at (s) in cc

    clash :
        {o : Buf} {blk : ℕ}
        → (b.blockno ≢ blk) ⊎ (b.dirty ≡ false)
        → o ≡ b
        → o.dirty ≡ true
        → o.blockno ≡ blk
        → ⊥
    clash (inl ne) eo dirty at = ne (rw (← eo) at)
    clash (inr clean) eo dirty at = let e : b.dirty ≡ true = rw (← eo) dirty in cc

    one' :
        (j k : ℕ) (x y : Buf)
        → get_elem? (modify c.bufs i f) j ≡ some x
        → get_elem? (modify c.bufs i f) k ≡ some y
        → x.dev ≡ 1
        → y.dev ≡ 1
        → x.blockno ≡ y.blockno
        → j ≡ k
    one' j k x y ex ey dx dy at = elim (modified c.bufs i f j ex) [
      | inl (same, o, so, eo) ↦ elim (modified c.bufs i f k ey) [
        | inl (same', o', so', eo') ↦ cc
        | inr (ne, so') ↦
            let e : x ≡ f b = let q : o ≡ b = old same so in cc in
            absurd (fits.alone k y ne so' dy (rw (← e) at))
      ]
      | inr (ne, so) ↦ elim (modified c.bufs i f k ey) [
        | inl (same', o', so', eo') ↦
            let e : y ≡ f b = let q : o' ≡ b = old same' so' in cc in
            absurd (fits.alone j x ne so dx (rw (← e) (sym at)))
        | inr (ne', so') ↦ h.one j k x y so so' dx dy at
      ]
    ]
