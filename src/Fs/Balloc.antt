-- ===== src/Fs/Balloc.antt =====
-- fs.c: the bitmap of blocks in use under balloc() and bfree().
use spring18cs.Base.{
  ℕ, zero, suc, ◌+◌, ◌-◌, ◌*◌, ◌/◌, ◌%◌, ◌<◌, ◌≤◌, ◌≡◌, inl, inr, refl, sym, ◌∙◌, ap, subst, Bool,
  true, false, none, ltb, ◌==◌, if◌then◌else◌, arith, Bool-cases, Option-cases, ==_ne, ==_iff,
  Returns, Returns-cases,
}
use spring18cs.Fs.{
  Fs, Super, bit_at, put_bit_at, clear_bit, bpb, bsize, bblock, log_block, bzero, balloc,
  balloc_from, balloc_holding, bfree_holding, bfree, readsb,
}
use spring18cs.Fs.Bits.{bit_at-put_bit_at, clear_bit-some, clear_bit-none}

abbrev pub in_use : Fs → ℕ → Bool
in_use fs b = bit_at (b % bpb) (fs.blocks (bblock b fs.sb))

-- What balloc() of block `b` does.
abbrev took : ℕ → Fs → Fs
took b fs = bzero b (log_block (bblock b fs.sb) (put_bit_at true (b % bpb)) fs)

-- The super block on the disk is the one in memory, it is not in the bitmap, and the blocks of the
-- super block and of the bitmap are in use.
pub record Formatted (fs : Fs) : Type 0 where
  pub read : (readsb fs).sb ≡ fs.sb
  pub behind : 1 < fs.sb.bmapstart
  pub super_used : in_use fs 1 ≡ true
  pub map_used : (b : ℕ) → b < fs.sb.size → in_use fs (bblock b fs.sb) ≡ true

-- Some block of the disk is free.
abbrev pub HasFree : Fs → ℕ → Type 0
HasFree fs from = (b : ℕ) × (from ≤ b) × (b < fs.sb.size) × (in_use fs b ≡ false)

abbrev Takes : Fs → ℕ × Fs → Type 0
Takes fs r = (r.0 < fs.sb.size) × (in_use fs r.0 ≡ false) × (r.1 ≡ took r.0 fs)

balloc_from-Takes :
    (n b : ℕ) (fs : Fs)
    → b % bpb ≡ 0
    → fs.sb.size ≤ b + n * bpb
    → HasFree fs b
    → Returns (Takes fs) (balloc_from none n b fs)
unfolding balloc_from
balloc_from-Takes zero b fs al enough (c, lo, hi, f) = absurd (omega arith)
balloc_from-Takes (suc n) b fs al enough (c, lo, hi, f) =
    let bits = if ltb (fs.sb.size - b) bpb then fs.sb.size - b else bpb in
    let m = fs.blocks (bblock b fs.sb) in
    elim (Option-cases (clear_bit bits 0 m)) [
      | inr (bi, e) ↦
          let (clear, _, lt) = clear_bit-some bits 0 m e in
          let small : bi < bpb = ground arith in
          let at : bblock (b + bi) fs.sb ≡ bblock b fs.sb = omega arith in
          let rest : (b + bi) % bpb ≡ bi = omega arith in
          rw (balloc_from, e) (ground arith, rw (at, rest) clear, rw (at, rest) refl)
      | inl e ↦
          let later : b + bpb ≤ c = elim (Bool-cases (ltb c (b + bpb))) [
            | inr f' ↦ ground arith
            | inl t ↦
                let at : bblock c fs.sb ≡ bblock b fs.sb = ground arith in
                let rest : c % bpb ≡ c - b = ground arith in
                let bad : bit_at (c - b) m ≡ true =
                  clear_bit-none bits 0 m (c - b) e (omega arith) (ground arith) in
                let f' : bit_at (c - b) m ≡ false = rw (at, rest) at (f) in absurd cc
          ] in
          rw (balloc_from, e)
            (balloc_from-Takes n (b + bpb) fs (omega arith) (omega arith) (c, later, hi, f))
    ]

-- One bit of the bitmap put, and no block of it written otherwise.
put-in_use :
    (v : Bool) (b c : ℕ) (fs : Fs)
    → in_use (log_block (bblock b fs.sb) (put_bit_at v (b % bpb)) fs) c
      ≡ (if c == b then v else in_use fs c)
put-in_use v b c fs = elim (Bool-cases (bblock c fs.sb == bblock b fs.sb)) [
  | inl t ↦
      let e : bblock c fs.sb ≡ bblock b fs.sb = (==_iff (bblock c fs.sb) (bblock b fs.sb)).0 t in
      let s : (c % bpb == b % bpb) ≡ (c == b) = ground arith in
      let self : (bblock b fs.sb == bblock b fs.sb) ≡ true =
        (==_iff (bblock b fs.sb) (bblock b fs.sb)).1 refl in
      rw (e, self)
        (bit_at-put_bit_at v (b % bpb) (c % bpb) (fs.blocks (bblock b fs.sb)) ∙ rw s refl)
  | inr f ↦ let ne : (c == b) ≡ false = ground arith in rw (f, ne) refl
]

module _ (fs : Fs) (h : Formatted fs) (b : ℕ) (lt : b < fs.sb.size)
    (clear : in_use fs b ≡ false) where
  not_map : (c : ℕ) → c < fs.sb.size → (bblock c fs.sb == b) ≡ false
  not_map c hc =
      ==_ne (bblock c fs.sb) b (λ e.
        let t : in_use fs b ≡ true = subst (λ x. in_use fs x ≡ true) e (h.map_used c hc) in cc)

  took-in_use :
      (c : ℕ) → c < fs.sb.size → in_use (took b fs) c ≡ (if c == b then true else in_use fs c)
  unfolding bzero
  took-in_use c hc = rw (not_map c hc) (put-in_use true b c fs)

  took-zeroed : (i : ℕ) → i < bsize → (took b fs).blocks b i ≡ 0
  unfolding bzero
  took-zeroed i hi =
      let self : (b == b) ≡ true = (==_iff b b).1 refl in
      let t : ltb i bsize ≡ true = ground arith in rw (self, t) refl

  took-sb : (readsb (took b fs)).sb ≡ fs.sb
  unfolding bzero readsb
  took-sb =
      let ne : (1 == b) ≡ false =
        ==_ne 1 b (λ e.
          let t : in_use fs b ≡ true = subst (λ x. in_use fs x ≡ true) e h.super_used in cc) in
      let up = h.behind in
      let ne' : (1 == bblock b fs.sb) ≡ false = ground arith in rw (ne, ne') h.read

unread : (fs : Fs) → (readsb fs).sb ≡ fs.sb → readsb fs ≡ fs
unfolding readsb
unread fs same = ap (λ (s : Super). record fs { sb = s }) same

-- bfree() of a block in use clears its bit, and no other.
bfree-in_use :
    (fs : Fs) (b : ℕ)
    → (readsb fs).sb ≡ fs.sb
    → in_use fs b ≡ true
    → Returns (λ fs'. (c : ℕ) → in_use fs' c ≡ (if c == b then false else in_use fs c)) (bfree b fs)
unfolding bfree_holding
bfree-in_use fs b same t = rw (bfree_holding, unread fs same, t) (λ c. put-in_use false b c fs)

-- What holds of a block that balloc() returns, and of the file system then.
abbrev pub Allocates : Fs → ℕ × Fs → Type 0
Allocates fs (b, fs') =
    (b < fs.sb.size)
    × (in_use fs b ≡ false)
    × ((i : ℕ) → i < bsize → fs'.blocks b i ≡ 0)
    × ((c : ℕ) → c < fs.sb.size → in_use fs' c ≡ (if c == b then true else in_use fs c))
    × Returns (λ fs''. (c : ℕ) → c < fs.sb.size → in_use fs'' c ≡ in_use fs c) (bfree b fs')

took-Allocates :
    (fs : Fs) (b : ℕ)
    → Formatted fs
    → b < fs.sb.size
    → in_use fs b ≡ false
    → Allocates fs (b, took b fs)
unfolding bzero
took-Allocates fs b h lt clear =
    let self : (b == b) ≡ true = (==_iff b b).1 refl in
    let now : in_use (took b fs) b ≡ true = took-in_use fs h b lt clear b lt ∙ rw self refl in
    let (fs'', e, back) =
      Returns-cases (bfree b (took b fs))
        (bfree-in_use (took b fs) b (took-sb fs h b lt clear) now) in
    (
      lt,
      clear,
      took-zeroed fs h b lt clear,
      took-in_use fs h b lt clear,
      rw e (λ c hc. back c ∙ elim (Bool-cases (c == b)) [
        | inl t ↦ let same : c ≡ b = (==_iff c b).0 t in rw (t, same) (sym clear)
        | inr f ↦ rw f (took-in_use fs h b lt clear c hc ∙ rw f refl)
      ]),
    )

-- balloc() where the disk is formatted and a block is free returns a block that was free, with
-- zeroes in it; then that block is in use and the others are as before. bfree() of it does not
-- panic and makes the bitmap what it was.
pub bfree-balloc : (fs : Fs) → Formatted fs → HasFree fs 0 → Returns (Allocates fs) (balloc fs)
unfolding balloc_holding
bfree-balloc fs h free =
    let (r, e, (lt, clear, eq)) =
      Returns-cases (balloc fs)
        (balloc_from-Takes ((fs.sb.size + bpb - 1) / bpb) 0 fs refl (omega arith) free) in
    let whole : r ≡ (r.0, took r.0 fs) = ap (λ (x : Fs). (r.0, x)) eq in
    rw (e, whole) (took-Allocates fs r.0 h lt clear)
