-- ===== src/Fs/Iget.antt =====
-- fs.c: iget() and the table of inodes in memory.
use spring18cs.Base.{
  ℕ, ◌-◌, ◌^◌, ◌<◌, ◌≡◌, ◌≢◌, inl, inr, refl, sym, ◌∙◌, ap, ◌+◌, ◌%◌, false, true, none, some,
  arith, Option-cases, Returns, get_elem?, modified, modify-at, modify-else,
}
use spring18cs.Fs.{Fs, Inode}
use spring18cs.Fs.Icache.{is_pos, names_inode, scan_inodes, iget, ref_inode, reuse_inode, set_inode}
use spring18cs.Fs.Scan.{scan-some, scan-none, scan-empty, scan-full}

-- No inode has two slots in use.
abbrev pub OneEach : Fs → Type 0
OneEach fs =
    (i j : ℕ) (n m : Inode)
    → get_elem? fs.inodes i ≡ some n
    → get_elem? fs.inodes j ≡ some m
    → is_pos n.ref ≡ true
    → is_pos m.ref ≡ true
    → n.dev ≡ m.dev
    → n.inum ≡ m.inum
    → i ≡ j

-- The inode `inum` has slot `ip`, with a reference.
abbrev pub Slot : Fs → ℕ → ℕ → ℕ → Type 0
Slot fs dev inum ip =
    (n : Inode) × (get_elem? fs.inodes ip ≡ some n)
    × (n.dev ≡ dev)
    × (n.inum ≡ inum)
    × (is_pos n.ref ≡ true)

-- A change of one slot keeps one slot for each inode, where no other slot has the inode that it
-- then has.
OneEach-modify :
    (fs : Fs) (ip : ℕ) (f : Inode → Inode) {n : Inode}
    → OneEach fs
    → get_elem? fs.inodes ip ≡ some n
    → ((j : ℕ) (m : Inode)
        → ip ≢ j
        → get_elem? fs.inodes j ≡ some m
        → is_pos m.ref ≡ true
        → (f n).dev ≡ m.dev
        → (f n).inum ≡ m.inum
        → ⊥)
    → OneEach (set_inode ip f fs)
OneEach-modify fs ip f {n} h s alone i j x y ex ey px py dv nm =
    elim (modified fs.inodes ip f i ex) [
      | inl (same, o, so, eo) ↦ elim (modified fs.inodes ip f j ey) [
        | inl (same', o', so', eo') ↦ cc
        | inr (ne, sy) ↦
            let e : x ≡ f n = old same so eo in
            absurd (alone j y ne sy py (rw (← e) dv) (rw (← e) nm))
      ]
      | inr (ne, sx) ↦ elim (modified fs.inodes ip f j ey) [
        | inl (same', o', so', eo') ↦
            let e : y ≡ f n = old same' so' eo' in
            absurd (alone i x ne sx px (rw (← e) (sym dv)) (rw (← e) (sym nm)))
        | inr (ne', sy) ↦ h i j x y sx sy px py dv nm
      ]
    ]
  where
    old : {k : ℕ} {o z : Inode} → ip ≡ k → get_elem? fs.inodes k ≡ some o → z ≡ f o → z ≡ f n
    old {k} {o} same so eo = let s' = rw same at (s) in let e : o ≡ n = cc in cc

-- What iget() says of the slot that it returns, and of the table then.
abbrev pub Igets : Fs → ℕ → ℕ → ℕ × Fs → Type 0
Igets fs dev inum (ip, fs') =
    OneEach fs'
    × Slot fs' dev inum ip
    × ((ip' : ℕ) (n : Inode)
        → get_elem? fs.inodes ip' ≡ some n
        → n.dev ≡ dev
        → n.inum ≡ inum
        → is_pos n.ref ≡ true
        → (ip ≡ ip') × (get_elem? fs'.inodes ip ≡ some (record n { ref = n.ref + 1 })))
    × (((ip' : ℕ) → ¬ Slot fs dev inum ip')
        → (m : Inode) → get_elem? fs'.inodes ip ≡ some m
        → (m.ref ≡ 1) × (m.valid ≡ false))
    × ((j : ℕ) → ip ≢ j → get_elem? fs'.inodes j ≡ get_elem? fs.inodes j)

some_inj : {n m : Inode} → some n ≡ some m → n ≡ m
some_inj e = cc

found-Igets :
    (fs : Fs) (dev inum ip : ℕ) (n : Inode)
    → OneEach fs
    → get_elem? fs.inodes ip ≡ some n
    → names_inode dev inum n ≡ true
    → n.ref < 2 ^ 31 - 1
    → Igets fs dev inum (ip, set_inode ip ref_inode fs)
found-Igets fs dev inum ip n h s t lt =
    let dv : n.dev ≡ dev = ground arith in
    let nm : n.inum ≡ inum = ground arith in
    let pos : is_pos n.ref ≡ true = ground arith in
    (
      OneEach-modify fs ip ref_inode h s
          (λ j m ne sm pm dv' nm'. ne (h ip j n m s sm pos pm dv' nm')),
      (ref_inode n, modify-at fs.inodes ip ref_inode s, dv, nm, ground arith),
      (λ ip' m sm dm im pm.
          let same = h ip ip' n m s sm pos pm (dv ∙ sym dm) (nm ∙ sym im) in
          let sm' : get_elem? fs.inodes ip ≡ some m = rw same sm in
          let one_more : (n.ref + 1) % 2 ^ 32 ≡ n.ref + 1 = omega arith in
          let counted : ref_inode n ≡ record n { ref = n.ref + 1 } =
            ap (λ r. record n { ref = r }) one_more in
          let e : n ≡ m = cc in
          (
            same,
            modify-at fs.inodes ip ref_inode s
                ∙ ap some counted
                ∙ ap (λ (x : Inode). some (record x { ref = x.ref + 1 })) e,
          )),
      (λ nobody. absurd (nobody ip (n, s, dv, nm, pos))),
      (λ j ne. modify-else fs.inodes ip ref_inode j ne),
    )

reused-Igets :
    (fs : Fs) (dev inum ip : ℕ) (n : Inode)
    → OneEach fs
    → (scan_inodes dev inum fs.inodes 0 none).0 ≡ none
    → get_elem? fs.inodes ip ≡ some n
    → Igets fs dev inum (ip, set_inode ip (reuse_inode dev inum) fs)
reused-Igets fs dev inum ip n h out s =
    let nobody : (j : ℕ) (m : Inode)
        → get_elem? fs.inodes j ≡ some m
        → is_pos m.ref ≡ true
        → m.dev ≡ dev
        → m.inum ≡ inum
        → ⊥ =
      λ j m sm pm dm im. let f = scan-none dev inum fs.inodes 0 none j out sm in ground arith in
    (
      OneEach-modify fs ip (reuse_inode dev inum) h s
          (λ j m ne sm pm dv nm. nobody j m sm pm (sym dv) (sym nm)),
      (reuse_inode dev inum n, modify-at fs.inodes ip (reuse_inode dev inum) s, refl, refl, refl),
      (λ ip' m sm dm im pm. absurd (nobody ip' m sm pm dm im)),
      (λ _ m sm.
          let e : reuse_inode dev inum n ≡ m =
            some_inj (sym (modify-at fs.inodes ip (reuse_inode dev inum) s) ∙ sm) in
          rw (← e) (refl, refl)),
      (λ j ne. modify-else fs.inodes ip (reuse_inode dev inum) j ne),
    )

-- Where no inode has two slots of the table in use, a slot is free, and no inode has as many as
-- 2 ^ 31 - 1 references, iget() does not panic. It returns the slot in use for the inode if there
-- is one, which has one reference more and is otherwise as it was; if there is none, the slot that
-- it returns has one reference and is not valid. That slot then stands for the inode, no inode has
-- two slots, and no other slot changes.
pub iget-Igets :
    (fs : Fs) (dev inum free : ℕ) (n : Inode)
    → OneEach fs
    → get_elem? fs.inodes free ≡ some n
    → n.ref ≡ 0
    → ((i : ℕ) (m : Inode) → get_elem? fs.inodes i ≡ some m → m.ref < 2 ^ 31 - 1)
    → Returns (Igets fs dev inum) (iget dev inum fs)
unfolding iget
iget-Igets fs dev inum free n h sf z few =
    let r = scan_inodes dev inum fs.inodes 0 none in
    elim (Option-cases r.0) [
      | inr (ip, e) ↦
          let (k, m, at, s, t) = scan-some dev inum fs.inodes 0 none e in
          let same : k ≡ ip = omega arith in
          let s' : get_elem? fs.inodes ip ≡ some m = rw (← same) s in
          rw (iget, e) (found-Igets fs dev inum ip m h s' t (few ip m s'))
      | inl out ↦ elim (Option-cases r.1) [
        | inl full ↦ absurd (scan-full dev inum fs.inodes 0 free out full sf z)
        | inr (ip, e) ↦ elim (scan-empty dev inum fs.inodes 0 none e) [
          | inl bad ↦ absurd cc
          | inr (k, m, at, s, _) ↦
              let same : k ≡ ip = omega arith in
              let s' : get_elem? fs.inodes ip ≡ some m = rw (← same) s in
              rw (iget, out, e) (reused-Igets fs dev inum ip m h out s')
        ]
      ]
    ]
