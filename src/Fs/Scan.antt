-- ===== src/Fs/Scan.antt =====
-- fs.c: the loop of iget() over the table of inodes.
use spring18cs.Base.{
  ℕ, zero, suc, ◌+◌, ◌≡◌, ◌≢◌, ◌⊎◌, inl, inr, refl, true, false, ◌==◌, if◌then◌else◌, List, [], ◌∷◌,
  Option, none, some, arith, Bool-cases, get_elem?,
}
use spring18cs.Fs.{Inode}
use spring18cs.Fs.Icache.{names_inode, scan_inodes}

-- What the loop of iget() has found behind slot `at`.
pub scan-some :
    (dev inum : ℕ) (ns : List Inode) (at : ℕ) (empty : Option ℕ) {ip : ℕ}
    → (scan_inodes dev inum ns at empty).0 ≡ some ip
    → (k : ℕ) × (n : Inode) × (ip ≡ at + k)
      × (get_elem? ns k ≡ some n)
      × (names_inode dev inum n ≡ true)
unfolding scan_inodes
scan-some dev inum [] at empty e = cc
scan-some dev inum (n ∷ ns) at empty {ip} e = elim (Bool-cases (names_inode dev inum n)) [
  | inl t ↦
      let s : some at ≡ some ip = rw t at (e) in
      let same : at ≡ ip = cc in (0, n, omega arith, refl, t)
  | inr f ↦
      let empty' : Option ℕ = elim empty [
        | some e ↦ some e
        | none ↦ if n.ref == 0 then some at else none
      ] in
      let (k, m, at', s, t) = scan-some dev inum ns (suc at) empty' (rw f at (e)) in
      (suc k, m, omega arith, s, t)
]

pub scan-none :
    (dev inum : ℕ) (ns : List Inode) (at : ℕ) (empty : Option ℕ) (k : ℕ) {m : Inode}
    → (scan_inodes dev inum ns at empty).0 ≡ none
    → get_elem? ns k ≡ some m
    → names_inode dev inum m ≡ false
unfolding scan_inodes
scan-none dev inum [] at empty k e s = cc
scan-none dev inum (n ∷ ns) at empty k {m} e s = elim (Bool-cases (names_inode dev inum n)) [
  | inl t ↦ absurd (let bad : some at ≡ none = rw t at (e) in cc)
  | inr f ↦
      let empty' : Option ℕ = elim empty [
        | some e ↦ some e
        | none ↦ if n.ref == 0 then some at else none
      ] in
      behind k (λ k' s'. scan-none dev inum ns (suc at) empty' k' (rw f at (e)) s') s f
]
  where
    behind :
        (k : ℕ)
        → ((k' : ℕ) → get_elem? ns k' ≡ some m → names_inode dev inum m ≡ false)
        → get_elem? (n ∷ ns) k ≡ some m
        → names_inode dev inum n ≡ false
        → names_inode dev inum m ≡ false
    behind zero rest s f = let same : n ≡ m = cc in rw (← same) f
    behind (suc k') rest s f = rest k' s

pub scan-empty :
    (dev inum : ℕ) (ns : List Inode) (at : ℕ) (empty : Option ℕ) {ip : ℕ}
    → (scan_inodes dev inum ns at empty).1 ≡ some ip
    → (empty ≡ some ip)
      ⊎ ((k : ℕ) × (n : Inode) × (ip ≡ at + k) × (get_elem? ns k ≡ some n) × (n.ref ≡ 0))
unfolding scan_inodes
scan-empty dev inum [] at empty e = inl e
scan-empty dev inum (n ∷ ns) at (some x) {ip} e = elim (Bool-cases (names_inode dev inum n)) [
  | inl t ↦ inl (rw t at (e))
  | inr f ↦ elim (scan-empty dev inum ns (suc at) (some x) (rw f at (e))) [
    | inl s ↦ inl s
    | inr (k, m, at', s, z) ↦ inr (suc k, m, omega arith, s, z)
  ]
]
scan-empty dev inum (n ∷ ns) at none {ip} e = elim (Bool-cases (names_inode dev inum n)) [
  | inl t ↦ inl (rw t at (e))
  | inr f ↦
      elim (scan-empty dev inum ns (suc at) (if n.ref == 0 then some at else none) (rw f at (e))) [
        | inl s ↦ elim (Bool-cases (n.ref == 0)) [
          | inl z ↦
              let s' : some at ≡ some ip = rw z at (s) in
              let same : at ≡ ip = cc in inr (0, n, omega arith, refl, ground arith)
          | inr nz ↦ absurd (let bad : none ≡ some ip = rw nz at (s) in cc)
        ]
        | inr (k, m, at', s, z) ↦ inr (suc k, m, omega arith, s, z)
      ]
]

-- A free slot that was found is kept.
scan-kept :
    (dev inum : ℕ) (ns : List Inode) (at x : ℕ) → (scan_inodes dev inum ns at (some x)).1 ≢ none
unfolding scan_inodes
scan-kept dev inum [] at x e = cc
scan-kept dev inum (n ∷ ns) at x e = elim (Bool-cases (names_inode dev inum n)) [
  | inl t ↦ let bad : some x ≡ none = rw t at (e) in cc
  | inr f ↦ scan-kept dev inum ns (suc at) x (rw f at (e))
]

-- Where the scan finds no slot at all, none is free.
pub scan-full :
    (dev inum : ℕ) (ns : List Inode) (at k : ℕ) {m : Inode}
    → (scan_inodes dev inum ns at none).0 ≡ none
    → (scan_inodes dev inum ns at none).1 ≡ none
    → get_elem? ns k ≡ some m
    → m.ref ≢ 0
unfolding scan_inodes
scan-full dev inum [] at k e e' s z = cc
scan-full dev inum (n ∷ ns) at k {m} e e' s z = elim (Bool-cases (names_inode dev inum n)) [
  | inl t ↦ let bad : some at ≡ none = rw t at (e) in cc
  | inr f ↦ elim (Bool-cases (n.ref == 0)) [
    | inl t ↦ scan-kept dev inum ns (suc at) at (rw (f, t) at (e'))
    | inr nz ↦
        behind k
          (λ k' s'. scan-full dev inum ns (suc at) k' (rw (f, nz) at (e)) (rw (f, nz) at (e')) s' z)
          s nz
  ]
]
  where
    behind :
        (k : ℕ)
        → ((k' : ℕ) → get_elem? ns k' ≡ some m → ⊥)
        → get_elem? (n ∷ ns) k ≡ some m
        → (n.ref == 0) ≡ false
        → ⊥
    behind zero rest s nz = let same : n ≡ m = cc in let z' : n.ref ≡ 0 = rw same z in ground arith
    behind (suc k') rest s nz = rest k' s
