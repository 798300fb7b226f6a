-- ===== src/Proc/PipeAlloc.antt =====
-- pipe.c: pipealloc(), on each of its paths.
use spring18cs.Base.{
  [], zero, suc, length, ℕ, ◌≡◌, ◌≢◌, refl, sym, ap, ◌∙◌, true, false, List, Option, none, some,
  arith, ◌==◌, get_elem?, modify, get_elem?-modify, modify-modify, list_ext, first_index,
  first_index-some, Option-cases, Bool-cases, inl, inr, ◌⊎◌, Returns, ok, replicate, ==_iff, ==_ne,
}
use spring18cs.Kalloc.{kalloc}
use spring18cs.Files.{fd_pipe, File, fd_none, nothing, filealloc, fileclose, closing}
use spring18cs.Pipe.{fresh, pipe_size}
use spring18cs.Pipe.Fifo.{IsValid, contents}
use spring18cs.Pipe.Traffic.{fresh-IsValid}
use spring18cs.Proc.Kernel.{Symbols, Kernel, Services, close_file, finish_close}
use spring18cs.Proc.PipeCalls.{pipealloc, alloc_second, alloc_page, pipe_end}

length-replicate : (n c : ℕ) → length (replicate n c) ≡ n
length-replicate zero c = refl
length-replicate (suc n) c = rw (length-replicate n c) refl

-- Files that nobody refers to have no type.
abbrev pub Idle : List File → Type 0
Idle ft = (i : ℕ) (f : File) → get_elem? ft i ≡ some f → f.ref ≡ 0 → f.type ≡ fd_none

abbrev claim : File → File
claim f = record f { ref = 1 }

abbrev drop_file : File → File
drop_file f = record f { ref = 0; type = fd_none }

-- A file that was idle, claimed and closed is as it was.
undone : (f : File) → f.ref ≡ 0 → f.type ≡ fd_none → drop_file (claim f) ≡ f
undone f z t = λ i. record {
  type = sym t i;
  ref = sym z i;
  readable = f.readable;
  writable = f.writable;
  pipe = f.pipe;
  ip = f.ip;
  off = f.off;
}

-- What filealloc() finds.
filealloc-Found :
    (ft : List File)
    → (filealloc ft ≡ (none, ft))
      ⊎ ((i : ℕ) × (f : File) × (get_elem? ft i ≡ some f)
          × (f.ref ≡ 0)
          × (filealloc ft ≡ (some i, modify ft i claim)))
unfolding filealloc
filealloc-Found ft = elim (Option-cases (first_index (λ f. f.ref == 0) ft)) [
  | inl e ↦ inl (rw (e, filealloc) refl)
  | inr (i, e) ↦
      let (f, g, t) = first_index-some (λ f. f.ref == 0) ft e in
      inr (i, f, g, ground arith, rw (e, filealloc) refl)
]

-- fileclose() of a file with one reference and no type.
close_one :
    (ft : List File) (i : ℕ) (f : File)
    → get_elem? ft i ≡ some f
    → f.ref ≡ 1
    → f.type ≡ fd_none
    → fileclose i ft ≡ ok (nothing, modify ft i drop_file)
unfolding fileclose closing
close_one ft i f g r t = rw (g, fileclose, r, t) refl

-- A claim that is taken back.
claim_undone :
    (ft : List File) (i : ℕ) (f : File)
    → get_elem? ft i ≡ some f
    → f.ref ≡ 0
    → f.type ≡ fd_none
    → modify (modify ft i claim) i drop_file ≡ ft
claim_undone ft i f g z t =
    modify-modify ft i claim drop_file
    ∙ list_ext _ _ λ a. elim (Bool-cases (i == a)) [
      | inl hit ↦
          let same : a ≡ i = ground arith in
          let here : get_elem? ft a ≡ some f = rw same g in
          get_elem?-modify ft i (λ x. drop_file (claim x)) a
          ∙ rw (hit, here) (ap some (undone f z t))
      | inr miss ↦ get_elem?-modify ft i (λ x. drop_file (claim x)) a ∙ rw miss refl
    ]

modify-swap :
    (ft : List File) (i j : ℕ) (f g : File → File)
    → i ≢ j
    → modify (modify ft j f) i g ≡ modify (modify ft i g) j f
modify-swap ft i j f g ne = list_ext _ _ λ a.
    let l1 = get_elem?-modify (modify ft j f) i g a in
    let l2 = get_elem?-modify ft j f a in
    let r1 = get_elem?-modify (modify ft i g) j f a in
    let r2 = get_elem?-modify ft i g a in
    elim (Bool-cases (i == a)) [
      | inl t ↦ elim (Bool-cases (j == a)) [
        | inl u ↦ absurd (ne (let e : i ≡ a = ground arith in let e' : j ≡ a = ground arith in cc))
        | inr u ↦ rw (l1, l2, r1, r2, t, u)
      ]
      | inr t ↦ rw (l1, l2, r1, r2, t)
    ]

-- One slot of a list after a change of it, or of another slot.
at_self :
    (ft : List File) (i : ℕ) (h : File → File) (f : File)
    → get_elem? ft i ≡ some f
    → get_elem? (modify ft i h) i ≡ some (h f)
at_self ft i h f s =
    let t : (i == i) ≡ true = (==_iff i i).1 refl in rw (get_elem?-modify ft i h i, t, s)

at_other :
    (ft : List File) (i j : ℕ) (h : File → File) (f : File)
    → i ≢ j
    → get_elem? ft j ≡ some f
    → get_elem? (modify ft i h) j ≡ some f
at_other ft i j h f ne s =
    let n : (i == j) ≡ false = ==_ne i j ne in rw (get_elem?-modify ft i h j, n, s)

both_undone :
    (ft : List File) (i j : ℕ) (f g : File)
    → i ≢ j
    → get_elem? ft i ≡ some f
    → f.ref ≡ 0
    → f.type ≡ fd_none
    → get_elem? ft j ≡ some g
    → g.ref ≡ 0
    → g.type ≡ fd_none
    → modify (modify (modify (modify ft i claim) j claim) i drop_file) j drop_file ≡ ft
both_undone ft i j f g ne si fz ty sj gz ty' =
    ap (λ (x : List File). modify x j drop_file)
      (modify-swap (modify ft i claim) i j claim drop_file ne
        ∙ ap (λ (x : List File). modify x j claim) (claim_undone ft i f si fz ty))
    ∙ claim_undone ft j g sj gz ty'

module _ {F : Type 0} (syms : Symbols) (sv : Services F) where
  close_idle :
      (k : Kernel F) (i : ℕ) (f : File)
      → get_elem? k.ftable i ≡ some f
      → f.ref ≡ 1
      → f.type ≡ fd_none
      → close_file syms sv i k ≡ ok (record k { ftable = modify k.ftable i drop_file })
  unfolding close_file finish_close
  close_idle k i f g r t = rw (close_one k.ftable i f g r t)

  -- What pipealloc() leaves: the kernel that it found, or two files that nobody referred to as the
  -- ends of an empty pipe in a page that was free.
  abbrev pub Makes : Kernel F → Option (ℕ × ℕ) × Kernel F → Type 0
  Makes k (none, l) = l ≡ k
  Makes k (some (i, j), l) =
      (at : ℕ) × (f g : File) × (i ≢ j)
      × (get_elem? k.ftable i ≡ some f)
      × (f.ref ≡ 0)
      × (get_elem? k.ftable j ≡ some g)
      × (g.ref ≡ 0)
      × (get_elem? l.ftable i
          ≡ some
              (record f { type = fd_pipe; ref = 1; readable = true; writable = false; pipe = at }))
      × (get_elem? l.ftable j
          ≡ some
              (record g { type = fd_pipe; ref = 1; readable = false; writable = true; pipe = at }))
      × (at ≢ 0)
      × (kalloc k.kmem ≡ (at, l.kmem))
      × IsValid (l.pipes at)
      × (contents (l.pipes at) ≡ [])
      × ((l.pipes at).readopen ≡ true)
      × ((l.pipes at).writeopen ≡ true)

  -- With both files claimed: no page is free, and all is undone, or the pipe is made.
  alloc_page-Makes :
      (k : Kernel F) (i j : ℕ) (f g : File)
      → i ≢ j
      → get_elem? k.ftable i ≡ some f
      → f.ref ≡ 0
      → f.type ≡ fd_none
      → get_elem? k.ftable j ≡ some g
      → g.ref ≡ 0
      → g.type ≡ fd_none
      → Returns
          (Makes k)
          (alloc_page syms sv i j (record k { ftable = modify (modify k.ftable i claim) j claim }))
  unfolding alloc_page kalloc fresh
  alloc_page-Makes k i j f g ne si fz ft sj gz gt =
      let one = modify k.ftable i claim in
      let two = modify one j claim in
      let ji : j ≢ i = λ e. ne (sym e) in
      let two_i : get_elem? two i ≡ some (claim f) =
        at_other one j i claim (claim f) ji (at_self k.ftable i claim f si) in
      let two_j : get_elem? two j ≡ some (claim g) =
        at_self one j claim g (at_other k.ftable i j claim g ne sj) in
      elim (Bool-cases (k.kmem.freelist == 0)) [
        | inl z ↦
            let c1 = close_idle (record k { ftable = two }) i (claim f) two_i refl ft in
            let three = modify two i drop_file in
            let c2 =
              close_idle (record k { ftable = three }) j (claim g)
                (at_other two i j drop_file (claim g) ne two_j) refl gt in
            rw (z, c1, c2)
              (ap (λ (x : List File). record k { ftable = x })
                (both_undone k.ftable i j f g ne si fz ft sj gz gt))
        | inr nz ↦
            let at = k.kmem.freelist in
            let empty = fresh-IsValid (replicate pipe_size 1) (length-replicate pipe_size 1) in
            let here : (at == at) ≡ true = (==_iff at at).1 refl in
            let first = pipe_end at false in
            let second = pipe_end at true in
            rw (nz, nz)
              (
                at,
                f,
                g,
                ne,
                si,
                fz,
                sj,
                gz,
                at_other (modify two i first) j i second (first (claim f)) ji
                    (at_self two i first (claim f) two_i),
                at_self (modify two i first) j second (claim g)
                    (at_other two i j first (claim g) ne two_j),
                ground arith,
                rw nz refl,
                rw here empty.0,
                rw here empty.1,
                rw here refl,
                rw here refl,
              )
      ]

  -- With the first file claimed.
  alloc_second-Makes :
      (k : Kernel F) (i : ℕ) (f : File)
      → Idle k.ftable
      → get_elem? k.ftable i ≡ some f
      → f.ref ≡ 0
      → Returns (Makes k) (alloc_second syms sv i (record k { ftable = modify k.ftable i claim }))
  unfolding alloc_second
  alloc_second-Makes k i f idle si fz =
      let one = modify k.ftable i claim in
      let one_i : get_elem? one i ≡ some (claim f) = at_self k.ftable i claim f si in
      elim (filealloc-Found one) [
        | inl e ↦
            let c =
              close_idle (record k { ftable = one }) i (claim f) one_i refl (idle i f si fz) in
            rw (e, alloc_second, c)
              (ap (λ (x : List File). record k { ftable = x })
                (claim_undone k.ftable i f si fz (idle i f si fz)))
        | inr (j, g, sj, gz, e) ↦ elim (Bool-cases (i == j)) [
          | inl t ↦
              let same : i ≡ j = ground arith in
              let sj' : get_elem? one i ≡ some g = rw (← same) at sj in
              let g_is : claim f ≡ g = cc in
              absurd (let r : 1 ≡ g.ref = ap (λ (x : File). x.ref) g_is in omega arith)
          | inr n ↦
              let ne : i ≢ j = ground arith in
              let sj' : get_elem? k.ftable j ≡ some g =
                ground (arith, get_elem?-modify k.ftable i claim j) in
              rw (e, alloc_second, ap (λ (x : Option ℕ × List File). x.1) e)
                (alloc_page-Makes k i j f g ne si fz (idle i f si fz) sj' gz (idle j g sj' gz))
        ]
      ]

  -- Where files that nobody refers to have no type, pipealloc() does not panic: if it fails, the
  -- kernel is as it was before the call; otherwise two different files that nobody referred to are,
  -- with one reference each, the end of a pipe for reading and the one for writing alone. The pipe is valid,
  -- holds no bytes, has both ends open, and is in the page that kalloc() returned.
  pub pipealloc-Makes : (k : Kernel F) → Idle k.ftable → Returns (Makes k) (pipealloc syms sv k)
  unfolding pipealloc
  pipealloc-Makes k idle = elim (filealloc-Found k.ftable) [
    | inl e ↦ rw (e, pipealloc) refl
    | inr (i, f, si, fz, e) ↦
        rw (e, pipealloc, ap (λ (x : Option ℕ × List File). x.1) e)
          (alloc_second-Makes k i f idle si fz)
  ]
