-- ===== src/Sysfile/Fds.antt =====
-- sysfile.c: what open() does to the descriptors of the caller and to the table of open files.
use spring18cs.Base.{
  ℕ, ◌≡◌, ◌≢◌, ◌⊎◌, ◌&&◌, ◌%◌, ◌/◌, not, ◌||◌, false, Bool-cases, arith, refl, ◌∙◌, ap, true, ◌==◌,
  List, Option, none, some, get_elem?, modify, first_index, first_index-some, modify-at,
  modify-else, Option-cases, inl, inr, ==_iff,
}
use spring18cs.Files.{File, fd_inode, filealloc, Close, fileclose, nothing, close_pipe, put_inode}
use spring18cs.Fs.{Fs, bit}
use spring18cs.Fs.Dir.{namei}
use spring18cs.Sysfile.Names.{create, t_file}
use spring18cs.Fs.Icache.{iunlock, inode_at}
use spring18cs.Fs.Content.{t_dir, Devsw, iput, iunlockput}
use spring18cs.Sysfile.{walk, lock, Run, done, waits_for, dies, ◌>>=◌, lift, fdalloc, is_null}
use spring18cs.Sysfile.Open.{open_inode, Sys, close_file_of, opened, open_inode, give_fd, sys_open}

-- What holds of the result, where the call returns.
abbrev pub After {ℓ} : {A : Type 0} → (A → Type ℓ) → Run A → Type ℓ
After P (done a) = P a
After P (waits_for ip) = Unit
After P (dies message) = Unit

pub After-bind {ℓ} :
    {A B : Type 0} (P : B → Type ℓ) (m : Run A) (f : A → Run B)
    → ((a : A) → m ≡ done a → After P (f a))
    → After P (m >>= f)
After-bind P (done a) f next = next a refl
After-bind P (waits_for ip) f next = tt
After-bind P (dies message) f next = tt

-- The inode that open() leads to: the one that create() makes with O_CREATE, or else the one that
-- the path names.
abbrev pub Leads : Devsw → List ℕ → ℕ → Sys → ℕ → Type 0
Leads devsw path omode s ip =
    ((bit 9 omode ≡ true)
      × ((fs' : Fs) × (create devsw s.cwd path t_file 0 0 s.fs ≡ done (some ip, fs'))))
    ⊎ ((bit 9 omode ≡ false)
        × ((name : List ℕ) × (fs' : Fs) × (walk (namei devsw path s.cwd s.fs)
              ≡ done (some (ip, name), fs'))))

-- open() returned a descriptor that was free, on a file that nobody referred to; no other
-- descriptor and no other file has changed. Or it returned -1, and no descriptor has.
abbrev pub Opens : (ℕ → Type 0) → ℕ → Sys → Option ℕ × Sys → Type 0
Opens leads omode s (some fd, s') =
    (f : ℕ) × (g : File) × (ip : ℕ) × leads ip
    × (get_elem? s.ofile fd ≡ some none)
    × (get_elem? s'.ofile fd ≡ some (some f))
    × ((i : ℕ) → fd ≢ i → get_elem? s'.ofile i ≡ get_elem? s.ofile i)
    × (get_elem? s.ftable f ≡ some g)
    × (g.ref ≡ 0)
    × (get_elem? s'.ftable f
        ≡ some (record g {
          type = fd_inode;
          ref = 1;
          readable = omode % 2 == 0;
          writable = not (omode % 4 == 0);
          ip = ip;
          off = 0;
        }))
    × ((j : ℕ) → f ≢ j → get_elem? s'.ftable j ≡ get_elem? s.ftable j)
Opens leads omode s (none, s') = s'.ofile ≡ s.ofile

null_none : (x : Option ℕ) → is_null x ≡ true → x ≡ none
null_none none t = refl
null_none (some f) t = cc

fdalloc-none :
    (f : ℕ) (ofile : List (Option ℕ))
    → first_index is_null ofile ≡ none
    → fdalloc f ofile ≡ (none, ofile)
unfolding fdalloc
fdalloc-none f ofile e = rw (fdalloc, e) refl

fdalloc-some :
    (f fd : ℕ) (ofile : List (Option ℕ))
    → first_index is_null ofile ≡ some fd
    → fdalloc f ofile ≡ (some fd, modify ofile fd (λ _. some f))
unfolding fdalloc
fdalloc-some f fd ofile e = rw (fdalloc, e) refl

filealloc-none :
    (ft : List File) → first_index (λ f. f.ref == 0) ft ≡ none → filealloc ft ≡ (none, ft)
unfolding filealloc
filealloc-none ft e = rw (filealloc, e) refl

filealloc-some :
    (ft : List File) (f : ℕ)
    → first_index (λ f. f.ref == 0) ft ≡ some f
    → filealloc ft ≡ (some f, modify ft f (λ (g : File). record g { ref = 1 }))
unfolding filealloc
filealloc-some ft f e = rw (filealloc, e) refl

close_file_of-ofile :
    (f : ℕ) (s : Sys) → After (λ (r : Close × Sys). r.1.ofile ≡ s.ofile) (close_file_of f s)
unfolding close_file_of
close_file_of-ofile f s =
    After-bind (λ (r : Close × Sys). r.1.ofile ≡ s.ofile) (lift (fileclose f s.ftable))
      (λ a. elim a.0 [
        | nothing ↦ done (nothing, record s { ftable = a.1 })
        | close_pipe at writable ↦ done (close_pipe at writable, record s { ftable = a.1 })
        | put_inode ip ↦
            lift (iput ip s.fs) >>= λ fs1. done (nothing, record s { fs = fs1; ftable = a.1 })
      ])
      (λ a e. rest a.0 a.1)
  where
    rest :
        (todo : Close) (ft : List File)
        → After
            (λ (r : Close × Sys). r.1.ofile ≡ s.ofile)
            (elim todo [
              | nothing ↦ done (nothing, record s { ftable = ft })
              | close_pipe at writable ↦ done (close_pipe at writable, record s { ftable = ft })
              | put_inode ip ↦
                  lift (iput ip s.fs) >>= λ fs1. done (nothing, record s { fs = fs1; ftable = ft })
            ])
    rest nothing ft = refl
    rest (close_pipe at writable) ft = refl
    rest (put_inode ip) ft =
        After-bind (λ (r : Close × Sys). r.1.ofile ≡ s.ofile) (lift (iput ip s.fs))
          (λ fs1. done (nothing, record s { fs = fs1; ftable = ft })) (λ fs1 e. refl)

opened-modes :
    (ip omode : ℕ) (g : File)
    → opened ip omode g ≡ record g {
      type = fd_inode;
      readable = omode % 2 == 0;
      writable = not (omode % 4 == 0);
      ip = ip;
      off = 0;
    }
unfolding bit
opened-modes ip omode g =
    let r : not (omode % 2 == 1) ≡ (omode % 2 == 0) = ground arith in
    let w : (omode % 2 == 1 || omode / 2 % 2 == 1) ≡ not (omode % 4 == 0) = ground arith in
    rw (r, w) refl

-- A call that returned made its first part return.
>>=-done :
    {A B : Type 0} (m : Run A) (f : A → Run B) {b : B}
    → (m >>= f) ≡ done b
    → (a : A) × (m ≡ done a) × (f a ≡ done b)
>>=-done (done a) f e = (a, refl, e)
>>=-done (waits_for ip) f e = absurd cc
>>=-done (dies message) f e = absurd cc

some_inj : {i j : ℕ} → some i ≡ some j → i ≡ j
some_inj e = cc

not_none : {j : ℕ} → none ≡ some j → ⊥
not_none e = cc

done_inj :
    {a b : Option ℕ} {x y : Fs} → ◌≡◌ {A = Run (Option ℕ × Fs)} (done (a, x)) (done (b, y)) → a ≡ b
done_inj e = cc

open_inode-Leads :
    (devsw : Devsw) (path : List ℕ) (omode : ℕ) (s : Sys) (ip : ℕ) (fs' : Fs)
    → open_inode devsw s.cwd path omode s.fs ≡ done (some ip, fs')
    → Leads devsw path omode s ip
unfolding open_inode
open_inode-Leads devsw path omode s ip fs' e = elim (Bool-cases (bit 9 omode)) [
  | inl t ↦ inl (t, (fs', rw (open_inode, t) at (e)))
  | inr f ↦
      let ((at, fs1), walked, e1) =
        >>=-done (walk (namei devsw path s.cwd s.fs)) _ (rw (open_inode, f) at (e)) in
      elim (Option-cases at) [
        | inl out ↦ absurd (let bad = rw out at (e1) in cc)
        | inr ((ip0, name), into) ↦
            let (fs2, locked, e2) = >>=-done (lock ip0 fs1) _ (rw into at (e1)) in
            let (n, there, e3) = >>=-done (lift (inode_at ip0 fs2)) _ e2 in
            elim (Bool-cases (n.kind == t_dir && not (omode == 0))) [
              | inr file ↦
                  let e4 = rw file at (e3) in
                  let same : ip0 ≡ ip = some_inj (done_inj e4) in
                  inr (
                    f,
                    (
                      name,
                      fs1,
                      walked ∙ ap (λ x. done (x, fs1)) (into ∙ ap (λ (i : ℕ). some (i, name)) same),
                    ),
                  )
              | inl dir ↦
                  let (fs3, unlocked, e4) =
                    >>=-done (lift (iunlockput ip0 fs2)) _ (rw dir at (e3)) in
                  absurd (not_none (done_inj e4))
            ]
      ]
]

give_fd-Opens :
    (leads : ℕ → Type 0) (ip omode : ℕ) (s : Sys)
    → leads ip
    → After (Opens leads omode s) (give_fd ip omode s)
unfolding give_fd
give_fd-Opens leads ip omode s led =
    elim (Option-cases (first_index (λ (f : File). f.ref == 0) s.ftable)) [
      | inl out ↦
          let a = filealloc-none s.ftable out in
          rw (give_fd, a, ap (λ (x : Option ℕ × List File). x.1) a)
            (After-bind (Opens leads omode s) (lift (iunlockput ip s.fs))
              (λ fs1. done (none, record s { fs = fs1 })) (λ fs1 e. refl))
      | inr (f, got) ↦
          let ft = modify s.ftable f (λ (g : File). record g { ref = 1 }) in
          let (g, sg, zg) = first_index-some (λ (f : File). f.ref == 0) s.ftable got in
          let a = filealloc-some s.ftable f got in
          let b = ap (λ (x : Option ℕ × List File). x.1) a in
          elim (Option-cases (first_index is_null s.ofile)) [
            | inl full ↦
                rw (give_fd, a, fdalloc-none f s.ofile full, b)
                  (After-bind (Opens leads omode s) (close_file_of f (record s { ftable = ft }))
                    (λ r.
                      lift (iunlockput ip r.1.fs) >>= λ fs1. done (none, record r.1 { fs = fs1 }))
                    (λ r e.
                      let kept : r.1.ofile ≡ s.ofile =
                        rw e at (close_file_of-ofile f (record s { ftable = ft })) in
                      After-bind (Opens leads omode s) (lift (iunlockput ip r.1.fs))
                        (λ fs1. done (none, record r.1 { fs = fs1 })) (λ fs1 e'. kept)))
            | inr (fd, free) ↦
                let (x, sx, nx) = first_index-some is_null s.ofile free in
                let was : get_elem? s.ofile fd ≡ some none = rw (← (null_none x nx)) sx in
                let d = fdalloc-some f fd s.ofile free in
                rw (give_fd, a, d, b, ap (λ (x : Option ℕ × List (Option ℕ)). x.1) d)
                  (After-bind (Opens leads omode s) (lift (iunlock ip s.fs))
                    (λ fs1. done (
                      some fd,
                      record {
                        fs = fs1;
                        ftable = modify ft f (opened ip omode);
                        ofile = modify s.ofile fd (λ _. some f);
                        cwd = s.cwd;
                      },
                    ))
                    (λ fs1 e. (
                      f,
                      g,
                      ip,
                      led,
                      was,
                      modify-at s.ofile fd (λ _. some f) sx,
                      λ i ne. modify-else s.ofile fd (λ _. some f) i ne,
                      sg,
                      (==_iff g.ref 0).0 zg,
                      modify-at ft f (opened ip omode)
                            (modify-at s.ftable f (λ (g : File). record g { ref = 1 }) sg)
                          ∙ ap some (opened-modes ip omode (record g { ref = 1 })),
                      λ j ne.
                          modify-else ft f (opened ip omode) j ne
                          ∙ modify-else s.ftable f (λ (g : File). record g { ref = 1 }) j ne,
                    )))
          ]
    ]

-- open(), where it returns: returning a descriptor, that was free, and now refers to a file that
-- nobody referred to, with one reference, at offset 0 of the inode that create() makes (with
-- O_CREATE) or that the path names; readable unless the mode has O_WRONLY, and writable if it has
-- O_WRONLY or O_RDWR. All other descriptors and files are as before. Returning -1, no descriptor
-- changes.
pub sys_open-Opens :
    (devsw : Devsw) (path : List ℕ) (omode : ℕ) (s : Sys)
    → After (Opens (Leads devsw path omode s) omode s) (sys_open devsw path omode s)
unfolding sys_open
sys_open-Opens devsw path omode s =
    let leads = Leads devsw path omode s in
    After-bind (Opens leads omode s) (open_inode devsw s.cwd path omode s.fs)
      (λ r. elim r.0 [
        | none ↦ done (none, record s { fs = r.1 })
        | some ip ↦ give_fd ip omode (record s { fs = r.1 })
      ])
      (λ r e. rest r.0 r.1 e)
  where
    rest :
        (at : Option ℕ) (fs1 : Fs)
        → open_inode devsw s.cwd path omode s.fs ≡ done (at, fs1)
        → After (Opens (Leads devsw path omode s) omode s) (elim at [
          | none ↦ done (none, record s { fs = fs1 })
          | some ip ↦ give_fd ip omode (record s { fs = fs1 })
        ])
    rest none fs1 e = refl
    rest (some ip) fs1 e =
        give_fd-Opens (Leads devsw path omode s) ip omode (record s { fs = fs1 })
          (open_inode-Leads devsw path omode s ip fs1 e)
