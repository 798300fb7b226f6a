-- ===== src/Fs/WalkEnds.antt =====
-- fs.c: searches of a directory and walks along a path end, where the reads of the devices do.
use spring18cs.Base.{
  ℕ, zero, suc, ◌+◌, ◌<◌, ◌≤◌, ◌≡◌, Bool, false, ◌&&◌, not, ◌==◌, List, [], ◌∷◌, some, length,
  get_or, arith, Bool-cases, Option-cases, inl, inr, refl, Ends, Ends-bind, ap, ◌⊎◌,
}
use spring18cs.Fs.{Fs}
use spring18cs.Fs.Icache.{inode_at, iget, idup, ilock, iunlock, locks, lock_sleeps, Locking}
use spring18cs.Fs.Content.{Devsw, iput, iunlockput, t_dir}
use spring18cs.Fs.Path.{slash, skip_slashes, split_elem, skipelem}
use spring18cs.Fs.Dir.{
  read_dirent, lookup_from, dirlookup, dirents, dirent_size, de_inum, de_name, namecmp, stop_walk,
  walk_from, namex,
}
use spring18cs.Fs.Ends.{inode_at-Ends, iput-Ends}
use spring18cs.Fs.ReadEnds.{
  DevsEnd, iget-Ends, iunlock-Ends, iunlockput-Ends, ilock-Ends, read_dirent-Ends,
}

lookup_from-Ends :
    (devsw : Devsw) (n dp off : ℕ) (name : List ℕ) (fs : Fs)
    → DevsEnd devsw
    → Ends (lookup_from devsw n dp off name fs)
unfolding lookup_from
lookup_from-Ends devsw zero dp off name fs h = λ e. cc
lookup_from-Ends devsw (suc n) dp off name fs h =
    Ends-bind (read_dirent devsw dp off fs) _ (read_dirent-Ends devsw dp off fs h) (λ r.
      elim (Bool-cases (not (de_inum r.0 == 0) && namecmp name (de_name r.0))) [
        | inr f ↦ rw f (lookup_from-Ends devsw n dp (off + dirent_size) name r.1 h)
        | inl t ↦ rw t (
            Ends-bind (inode_at dp r.1) _ (inode_at-Ends dp r.1) (λ node.
              Ends-bind (iget node.dev (de_inum r.0) r.1) _ (iget-Ends node.dev (de_inum r.0) r.1)
                (λ q e. cc)))
      ])

dirlookup-Ends :
    (devsw : Devsw) (dp : ℕ) (name : List ℕ) (fs : Fs)
    → DevsEnd devsw
    → Ends (dirlookup devsw dp name fs)
unfolding dirlookup
dirlookup-Ends devsw dp name fs h = Ends-bind (inode_at dp fs) _ (inode_at-Ends dp fs) (λ node.
    elim (Bool-cases (node.kind == t_dir)) [
      | inl t ↦ rw t (lookup_from-Ends devsw (dirents node.size) dp 0 name fs h)
      | inr f ↦ rw f (λ e. cc)
    ])

stop_walk-Ends : (ip : ℕ) (fs : Fs) → Ends (stop_walk ip fs)
unfolding stop_walk
stop_walk-Ends ip fs = Ends-bind (iunlockput ip fs) _ (iunlockput-Ends ip fs) (λ r e. cc)

skip-shorter : (path : List ℕ) → length (skip_slashes path) ≤ length path
unfolding skip_slashes
skip-shorter [] = omega arith
skip-shorter (c ∷ path) = elim (Bool-cases (c == slash)) [
  | inl t ↦ rw (skip_slashes, t) (let s = skip-shorter path in omega arith)
  | inr f ↦ rw (skip_slashes, f) (omega arith)
]

split-shorter : (path : List ℕ) → length (split_elem path).1 ≤ length path
unfolding split_elem
split-shorter [] = omega arith
split-shorter (c ∷ path) = elim (Bool-cases (c == slash)) [
  | inl t ↦ rw (split_elem, t) (omega arith)
  | inr f ↦ rw (split_elem, f) (let s = split-shorter path in omega arith)
]

skip-stops :
    (path : List ℕ) (c : ℕ) (at : List ℕ) → skip_slashes path ≡ c ∷ at → (c == slash) ≡ false
unfolding skip_slashes
skip-stops [] c at e = absurd cc
skip-stops (d ∷ path) c at e = elim (Bool-cases (d == slash)) [
  | inl t ↦ let e' = rw (skip_slashes, t) at (e) in skip-stops path c at e'
  | inr f ↦ let e' = rw (skip_slashes, f) at (e) in let same : d ≡ c = cc in rw (← same) f
]

-- The next element makes the path shorter.
skipelem-shorter :
    (path rest elem : List ℕ) → skipelem path ≡ some (rest, elem) → length rest < length path
unfolding skipelem split_elem
skipelem-shorter path rest elem e = go (skip_slashes path) refl
  where
    go : (at : List ℕ) → skip_slashes path ≡ at → length rest < length path
    go [] s = let e' = rw (skipelem, s) at (e) in absurd cc
    go (c ∷ at) s =
        let f = skip-stops path c at s in
        let e' = rw (skipelem, s, split_elem, f) at (e) in
        let r : skip_slashes (split_elem at).1 ≡ rest = cc in
        let shorter = skip-shorter (split_elem at).1 in
        let behind = split-shorter at in
        let ahead = skip-shorter path in
        let n : length (skip_slashes path) ≡ suc (length at) = ap length s in
        let m : length (skip_slashes (split_elem at).1) ≡ length rest = ap length r in omega arith

Locking-cases : (lock : Locking) → (lock ≡ lock_sleeps) ⊎ (fs : Fs) × (lock ≡ locks fs)
Locking-cases lock_sleeps = inl refl
Locking-cases (locks fs) = inr (fs, refl)

walk_from-Ends :
    (fuel : ℕ) (devsw : Devsw) (path : List ℕ) (parent : Bool) (ip : ℕ) (name : List ℕ) (fs : Fs)
    → DevsEnd devsw
    → length path < fuel
    → Ends (walk_from fuel devsw path parent ip name fs)
unfolding walk_from
walk_from-Ends zero devsw path parent ip name fs h lt = absurd (omega arith)
walk_from-Ends (suc fuel) devsw path parent ip name fs h lt = elim (Option-cases (skipelem path)) [
  | inl e ↦ elim (Bool-cases parent) [
    | inl p ↦ rw (walk_from, e, p) (Ends-bind (iput ip fs) _ (iput-Ends ip fs) (λ r x. cc))
    | inr p ↦ rw (walk_from, e, p) (λ x. cc)
  ]
  | inr ((rest, elem), e) ↦
      let shorter = skipelem-shorter path rest elem e in
      rw (walk_from, e)
        (Ends-bind (ilock ip fs) _ (ilock-Ends ip fs) (λ lock. elim (Locking-cases lock) [
          | inl sleeps ↦ rw sleeps (λ x. cc)
          | inr (fs1, held) ↦ rw held (
              Ends-bind (inode_at ip fs1) _ (inode_at-Ends ip fs1) (λ node.
                elim (Bool-cases (node.kind == t_dir)) [
                  | inr f ↦ rw f (stop_walk-Ends ip fs1)
                  | inl t ↦ elim (Bool-cases (parent && length rest == 0)) [
                    | inl last ↦
                        rw (t, last)
                          (Ends-bind (iunlock ip fs1) _ (iunlock-Ends ip fs1) (λ r x. cc))
                    | inr more ↦
                        rw (t, more)
                          (Ends-bind (dirlookup devsw ip elem fs1) _
                            (dirlookup-Ends devsw ip elem fs1 h)
                            (λ found. elim (Option-cases found.0) [
                              | inl out ↦ rw out (stop_walk-Ends ip found.1)
                              | inr (at, into) ↦ rw into (
                                  Ends-bind (iunlockput ip found.1) _ (iunlockput-Ends ip found.1)
                                    (λ fs3.
                                      walk_from-Ends fuel devsw rest parent at.0 elem fs3 h
                                        (omega arith)))
                            ]))
                  ]
                ]))
        ]))
]

-- Where the reads of the devices do not run out of fuel, neither does namex(), with all that it
-- calls, whatever the path, the inodes and the blocks: it returns, sleeps on an inode, sleeps for
-- ever on a buffer that it holds itself, or panics with a message of the kernel.
pub namex-Ends :
    (devsw : Devsw) (path : List ℕ) (parent : Bool) (cwd : ℕ) (fs : Fs)
    → DevsEnd devsw
    → Ends (namex devsw path parent cwd fs)
unfolding namex
namex-Ends devsw path parent cwd fs h = elim (Bool-cases (get_or path 0 0 == slash)) [
  | inl t ↦
      rw (namex, t)
        (Ends-bind (iget 1 1 fs) _ (iget-Ends 1 1 fs)
          (λ r. walk_from-Ends (suc (length path)) devsw path parent r.0 [] r.1 h (omega arith)))
  | inr f ↦
      rw (namex, f)
        (walk_from-Ends (suc (length path)) devsw path parent cwd [] (idup cwd fs) h (omega arith))
]
