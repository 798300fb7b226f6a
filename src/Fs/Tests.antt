-- ===== src/Fs/Tests.antt =====
-- fs.c: the theorems on a disk of 8 blocks and a table of two inodes.
use spring18cs.Base.{
  ℕ, zero, suc, ◌≡◌, ◌<◌, refl, List, [], ◌∷◌, false, arith, Returns, ◌==◌, if◌then◌else◌, ◌-◌, ◌^◌,
  get_elem?, some, length, map, ap, true, none, ok, Ends, Bool-cases, inl, inr,
}
use spring18cs.Fs.{Fs, Inode, Super, balloc, bit, bblock, readsb}
use spring18cs.Fs.Balloc.{Formatted, bfree-balloc, Allocates, in_use}
use spring18cs.Fs.Icache.{iget}
use spring18cs.Fs.Iget.{OneEach, Igets, iget-Igets}
use spring18cs.Fs.Content.{Devsw}
use spring18cs.Fs.Dir.{namex}
use spring18cs.Fs.ReadEnds.{DevsEnd}
use spring18cs.Fs.WalkEnds.{namex-Ends}
use spring18cs.Fs.Path.{path_names, skip_slashes}
use spring18cs.Fs.PathNames.{Elem, path_of, cut_name, path_names-path_of}

abbrev eight : Super
eight = record {
  size = 8;
  nblocks = 0;
  ninodes = 0;
  nlog = 0;
  logstart = 0;
  inodestart = 0;
  bmapstart = 3;
}

abbrev root_inode : Inode
root_inode = record {
  dev = 1;
  inum = 1;
  ref = 1;
  busy = false;
  valid = false;
  kind = 0;
  major = 0;
  minor = 0;
  nlink = 0;
  size = 0;
  addrs = [];
}

abbrev free_inode : Inode
free_inode = record root_inode { inum = 0; ref = 0 }

-- The super block is block 1, and the bitmap block 3: blocks 0 to 4 are in use.
abbrev eight_blocks : Fs
eight_blocks = record {
  blocks = λ b i.
      if b == 1
      then (if i == 0 then 8 else if i == 24 then 3 else 0)
      else if b == 3
      then (if i == 0 then 0x1F else 0)
      else 0;
  sb = eight;
  inodes = root_inode ∷ free_inode ∷ [];
  logged = [];
}

eight_blocks-Formatted : Formatted eight_blocks
unfolding readsb bit
eight_blocks-Formatted = record {
  read = refl;
  behind = omega arith;
  super_used = refl;
  map_used = λ b lt. let e : bblock b eight ≡ 3 = omega arith in ap (in_use eight_blocks) e;
}

bfree-balloc_example : Returns (Allocates eight_blocks) (balloc eight_blocks)
unfolding bit
bfree-balloc_example =
    bfree-balloc eight_blocks eight_blocks-Formatted (5, omega arith, omega arith, refl)

one_each : OneEach eight_blocks
one_each zero zero n m s t pn pm d i = refl
one_each zero (suc zero) n m s t pn pm d i =
    let e : free_inode ≡ m = cc in let p = rw (← e) at (pm) in absurd cc
one_each (suc zero) j n m s t pn pm d i =
    let e : free_inode ≡ n = cc in let p = rw (← e) at (pn) in absurd cc
one_each zero (suc (suc j)) n m s t pn pm d i = absurd cc
one_each (suc (suc i)) j n m s t pn pm d e = absurd cc

few_refs : (i : ℕ) (m : Inode) → get_elem? eight_blocks.inodes i ≡ some m → m.ref < 2 ^ 31 - 1
few_refs zero m s = let e : root_inode ≡ m = cc in rw (← e) (omega arith)
few_refs (suc zero) m s = let e : free_inode ≡ m = cc in rw (← e) (omega arith)
few_refs (suc (suc i)) m s = absurd cc

iget-Igets_example : Returns (Igets eight_blocks 1 7) (iget 1 7 eight_blocks)
iget-Igets_example = iget-Igets eight_blocks 1 7 1 free_inode one_each refl refl few_refs

-- The elements of /a//bb/
abbrev a_bb : List Elem
a_bb =
    record { slashes = 0; name = 97 ∷ []; is_name = (refl, tt) }
    ∷ record { slashes = 1; name = 98 ∷ 98 ∷ []; is_name = (refl, (refl, tt)) }
    ∷ []

path_names-path_of_example :
    (path_names (suc (length (path_of a_bb 1))) (path_of a_bb 1) ≡ map cut_name a_bb)
    × (path_names (suc (length (skip_slashes (path_of a_bb 1)))) (skip_slashes (path_of a_bb 1))
        ≡ map cut_name a_bb)
path_names-path_of_example = path_names-path_of a_bb 1

-- The root directory, with the entry `.` in block 5, and a device of which reads fail.
abbrev root_disk : Fs
root_disk = record eight_blocks {
  blocks = λ b i. if b == 5 then (if i == 0 then 1 else if i == 2 then 46 else 0) else 0;
  inodes =
      record root_inode { valid = true; kind = 1; nlink = 1; size = 16; addrs = 5 ∷ [] }
      ∷ free_inode
      ∷ [];
}

abbrev no_input : Devsw
no_input = record {
  read = λ major. if major == 1 then some (λ ip n fs. ok (none, fs)) else none;
  write = λ major. none;
}

no_input-DevsEnd : DevsEnd no_input
no_input-DevsEnd major read e ip n fs = elim (Bool-cases (major == 1)) [
  | inl t ↦
      let e' = rw t at (e) in
      let same : (λ (ip n : ℕ) (fs : Fs). ok (none, fs)) ≡ read = cc in rw (← same) (λ x. cc)
  | inr f ↦ let e' = rw f at (e) in absurd cc
]

-- `/./x`
namex-Ends_example : Ends (namex no_input (47 ∷ 46 ∷ 47 ∷ 120 ∷ []) false 0 root_disk)
namex-Ends_example =
    namex-Ends no_input (47 ∷ 46 ∷ 47 ∷ 120 ∷ []) false 0 root_disk no_input-DevsEnd
