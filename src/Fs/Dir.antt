-- ===== src/Fs/Dir.antt =====
-- fs.c: directories, and the walk along a path. A walk that sleeps on an inode is split there.
use spring18cs.Base.{
  ℕ, zero, suc, ◌+◌, ◌-◌, ◌*◌, ◌/◌, ◌%◌, ◌^◌, Bool, true, false, ◌&&◌, not, ◌==◌, if◌then◌else◌,
  List, [], ◌∷◌, drop, Option, none, some, length, get_or, Outcome, ok, panic, ◌>>=◌,
}
use spring18cs.Fs.{Fs, dirsiz}
use spring18cs.Fs.Icache.{inode_at, iget, idup, ilock, iunlock, locks, lock_sleeps}
use spring18cs.Fs.Content.{Devsw, readi, writei, iput, iunlockput, t_dir}
use spring18cs.Fs.Path.{skipelem, slash}

-- sizeof(struct dirent)
abbrev pub dirent_size : ℕ
dirent_size = 16

-- `strncmp(s, t, n) == 0`, where behind the end of a list there is a NUL
unfoldable pub same_name : ℕ → List ℕ → List ℕ → Bool
same_name zero s t = true
same_name (suc n) s t =
    let rest = same_name n (drop 1 s) (drop 1 t) in
    if not (get_or s 0 0 == 0) && get_or s 0 0 == get_or t 0 0
    then rest
    else get_or s 0 0 == get_or t 0 0

-- `namecmp(s, t) == 0`
abbrev pub namecmp : List ℕ → List ℕ → Bool
namecmp s t = same_name dirsiz s t

-- The number of entries that fit the size, the last one cut off perhaps.
abbrev pub dirents : ℕ → ℕ
dirents size = (size + dirent_size - 1) / dirent_size

-- readi() of the entry at `off`
unfoldable pub read_dirent : Devsw → ℕ → ℕ → Fs → Outcome (List ℕ × Fs)
read_dirent devsw dp off fs = do
  (got, fs') ← readi devsw dp off dirent_size fs
  elim got [
    | none ↦ panic "dirlink read"
    | some de ↦ if length de == dirent_size then ok (de, fs') else panic "dirlink read"
  ]

-- `de.inum`, `de.name`
abbrev pub de_inum : List ℕ → ℕ
de_inum de = get_or de 0 0 + 2 ^ 8 * get_or de 1 0

abbrev pub de_name : List ℕ → List ℕ
de_name de = drop 2 de

-- The loop of dirlookup(), with `n` entries to go, from offset `off` on.
unfoldable pub lookup_from : Devsw → ℕ → ℕ → ℕ → List ℕ → Fs → Outcome (Option (ℕ × ℕ) × Fs)
lookup_from devsw zero dp off name fs = ok (none, fs)
lookup_from devsw (suc n) dp off name fs = do
  (de, fs') ← read_dirent devsw dp off fs
  elim (not (de_inum de == 0) && namecmp name (de_name de)) [
    | false ↦ lookup_from devsw n dp (off + dirent_size) name fs'
    | true ↦ (do
      node ← inode_at dp fs'
      (ip, fs'') ← iget node.dev (de_inum de) fs'
      ok (some (ip, off), fs''))
  ]

-- dirlookup(): the inode, and the offset of its entry
unfoldable pub dirlookup : Devsw → ℕ → List ℕ → Fs → Outcome (Option (ℕ × ℕ) × Fs)
dirlookup devsw dp name fs = do
  node ← inode_at dp fs
  if node.kind == t_dir
      then lookup_from devsw (dirents node.size) dp 0 name fs
      else panic "dirlookup not DIR"

-- The loop of dirlink(), which looks for an empty entry: its offset, or the first behind the end.
unfoldable pub empty_dirent : Devsw → ℕ → ℕ → ℕ → Fs → Outcome (ℕ × Fs)
empty_dirent devsw zero dp off fs = ok (off, fs)
empty_dirent devsw (suc n) dp off fs = do
  (de, fs') ← read_dirent devsw dp off fs
  elim (de_inum de == 0) [
    | true ↦ ok (off, fs')
    | false ↦ empty_dirent devsw n dp (off + dirent_size) fs'
  ]

-- strncpy(de.name, name, n)
unfoldable pub name_field : ℕ → List ℕ → List ℕ
name_field zero name = []
name_field (suc n) [] = 0 ∷ name_field n []
name_field (suc n) (c ∷ name) = if c == 0 then 0 ∷ name_field n [] else c ∷ name_field n name

-- dirlink(): whether it wrote the entry
unfoldable pub dirlink : Devsw → ℕ → List ℕ → ℕ → Fs → Outcome (Bool × Fs)
dirlink devsw dp name inum fs = do
  (present, fs1) ← dirlookup devsw dp name fs
  elim present [
    | some (ip, _) ↦ (do fs2 ← iput ip fs1; ok (false, fs2))
    | none ↦ (do
      node ← inode_at dp fs1
      (off, fs2) ← empty_dirent devsw (dirents node.size) dp 0 fs1
      let de = inum % 2 ^ 8 ∷ inum / 2 ^ 8 % 2 ^ 8 ∷ name_field dirsiz name
      (wrote, fs3) ← writei devsw dp off de fs2
      elim wrote [
        | some n ↦ if n == dirent_size then ok (true, fs3) else panic "dirlink"
        | none ↦ panic "dirlink"
      ])
  ]

-- How a walk stands: at an inode, with the last name seen; at an end, where it returned 0; or it
-- sleeps on an inode, and goes on from there with the rest of the path.
pub data Walk : Type 0 where
  walks : ℕ → List ℕ → Fs → Walk
  walk_fails : Fs → Walk
  walk_sleeps : ℕ → List ℕ → Fs → Walk

-- iunlockput(ip), and 0 returned
unfoldable pub stop_walk : ℕ → Fs → Outcome Walk
stop_walk ip fs = do fs' ← iunlockput ip fs; ok (walk_fails fs')

-- The loop of namex(), on fuel, at inode `ip`. `parent` is nameiparent.
unfoldable pub walk_from : ℕ → Devsw → List ℕ → Bool → ℕ → List ℕ → Fs → Outcome Walk
walk_from zero devsw path parent ip name fs = panic "no fuel"
walk_from (suc fuel) devsw path parent ip name fs = elim (skipelem path) [
  | none ↦ if parent then (do fs' ← iput ip fs; ok (walk_fails fs')) else ok (walks ip name fs)
  | some (rest, elem) ↦ (do
    lock ← ilock ip fs
    elim lock [
      | lock_sleeps ↦ ok (walk_sleeps ip path fs)
      | locks fs1 ↦ (do
        node ← inode_at ip fs1
        elim (node.kind == t_dir) [
          | false ↦ stop_walk ip fs1
          | true ↦ elim (parent && length rest == 0) [
            | true ↦ (do fs2 ← iunlock ip fs1; ok (walks ip elem fs2))
            | false ↦ (do
              (next, fs2) ← dirlookup devsw ip elem fs1
              elim next [
                | none ↦ stop_walk ip fs2
                | some (ip', _) ↦ (do
                  fs3 ← iunlockput ip fs2
                  walk_from fuel devsw rest parent ip' elem fs3)
              ])
          ]
        ])
    ])
]

-- namex(). ROOTDEV and ROOTINO are 1; `cwd` is proc->cwd.
unfoldable pub namex : Devsw → List ℕ → Bool → ℕ → Fs → Outcome Walk
namex devsw path parent cwd fs = do
  (ip, fs') ← if get_or path 0 0 == slash then iget 1 1 fs else ok (cwd, idup cwd fs)
  walk_from (suc (length path)) devsw path parent ip [] fs'

-- namei()
unfoldable pub namei : Devsw → List ℕ → ℕ → Fs → Outcome Walk
namei devsw path cwd fs = namex devsw path false cwd fs

-- nameiparent()
unfoldable pub nameiparent : Devsw → List ℕ → ℕ → Fs → Outcome Walk
nameiparent devsw path cwd fs = namex devsw path true cwd fs
