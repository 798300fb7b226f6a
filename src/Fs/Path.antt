-- ===== src/Fs/Path.antt =====
-- fs.c: the elements of a path. A string is the list of its bytes, without the NUL behind it.
use spring18cs.Base.{ℕ, zero, suc, ◌==◌, if◌then◌else◌, List, [], ◌∷◌, Option, none, some}
use spring18cs.Fs.{dirsiz}

-- '/'
abbrev pub slash : ℕ
slash = 47

abbrev pub take {ℓ} : {A : Type ℓ} → ℕ → List A → List A
take zero xs = []
take (suc n) [] = []
take (suc n) (x ∷ xs) = x ∷ take n xs

-- `while(*path == '/') path++;`
unfoldable pub skip_slashes : List ℕ → List ℕ
skip_slashes [] = []
skip_slashes (c ∷ path) = if c == slash then skip_slashes path else c ∷ path

-- `while(*path != '/' && *path != 0) path++;`: the bytes passed over, and the rest
unfoldable pub split_elem : List ℕ → List ℕ × List ℕ
split_elem [] = ([], [])
split_elem (c ∷ path) =
    let (elem, rest) = split_elem path in if c == slash then ([], c ∷ path) else (c ∷ elem, rest)

-- skipelem(): the rest of the path, and the name, which is NUL-terminated only where it is shorter
-- than DIRSIZ
unfoldable pub skipelem : List ℕ → Option (List ℕ × List ℕ)
skipelem path = elim (skip_slashes path) [
  | [] ↦ none
  | c ∷ at ↦ (let (elem, rest) = split_elem (c ∷ at) in some (skip_slashes rest, take dirsiz elem))
]

-- The names that a path leads through, by calls of skipelem() on fuel.
unfoldable pub path_names : ℕ → List ℕ → List (List ℕ)
path_names zero path = []
path_names (suc fuel) path = elim (skipelem path) [
  | none ↦ []
  | some (rest, name) ↦ name ∷ path_names fuel rest
]
