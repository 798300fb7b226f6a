-- ===== src/Fs/PathNames.antt =====
-- fs.c: skipelem() against the names that a path is made of.
use spring18cs.Base.{
  ℕ, zero, suc, ◌<◌, ◌≤◌, ap, map, arith, length, length-append, inl, inr, Bool-cases, ◌≡◌, refl,
  ◌∙◌, true, false, ◌==◌, List, [], ◌∷◌, ◌++◌, some, replicate,
}
use spring18cs.Fs.{dirsiz}
use spring18cs.Fs.Path.{slash, take, skip_slashes, split_elem, skipelem, path_names}

-- A name: not empty, and without slashes.
abbrev pub NoSlash : List ℕ → Type 0
NoSlash [] = Unit {0}
NoSlash (c ∷ name) = ((c == slash) ≡ false) × NoSlash name

abbrev pub IsName : List ℕ → Type 0
IsName [] = ⊥
IsName (c ∷ name) = NoSlash (c ∷ name)

-- One element of a path: its name, and how many slashes stand before it, more than one.
pub record Elem : Type 0 where
  pub slashes : ℕ
  pub name : List ℕ
  pub is_name : IsName name

-- The path of these elements, with `last` slashes at its end.
abbrev pub path_of : List Elem → ℕ → List ℕ
path_of [] last = replicate last slash
path_of (e ∷ es) last = replicate (suc e.slashes) slash ++ (e.name ++ path_of es last)

skip-replicate :
    (n : ℕ) (path : List ℕ) → skip_slashes (replicate n slash ++ path) ≡ skip_slashes path
unfolding skip_slashes
skip-replicate zero path = refl
skip-replicate (suc n) path = skip-replicate n path

skip-only : (n : ℕ) → skip_slashes (replicate n slash) ≡ []
unfolding skip_slashes
skip-only zero = refl
skip-only (suc n) = skip-only n

skip-name : (name path : List ℕ) → IsName name → skip_slashes (name ++ path) ≡ name ++ path
unfolding skip_slashes
skip-name [] path h = absurd h
skip-name (c ∷ name) path (f, _) = rw f refl

-- Where a path goes on with a slash, or ends, a name before it is split off.
abbrev Ahead : List ℕ → Type 0
Ahead [] = Unit {0}
Ahead (c ∷ path) = (c == slash) ≡ true

Ahead-path_of : (es : List Elem) (last : ℕ) → Ahead (path_of es last)
Ahead-path_of [] zero = tt
Ahead-path_of [] (suc last) = refl
Ahead-path_of (e ∷ es) last = refl

split-name :
    (name path : List ℕ) → NoSlash name → Ahead path → split_elem (name ++ path) ≡ (name, path)
unfolding split_elem
split-name [] [] h a = refl
split-name [] (c ∷ path) h a = rw (split_elem, a) refl
split-name (c ∷ name) path (f, h) a = rw (split_elem, f, split-name name path h a) refl

-- skipelem() of the rest of a path takes off its first name, and the slashes behind it.
skipelem-cons :
    (e : Elem) (es : List Elem) (last : ℕ)
    → skipelem (path_of (e ∷ es) last) ≡ some (skip_slashes (path_of es last), take dirsiz e.name)
unfolding skipelem skip_slashes
skipelem-cons e es last = at_name e.name e.is_name
  where
    at_name :
        (name : List ℕ)
        → IsName name
        → skipelem (replicate (suc e.slashes) slash ++ (name ++ path_of es last))
          ≡ some (skip_slashes (path_of es last), take dirsiz name)
    at_name [] h = absurd h
    at_name (c ∷ name) h =
        let k =
          skip-replicate (suc e.slashes) ((c ∷ name) ++ path_of es last)
          ∙ skip-name (c ∷ name) (path_of es last) h in
        let s = split-name (c ∷ name) (path_of es last) h (Ahead-path_of es last) in
        rw (skipelem, k, s) refl

skip_idem : (path : List ℕ) → skip_slashes (skip_slashes path) ≡ skip_slashes path
unfolding skip_slashes
skip_idem [] = refl
skip_idem (c ∷ path) = elim (Bool-cases (c == slash)) [
  | inl t ↦ rw t (skip_idem path)
  | inr f ↦ rw (f, skip_slashes, f) refl
]

skipelem-skip : (path : List ℕ) → skipelem (skip_slashes path) ≡ skipelem path
unfolding skipelem
skipelem-skip path = rw (skipelem, skip_idem path) refl

path_names-skip :
    (fuel : ℕ) (path : List ℕ) → path_names fuel (skip_slashes path) ≡ path_names fuel path
unfolding path_names
path_names-skip zero path = refl
path_names-skip (suc fuel) path = rw (path_names, skipelem-skip path) refl

abbrev pub cut_name : Elem → List ℕ
cut_name e = take dirsiz e.name

path_names-enough :
    (es : List Elem) (last fuel : ℕ)
    → length es < fuel
    → path_names fuel (path_of es last) ≡ map cut_name es
unfolding path_names skipelem
path_names-enough es last zero h = absurd (omega arith)
path_names-enough [] last (suc fuel) h = rw (path_names, skipelem, skip-only last) refl
path_names-enough (e ∷ es) last (suc fuel) h =
    let rest =
      path_names-skip fuel (path_of es last) ∙ path_names-enough es last fuel (omega arith) in
    rw (path_names, skipelem-cons e es last) (ap (◌∷◌ (cut_name e)) rest)

length-path_of : (es : List Elem) (last : ℕ) → length es ≤ length (path_of es last)
length-path_of [] last = omega arith
length-path_of (e ∷ es) last =
    let l1 = length-append (replicate (suc e.slashes) slash) (e.name ++ path_of es last) in
    let l2 = length-append e.name (path_of es last) in
    let ih = length-path_of es last in omega arith

length-skip : (es : List Elem) (last : ℕ) → length es ≤ length (skip_slashes (path_of es last))
length-skip [] last = omega arith
length-skip (e ∷ es) last = at_name e.name e.is_name
  where
    at_name :
        (name : List ℕ)
        → IsName name
        → suc (length es)
          ≤ length (skip_slashes (replicate (suc e.slashes) slash ++ (name ++ path_of es last)))
    at_name [] h = absurd h
    at_name (c ∷ name) h =
        let k =
          skip-replicate (suc e.slashes) ((c ∷ name) ++ path_of es last)
          ∙ skip-name (c ∷ name) (path_of es last) h in
        let l2 = length-append name (path_of es last) in
        let ih = length-path_of es last in rw k (omega arith)

-- For names without slashes, each with one or more slashes before it, and any number of slashes
-- behind the last: calls of skipelem() on the path give these names, in order, each cut off
-- after DIRSIZ bytes, and then return 0, after no more calls than the path has bytes. It is the
-- same without the slashes at the beginning of the path.
pub path_names-path_of :
    (es : List Elem) (last : ℕ)
    → let path = path_of es last in
      (path_names (suc (length path)) path ≡ map cut_name es)
      × (path_names (suc (length (skip_slashes path))) (skip_slashes path) ≡ map cut_name es)
path_names-path_of es last =
    let path = path_of es last in
    let l1 = length-path_of es last in
    let l2 = length-skip es last in
    (
      path_names-enough es last (suc (length path)) (omega arith),
      path_names-skip (suc (length (skip_slashes path))) path
          ∙ path_names-enough es last (suc (length (skip_slashes path))) (omega arith),
    )
