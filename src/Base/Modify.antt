-- ===== src/Base/Modify.antt =====
-- C arrays as lists: what an assignment to one element leaves.
use Prim.Native.Nat.{ℕ}
use mathlib.Core.Path.{◌≡◌, refl}
use mathlib.Core.Bool.{true, false}
use mathlib.Core.Logic.{◌≢◌, ◌⊎◌, inl, inr}
use mathlib.Core.List.{List}
use mathlib.Core.Option.{some}
use native.Mathlib.Omega.{arith}
use spring18cs.Base.Tests.{◌==◌, Bool-cases, Option-cases, ==_iff, ==_ne}
use spring18cs.Base.Lists.{get_elem?, modify, get_elem?-modify, omap}

-- An element of a modified list is the image of the old one, or untouched.
pub modified {ℓ} :
    {A : Type ℓ} (xs : List A) (i : ℕ) (f : A → A) (j : ℕ) {y : A}
    → get_elem? (modify xs i f) j ≡ some y
    → ((i ≡ j) × (x : A) × (get_elem? xs j ≡ some x) × (y ≡ f x))
      ⊎ ((i ≢ j) × (get_elem? xs j ≡ some y))
modified xs i f j {y} e = elim (Bool-cases (i == j)) [
  | inl t ↦
      let e' : omap f (get_elem? xs j) ≡ some y = rw (get_elem?-modify xs i f j, t) at (e) in
      elim (Option-cases (get_elem? xs j)) [
        | inl n ↦ absurd (ground arith)
        | inr (x, s) ↦ inl ((==_iff i j).0 t, x, s, cc)
      ]
  | inr ne ↦
      let e' : get_elem? xs j ≡ some y = rw (get_elem?-modify xs i f j, ne) at (e) in
      inr ((λ same. ground arith), e')
]

-- What stands at the index that was assigned to, and at another one.
pub modify-at {ℓ} :
    {A : Type ℓ} (xs : List A) (i : ℕ) (f : A → A) {x : A}
    → get_elem? xs i ≡ some x
    → get_elem? (modify xs i f) i ≡ some (f x)
modify-at xs i f {x} s =
    let t : (i == i) ≡ true = (==_iff i i).1 refl in rw (get_elem?-modify xs i f i, t, s) refl

pub modify-else {ℓ} :
    {A : Type ℓ} (xs : List A) (i : ℕ) (f : A → A) (j : ℕ)
    → i ≢ j
    → get_elem? (modify xs i f) j ≡ get_elem? xs j
modify-else xs i f j ne =
    let n : (i == j) ≡ false = ==_ne i j ne in rw (get_elem?-modify xs i f j, n)
