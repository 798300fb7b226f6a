-- ===== src/Base/Lists.antt =====
-- C arrays as lists with native indices.
use Prim.Native.Nat.{ℕ, zero, suc, ◌+◌, ◌<◌}
use mathlib.Core.Path.{◌≡◌, refl, ap}
use mathlib.Core.Logic.{◌⊎◌, inl, inr}
use mathlib.Core.Bool.{Bool, true, false}
use mathlib.Core.List.{List, [], ◌∷◌, ◌++◌, map}
use mathlib.Core.Option.{Option, none, some}
use native.Mathlib.Omega.{arith}
use spring18cs.Base.Tests.{◌==◌, if◌then◌else◌, Bool-cases, Option-cases}

abbrev pub omap {ℓ κ} : {A : Type ℓ} {B : Type κ} → (A → B) → Option A → Option B
omap f none = none
omap f (some a) = some (f a)

module _ {ℓ} {A : Type ℓ} where
  abbrev pub length : List A → ℕ
  length [] = 0
  length (x ∷ xs) = suc (length xs)

  abbrev pub get_elem? : List A → ℕ → Option A
  get_elem? [] i = none
  get_elem? (x ∷ xs) zero = some x
  get_elem? (x ∷ xs) (suc i) = get_elem? xs i

  abbrev pub get_or : List A → ℕ → A → A
  get_or [] i d = d
  get_or (x ∷ xs) zero d = x
  get_or (x ∷ xs) (suc i) d = get_or xs i d

  -- The element at an index is replaced by its image; out of range nothing changes.
  unfoldable pub modify : List A → ℕ → (A → A) → List A
  modify [] i f = []
  modify (x ∷ xs) zero f = f x ∷ xs
  modify (x ∷ xs) (suc i) f = x ∷ modify xs i f

  pub length-modify : (xs : List A) (i : ℕ) (f : A → A) → length (modify xs i f) ≡ length xs
  unfolding modify
  length-modify [] i f = refl
  length-modify (x ∷ xs) zero f = refl
  length-modify (x ∷ xs) (suc i) f = ap suc (length-modify xs i f)

  pub get_or-modify :
      (xs : List A) (i j : ℕ) (f : A → A) (d : A)
      → j < length xs
      → get_or (modify xs i f) j d ≡ (if i == j then f (get_or xs j d) else get_or xs j d)
  unfolding modify
  get_or-modify [] i j f d h = absurd (omega arith)
  get_or-modify (x ∷ xs) zero zero f d h = refl
  get_or-modify (x ∷ xs) zero (suc j) f d h = ground arith
  get_or-modify (x ∷ xs) (suc i) zero f d h = ground arith
  get_or-modify (x ∷ xs) (suc i) (suc j) f d h = ground (arith, get_or-modify xs i j f d)

  pub modify-modify :
      (xs : List A) (i : ℕ) (f g : A → A) → modify (modify xs i f) i g ≡ modify xs i (λ x. g (f x))
  unfolding modify
  modify-modify [] i f g = refl
  modify-modify (x ∷ xs) zero f g = refl
  modify-modify (x ∷ xs) (suc i) f g = ap (◌∷◌ x) (modify-modify xs i f g)

  pub get_elem?-modify :
      (xs : List A) (i : ℕ) (f : A → A) (j : ℕ)
      → get_elem? (modify xs i f) j ≡ (if i == j then omap f (get_elem? xs j) else get_elem? xs j)
  unfolding modify
  get_elem?-modify [] i f j = ground arith
  get_elem?-modify (x ∷ xs) zero f zero = refl
  get_elem?-modify (x ∷ xs) zero f (suc j) = ground arith
  get_elem?-modify (x ∷ xs) (suc i) f zero = ground arith
  get_elem?-modify (x ∷ xs) (suc i) f (suc j) = ground (arith, get_elem?-modify xs i f j)

  -- Lists that agree at every index are equal.
  pub list_ext : (xs ys : List A) → ((i : ℕ) → get_elem? xs i ≡ get_elem? ys i) → xs ≡ ys
  list_ext [] [] h = refl
  list_ext [] (y ∷ ys) h = absurd (let e : none ≡ some y = h 0 in cc)
  list_ext (x ∷ xs) [] h = absurd (let e : some x ≡ none = h 0 in cc)
  list_ext (x ∷ xs) (y ∷ ys) h =
      let e : some x ≡ some y = h 0 in
      let same : x ≡ y = cc in rw (same, list_ext xs ys (λ i. h (suc i)))

  pub length-append : (xs ys : List A) → length (xs ++ ys) ≡ length xs + length ys
  length-append [] ys = omega arith
  length-append (x ∷ xs) ys = omega (arith, length-append xs ys)

  -- Where an element stands, its index is in range.
  pub lt_of_get_elem? : (xs : List A) (i : ℕ) {x : A} → get_elem? xs i ≡ some x → i < length xs
  lt_of_get_elem? [] i e = ground arith
  lt_of_get_elem? (y ∷ xs) zero e = omega arith
  lt_of_get_elem? (y ∷ xs) (suc i) e = omega (arith, lt_of_get_elem? xs i e)

  -- An index in range names an element.
  pub get_elem?-in_range :
      (xs : List A) (i : ℕ) → i < length xs → (x : A) × (get_elem? xs i ≡ some x)
  get_elem?-in_range [] i h = absurd (omega arith)
  get_elem?-in_range (x ∷ xs) zero h = (x, refl)
  get_elem?-in_range (x ∷ xs) (suc i) h = get_elem?-in_range xs i (omega arith)

  abbrev pub replicate : ℕ → A → List A
  replicate zero a = []
  replicate (suc n) a = a ∷ replicate n a

  pub get_elem?-replicate :
      (n : ℕ) (a : A) (i : ℕ) (x : A) → get_elem? (replicate n a) i ≡ some x → x ≡ a
  get_elem?-replicate zero a i x e = cc
  get_elem?-replicate (suc n) a zero x e = cc
  get_elem?-replicate (suc n) a (suc i) x e = get_elem?-replicate n a i x e

  abbrev pub drop : ℕ → List A → List A
  drop zero xs = xs
  drop (suc n) [] = []
  drop (suc n) (x ∷ xs) = drop n xs

  pub get_elem?-drop :
      (n : ℕ) (xs : List A) (i : ℕ) → get_elem? (drop n xs) i ≡ get_elem? xs (n + i)
  get_elem?-drop zero xs i = let e : 0 + i ≡ i = omega arith in rw e
  get_elem?-drop (suc n) [] i = refl
  get_elem?-drop (suc n) (x ∷ xs) i =
      let e : suc n + i ≡ suc (n + i) = omega arith in rw e (get_elem?-drop n xs i)

  -- `for (i = 0; i < n; i++) if (test(a[i])) return i;`
  unfoldable pub first_index : (A → Bool) → List A → Option ℕ
  first_index test [] = none
  first_index test (x ∷ xs) = if test x then some 0 else omap suc (first_index test xs)

  pub first_index-cons :
      (test : A → Bool) (x : A) (xs : List A) (i : ℕ)
      → first_index test (x ∷ xs) ≡ some i
      → ((test x ≡ true) × (i ≡ 0))
        ⊎ ((k : ℕ) × (test x ≡ false) × (i ≡ suc k) × (first_index test xs ≡ some k))
  unfolding first_index
  first_index-cons test x xs i e = elim (Bool-cases (test x)) [
    | inl t ↦ inl (t, ground arith)
    | inr f ↦ elim (Option-cases (first_index test xs)) [
      | inl n ↦ absurd (ground arith)
      | inr (k, s) ↦ inr (k, f, ground arith, s)
    ]
  ]

  pub first_index-cons_none :
      (test : A → Bool) (x : A) (xs : List A)
      → first_index test (x ∷ xs) ≡ none
      → (test x ≡ false) × (first_index test xs ≡ none)
  unfolding first_index
  first_index-cons_none test x xs e = elim (Option-cases (first_index test xs)) [
    | inl n ↦ (ground arith, n)
    | inr (k, s) ↦ absurd (ground arith)
  ]

  -- What the search returns: the first index whose element passes, or that no element passes.
  pub first_index-some :
      (test : A → Bool) (xs : List A) {i : ℕ}
      → first_index test xs ≡ some i
      → (x : A) × (get_elem? xs i ≡ some x) × (test x ≡ true)
  unfolding first_index
  first_index-some test [] e = cc
  first_index-some test (x ∷ xs) {i} e = elim (first_index-cons test x xs i e) [
    | inl (t, z) ↦ (x, rw z refl, t)
    | inr (k, f, s, r) ↦ rw s (first_index-some test xs r)
  ]

  pub first_index-before :
      (test : A → Bool) (xs : List A) {i j : ℕ} {x : A}
      → first_index test xs ≡ some i
      → j < i
      → get_elem? xs j ≡ some x
      → test x ≡ false
  unfolding first_index
  first_index-before test [] e h g = cc
  first_index-before test (x ∷ xs) {i} {j = zero} e h g = elim (first_index-cons test x xs i e) [
    | inl (t, z) ↦ absurd (omega arith)
    | inr (k, f, s, r) ↦ ground arith
  ]
  first_index-before test (x ∷ xs) {i} {j = suc j} e h g = elim (first_index-cons test x xs i e) [
    | inl (t, z) ↦ absurd (omega arith)
    | inr (k, f, s, r) ↦ first_index-before test xs {i = k} {j = j} r (omega arith) g
  ]

  pub first_index-none :
      (test : A → Bool) (xs : List A) (i : ℕ) {x : A}
      → first_index test xs ≡ none
      → get_elem? xs i ≡ some x
      → test x ≡ false
  unfolding first_index
  first_index-none test [] i e g = cc
  first_index-none test (x ∷ xs) zero e g = ground arith
  first_index-none test (x ∷ xs) (suc i) e g = elim (Option-cases (first_index test xs)) [
    | inl n ↦ first_index-none test xs i n g
    | inr (k, s) ↦ absurd (ground arith)
  ]

pub get_elem?-map {ℓ κ} :
    {A : Type ℓ} {B : Type κ} (f : A → B) (xs : List A) (i : ℕ)
    → get_elem? (map f xs) i ≡ omap f (get_elem? xs i)
get_elem?-map f [] i = refl
get_elem?-map f (x ∷ xs) zero = refl
get_elem?-map f (x ∷ xs) (suc i) = get_elem?-map f xs i
