-- ===== src/Proc/Adopt.antt =====
-- proc.c: the loop of exit() that passes the children of the dying process to init.
use spring18cs.Base.{
  ℕ, zero, suc, ◌+◌, ◌≡◌, ◌<◌, ◌≢◌, refl, sym, ap, ◌∙◌, Bool, true, false, Option, none, some, List,
  arith, ◌==◌, if◌then◌else◌, get_elem?, omap, Option-cases, Bool-cases, inl, inr, ◌||◌, ◌&&◌,
  modify, get_elem?-map, get_elem?-modify,
}
use spring18cs.Proc.Types.{zombie, Proc, in_state, same_slot, Chan, same_chan, sleeping}
use spring18cs.Proc.Table.{wakeup1, wake, adopt, chan_of}

-- Whether the process in slot `i` is a ZOMBIE child of `me`.
unfoldable pub zombie_at : ℕ → ℕ → List Proc → Bool
zombie_at me i ps = elim (get_elem? ps i) [
  | none ↦ false
  | some p ↦ same_slot p.parent me && in_state p.state zombie
]

-- Whether one of the `n` slots from `i` on holds a ZOMBIE child of `me`.
unfoldable pub zombie_kid : ℕ → ℕ → ℕ → List Proc → Bool
zombie_kid me zero i ps = false
zombie_kid me (suc n) i ps = zombie_at me i ps || zombie_kid me n (i + 1) ps

-- The process after the adoption: a child of `me`, if `hit`, is a child of init, and init, if it
-- is to be `woken`, is woken.
abbrev pub adopted : ℕ → Option ℕ → Bool → Bool → Proc → Proc
adopted me init hit woken p =
    let q : Proc = if hit && same_slot p.parent me then record p { parent = init } else p in
    if woken then wake (chan_of init) q else q

pub omap_same :
    (f : Proc → Proc) (o : Option Proc) → ((p : Proc) → o ≡ some p → f p ≡ p) → o ≡ omap f o
omap_same f none h = refl
omap_same f (some p) h = ap some (sym (h p refl))

pub omap_eq :
    (f g : Proc → Proc) (o : Option Proc)
    → ((p : Proc) → o ≡ some p → f p ≡ g p)
    → omap f o ≡ omap g o
omap_eq f g none h = refl
omap_eq f g (some p) h = ap some (h p refl)

pub omap_twice : (f g : Proc → Proc) (o : Option Proc) → omap f (omap g o) ≡ omap (λ p. f (g p)) o
omap_twice f g none = refl
omap_twice f g (some p) = refl

-- A slot after the parent in slot `i` was set.
reparent_slot :
    (init : Option ℕ) (i : ℕ) (ps : List Proc) (j : ℕ)
    → get_elem? (modify ps i (λ q. record q { parent = init })) j
      ≡ omap (λ p. if i == j then record p { parent = init } else p) (get_elem? ps j)
reparent_slot init i ps j =
    ground (arith, get_elem?-modify ps i (λ q. record q { parent = init }) j)

module _ (me : ℕ) (init : Option ℕ) (i : ℕ) (ps : List Proc) (j : ℕ) (p : Proc)
    (s : get_elem? ps i ≡ some p) where
  -- Only slot `i` is hit, and that holds `p`.
  hit_is_child :
      same_slot p.parent me ≡ true
      → (q : Proc) → get_elem? ps j ≡ some q
      → ((i == j) && same_slot q.parent me) ≡ (i == j)
  hit_is_child c q r = elim (Bool-cases (i == j)) [
    | inl t ↦
        let e : get_elem? ps i ≡ get_elem? ps j = ap (get_elem? ps) (ground arith) in
        let same : p ≡ q = cc in rw (t, ← same, c)
    | inr n ↦ rw n
  ]

  not_hit :
      same_slot p.parent me ≡ false
      → (q : Proc) → get_elem? ps j ≡ some q
      → ((i == j) && same_slot q.parent me) ≡ false
  not_hit c q r = elim (Bool-cases (i == j)) [
    | inl t ↦
        let e : get_elem? ps i ≡ get_elem? ps j = ap (get_elem? ps) (ground arith) in
        let same : p ≡ q = cc in rw (t, ← same, c)
    | inr n ↦ rw n
  ]

  adopt_hit :
      get_elem? (adopt me init i ps) j
      ≡ omap (adopted me init (i == j) (zombie_at me i ps)) (get_elem? ps j)
  unfolding adopt zombie_at wakeup1
  adopt_hit = elim (Bool-cases (same_slot p.parent me)) [
    | inr n ↦ rw (s, adopt, zombie_at, n) (omap_same _ (get_elem? ps j) (λ q r. rw (not_hit n q r)))
    | inl c ↦ elim (Bool-cases (in_state p.state zombie)) [
      | inr n ↦
          rw (s, adopt, zombie_at, c, n)
            (reparent_slot init i ps j
              ∙ omap_eq _ _ (get_elem? ps j) (λ q r. rw (hit_is_child c q r)))
      | inl z ↦
          rw (s, adopt, zombie_at, c, z)
            (get_elem?-map (wake (chan_of init)) (modify ps i (λ q. record q { parent = init })) j
              ∙ ap (omap (wake (chan_of init))) (reparent_slot init i ps j)
              ∙ omap_twice _ _ (get_elem? ps j)
              ∙ omap_eq _ _ (get_elem? ps j) (λ q r. rw (hit_is_child c q r)))
    ]
  ]

pub adopt-pointwise :
    (me : ℕ) (init : Option ℕ) (i : ℕ) (ps : List Proc) (j : ℕ)
    → get_elem? (adopt me init i ps) j
      ≡ omap (adopted me init (i == j) (zombie_at me i ps)) (get_elem? ps j)
unfolding adopt zombie_at
adopt-pointwise me init i ps j = elim (Option-cases (get_elem? ps i)) [
  | inl e ↦
      rw (e, adopt, zombie_at)
        (omap_same _ (get_elem? ps j) (λ q r.
          let n : (i == j) ≡ false = elim (Bool-cases (i == j)) [
            | inl t ↦
                let e' : get_elem? ps i ≡ get_elem? ps j = ap (get_elem? ps) (ground arith) in
                absurd (cc)
            | inr n ↦ n
          ] in
          rw n))
  | inr (p, e) ↦ adopt_hit me init i ps j p e
]

-- What wake() does not touch.
pub wake_parent : (c : Chan) (p : Proc) → (wake c p).parent ≡ p.parent
wake_parent c p = ground arith

pub wake_twice : (c : Chan) (p : Proc) → wake c (wake c p) ≡ wake c p
wake_twice c p = elim (Bool-cases (in_state p.state sleeping && same_chan p.chan c)) [
  | inl t ↦ rw t
  | inr f ↦ rw (f, f)
]

pub wake_reparent :
    (c : Chan) (x : Option ℕ) (p : Proc)
    → wake c (record p { parent = x }) ≡ record (wake c p) { parent = x }
wake_reparent c x p = elim (Bool-cases (in_state p.state sleeping && same_chan p.chan c)) [
  | inl t ↦ rw t
  | inr f ↦ rw f
]

zombie_test-wake :
    (me : ℕ) (c : Chan) (p : Proc)
    → (same_slot (wake c p).parent me && in_state (wake c p).state zombie)
      ≡ (same_slot p.parent me && in_state p.state zombie)
zombie_test-wake me c p = ground arith

zombie_at-adopt :
    (me : ℕ) (init : Option ℕ) (i k : ℕ) (ps : List Proc)
    → i ≢ k
    → zombie_at me k (adopt me init i ps) ≡ zombie_at me k ps
unfolding zombie_at
zombie_at-adopt me init i k ps ne = elim (Option-cases (get_elem? ps k)) [
  | inl e ↦ ground (arith, adopt-pointwise me init i ps k)
  | inr (p, e) ↦
      let apart : (i == k) ≡ false = ground arith in
      rw (adopt-pointwise me init i ps k, zombie_at, e, apart)
        (elim (Bool-cases (zombie_at me i ps)) [
          | inl z ↦ rw z (zombie_test-wake me (chan_of init) p)
          | inr n ↦ rw n
        ])
]

pub zombie_kid-adopt :
    (me : ℕ) (init : Option ℕ) (i n k : ℕ) (ps : List Proc)
    → i < k
    → zombie_kid me n k (adopt me init i ps) ≡ zombie_kid me n k ps
unfolding zombie_kid
zombie_kid-adopt me init i zero k ps lt = refl
zombie_kid-adopt me init i (suc n) k ps lt = rw (
  zombie_at-adopt me init i k ps (omega arith),
  zombie_kid-adopt me init i n (k + 1) ps (omega arith),
)
