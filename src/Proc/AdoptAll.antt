-- ===== src/Proc/AdoptAll.antt =====
-- proc.c: the loop of exit() over the whole table.
use spring18cs.Base.{
  ℕ, zero, suc, ◌+◌, ◌≡◌, ◌<◌, leb, ltb, refl, sym, ap, ◌∙◌, Bool, true, false, Option, List, arith,
  ◌==◌, if◌then◌else◌, get_elem?, omap, Bool-cases, inl, inr, ◌||◌, ◌&&◌, get_elem?-map, list_ext,
  lt_of_get_elem?, length, map, ◌≤◌,
}
use spring18cs.Proc.Types.{Proc, nproc, same_slot, Chan}
use spring18cs.Proc.Table.{wake, adopt, adopt_all, chan_of}
use spring18cs.Proc.Adopt.{
  zombie_at, zombie_kid, adopted, omap_same, omap_eq, omap_twice, adopt-pointwise, zombie_kid-adopt,
  wake_parent, wake_twice, wake_reparent,
}

in_range : ℕ → ℕ → ℕ → Bool
in_range i n j = leb i j && ltb j (i + n)

in_range-suc : (i n j : ℕ) → ((i == j) || in_range (i + 1) n j) ≡ in_range i (suc n) j
unfolding in_range
in_range-suc i n j = ground arith

in_range-zero : (i j : ℕ) → in_range i 0 j ≡ false
unfolding in_range
in_range-zero i j = ground arith

in_range-all : (j : ℕ) → j < nproc → in_range 0 nproc j ≡ true
unfolding in_range
in_range-all j lt = ground arith

abbrev move_if : ℕ → Option ℕ → Bool → Proc → Proc
move_if me init hit p = if hit && same_slot p.parent me then record p { parent = init } else p

abbrev wake_if : Chan → Bool → Proc → Proc
wake_if c woken p = if woken then wake c p else p

move_if-wake_if :
    (me : ℕ) (init : Option ℕ) (c : Chan) (s y : Bool) (p : Proc)
    → move_if me init s (wake_if c y p) ≡ wake_if c y (move_if me init s p)
move_if-wake_if me init c s false p = refl
move_if-wake_if me init c s true p = elim (Bool-cases (s && same_slot p.parent me)) [
  | inl t ↦ rw (wake_parent c p, t, wake_reparent c init p)
  | inr f ↦ rw (wake_parent c p, f)
]

move_if-move_if :
    (me : ℕ) (init : Option ℕ) (r s : Bool) (p : Proc)
    → same_slot init me ≡ false
    → move_if me init s (move_if me init r p) ≡ move_if me init (r || s) p
move_if-move_if me init false s p other = refl
move_if-move_if me init true false p other = refl
move_if-move_if me init true true p other = elim (Bool-cases (same_slot p.parent me)) [
  | inl t ↦ rw (t, other)
  | inr f ↦ rw (f, f)
]

wake_if-wake_if :
    (c : Chan) (y z : Bool) (p : Proc) → wake_if c z (wake_if c y p) ≡ wake_if c (y || z) p
wake_if-wake_if c false z p = refl
wake_if-wake_if c true false p = refl
wake_if-wake_if c true true p = wake_twice c p

adopted-adopted :
    (me : ℕ) (init : Option ℕ) (r s y z : Bool) (p : Proc)
    → same_slot init me ≡ false
    → adopted me init s z (adopted me init r y p) ≡ adopted me init (r || s) (y || z) p
adopted-adopted me init r s y z p other =
    ap (wake_if (chan_of init) z) (move_if-wake_if me init (chan_of init) s y (move_if me init r p))
    ∙ wake_if-wake_if (chan_of init) y z (move_if me init s (move_if me init r p))
    ∙ ap (wake_if (chan_of init) (y || z)) (move_if-move_if me init r s p other)

adopt_all-pointwise :
    (me : ℕ) (init : Option ℕ) (n i : ℕ) (ps : List Proc) (j : ℕ)
    → same_slot init me ≡ false
    → get_elem? (adopt_all me init n i ps) j
      ≡ omap (adopted me init (in_range i n j) (zombie_kid me n i ps)) (get_elem? ps j)
unfolding adopt_all zombie_kid
adopt_all-pointwise me init zero i ps j other =
    rw (in_range-zero i j) (omap_same _ (get_elem? ps j) (λ p e. refl))
adopt_all-pointwise me init (suc n) i ps j other =
    adopt_all-pointwise me init n (i + 1) (adopt me init i ps) j other
    ∙ rw (zombie_kid-adopt me init i n (i + 1) ps (omega arith), adopt-pointwise me init i ps j)
        (omap_twice _ _ (get_elem? ps j)
          ∙ omap_eq _ _ (get_elem? ps j) (λ p e.
            adopted-adopted me init (i == j) (in_range (i + 1) n j) (zombie_at me i ps)
              (zombie_kid me n (i + 1) ps) p other
            ∙ ap (λ b. adopted me init b (zombie_at me i ps || zombie_kid me n (i + 1) ps) p)
                (in_range-suc i n j)))

-- The loop of exit() over the whole table does the same to every process at once: children of the
-- dying process become children of init, and init is woken exactly if one of them is a ZOMBIE,
-- wherever in the table it stands.
pub adopt_all-map :
    (me : ℕ) (init : Option ℕ) (ps : List Proc)
    → length ps ≤ nproc
    → same_slot init me ≡ false
    → adopt_all me init nproc 0 ps ≡ map (adopted me init true (zombie_kid me nproc 0 ps)) ps
adopt_all-map me init ps short other = list_ext _ _ λ j.
    adopt_all-pointwise me init nproc 0 ps j other
    ∙ omap_eq _ _ (get_elem? ps j) (λ p e.
      let lt = lt_of_get_elem? ps j e in
      let hit : in_range 0 nproc j ≡ true = in_range-all j (omega arith) in rw hit)
    ∙ sym (get_elem?-map (adopted me init true (zombie_kid me nproc 0 ps)) ps j)
