-- ===== src/Proc/Mild.antt =====
-- proc.c: steps that no other process can tell apart, and steps that fill or empty a slot in which
-- no process is alive.
use spring18cs.Base.{
  ℕ, ◌<◌, ◌≤◌, ◌≡◌, ◌≢◌, refl, sym, ap, ◌∙◌, true, false, Option, none, some, List, arith, ◌==◌,
  get_elem?, omap, Bool-cases, ◌⊎◌, inl, inr, modify, get_elem?-modify, length-modify, subst,
}
use spring18cs.Proc.Types.{Proc, Table}
use spring18cs.Proc.Inv.{
  Wf, Slot, Pointwise, Pointwise-Wf, Keeps, is_live, is_started, is_alive, Slot-after, HasParent,
}
use spring18cs.Proc.Keep.{at_slot, modify-Pointwise, same-Keeps, AliveAt}

-- `u` is `t` after changes that keep what other processes see.
pub record Mild (t u : Table) : Type 0 where
  pub change : ℕ → Proc → Proc
  pub pointwise : Pointwise change t.procs u.procs
  pub keeps : (i : ℕ) (p : Proc) → Slot t.procs i p → Keeps p (change i p)
  pub next_pid : u.next_pid ≡ t.next_pid
  pub initproc : u.initproc ≡ t.initproc

pub Mild-refl : (t : Table) → Mild t t
Mild-refl t = record {
  change = λ i p. p;
  pointwise = λ i. ground arith;
  keeps = λ i p s. same-Keeps p;
  next_pid = refl;
  initproc = refl;
}

Keeps-trans : {p q r : Proc} → Keeps p q → Keeps q r → Keeps p r
Keeps-trans h k = record {
  pid = k.pid ∙ h.pid;
  parent = k.parent ∙ h.parent;
  live = k.live ∙ h.live;
  started = k.started ∙ h.started;
  alive = k.alive ∙ h.alive;
}

pub Mild-trans : {t u v : Table} → Mild t u → Mild u v → Mild t v
Mild-trans {t} {u} {v} m n = record {
  change = λ i p. n.change i (m.change i p);
  pointwise = λ i.
      n.pointwise i ∙ ap (omap (n.change i)) (m.pointwise i) ∙ omap_twice i (get_elem? t.procs i);
  keeps = λ i p s.
      Keeps-trans (m.keeps i p s)
        (n.keeps i (m.change i p) (Slot-after m.change t.procs u.procs i p m.pointwise s));
  next_pid = n.next_pid ∙ m.next_pid;
  initproc = n.initproc ∙ m.initproc;
}
  where
    omap_twice :
        (i : ℕ) (o : Option Proc)
        → omap (n.change i) (omap (m.change i) o) ≡ omap (λ p. n.change i (m.change i p)) o
    omap_twice i none = refl
    omap_twice i (some p) = refl

pub Mild-Wf : {t u : Table} → Mild t u → Wf t → Wf u
Mild-Wf {t} {u} m w =
    let e : record t { procs = u.procs } ≡ u =
      λ i. record { procs = u.procs; next_pid = sym m.next_pid i; initproc = sym m.initproc i } in
    subst Wf e (Pointwise-Wf m.change t u.procs m.pointwise m.keeps w)

pub modify-Mild :
    (i : ℕ) (f : Proc → Proc) (t : Table)
    → ((p : Proc) → Slot t.procs i p → Keeps p (f p))
    → Mild t (record t { procs = modify t.procs i f })
modify-Mild i f t keeps = record {
  change = at_slot i f;
  pointwise = modify-Pointwise t.procs i f;
  keeps = λ j p s. elim (Bool-cases (i == j)) [
    | inl e ↦ let e' : j ≡ i = ground arith in rw e (keeps p (rw e' at s))
    | inr n ↦ rw n (same-Keeps p)
  ];
  next_pid = refl;
  initproc = refl;
}

pub Mild-AliveAt : {t u : Table} (i : ℕ) → Mild t u → AliveAt t.procs i → AliveAt u.procs i
Mild-AliveAt {t} {u} i m (p, s, a) =
    (m.change i p, Slot-after m.change t.procs u.procs i p m.pointwise s, (m.keeps i p s).alive ∙ a)

-- A slot after modify(), by whether it is the one that changed.
pub Slot-modified :
    (ps : List Proc) (i : ℕ) (f : Proc → Proc) (p : Proc) (j : ℕ) (q : Proc)
    → Slot ps i p
    → Slot (modify ps i f) j q
    → ((i ≡ j) × (q ≡ f p)) ⊎ ((i ≢ j) × Slot ps j q)
Slot-modified ps i f p j q s r = elim (Bool-cases (i == j)) [
  | inl t ↦
      let ij : i ≡ j = ground arith in
      let r' : Slot (modify ps i f) i q = rw (← ij) at r in
      inl (ij, ground (arith, get_elem?-modify ps i f i))
  | inr n ↦ inr (ground arith, ground (arith, get_elem?-modify ps i f j))
]

pub Slot-other :
    (ps : List Proc) (i : ℕ) (f : Proc → Proc) (j : ℕ) (q : Proc)
    → i ≢ j
    → Slot ps j q
    → Slot (modify ps i f) j q
Slot-other ps i f j q n s = ground (arith, get_elem?-modify ps i f j)

pub Slot-self :
    (ps : List Proc) (i : ℕ) (f : Proc → Proc) (p : Proc)
    → Slot ps i p
    → Slot (modify ps i f) i (f p)
Slot-self ps i f p s = ground (arith, get_elem?-modify ps i f i)

-- What a slot `i` holds after it was filled with `new` is what no other process minds: its pid is
-- not in use elsewhere, and it has a parent that is alive exactly if it was started.
pub record Fits (t : Table) (i n : ℕ) (new : Proc) : Type 0 where
  pub grows : t.next_pid ≤ n
  pub bound : new.pid < n
  pub fresh :
      is_live new.state ≡ true
      → (j : ℕ) (q : Proc) → i ≢ j
      → Slot t.procs j q
      → is_live q.state ≡ true
      → q.pid ≢ new.pid
  pub no_parent : is_started new.state ≡ false → new.parent ≡ none
  pub parent : is_started new.state ≡ true → HasParent t.procs new

not_self :
    (ps : List Proc) (i j : ℕ) (p q : Proc)
    → Slot ps i p
    → is_alive p.state ≡ false
    → Slot ps j q
    → is_alive q.state ≡ true
    → i ≢ j
not_self ps i j p q s d r a = λ e.
    let e' : get_elem? ps i ≡ get_elem? ps j = ap (get_elem? ps) e in
    let same : p ≡ q = cc in cc (ap (λ (z : Proc). is_alive z.state) same)

-- A process that is alive stands in another slot, and is spared.
pub spared :
    (ps : List Proc) (i : ℕ) (f : Proc → Proc) (p : Proc) (j : ℕ)
    → Slot ps i p
    → is_alive p.state ≡ false
    → AliveAt ps j
    → AliveAt (modify ps i f) j
spared ps i f p j s dead (q, r, a) =
    (q, Slot-other ps i f j q (not_self ps i j p q s dead r a) r, a)

-- A process elsewhere keeps its parent.
still :
    (ps : List Proc) (i : ℕ) (f : Proc → Proc) (p q : Proc)
    → Slot ps i p
    → is_alive p.state ≡ false
    → HasParent ps q
    → HasParent (modify ps i f) q
still ps i f p q s dead (j, r, e, sr, a) =
    (j, r, e, Slot-other ps i f j r (not_self ps i j p r s dead sr a) sr, a)

-- Filling a slot in which no process is alive.
module _ (i n : ℕ) (f : Proc → Proc) (t : Table) (p : Proc) (s : Slot t.procs i p)
    (dead : is_alive p.state ≡ false) (fits : Fits t i n (f p)) (w : Wf t) where
  fill_distinct :
      (j k : ℕ) (q r : Proc)
      → Slot (modify t.procs i f) j q
      → Slot (modify t.procs i f) k r
      → is_live q.state ≡ true
      → is_live r.state ≡ true
      → q.pid ≡ r.pid
      → j ≡ k
  fill_distinct j k q r sj sk lq lr e = elim (Slot-modified t.procs i f p j q s sj) [
    | inl (ij, eq) ↦ elim (Slot-modified t.procs i f p k r s sk) [
      | inl (ik, er) ↦ sym ij ∙ ik
      | inr (ne, sk') ↦
          absurd (fits.fresh (rw eq at lq) k r ne sk' lr (sym e ∙ ap (λ (z : Proc). z.pid) eq))
    ]
    | inr (ne, sj') ↦ elim (Slot-modified t.procs i f p k r s sk) [
      | inl (ik, er) ↦
          absurd (fits.fresh (rw er at lr) j q ne sj' lq (e ∙ ap (λ (z : Proc). z.pid) er))
      | inr (ne', sk') ↦ w.distinct j k q r sj' sk' lq lr e
    ]
  ]

  pub fill-Wf : Wf (record t { procs = modify t.procs i f; next_pid = n })
  fill-Wf = record {
    size = length-modify t.procs i f ∙ w.size;
    bound = λ j q r. elim (Slot-modified t.procs i f p j q s r) [
      | inl (ij, e) ↦ rw e fits.bound
      | inr (ne, r') ↦ let b = w.bound j q r' in let g = fits.grows in omega arith
    ];
    distinct = fill_distinct;
    no_parent = λ j q r d. elim (Slot-modified t.procs i f p j q s r) [
      | inl (ij, e) ↦ rw e (fits.no_parent (rw e at d))
      | inr (ne, r') ↦ w.no_parent j q r' d
    ];
    family = λ j q r a. elim (Slot-modified t.procs i f p j q s r) [
      | inl (ij, e) ↦ rw e (still t.procs i f p (f p) s dead (fits.parent (rw e at a)))
      | inr (ne, r') ↦ still t.procs i f p q s dead (w.family j q r' a)
    ];
    init_alive =
        let (j, q, e, r, a) = w.init_alive in
        (j, q, e, Slot-other t.procs i f j q (not_self t.procs i j p q s dead r a) r, a);
  }
