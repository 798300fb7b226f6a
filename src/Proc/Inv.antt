-- ===== src/Proc/Inv.antt =====
-- proc.c: the well-formedness of the process table, and a rule for steps that change slots one by
-- one.
use spring18cs.Base.{
  ℕ, suc, refl, length, [], ◌∷◌, ◌<◌, ◌≡◌, sym, ap, ◌∙◌, Bool, true, false, none, some, List, arith,
  get_elem?, omap, Option-cases, inl, inr,
}
use spring18cs.Proc.Types.{State, unused, sleeping, runnable, running, zombie, Proc, Table, nproc}

-- not UNUSED
abbrev pub is_live : State → Bool
is_live unused = false
is_live _ = true

-- A process that can still run: SLEEPING, RUNNABLE or RUNNING.
abbrev pub is_alive : State → Bool
is_alive sleeping = true
is_alive runnable = true
is_alive running = true
is_alive _ = false

-- A process that was started: alive or ZOMBIE.
abbrev pub is_started : State → Bool
is_started zombie = true
is_started s = is_alive s

abbrev pub Slot : List Proc → ℕ → Proc → Type 0
Slot ps i p = get_elem? ps i ≡ some p

-- The parent of `p` is alive.
abbrev pub HasParent : List Proc → Proc → Type 0
HasParent ps p =
    (j : ℕ) × (q : Proc) × (p.parent ≡ some j) × Slot ps j q × (is_alive q.state ≡ true)

pub record Wf (t : Table) : Type 0 where
  pub size : length t.procs ≡ nproc
  -- The pids given out are below `nextpid`.
  pub bound : (i : ℕ) (p : Proc) → Slot t.procs i p → p.pid < t.next_pid
  -- No two slots in use have one pid.
  pub distinct :
      (i j : ℕ) (p q : Proc)
      → Slot t.procs i p
      → Slot t.procs j q
      → is_live p.state ≡ true
      → is_live q.state ≡ true
      → p.pid ≡ q.pid
      → i ≡ j
  -- A slot that holds no started process has no parent.
  pub no_parent :
      (i : ℕ) (p : Proc) → Slot t.procs i p → is_started p.state ≡ false → p.parent ≡ none
  -- The parent of a started process is alive.
  pub family :
      (i : ℕ) (p : Proc) → Slot t.procs i p → is_started p.state ≡ true → HasParent t.procs p
  -- init is alive.
  pub init_alive :
      (j : ℕ) × (q : Proc) × (t.initproc ≡ some j) × Slot t.procs j q × (is_alive q.state ≡ true)

-- `qs` is `ps` with the process in each slot `i` changed by `g i`.
abbrev pub Pointwise : (ℕ → Proc → Proc) → List Proc → List Proc → Type 0
Pointwise g ps qs = (i : ℕ) → get_elem? qs i ≡ omap (g i) (get_elem? ps i)

-- A change of a process that no other process can tell apart: pid and parent stay, and so does
-- whether the slot is in use, started or alive.
pub record Keeps (p q : Proc) : Type 0 where
  pub pid : q.pid ≡ p.pid
  pub parent : q.parent ≡ p.parent
  pub live : is_live q.state ≡ is_live p.state
  pub started : is_started q.state ≡ is_started p.state
  pub alive : is_alive q.state ≡ is_alive p.state

pub length-Pointwise :
    (g : ℕ → Proc → Proc) (ps qs : List Proc) → Pointwise g ps qs → length qs ≡ length ps
length-Pointwise g [] [] pw = refl
length-Pointwise g [] (q ∷ qs) pw = absurd (let e : some q ≡ none = pw 0 in cc)
length-Pointwise g (p ∷ ps) [] pw = absurd (let e : none ≡ some (g 0 p) = pw 0 in cc)
length-Pointwise g (p ∷ ps) (q ∷ qs) pw =
    ap suc (length-Pointwise (λ i. g (suc i)) ps qs (λ i. pw (suc i)))

-- The process that a changed slot held before.
pub Slot-before :
    (g : ℕ → Proc → Proc) (ps qs : List Proc) (i : ℕ) (q : Proc)
    → Pointwise g ps qs
    → Slot qs i q
    → (p : Proc) × Slot ps i p × (q ≡ g i p)
Slot-before g ps qs i q pw s = elim (Option-cases (get_elem? ps i)) [
  | inl e ↦ absurd (ground (arith, pw i))
  | inr (p, e) ↦ (p, e, ground (arith, pw i))
]

pub Slot-after :
    (g : ℕ → Proc → Proc) (ps qs : List Proc) (i : ℕ) (p : Proc)
    → Pointwise g ps qs
    → Slot ps i p
    → Slot qs i (g i p)
Slot-after g ps qs i p pw s = ground (arith, pw i)

-- Such changes keep the table well formed.
pub Pointwise-Wf :
    (g : ℕ → Proc → Proc) (t : Table) (qs : List Proc)
    → Pointwise g t.procs qs
    → ((i : ℕ) (p : Proc) → Slot t.procs i p → Keeps p (g i p))
    → Wf t
    → Wf (record t { procs = qs })
Pointwise-Wf g t qs pw keeps w = record {
  size = length-Pointwise g t.procs qs pw ∙ w.size;
  bound = λ i q s.
      let (p, s', e) = Slot-before g t.procs qs i q pw s in
      let k = keeps i p s' in let b = w.bound i p s' in rw (e, k.pid) b;
  distinct = λ i j p' q' s r lp lq e.
      let (p, s', e1) = Slot-before g t.procs qs i p' pw s in
      let (q, r', e2) = Slot-before g t.procs qs j q' pw r in
      let k1 = keeps i p s' in
      let k2 = keeps j q r' in
      w.distinct i j p q s' r' (sym k1.live ∙ (rw e1 at lp)) (sym k2.live ∙ (rw e2 at lq))
        (sym k1.pid ∙ ap (λ (z : Proc). z.pid) (sym e1) ∙ e ∙ ap (λ (z : Proc). z.pid) e2 ∙ k2.pid);
  no_parent = λ i q s f.
      let (p, s', e) = Slot-before g t.procs qs i q pw s in
      let k = keeps i p s' in
      let b = w.no_parent i p s' (sym k.started ∙ (rw e at f)) in rw e (k.parent ∙ b);
  family = λ i q s f.
      let (p, s', e) = Slot-before g t.procs qs i q pw s in
      let k = keeps i p s' in
      let (j, r, ej, rs, al) = w.family i p s' (sym k.started ∙ (rw e at f)) in
      let k2 = keeps j r rs in
      (
        j,
        g j r,
        ap (λ (z : Proc). z.parent) e ∙ k.parent ∙ ej,
        Slot-after g t.procs qs j r pw rs,
        k2.alive ∙ al,
      );
  init_alive =
      let (j, r, ej, rs, al) = w.init_alive in
      let k2 = keeps j r rs in (j, g j r, ej, Slot-after g t.procs qs j r pw rs, k2.alive ∙ al);
}
