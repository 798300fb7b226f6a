-- ===== src/Proc/Death.antt =====
-- proc.c: the table when a process becomes a ZOMBIE.
use spring18cs.Base.{
  ℕ, ◌≡◌, ◌≢◌, refl, sym, ap, ◌∙◌, Bool, true, false, Option, none, some, List, arith, ◌==◌,
  if◌then◌else◌, get_elem?, Bool-cases, inl, inr,
}
use spring18cs.Proc.Types.{State, zombie, Proc, Table, same_slot}
use spring18cs.Proc.Inv.{
  Wf, Slot, is_live, is_started, is_alive, HasParent, Pointwise, length-Pointwise, Slot-before,
  Slot-after,
}
use spring18cs.Proc.Keep.{AliveAt, at_slot}
use spring18cs.Proc.Adopt.{adopted}

pub live_of_alive : (s : State) → is_alive s ≡ true → is_live s ≡ true
live_of_alive s h = ground arith

pub started_of_alive : (s : State) → is_alive s ≡ true → is_started s ≡ true
started_of_alive s h = ground arith

-- What the adoption does not touch, and what it makes of the parent.
pub record Adopted (me : ℕ) (init : Option ℕ) (p q : Proc) : Type 0 where
  pub pid : q.pid ≡ p.pid
  pub live : is_live q.state ≡ is_live p.state
  pub started : is_started q.state ≡ is_started p.state
  pub alive : is_alive q.state ≡ is_alive p.state
  pub parent : q.parent ≡ (if same_slot p.parent me then init else p.parent)

pub adopted-Adopted :
    (me : ℕ) (init : Option ℕ) (woken : Bool) (p : Proc)
    → Adopted me init p (adopted me init true woken p)
adopted-Adopted me init woken p = ground arith

-- The dying process, and what the loop of exit() makes of the others.
abbrev pub dies : ℕ → Option ℕ → Bool → ℕ → Proc → Proc
dies me init woken i p =
    at_slot me (λ q. record q { state = zombie }) i (adopted me init true woken p)

pub dies-other :
    (me : ℕ) (init : Option ℕ) (woken : Bool) (i : ℕ) (p : Proc)
    → me ≢ i
    → dies me init woken i p ≡ adopted me init true woken p
dies-other me init woken i p ne = let e : (me == i) ≡ false = ground arith in rw e

pub dies_self :
    (me : ℕ) (init : Option ℕ) (woken : Bool) (p : Proc)
    → dies me init woken me p ≡ record (adopted me init true woken p) { state = zombie }
dies_self me init woken p = let e : (me == me) ≡ true = ground arith in rw e

pub parent-dies :
    (me : ℕ) (init : Option ℕ) (woken : Bool) (i : ℕ) (p : Proc)
    → (dies me init woken i p).parent ≡ (if same_slot p.parent me then init else p.parent)
parent-dies me init woken i p = elim (Bool-cases (me == i)) [
  | inl e ↦ rw e (adopted-Adopted me init woken p).parent
  | inr n ↦ rw n (adopted-Adopted me init woken p).parent
]

module _ (me : ℕ) (woken : Bool) (t : Table) (qs : List Proc) (mine : AliveAt t.procs me) (j0 : ℕ)
    (ei : t.initproc ≡ some j0) (ne : j0 ≢ me)
    (pw : Pointwise (dies me t.initproc woken) t.procs qs) (w : Wf t) where
  -- What the processes before and after have in common.
  same_class :
      (i : ℕ) (p : Proc)
      → Slot t.procs i p
      → let q = dies me t.initproc woken i p in
        (q.pid ≡ p.pid)
        × (is_live q.state ≡ is_live p.state)
        × (is_started q.state ≡ is_started p.state)
        × (q.parent ≡ (if same_slot p.parent me then t.initproc else p.parent))
  same_class i p s =
      let a = adopted-Adopted me t.initproc woken p in
      elim (Bool-cases (me == i)) [
        | inl e ↦
            let same : get_elem? t.procs me ≡ get_elem? t.procs i =
              ap (get_elem? t.procs) (ground arith) in
            let here : get_elem? t.procs me ≡ some mine.0 = mine.1 in
            let mp : mine.0 ≡ p = cc in
            let al : is_alive p.state ≡ true = rw (← mp) mine.2 in
            rw e
              (a.pid, sym (live_of_alive p.state al), sym (started_of_alive p.state al), a.parent)
        | inr n ↦ rw n (a.pid, a.live, a.started, a.parent)
      ]

  still_alive :
      (j : ℕ) (p : Proc)
      → j ≢ me
      → Slot t.procs j p
      → is_alive p.state ≡ true
      → (q : Proc) × Slot qs j q × (is_alive q.state ≡ true)
  still_alive j p other s al =
      let a = adopted-Adopted me t.initproc woken p in
      (
        dies me t.initproc woken j p,
        Slot-after (dies me t.initproc woken) t.procs qs j p pw s,
        rw (dies-other me t.initproc woken j p (λ e. other (sym e))) (a.alive ∙ al),
      )

  has_parent :
      (p q : Proc)
      → q.parent ≡ (if same_slot p.parent me then t.initproc else p.parent)
      → HasParent t.procs p
      → HasParent qs q
  has_parent p q e (j, r, ej, sj, al) = elim (Bool-cases (j == me)) [
    | inl hit ↦
        let (k, r0, e0, s0, al0) = w.init_alive in
        let (r', s', al') = still_alive k r0 (ground arith) s0 al0 in
        (k, r', e ∙ (rw (ej, hit) e0), s', al')
    | inr miss ↦
        let (r', s', al') = still_alive j r (ground arith) sj al in
        (j, r', e ∙ (rw (ej, miss) refl), s', al')
  ]

  pub dies-Wf : Wf (record t { procs = qs })
  dies-Wf = record {
    size = length-Pointwise (dies me t.initproc woken) t.procs qs pw ∙ w.size;
    bound = λ i q s.
        let (p, s', e) = Slot-before (dies me t.initproc woken) t.procs qs i q pw s in
        let c = same_class i p s' in rw (e, c.0) (w.bound i p s');
    distinct = λ i j q r s s2 lq lr e.
        let (p, sp, ep) = Slot-before (dies me t.initproc woken) t.procs qs i q pw s in
        let (p2, sp2, ep2) = Slot-before (dies me t.initproc woken) t.procs qs j r pw s2 in
        let c = same_class i p sp in
        let c2 = same_class j p2 sp2 in
        w.distinct i j p p2 sp sp2 (sym c.1 ∙ (rw ep at lq)) (sym c2.1 ∙ (rw ep2 at lr))
          (sym c.0 ∙ ap (λ (z : Proc). z.pid) (sym ep) ∙ e ∙ ap (λ (z : Proc). z.pid) ep2 ∙ c2.0);
    no_parent = λ i q s d.
        let (p, s', e) = Slot-before (dies me t.initproc woken) t.procs qs i q pw s in
        let c = same_class i p s' in
        let orphan : p.parent ≡ none = w.no_parent i p s' (sym c.2 ∙ (rw e at d)) in
        rw e (c.3 ∙ (rw orphan refl));
    family = λ i q s a.
        let (p, s', e) = Slot-before (dies me t.initproc woken) t.procs qs i q pw s in
        let c = same_class i p s' in
        has_parent p q (ap (λ (z : Proc). z.parent) e ∙ c.3)
          (w.family i p s' (sym c.2 ∙ (rw e at a)));
    init_alive =
        let (k, r0, e0, s0, al0) = w.init_alive in
        let (r', s', al') =
          still_alive k r0 (λ h. ne (let same : j0 ≡ k = cc in same ∙ h)) s0 al0 in
        (k, r', e0, s', al');
  }
