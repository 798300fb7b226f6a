-- ===== src/Proc/ExitInv.antt =====
-- proc.c: what exit() leaves of the process table.
use spring18cs.Base.{
  ℕ, ◌≡◌, ◌≢◌, refl, sym, ap, ◌∙◌, subst, Bool, true, false, Option, none, some, List, arith,
  get_elem?, omap, Bool-cases, inl, inr, modify, map, get_elem?-map, ok, Post, Post-bind, >>=-ok,
}
use native.Mathlib.Nat.{le_of_eq}
use spring18cs.Proc.Types.{running, zombie, Proc, Table, in_state, same_slot, nproc, nofile}
use spring18cs.Proc.Table.{wakeup1, wake, adopt_all, chan_of, sched, charge}
use spring18cs.Proc.Inv.{Wf, Slot, Keeps, is_alive, Pointwise, Slot-before, Slot-after}
use spring18cs.Proc.Keep.{at_slot, modify-Pointwise, wake-Keeps, modify-Wf}
use spring18cs.Proc.Adopt.{adopted, zombie_kid, omap_twice}
use spring18cs.Proc.AdoptAll.{adopt_all-map}
use spring18cs.Proc.Death.{dies, dies-Wf, dies_self, parent-dies, adopted-Adopted}
use spring18cs.Proc.Mild.{Mild, Mild-Wf, Slot-self, Slot-modified}
use spring18cs.Proc.Kernel.{Symbols, Kernel, Services}
use spring18cs.Proc.Create.{set_procs, update}
use spring18cs.Proc.Exit.{close_fds, put_cwd, become_zombie, after_close, exit}
use spring18cs.Proc.CloseInv.{wakeup1-Mild, close_fds-Mild}

-- `me` is a ZOMBIE with the pid `n`, and no process has it as its parent.
pub record Dead (me n : ℕ) (u : Table) : Type 0 where
  pub wf : Wf u
  pub corpse : Proc
  pub slot : Slot u.procs me corpse
  pub state : corpse.state ≡ zombie
  pub pid : corpse.pid ≡ n
  pub childless : (i : ℕ) (r : Proc) → Slot u.procs i r → same_slot r.parent me ≡ false

Dead-charge :
    (me n ticks : ℕ) (u : Table)
    → Dead me n u
    → Dead me n (record u { procs = modify u.procs me (charge ticks) })
Dead-charge me n ticks u d = record {
  wf =
      modify-Wf me (charge ticks) u
        (λ q r. record { pid = refl; parent = refl; live = refl; started = refl; alive = refl })
        d.wf;
  corpse = charge ticks d.corpse;
  slot = Slot-self u.procs me (charge ticks) d.corpse d.slot;
  state = d.state;
  pid = d.pid;
  childless = λ i r s. elim (Slot-modified u.procs me (charge ticks) d.corpse i r d.slot s) [
    | inl (e, er) ↦ rw er (d.childless me d.corpse d.slot)
    | inr (ne, s') ↦ d.childless i r s'
  ];
}

-- The table after the adoption and the change of state.
dies-Dead :
    (me : ℕ) (t : Table) (qs : List Proc) (p : Proc) (woken : Bool)
    → Slot t.procs me p
    → is_alive p.state ≡ true
    → same_slot t.initproc me ≡ false
    → Pointwise (dies me t.initproc woken) t.procs qs
    → Wf t
    → Dead me p.pid (record t { procs = qs })
dies-Dead me t qs p woken s al other pw w =
    let (j, q, ej, sj, aj) = w.init_alive in
    let other' : same_slot (some j) me ≡ false = rw ej at other in
    let ne : j ≢ me = λ e. ground arith in
    let a = adopted-Adopted me t.initproc woken p in
    record {
      wf = dies-Wf me woken t qs (p, s, al) j ej ne pw w;
      corpse = dies me t.initproc woken me p;
      slot = Slot-after (dies me t.initproc woken) t.procs qs me p pw s;
      state = rw (dies_self me t.initproc woken p) refl;
      pid = rw (dies_self me t.initproc woken p) a.pid;
      childless = λ i r si.
          let (p', s', e) = Slot-before (dies me t.initproc woken) t.procs qs i r pw si in
          rw (e, parent-dies me t.initproc woken i p')
            (elim (Bool-cases (same_slot p'.parent me)) [ inl m ↦ rw m other | inr m ↦ rw m m ]);
    }

pub sched-ok :
    (ticks me : ℕ) (ps : List Proc) (p : Proc)
    → Slot ps me p
    → in_state p.state running ≡ false
    → sched ticks me ps ≡ ok (modify ps me (charge ticks))
unfolding sched
sched-ok ticks me ps p s n = rw (s, sched, n)

-- Dropping the directory is not seen by others.
f_Keeps : (p : Proc) → Keeps p (record p { cwd = none })
f_Keeps p = record { pid = refl; parent = refl; live = refl; started = refl; alive = refl }

module _ {F : Type 0} where
  -- What the last part of exit() does to the table, which does not panic.
  become_zombie-Dead :
      (me : ℕ) (parent : Option ℕ) (p : Proc) (k : Kernel F)
      → Slot k.procs me p
      → is_alive p.state ≡ true
      → same_slot k.initproc me ≡ false
      → Wf k.table
      → (l : Kernel F) × (become_zombie me parent k ≡ ok l) × Dead me p.pid l.table
  unfolding become_zombie wakeup1-Mild
  become_zombie-Dead me parent p k s al other w =
      let c = chan_of parent in
      let m1 = wakeup1-Mild c k.table in
      let t1 : Table = record (k.table) { procs = wakeup1 c k.procs } in
      let w1 : Wf t1 = Mild-Wf m1 w in
      let s1 : Slot t1.procs me (wake c p) =
        Slot-after m1.change k.procs t1.procs me p m1.pointwise s in
      let kp = wake-Keeps c p in
      let z = zombie_kid me nproc 0 t1.procs in
      let f : Proc → Proc = λ q. record q { state = zombie } in
      let ps = map (adopted me k.initproc true z) t1.procs in
      let qs = modify ps me f in
      let loop : adopt_all me k.initproc nproc 0 t1.procs ≡ ps =
        adopt_all-map me k.initproc t1.procs (le_of_eq w1.size) other in
      let pw : Pointwise (dies me k.initproc z) t1.procs qs = λ i.
        modify-Pointwise ps me f i
        ∙ ap (omap (at_slot me f i)) (get_elem?-map (adopted me k.initproc true z) t1.procs i)
        ∙ omap_twice _ _ (get_elem? t1.procs i) in
      let d = dies-Dead me t1 qs (wake c p) z s1 (kp.alive ∙ al) other pw w1 in
      let stopped : in_state d.corpse.state running ≡ false = rw d.state refl in
      (
        set_procs k (modify qs me (charge k.ticks)),
        rw (become_zombie, loop, sched-ok k.ticks me qs d.corpse d.slot stopped),
        subst (λ n. Dead me n (record (k.table) { procs = modify qs me (charge k.ticks) })) kp.pid
            (Dead-charge me (wake c p).pid k.ticks (record t1 { procs = qs }) d),
      )

module _ {F : Type 0} (syms : Symbols) (sv : Services F) where
  table-put_cwd :
      (cwd : Option ℕ) (k l : Kernel F) → put_cwd syms sv cwd k ≡ ok l → l.table ≡ k.table
  unfolding put_cwd
  table-put_cwd none k l e = cc
  table-put_cwd (some ip) k l e =
      let (f, e1, e2) = >>=-ok (sv.put_inode_op ip k.fs) (λ (f : F). ok (record k { fs = f })) e in
      let same : record k { fs = f } ≡ l = cc in sym (ap (λ (x : Kernel F). x.table) same)

  -- exit() by a process that is alive and not init, on a well-formed table: where closing the files
  -- and dropping the directory do not panic, it gets to the scheduler. It is then a ZOMBIE with its
  -- pid, no process has it as its parent any more, and the table is well formed: all processes that
  -- were started have a parent that is alive.
  pub exit-Dead :
      (me : ℕ) (p : Proc) (k : Kernel F)
      → Slot k.procs me p
      → is_alive p.state ≡ true
      → same_slot k.initproc me ≡ false
      → Wf k.table
      → Post (λ l. Dead me p.pid l.table) (exit syms sv me k)
  unfolding exit after_close
  exit-Dead me p k s al other w =
      rw (exit, other)
        (Post-bind Done (close_fds syms sv me nofile 0 k) _
          λ k1 e1. closed k1 (rw e1 at (close_fds-Mild syms sv me nofile 0 k)))
    where
      Done : Kernel F → Type 0
      Done l = Dead me p.pid l.table

      f : Proc → Proc
      f r = record r { cwd = none }

      last :
          (parent : Option ℕ) (q : Proc) (k2 : Kernel F)
          → Slot k2.procs me q
          → is_alive q.state ≡ true
          → same_slot k2.initproc me ≡ false
          → Wf k2.table
          → q.pid ≡ p.pid
          → Post Done (become_zombie me parent (update me f k2))
      last parent q k2 s2 a2 o2 w2 e2 =
          let keeps = λ (r : Proc) (z : Slot k2.procs me r). f_Keeps r in
          let (l, el, d) =
            become_zombie-Dead me parent (f q) (update me f k2) (Slot-self k2.procs me f q s2) a2 o2
              (modify-Wf me f k2.table keeps w2) in
          rw el (subst (λ n. Dead me n l.table) e2 d)

      closed : (k1 : Kernel F) → Mild k.table k1.table → Post Done (after_close syms sv me k1)
      closed k1 m =
          let q = m.change me p in
          let s1 : Slot k1.procs me q = Slot-after m.change k.procs k1.procs me p m.pointwise s in
          let kq = m.keeps me p s in
          let o1 : same_slot k1.initproc me ≡ false = ap (λ x. same_slot x me) m.initproc ∙ other in
          rw (s1, after_close)
            (Post-bind Done (put_cwd syms sv q.cwd k1) _ λ k2 e2.
              let same = table-put_cwd q.cwd k1 k2 e2 in
              last q.parent q k2 (subst (λ T. Slot T.procs me q) (sym same) s1) (kq.alive ∙ al)
                (subst (λ T. same_slot T.initproc me ≡ false) (sym same) o1)
                (subst Wf (sym same) (Mild-Wf m w)) kq.pid)
