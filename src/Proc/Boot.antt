-- ===== src/Proc/Boot.antt =====
-- proc.c: the table that userinit() makes.
use spring18cs.Base.{
  ℕ, ◌+◌, ◌%◌, ◌^◌, ◌≡◌, refl, sym, ap, ◌∙◌, subst, true, false, Option, none, some, arith, ◌==◌,
  Option-cases, Bool-cases, inl, inr, modify, modify-modify, length-modify, length, panic, Post,
  Post-bind, first_index, first_index-some,
}
use spring18cs.Kalloc.{kalloc}
use spring18cs.Proc.Types.{unused, embryo, runnable, Proc, Table, in_state, nproc}
use spring18cs.Proc.Inv.{Wf, Slot, is_live, is_started}
use spring18cs.Proc.Mild.{Slot-self, Slot-modified}
use spring18cs.Proc.Kernel.{Symbols, Kernel, Services}
use spring18cs.Proc.Create.{
  claim_slot, give_stack, allocproc, start_init, root_path, userinit, first_process, embryo_on,
  default_uid,
}

-- The table as it is when the kernel starts: static memory, all 0.
pub record IsBlank (t : Table) : Type 0 where
  pub size : length t.procs ≡ nproc
  pub next_pid : t.next_pid ≡ 1
  pub unused_all : (i : ℕ) (p : Proc) → Slot t.procs i p → p.state ≡ unused
  pub no_parents : (i : ℕ) (p : Proc) → Slot t.procs i p → p.parent ≡ none
  pub no_pids : (i : ℕ) (p : Proc) → Slot t.procs i p → p.pid ≡ 0

-- One process, its own parent, in a table that is otherwise blank.
first_Wf :
    (t : Table) (i : ℕ) (f : Proc → Proc) (p : Proc)
    → IsBlank t
    → Slot t.procs i p
    → (f p).state ≡ runnable
    → (f p).parent ≡ some i
    → (f p).pid ≡ 1
    → Wf (record { procs = modify t.procs i f; next_pid = 2; initproc = some i })
first_Wf t i f p b s st pa pi = record {
  size = length-modify t.procs i f ∙ b.size;
  bound = λ j q r. elim (Slot-modified t.procs i f p j q s r) [
    | inl (e, eq) ↦ rw eq (omega arith)
    | inr (ne, r') ↦ let z = b.no_pids j q r' in omega arith
  ];
  distinct = λ j k q r sj sk lq lr e. sym (only j q sj lq) ∙ only k r sk lr;
  no_parent = λ j q r d. elim (Slot-modified t.procs i f p j q s r) [
    | inl (e, eq) ↦ let d' : is_started (f p).state ≡ false = (rw eq at d) in absurd (ground arith)
    | inr (ne, r') ↦ b.no_parents j q r'
  ];
  family = λ j q r a. elim (Slot-modified t.procs i f p j q s r) [
    | inl (e, eq) ↦ rw eq (i, f p, pa, Slot-self t.procs i f p s, rw st refl)
    | inr (ne, r') ↦ let z = b.unused_all j q r' in absurd (ground arith)
  ];
  init_alive = (i, f p, refl, Slot-self t.procs i f p s, rw st refl);
}
  where
    only : (j : ℕ) (q : Proc) → Slot (modify t.procs i f) j q → is_live q.state ≡ true → i ≡ j
    only j q r l = elim (Slot-modified t.procs i f p j q s r) [
      | inl (e, eq) ↦ e
      | inr (ne, r') ↦ let z = b.unused_all j q r' in absurd (ground arith)
    ]

-- What allocproc() leaves of a blank table.
abbrev OneSlot : {F : Type 0} → Kernel F → Option ℕ × Kernel F → Type 0
OneSlot k (none, l) = Unit {0}
OneSlot k (some i, l) =
    (p : Proc) × (g : Proc → Proc) × Slot k.procs i p
    × (l.procs ≡ modify k.procs i g)
    × (l.next_pid ≡ 2)
    × ((g p).pid ≡ 1)

-- The table once slot `i` is claimed.
abbrev claimed : ℕ → Table → Table
claimed i t = record t {
  procs = modify t.procs i (λ q. record q { state = embryo; pid = t.next_pid });
  next_pid = (t.next_pid + 1) % 2 ^ 32;
}

claim_slot-some :
    (t : Table) (i : ℕ)
    → first_index (λ p. in_state p.state unused) t.procs ≡ some i
    → claim_slot t ≡ (some i, claimed i t)
unfolding claim_slot
claim_slot-some t i e = rw (e, claim_slot)

give_stack-OneSlot :
    {F : Type 0} (syms : Symbols) (i : ℕ) (p : Proc) (k : Kernel F)
    → IsBlank k.table
    → Slot k.procs i p
    → OneSlot k (give_stack syms i (record k { table = claimed i k.table }))
unfolding give_stack
give_stack-OneSlot syms i p k b s = elim (Bool-cases ((kalloc k.kmem).0 == 0)) [
  | inl z ↦ rw (z, give_stack) tt
  | inr n ↦
      let f : Proc → Proc = λ q. record q { state = embryo; pid = k.next_pid } in
      let g : Proc → Proc = embryo_on syms (kalloc k.kmem).0 k.ticks in
      let next : (k.next_pid + 1) % 2 ^ 32 ≡ 2 = let o = b.next_pid in omega arith in
      rw (n, give_stack) (p, λ q. g (f q), s, modify-modify k.procs i f g, next, b.next_pid)
]

alloc-OneSlot :
    {F : Type 0} (syms : Symbols) (k : Kernel F) → IsBlank k.table → OneSlot k (allocproc syms k)
unfolding allocproc claim_slot
alloc-OneSlot syms k b = elim (Option-cases (first_index (λ p. in_state p.state unused) k.procs)) [
  | inl e ↦ rw (e, allocproc, claim_slot) tt
  | inr (i, e) ↦
      let (p, s, _) = first_index-some (λ p. in_state p.state unused) k.procs e in
      subst
        (λ c. OneSlot k (elim c.0 [
          | none ↦ (none, record k { table = c.1 })
          | some h ↦ give_stack syms h (record k { table = c.1 })
        ]))
        (sym (claim_slot-some k.table i e)) (give_stack-OneSlot syms i p k b s)
]

module _ {F : Type 0} (syms : Symbols) (sv : Services F) where
  -- What userinit() leaves.
  abbrev pub Started : Kernel F → Type 0
  Started l =
      Wf l.table
      × (i : ℕ) × (p : Proc) × (l.initproc ≡ some i)
      × Slot l.procs i p
      × (p.state ≡ runnable)
      × (p.pid ≡ 1)
      × (p.parent ≡ some i)
      × (p.uid ≡ default_uid)

  start_init-Started :
      (i : ℕ) (p : Proc) (g : Proc → Proc) (k l : Kernel F)
      → IsBlank k.table
      → Slot k.procs i p
      → l.procs ≡ modify k.procs i g
      → l.next_pid ≡ 2
      → (g p).pid ≡ 1
      → Post Started (start_init syms sv i l)
  unfolding start_init
  start_init-Started i p g k l b s e1 e2 e3 = elim (Bool-cases ((sv.setupkvm l.kmem).0 == 0)) [
    | inl z ↦ rw (z, start_init) tt
    | inr n ↦
        let d = (sv.setupkvm l.kmem).0 in
        let cwd = (sv.namei root_path l.fs).0 in
        let h : Proc → Proc = first_process i d cwd in
        let f : Proc → Proc = λ q. h (g q) in
        let ps : modify l.procs i h ≡ modify k.procs i f =
          ap (λ xs. modify xs i h) e1 ∙ modify-modify k.procs i g h in
        let w = first_Wf k.table i f p b s refl refl e3 in
        let t : record { procs = modify k.procs i f; next_pid = 2; initproc = some i }
            ≡ record (l.table) { procs = modify l.procs i h; initproc = some i } =
          λ j. record { procs = sym ps j; next_pid = sym e2 j; initproc = some i } in
        rw (n, start_init)
          (Post-bind Started (sv.inituvm d (sv.setupkvm l.kmem).1) _ λ m e. (
            subst Wf t w,
            i,
            f p,
            refl,
            subst (λ xs. Slot xs i (f p)) (sym ps) (Slot-self k.procs i f p s),
            refl,
            e3,
            refl,
            refl,
          ))
  ]

  -- userinit() on the blank table, if it does not panic: slot `i` holds init, RUNNABLE, with pid 1,
  -- the default uid and itself as its parent, and the table is well formed.
  pub userinit-Started : (k : Kernel F) → IsBlank k.table → Post Started (userinit syms sv k)
  unfolding userinit
  userinit-Started k b = from (allocproc syms k) (alloc-OneSlot syms k b)
    where
      from :
          (r : Option ℕ × Kernel F)
          → OneSlot k r
          → Post Started
              (elim r.0 [ none ↦ panic "null process pointer" | some i ↦ start_init syms sv i r.1 ])
      from (none, l) o = tt
      from (some i, l) (p, g, s, e1, e2, e3) = start_init-Started i p g k l b s e1 e2 e3
