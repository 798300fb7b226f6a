-- ===== src/Proc/Fork.antt =====
-- proc.c: what allocproc() and fork() make of the table.
use spring18cs.Base.{
  ℕ, ◌+◌, ◌%◌, ◌^◌, ◌<◌, ◌≡◌, refl, sym, ◌∙◌, true, false, Option, none, some, arith, ◌==◌,
  Option-cases, Bool-cases, inl, inr, modify, subst, first_index, first_index-some, Outcome, ok,
  panic, Post, Post-bind,
}
use spring18cs.Kalloc.{kalloc, kfree}
use spring18cs.Proc.Types.{Proc, Table, unused, embryo, runnable, in_state}
use spring18cs.Proc.Inv.{Wf, Slot, is_alive}
use spring18cs.Proc.Keep.{AliveAt}
use spring18cs.Proc.Mild.{
  Mild, Mild-Wf, modify-Mild, Mild-AliveAt, Fits, fill-Wf, Slot-self, spared,
}
use spring18cs.Proc.Kernel.{Symbols, Kernel, Services}
use spring18cs.Proc.Create.{
  claim_slot, give_stack, allocproc, undo_fork, finish_fork, fork_into, fork, embryo_on, child_of,
  dup_files, dup_cwd,
}

-- A slot that allocproc() has claimed.
abbrev pub EmbryoAt : Table → ℕ → ℕ → Type 0
EmbryoAt t i pid =
    (p : Proc) × Slot t.procs i p × (p.state ≡ embryo) × (p.pid ≡ pid) × (p.parent ≡ none)

-- What claim_slot() promises.
abbrev Claims : Table → Option ℕ × Table → Type 0
Claims t (none, u) = u ≡ t
Claims t (some i, u) =
    Wf u
    × EmbryoAt u i t.next_pid
    × (u.next_pid ≡ t.next_pid + 1)
    × ((j : ℕ) → AliveAt t.procs j → AliveAt u.procs j)

claim-Claims : (t : Table) → t.next_pid + 1 < 2 ^ 32 → Wf t → Claims t (claim_slot t)
unfolding claim_slot
claim-Claims t room w = elim (Option-cases (first_index (λ p. in_state p.state unused) t.procs)) [
  | inl e ↦ rw (e, claim_slot) refl
  | inr (i, e) ↦
      let (p, s, test) = first_index-some (λ p. in_state p.state unused) t.procs e in
      let free : p.state ≡ unused = ground arith in
      let f : Proc → Proc = λ q. record q { state = embryo; pid = t.next_pid } in
      let wrap : (t.next_pid + 1) % 2 ^ 32 ≡ t.next_pid + 1 = omega arith in
      let orphan : p.parent ≡ none = w.no_parent i p s (rw free refl) in
      let dead : is_alive p.state ≡ false = rw free refl in
      let fits : Fits t i (t.next_pid + 1) (f p) = record {
        grows = omega arith;
        bound = omega arith;
        fresh = λ l j q ne r lq e'. let b = w.bound j q r in absurd (omega arith);
        no_parent = λ d. orphan;
        parent = λ a. absurd (cc);
      } in
      rw (e, claim_slot, wrap)
        (
          fill-Wf i (t.next_pid + 1) f t p s dead fits w,
          (f p, Slot-self t.procs i f p s, refl, refl, orphan),
          refl,
          λ j. spared t.procs i f p j s dead,
        )
]

-- Emptying a slot that was only claimed, as the error paths do.
empty_slot :
    (t : Table) (i pid : ℕ) (f : Proc → Proc)
    → ((q : Proc) → ((f q).state ≡ unused) × ((f q).pid ≡ q.pid) × ((f q).parent ≡ q.parent))
    → EmbryoAt t i pid
    → Wf t
    → Wf (record t { procs = modify t.procs i f })
empty_slot t i pid f how (p, s, st, ep, orphan) w =
    let (e1, e2, e3) = how p in
    fill-Wf i t.next_pid f t p s (rw st refl)
      (record {
        grows = omega arith;
        bound = rw e2 (w.bound i p s);
        fresh = λ l. absurd (ground arith);
        no_parent = λ d. e3 ∙ orphan;
        parent = λ a. absurd (ground arith);
      })
      w

module _ {F : Type 0} (syms : Symbols) where
  -- What give_stack() promises of the table.
  abbrev Stacks : ℕ → ℕ → Kernel F → Option ℕ × Kernel F → Type 0
  Stacks i pid k (none, l) =
      Wf l.table × ((j : ℕ) → AliveAt k.procs j → AliveAt l.procs j) × (l.next_pid ≡ k.next_pid)
  Stacks i pid k (some j, l) =
      Wf l.table
      × (j ≡ i)
      × EmbryoAt l.table i pid
      × ((j : ℕ) → AliveAt k.procs j → AliveAt l.procs j)
      × (l.next_pid ≡ k.next_pid)

  give_stack-Stacks :
      (i pid : ℕ) (k : Kernel F)
      → EmbryoAt k.table i pid
      → Wf k.table
      → Stacks i pid k (give_stack syms i k)
  unfolding give_stack
  give_stack-Stacks i pid k (p, s, st, ep, orphan) w = elim (Bool-cases ((kalloc k.kmem).0 == 0)) [
    | inl z ↦
        let f : Proc → Proc = λ q. record q { kstack = 0; state = unused } in
        rw (z, give_stack)
          (
            empty_slot k.table i pid f (λ q. (refl, refl, refl)) (p, s, st, ep, orphan) w,
            λ j. spared k.procs i f p j s (rw st refl),
            refl,
          )
    | inr n ↦
        let stack = (kalloc k.kmem).0 in
        let f : Proc → Proc = embryo_on syms stack k.ticks in
        let m : Mild k.table (record (k.table) { procs = modify k.procs i f }) =
          modify-Mild i f k.table (λ q r. record {
            pid = refl;
            parent = refl;
            live = refl;
            started = refl;
            alive = refl;
          }) in
        rw (n, give_stack)
          (
            Mild-Wf m w,
            refl,
            (f p, Slot-self k.procs i f p s, st, ep, orphan),
            λ j. Mild-AliveAt j m,
            refl,
          )
  ]

  -- What allocproc() promises.
  abbrev pub Allocs : Kernel F → Option ℕ × Kernel F → Type 0
  Allocs k (none, l) = Wf l.table × ((j : ℕ) → AliveAt k.procs j → AliveAt l.procs j)
  Allocs k (some i, l) =
      Wf l.table × EmbryoAt l.table i k.next_pid × ((j : ℕ) → AliveAt k.procs j → AliveAt l.procs j)

  -- allocproc() on a well-formed table, with pids left: the table stays well formed and whoever was
  -- alive stays so; if it returns a slot, that is an EMBRYO with no parent and the next pid.
  pub allocproc-Allocs :
      (k : Kernel F) → k.next_pid + 1 < 2 ^ 32 → Wf k.table → Allocs k (allocproc syms k)
  unfolding allocproc
  allocproc-Allocs k room w = from (claim_slot k.table) (claim-Claims k.table room w)
    where
      from_stack :
          (u : Table) (i : ℕ) (r : Option ℕ × Kernel F)
          → Stacks i k.next_pid (record k { table = u }) r
          → ((j : ℕ) → AliveAt k.procs j → AliveAt u.procs j)
          → Allocs k r
      from_stack u i (none, l) (w', a, e) b = (w', λ j x. a j (b j x))
      from_stack u i (some j, l) (w', ej, em, a, e) b = (w', rw ej em, λ j x. a j (b j x))

      from :
          (c : Option ℕ × Table)
          → Claims k.table c
          → Allocs k (elim c.0 [
            | none ↦ (none, record k { table = c.1 })
            | some i ↦ give_stack syms i (record k { table = c.1 })
          ])
      from (none, u) e = (subst Wf (sym e) w, λ j. subst (λ (v : Table). AliveAt v.procs j) (sym e))
      from (some i, u) (w', em, e, a) =
          from_stack u i (give_stack syms i (record k { table = u }))
            (give_stack-Stacks i k.next_pid (record k { table = u }) em w') a

-- The process that fork() makes for `par`, which runs in slot `me`.
pub record Child (me : ℕ) (par : Proc) (n : ℕ) (c : Proc) : Type 0 where
  pub pid : c.pid ≡ n
  pub parent : c.parent ≡ some me
  pub state : c.state ≡ runnable
  pub frame : c.tf ≡ record (par.tf) { eax = 0 }
  pub uid : c.uid ≡ par.uid
  pub gid : c.gid ≡ par.gid
  pub sz : c.sz ≡ par.sz
  pub cwd : c.cwd ≡ par.cwd

module _ {F : Type 0} (syms : Symbols) (sv : Services F) where
  -- What fork() leaves: the table well formed and the living alive; with a pid, also the child.
  abbrev pub Forks : ℕ → Proc → ℕ → Kernel F → Option ℕ × Kernel F → Type 0
  Forks me par pid k (none, l) = Wf l.table × ((j : ℕ) → AliveAt k.procs j → AliveAt l.procs j)
  Forks me par pid k (some n, l) =
      Wf l.table
      × ((j : ℕ) → AliveAt k.procs j → AliveAt l.procs j)
      × (n ≡ pid)
      × (i : ℕ) × (c : Proc) × Slot l.procs i c
      × Child me par pid c

  undo_fork-Forks :
      (me : ℕ) (par : Proc) (i pid stack : ℕ) (k : Kernel F)
      → EmbryoAt k.table i pid
      → Wf k.table
      → Post (Forks me par pid k) (undo_fork syms sv i stack k)
  unfolding undo_fork
  undo_fork-Forks me par i pid stack k em w =
      let f : Proc → Proc = λ q. record q { kstack = 0; state = unused; pgdir = 0 } in
      Post-bind (Forks me par pid k) (kfree syms.end_addr stack k.kmem) _ λ m e. (
        empty_slot k.table i pid f (λ q. (refl, refl, refl)) em w,
        λ j. spared k.procs i f em.0 j em.1 (rw em.2 refl),
      )

  finish_fork-Forks :
      (me : ℕ) (par : Proc) (i pid d : ℕ) (k : Kernel F)
      → AliveAt k.procs me
      → EmbryoAt k.table i pid
      → Wf k.table
      → Post (Forks me par pid k) (finish_fork syms sv me par i pid d k)
  unfolding finish_fork
  finish_fork-Forks me par i pid d k (q, sq, aq) (p, s, st, ep, orphan) w =
      let f : Proc → Proc = child_of me d par in
      let fits : Fits k.table i k.next_pid (f p) = record {
        grows = omega arith;
        bound = w.bound i p s;
        fresh = λ l j r ne sr lr e. ne (w.distinct i j p r s sr (rw st refl) lr (sym e));
        no_parent = λ z. cc;
        parent = λ z. (me, q, refl, sq, aq);
      } in
      Post-bind (Forks me par pid k) (dup_files par.ofile k.ftable) _ λ ft e1.
        Post-bind (Forks me par pid k) (dup_cwd sv par.cwd k.fs) _ λ fs e2. (
          fill-Wf i k.next_pid f k.table p s (rw st refl) fits w,
          λ j. spared k.procs i f p j s (rw st refl),
          refl,
          i,
          f p,
          Slot-self k.procs i f p s,
          record {
            pid = ep;
            parent = refl;
            state = refl;
            frame = refl;
            uid = refl;
            gid = refl;
            sz = refl;
            cwd = refl;
          },
        )

  fork_into-Forks :
      (me : ℕ) (par : Proc) (i pid : ℕ) (k : Kernel F)
      → AliveAt k.procs me
      → EmbryoAt k.table i pid
      → Wf k.table
      → Post (Forks me par pid k) (fork_into syms sv me par i k)
  unfolding fork_into
  fork_into-Forks me par i pid k alive em w =
      let (d, m) = sv.copyuvm par.pgdir par.sz k.kmem in
      let k' : Kernel F = record k { kmem = m } in
      elim (Bool-cases (d == 0)) [
        | inl z ↦ rw (em.1, fork_into, z) (undo_fork-Forks me par i pid em.0.kstack k' em w)
        | inr n ↦
            rw (em.1, fork_into, n)
              (rw (← em.3)
                (finish_fork-Forks me par i em.0.pid d k' alive (em.0, em.1, em.2, refl, em.4) w))
      ]

  -- fork() on a well-formed table, by a process that is alive, with pids left: if it does not
  -- panic, the table stays well formed and whoever was alive stays so. If it returns a pid, that is
  -- the next pid, and a slot holds a RUNNABLE child of the caller with that pid, with the caller's
  -- trap frame but for a return value of 0, and with the caller's uid, gid, size and directory.
  pub fork-Forks :
      (me : ℕ) (par : Proc) (k : Kernel F)
      → Slot k.procs me par
      → is_alive par.state ≡ true
      → k.next_pid + 1 < 2 ^ 32
      → Wf k.table
      → Post (Forks me par k.next_pid k) (fork syms sv me k)
  unfolding fork
  fork-Forks me par k s al room w =
      rw (s, fork) (from (allocproc syms k) (allocproc-Allocs syms k room w))
    where
      weaken :
          (l : Kernel F)
          → ((j : ℕ) → AliveAt k.procs j → AliveAt l.procs j)
          → (o : Outcome (Option ℕ × Kernel F)) → Post (Forks me par k.next_pid l) o
          → Post (Forks me par k.next_pid k) o
      weaken l a (panic m) p = tt
      weaken l a (ok (none, l')) (w', b) = (w', λ j x. b j (a j x))
      weaken l a (ok (some n, l')) (w', b, e, i, c, sc, ch) =
          (w', λ j x. b j (a j x), e, i, c, sc, ch)

      from :
          (r : Option ℕ × Kernel F)
          → Allocs syms k r
          → Post
              (Forks me par k.next_pid k)
              (elim r.0 [ none ↦ ok (none, r.1) | some i ↦ fork_into syms sv me par i r.1 ])
      from (none, l) (w', a) = (w', a)
      from (some i, l) (w', em, a) =
          weaken l a _ (fork_into-Forks me par i k.next_pid l (a me (par, s, al)) em w')
