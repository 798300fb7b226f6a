-- ===== src/Proc/WaitInv.antt =====
-- proc.c: what wait() returns, and what it leaves of the process table.
use spring18cs.Base.{
  ℕ, zero, suc, ◌+◌, ◌≡◌, ◌≢◌, refl, sym, ◌∙◌, subst, Bool, true, false, some, List, [], ◌∷◌, arith,
  if◌then◌else◌, get_elem?, Bool-cases, ◌⊎◌, inl, inr, ◌||◌, not, modify, ok, ◌>>=◌, Post,
  Post-bind,
}
use spring18cs.Kalloc.{kfree}
use spring18cs.Proc.Types.{sleeping, zombie, Proc, in_state, same_slot, proc_chan}
use spring18cs.Proc.Table.{sleep, charge, Scan, found, havekids, scan_kids, release_slot}
use spring18cs.Proc.Inv.{Wf, Slot, is_alive}
use spring18cs.Proc.Keep.{sleep-KeepsWf}
use spring18cs.Proc.Mild.{Fits, fill-Wf, Slot-self}
use spring18cs.Proc.ExitInv.{sched-ok}
use spring18cs.Proc.Kernel.{Symbols, Kernel, Services}
use spring18cs.Proc.Create.{set_procs}
use spring18cs.Proc.Exit.{Waiting, reaped, no_kids, waits, reap, wait}

-- What the scan finds among the slots that are left: the first ZOMBIE child, or that there is
-- none, and whether there was a child at all.
abbrev Scans : ℕ → ℕ → Bool → List Proc → Scan → Type 0
Scans me i kids ps (found j) =
    (k : ℕ) × (p : Proc) × (j ≡ i + k)
    × (get_elem? ps k ≡ some p)
    × (same_slot p.parent me ≡ true)
    × (p.state ≡ zombie)
Scans me i kids ps (havekids b) =
    ((k : ℕ) (p : Proc)
      → get_elem? ps k ≡ some p
      → same_slot p.parent me ≡ true
      → (p.state ≢ zombie) × (b ≡ true))
    × (kids ≡ true → b ≡ true)
    × (b ≡ true
        → (kids ≡ true)
          ⊎ ((k : ℕ) × (p : Proc) × (get_elem? ps k ≡ some p) × (same_slot p.parent me ≡ true)))

scan_next :
    (me i : ℕ) (kids kids' : Bool) (p : Proc) (ps : List Proc) (s : Scan)
    → (same_slot p.parent me ≡ true → (p.state ≢ zombie) × (kids' ≡ true))
    → (same_slot p.parent me ≡ false → kids' ≡ kids)
    → (kids ≡ true → kids' ≡ true)
    → Scans me (i + 1) kids' ps s
    → Scans me i kids (p ∷ ps) s
scan_next me i kids kids' p ps (found j) h n up (k, q, e, s, c, z) =
    (suc k, q, omega arith, s, c, z)
scan_next me i kids kids' p ps (havekids b) h n up (all, keep, why) =
    (each, λ e. keep (up e), because)
  where
    each :
        (k : ℕ) (q : Proc)
        → get_elem? (p ∷ ps) k ≡ some q
        → same_slot q.parent me ≡ true
        → (q.state ≢ zombie) × (b ≡ true)
    each zero q s c =
        let e : p ≡ q = cc in
        let (a, b') = h (rw (← e) at c) in (subst (λ (x : Proc). x.state ≢ zombie) e a, keep b')
    each (suc k) q s c = all k q s c

    because :
        b ≡ true
        → (kids ≡ true)
          ⊎ ((k : ℕ) × (q : Proc) × (get_elem? (p ∷ ps) k ≡ some q)
              × (same_slot q.parent me ≡ true))
    because e = elim (Bool-cases (same_slot p.parent me)) [
      | inl c ↦ inr (0, p, refl, c)
      | inr m ↦ elim (why e) [
        | inl k ↦ inl (sym (n m) ∙ k)
        | inr (k, q, s, c) ↦ inr (suc k, q, s, c)
      ]
    ]

scan-Scans : (me i : ℕ) (kids : Bool) (ps : List Proc) → Scans me i kids ps (scan_kids me i kids ps)
unfolding scan_kids
scan-Scans me i kids [] = (λ k p e. cc, λ e. e, λ e. inl e)
scan-Scans me i kids (p ∷ ps) = elim (Bool-cases (same_slot p.parent me)) [
  | inr n ↦ rw n (
      scan_next me i kids kids p ps _ (λ c. cc) (λ c. refl) (λ c. c)
        (scan-Scans me (i + 1) kids ps))
  | inl c ↦ elim (Bool-cases (in_state p.state zombie)) [
    | inl z ↦ rw (c, z) (0, p, omega arith, refl, c, ground arith)
    | inr n ↦
        rw (c, n)
          (scan_next me i kids true p ps _ (λ d. (ground arith, refl)) (λ d. cc) (λ d. refl)
            (scan-Scans me (i + 1) true ps))
  ]
]

module _ {F : Type 0} (syms : Symbols) (sv : Services F) where
  -- What a round of wait() by `me` promises.
  abbrev pub Waits : ℕ → Proc → Kernel F → Waiting (Kernel F) → Type 0
  Waits me par k (reaped n l) =
      Wf l.table
      × (i : ℕ) × (p : Proc) × Slot k.procs i p
      × (same_slot p.parent me ≡ true)
      × (p.state ≡ zombie)
      × (p.pid ≡ n)
      × Slot l.procs i (release_slot p)
  Waits me par k no_kids =
      (par.killed ≡ true) ⊎ ((i : ℕ) (p : Proc) → Slot k.procs i p → same_slot p.parent me ≡ false)
  Waits me par k (waits l) =
      Wf l.table
      × (par.killed ≡ false)
      × ((i : ℕ) × (p : Proc) × Slot k.procs i p × (same_slot p.parent me ≡ true))
      × ((i : ℕ) (p : Proc) → Slot k.procs i p → same_slot p.parent me ≡ true → p.state ≢ zombie)
      × (q : Proc) × Slot l.procs me q
      × (q.state ≡ sleeping)
      × (q.chan ≡ proc_chan me)

  reap-Waits :
      (me i : ℕ) (par p : Proc) (k : Kernel F)
      → Slot k.procs i p
      → same_slot p.parent me ≡ true
      → p.state ≡ zombie
      → Wf k.table
      → Post (Waits me par k) (reap syms sv i k)
  unfolding reap
  reap-Waits me i par p k s c z w =
      let fits : Fits k.table i k.next_pid (release_slot p) = record {
        grows = omega arith;
        bound = let b = w.bound i p s in omega arith;
        fresh = λ l. cc;
        no_parent = λ d. refl;
        parent = λ a. cc;
      } in
      rw (s, reap)
        (Post-bind (Waits me par k) (kfree syms.end_addr p.kstack k.kmem) _ λ m e1.
          Post-bind (Waits me par k) (sv.freevm p.pgdir m) _ λ m' e2. (
            fill-Wf i k.next_pid release_slot k.table p s (rw z refl) fits w,
            i,
            p,
            s,
            c,
            z,
            refl,
            Slot-self k.procs i release_slot p s,
          ))

  -- A round of wait() by a process that is alive, on a well-formed table. If it returns a pid, that
  -- is the pid of a ZOMBIE child of the caller, whose slot is now UNUSED, and the table is well
  -- formed. If it returns -1, the caller was killed or has no child. If it sleeps, the caller was
  -- not killed and has children, none of them a ZOMBIE, sleeps on itself, and the table is well formed.
  pub wait-Waits :
      (me : ℕ) (par : Proc) (k : Kernel F)
      → Slot k.procs me par
      → is_alive par.state ≡ true
      → Wf k.table
      → Post (Waits me par k) (wait syms sv me k)
  unfolding wait sleep
  wait-Waits me par k s al w =
      rw (s, wait) (from (scan_kids me 0 false k.procs) (scan-Scans me 0 false k.procs))
    where
      dozes : Proc → Proc
      dozes p = record p { chan = proc_chan me; state = sleeping }

      asleep :
          sleep k.ticks me (proc_chan me) k.procs
          ≡ ok (modify (modify k.procs me dozes) me (charge k.ticks))
      asleep =
          sched-ok k.ticks me (modify k.procs me dozes) (dozes par)
            (Slot-self k.procs me dozes par s) refl

      kid :
          (false ≡ true)
            ⊎ ((i : ℕ) × (p : Proc) × (get_elem? k.procs i ≡ some p)
                × (same_slot p.parent me ≡ true))
          → (i : ℕ) × (p : Proc) × Slot k.procs i p × (same_slot p.parent me ≡ true)
      kid (inl e) = absurd (cc)
      kid (inr x) = x

      from :
          (r : Scan)
          → Scans me 0 false k.procs r
          → Post (Waits me par k) (elim r [
            | found i ↦ reap syms sv i k
            | havekids kids ↦
                if not kids || par.killed
                then ok no_kids
                else (do ps ← sleep k.ticks me (proc_chan me) k.procs; ok (waits (set_procs k ps)))
          ])
      from (found j) (i, p, e, sp, c, z) =
          let here : j ≡ i = omega arith in rw here (reap-Waits me i par p k sp c z w)
      from (havekids kids) (none_dead, _, why) = elim (Bool-cases kids) [
        | inr n ↦ rw n (
            inr (λ i p sp. elim (Bool-cases (same_slot p.parent me)) [
              | inl c ↦ let b = (none_dead i p sp c).1 in absurd (cc)
              | inr m ↦ m
            ]))
        | inl y ↦ elim (Bool-cases par.killed) [
          | inl dead ↦ rw (y, dead) (inl refl)
          | inr spared ↦
              rw (y, spared, asleep)
                (
                  rw asleep at (sleep-KeepsWf k.ticks me (proc_chan me) k.table (par, s, al) w),
                  refl,
                  kid (why y),
                  λ i p sp c. (none_dead i p sp c).0,
                  charge k.ticks (dozes par),
                  Slot-self (modify k.procs me dozes) me (charge k.ticks) (dozes par)
                      (Slot-self k.procs me dozes par s),
                  refl,
                  refl,
                )
        ]
      ]
