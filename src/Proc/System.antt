-- ===== src/Proc/System.antt =====
-- proc.c: the operations of the process table as steps of the whole machine, in any order.
use spring18cs.Base.{
  ℕ, ◌+◌, ◌%◌, ◌^◌, ◌≡◌, ◌<◌, refl, sym, subst, Bool, false, Option, none, some, List, arith, ◌==◌,
  get_elem?, Option-cases, Bool-cases, inl, inr, ok, Post, ltb,
}
use spring18cs.Kalloc.{Kmem}
use spring18cs.Proc.Types.{runnable, running, Proc, Chan, same_slot}
use spring18cs.Proc.Table.{wakeup1, kill, yield, sleep, woken, dispatch}
use spring18cs.Proc.Inv.{Wf, Slot}
use spring18cs.Proc.Keep.{
  modify-Wf, wakeup1-Wf, kill-Wf, yield-KeepsWf, sleep-KeepsWf, woken-Wf, dispatch-Wf,
}
use spring18cs.Proc.Kernel.{Symbols, Kernel, Services}
use spring18cs.Proc.Create.{set_procs, resize, fork, growproc, userinit}
use spring18cs.Proc.Exit.{reaped, waits, exit, wait}
use spring18cs.Proc.Fork.{fork-Forks, Forks}
use spring18cs.Proc.Boot.{IsBlank, userinit-Started}
use spring18cs.Proc.ExitInv.{exit-Dead}
use spring18cs.Proc.WaitInv.{wait-Waits}

module _ {F : Type 0} (syms : Symbols) (sv : Services F) where
  -- One step. fork(), exit(), wait(), yield() and sleep() are called by a process that is
  -- RUNNING, and are the functions of proc.c, up to where they give up the processor.
  pub data Step (k l : Kernel F) : Type 0 where
    forks :
        (me : ℕ) (p : Proc) (r : Option ℕ)
        → Slot k.procs me p
        → p.state ≡ running
        → k.next_pid + 1 < 2 ^ 32
        → fork syms sv me k ≡ ok (r, l)
        → Step k l
    exits :
        (me : ℕ) (p : Proc)
        → Slot k.procs me p
        → p.state ≡ running
        → exit syms sv me k ≡ ok l
        → Step k l
    reaps :
        (me : ℕ) (p : Proc) (n : ℕ)
        → Slot k.procs me p
        → p.state ≡ running
        → wait syms sv me k ≡ ok (reaped n l)
        → Step k l
    waits_on :
        (me : ℕ) (p : Proc)
        → Slot k.procs me p
        → p.state ≡ running
        → wait syms sv me k ≡ ok (waits l)
        → Step k l
    grows : (me n : ℕ) (b : Bool) → growproc syms sv me n k ≡ ok (b, l) → Step k l
    yields :
        (me : ℕ) (p : Proc) (ps : List Proc)
        → Slot k.procs me p
        → p.state ≡ running
        → yield k.ticks me k.procs ≡ ok ps
        → l ≡ set_procs k ps
        → Step k l
    sleeps :
        (me : ℕ) (p : Proc) (chan : Chan) (ps : List Proc)
        → Slot k.procs me p
        → p.state ≡ running
        → sleep k.ticks me chan k.procs ≡ ok ps
        → l ≡ set_procs k ps
        → Step k l
    resumes : (me : ℕ) → l ≡ set_procs k (woken me k.procs) → Step k l
    wakes : (chan : Chan) → l ≡ set_procs k (wakeup1 chan k.procs) → Step k l
    kills : (pid : ℕ) → l ≡ set_procs k (kill pid k.procs).1 → Step k l
    dispatches :
        (i : ℕ) (p : Proc)
        → Slot k.procs i p
        → p.state ≡ runnable
        → l ≡ set_procs k (dispatch k.ticks i k.procs)
        → Step k l
    elapses : l ≡ record k { ticks = (k.ticks + 1) % 2 ^ 32 } → Step k l

  pub data Reach (k : Kernel F) : Kernel F → Type 0 where
    here : Reach k k
    next : {l m : Kernel F} → Reach k l → Step l m → Reach k m

  resize-Wf : (me sz : ℕ) (m : Kmem) (k : Kernel F) → Wf k.table → Wf (resize me sz m k).1.table
  unfolding resize
  resize-Wf me sz m k w = elim (Bool-cases (sz == 0)) [
    | inl z ↦ rw (z, resize) w
    | inr n ↦
        rw (n, resize)
          (modify-Wf me (λ q. record q { sz = sz }) k.table
            (λ q s. record { pid = refl; parent = refl; live = refl; started = refl; alive = refl })
            w)
  ]

  grow-Wf :
      (me n : ℕ) (k : Kernel F) → Wf k.table → Post (λ r. Wf r.1.table) (growproc syms sv me n k)
  unfolding growproc
  grow-Wf me n k w = elim (Option-cases (get_elem? k.procs me)) [
    | inl e ↦ rw (e, growproc) tt
    | inr (p, e) ↦ elim (Bool-cases (n == 0)) [
      | inl z ↦ rw (e, growproc, z) w
      | inr nz ↦ elim (Bool-cases (ltb n (2 ^ 31))) [
        | inl up ↦ rw (e, growproc, nz, up) (resize-Wf me _ _ k w)
        | inr down ↦ rw (e, growproc, nz, down) (resize-Wf me _ _ k w)
      ]
    ]
  ]

  exit_not_init :
      (me : ℕ) (k l : Kernel F) → exit syms sv me k ≡ ok l → same_slot k.initproc me ≡ false
  unfolding exit
  exit_not_init me k l e = elim (Bool-cases (same_slot k.initproc me)) [
    | inl t ↦ absurd (ground arith)
    | inr f ↦ f
  ]

  -- Where a step only replaces the processes.
  by_procs :
      (k l : Kernel F) (ps : List Proc)
      → l ≡ set_procs k ps
      → Wf (record (k.table) { procs = ps })
      → Wf l.table
  by_procs k l ps e w = subst (λ (x : Kernel F). Wf x.table) (sym e) w

  fork_Wf :
      (me : ℕ) (p : Proc) (k : Kernel F) (r : Option ℕ × Kernel F)
      → Forks syms sv me p k.next_pid k r
      → Wf r.1.table
  fork_Wf me p k (none, l) h = h.0
  fork_Wf me p k (some n, l) h = h.0

  -- Every step keeps the table well formed.
  Step-Wf : {k l : Kernel F} → Step k l → Wf k.table → Wf l.table
  Step-Wf {k} {l} (forks me p r s st room e) w =
      fork_Wf me p k (r, l) (rw e at (fork-Forks syms sv me p k s (rw st refl) room w))
  Step-Wf {k} {l} (exits me p s st e) w =
      (rw e at (exit-Dead syms sv me p k s (rw st refl) (exit_not_init me k l e) w)).wf
  Step-Wf {k} {l} (reaps me p n s st e) w = (rw e at (wait-Waits syms sv me p k s (rw st refl) w)).0
  Step-Wf {k} {l} (waits_on me p s st e) w =
      (rw e at (wait-Waits syms sv me p k s (rw st refl) w)).0
  Step-Wf {k} {l} (grows me n b e) w = rw e at (grow-Wf me n k w)
  Step-Wf {k} {l} (yields me p ps s st e el) w =
      by_procs k l ps el (rw e at (yield-KeepsWf k.ticks me k.table (p, s, rw st refl) w))
  Step-Wf {k} {l} (sleeps me p chan ps s st e el) w =
      by_procs k l ps el (rw e at (sleep-KeepsWf k.ticks me chan k.table (p, s, rw st refl) w))
  Step-Wf {k} {l} (resumes me el) w = by_procs k l _ el (woken-Wf me k.table w)
  Step-Wf {k} {l} (wakes chan el) w = by_procs k l _ el (wakeup1-Wf chan k.table w)
  Step-Wf {k} {l} (kills pid el) w = by_procs k l _ el (kill-Wf pid k.table w)
  Step-Wf {k} {l} (dispatches i p s st el) w =
      by_procs k l _ el (dispatch-Wf k.ticks i k.table (p, s, rw st refl) w)
  Step-Wf {k} {l} (elapses el) w = subst (λ (x : Kernel F). Wf x.table) (sym el) w

  Reach-Wf : {k l : Kernel F} → Wf k.table → Reach k l → Wf l.table
  Reach-Wf w here = w
  Reach-Wf w (next r st) = Step-Wf st (Reach-Wf w r)

  -- From the state that userinit() leaves, no sequence of steps breaks the table: whatever forks,
  -- exits, waits, sleeps, wake-ups and kills happen in whatever order, pids in use are distinct, a
  -- slot in use has a parent that is alive, and init is alive.
  pub boot-Wf :
      (k : Kernel F) {l m : Kernel F}
      → IsBlank k.table
      → userinit syms sv k ≡ ok l
      → Reach l m
      → Wf m.table
  boot-Wf k b e r = Reach-Wf (rw e at (userinit-Started syms sv k b)).0 r
