-- ===== src/Proc/PipeSystem.antt =====
-- pipe.c and proc.c: the calls on a pipe and the scheduling of its users, in any order.
use spring18cs.Base.{
  ℕ, ◌≡◌, refl, subst, sym, Bool, true, false, List, arith, ◌==◌, if◌then◌else◌, Option-cases,
  Bool-cases, ◌⊎◌, inl, inr, ok, Post, Post-bind, first_index,
}
use spring18cs.Kalloc.{Kmem, kfree}
use spring18cs.Pipe.{close_end}
use spring18cs.Proc.Types.{
  Chan, no_chan, same_chan, nread_chan, nwrite_chan, Proc, runnable, running,
}
use spring18cs.Proc.Table.{wakeup1, kill_proc, kill, yield, sleep, woken, dispatch}
use spring18cs.Proc.Kernel.{Symbols, Kernel, Services, pipeclose}
use spring18cs.Proc.Create.{set_procs}
use spring18cs.Proc.PipeCalls.{returned, fails, blocks, write_call, read_call}
use spring18cs.Proc.Wakeups.{
  Rests, sleeps_on, dry, choked, Served, Rests-woken, Rests-wakeup1, Rests-modify, Rests-sched,
  Rests-sleep, write_call-Serves, read_call-Serves, same_pipe,
}

Rests-kill :
    (chan : Chan) (b : Bool) (pid : ℕ) (ps : List Proc)
    → Rests chan b ps
    → Rests chan b (kill pid ps).1
unfolding kill
Rests-kill chan b pid ps r = elim (Option-cases (first_index (λ p. p.pid == pid) ps)) [
  | inl e ↦ rw (e, kill) r
  | inr (i, e) ↦
      rw (e, kill) (Rests-modify chan b i kill_proc ps (λ p s a. r i p s (ground arith)) r)
]

module _ {F : Type 0} (syms : Symbols) (sv : Services F) (at : ℕ) where
  -- A call on the pipe at `at`, by any process, or a step of the scheduler. No process sleeps on
  -- the pipe but in these calls, and a write that returns -1 does so before it has put a byte in.
  pub data Step (k l : Kernel F) : Type 0 where
    writes : (me : ℕ) (cs : List ℕ) → write_call me at cs k ≡ ok (returned tt l) → Step k l
    write_blocks :
        (me : ℕ) (cs rest : List ℕ) → write_call me at cs k ≡ ok (blocks rest l) → Step k l
    write_fails_at_once :
        (me : ℕ) (cs : List ℕ)
        → write_call me at cs k ≡ ok (fails l)
        → l.pipes at ≡ k.pipes at
        → Step k l
    reads : (me n : ℕ) (cs : List ℕ) → read_call me at n k ≡ ok (returned cs l) → Step k l
    read_blocks : (me n : ℕ) → read_call me at n k ≡ ok (blocks tt l) → Step k l
    closes : (writable : Bool) → pipeclose syms sv at writable k ≡ ok l → Step k l
    sleeps_elsewhere :
        (me : ℕ) (chan : Chan) (ps : List Proc)
        → same_chan chan (nread_chan at) ≡ false
        → same_chan chan (nwrite_chan at) ≡ false
        → sleep k.ticks me chan k.procs ≡ ok ps
        → l ≡ set_procs k ps
        → Step k l
    yields :
        (me : ℕ) (ps : List Proc) → yield k.ticks me k.procs ≡ ok ps → l ≡ set_procs k ps → Step k l
    resumes : (me : ℕ) → l ≡ set_procs k (woken me k.procs) → Step k l
    wakes : (chan : Chan) → l ≡ set_procs k (wakeup1 chan k.procs) → Step k l
    kills : (pid : ℕ) → l ≡ set_procs k (kill pid k.procs).1 → Step k l
    dispatches : (i : ℕ) → l ≡ set_procs k (dispatch k.ticks i k.procs) → Step k l

  pub data Reach (k : Kernel F) : Kernel F → Type 0 where
    here : Reach k k
    next : {l m : Kernel F} → Reach k l → Step l m → Reach k m

  -- A change of the processes that puts none to sleep on the pipe.
  Served-procs :
      (k l : Kernel F) (ps : List Proc)
      → l ≡ set_procs k ps
      → ((chan : Chan) (b : Bool)
          → (chan ≡ nread_chan at) ⊎ (chan ≡ nwrite_chan at)
          → Rests chan b k.procs
          → Rests chan b ps)
      → Served at k
      → Served at l
  Served-procs k l ps e h s = subst (Served at) (sym e) (record {
    readers = h (nread_chan at) (dry (k.pipes at)) (inl refl) s.readers;
    writers = h (nwrite_chan at) (choked (k.pipes at)) (inr refl) s.writers;
  })

  close_end-Served :
      (writable : Bool) (k : Kernel F) (m : Kmem)
      → Served at k
      → let q = (close_end writable (k.pipes at)).0 in
        let chan = if writable then nread_chan at else nwrite_chan at in
        Served at (record k {
          table = record (k.table) { procs = wakeup1 chan k.procs };
          pipes = λ a. if a == at then q else k.pipes a;
          kmem = m;
        })
  unfolding close_end
  close_end-Served true k m s = record {
    readers = Rests-woken (nread_chan at) _ k.procs;
    writers =
        rw (same_pipe at)
          (Rests-wakeup1 (nwrite_chan at) (choked (k.pipes at)) (nread_chan at) k.procs s.writers);
  }
  close_end-Served false k m s = record {
    readers =
        rw (same_pipe at)
          (Rests-wakeup1 (nread_chan at) (dry (k.pipes at)) (nwrite_chan at) k.procs s.readers);
    writers = Rests-woken (nwrite_chan at) _ k.procs;
  }

  pipeclose-Served :
      (writable : Bool) (k : Kernel F)
      → Served at k
      → Post (Served at) (pipeclose syms sv at writable k)
  unfolding pipeclose
  pipeclose-Served writable k s = elim (Bool-cases (close_end writable (k.pipes at)).1) [
    | inl t ↦
        rw (t, pipeclose)
          (Post-bind (Served at) (kfree syms.end_addr at k.kmem) _
            λ m e. close_end-Served writable k m s)
    | inr f ↦ rw (f, pipeclose) (close_end-Served writable k k.kmem s)
  ]

  Step-Served : {k l : Kernel F} → Step k l → Served at k → Served at l
  unfolding woken dispatch yield
  Step-Served {k} {l} (writes me cs e) s = rw e at (write_call-Serves me at k s cs)
  Step-Served {k} {l} (write_blocks me cs rest e) s = rw e at (write_call-Serves me at k s cs)
  Step-Served {k} {l} (write_fails_at_once me cs e same) s =
      (rw e at (write_call-Serves me at k s cs)) same
  Step-Served {k} {l} (reads me n cs e) s = rw e at (read_call-Serves me at k s n)
  Step-Served {k} {l} (read_blocks me n e) s = rw e at (read_call-Serves me at k s n)
  Step-Served {k} {l} (closes writable e) s = rw e at (pipeclose-Served writable k s)
  Step-Served {k} {l} (sleeps_elsewhere me chan ps nr nw e el) s =
      Served-procs k l ps el
        (λ c b at_pipe r.
          rw e at
            (Rests-sleep c b k.ticks me chan k.procs (λ same. absurd (elsewhere c at_pipe same)) r))
        s
    where
      elsewhere :
          (c : Chan) → (c ≡ nread_chan at) ⊎ (c ≡ nwrite_chan at) → ¬ (same_chan chan c ≡ true)
      elsewhere c (inl e) same = let t : same_chan chan (nread_chan at) ≡ true = rw e at same in cc
      elsewhere c (inr e) same = let t : same_chan chan (nwrite_chan at) ≡ true = rw e at same in cc
  Step-Served {k} {l} (yields me ps e el) s =
      Served-procs k l ps el
        (λ c b at_pipe r. rw e at (
          Rests-sched c b k.ticks me _ (
            Rests-modify c b me (λ p. record p { state = runnable }) k.procs (λ p s a. absurd (cc))
              r)))
        s
  Step-Served {k} {l} (resumes me el) s =
      Served-procs k l _ el
        (λ c b at_pipe r.
          Rests-modify c b me (λ p. record p { chan = no_chan }) k.procs
            (λ p s a. absurd (awake c at_pipe p a)) r)
        s
    where
      awake :
          (c : Chan)
          → (c ≡ nread_chan at) ⊎ (c ≡ nwrite_chan at)
          → (p : Proc) → ¬ (sleeps_on c (record p { chan = no_chan }) ≡ true)
      awake c (inl e) p a =
          let t : sleeps_on (nread_chan at) (record p { chan = no_chan }) ≡ true = rw e at a in
          ground arith
      awake c (inr e) p a =
          let t : sleeps_on (nwrite_chan at) (record p { chan = no_chan }) ≡ true = rw e at a in
          ground arith
  Step-Served {k} {l} (wakes chan el) s =
      Served-procs k l _ el (λ c b at_pipe r. Rests-wakeup1 c b chan k.procs r) s
  Step-Served {k} {l} (kills pid el) s =
      Served-procs k l _ el (λ c b at_pipe r. Rests-kill c b pid k.procs r) s
  Step-Served {k} {l} (dispatches i el) s =
      Served-procs k l _ el
        (λ c b at_pipe r.
          Rests-modify c b i (λ p. record p { state = running; cpu_ticks_in = k.ticks }) k.procs
            (λ p s a. absurd (cc)) r)
        s

  -- No wake-up is lost. If whoever sleeps on the pipe has a reason to, so it is after any sequence
  -- of steps: a process that sleeps in piperead() does so while the pipe is empty and a writer is
  -- left, and one that sleeps in pipewrite() while the pipe is full and a reader is left.
  pub Reach-Served : {k l : Kernel F} → Served at k → Reach k l → Served at l
  Reach-Served s here = s
  Reach-Served s (next r st) = Step-Served st (Reach-Served s r)
