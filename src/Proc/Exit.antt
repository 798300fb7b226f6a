-- ===== src/Proc/Exit.antt =====
-- proc.c: exit() and wait().
use spring18cs.Base.{
  ℕ, zero, suc, ◌+◌, false, not, ◌||◌, Option, none, some, if◌then◌else◌, get_elem?, modify,
  Outcome, ok, panic, ◌>>=◌,
}
use spring18cs.Kalloc.{kfree}
use spring18cs.Proc.Types.{zombie, Proc, proc_chan, nofile, nproc, same_slot}
use spring18cs.Proc.Table.{
  wakeup1, chan_of, adopt_all, sched, sleep, found, havekids, scan_kids, release_slot,
}
use spring18cs.Proc.Kernel.{Symbols, Kernel, Services, close_file}
use spring18cs.Proc.Create.{set_procs, update}

abbrev pub clear_fd : ℕ → Proc → Proc
clear_fd fd p = record p { ofile = modify p.ofile fd (λ _. none) }

-- How a wait() stands: it returned the pid of a child, it returned -1, or it sleeps.
pub data Waiting (A : Type 0) : Type 0 where
  reaped : ℕ → A → Waiting A
  no_kids : Waiting A
  waits : A → Waiting A

module _ {F : Type 0} where
  -- exit() behind the files, under the lock: wakes the parent, passes the children to init, and
  -- enters the scheduler as a ZOMBIE.
  unfoldable pub become_zombie : ℕ → Option ℕ → Kernel F → Outcome (Kernel F)
  become_zombie me parent k = do
    let woken = wakeup1 (chan_of parent) k.procs
    let adopted = adopt_all me k.initproc nproc 0 woken
    ps ← sched k.ticks me (modify adopted me (λ q. record q { state = zombie }))
    ok (set_procs k ps)

module _ {F : Type 0} (syms : Symbols) (sv : Services F) where
  -- the loop of exit() over the open files, `n` of them from `fd` on
  unfoldable pub close_fds : ℕ → ℕ → ℕ → Kernel F → Outcome (Kernel F)
  close_fds me zero fd k = ok k
  close_fds me (suc n) fd k = elim (get_elem? k.procs me) [
    | none ↦ panic "wild process pointer"
    | some p ↦ elim (get_elem? p.ofile fd) [
      | some (some i) ↦ (do
        k' ← close_file syms sv i k
        close_fds me n (fd + 1) (update me (clear_fd fd) k'))
      | _ ↦ close_fds me n (fd + 1) k
    ]
  ]

  -- `iput(proc->cwd)` in its transaction
  unfoldable pub put_cwd : Option ℕ → Kernel F → Outcome (Kernel F)
  put_cwd none k = panic "wild inode pointer"
  put_cwd (some ip) k = do f ← sv.put_inode_op ip k.fs; ok (record k { fs = f })

  -- exit() once the files are closed
  unfoldable pub after_close : ℕ → Kernel F → Outcome (Kernel F)
  after_close me k = elim (get_elem? k.procs me) [
    | none ↦ panic "wild process pointer"
    | some p ↦ (do
      k' ← put_cwd p.cwd k
      become_zombie me p.parent (update me (λ q. record q { cwd = none }) k'))
  ]

  -- exit(), up to the switch
  unfoldable pub exit : ℕ → Kernel F → Outcome (Kernel F)
  exit me k =
      if same_slot k.initproc me
      then panic "init exiting"
      else (do k' ← close_fds me nofile 0 k; after_close me k')

  -- wait() once it has found the zombie `i`
  unfoldable pub reap : ℕ → Kernel F → Outcome (Waiting (Kernel F))
  reap i k = elim (get_elem? k.procs i) [
    | none ↦ panic "wild process pointer"
    | some p ↦ (do
      m ← kfree syms.end_addr p.kstack k.kmem
      m' ← sv.freevm p.pgdir m
      ok (reaped p.pid (update i release_slot (record k { kmem = m' }))))
  ]

  -- One round of wait(), from the scan to the return or to the switch in sleep().
  unfoldable pub wait : ℕ → Kernel F → Outcome (Waiting (Kernel F))
  wait me k = elim (get_elem? k.procs me) [
    | none ↦ panic "wild process pointer"
    | some p ↦ elim (scan_kids me 0 false k.procs) [
      | found i ↦ reap i k
      | havekids kids ↦
          if not kids || p.killed
          then ok no_kids
          else (do ps ← sleep k.ticks me (proc_chan me) k.procs; ok (waits (set_procs k ps)))
    ]
  ]
