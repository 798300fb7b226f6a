-- ===== src/Proc/Tests.antt =====
-- proc.c: the theorems at the small machine, and runs of its functions there.
use spring18cs.Base.{
  ℕ, ◌+◌, ◌≡◌, ◌<◌, ◌≤◌, ◌^◌, refl, true, false, none, some, arith, ok, panic, get_elem?, Post,
  first_index, modify, get_elem?-replicate, subst, length, map,
}
use spring18cs.Kalloc.{kalloc, store_word}
use spring18cs.CString.{safestrcpy, copy_str}
use spring18cs.Proc.Types.{Proc, runnable, running, same_slot, nproc}
use spring18cs.Proc.Table.{dispatch, adopt_all}
use spring18cs.Proc.Inv.{Wf, Slot, is_alive}
use spring18cs.Proc.Keep.{dispatch-Wf, AliveAt}
use spring18cs.Proc.Adopt.{adopted, zombie_kid}
use spring18cs.Proc.AdoptAll.{adopt_all-map}
use spring18cs.Proc.Kernel.{Kernel}
use spring18cs.Proc.Create.{
  userinit, start_init, init_frame, allocproc, claim_slot, give_stack, set_procs, fork, fork_into,
  finish_fork, dup_files, dup_cwd, copy_fds,
}
use spring18cs.Proc.Exit.{exit, wait}
use spring18cs.Proc.Boot.{IsBlank, Started, userinit-Started}
use spring18cs.Proc.Fork.{fork-Forks, Forks}
use spring18cs.Proc.ExitInv.{Dead, exit-Dead}
use spring18cs.Proc.WaitInv.{Waits, wait-Waits}
use spring18cs.Proc.System.{Reach, here, next, dispatches, forks, boot-Wf}
use spring18cs.Proc.Machine.{syms, services, blank_kernel, blank_proc, blank_table}

blank_table-IsBlank : IsBlank blank_table
blank_table-IsBlank = record {
  size = refl;
  next_pid = refl;
  unused_all = λ i p s. rw (get_elem?-replicate 64 blank_proc i p s) refl;
  no_parents = λ i p s. rw (get_elem?-replicate 64 blank_proc i p s) refl;
  no_pids = λ i p s. rw (get_elem?-replicate 64 blank_proc i p s) refl;
}

userinit-Started_example : Post (Started syms services) (userinit syms services blank_kernel)
userinit-Started_example = userinit-Started syms services blank_kernel blank_table-IsBlank

-- The machine after userinit().
booted : Kernel ℕ
unfolding userinit start_init allocproc claim_slot give_stack kalloc store_word first_index modify
    init_frame safestrcpy copy_str
booted = elim (userinit syms services blank_kernel) [ ok l ↦ l | panic m ↦ blank_kernel ]

booted_lem : userinit syms services blank_kernel ≡ ok booted
unfolding booted
booted_lem = refl

booted-Wf : Wf booted.table
booted-Wf = (subst (Post (Started syms services)) booted_lem userinit-Started_example).0

-- init runs
abbrev started : Kernel ℕ
started = set_procs booted (dispatch booted.ticks 0 booted.procs)

init_proc : Proc
unfolding booted dispatch
init_proc = elim (get_elem? started.procs 0) [ none ↦ blank_proc | some p ↦ p ]

init-Slot : Slot started.procs 0 init_proc
unfolding init_proc
init-Slot = refl

init-alive : is_alive init_proc.state ≡ true
unfolding init_proc
init-alive = refl

booted-AliveAt : AliveAt booted.procs 0
unfolding booted
booted-AliveAt = (elim (get_elem? booted.procs 0) [ none ↦ blank_proc | some p ↦ p ], refl, refl)

started-Wf : Wf started.table
started-Wf = dispatch-Wf booted.ticks 0 booted.table booted-AliveAt booted-Wf

started_pids : started.next_pid + 1 < 2 ^ 32
unfolding booted
started_pids = omega arith

fork-Forks_example :
    Post (Forks syms services 0 init_proc started.next_pid started) (fork syms services 0 started)
fork-Forks_example =
    fork-Forks syms services 0 init_proc started init-Slot init-alive started_pids started-Wf

forked : Kernel ℕ
unfolding init_proc fork fork_into finish_fork dup_files dup_cwd copy_fds allocproc claim_slot
    give_stack kalloc store_word first_index modify safestrcpy copy_str
forked = elim (fork syms services 0 started) [ ok r ↦ r.1 | panic m ↦ started ]

forked_lem : fork syms services 0 started ≡ ok (some 2, forked)
unfolding forked
forked_lem = refl

forked-Wf : Wf forked.table
forked-Wf =
    (subst (Post (Forks syms services 0 init_proc started.next_pid started)) forked_lem
      fork-Forks_example).0

child : Proc
unfolding forked
child = elim (get_elem? forked.procs 1) [ none ↦ blank_proc | some p ↦ p ]

child-Slot : Slot forked.procs 1 child
unfolding child
child-Slot = refl

-- The child's fields, as fork() set them.
child_fields :
    (child.pid ≡ 2) × (child.parent ≡ some 0) × (child.state ≡ runnable) × (child.uid ≡ 69)
unfolding child
child_fields = (refl, refl, refl, refl)

child-alive : is_alive child.state ≡ true
unfolding child
child-alive = refl

not_init : same_slot forked.initproc 1 ≡ false
unfolding forked
not_init = refl

exit-Dead_example : Post (λ l. Dead 1 child.pid l.table) (exit syms services 1 forked)
exit-Dead_example = exit-Dead syms services 1 child forked child-Slot child-alive not_init forked-Wf

parent_proc : Proc
unfolding forked
parent_proc = elim (get_elem? forked.procs 0) [ none ↦ blank_proc | some p ↦ p ]

parent-Slot : Slot forked.procs 0 parent_proc
unfolding parent_proc
parent-Slot = refl

parent-alive : is_alive parent_proc.state ≡ true
unfolding parent_proc
parent-alive = refl

wait-Waits_example : Post (Waits syms services 0 parent_proc forked) (wait syms services 0 forked)
wait-Waits_example =
    wait-Waits syms services 0 parent_proc forked parent-Slot parent-alive forked-Wf

init_running : init_proc.state ≡ running
unfolding init_proc
init_running = refl

booted_runnable : (p : Proc) × Slot booted.procs 0 p × (p.state ≡ runnable)
unfolding booted
booted_runnable = (elim (get_elem? booted.procs 0) [ none ↦ blank_proc | some p ↦ p ], refl, refl)

to_forked : Reach syms services booted forked
to_forked =
    next (next here (dispatches 0 booted_runnable.0 booted_runnable.1 booted_runnable.2 refl))
      (forks 0 init_proc (some 2) init-Slot init_running started_pids forked_lem)

boot-Wf_example : Wf forked.table
boot-Wf_example = boot-Wf syms services blank_kernel blank_table-IsBlank booted_lem to_forked

forked_size : length forked.procs ≤ nproc
unfolding forked
forked_size = omega arith

adopt_all-map_example :
    adopt_all 1 forked.initproc nproc 0 forked.procs
    ≡ map (adopted 1 forked.initproc true (zombie_kid 1 nproc 0 forked.procs)) forked.procs
adopt_all-map_example = adopt_all-map 1 forked.initproc forked.procs forked_size not_init
