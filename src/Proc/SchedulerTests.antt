-- ===== src/Proc/SchedulerTests.antt =====
-- proc.c: a scheduler that finds two processes.
use spring18cs.Base.{◌<◌, refl, ◌∷◌, List, replicate, arith, first_index}
use spring18cs.Proc.Types.{Proc, runnable, nproc}
use spring18cs.Proc.Table.{next_runnable}
use spring18cs.Proc.Scheduler.{Passes, stops, runs, Passes-few}
use spring18cs.Proc.Machine.{blank_proc}

abbrev waiting : Proc
waiting = record blank_proc { state = runnable }

abbrev two_waiting : List Proc
two_waiting = waiting ∷ waiting ∷ replicate 62 blank_proc

-- The process in slot 0 comes before the one in slot 1.
one_before : Passes 1 0 1
unfolding next_runnable first_index
one_before = runs 0 0 0 two_waiting refl (waiting, refl, refl) refl (λ e. omega arith) (stops 1)

Passes-few_example : 1 < nproc
Passes-few_example = Passes-few (omega arith) (omega arith) one_before
