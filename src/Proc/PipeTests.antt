-- ===== src/Proc/PipeTests.antt =====
-- pipe.c: a reader that sleeps on an empty pipe, and a writer that wakes it.
use spring18cs.Base.{
  Returns, get_elem?-replicate, arith, zero, suc, Bool, modify, ℕ, ◌≡◌, refl, true, [], ◌∷◌,
  replicate, ok, panic, Outcome,
}
use spring18cs.Pipe.{Pipe, pipewrite, piperead, put_byte}
use spring18cs.Proc.Types.{Proc, running, Chan}
use spring18cs.Proc.Table.{sleep, sched, wakeup1}
use spring18cs.Proc.Kernel.{Kernel}
use spring18cs.Proc.Create.{set_procs}
use spring18cs.Proc.PipeCalls.{
  pipealloc, Call, returned, fails, blocks, write_call, read_call, end_write, end_read,
}
use spring18cs.Proc.Wakeups.{Served, Rests}
use spring18cs.Proc.PipeSystem.{here, next, writes, read_blocks, Reach-Served}
use spring18cs.Proc.PipeAlloc.{Idle, Makes, pipealloc-Makes}
use spring18cs.Proc.Machine.{blank_file, syms, services, blank_kernel, blank_proc}

abbrev runner : Proc
runner = record blank_proc { state = running }

abbrev a_pipe : Pipe
a_pipe = record {
  bytes = replicate 512 1;
  nread = 0;
  nwrite = 0;
  readopen = true;
  writeopen = true;
}

-- Two processes at a pipe that was just made, on two processors.
abbrev two_runners : Kernel ℕ
two_runners = record (set_procs blank_kernel (runner ∷ runner ∷ [])) { pipes = λ _. a_pipe }

abbrev after : {A B : Type 0} → Outcome (Call A B (Kernel ℕ)) → Kernel ℕ
after (ok (returned a l)) = l
after (ok (fails l)) = l
after (ok (blocks b l)) = l
after (panic m) = two_runners

reader_asleep : Kernel ℕ
unfolding read_call end_read piperead sleep sched
reader_asleep = after (read_call 0 0x8040_0000 4 two_runners)

reader_asleep_lem : read_call 0 0x8040_0000 4 two_runners ≡ ok (blocks tt reader_asleep)
unfolding reader_asleep modify
reader_asleep_lem = refl

byte_written : Kernel ℕ
unfolding reader_asleep write_call end_write pipewrite put_byte wakeup1
byte_written = after (write_call 1 0x8040_0000 (104 ∷ []) reader_asleep)

byte_written_lem : write_call 1 0x8040_0000 (104 ∷ []) reader_asleep ≡ ok (returned tt byte_written)
unfolding byte_written modify
byte_written_lem = refl

calm : (chan : Chan) (b : Bool) → Rests chan b (runner ∷ runner ∷ [])
calm chan b zero p s a = let same : runner ≡ p = ground arith in cc
calm chan b (suc zero) p s a = let same : runner ≡ p = ground arith in cc
calm chan b (suc (suc i)) p s a = cc

two_runners-Served : Served 0x8040_0000 two_runners
two_runners-Served = record { readers = calm _ _; writers = calm _ _ }

Reach-Served_example : Served 0x8040_0000 byte_written
Reach-Served_example =
    Reach-Served syms services 0x8040_0000 two_runners-Served
      (next (next here (read_blocks 0 4 reader_asleep_lem)) (writes 1 (104 ∷ []) byte_written_lem))

-- The small machine has a hundred idle files and three free pages.
blank-Idle : Idle blank_kernel.ftable
blank-Idle i f s z = rw (get_elem?-replicate 100 blank_file i f s) refl

pipealloc-Makes_example :
    Returns (Makes syms services blank_kernel) (pipealloc syms services blank_kernel)
pipealloc-Makes_example = pipealloc-Makes syms services blank_kernel blank-Idle
