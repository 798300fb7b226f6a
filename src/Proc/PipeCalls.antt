-- ===== src/Proc/PipeCalls.antt =====
-- pipe.c: pipealloc(), pipewrite() and piperead() on the whole kernel, with the wake-ups and the
-- sleeps that the calls of Pipe leave out.
use spring18cs.Base.{
  ℕ, Bool, true, false, List, Option, none, some, ◌==◌, if◌then◌else◌, get_elem?, modify, replicate,
  Outcome, ok, panic, ◌>>=◌,
}
use spring18cs.Kalloc.{kalloc}
use spring18cs.Files.{File, fd_pipe, filealloc}
use spring18cs.Pipe.{
  Pipe, pipe_size, fresh, pipewrite, Writing, wrote, write_fails, write_sleeps, piperead, Reading,
  did_read, read_fails, read_sleeps,
}
use spring18cs.Proc.Types.{Chan, nread_chan, nwrite_chan}
use spring18cs.Proc.Table.{wakeup1, sleep}
use spring18cs.Proc.Kernel.{Symbols, Kernel, Services, close_file}
use spring18cs.Proc.Create.{set_procs}

-- How a call stands: it returned a value, it returned -1, or its process sleeps in it, with what is
-- left to do.
pub data Call (A : Type 0) (B : Type 0) (K : Type 0) : Type 0 where
  returned : A → K → Call A B K
  fails : K → Call A B K
  blocks : B → K → Call A B K

-- What filealloc()'s files become.
abbrev pub pipe_end : ℕ → Bool → File → File
pipe_end at writable f = record f {
  type = fd_pipe;
  readable = if writable then false else true;
  writable = writable;
  pipe = at;
}

module _ {F : Type 0} where
  abbrev pub set_pipe : ℕ → Pipe → Kernel F → Kernel F
  set_pipe at p k = record k { pipes = λ a. if a == at then p else k.pipes a }

  -- wakeup()
  abbrev pub wakeup : Chan → Kernel F → Kernel F
  wakeup chan k = set_procs k (wakeup1 chan k.procs)

  -- The end of pipewrite(), or of its round.
  unfoldable pub end_write : ℕ → ℕ → Writing → Kernel F → Outcome (Call Unit (List ℕ) (Kernel F))
  end_write me at (wrote q) k = ok (returned tt (wakeup (nread_chan at) (set_pipe at q k)))
  end_write me at (write_fails q rest) k = ok (fails (set_pipe at q k))
  end_write me at (write_sleeps q rest) k = do
    let k' : Kernel F = wakeup (nread_chan at) (set_pipe at q k)
    ps ← sleep k'.ticks me (nwrite_chan at) k'.procs
    ok (blocks rest (set_procs k' ps))

  -- pipewrite() of `cs` by process `me` on the pipe at `at`, up to the return or to the switch. A
  -- process that goes on calls it again with the bytes that are left.
  unfoldable pub write_call : ℕ → ℕ → List ℕ → Kernel F → Outcome (Call Unit (List ℕ) (Kernel F))
  write_call me at cs k = elim (get_elem? k.procs me) [
    | none ↦ panic "wild process pointer"
    | some p ↦ end_write me at (pipewrite p.killed (k.pipes at) cs) k
  ]

  unfoldable pub end_read : ℕ → ℕ → Reading → Kernel F → Outcome (Call (List ℕ) Unit (Kernel F))
  end_read me at (did_read cs q) k = ok (returned cs (wakeup (nwrite_chan at) (set_pipe at q k)))
  end_read me at read_fails k = ok (fails k)
  end_read me at read_sleeps k = do
    ps ← sleep k.ticks me (nread_chan at) k.procs
    ok (blocks tt (set_procs k ps))

  -- piperead(), likewise
  unfoldable pub read_call : ℕ → ℕ → ℕ → Kernel F → Outcome (Call (List ℕ) Unit (Kernel F))
  read_call me at n k = elim (get_elem? k.procs me) [
    | none ↦ panic "wild process pointer"
    | some p ↦ end_read me at (piperead p.killed (k.pipes at) n) k
  ]

module _ {F : Type 0} (syms : Symbols) (sv : Services F) where
  -- The end of pipealloc(), where both files are there. A page that kalloc() returns holds what
  -- kfree() filled it with, but for its first word, which is part of the lock.
  unfoldable pub alloc_page : ℕ → ℕ → Kernel F → Outcome (Option (ℕ × ℕ) × Kernel F)
  alloc_page i j k =
      let (at, m) = kalloc k.kmem in
      let k' : Kernel F = record k { kmem = m } in
      if at == 0
      then (do k1 ← close_file syms sv i k'; k2 ← close_file syms sv j k1; ok (none, k2))
      else ok (
        some (i, j),
        set_pipe at (fresh (replicate pipe_size 1)) (record k' {
          ftable = modify (modify k.ftable i (pipe_end at false)) j (pipe_end at true);
        }),
      )

  unfoldable pub alloc_second : ℕ → Kernel F → Outcome (Option (ℕ × ℕ) × Kernel F)
  alloc_second i k =
      let (slot, ft) = filealloc k.ftable in
      elim slot [
        | none ↦ (do k' ← close_file syms sv i k; ok (none, k'))
        | some j ↦ alloc_page i j (record k { ftable = ft })
      ]

  -- pipealloc(): the files of the two ends, or `none` for -1
  unfoldable pub pipealloc : Kernel F → Outcome (Option (ℕ × ℕ) × Kernel F)
  pipealloc k =
      let (slot, ft) = filealloc k.ftable in
      elim slot [ none ↦ ok (none, k) | some i ↦ alloc_second i (record k { ftable = ft }) ]
