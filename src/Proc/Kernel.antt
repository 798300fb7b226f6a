-- ===== src/Proc/Kernel.antt =====
-- What proc.c works on beyond the process table: the page allocator, the open files, the pipes and
-- the file system. A function that runs with all of it takes and returns a `Kernel`.
use spring18cs.Base.{ℕ, Bool, List, Option, Outcome, ok, ◌>>=◌, if◌then◌else◌, ◌==◌}
use spring18cs.Kalloc.{Kmem, kfree}
use spring18cs.Files.{File, Close, nothing, close_pipe, put_inode, fileclose}
use spring18cs.Pipe.{Pipe, close_end}
use spring18cs.Proc.Types.{Table, nread_chan, nwrite_chan}
use spring18cs.Proc.Table.{wakeup1}

-- Addresses that the linker sets.
pub record Symbols : Type 0 where
  pub end_addr : ℕ
  pub forkret : ℕ
  pub trapret : ℕ

-- `F` is the state of the file system below the open files: inode cache, log and disk.
pub record Kernel (F : Type 0) : Type 0 where
  pub table : Table
  pub open table use *
  pub ticks : ℕ
  pub kmem : Kmem
  pub ftable : List File
  pub pipes : ℕ → Pipe
  pub fs : F

-- What proc.c calls of vm.c and fs.c. A page directory is its address, and 0 where there is none.
pub record Services (F : Type 0) : Type 0 where
  pub setupkvm : Kmem → ℕ × Kmem
  pub inituvm : ℕ → Kmem → Outcome Kmem
  pub copyuvm : ℕ → ℕ → Kmem → ℕ × Kmem
  pub freevm : ℕ → Kmem → Outcome Kmem
  pub allocuvm : ℕ → ℕ → ℕ → Kmem → ℕ × Kmem
  pub deallocuvm : ℕ → ℕ → ℕ → Kmem → ℕ × Kmem
  pub idup : ℕ → F → F
  -- begin_op(); iput(); end_op()
  pub put_inode_op : ℕ → F → Outcome F
  pub namei : List ℕ → F → Option ℕ × F

module _ {F : Type 0} (syms : Symbols) (sv : Services F) where
  -- pipeclose()
  unfoldable pub pipeclose : ℕ → Bool → Kernel F → Outcome (Kernel F)
  pipeclose at writable k =
      let (q, unused_now) = close_end writable (k.pipes at) in
      let chan = if writable then nread_chan at else nwrite_chan at in
      let k' : Kernel F = record k {
        table = record (k.table) { procs = wakeup1 chan k.procs };
        pipes = λ a. if a == at then q else k.pipes a;
      } in
      if unused_now
      then (do m ← kfree syms.end_addr at k'.kmem; ok (record k' { kmem = m }))
      else ok k'

  -- what fileclose() does when the last reference is gone
  unfoldable pub finish_close : Close → Kernel F → Outcome (Kernel F)
  finish_close nothing k = ok k
  finish_close (close_pipe at writable) k = pipeclose at writable k
  finish_close (put_inode ip) k = do f ← sv.put_inode_op ip k.fs; ok (record k { fs = f })

  -- fileclose(), whole
  unfoldable pub close_file : ℕ → Kernel F → Outcome (Kernel F)
  close_file i k = do
    (todo, ft) ← fileclose i k.ftable
    finish_close todo (record k { ftable = ft })
