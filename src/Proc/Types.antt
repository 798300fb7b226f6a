-- ===== src/Proc/Types.antt =====
-- proc.h: processes, and what they sleep on.
use spring18cs.Base.{ℕ, Bool, true, false, List, Option, none, some, ◌==◌}

-- `enum procstate`
pub data State : Type 0 where
  unused embryo sleeping runnable running zombie : State

-- the enum's numbers
abbrev pub code : State → ℕ
code unused = 0
code embryo = 1
code sleeping = 2
code runnable = 3
code running = 4
code zombie = 5

-- `p->state == s`
abbrev pub in_state : State → State → Bool
in_state s t = code s == code t

-- What a `void *chan` points to: nothing, a slot of the process table, a field of a pipe, the tick
-- counter, or something else at an address.
pub data Chan : Type 0 where
  no_chan : Chan
  proc_chan : ℕ → Chan
  nread_chan : ℕ → Chan
  nwrite_chan : ℕ → Chan
  ticks_chan : Chan
  other_chan : ℕ → Chan

abbrev pub same_chan : Chan → Chan → Bool
same_chan no_chan no_chan = true
same_chan (proc_chan i) (proc_chan j) = i == j
same_chan (nread_chan i) (nread_chan j) = i == j
same_chan (nwrite_chan i) (nwrite_chan j) = i == j
same_chan ticks_chan ticks_chan = true
same_chan (other_chan i) (other_chan j) = i == j
same_chan _ _ = false

-- `struct trapframe`: the registers that proc.c names, and the others in order.
pub record TrapFrame : Type 0 where
  pub eax : ℕ
  pub eip : ℕ
  pub esp : ℕ
  pub eflags : ℕ
  pub cs : ℕ
  pub ds : ℕ
  pub es : ℕ
  pub ss : ℕ
  pub rest : List ℕ

-- `struct context`
pub record Context : Type 0 where
  pub edi : ℕ
  pub esi : ℕ
  pub ebx : ℕ
  pub ebp : ℕ
  pub eip : ℕ

-- `struct proc`, with CS333_P1 and CS333_P2. A `struct proc *` is an index into `ptable.proc`, a
-- `struct file *` one into `ftable.file`, a `struct inode *` one into the inode cache; `none` is 0.
-- `tf` and `context` are what the two pointers point to, `tf_at` and `context_at` the pointers.
pub record Proc : Type 0 where
  pub sz : ℕ
  pub pgdir : ℕ
  pub kstack : ℕ
  pub state : State
  pub pid : ℕ
  pub parent : Option ℕ
  pub tf_at : ℕ
  pub tf : TrapFrame
  pub context_at : ℕ
  pub context : Context
  pub chan : Chan
  pub killed : Bool
  pub ofile : List (Option ℕ)
  pub cwd : Option ℕ
  pub name : List ℕ
  pub start_ticks : ℕ
  pub uid : ℕ
  pub gid : ℕ
  pub cpu_ticks_total : ℕ
  pub cpu_ticks_in : ℕ

-- `ptable.proc`, with `nextpid` and `initproc`
pub record Table : Type 0 where
  pub procs : List Proc
  pub next_pid : ℕ
  pub initproc : Option ℕ

-- NPROC
abbrev pub nproc : ℕ
nproc = 64

-- NOFILE
abbrev pub nofile : ℕ
nofile = 16

-- `p == q` on pointers into the table
abbrev pub same_slot : Option ℕ → ℕ → Bool
same_slot none i = false
same_slot (some j) i = j == i
