-- ===== src/Proc/Machine.antt =====
-- A small machine on which the tests of proc.c run: three free pages, and services that always
-- succeed.
use spring18cs.Base.{ℕ, ◌+◌, ◌-◌, true, false, [], none, some, ◌==◌, if◌then◌else◌, ok, replicate}
use spring18cs.Kalloc.{Kmem}
use spring18cs.Files.{File, fd_none}
use spring18cs.Pipe.{Pipe}
use spring18cs.Proc.Types.{unused, no_chan, TrapFrame, Context, Proc, Table}
use spring18cs.Proc.Kernel.{Symbols, Kernel, Services}

abbrev pub blank_frame : TrapFrame
blank_frame = record {
  eax = 0;
  eip = 0;
  esp = 0;
  eflags = 0;
  cs = 0;
  ds = 0;
  es = 0;
  ss = 0;
  rest = [];
}

abbrev pub blank_context : Context
blank_context = record { edi = 0; esi = 0; ebx = 0; ebp = 0; eip = 0 }

abbrev pub blank_proc : Proc
blank_proc = record {
  sz = 0;
  pgdir = 0;
  kstack = 0;
  state = unused;
  pid = 0;
  parent = none;
  tf_at = 0;
  tf = blank_frame;
  context_at = 0;
  context = blank_context;
  chan = no_chan;
  killed = false;
  ofile = replicate 16 none;
  cwd = none;
  name = replicate 16 0;
  start_ticks = 0;
  uid = 0;
  gid = 0;
  cpu_ticks_total = 0;
  cpu_ticks_in = 0;
}

abbrev pub blank_table : Table
blank_table = record { procs = replicate 64 blank_proc; next_pid = 1; initproc = none }

-- Pages at 0x80400000, 0x80401000 and 0x80402000, chained in this order.
abbrev pub small_kmem : Kmem
small_kmem = record {
  mem =
      λ a. if a == 0x8040_0000 then 0x8040_1000 else (if a == 0x8040_1000 then 0x8040_2000 else 0);
  use_lock = true;
  freelist = 0x8040_0000;
}

abbrev pub blank_pipe : Pipe
blank_pipe = record { bytes = []; nread = 0; nwrite = 0; readopen = false; writeopen = false }

abbrev pub blank_file : File
blank_file = record {
  type = fd_none;
  ref = 0;
  readable = false;
  writable = false;
  pipe = 0;
  ip = 0;
  off = 0;
}

abbrev pub syms : Symbols
syms = record { end_addr = 0x8010_0000; forkret = 0x8010_3000; trapret = 0x8010_4000 }

-- The file system of this machine counts the references to its one inode.
abbrev pub services : Services ℕ
services = record {
  setupkvm = λ m. (0x8030_0000, m);
  inituvm = λ d m. ok m;
  copyuvm = λ d sz m. (0x8031_0000, m);
  freevm = λ d m. ok m;
  allocuvm = λ d old new m. (new, m);
  deallocuvm = λ d old new m. (new, m);
  idup = λ ip f. f + 1;
  put_inode_op = λ ip f. ok (f - 1);
  namei = λ path f. (some 0, f + 1);
}

abbrev pub blank_kernel : Kernel ℕ
blank_kernel = record {
  table = blank_table;
  ticks = 10;
  kmem = small_kmem;
  ftable = replicate 100 blank_file;
  pipes = λ a. blank_pipe;
  fs = 0;
}
