-- ===== src/Syscall/Tests.antt =====
-- syscall.c: the theorem on a process of 64 bytes.
use spring18cs.Base.{ℕ, ◌≡◌, ◌<◌, ◌≤◌, ◌+◌, [], false, arith, none, ◌==◌, if◌then◌else◌}
use spring18cs.CString.Memory.{Memory}
use spring18cs.Fs.{read32}
use spring18cs.Proc.Types.{Proc, running, no_chan}
use spring18cs.Syscall.{argint, argptr, argstr}
use spring18cs.Syscall.Args.{args_inside, IsString, WhereSome}

-- The stack is at 16, and the first argument at 20.
abbrev caller : Proc
caller = record {
  sz = 64;
  pgdir = 0;
  kstack = 0;
  state = running;
  pid = 1;
  parent = none;
  tf_at = 0;
  tf = record { eax = 0; eip = 0; esp = 16; eflags = 0; cs = 0; ds = 0; es = 0; ss = 0; rest = [] };
  context_at = 0;
  context = record { edi = 0; esi = 0; ebx = 0; ebp = 0; eip = 0 };
  chan = no_chan;
  killed = false;
  ofile = [];
  cwd = none;
  name = [];
  start_ticks = 0;
  uid = 0;
  gid = 0;
  cpu_ticks_total = 0;
  cpu_ticks_in = 0;
}

-- The argument is 40, where the string hi stands.
abbrev its_memory : Memory
its_memory a = if a == 20 then 40 else if a == 40 then 104 else if a == 41 then 105 else 0

args_inside_example :
    WhereSome
      (λ w. (addr : ℕ) × (addr + 4 ≤ 64) × (w ≡ read32 its_memory addr))
      (argint caller its_memory 0)
    × WhereSome (λ at. (at < 64) × (at + 8 ≤ 64)) (argptr caller its_memory 0 8)
    × WhereSome (IsString 64 its_memory) (argstr caller its_memory 0)
args_inside_example = args_inside caller its_memory 0 8 (omega arith) (omega arith)
