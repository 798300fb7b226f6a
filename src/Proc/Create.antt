-- ===== src/Proc/Create.antt =====
-- proc.c: allocproc(), userinit(), fork() and growproc().
use spring18cs.Base.{
  ℕ, ◌+◌, ◌-◌, ◌%◌, ◌^◌, List, [], ◌∷◌, Bool, true, false, ltb, ◌*◌, Option, none, some, ◌==◌,
  if◌then◌else◌, get_elem?, modify, first_index, Outcome, ok, panic, ◌>>=◌,
}
use spring18cs.CString.{safestrcpy}
use spring18cs.Kalloc.{kalloc, kfree, store_word, page_size, Kmem}
use spring18cs.Files.{File, filedup}
use spring18cs.Proc.Types.{unused, embryo, runnable, in_state, TrapFrame, Proc, Table}
use spring18cs.Proc.Kernel.{Symbols, Kernel, Services}

-- KSTACKSIZE
abbrev pub kstack_size : ℕ
kstack_size = 4096

-- sizeof(struct trapframe) and sizeof(struct context)
abbrev pub sizeof_tf : ℕ
sizeof_tf = 76

abbrev pub sizeof_context : ℕ
sizeof_context = 20

-- DEFAULT_UID and DEFAULT_GID
abbrev pub default_uid : ℕ
default_uid = 69

abbrev pub default_gid : ℕ
default_gid = 420

abbrev pub set_procs : {F : Type 0} → Kernel F → List Proc → Kernel F
set_procs k ps = record k { table = record (k.table) { procs = ps } }

-- Changes the process in slot `i`.
abbrev pub update : {F : Type 0} → ℕ → (Proc → Proc) → Kernel F → Kernel F
update i f k = set_procs k (modify k.procs i f)

-- What allocproc() sets up once it has a stack. The frame at `tf_at` holds what the page held;
-- the model keeps the old `tf` until a caller has written it.
abbrev pub embryo_on : Symbols → ℕ → ℕ → Proc → Proc
embryo_on syms stack ticks p =
    let sp = stack + kstack_size - sizeof_tf in
    record p {
      kstack = stack;
      tf_at = sp;
      context_at = sp - 4 - sizeof_context;
      context = record { edi = 0; esi = 0; ebx = 0; ebp = 0; eip = syms.forkret };
      start_ticks = ticks;
      cpu_ticks_total = 0;
      cpu_ticks_in = 0;
    }

-- The first half of allocproc(), under the lock: the slot, now EMBRYO, with the next pid.
unfoldable pub claim_slot : Table → Option ℕ × Table
claim_slot t = elim (first_index (λ p. in_state p.state unused) t.procs) [
  | none ↦ (none, t)
  | some i ↦ (
    some i,
    record t {
      procs = modify t.procs i (λ p. record p { state = embryo; pid = t.next_pid });
      next_pid = (t.next_pid + 1) % 2 ^ 32;
    },
  )
]

module _ {F : Type 0} (syms : Symbols) where
  -- The second half of allocproc(): the kernel stack of the claimed slot.
  unfoldable pub give_stack : ℕ → Kernel F → Option ℕ × Kernel F
  give_stack i k =
      let (stack, m) = kalloc k.kmem in
      let sp = stack + kstack_size - sizeof_tf - 4 in
      if stack == 0
      then (none, update i (λ p. record p { kstack = 0; state = unused }) (record k { kmem = m }))
      else (
        some i,
        update i (embryo_on syms stack k.ticks)
            (record k { kmem = record m { mem = store_word sp syms.trapret m.mem } }),
      )

  -- allocproc(): the slot, or `none` for 0
  unfoldable pub allocproc : Kernel F → Option ℕ × Kernel F
  allocproc k =
      let (slot, t) = claim_slot k.table in
      let k' : Kernel F = record k { table = t } in
      elim slot [ none ↦ (none, k') | some i ↦ give_stack i k' ]

-- The loop over the open files in fork(): each is dup'ed, and the child has the parent's list.
unfoldable pub dup_files : List (Option ℕ) → List File → Outcome (List File)
dup_files [] ft = ok ft
dup_files (none ∷ fds) ft = dup_files fds ft
dup_files (some i ∷ fds) ft = do ft' ← filedup i ft; dup_files fds ft'

-- `np->ofile[i] = filedup(...)` where the parent's entry is not 0; elsewhere the slot keeps what
-- it has.
unfoldable pub copy_fds : List (Option ℕ) → List (Option ℕ) → List (Option ℕ)
copy_fds [] old = old
copy_fds (fd ∷ fds) [] = []
copy_fds (none ∷ fds) (o ∷ old) = o ∷ copy_fds fds old
copy_fds (some i ∷ fds) (o ∷ old) = some i ∷ copy_fds fds old

-- What fork() copies into the child's slot.
abbrev pub child_of : ℕ → ℕ → Proc → Proc → Proc
child_of me d par p = record p {
  pgdir = d;
  sz = par.sz;
  parent = some me;
  tf = record (par.tf) { eax = 0 };
  uid = par.uid;
  gid = par.gid;
  ofile = copy_fds par.ofile p.ofile;
  cwd = par.cwd;
  name = safestrcpy p.name par.name 16;
  state = runnable;
}

module _ {F : Type 0} (sv : Services F) where
  -- `idup(proc->cwd)`
  unfoldable pub dup_cwd : Option ℕ → F → Outcome F
  dup_cwd none f = panic "wild inode pointer"
  dup_cwd (some ip) f = ok (sv.idup ip f)

module _ {F : Type 0} (syms : Symbols) (sv : Services F) where
  -- fork() where copyuvm() failed
  unfoldable pub undo_fork : ℕ → ℕ → Kernel F → Outcome (Option ℕ × Kernel F)
  undo_fork i stack k = do
    m ← kfree syms.end_addr stack k.kmem
    ok (
      none,
      update i (λ p. record p { kstack = 0; state = unused; pgdir = 0 }) (record k { kmem = m }),
    )

  -- fork() where copyuvm() made the directory `d`
  unfoldable pub finish_fork : ℕ → Proc → ℕ → ℕ → ℕ → Kernel F → Outcome (Option ℕ × Kernel F)
  finish_fork me par i pid d k = do
    ft ← dup_files par.ofile k.ftable
    fs' ← dup_cwd sv par.cwd k.fs
    ok (some pid, update i (child_of me d par) (record k { ftable = ft; fs = fs' }))

  -- fork() once it has a slot `i`
  unfoldable pub fork_into : ℕ → Proc → ℕ → Kernel F → Outcome (Option ℕ × Kernel F)
  fork_into me par i k = elim (get_elem? k.procs i) [
    | none ↦ panic "wild process pointer"
    | some np ↦
        let (d, m) = sv.copyuvm par.pgdir par.sz k.kmem in
        let k' : Kernel F = record k { kmem = m } in
        if d == 0 then undo_fork i np.kstack k' else finish_fork me par i np.pid d k'
  ]

  -- fork(): the child's pid, or `none` for -1
  unfoldable pub fork : ℕ → Kernel F → Outcome (Option ℕ × Kernel F)
  fork me k = elim (get_elem? k.procs me) [
    | none ↦ panic "wild process pointer"
    | some par ↦
        let (slot, k') = allocproc syms k in
        elim slot [ none ↦ ok (none, k') | some i ↦ fork_into me par i k' ]
  ]

-- The frame that userinit() builds: user segments, interrupts on, the stack at the end of the page.
unfoldable pub init_frame : TrapFrame
init_frame = record {
  eax = 0;
  eip = 0;
  esp = page_size;
  eflags = 0x200;
  cs = 4 * 8 + 3;
  ds = 5 * 8 + 3;
  es = 5 * 8 + 3;
  ss = 5 * 8 + 3;
  rest = [];
}

-- "initcode" and "/", with their NULs
abbrev pub initcode : List ℕ
initcode = b'i' ∷ b'n' ∷ b'i' ∷ b't' ∷ b'c' ∷ b'o' ∷ b'd' ∷ b'e' ∷ 0 ∷ []

abbrev pub root_path : List ℕ
root_path = b'/' ∷ 0 ∷ []

abbrev pub first_process : ℕ → ℕ → Option ℕ → Proc → Proc
first_process i d cwd p = record p {
  pgdir = d;
  sz = page_size;
  tf = init_frame;
  parent = some i;
  uid = default_uid;
  gid = default_gid;
  name = safestrcpy p.name initcode 16;
  cwd = cwd;
  state = runnable;
}

-- The end of growproc(): a size of 0 is the failure of allocuvm() or deallocuvm().
unfoldable pub resize : {F : Type 0} → ℕ → ℕ → Kmem → Kernel F → Bool × Kernel F
resize me sz m k =
    if sz == 0
    then (false, record k { kmem = m })
    else (true, update me (λ q. record q { sz = sz }) (record k { kmem = m }))

module _ {F : Type 0} (syms : Symbols) (sv : Services F) where
  -- userinit() once it has the slot `i`
  unfoldable pub start_init : ℕ → Kernel F → Outcome (Kernel F)
  start_init i k =
      let (d, m) = sv.setupkvm k.kmem in
      if d == 0 then panic "userinit: out of memory?" else (do
        m' ← sv.inituvm d m
        let (cwd, f) = sv.namei root_path k.fs
        ok (
            update i (first_process i d cwd)
              (record k { table = record (k.table) { initproc = some i }; kmem = m'; fs = f })))

  -- userinit(). Without a slot it works on a null pointer.
  unfoldable pub userinit : Kernel F → Outcome (Kernel F)
  userinit k =
      let (slot, k') = allocproc syms k in
      elim slot [ none ↦ panic "null process pointer" | some i ↦ start_init i k' ]

  -- growproc(). `n` is the bit pattern of an `int`; `false` is -1.
  unfoldable pub growproc : ℕ → ℕ → Kernel F → Outcome (Bool × Kernel F)
  growproc me n k = elim (get_elem? k.procs me) [
    | none ↦ panic "wild process pointer"
    | some p ↦
        let size = (p.sz + n) % 2 ^ 32 in
        let (grown, m) = sv.allocuvm p.pgdir p.sz size k.kmem in
        let (shrunk, m') = sv.deallocuvm p.pgdir p.sz size k.kmem in
        if n == 0
        then ok (true, k)
        else ok (if ltb n (2 ^ 31) then resize me grown m k else resize me shrunk m' k)
  ]
