-- ===== src/Syscall.antt =====
-- syscall.c and sysproc.c: the arguments of system calls, which the caller's memory holds, and the
-- calls about the caller itself. `int` values are bit patterns, and -1 is `none`.
pub mod Args
mod Tests
use spring18cs.Base.{
  ℕ, zero, suc, ◌+◌, ◌-◌, ◌*◌, ◌/◌, ◌%◌, ◌^◌, Bool, true, false, ◌&&◌, ◌||◌, not, ltb, leb, ◌==◌,
  if◌then◌else◌, List, [], ◌∷◌, Option, none, some, get_elem?, length, Outcome, ok, panic, ◌>>=◌,
}
use spring18cs.CString.Memory.{Memory, set_word}
use spring18cs.Fs.{read32}
use spring18cs.Proc.Types.{Proc, code, in_state, unused}
use spring18cs.CString.{safestrcpy}

-- fetchint(). `sz` is proc->sz.
unfoldable pub fetchint : ℕ → Memory → ℕ → Option ℕ
fetchint sz mem addr =
    if leb sz addr || ltb sz ((addr + 4) % 2 ^ 32) then none else some (read32 mem addr)

-- The loop of fetchstr(), with `n` bytes up to the end: the length of the string at `s`.
unfoldable pub string_to : ℕ → ℕ → Memory → Option ℕ
string_to zero s mem = none
string_to (suc n) s mem =
    let rest = string_to n (s + 1) mem in
    if mem s == 0 then some 0 else elim rest [ none ↦ none | some len ↦ some (suc len) ]

-- fetchstr(): the address, and the length
unfoldable pub fetchstr : ℕ → Memory → ℕ → Option (ℕ × ℕ)
fetchstr sz mem addr =
    if leb sz addr
    then none
    else elim (string_to (sz - addr) addr mem) [ none ↦ none | some len ↦ some (addr, len) ]

-- argint()
unfoldable pub argint : Proc → Memory → ℕ → Option ℕ
argint p mem n = fetchint p.sz mem ((p.tf.esp + 4 + 4 * n) % 2 ^ 32)

-- argptr()
unfoldable pub argptr : Proc → Memory → ℕ → ℕ → Option ℕ
argptr p mem n size = elim (argint p mem n) [
  | none ↦ none
  | some i ↦ if leb p.sz i || ltb p.sz ((i + size) % 2 ^ 32) then none else some i
]

-- argstr()
unfoldable pub argstr : Proc → Memory → ℕ → Option (ℕ × ℕ)
argstr p mem n = elim (argint p mem n) [ none ↦ none | some addr ↦ fetchstr p.sz mem addr ]

-- sys_getpid(), sys_getuid(), sys_getgid()
abbrev pub sys_getpid : Proc → ℕ
sys_getpid p = p.pid

abbrev pub sys_getuid : Proc → ℕ
sys_getuid p = p.uid

abbrev pub sys_getgid : Proc → ℕ
sys_getgid p = p.gid

-- sys_getppid(). A parent that is not in the table would be a wild pointer.
unfoldable pub sys_getppid : Proc → List Proc → Outcome ℕ
sys_getppid p ps = elim p.parent [
  | none ↦ ok p.pid
  | some i ↦ elim (get_elem? ps i) [ some q ↦ ok q.pid | none ↦ panic "wild pointer" ]
]

-- The local variable `num`: what argint() has stored there, or what the stack held, since its
-- result is not tested.
abbrev pub num_of : Option ℕ → ℕ → ℕ
num_of got stack = elim got [ some w ↦ w | none ↦ stack ]

-- sys_setuid(), with `num` as above: whether it returns 1
unfoldable pub sys_setuid : ℕ → Proc → Memory → Bool × Proc
sys_setuid stack p mem =
    let num = num_of (argint p mem 0) stack in
    if leb num 32767 then (true, record p { uid = num }) else (false, p)

-- sys_setgid()
unfoldable pub sys_setgid : ℕ → Proc → Memory → Bool × Proc
sys_setgid stack p mem =
    let num = num_of (argint p mem 0) stack in
    if leb num 32767 then (true, record p { gid = num }) else (false, p)

-- How a sys_sleep() stands: it returned 0, it returned -1, or it sleeps on the clock.
pub data Napping : Type 0 where
  napped nap_fails naps : Napping

-- A round of the loop of sys_sleep(), for `n` ticks since `ticks0`. The test is one of `uint`s.
unfoldable pub nap : ℕ → ℕ → ℕ → Bool → Napping
nap ticks ticks0 n killed =
    if ltb ((ticks + 2 ^ 32 - ticks0) % 2 ^ 32) n
    then (if killed then nap_fails else naps)
    else napped

-- `struct uproc`
pub record Uproc : Type 0 where
  pub pid : ℕ
  pub uid : ℕ
  pub gid : ℕ
  pub ppid : ℕ
  pub elapsed_ticks : ℕ
  pub total_ticks : ℕ
  pub state : List ℕ
  pub size : ℕ
  pub prio : ℕ
  pub name : List ℕ

-- convert_state()
abbrev pub convert_state : ℕ → List ℕ
convert_state n =
    if n == 0
    then b'U' ∷ b'n' ∷ b'u' ∷ b's' ∷ b'e' ∷ b'd' ∷ b' ' ∷ b' ' ∷ []
    else if n == 1
    then b'E' ∷ b'm' ∷ b'b' ∷ b'r' ∷ b'y' ∷ b'o' ∷ b' ' ∷ b' ' ∷ []
    else if n == 2
    then b'S' ∷ b'l' ∷ b'e' ∷ b'e' ∷ b'p' ∷ b'i' ∷ b'n' ∷ b'g' ∷ []
    else if n == 3
    then b'R' ∷ b'u' ∷ b'n' ∷ b'n' ∷ b'a' ∷ b'b' ∷ b'l' ∷ b'e' ∷ []
    else if n == 4
    then b'R' ∷ b'u' ∷ b'n' ∷ b'n' ∷ b'i' ∷ b'n' ∷ b'g' ∷ b' ' ∷ []
    else if n == 5
    then b'Z' ∷ b'o' ∷ b'm' ∷ b'b' ∷ b'i' ∷ b'e' ∷ b' ' ∷ b' ' ∷ []
    else b'E' ∷ b'R' ∷ b'R' ∷ b'O' ∷ b'R' ∷ []

-- What getproc() writes over an entry of the table for process `p`, whose parent is `par`.
abbrev pub uproc_of : ℕ → Proc → Proc → Uproc → Uproc
uproc_of ticks par p old = record old {
  pid = p.pid;
  uid = p.uid;
  gid = p.gid;
  ppid = if par.uid == 0 then p.uid else par.uid;
  total_ticks = p.cpu_ticks_total;
  elapsed_ticks = (ticks + 2 ^ 32 - p.start_ticks) % 2 ^ 32;
  size = p.sz;
  name = safestrcpy old.name p.name 16;
  state =
      safestrcpy old.state (convert_state (code p.state))
        (suc (length (convert_state (code p.state))));
}

-- The loop of getproc(), with `n` slots to go, from slot `i` on. `old` is what the table held.
unfoldable pub getproc_from : ℕ → ℕ → ℕ → ℕ → List Proc → (ℕ → Uproc) → Outcome (List Uproc)
getproc_from zero i max ticks ps old = ok []
getproc_from (suc n) i max ticks ps old = elim (get_elem? ps i) [
  | none ↦ ok []
  | some p ↦ elim (in_state p.state unused || not (ltb i max && ltb max (2 ^ 31))) [
    | true ↦ ok []
    | false ↦ elim p.parent [
      | none ↦ panic "null pointer"
      | some j ↦ elim (get_elem? ps j) [
        | none ↦ panic "wild pointer"
        | some par ↦ (do
          rest ← getproc_from n (suc i) max ticks ps old
          ok (uproc_of ticks par p (old i) ∷ rest))
      ]
    ]
  ]
]

-- getproc()
abbrev pub getproc : ℕ → ℕ → List Proc → (ℕ → Uproc) → Outcome (List Uproc)
getproc max ticks ps old = getproc_from 64 0 max ticks ps old

-- sys_getprocs() up to its call of getproc(): the caller's memory, in which argptr() has stored
-- the pointer at address 0, since `table` is null; and `max` and the table that it passes on.
unfoldable pub sys_getprocs : Proc → Memory → Option (Memory × (ℕ × ℕ))
sys_getprocs p mem = elim (argint p mem 0) [
  | none ↦ none
  | some size ↦ elim (argptr p mem 1 4) [
    | none ↦ none
    | some table ↦ some (set_word 0 table mem, (size, table))
  ]
]
