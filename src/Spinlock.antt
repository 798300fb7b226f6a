-- ===== src/Spinlock.antt =====
-- spinlock.c: a lock between processors, in the steps in which other processors see it, and the
-- nesting of pushcli() and popcli(). The fields for debugging, `name` and `pcs`, are left out.
pub mod Mutex
pub mod Nesting
mod Tests
use spring18cs.Base.{
  ℕ, zero, suc, ◌+◌, ◌-◌, ◌%◌, ◌^◌, leb, Bool, true, false, ◌&&◌, ◌||◌, not, ◌==◌, if◌then◌else◌,
  Option, none, some, Outcome, ok, panic, ◌>>=◌,
}

-- The fields of `struct cpu` that spinlock.c uses, with the processor's interrupt flag. `ncli` is
-- the bit pattern of an `int`.
pub record Cpu : Type 0 where
  pub ncli : ℕ
  pub intena : Bool
  pub flag_if : Bool

-- `struct spinlock`: `cpu` is the index of a processor.
pub record Lock : Type 0 where
  pub locked : Bool
  pub cpu : Option ℕ

-- initlock()
abbrev pub initlock : Lock
initlock = record { locked = false; cpu = none }

abbrev pub same_cpu : Option ℕ → ℕ → Bool
same_cpu none c = false
same_cpu (some d) c = d == c

-- holding(), on processor `c`
abbrev pub holding : ℕ → Lock → Bool
holding c lk = lk.locked && same_cpu lk.cpu c

-- pushcli()
unfoldable pub pushcli : Cpu → Cpu
pushcli p = record p {
  flag_if = false;
  ncli = (p.ncli + 1) % 2 ^ 32;
  intena = if p.ncli == 0 then p.flag_if else p.intena;
}

-- popcli()
unfoldable pub popcli : Cpu → Outcome Cpu
popcli p =
    let left = (p.ncli + 2 ^ 32 - 1) % 2 ^ 32 in
    if p.flag_if
    then panic "popcli - interruptible"
    else if leb (2 ^ 31) left
    then panic "popcli"
    else ok (record p { ncli = left; flag_if = left == 0 && p.intena })

-- acquire() up to the loop
unfoldable pub start_acquire : ℕ → Lock → Cpu → Outcome Cpu
start_acquire c lk p = if holding c lk then panic "acquire" else ok (pushcli p)

-- `xchg(&lk->locked, v)`: the old value, and the lock afterwards
abbrev pub xchg : Bool → Lock → Bool × Lock
xchg v lk = (lk.locked, record lk { locked = v })

-- acquire() behind the loop
abbrev pub mark : ℕ → Lock → Lock
mark c lk = record lk { cpu = some c }

-- release() up to its xchg()
unfoldable pub start_release : ℕ → Lock → Outcome Lock
start_release c lk = if not (holding c lk) then panic "release" else ok (record lk { cpu = none })

-- acquire(), where no other processor takes a step in between: `none` where it spins for ever
unfoldable pub acquire : ℕ → Lock → Cpu → Outcome (Option (Lock × Cpu))
acquire c lk p = do
  q ← start_acquire c lk p
  let (was, lk') = xchg true lk
  ok (if was then none else some (mark c lk', q))

-- release(), likewise
unfoldable pub release : ℕ → Lock → Cpu → Outcome (Lock × Cpu)
release c lk p = do lk' ← start_release c lk; q ← popcli p; ok ((xchg false lk').1, q)
