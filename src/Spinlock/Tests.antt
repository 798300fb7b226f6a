-- ===== src/Spinlock/Tests.antt =====
-- spinlock.c: the theorems on two processors.
use spring18cs.Base.{Outcome, panic, ℕ, ◌≡◌, refl, true, false, none, some, ok, arith}
use spring18cs.Spinlock.{
  Cpu, Lock, initlock, pushcli, popcli, start_acquire, start_release, acquire, release,
}
use spring18cs.Spinlock.Nesting.{pushes, pops, pops-pushes}
use spring18cs.Spinlock.Mutex.{
  Machine, outside, spinning, taken, inside, dropped, put, Sound, Reach, here, next, starts, takes,
  marks, mutex_lem,
}

abbrev running_cpu : Cpu
running_cpu = record { ncli = 0; intena = false; flag_if = true }

pops-pushes_example :
    ((q : Cpu) × (pops 3 (pushes 3 running_cpu) ≡ ok q) × (q.flag_if ≡ true) × (q.ncli ≡ 0))
    × ((pushes 3 running_cpu).flag_if ≡ false)
pops-pushes_example = pops-pushes 2 running_cpu (λ h. absurd (omega arith)) (omega arith)

-- acquire() and then release()
both : Outcome (Lock × Cpu)
unfolding acquire release start_acquire start_release pushcli popcli
both = elim (acquire 0 initlock running_cpu) [
  | ok (some (lk, p)) ↦ release 0 lk p
  | ok none ↦ panic "spins"
  | panic m ↦ panic m
]

-- A lock that is taken and released is as it was.
both_lem : both ≡ ok (initlock, record running_cpu { intena = true })
unfolding both
both_lem = refl

abbrev all_outside : Machine
all_outside = record { lock = initlock; cpus = λ c. running_cpu; stage = λ c. outside }

all_outside-Sound : Sound all_outside
all_outside-Sound = record {
  one = λ c d h k. cc;
  held = λ c h. cc;
  owner = λ c h. cc;
  named = λ c h. cc;
  idle = λ c h. omega arith;
  quiet = λ c h. cc;
}

abbrev locked_cpu : Cpu
locked_cpu = record { ncli = 1; intena = true; flag_if = false }

-- Both processors call acquire(), and processor 1 gets the lock.
abbrev one_inside : Machine
one_inside = record {
  lock = record { locked = true; cpu = some 1 };
  cpus =
      put 1 locked_cpu (put 1 locked_cpu (put 1 locked_cpu (put 0 locked_cpu (λ c. running_cpu))));
  stage = put 1 inside (put 1 taken (put 1 spinning (put 0 spinning (λ c. outside))));
}

to_one_inside : Reach all_outside one_inside
unfolding start_acquire pushcli
to_one_inside =
    next
      (next
        (next (next here (starts 0 locked_cpu refl refl refl)) (starts 1 locked_cpu refl refl refl))
        (takes 1 (record { locked = true; cpu = none }) refl refl refl))
      (marks 1 refl refl)

mutex_lem_example :
    ((c d : ℕ) → one_inside.stage c ≡ inside → one_inside.stage d ≡ inside → c ≡ d)
    × ((c : ℕ)
        → one_inside.stage c ≡ outside
        → start_acquire c one_inside.lock (one_inside.cpus c) ≡ ok (pushcli (one_inside.cpus c)))
    × ((c : ℕ)
        → one_inside.stage c ≡ inside
        → start_release c one_inside.lock ≡ ok (record (one_inside.lock) { cpu = none }))
    × ((c : ℕ) → one_inside.stage c ≡ dropped → (p : Cpu) × (popcli (one_inside.cpus c) ≡ ok p))
mutex_lem_example = mutex_lem all_outside-Sound to_one_inside
