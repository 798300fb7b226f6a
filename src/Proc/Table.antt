-- ===== src/Proc/Table.antt =====
-- proc.c: the operations that change the process table alone, each under ptable.lock.
-- `me` is the slot of the current process, `proc`. An operation that blocks is split where it
-- calls swtch(): `sleep` is its part before the switch and `woken` its part after.
use spring18cs.Base.{
  ℕ, zero, suc, ◌+◌, ◌-◌, ◌%◌, ◌^◌, Bool, true, false, ◌&&◌, List, [], ◌∷◌, Option, none, some, map,
  ◌==◌, if◌then◌else◌, get_elem?, modify, first_index, drop, omap, Outcome, ok, panic,
}
use spring18cs.Proc.Types.{
  unused, sleeping, runnable, running, zombie, in_state, Chan, no_chan, proc_chan, same_chan, Proc,
  same_slot,
}

-- the address of a `struct proc` as a channel
abbrev pub chan_of : Option ℕ → Chan
chan_of none = no_chan
chan_of (some i) = proc_chan i

-- the body of the loop of wakeup1()
abbrev pub wake : Chan → Proc → Proc
wake chan p =
    if in_state p.state sleeping && same_chan p.chan chan then record p { state = runnable } else p

-- wakeup1(), and wakeup(), which adds the lock
unfoldable pub wakeup1 : Chan → List Proc → List Proc
wakeup1 chan ps = map (wake chan) ps

-- the body of the loop of kill()
abbrev pub kill_proc : Proc → Proc
kill_proc p =
    let q : Proc = record p { killed = true } in
    if in_state q.state sleeping then record q { state = runnable } else q

-- kill(): `false` is -1
unfoldable pub kill : ℕ → List Proc → Bool × List Proc
kill pid ps = elim (first_index (λ p. p.pid == pid) ps) [
  | none ↦ (false, ps)
  | some i ↦ (true, modify ps i kill_proc)
]

-- The accounting of sched(), and its test of the state. Its tests of the lock and of the interrupt
-- flag are those of Spinlock. `uint` arithmetic wraps.
abbrev pub charge : ℕ → Proc → Proc
charge ticks p = record p {
  cpu_ticks_total = (p.cpu_ticks_total + (ticks + 2 ^ 32 - p.cpu_ticks_in)) % 2 ^ 32;
}

unfoldable pub sched : ℕ → ℕ → List Proc → Outcome (List Proc)
sched ticks me ps = elim (get_elem? ps me) [
  | none ↦ panic "wild process pointer"
  | some p ↦
      if in_state p.state running then panic "sched running" else ok (modify ps me (charge ticks))
]

-- yield(), up to the switch
unfoldable pub yield : ℕ → ℕ → List Proc → Outcome (List Proc)
yield ticks me ps = sched ticks me (modify ps me (λ p. record p { state = runnable }))

-- sleep(), up to the switch
unfoldable pub sleep : ℕ → ℕ → Chan → List Proc → Outcome (List Proc)
sleep ticks me chan ps =
    sched ticks me (modify ps me (λ p. record p { chan = chan; state = sleeping }))

-- sleep(), after the switch
unfoldable pub woken : ℕ → List Proc → List Proc
woken me ps = modify ps me (λ p. record p { chan = no_chan })

-- The loop of scheduler() from slot `i` on: the next slot that is RUNNABLE.
unfoldable pub next_runnable : ℕ → List Proc → Option ℕ
next_runnable i ps = omap (λ k. i + k) (first_index (λ p. in_state p.state runnable) (drop i ps))

-- What scheduler() does to the process that it switches to.
unfoldable pub dispatch : ℕ → ℕ → List Proc → List Proc
dispatch ticks i ps = modify ps i (λ p. record p { state = running; cpu_ticks_in = ticks })

-- the body of the loop of exit() that passes the children of `me` to init
unfoldable pub adopt : ℕ → Option ℕ → ℕ → List Proc → List Proc
adopt me init i ps = elim (get_elem? ps i) [
  | none ↦ ps
  | some p ↦
      if same_slot p.parent me
      then (let qs = modify ps i (λ q. record q { parent = init }) in
          if in_state p.state zombie then wakeup1 (chan_of init) qs else qs)
      else ps
]

-- that loop, over `n` slots from `i` on
unfoldable pub adopt_all : ℕ → Option ℕ → ℕ → ℕ → List Proc → List Proc
adopt_all me init zero i ps = ps
adopt_all me init (suc n) i ps = adopt_all me init n (i + 1) (adopt me init i ps)

-- What the scan of wait() finds.
pub data Scan : Type 0 where
  found : ℕ → Scan
  havekids : Bool → Scan

-- The scan of wait(), at slot `i`, with `kids` what havekids is so far.
unfoldable pub scan_kids : ℕ → ℕ → Bool → List Proc → Scan
scan_kids me i kids [] = havekids kids
scan_kids me i kids (p ∷ ps) =
    let next = scan_kids me (i + 1) kids ps in
    let next_kid = scan_kids me (i + 1) true ps in
    if same_slot p.parent me then (if in_state p.state zombie then found i else next_kid) else next

-- What wait() clears in the slot that it frees, but for the stack.
abbrev pub release_slot : Proc → Proc
release_slot p = record p {
  kstack = 0;
  state = unused;
  pid = 0;
  parent = none;
  killed = false;
  name = modify p.name 0 (λ _. 0);
}
