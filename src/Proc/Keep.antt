-- ===== src/Proc/Keep.antt =====
-- proc.c: the table under wakeup, kill, sched, yield, sleep and the scheduler's dispatch.
use spring18cs.Base.{
  ℕ, ◌≡◌, refl, true, List, arith, ◌==◌, if◌then◌else◌, get_elem?, Option-cases, Bool-cases, inl,
  inr, modify, get_elem?-modify, map, get_elem?-map, ok, panic, first_index, Outcome,
}
use spring18cs.Proc.Types.{sleeping, runnable, running, Proc, Table, in_state, Chan, no_chan}
use spring18cs.Proc.Table.{
  wakeup1, wake, kill, kill_proc, charge, sched, yield, sleep, woken, dispatch,
}
use spring18cs.Proc.Inv.{Wf, Slot, Pointwise, Pointwise-Wf, Keeps, is_alive}

-- What modify() does to each slot.
abbrev pub at_slot : ℕ → (Proc → Proc) → ℕ → Proc → Proc
at_slot i f j p = if i == j then f p else p

pub modify-Pointwise :
    (ps : List Proc) (i : ℕ) (f : Proc → Proc) → Pointwise (at_slot i f) ps (modify ps i f)
modify-Pointwise ps i f j = ground (arith, get_elem?-modify ps i f j)

pub same-Keeps : (p : Proc) → Keeps p p
same-Keeps p = record { pid = refl; parent = refl; live = refl; started = refl; alive = refl }

-- A change of one slot that keeps what other processes see of it keeps the table well formed.
pub modify-Wf :
    (i : ℕ) (f : Proc → Proc) (t : Table)
    → ((p : Proc) → Slot t.procs i p → Keeps p (f p))
    → Wf t
    → Wf (record t { procs = modify t.procs i f })
modify-Wf i f t keeps w =
    Pointwise-Wf (at_slot i f) t (modify t.procs i f) (modify-Pointwise t.procs i f)
      (λ j p s. elim (Bool-cases (i == j)) [
        | inl e ↦ let e' : j ≡ i = ground arith in rw e (keeps p (rw e' at s))
        | inr n ↦ rw n (same-Keeps p)
      ])
      w

pub wake-Keeps : (chan : Chan) (p : Proc) → Keeps p (wake chan p)
wake-Keeps chan p = ground arith

pub kill_proc-Keeps : (p : Proc) → Keeps p (kill_proc p)
kill_proc-Keeps p = ground arith

pub wakeup1-Wf : (chan : Chan) (t : Table) → Wf t → Wf (record t { procs = wakeup1 chan t.procs })
unfolding wakeup1
wakeup1-Wf chan t w =
    Pointwise-Wf (λ _. wake chan) t (map (wake chan) t.procs) (get_elem?-map (wake chan) t.procs)
      (λ i p s. wake-Keeps chan p) w

pub kill-Wf : (pid : ℕ) (t : Table) → Wf t → Wf (record t { procs = (kill pid t.procs).1 })
unfolding kill
kill-Wf pid t w = elim (Option-cases (first_index (λ p. p.pid == pid) t.procs)) [
  | inl e ↦ rw (e, kill) w
  | inr (i, e) ↦ rw (e, kill) (modify-Wf i kill_proc t (λ p s. kill_proc-Keeps p) w)
]

-- The process in slot `me` is alive.
abbrev pub AliveAt : List Proc → ℕ → Type 0
AliveAt ps me = (p : Proc) × Slot ps me p × (is_alive p.state ≡ true)

-- The table that an outcome returns, if it returns, is well formed.
abbrev pub KeepsWf : Table → Outcome (List Proc) → Type 0
KeepsWf t (ok qs) = Wf (record t { procs = qs })
KeepsWf t (panic m) = Unit {0}

-- sched() changes the accounting alone, or panics.
pub sched-KeepsWf : (ticks me : ℕ) (t : Table) → Wf t → KeepsWf t (sched ticks me t.procs)
unfolding sched
sched-KeepsWf ticks me t w = elim (Option-cases (get_elem? t.procs me)) [
  | inl e ↦ rw (e, sched) tt
  | inr (p, e) ↦
      rw (e, sched)
        (elim (Bool-cases (in_state p.state running)) [
          | inl r ↦ rw r tt
          | inr n ↦ rw n (
              modify-Wf me (charge ticks) t
                (λ q s. record {
                  pid = refl;
                  parent = refl;
                  live = refl;
                  started = refl;
                  alive = refl;
                })
                w)
        ])
]

-- Giving an alive process another state in which it is alive.
block_lem :
    (ticks me : ℕ) (f : Proc → Proc) (t : Table)
    → ((p : Proc) → is_alive p.state ≡ true → Keeps p (f p))
    → AliveAt t.procs me
    → Wf t
    → KeepsWf t (sched ticks me (modify t.procs me f))
block_lem ticks me f t keeps (p, s, al) w =
    sched-KeepsWf ticks me (record t { procs = modify t.procs me f })
      (modify-Wf me f t (λ q r. keeps q (ground arith)) w)

pub yield-KeepsWf :
    (ticks me : ℕ) (t : Table) → AliveAt t.procs me → Wf t → KeepsWf t (yield ticks me t.procs)
unfolding yield
yield-KeepsWf ticks me t a w =
    block_lem ticks me (λ p. record p { state = runnable }) t (λ p al. ground arith) a w

pub sleep-KeepsWf :
    (ticks me : ℕ) (chan : Chan) (t : Table)
    → AliveAt t.procs me
    → Wf t
    → KeepsWf t (sleep ticks me chan t.procs)
unfolding sleep
sleep-KeepsWf ticks me chan t a w =
    block_lem ticks me (λ p. record p { chan = chan; state = sleeping }) t (λ p al. ground arith) a
      w

pub woken-Wf : (me : ℕ) (t : Table) → Wf t → Wf (record t { procs = woken me t.procs })
unfolding woken
woken-Wf me t w = modify-Wf me (λ p. record p { chan = no_chan }) t (λ p s. ground arith) w

pub dispatch-Wf :
    (ticks i : ℕ) (t : Table)
    → AliveAt t.procs i
    → Wf t
    → Wf (record t { procs = dispatch ticks i t.procs })
unfolding dispatch
dispatch-Wf ticks i t (p, s, al) w =
    modify-Wf i (λ q. record q { state = running; cpu_ticks_in = ticks }) t
      (λ q r. let al' : is_alive q.state ≡ true = ground arith in ground arith) w
