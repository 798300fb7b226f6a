-- ===== src/Proc/Wakeups.antt =====
-- pipe.c: who sleeps on a pipe, and what for.
use spring18cs.Base.{
  ℕ, ◌≡◌, refl, Bool, true, false, ◌&&◌, ◌||◌, not, List, [], ◌∷◌, arith, ◌==◌, get_elem?,
  Option-cases, Bool-cases, inl, inr, modify, map, get_elem?-map, Post, Post-bind, ==_iff,
}
use spring18cs.Pipe.{
  Pipe, is_full, is_empty, put_byte, pipewrite, Writing, wrote, write_fails, write_sleeps, piperead,
  Reading, did_read, read_fails, read_sleeps,
}
use spring18cs.Proc.Types.{
  sleeping, running, in_state, Chan, same_chan, nread_chan, nwrite_chan, Proc,
}
use spring18cs.Proc.Table.{wake, wakeup1, charge, sched, sleep}
use spring18cs.Proc.Inv.{Slot, Pointwise, Slot-before}
use spring18cs.Proc.Keep.{at_slot, modify-Pointwise}
use spring18cs.Proc.Kernel.{Kernel}
use spring18cs.Proc.Create.{set_procs}
use spring18cs.Proc.PipeCalls.{
  Call, set_pipe, returned, fails, blocks, end_write, write_call, end_read, read_call,
}

-- `p` sleeps on `chan`.
abbrev pub sleeps_on : Chan → Proc → Bool
sleeps_on chan p = in_state p.state sleeping && same_chan p.chan chan

-- Who sleeps on `chan` has a reason to: `b`.
abbrev pub Rests : Chan → Bool → List Proc → Type 0
Rests chan b ps = (i : ℕ) (p : Proc) → Slot ps i p → sleeps_on chan p ≡ true → b ≡ true

-- A pipe has nothing to read, and may have later.
abbrev pub dry : Pipe → Bool
dry p = is_empty p && p.writeopen

-- A pipe has no room, and may have later.
abbrev pub choked : Pipe → Bool
choked p = is_full p && p.readopen

-- Who sleeps on the pipe at `at` waits for bytes while there are none and a writer is left, or for
-- room while there is none and a reader is left.
pub record Served {F : Type 0} (at : ℕ) (k : Kernel F) : Type 0 where
  pub readers : Rests (nread_chan at) (dry (k.pipes at)) k.procs
  pub writers : Rests (nwrite_chan at) (choked (k.pipes at)) k.procs

pub Rests-change :
    (chan : Chan) {b b' : Bool} (ps : List Proc)
    → (b ≡ true → b' ≡ true)
    → Rests chan b ps
    → Rests chan b' ps
Rests-change chan ps f r i p s a = f (r i p s a)

module _ (chan : Chan) (b : Bool) where
  -- Where each slot is changed so that it sleeps on `chan` only for a reason.
  Rests-Pointwise :
      (g : ℕ → Proc → Proc) (ps qs : List Proc)
      → Pointwise g ps qs
      → ((i : ℕ) (p : Proc) → Slot ps i p → sleeps_on chan (g i p) ≡ true → b ≡ true)
      → Rests chan b qs
  Rests-Pointwise g ps qs pw h i q s a =
      let (p, e, same) = Slot-before g ps qs i q pw s in h i p e (rw same at a)

  pub Rests-woken : (ps : List Proc) → Rests chan b (wakeup1 chan ps)
  unfolding wakeup1
  Rests-woken ps =
      Rests-Pointwise (λ _. wake chan) ps (map (wake chan) ps) (get_elem?-map (wake chan) ps)
        (λ i p s a. ground arith)

  pub Rests-wakeup1 :
      (other : Chan) (ps : List Proc) → Rests chan b ps → Rests chan b (wakeup1 other ps)
  unfolding wakeup1
  Rests-wakeup1 other ps r =
      Rests-Pointwise (λ _. wake other) ps (map (wake other) ps) (get_elem?-map (wake other) ps)
        (λ i p s a. r i p s (ground arith))

  pub Rests-modify :
      (me : ℕ) (f : Proc → Proc) (ps : List Proc)
      → ((p : Proc) → Slot ps me p → sleeps_on chan (f p) ≡ true → b ≡ true)
      → Rests chan b ps
      → Rests chan b (modify ps me f)
  Rests-modify me f ps h r =
      Rests-Pointwise (at_slot me f) ps (modify ps me f) (modify-Pointwise ps me f) (λ i p s a.
        elim (Bool-cases (me == i)) [
          | inl t ↦ let here : i ≡ me = ground arith in h p (rw here at s) (rw t at a)
          | inr n ↦ r i p s (rw n at a)
        ])

  pub Rests-sched :
      (ticks me : ℕ) (ps : List Proc) → Rests chan b ps → Post (Rests chan b) (sched ticks me ps)
  unfolding sched
  Rests-sched ticks me ps r = elim (Option-cases (get_elem? ps me)) [
    | inl e ↦ rw (e, sched) tt
    | inr (p, e) ↦ elim (Bool-cases (in_state p.state running)) [
      | inl t ↦ rw (e, sched, t) tt
      | inr n ↦ rw (e, sched, n) (Rests-modify me (charge ticks) ps (λ q s a. r me q s a) r)
    ]
  ]

  -- A process that goes to sleep has a reason, if it sleeps on `chan`.
  pub Rests-sleep :
      (ticks me : ℕ) (on : Chan) (ps : List Proc)
      → (same_chan on chan ≡ true → b ≡ true)
      → Rests chan b ps
      → Post (Rests chan b) (sleep ticks me on ps)
  unfolding sleep
  Rests-sleep ticks me on ps why r =
      Rests-sched ticks me _
        (Rests-modify me (λ p. record p { chan = on; state = sleeping }) ps (λ p s a. why a) r)

pub same_pipe : (at : ℕ) → (at == at) ≡ true
same_pipe at = (==_iff at at).1 refl

-- What a write leaves alone: the readers, and a pipe without room.
abbrev Stays : Pipe → Writing → Type 0
Stays p (wrote q) = choked p ≡ true → q ≡ p
Stays p (write_fails q rest) = Unit {0}
Stays p (write_sleeps q rest) = choked q ≡ true

pipewrite-Stays : (killed : Bool) (p : Pipe) (cs : List ℕ) → Stays p (pipewrite killed p cs)
unfolding pipewrite
pipewrite-Stays killed p [] = λ e. refl
pipewrite-Stays killed p (c ∷ cs) = elim (Bool-cases (is_full p)) [
  | inl full ↦ elim (Bool-cases (not p.readopen || killed)) [
    | inl t ↦ rw (full, pipewrite, t) tt
    | inr f ↦ rw (full, pipewrite, f) (ground arith)
  ]
  | inr room ↦
      rw (room, pipewrite)
        (from room (pipewrite killed (put_byte p c) cs) (pipewrite-Stays killed (put_byte p c) cs))
]
  where
    from : is_full p ≡ false → (r : Writing) → Stays (put_byte p c) r → Stays p r
    from room (wrote q) h = λ e. absurd (ground arith)
    from room (write_fails q rest) h = tt
    from room (write_sleeps q rest) h = h

-- When a read takes place.
abbrev Takes : Pipe → Reading → Type 0
Takes p (did_read cs q) = dry p ≡ false
Takes p read_fails = Unit {0}
Takes p read_sleeps = dry p ≡ true

piperead-Takes : (killed : Bool) (p : Pipe) (n : ℕ) → Takes p (piperead killed p n)
unfolding piperead
piperead-Takes killed p n = elim (Bool-cases (dry p)) [
  | inl t ↦ elim (Bool-cases killed) [
    | inl k ↦ rw (t, piperead, k) tt
    | inr k ↦ rw (t, piperead, k) t
  ]
  | inr f ↦ rw (f, piperead) f
]

-- `q` in the place of the pipe at `at`, and then processes `ps`, leave the sleepers served.
module _ {F : Type 0} (at : ℕ) (q : Pipe) (k : Kernel F) (ps : List Proc) where
  Served-set :
      Rests (nread_chan at) (dry q) ps
      → Rests (nwrite_chan at) (choked q) ps
      → Served at (set_procs (set_pipe at q k) ps)
  Served-set r w = record { readers = rw (same_pipe at) r; writers = rw (same_pipe at) w }

-- What a call leaves, where it did not fail half-way.
abbrev pub Serves : {F A B : Type 0} → ℕ → Pipe → Call A B (Kernel F) → Type 0
Serves at p (returned a l) = Served at l
Serves at p (fails l) = l.pipes at ≡ p → Served at l
Serves at p (blocks b l) = Served at l

module _ {F : Type 0} (me at : ℕ) (k : Kernel F) (served : Served at k) where
  Served-as : {l : Kernel F} → l.pipes at ≡ k.pipes at → l.procs ≡ k.procs → Served at l
  Served-as e same = record {
    readers = rw (e, same) served.readers;
    writers = rw (e, same) served.writers;
  }

  end_write-Serves :
      (r : Writing) → Stays (k.pipes at) r → Post (Serves at (k.pipes at)) (end_write me at r k)
  unfolding end_write
  end_write-Serves (wrote q) h =
      Served-set at q k (wakeup1 (nread_chan at) k.procs)
        (Rests-woken (nread_chan at) (dry q) k.procs)
        (Rests-wakeup1 (nwrite_chan at) (choked q) (nread_chan at) k.procs (
          Rests-change (nwrite_chan at) k.procs (λ e. let same : q ≡ k.pipes at = h e in rw same e)
            served.writers))
  end_write-Serves (write_fails q rest) h = λ same. Served-as same refl
  end_write-Serves (write_sleeps q rest) h =
      let c = nwrite_chan at in
      let woken_up = wakeup1 (nread_chan at) k.procs in
      Post-bind (Serves at (k.pipes at)) (sleep k.ticks me c woken_up) _ λ ps e.
        Served-set at q k ps
          (rw e at (
            Rests-sleep (nread_chan at) (dry q) k.ticks me c woken_up (λ n. absurd (cc))
              (Rests-woken (nread_chan at) (dry q) k.procs)))
          (rw e at (
            Rests-sleep c (choked q) k.ticks me c woken_up (λ _. h)
              (Rests-change c woken_up (λ _. h)
                (Rests-wakeup1 c (choked (k.pipes at)) (nread_chan at) k.procs served.writers))))

  end_read-Serves :
      (r : Reading) → Takes (k.pipes at) r → Post (Serves at (k.pipes at)) (end_read me at r k)
  unfolding end_read
  end_read-Serves (did_read cs q) h =
      Served-set at q k (wakeup1 (nwrite_chan at) k.procs)
        (Rests-wakeup1 (nread_chan at) (dry q) (nwrite_chan at) k.procs
          (Rests-change (nread_chan at) k.procs (λ e. absurd (cc)) served.readers))
        (Rests-woken (nwrite_chan at) (choked q) k.procs)
  end_read-Serves read_fails h = λ _. served
  end_read-Serves read_sleeps h =
      let c = nread_chan at in
      let p = k.pipes at in
      Post-bind (Serves at p) (sleep k.ticks me c k.procs) _ λ ps e. record {
        readers = rw e at (Rests-sleep c (dry p) k.ticks me c k.procs (λ _. h) served.readers);
        writers = rw e at (
            Rests-sleep (nwrite_chan at) (choked p) k.ticks me c k.procs (λ n. absurd (cc))
              served.writers);
      }

  pub write_call-Serves : (cs : List ℕ) → Post (Serves at (k.pipes at)) (write_call me at cs k)
  unfolding write_call
  write_call-Serves cs = elim (Option-cases (get_elem? k.procs me)) [
    | inl e ↦ rw (e, write_call) tt
    | inr (p, e) ↦
        rw (e, write_call)
          (end_write-Serves (pipewrite p.killed (k.pipes at) cs)
            (pipewrite-Stays p.killed (k.pipes at) cs))
  ]

  pub read_call-Serves : (n : ℕ) → Post (Serves at (k.pipes at)) (read_call me at n k)
  unfolding read_call
  read_call-Serves n = elim (Option-cases (get_elem? k.procs me)) [
    | inl e ↦ rw (e, read_call) tt
    | inr (p, e) ↦
        rw (e, read_call)
          (end_read-Serves (piperead p.killed (k.pipes at) n)
            (piperead-Takes p.killed (k.pipes at) n))
  ]
