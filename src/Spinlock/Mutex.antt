-- ===== src/Spinlock/Mutex.antt =====
-- spinlock.c: processors that take and release one lock, in any interleaving of their steps.
use spring18cs.Base.{
  ℕ, ◌-◌, ◌+◌, ◌%◌, ◌^◌, leb, panic, ◌<◌, ◌≡◌, ◌≢◌, refl, ap, sym, ◌∙◌, Bool, true, false, ◌&&◌,
  ◌==◌, if◌then◌else◌, Option, none, some, arith, ok, Bool-cases, inl, inr, ◌⊎◌, ==_iff,
}
use spring18cs.Spinlock.{
  Cpu, Lock, holding, same_cpu, pushcli, popcli, start_acquire, xchg, mark, start_release,
}

-- Where a processor stands: outside; in the loop of acquire(); behind it, with the lock taken; in
-- its critical section; in release(), with `cpu` cleared; and in release() behind the xchg().
pub data Stage : Type 0 where
  outside spinning taken inside clearing dropped : Stage

-- The processor has set `locked`.
abbrev pub has_lock : Stage → Bool
has_lock taken = true
has_lock inside = true
has_lock clearing = true
has_lock _ = false

abbrev pub is_inside : Stage → Bool
is_inside inside = true
is_inside _ = false

abbrev pub is_outside : Stage → Bool
is_outside outside = true
is_outside _ = false

abbrev pub put : {A : Type 0} → ℕ → A → (ℕ → A) → ℕ → A
put c x f d = if d == c then x else f d

pub record Machine : Type 0 where
  pub lock : Lock
  pub cpus : ℕ → Cpu
  pub stage : ℕ → Stage

abbrev pub moved : ℕ → Stage → Lock → Cpu → Machine → Machine
moved c st lk p s = record { lock = lk; cpus = put c p s.cpus; stage = put c st s.stage }

-- A step of processor `c`. A round of the loop in which the lock is taken changes nothing.
pub data Step (s t : Machine) : Type 0 where
  starts :
      (c : ℕ) (p : Cpu)
      → s.stage c ≡ outside
      → start_acquire c s.lock (s.cpus c) ≡ ok p
      → t ≡ moved c spinning s.lock p s
      → Step s t
  takes :
      (c : ℕ) (lk : Lock)
      → s.stage c ≡ spinning
      → xchg true s.lock ≡ (false, lk)
      → t ≡ moved c taken lk (s.cpus c) s
      → Step s t
  marks : (c : ℕ) → s.stage c ≡ taken → t ≡ moved c inside (mark c s.lock) (s.cpus c) s → Step s t
  clears :
      (c : ℕ) (lk : Lock)
      → s.stage c ≡ inside
      → start_release c s.lock ≡ ok lk
      → t ≡ moved c clearing lk (s.cpus c) s
      → Step s t
  drops :
      (c : ℕ)
      → s.stage c ≡ clearing
      → t ≡ moved c dropped (xchg false s.lock).1 (s.cpus c) s
      → Step s t
  pops :
      (c : ℕ) (p : Cpu)
      → s.stage c ≡ dropped
      → popcli (s.cpus c) ≡ ok p
      → t ≡ moved c outside s.lock p s
      → Step s t

pub data Reach (s : Machine) : Machine → Type 0 where
  here : Reach s s
  next : {t u : Machine} → Reach s t → Step t u → Reach s u

pub record Sound (s : Machine) : Type 0 where
  -- One processor at most has the lock, and `locked` is set while one has.
  pub one : (c d : ℕ) → has_lock (s.stage c) ≡ true → has_lock (s.stage d) ≡ true → c ≡ d
  pub held : (c : ℕ) → has_lock (s.stage c) ≡ true → s.lock.locked ≡ true
  -- `cpu` names the processor that is in its critical section.
  pub owner : (c : ℕ) → is_inside (s.stage c) ≡ true → s.lock.cpu ≡ some c
  pub named : (c : ℕ) → s.lock.cpu ≡ some c → is_inside (s.stage c) ≡ true
  -- A processor that is outside can call pushcli() once more, and one that is not has interrupts
  -- off.
  pub idle : (c : ℕ) → is_outside (s.stage c) ≡ true → (s.cpus c).ncli + 1 < 2 ^ 31
  pub quiet :
      (c : ℕ)
      → is_outside (s.stage c) ≡ false
      → (0 < (s.cpus c).ncli) × ((s.cpus c).ncli < 2 ^ 31) × ((s.cpus c).flag_if ≡ false)

-- What a step of processor `c` must see to.
record Moves (c : ℕ) (st : Stage) (lk : Lock) (p : Cpu) (s : Machine) : Type 0 where
  alone : has_lock st ≡ true → (d : ℕ) → d ≢ c → has_lock (s.stage d) ≡ false
  held : has_lock st ≡ true → lk.locked ≡ true
  held_still : (d : ℕ) → d ≢ c → has_lock (s.stage d) ≡ true → lk.locked ≡ true
  owner : is_inside st ≡ true → lk.cpu ≡ some c
  owner_still : (d : ℕ) → d ≢ c → is_inside (s.stage d) ≡ true → lk.cpu ≡ some d
  named : lk.cpu ≡ some c → is_inside st ≡ true
  named_still : (d : ℕ) → d ≢ c → lk.cpu ≡ some d → is_inside (s.stage d) ≡ true
  idle : is_outside st ≡ true → p.ncli + 1 < 2 ^ 31
  quiet : is_outside st ≡ false → (0 < p.ncli) × (p.ncli < 2 ^ 31) × (p.flag_if ≡ false)

module _ (c : ℕ) (st : Stage) (lk : Lock) (p : Cpu) (s : Machine) (m : Moves c st lk p s) where
  -- Whether a processor is the one that moved.
  split : (d : ℕ) → ((d ≡ c) × ((d == c) ≡ true)) ⊎ ((d ≢ c) × ((d == c) ≡ false))
  split d = elim (Bool-cases (d == c)) [
    | inl t ↦ inl (ground arith, t)
    | inr n ↦ inr (ground arith, n)
  ]

  moved_one :
      (d e : ℕ)
      → has_lock (put c st s.stage d) ≡ true
      → has_lock (put c st s.stage e) ≡ true
      → ((a b : ℕ) → has_lock (s.stage a) ≡ true → has_lock (s.stage b) ≡ true → a ≡ b)
      → d ≡ e
  moved_one d e h k one = elim (split d) [
    | inl (dc, t) ↦ elim (split e) [
      | inl (ec, u) ↦ dc ∙ sym ec
      | inr (ne, u) ↦ let x = m.alone (rw t at h) e ne in let y = rw u at k in absurd (cc)
    ]
    | inr (nd, t) ↦ elim (split e) [
      | inl (ec, u) ↦ let x = m.alone (rw u at k) d nd in let y = rw t at h in absurd (cc)
      | inr (ne, u) ↦ one d e (rw t at h) (rw u at k)
    ]
  ]

  moved-Sound : Sound s → Sound (moved c st lk p s)
  moved-Sound f = record {
    one = λ d e h k. moved_one d e h k f.one;
    held = λ d h. elim (split d) [
      | inl (dc, t) ↦ m.held (rw t at h)
      | inr (nd, t) ↦ m.held_still d nd (rw t at h)
    ];
    owner = λ d h. elim (split d) [
      | inl (dc, t) ↦ rw dc (m.owner (rw t at h))
      | inr (nd, t) ↦ m.owner_still d nd (rw t at h)
    ];
    named = λ d h. elim (split d) [
      | inl (dc, t) ↦ rw t (m.named (rw dc at h))
      | inr (nd, t) ↦ rw t (m.named_still d nd h)
    ];
    idle = λ d h. elim (split d) [
      | inl (dc, t) ↦ rw t (m.idle (rw t at h))
      | inr (nd, t) ↦ rw t (f.idle d (rw t at h))
    ];
    quiet = λ d h. elim (split d) [
      | inl (dc, t) ↦ rw t (m.quiet (rw t at h))
      | inr (nd, t) ↦ rw t (f.quiet d (rw t at h))
    ];
  }

-- The processor that has the lock is the only one.
others :
    (c : ℕ) (s : Machine)
    → Sound s
    → has_lock (s.stage c) ≡ true
    → (d : ℕ) → d ≢ c
    → has_lock (s.stage d) ≡ false
others c s f h d ne = elim (Bool-cases (has_lock (s.stage d))) [
  | inl t ↦ absurd (ne (f.one d c t h))
  | inr n ↦ n
]

inside_has : (st : Stage) → is_inside st ≡ true → has_lock st ≡ true
inside_has st h = ground arith

-- While the lock is free nobody has it.
nobody : (s : Machine) → Sound s → s.lock.locked ≡ false → (d : ℕ) → has_lock (s.stage d) ≡ false
nobody s f free_now d = elim (Bool-cases (has_lock (s.stage d))) [
  | inl t ↦ let h = f.held d t in absurd (cc)
  | inr n ↦ n
]

start_acquire-Quiet :
    (c : ℕ) (lk : Lock) (p q : Cpu)
    → p.ncli + 1 < 2 ^ 31
    → start_acquire c lk p ≡ ok q
    → (0 < q.ncli) × (q.ncli < 2 ^ 31) × (q.flag_if ≡ false)
unfolding start_acquire pushcli
start_acquire-Quiet c lk p q small e = elim (Bool-cases (holding c lk)) [
  | inl t ↦ absurd (let bad : panic "acquire" ≡ ok q = rw t at (e) in cc)
  | inr f ↦
      let e' : ok (pushcli p) ≡ ok q = rw f at (e) in
      let same : pushcli p ≡ q = cc in rw (← same) (omega arith, omega arith, refl)
]

popcli-small : (p q : Cpu) → 0 < p.ncli → p.ncli < 2 ^ 31 → popcli p ≡ ok q → q.ncli + 1 < 2 ^ 31
unfolding popcli
popcli-small p q open_still small e = ground arith

start_release-ok :
    (c : ℕ) (lk lk' : Lock) → start_release c lk ≡ ok lk' → lk' ≡ record lk { cpu = none }
unfolding start_release
start_release-ok c lk lk' e = ground arith

Step-Sound : {s t : Machine} → Step s t → Sound s → Sound t
Step-Sound {s} {t} (starts c p e a et) f =
    let q = start_acquire-Quiet c s.lock (s.cpus c) p (f.idle c (rw e refl)) a in
    rw et (
      moved-Sound c spinning s.lock p s
        (record {
          alone = λ h. absurd (cc);
          held = λ h. absurd (cc);
          held_still = λ d ne h. f.held d h;
          owner = λ h. absurd (cc);
          owner_still = λ d ne h. f.owner d h;
          named = λ h. let n : is_inside outside ≡ true = rw e at (f.named c h) in absurd (cc);
          named_still = λ d ne h. f.named d h;
          idle = λ h. absurd (cc);
          quiet = λ _. q;
        })
        f)
Step-Sound {s} {t} (takes c lk e x et) f =
    let free_now : s.lock.locked ≡ false = ap (λ (r : Bool × Lock). r.0) x in
    let same : record (s.lock) { locked = true } ≡ lk = ap (λ (r : Bool × Lock). r.1) x in
    rw (et, ← same)
      (moved-Sound c taken (record (s.lock) { locked = true }) (s.cpus c) s
        (record {
          alone = λ h d ne. nobody s f free_now d;
          held = λ h. refl;
          held_still = λ d ne h. refl;
          owner = λ h. absurd (cc);
          owner_still = λ d ne h. f.owner d h;
          named = λ h. let n : is_inside spinning ≡ true = rw e at (f.named c h) in absurd (cc);
          named_still = λ d ne h. f.named d h;
          idle = λ h. absurd (cc);
          quiet = λ _. f.quiet c (rw e refl);
        })
        f)
Step-Sound {s} {t} (marks c e et) f =
    let mine : has_lock (s.stage c) ≡ true = rw e refl in
    rw et (
      moved-Sound c inside (mark c s.lock) (s.cpus c) s
        (record {
          alone = λ h. others c s f mine;
          held = λ h. f.held c mine;
          held_still = λ d ne h. f.held c mine;
          owner = λ h. refl;
          owner_still = λ d ne h.
              let x = others c s f mine d ne in let y = inside_has (s.stage d) h in absurd (cc);
          named = λ h. refl;
          named_still = λ d ne h. absurd (ne (sym (some_inj h)));
          idle = λ h. absurd (cc);
          quiet = λ _. f.quiet c (rw e refl);
        })
        f)
  where
    some_inj : {d : ℕ} → some c ≡ some d → c ≡ d
    some_inj h = cc
Step-Sound {s} {t} (clears c lk e r et) f =
    let same = start_release-ok c s.lock lk r in
    let mine : has_lock (s.stage c) ≡ true = rw e refl in
    rw (et, same)
      (moved-Sound c clearing (record (s.lock) { cpu = none }) (s.cpus c) s
        (record {
          alone = λ h. others c s f mine;
          held = λ h. f.held c mine;
          held_still = λ d ne h. f.held c mine;
          owner = λ h. absurd (cc);
          owner_still = λ d ne h.
              let x = others c s f mine d ne in let y = inside_has (s.stage d) h in absurd (cc);
          named = λ h. absurd (cc);
          named_still = λ d ne h. absurd (cc);
          idle = λ h. absurd (cc);
          quiet = λ _. f.quiet c (rw e refl);
        })
        f)
Step-Sound {s} {t} (drops c e et) f =
    let mine : has_lock (s.stage c) ≡ true = rw e refl in
    rw et (
      moved-Sound c dropped (xchg false s.lock).1 (s.cpus c) s
        (record {
          alone = λ h. absurd (cc);
          held = λ h. absurd (cc);
          held_still = λ d ne h. let x = others c s f mine d ne in absurd (cc);
          owner = λ h. absurd (cc);
          owner_still = λ d ne h. f.owner d h;
          named = λ h. let n : is_inside clearing ≡ true = rw e at (f.named c h) in absurd (cc);
          named_still = λ d ne h. f.named d h;
          idle = λ h. absurd (cc);
          quiet = λ _. f.quiet c (rw e refl);
        })
        f)
Step-Sound {s} {t} (pops c p e q et) f = rw et (
    moved-Sound c outside s.lock p s
      (record {
        alone = λ h. absurd (cc);
        held = λ h. absurd (cc);
        held_still = λ d ne h. f.held d h;
        owner = λ h. absurd (cc);
        owner_still = λ d ne h. f.owner d h;
        named = λ h. let n : is_inside dropped ≡ true = rw e at (f.named c h) in absurd (cc);
        named_still = λ d ne h. f.named d h;
        idle = λ _.
            let (up, small, off) = f.quiet c (rw e refl) in popcli-small (s.cpus c) p up small q;
        quiet = λ h. absurd (cc);
      })
      f)

Reach-Sound : {s t : Machine} → Sound s → Reach s t → Sound t
Reach-Sound f here = f
Reach-Sound f (next r st) = Step-Sound st (Reach-Sound f r)

start_acquire-returns :
    (c : ℕ) (lk : Lock) (p : Cpu) → ¬ (lk.cpu ≡ some c) → start_acquire c lk p ≡ ok (pushcli p)
unfolding start_acquire
start_acquire-returns c lk p out = elim (Bool-cases (same_cpu lk.cpu c)) [
  | inl t ↦ absurd (out (owner_of lk.cpu t))
  | inr f ↦ let h : holding c lk ≡ false = ground arith in rw h
]
  where
    owner_of : (o : Option ℕ) → same_cpu o c ≡ true → o ≡ some c
    owner_of none h = cc
    owner_of (some d) h = let e : d ≡ c = ground arith in ap some e

start_release-returns :
    (c : ℕ) (lk : Lock)
    → lk.locked ≡ true
    → lk.cpu ≡ some c
    → start_release c lk ≡ ok (record lk { cpu = none })
unfolding start_release
start_release-returns c lk t e =
    let h : holding c lk ≡ true = rw (t, e) ((==_iff c c).1 refl) in rw h

popcli-returns :
    (p : Cpu) → 0 < p.ncli → p.ncli < 2 ^ 31 → p.flag_if ≡ false → (q : Cpu) × (popcli p ≡ ok q)
unfolding popcli
popcli-returns p open_still small off =
    let left = (p.ncli + 2 ^ 32 - 1) % 2 ^ 32 in
    let nz : leb (2 ^ 31) left ≡ false = ground arith in
    (record p { ncli = left; flag_if = left == 0 && p.intena }, rw (off, nz) refl)

-- A sound machine stays so in every interleaving of the steps of its processors: then no two
-- processors are in their critical sections, and no panic of spinlock.c is reached. Who is outside
-- may call acquire(), who is in its critical section may release, and who has released may leave.
pub mutex_lem :
    {s t : Machine}
    → Sound s
    → Reach s t
    → ((c d : ℕ) → t.stage c ≡ inside → t.stage d ≡ inside → c ≡ d)
      × ((c : ℕ)
          → t.stage c ≡ outside
          → start_acquire c t.lock (t.cpus c) ≡ ok (pushcli (t.cpus c)))
      × ((c : ℕ)
          → t.stage c ≡ inside
          → start_release c t.lock ≡ ok (record (t.lock) { cpu = none }))
      × ((c : ℕ) → t.stage c ≡ dropped → (p : Cpu) × (popcli (t.cpus c) ≡ ok p))
mutex_lem {s} {t} f0 r =
    let f = Reach-Sound f0 r in
    (
      λ c d e e'. f.one c d (rw e refl) (rw e' refl),
      λ c e.
          start_acquire-returns c t.lock (t.cpus c)
            (λ q. let n : is_inside outside ≡ true = rw e at (f.named c q) in cc),
      λ c e. start_release-returns c t.lock (f.held c (rw e refl)) (f.owner c (rw e refl)),
      λ c e. let (n, small, off) = f.quiet c (rw e refl) in popcli-returns (t.cpus c) n small off,
    )
