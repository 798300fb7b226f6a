-- ===== src/Log/Space.antt =====
-- log.c: the blocks that operations may log, over any sequence of calls.
use spring18cs.Base.{
  ℕ, suc, ◌+◌, ◌-◌, ◌*◌, ◌%◌, ◌^◌, ◌≡◌, ◌<◌, ◌≤◌, inl, inr, ◌⊎◌, panic, refl, sym, ◌∙◌, ap, Bool,
  true, false, ◌||◌, ◌==◌, ltb, leb, List, [], ◌∷◌, ◌++◌, some, arith, length, length-append, subst,
  length-modify, first_index, Option-cases, Bool-cases, ok,
}
use spring18cs.Log.{
  Log, Store, log_size, max_op_blocks, begin_op, leave_op, log_write, run_commit, commit, absorb,
}

abbrev pub sum : List ℕ → ℕ
sum [] = 0
sum (x ∷ xs) = x + sum xs

-- No more than MAXOPBLOCKS each.
abbrev pub Allowed : List ℕ → Type 0
Allowed [] = Unit {0}
Allowed (x ∷ xs) = (x ≤ max_op_blocks) × Allowed xs

-- The log, and for each operation under way the blocks that it may still log.
pub record Busy : Type 0 where
  pub log : Log
  pub left : List ℕ

-- A call of begin_op() that returns, log_write() by an operation that may, the first part of
-- end_op(), or the commit in its second part.
pub data Step (s t : Busy) : Type 0 where
  begins : begin_op s.log ≡ some t.log → t.left ≡ max_op_blocks ∷ s.left → Step s t
  writes :
      (b a : ℕ) (xs ys : List ℕ)
      → s.left ≡ xs ++ (suc a ∷ ys)
      → log_write b s.log ≡ ok t.log
      → t.left ≡ xs ++ (a ∷ ys)
      → Step s t
  leaves :
      (last : Bool) (a : ℕ) (xs ys : List ℕ)
      → s.left ≡ xs ++ (a ∷ ys)
      → leave_op s.log ≡ ok (last, t.log)
      → t.left ≡ xs ++ ys
      → Step s t
  commits :
      (st st' : Store)
      → s.log.committing ≡ true
      → run_commit s.log st ≡ (t.log, st')
      → t.left ≡ s.left
      → Step s t

pub data Reach (s : Busy) : Busy → Type 0 where
  here : Reach s s
  next : {t u : Busy} → Reach s t → Step t u → Reach s u

-- What is logged and what may still be logged fit into the log, and a commit runs alone.
pub record Fits (s : Busy) : Type 0 where
  pub ops : s.log.outstanding ≡ length s.left
  pub few : length s.left ≤ 3
  pub allowed : Allowed s.left
  pub room : length s.log.lh + sum s.left ≤ log_size
  pub alone : s.log.committing ≡ true → s.left ≡ []

sum-append : (xs ys : List ℕ) → sum (xs ++ ys) ≡ sum xs + sum ys
sum-append [] ys = omega arith
sum-append (x ∷ xs) ys = omega (arith, sum-append xs ys)

sum-Allowed : (xs : List ℕ) → Allowed xs → sum xs ≤ length xs * max_op_blocks
sum-Allowed [] a = omega arith
sum-Allowed (x ∷ xs) (h, a) = let r = sum-Allowed xs a in omega arith

-- One operation uses up a block, or goes.
Allowed-less : (xs ys : List ℕ) (a : ℕ) → Allowed (xs ++ (suc a ∷ ys)) → Allowed (xs ++ (a ∷ ys))
Allowed-less [] ys a (h, r) = (omega arith, r)
Allowed-less (x ∷ xs) ys a (h, r) = (h, Allowed-less xs ys a r)

Allowed-without : (xs ys : List ℕ) (a : ℕ) → Allowed (xs ++ (a ∷ ys)) → Allowed (xs ++ ys)
Allowed-without [] ys a (h, r) = r
Allowed-without (x ∷ xs) ys a (h, r) = (h, Allowed-without xs ys a r)

-- What begin_op() waits for.
begin_op-Guard :
    (lg lg' : Log)
    → lg.outstanding < 2 ^ 31
    → begin_op lg ≡ some lg'
    → (lg.committing ≡ false)
      × (length lg.lh + (lg.outstanding + 1) * max_op_blocks ≤ log_size)
      × (lg' ≡ record lg { outstanding = (lg.outstanding + 1) % 2 ^ 32 })
unfolding begin_op
begin_op-Guard lg lg' pos e =
    let sign : ltb lg.outstanding (2 ^ 31) ≡ true = ground arith in
    (ground arith, ground arith, ground arith)

-- A write logs one block more at most.
log_write-More :
    (b : ℕ) (lg lg' : Log)
    → log_write b lg ≡ ok lg'
    → (length lg'.lh ≤ suc (length lg.lh))
      × (lg'.outstanding ≡ lg.outstanding)
      × (lg'.committing ≡ lg.committing)
unfolding log_write
log_write-More b lg lg' e = elim (Option-cases (first_index (λ x. x == b) lg.lh)) [
  | inl n ↦ let l = length-append lg.lh (b ∷ []) in (ground arith, ground arith, ground arith)
  | inr (i, h) ↦
      let l = length-modify lg.lh i (λ _. b) in (ground arith, ground arith, ground arith)
]

leave_op-Left :
    (last : Bool) (lg lg' : Log)
    → leave_op lg ≡ ok (last, lg')
    → (lg'.outstanding ≡ (lg.outstanding + 2 ^ 32 - 1) % 2 ^ 32)
      × (lg'.lh ≡ lg.lh)
      × (lg'.committing ≡ true → lg'.outstanding ≡ 0)
unfolding leave_op
leave_op-Left last lg lg' e = (ground arith, ground arith, λ c. ground arith)

-- The log that a commit leaves: no more is logged, and begin_op() need not wait for it.
abbrev After : Log → Log → Type 0
After lg lg' =
    (length lg'.lh ≤ length lg.lh) × (lg'.outstanding ≡ lg.outstanding) × (lg'.committing ≡ false)

run_commit-After : (lg : Log) (st : Store) → After lg (run_commit lg st).0
unfolding run_commit commit
run_commit-After lg st = elim (Bool-cases (ltb 0 (length lg.lh))) [
  | inl t ↦ rw t (omega arith, refl, refl)
  | inr f ↦ rw f (omega arith, refl, refl)
]

cons_not_nil : (a : ℕ) (xs ys : List ℕ) → ¬ (xs ++ (a ∷ ys) ≡ [])
cons_not_nil a [] ys q = cc
cons_not_nil a (z ∷ zs) ys q = cc

Step-Fits : {s t : Busy} → Step s t → Fits s → Fits t
Step-Fits {s} {t} (begins e el) f =
    let ops = f.ops in
    let few = f.few in
    let (free_now, fits, same) = begin_op-Guard s.log t.log (omega arith) e in
    let small = sum-Allowed s.left f.allowed in
    let lh = ap (λ (l : Log). l.lh) same in
    let out = ap (λ (l : Log). l.outstanding) same in
    let idle = ap (λ (l : Log). l.committing) same in
    record {
      ops = rw el (rw out (omega arith));
      few = rw el (omega arith);
      allowed = rw el (omega arith, f.allowed);
      room = rw (el, lh) (omega arith);
      alone = λ c. absurd (cc);
    }
Step-Fits {s} {t} (writes b a xs ys e w el) f =
    let (more, out, same) = log_write-More b s.log t.log w in
    let l = length-append xs (suc a ∷ ys) in
    let l' = length-append xs (a ∷ ys) in
    let m = sum-append xs (suc a ∷ ys) in
    let m' = sum-append xs (a ∷ ys) in
    record {
      ops = rw (el, out) (rw e at (f.ops) ∙ l ∙ sym l');
      few = rw el (let r = rw e at (f.few) in omega arith);
      allowed = rw el (Allowed-less xs ys a (rw e at (f.allowed)));
      room = rw el (let r = rw e at (f.room) in omega arith);
      alone = λ c. absurd (cons_not_nil (suc a) xs ys (sym e ∙ f.alone (sym same ∙ c)));
    }
Step-Fits {s} {t} (leaves last a xs ys e lv el) f =
    let (out, same, alone) = leave_op-Left last s.log t.log lv in
    let l = length-append xs (a ∷ ys) in
    let l' = length-append xs ys in
    let m = sum-append xs (a ∷ ys) in
    let m' = sum-append xs ys in
    let few = rw e at (f.few) in
    let ops = rw e at (f.ops) in
    let left : t.log.outstanding ≡ length (xs ++ ys) = rw out (omega arith) in
    record {
      ops = rw el left;
      few = rw el (omega arith);
      allowed = rw el (Allowed-without xs ys a (rw e at (f.allowed)));
      room = rw (el, same) (let r = rw e at (f.room) in omega arith);
      alone = λ c. let z = alone c in el ∙ empty_of (xs ++ ys) (sym left ∙ z);
    }
  where
    empty_of : (zs : List ℕ) → length zs ≡ 0 → zs ≡ []
    empty_of [] q = refl
    empty_of (z ∷ zs) q = absurd (omega arith)
Step-Fits {s} {t} (commits st st' c e el) f =
    let (less, out, idle) =
      let same : (run_commit s.log st).0 ≡ t.log = ap (λ (r : Log × Store). r.0) e in
      subst (After s.log) same (run_commit-After s.log st) in
    record {
      ops = rw (el, out) f.ops;
      few = rw el f.few;
      allowed = rw el f.allowed;
      room = rw el (let r = f.room in omega arith);
      alone = λ d. absurd (cc);
    }

Reach-Fits : {s t : Busy} → Fits s → Reach s t → Fits t
Reach-Fits f here = f
Reach-Fits f (next r st) = Step-Fits st (Reach-Fits f r)

-- log_write() goes through, or there are LOGSIZE - 1 blocks in the log and it panics.
abbrev pub Writes : ℕ → Log → Type 0
Writes b lg =
    ((length lg.lh < log_size - 1) × ((lg' : Log) × (log_write b lg ≡ ok lg')))
    ⊎ ((length lg.lh ≡ log_size - 1) × (log_write b lg ≡ panic "too big a transaction"))

log_write-Writes :
    (b : ℕ) (lg : Log)
    → length lg.lh < log_size
    → lg.size ≡ log_size
    → 0 < lg.outstanding
    → lg.outstanding < 2 ^ 31
    → Writes b lg
unfolding log_write
log_write-Writes b lg room size busy few =
    let inside : (ltb lg.outstanding 1 || leb (2 ^ 31) lg.outstanding) ≡ false = ground arith in
    elim (Bool-cases (leb log_size (length lg.lh) || leb (lg.size - 1) (length lg.lh))) [
      | inr fits ↦ inl (ground arith, (record lg { lh = absorb b lg.lh }, rw (fits, inside) refl))
      | inl full ↦ inr (ground arith, rw full refl)
    ]

leave_op-ok :
    (lg : Log)
    → lg.committing ≡ false
    → (last : Bool) × (lg' : Log) × (leave_op lg ≡ ok (last, lg'))
unfolding leave_op
leave_op-ok lg idle = elim (Bool-cases ((lg.outstanding + 2 ^ 32 - 1) % 2 ^ 32 == 0)) [
  | inl t ↦ (
    true,
    record lg { outstanding = (lg.outstanding + 2 ^ 32 - 1) % 2 ^ 32; committing = true },
    rw (idle, t) refl,
  )
  | inr f ↦
      (false, record lg { outstanding = (lg.outstanding + 2 ^ 32 - 1) % 2 ^ 32 }, rw (idle, f) refl)
]

-- From a log whose blocks, logged and reserved, fit into LOGSIZE, in any sequence of steps in which
-- no operation logs more than MAXOPBLOCKS new blocks, and with a log on the disk of LOGSIZE blocks:
-- log_write() by an operation that may still log a block panics exactly where LOGSIZE - 1 blocks
-- are logged, and fewer are logged otherwise; end_op() by an operation under way does not panic;
-- and while a commit runs no operation is under way.
pub space_lem :
    {s t : Busy}
    → Fits s
    → Reach s t
    → t.log.size ≡ log_size
    → ((b a : ℕ) (xs ys : List ℕ) → t.left ≡ xs ++ (suc a ∷ ys) → Writes b t.log)
      × ((a : ℕ) (xs ys : List ℕ)
          → t.left ≡ xs ++ (a ∷ ys)
          → (last : Bool) × (lg : Log) × (leave_op t.log ≡ ok (last, lg)))
      × (t.log.committing ≡ true → t.left ≡ [])
space_lem {s} {t} f0 r big = let f = Reach-Fits f0 r in (writes_ok f, leaves_ok f, f.alone)
  where
    writes_ok : Fits t → (b a : ℕ) (xs ys : List ℕ) → t.left ≡ xs ++ (suc a ∷ ys) → Writes b t.log
    writes_ok f b a xs ys e =
        let l = length-append xs (suc a ∷ ys) in
        let m = sum-append xs (suc a ∷ ys) in
        let ops = f.ops in
        let few = f.few in
        let room = f.room in
        log_write-Writes b t.log (let q = rw e at (room) in omega arith) big
          (let q = rw e at (ops) in omega arith) (omega arith)

    leaves_ok :
        Fits t
        → (a : ℕ) (xs ys : List ℕ) → t.left ≡ xs ++ (a ∷ ys)
        → (last : Bool) × (lg : Log) × (leave_op t.log ≡ ok (last, lg))
    leaves_ok f a xs ys e = elim (Bool-cases t.log.committing) [
      | inl c ↦ absurd (cons_not_nil a xs ys (sym e ∙ f.alone c))
      | inr idle ↦ leave_op-ok t.log idle
    ]
