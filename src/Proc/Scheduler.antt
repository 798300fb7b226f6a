-- ===== src/Proc/Scheduler.antt =====
-- proc.c: the order in which scheduler() goes round the table.
use spring18cs.Base.{
  ℕ, suc, ◌+◌, ◌-◌, ◌≡◌, ◌≢◌, ◌<◌, ◌≤◌, inl, inr, refl, sym, ◌∙◌, true, List, none, some, arith,
  length, get_elem?, get_elem?-drop, drop, first_index, first_index-some, first_index-before,
  first_index-none, lt_of_get_elem?, Option-cases,
}
use native.Mathlib.Decide.{dec_le}
use spring18cs.Proc.Types.{runnable, Proc, in_state, nproc}
use spring18cs.Proc.Table.{next_runnable}
use spring18cs.Proc.Inv.{Slot}

-- The process in slot `q` can run.
abbrev pub Ready : List Proc → ℕ → Type 0
Ready ps q = (p : Proc) × Slot ps q p × (p.state ≡ runnable)

next_runnable-Finds :
    (i : ℕ) (ps : List Proc) (j : ℕ)
    → next_runnable i ps ≡ some j
    → (i ≤ j) × (j < length ps) × ((q : ℕ) → Ready ps q → i ≤ q → j ≤ q)
unfolding next_runnable
next_runnable-Finds i ps j e =
    elim (Option-cases (first_index (λ p. in_state p.state runnable) (drop i ps))) [
      | inl n ↦ absurd (ground arith)
      | inr (k, f) ↦
          let at : j ≡ i + k = ground arith in
          let (x, g, t) = first_index-some (λ p. in_state p.state runnable) (drop i ps) f in
          let here : get_elem? ps (i + k) ≡ some x = sym (get_elem?-drop i ps k) ∙ g in
          (
            omega arith,
            let lt = lt_of_get_elem? ps (i + k) here in omega arith,
            λ q (p, s, r) le. elim (dec_le j q) [
              | yes h ↦ h
              | no h ↦
                  let there : get_elem? (drop i ps) (q - i) ≡ some p =
                    let ix : i + (q - i) ≡ q = omega arith in
                    get_elem?-drop i ps (q - i) ∙ rw ix s in
                  let miss =
                    first_index-before (λ p. in_state p.state runnable) (drop i ps) {i = k}
                      {j = q - i} f (omega arith) there in
                  absurd (let hit : in_state p.state runnable ≡ true = rw r refl in cc)
            ],
          )
    ]

next_runnable-none :
    (i : ℕ) (ps : List Proc) (q : ℕ) → next_runnable i ps ≡ none → Ready ps q → q < i
unfolding next_runnable
next_runnable-none i ps q e (p, s, r) = elim (dec_le i q) [
  | yes h ↦ elim (Option-cases (first_index (λ p. in_state p.state runnable) (drop i ps))) [
    | inl n ↦
        let there : get_elem? (drop i ps) (q - i) ≡ some p =
          let ix : i + (q - i) ≡ q = omega arith in get_elem?-drop i ps (q - i) ∙ rw ix s in
        let miss = first_index-none (λ p. in_state p.state runnable) (drop i ps) (q - i) n there in
        absurd (let hit : in_state p.state runnable ≡ true = rw r refl in cc)
    | inr (k, f) ↦ absurd (ground arith)
  ]
  | no h ↦ omega arith
]

-- scheduler() from slot `i` on: it switches to `n` processes, one after the other, none of them the
-- one in slot `q`, though that can run whenever the scheduler looks. While a process runs, the
-- table may change in any way. At the end of the table the scheduler starts over.
pub data Passes (q : ℕ) : ℕ → ℕ → Type 0 where
  stops : (i : ℕ) → Passes q i 0
  runs :
      (i n j : ℕ) (ps : List Proc)
      → length ps ≡ nproc
      → Ready ps q
      → next_runnable i ps ≡ some j
      → j ≢ q
      → Passes q (j + 1) n
      → Passes q i (suc n)
  starts_over :
      (i n : ℕ) (ps : List Proc)
      → length ps ≡ nproc
      → Ready ps q
      → next_runnable i ps ≡ none
      → Passes q 0 n
      → Passes q i n

-- How many slots come before `q` from `i` on, round the table.
Passes-bound :
    {q i n : ℕ}
    → q < nproc
    → i ≤ nproc
    → Passes q i n
    → (i ≤ q → n + i ≤ q) × (q < i → n + i ≤ nproc + q)
Passes-bound lt le (stops i) = (λ h. omega arith, λ h. omega arith)
Passes-bound {q} lt le (runs i n j ps size ready e ne rest) =
    let (ge, small, first) = next_runnable-Finds i ps j e in
    let (before, behind) = Passes-bound lt (omega arith) rest in
    (
      λ h. let near = first q ready h in let b = before (omega arith) in omega arith,
      λ h. let b = behind (omega arith) in omega arith,
    )
Passes-bound {q} lt le (starts_over i n ps size ready e rest) =
    let passed = next_runnable-none i ps q e ready in
    let (before, _) = Passes-bound lt (omega arith) rest in
    (λ h. absurd (omega arith), λ h. let b = before (omega arith) in omega arith)

-- From any slot on, and whatever the processes do, scheduler() switches to no more than 63 others
-- before it switches to a process that can run and stays so.
pub Passes-few : {q i n : ℕ} → q < nproc → i ≤ nproc → Passes q i n → n < nproc
Passes-few {q} {i} lt le p =
    let (before, behind) = Passes-bound lt le p in
    elim (dec_le i q) [
      | yes h ↦ let b = before h in omega arith
      | no h ↦ let b = behind (omega arith) in omega arith
    ]
