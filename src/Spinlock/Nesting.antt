-- ===== src/Spinlock/Nesting.antt =====
-- spinlock.c: nested calls of pushcli() and popcli().
use spring18cs.Base.{
  sym, refl, Bool-cases, inl, inr, if◌then◌else◌, ℕ, zero, suc, ◌+◌, ◌-◌, ◌%◌, ◌^◌, leb, ap, ◌<◌,
  ◌≡◌, Bool, false, ◌==◌, arith, Outcome, ok, ◌>>=◌,
}
use spring18cs.Spinlock.{Cpu, pushcli, popcli}

-- `n` calls of pushcli(), and of popcli().
abbrev pub pushes : ℕ → Cpu → Cpu
pushes zero p = p
pushes (suc n) p = pushes n (pushcli p)

abbrev pub pops : ℕ → Cpu → Outcome Cpu
pops zero p = ok p
pops (suc n) p = do q ← pops n p; popcli q

-- Interrupts are off while a pushcli() is open.
abbrev pub Quiet : Cpu → Type 0
Quiet p = 0 < p.ncli → p.flag_if ≡ false

-- What an open pushcli() looks like.
abbrev off_at : ℕ → Bool → Cpu
off_at n intena = record { ncli = n; intena = intena; flag_if = false }

pushes-off_at :
    (n m : ℕ) (b : Bool) → 0 < m → m + n < 2 ^ 31 → pushes n (off_at m b) ≡ off_at (m + n) b
unfolding pushcli
pushes-off_at zero m b h small = let e : m + 0 ≡ m = omega arith in rw e
pushes-off_at (suc n) m b h small =
    let e : m + suc n ≡ m + 1 + n = omega arith in
    let up : (m + 1) % 2 ^ 32 ≡ m + 1 = omega arith in
    let nz : (m == 0) ≡ false = ground arith in
    rw (e, up, nz) (pushes-off_at n (m + 1) b (omega arith) (omega arith))

pops-off_at :
    (n m : ℕ) (b : Bool) → 0 < m → m + n < 2 ^ 31 → pops n (off_at (m + n) b) ≡ ok (off_at m b)
unfolding popcli
pops-off_at zero m b h small = let e : m + 0 ≡ m = omega arith in rw e
pops-off_at (suc n) m b h small =
    let e : m + suc n ≡ m + 1 + n = omega arith in
    let one_less : (m + 1 + 2 ^ 32 - 1) % 2 ^ 32 ≡ m = omega arith in
    let pos : leb (2 ^ 31) m ≡ false = ground arith in
    let open_still : (m == 0) ≡ false = ground arith in
    rw (e, pops-off_at n (m + 1) b (omega arith) (omega arith), one_less, pos, open_still) refl

-- The last popcli() brings the interrupt flag back.
popcli-pushcli :
    (p : Cpu)
    → Quiet p
    → p.ncli + 1 < 2 ^ 31
    → (q : Cpu) × (popcli (pushcli p) ≡ ok q) × (q.flag_if ≡ p.flag_if) × (q.ncli ≡ p.ncli)
unfolding popcli pushcli
popcli-pushcli p quiet small =
    let up : (p.ncli + 1) % 2 ^ 32 ≡ p.ncli + 1 = omega arith in
    let back : (p.ncli + 1 + 2 ^ 32 - 1) % 2 ^ 32 ≡ p.ncli = omega arith in
    let pos : leb (2 ^ 31) p.ncli ≡ false = ground arith in
    elim (Bool-cases (p.ncli == 0)) [
      | inl z ↦
          let n : p.ncli ≡ 0 = ground arith in
          (
            record { ncli = 0; intena = p.flag_if; flag_if = p.flag_if },
            rw (up, back, pos, z)
                (ap (λ (m : ℕ). ok (record { ncli = m; intena = p.flag_if; flag_if = p.flag_if }))
                  n),
            refl,
            sym n,
          )
      | inr nz ↦
          let off = quiet (ground arith) in
          (
            record { ncli = p.ncli; intena = p.intena; flag_if = false },
            rw (up, back, pos, nz) refl,
            sym off,
            refl,
          )
    ]

-- On a processor whose interrupts are off while a pushcli() is open, any number of calls of
-- pushcli(), at least one, with which `ncli` stays below 2 ^ 31, and as many of popcli() do not
-- panic and bring `ncli` and the interrupt flag back; after the calls of pushcli() interrupts are
-- off.
pub pops-pushes :
    (n : ℕ) (p : Cpu)
    → Quiet p
    → p.ncli + suc n < 2 ^ 31
    → ((q : Cpu) × (pops (suc n) (pushes (suc n) p) ≡ ok q)
        × (q.flag_if ≡ p.flag_if)
        × (q.ncli ≡ p.ncli))
      × ((pushes (suc n) p).flag_if ≡ false)
unfolding pushcli
pops-pushes n p quiet small =
    let (q, e, same, depth) = popcli-pushcli p quiet (omega arith) in
    let up : (p.ncli + 1) % 2 ^ 32 ≡ p.ncli + 1 = omega arith in
    let i = if p.ncli == 0 then p.flag_if else p.intena in
    let pushed : pushes (suc n) p ≡ off_at (p.ncli + 1 + n) i =
      rw up (pushes-off_at n (p.ncli + 1) i (omega arith) (omega arith)) in
    (
      (
        q,
        rw (pushed, pops-off_at n (p.ncli + 1) i (omega arith) (omega arith)) (rw up at (e)),
        same,
        depth,
      ),
      rw pushed refl,
    )
