-- ===== src/Fs/Logged.antt =====
-- fs.c and log.c: the calls of log_write() that a call of fs.c makes, on the log.
use spring18cs.Base.{
  ℕ, suc, ◌+◌, ◌-◌, ◌^◌, ◌<◌, ◌≤◌, ◌≡◌, inl, inr, refl, ◌||◌, false, ltb, leb, ◌==◌, List, [], ◌∷◌,
  Outcome, ok, ◌>>=◌, arith, length, length-append, length-modify, first_index, Option-cases,
}
use spring18cs.Log.{Log, log_size, log_write, absorb}

-- log_write() for these blocks, the last one first.
unfoldable pub log_writes : List ℕ → Log → Outcome Log
log_writes [] lg = ok lg
log_writes (b ∷ bs) lg = log_writes bs lg >>= log_write b

-- The log has room for `n` blocks more, and an operation is under way.
pub record Room (n : ℕ) (lg : Log) : Type 0 where
  pub fits : length lg.lh + n < log_size
  pub on_disk : length lg.lh + n < lg.size
  pub begun : 0 < lg.outstanding
  pub few : lg.outstanding < 2 ^ 31

absorb-length : (b : ℕ) (lh : List ℕ) → length (absorb b lh) ≤ suc (length lh)
absorb-length b lh = elim (Option-cases (first_index (λ x. x == b) lh)) [
  | inl e ↦ let l = length-append lh (b ∷ []) in ground arith
  | inr (i, e) ↦ let l = length-modify lh i (λ _. b) in ground arith
]

-- As many calls as there is room for do not panic.
pub log_writes-Room :
    (bs : List ℕ) (n : ℕ) (lg : Log)
    → length bs ≤ n
    → Room n lg
    → (lg' : Log) × (log_writes bs lg ≡ ok lg') × Room (n - length bs) lg'
unfolding log_writes log_write
log_writes-Room [] n lg le r = let same : n - 0 ≡ n = omega arith in (lg, refl, rw same r)
log_writes-Room (b ∷ bs) n lg le r =
    let (lg1, e, r1) = log_writes-Room bs n lg (omega arith) r in
    let f1 = r1.fits in
    let f2 = r1.on_disk in
    let f3 = r1.begun in
    let f4 = r1.few in
    let room : (leb log_size (length lg1.lh) || leb (lg1.size - 1) (length lg1.lh)) ≡ false =
      ground arith in
    let inside : (ltb lg1.outstanding 1 || leb (2 ^ 31) lg1.outstanding) ≡ false = ground arith in
    let l = absorb-length b lg1.lh in
    (
      record lg1 { lh = absorb b lg1.lh },
      rw (log_writes, e, log_write, room, inside) refl,
      record { fits = omega arith; on_disk = omega arith; begun = f3; few = f4 },
    )
