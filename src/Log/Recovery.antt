-- ===== src/Log/Recovery.antt =====
-- log.c: crashes in a commit and in any number of recoveries, and the recovery that is not cut off.
use spring18cs.Base.{ℕ, ◌-◌, ◌≡◌, ◌<◌, ◌≤◌, ◌⊎◌, inl, inr, refl, ◌∙◌, List, [], ◌∷◌, arith, length}
use native.Mathlib.Decide.{dec_le}
use spring18cs.Log.{Log, Block, Store, decode, write_head, read_head, commit, recover_from_log}
use spring18cs.Log.Crash.{logical, Sound, finish_lem}
use spring18cs.Log.Commit.{Ready, commit-Commits, Says, Holds, empty-Sound}

-- The machine that starts on the disk `d`, where `n` block writes reach the disk.
abbrev pub reboot : (ℕ → Block) → ℕ → Store
reboot d n = record { disk = d; view = d; writes_left = n }

-- The disk after recoveries one after the other, each cut off after so many writes.
abbrev pub recoveries : Log → List ℕ → (ℕ → Block) → ℕ → Block
recoveries lg [] d = d
recoveries lg (n ∷ ns) d = recoveries lg ns (recover_from_log lg (reboot d n)).1.disk

-- What a recovery from the disk `d` leaves on the disk `e`.
pub record Recovers (lg : Log) (n : ℕ) (d e : ℕ → Block) : Type 0 where
  pub says : Says lg.start (lg.size - 1) e (logical lg.start d)
  pub sound : Sound lg.start (lg.size - 1) (decode (e lg.start))
  pub whole :
      length (decode (d lg.start)) < n
      → (decode (e lg.start) ≡ []) × Holds lg.start (lg.size - 1) e (logical lg.start d)

recover-Recovers :
    (lg : Log) (n : ℕ) (d : ℕ → Block)
    → Sound lg.start (lg.size - 1) (decode (d lg.start))
    → Recovers lg n d (recover_from_log lg (reboot d n)).1.disk
unfolding recover_from_log read_head write_head
recover-Recovers lg n d sound =
    let f =
      finish_lem lg.start (lg.size - 1) (decode (d lg.start)) (reboot d n) sound refl
        (λ i lt. refl) in
    record {
      says = f.says;
      sound = elim f.header [ inl e ↦ rw e sound | inr e ↦ empty-Sound lg.start (lg.size - 1) _ e ];
      whole = f.homes;
    }

recoveries-Says :
    (lg : Log) (ns : List ℕ) (d : ℕ → Block)
    → Sound lg.start (lg.size - 1) (decode (d lg.start))
    → Sound lg.start (lg.size - 1) (decode (recoveries lg ns d lg.start))
      × Says lg.start (lg.size - 1) (recoveries lg ns d) (logical lg.start d)
recoveries-Says lg [] d sound = (sound, λ b home. refl)
recoveries-Says lg (n ∷ ns) d sound =
    let r = recover-Recovers lg n d sound in
    let (sound', says) = recoveries-Says lg ns (recover_from_log lg (reboot d n)).1.disk r.sound in
    (sound', λ b home. says b home ∙ r.says b home)

-- The power fails at any moment of a commit(), and again in any number of recoveries; then one
-- recovery runs on a machine whose power lasts for a full log. The disk then holds, in all blocks
-- outside the log, what it held before the commit if the first failure came before the write of
-- the header, and what the cache held otherwise; and the log on it is empty.
pub crash_recovery :
    (lg : Log) (s : Store) (ns : List ℕ) (n : ℕ)
    → Ready lg s
    → lg.size - 1 < n
    → let cut = (commit lg s).1.disk in
      let d = (recover_from_log lg (reboot (recoveries lg ns cut) n)).1.disk in
      (decode (d lg.start) ≡ [])
      × (((s.writes_left ≤ length lg.lh) × Holds lg.start (lg.size - 1) d s.disk)
          ⊎ ((length lg.lh < s.writes_left) × Holds lg.start (lg.size - 1) d s.view))
crash_recovery lg s ns n ready enough =
    let cut = (commit lg s).1.disk in
    let c = commit-Commits lg s ready in
    let (sound, says) = recoveries-Says lg ns cut c.sound in
    let r = recover-Recovers lg n (recoveries lg ns cut) sound in
    let fits = sound.fits in
    let (empty, holds) = r.whole (omega arith) in
    (
      empty,
      elim (dec_le s.writes_left (length lg.lh)) [
        | yes out ↦ inl (out, λ b home. holds b home ∙ says b home ∙ c.before out b home)
        | no more ↦
            let lt : length lg.lh < s.writes_left = omega arith in
            inr (lt, λ b home. holds b home ∙ says b home ∙ c.after lt b home)
      ],
    )
