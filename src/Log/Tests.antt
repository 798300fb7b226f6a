-- ===== src/Log/Tests.antt =====
-- log.c: the theorems on a log of two blocks.
use spring18cs.Base.{
  ℕ, ◌≡◌, ◌<◌, ◌≤◌, ◌⊎◌, inr, refl, true, false, ◌==◌, Bool, List, [], ◌∷◌, ◌++◌, none, arith, suc,
  replicate, first_index, first_index-cons_none, ok,
}
use spring18cs.Log.{
  Log, Block, Store, set_block, encode, decode, commit, recover_from_log, log_write, leave_op,
  begin_op, take_words,
}
use spring18cs.Log.Header.{decode-encode}
use spring18cs.Log.Commit.{Ready, Commits, commit-Commits, Holds}
use spring18cs.Log.Recovery.{reboot, recoveries, crash_recovery}
use spring18cs.Log.Space.{Busy, Reach, here, next, begins, writes, Writes, Fits, space_lem}

decode-encode_example : decode (encode (40 ∷ 50 ∷ []) (replicate 128 7)) ≡ 40 ∷ 50 ∷ []
decode-encode_example = decode-encode (40 ∷ 50 ∷ []) (replicate 128 7) (omega arith)

-- Blocks 40 and 50 were changed in the cache and logged; the power fails after four writes: two log
-- blocks, the header, and block 40.
abbrev two_logged : Log
two_logged = record { start = 2; size = 31; outstanding = 0; committing = true; lh = 40 ∷ 50 ∷ [] }

abbrev zeros : ℕ → Block
zeros b = replicate 128 0

abbrev changed : Store
changed = record {
  disk = zeros;
  view = set_block 40 (replicate 128 1) (set_block 50 (replicate 128 2) zeros);
  writes_left = 4;
}

changed-Ready : Ready two_logged changed
unfolding first_index take_words
changed-Ready = record {
  sound = record {
    off = (inr (omega arith), (inr (omega arith), tt));
    distinct = (refl, (refl, tt));
    fits = omega arith;
  };
  room = omega arith;
  clean = refl;
  synced = λ b home e. unlogged b e;
}
  where
    unlogged :
        (b : ℕ) → first_index (λ x. x == b) (40 ∷ 50 ∷ []) ≡ none → changed.view b ≡ changed.disk b
    unlogged b e =
        let (n, e') = first_index-cons_none (λ x. x == b) 40 (50 ∷ []) e in
        let (m, _) = first_index-cons_none (λ x. x == b) 50 [] e' in ground arith

commit-Commits_example : Commits two_logged changed (commit two_logged changed).1.disk
commit-Commits_example = commit-Commits two_logged changed changed-Ready

-- Then a recovery is cut off after one write, and the next one is not.
crash_recovery_example :
    let cut = (commit two_logged changed).1.disk in
    let d = (recover_from_log two_logged (reboot (recoveries two_logged (1 ∷ []) cut) 31)).1.disk in
    (decode (d 2) ≡ []) × (((4 ≤ 2) × Holds 2 30 d zeros) ⊎ ((2 < 4) × Holds 2 30 d changed.view))
crash_recovery_example = crash_recovery two_logged changed (1 ∷ []) 31 changed-Ready (omega arith)

-- One operation begins and logs block 40.
abbrev idle : Busy
idle = record {
  log = record { start = 2; size = 30; outstanding = 0; committing = false; lh = [] };
  left = [];
}

abbrev begun : Busy
begun = record {
  log = record { start = 2; size = 30; outstanding = 1; committing = false; lh = [] };
  left = 10 ∷ [];
}

abbrev logged_one : Busy
logged_one = record {
  log = record { start = 2; size = 30; outstanding = 1; committing = false; lh = 40 ∷ [] };
  left = 9 ∷ [];
}

idle-Fits : Fits idle
idle-Fits = record {
  ops = refl;
  few = omega arith;
  allowed = tt;
  room = omega arith;
  alone = λ e. refl;
}

to_logged_one : Reach idle logged_one
unfolding begin_op log_write first_index
to_logged_one = next (next here (begins refl refl)) (writes 40 9 [] [] refl refl refl)

space_lem_example :
    ((b a : ℕ) (xs ys : List ℕ) → logged_one.left ≡ xs ++ (suc a ∷ ys) → Writes b logged_one.log)
    × ((a : ℕ) (xs ys : List ℕ)
        → logged_one.left ≡ xs ++ (a ∷ ys)
        → (last : Bool) × (lg : Log) × (leave_op logged_one.log ≡ ok (last, lg)))
    × (false ≡ true → logged_one.left ≡ [])
space_lem_example = space_lem idle-Fits to_logged_one refl
