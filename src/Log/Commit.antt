-- ===== src/Log/Commit.antt =====
-- log.c: what commit() leaves on the disk, by where the power fails.
use spring18cs.Base.{
  ℕ, ◌+◌, ◌-◌, ◌*◌, List, ◌∷◌, Bool-cases, ltb, false, get_elem?-in_range, ◌≡◌, ◌<◌, ◌≤◌, inl, inr,
  refl, sym, ◌∙◌, ap, ◌==◌, [], Option, none, some, arith, length, get_elem?, first_index,
  first_index-some,
}
use native.Mathlib.Decide.{dec_le}
use spring18cs.Log.{commit, write_head, Log, Block, Store, bwrite, encode, decode, write_log}
use spring18cs.Log.Header.{decode-encode}
use spring18cs.Log.Phases.{
  bwrite-off, bwrite-at, bwrite-left, bwrite-late, write_log-left, write_log-Off, write_log-logs,
  install-left, install-late,
}
use spring18cs.Log.Crash.{
  Home, Home-apart, logical, logical-empty, pick, Sound, install_all, clear_all, Finishes,
  finish_lem,
}

-- A log that is about to be committed: its blocks are sound, the header fits into its block, the log
-- on the disk is empty, and the cache differs from the disk in logged blocks only.
pub record Ready (lg : Log) (s : Store) : Type 0 where
  pub sound : Sound lg.start (lg.size - 1) lg.lh
  pub room : length lg.lh < length (s.view lg.start)
  pub clean : decode (s.disk lg.start) ≡ []
  pub synced :
      (b : ℕ)
      → Home lg.start (lg.size - 1) b
      → first_index (λ x. x == b) lg.lh ≡ none
      → s.view b ≡ s.disk b

module _ (lg : Log) (s : Store) (ready : Ready lg s) where
  abbrev logged : Store
  logged = write_log lg.start 0 lg.lh s

  abbrev headed : Store
  headed = bwrite lg.start (encode lg.lh (logged.view lg.start)) logged

  abbrev committed : Store
  committed = clear_all lg.start lg.lh headed

  logged-start : (logged.disk lg.start ≡ s.disk lg.start) × (logged.view lg.start ≡ s.view lg.start)
  logged-start = write_log-Off lg.start 0 lg.lh s lg.start (inl (omega arith))

  logged-Home : (b : ℕ) → Home lg.start (lg.size - 1) b → logged.disk b ≡ s.disk b
  logged-Home b (inl h) = (write_log-Off lg.start 0 lg.lh s b (inl (omega arith))).0
  logged-Home b (inr h) =
      let fits = ready.sound.fits in (write_log-Off lg.start 0 lg.lh s b (inr (omega arith))).0

  logged-left : logged.writes_left ≡ s.writes_left - length lg.lh
  logged-left = write_log-left lg.start 0 lg.lh s

  -- Where the power failed before the header was written, only log blocks changed.
  before_disk : s.writes_left ≤ length lg.lh → committed.disk ≡ logged.disk
  before_disk out =
      let image = encode lg.lh (logged.view lg.start) in
      let last = encode [] ((install_all lg.start lg.lh headed).view lg.start) in
      let z : logged.writes_left ≡ 0 = let e = logged-left in omega arith in
      let z2 : headed.writes_left ≡ 0 = let e = bwrite-left lg.start image logged in omega arith in
      let z3 : (install_all lg.start lg.lh headed).writes_left ≡ 0 =
        let e = install-left lg.start 0 lg.lh headed in omega arith in
      bwrite-late lg.start last (install_all lg.start lg.lh headed) z3
      ∙ install-late lg.start 0 lg.lh headed z2
      ∙ bwrite-late lg.start image logged z

  before_header : s.writes_left ≤ length lg.lh → decode (committed.disk lg.start) ≡ []
  before_header out =
      ap (λ (f : ℕ → Block). decode (f lg.start)) (before_disk out)
      ∙ ap decode logged-start.0
      ∙ ready.clean

  before_says :
      s.writes_left ≤ length lg.lh
      → (b : ℕ) → Home lg.start (lg.size - 1) b
      → logical lg.start committed.disk b ≡ s.disk b
  before_says out b home =
      logical-empty lg.start committed.disk b (before_header out)
      ∙ ap (λ (f : ℕ → Block). f b) (before_disk out)
      ∙ logged-Home b home

  headed-head : length lg.lh < s.writes_left → decode (headed.disk lg.start) ≡ lg.lh
  headed-head lt =
      let left : 0 < logged.writes_left = let e = logged-left in omega arith in
      ap decode (bwrite-at lg.start (encode lg.lh (logged.view lg.start)) logged left).0
      ∙ decode-encode lg.lh (logged.view lg.start) (rw logged-start.1 ready.room)

  -- The log blocks hold what the cache holds of the blocks that they are for.
  headed-log :
      length lg.lh < s.writes_left
      → (i b : ℕ) → get_elem? lg.lh i ≡ some b
      → (headed.disk (lg.start + i + 1) ≡ s.view b) × (headed.view (lg.start + i + 1) ≡ s.view b)
  headed-log lt i b g =
      let fits = ready.sound.fits in
      let here : lg.start + 0 + i + 1 ≡ lg.start + i + 1 = omega arith in
      let logs =
        write_log-logs lg.start (lg.size - 1) 0 lg.lh s i b (omega arith) (omega arith)
          ready.sound.off g in
      let (d, v) = rw here at (logs) in
      let (d', v') =
        bwrite-off lg.start (lg.start + i + 1) (encode lg.lh (logged.view lg.start)) logged
          (λ e. omega arith) in
      (d' ∙ d, v' ∙ v)

  headed-picks :
      length lg.lh < s.writes_left
      → (b : ℕ) → Home lg.start (lg.size - 1) b
      → (o : Option ℕ) → first_index (λ x. x == b) lg.lh ≡ o
      → pick headed.disk lg.start b o ≡ s.view b
  headed-picks lt b home none e =
      (bwrite-off lg.start b (encode lg.lh (logged.view lg.start)) logged
        (Home-apart lg.start (lg.size - 1) b home)).0
      ∙ logged-Home b home
      ∙ sym (ready.synced b home e)
  headed-picks lt b home (some i) e =
      let (x, g, same) = first_index-some (λ x. x == b) lg.lh e in
      let same' : x ≡ b = ground arith in (headed-log lt i x g).0 ∙ ap s.view same'

  -- Once the header is written, the disk says what the cache holds.
  after_says :
      length lg.lh < s.writes_left
      → (b : ℕ) → Home lg.start (lg.size - 1) b
      → logical lg.start headed.disk b ≡ s.view b
  after_says lt b home = rw (headed-head lt) (headed-picks lt b home _ refl)

-- What the disk `d` says of every home block is `f`.
abbrev pub Says : ℕ → ℕ → (ℕ → Block) → (ℕ → Block) → Type 0
Says start cap d f = (b : ℕ) → Home start cap b → logical start d b ≡ f b

-- On the disk `d`, every home block is `f`.
abbrev pub Holds : ℕ → ℕ → (ℕ → Block) → (ℕ → Block) → Type 0
Holds start cap d f = (b : ℕ) → Home start cap b → d b ≡ f b

-- What a commit of `lg` leaves on the disk `d`, wherever the power failed.
pub record Commits (lg : Log) (s : Store) (d : ℕ → Block) : Type 0 where
  pub before : s.writes_left ≤ length lg.lh → Says lg.start (lg.size - 1) d s.disk
  pub after : length lg.lh < s.writes_left → Says lg.start (lg.size - 1) d s.view
  pub sound : Sound lg.start (lg.size - 1) (decode (d lg.start))
  pub whole :
      2 * length lg.lh + 1 < s.writes_left
      → (decode (d lg.start) ≡ []) × Holds lg.start (lg.size - 1) d s.view

pub empty-Sound : (start cap : ℕ) (hs : List ℕ) → hs ≡ [] → Sound start cap hs
empty-Sound start cap hs e = rw e (record { off = tt; distinct = tt; fits = omega arith })

Commits-none : (lg : Log) (s : Store) → lg.lh ≡ [] → Ready lg s → Commits lg s s.disk
unfolding first_index
Commits-none lg s none_left ready =
    let kept : Holds lg.start (lg.size - 1) s.disk s.view =
      λ b home. sym (ready.synced b home (rw none_left refl)) in
    record {
      before = λ out b home. logical-empty lg.start s.disk b ready.clean;
      after = λ lt b home. logical-empty lg.start s.disk b ready.clean ∙ kept b home;
      sound = empty-Sound lg.start (lg.size - 1) _ ready.clean;
      whole = λ lt. (ready.clean, kept);
    }

-- The second half of a commit, from the header on.
committed-Finishes :
    (lg : Log) (s : Store) (ready : Ready lg s)
    → length lg.lh < s.writes_left
    → Finishes lg.start (lg.size - 1) lg.lh (headed lg s ready)
committed-Finishes lg s ready lt =
    finish_lem lg.start (lg.size - 1) lg.lh (headed lg s ready) ready.sound
      (headed-head lg s ready lt)
      (λ i h.
        let (b, g) = get_elem?-in_range lg.lh i h in
        let (d, v) = headed-log lg s ready lt i b g in v ∙ sym d)

Commits-some :
    (lg : Log) (s : Store) (ready : Ready lg s) → Commits lg s (committed lg s ready).disk
Commits-some lg s ready = elim (dec_le s.writes_left (length lg.lh)) [
  | yes out ↦ record {
    before = λ _. before_says lg s ready out;
    after = λ lt. absurd (omega arith);
    sound = empty-Sound lg.start (lg.size - 1) _ (before_header lg s ready out);
    whole = λ lt. absurd (omega arith);
  }
  | no more ↦
      let lt : length lg.lh < s.writes_left = omega arith in
      let f = committed-Finishes lg s ready lt in
      record {
        before = λ out. absurd (more out);
        after = λ _ b home. f.says b home ∙ after_says lg s ready lt b home;
        sound = elim f.header [
          | inl e ↦ rw e ready.sound
          | inr e ↦ empty-Sound lg.start (lg.size - 1) _ e
        ];
        whole = λ enough.
            let e = logged-left lg s ready in
            let e2 =
              bwrite-left lg.start (encode lg.lh ((logged lg s ready).view lg.start))
                (logged lg s ready) in
            let (h, homes) = f.homes (omega arith) in
            (h, λ b home. homes b home ∙ after_says lg s ready lt b home);
      }
]

-- A commit() of blocks that are logged once each, all outside the log and no more than it holds,
-- where the cache differs from the disk in logged blocks only and the log on the disk is empty. With
-- its log applied, the disk says the old contents of every block outside the log if the power failed
-- before the write of the header, and what the cache holds of every such block if it failed later.
-- What the header then names is sound for recovery. Where the power lasts, the disk itself holds
-- what the cache holds, and the log is empty.
pub commit-Commits : (lg : Log) (s : Store) → Ready lg s → Commits lg s (commit lg s).1.disk
unfolding commit write_head
commit-Commits lg s ready = elim (Bool-cases (ltb 0 (length lg.lh))) [
  | inl t ↦ rw (t, commit) (Commits-some lg s ready)
  | inr f ↦ rw (f, commit) (Commits-none lg s (none_of lg.lh f) ready)
]
  where
    none_of : (hs : List ℕ) → ltb 0 (length hs) ≡ false → hs ≡ []
    none_of [] e = refl
    none_of (h ∷ hs) e = absurd (ground arith)
