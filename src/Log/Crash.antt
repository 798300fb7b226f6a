-- ===== src/Log/Crash.antt =====
-- log.c: what a disk with a log says, and the end that commits and recoveries share.
use spring18cs.Base.{
  ℕ, ◌+◌, ◌≡◌, ◌≢◌, ◌<◌, ◌≤◌, ◌⊎◌, inl, inr, refl, ◌∙◌, ap, ◌==◌, List, [], Option, none, some,
  arith, length, first_index, Option-cases, first_index-some,
}
use native.Mathlib.Decide.{dec_le}
use spring18cs.Log.{Block, Store, bwrite, encode, decode, install_trans}
use spring18cs.Log.Header.{decode-encode_none}
use spring18cs.Log.Phases.{
  AllOff, AllOff-apart, Distinct, bwrite-off, bwrite-at, bwrite-late, install-left, install-off,
  install-homes, first_index-lt,
}

-- Block `b` is not in the log, whose header is at `start` and which has `cap` blocks behind it.
abbrev pub Home : ℕ → ℕ → ℕ → Type 0
Home start cap b = (b < start) ⊎ (start + cap < b)

abbrev pub pick : (ℕ → Block) → ℕ → ℕ → Option ℕ → Block
pick disk start b none = disk b
pick disk start b (some i) = disk (start + i + 1)

-- What a disk says of block `b`: what its log has for it, and otherwise the block itself.
abbrev pub logical : ℕ → (ℕ → Block) → ℕ → Block
logical start disk b = pick disk start b (first_index (λ x. x == b) (decode (disk start)))

-- A disk whose log is empty says what is on it.
pub logical-empty :
    (start : ℕ) (disk : ℕ → Block) (b : ℕ)
    → decode (disk start) ≡ []
    → logical start disk b ≡ disk b
unfolding first_index
logical-empty start disk b e = rw e refl

-- The log on a disk is sound: its header names different blocks, all outside the log, no more than
-- the log has room for.
pub record Sound (start cap : ℕ) (hs : List ℕ) : Type 0 where
  pub off : AllOff start cap hs
  pub distinct : Distinct hs
  pub fits : length hs ≤ cap

pub not_logged :
    (start cap at : ℕ) (hs : List ℕ)
    → AllOff start cap hs
    → start ≤ at
    → at ≤ start + cap
    → first_index (λ x. x == at) hs ≡ none
not_logged start cap at hs off lo hi = elim (Option-cases (first_index (λ x. x == at) hs)) [
  | inl n ↦ n
  | inr (i, e) ↦
      let (x, g, same) = first_index-some (λ x. x == at) hs e in
      absurd (AllOff-apart start cap hs i x off g at lo hi (ground arith))
]

-- Home blocks are not the header.
pub Home-apart : (start cap b : ℕ) → Home start cap b → b ≢ start
Home-apart start cap b (inl h) = λ e. omega arith
Home-apart start cap b (inr h) = λ e. omega arith

-- install_trans() whole, and with the header cleared behind it.
abbrev pub install_all : ℕ → List ℕ → Store → Store
install_all start hs s = install_trans start 0 hs s

abbrev pub clear_all : ℕ → List ℕ → Store → Store
clear_all start hs s = let t = install_all start hs s in bwrite start (encode [] (t.view start)) t

-- What the end of a commit or a recovery promises, from a disk whose header names `hs`: the disk says
-- the same as before, wherever the power failed; the header names the same blocks or none; and where
-- the power lasts every block is home.
pub record Finishes (start cap : ℕ) (hs : List ℕ) (s : Store) : Type 0 where
  pub says :
      (b : ℕ)
      → Home start cap b
      → logical start (clear_all start hs s).disk b ≡ logical start s.disk b
  pub header :
      (decode ((clear_all start hs s).disk start) ≡ hs)
      ⊎ (decode ((clear_all start hs s).disk start) ≡ [])
  pub homes :
      length hs < s.writes_left
      → (decode ((clear_all start hs s).disk start) ≡ [])
        × ((b : ℕ) → Home start cap b → (clear_all start hs s).disk b ≡ logical start s.disk b)

-- The end of a commit and of a recovery: from a disk whose header names `hs`, with the log blocks in
-- the cache as they are on the disk, install and clear.
module _ (start cap : ℕ) (hs : List ℕ) (s : Store) (sound : Sound start cap hs)
    (head : decode (s.disk start) ≡ hs)
    (same : (i : ℕ) → i < length hs → s.view (start + i + 1) ≡ s.disk (start + i + 1)) where
  abbrev installed : Store
  installed = install_all start hs s

  abbrev cleared : Store
  cleared = clear_all start hs s

  unlogged : first_index (λ x. x == start) hs ≡ none
  unlogged = not_logged start cap start hs sound.off (omega arith) (omega arith)

  installed-start : (installed.disk start ≡ s.disk start) × (installed.view start ≡ s.view start)
  installed-start = install-off start 0 hs s start unlogged

  installed-log : (i : ℕ) → i < length hs → installed.disk (start + i + 1) ≡ s.disk (start + i + 1)
  installed-log i lt =
      let fits = sound.fits in
      (install-off start 0 hs s (start + i + 1)
        (not_logged start cap (start + i + 1) hs sound.off (omega arith) (omega arith))).0

  installed-says :
      (b : ℕ) (o : Option ℕ)
      → first_index (λ x. x == b) hs ≡ o
      → pick installed.disk start b o ≡ pick s.disk start b o
  installed-says b none e = (install-off start 0 hs s b e).0
  installed-says b (some i) e = installed-log i (first_index-lt hs i b e)

  installed-homes :
      length hs ≤ s.writes_left
      → (b : ℕ) (o : Option ℕ) → first_index (λ x. x == b) hs ≡ o
      → installed.disk b ≡ pick s.disk start b o
  installed-homes left b none e = (install-off start 0 hs s b e).0
  installed-homes left b (some i) e =
      let fits = sound.fits in
      let here : start + 0 + i + 1 ≡ start + i + 1 = omega arith in
      let d = install-homes start cap 0 hs s i b left (omega arith) sound.off sound.distinct e in
      (rw here at d) ∙ same i (first_index-lt hs i b e)

  finish_late : s.writes_left ≤ length hs → Finishes start cap hs s
  finish_late out =
      let z : installed.writes_left ≡ 0 = let e = install-left start 0 hs s in omega arith in
      let d : cleared.disk ≡ installed.disk =
        bwrite-late start (encode [] (installed.view start)) installed z in
      let h : decode (cleared.disk start) ≡ hs =
        ap (λ (f : ℕ → Block). decode (f start)) d ∙ ap decode installed-start.0 ∙ head in
      record {
        says = λ b home. rw (h, head, d) (installed-says b _ refl);
        header = inl h;
        homes = λ lt. absurd (omega arith);
      }

  finish_whole : length hs < s.writes_left → Finishes start cap hs s
  finish_whole lt =
      let left : 0 < installed.writes_left = let e = install-left start 0 hs s in omega arith in
      let image = encode [] (installed.view start) in
      let h : decode (cleared.disk start) ≡ [] =
        ap decode (bwrite-at start image installed left).0
        ∙ decode-encode_none (installed.view start) in
      let home_again : (b : ℕ) → Home start cap b → cleared.disk b ≡ logical start s.disk b =
        λ b home.
          (bwrite-off start b image installed (Home-apart start cap b home)).0
          ∙ (rw head (installed-homes (omega arith) b _ refl)) in
      record {
        says = λ b home. logical-empty start cleared.disk b h ∙ home_again b home;
        header = inr h;
        homes = λ _. (h, home_again);
      }

  pub finish_lem : Finishes start cap hs s
  finish_lem = elim (dec_le s.writes_left (length hs)) [
    | yes out ↦ finish_late out
    | no more ↦ finish_whole (omega arith)
  ]
