-- ===== src/Log/Phases.antt =====
-- log.c: what each loop of a commit does to the disk, wherever the power fails.
use spring18cs.Base.{
  ℕ, zero, suc, ◌+◌, ◌-◌, ◌≡◌, ◌≢◌, ◌<◌, ◌≤◌, ◌⊎◌, inl, inr, refl, sym, ◌∙◌, ap, true, false, ◌==◌,
  ==_ne, ==_iff, List, [], ◌∷◌, none, some, arith, length, get_elem?, first_index, first_index-cons,
  first_index-cons_none, first_index-some, lt_of_get_elem?,
}
use spring18cs.Log.{Block, Store, bwrite, write_log, install_trans}

-- Block `b` is none of the log blocks `start + i + 1`, …, `start + i + n`.
abbrev pub Off : ℕ → ℕ → ℕ → ℕ → Type 0
Off start i n b = (b < start + i + 1) ⊎ (start + i + n < b)

-- All of `bs` are off the `n` log blocks.
abbrev pub AllOff : ℕ → ℕ → List ℕ → Type 0
AllOff start n [] = Unit {0}
AllOff start n (b ∷ bs) = ((b < start) ⊎ (start + n < b)) × AllOff start n bs

pub AllOff-apart :
    (start n : ℕ) (bs : List ℕ) (j b : ℕ)
    → AllOff start n bs
    → get_elem? bs j ≡ some b
    → (at : ℕ) → start ≤ at
    → at ≤ start + n
    → b ≢ at
AllOff-apart start n [] j b off g at lo hi = cc
AllOff-apart start n (c ∷ bs) zero b (inl h, off) g at lo hi =
    λ e. let same : c ≡ b = ground arith in omega arith
AllOff-apart start n (c ∷ bs) zero b (inr h, off) g at lo hi =
    λ e. let same : c ≡ b = ground arith in omega arith
AllOff-apart start n (c ∷ bs) (suc j) b off g at lo hi =
    AllOff-apart start n bs j b off.1 g at lo hi

pub bwrite-off :
    (at b : ℕ) (image : Block) (s : Store)
    → b ≢ at
    → ((bwrite at image s).disk b ≡ s.disk b) × ((bwrite at image s).view b ≡ s.view b)
unfolding bwrite
bwrite-off at b image s ne =
    let n : (b == at) ≡ false = ==_ne b at ne in (ground arith, ground arith)

pub bwrite-at :
    (at : ℕ) (image : Block) (s : Store)
    → 0 < s.writes_left
    → ((bwrite at image s).disk at ≡ image) × ((bwrite at image s).view at ≡ image)
unfolding bwrite
bwrite-at at image s left =
    let y : (at == at) ≡ true = (==_iff at at).1 refl in (ground arith, ground arith)

pub view-bwrite : (at : ℕ) (image : Block) (s : Store) → (bwrite at image s).view at ≡ image
unfolding bwrite
view-bwrite at image s = let y : (at == at) ≡ true = (==_iff at at).1 refl in rw y

pub bwrite-left :
    (at : ℕ) (image : Block) (s : Store) → (bwrite at image s).writes_left ≡ s.writes_left - 1
unfolding bwrite
bwrite-left at image s = refl

pub bwrite-late :
    (at : ℕ) (image : Block) (s : Store) → s.writes_left ≡ 0 → (bwrite at image s).disk ≡ s.disk
unfolding bwrite
bwrite-late at image s z = rw z

-- After the power failed nothing reaches the disk.
pub install-late :
    (start i : ℕ) (bs : List ℕ) (s : Store)
    → s.writes_left ≡ 0
    → (install_trans start i bs s).disk ≡ s.disk
unfolding install_trans
install-late start i [] s z = refl
install-late start i (b ∷ bs) s z =
    let t = bwrite b (s.view (start + i + 1)) s in
    let f = bwrite-left b (s.view (start + i + 1)) s in
    install-late start (i + 1) bs t (omega arith) ∙ bwrite-late b (s.view (start + i + 1)) s z

pub first_index-lt : (bs : List ℕ) (k b : ℕ) → first_index (λ x. x == b) bs ≡ some k → k < length bs
first_index-lt bs k b e =
    let (x, g, _) = first_index-some (λ x. x == b) bs e in lt_of_get_elem? bs k g

-- The writes that a loop uses up.
pub write_log-left :
    (start i : ℕ) (bs : List ℕ) (s : Store)
    → (write_log start i bs s).writes_left ≡ s.writes_left - length bs
unfolding write_log
write_log-left start i [] s = omega arith
write_log-left start i (b ∷ bs) s =
    let t = bwrite (start + i + 1) (s.view b) s in
    let e = write_log-left start (i + 1) bs t in
    let f = bwrite-left (start + i + 1) (s.view b) s in omega arith

pub install-left :
    (start i : ℕ) (bs : List ℕ) (s : Store)
    → (install_trans start i bs s).writes_left ≡ s.writes_left - length bs
unfolding install_trans
install-left start i [] s = omega arith
install-left start i (b ∷ bs) s =
    let t = bwrite b (s.view (start + i + 1)) s in
    let e = install-left start (i + 1) bs t in
    let f = bwrite-left b (s.view (start + i + 1)) s in omega arith

-- write_log() touches log blocks only.
pub write_log-Off :
    (start i : ℕ) (bs : List ℕ) (s : Store) (b : ℕ)
    → Off start i (length bs) b
    → ((write_log start i bs s).disk b ≡ s.disk b) × ((write_log start i bs s).view b ≡ s.view b)
unfolding write_log
write_log-Off start i [] s b off = (refl, refl)
write_log-Off start i (c ∷ bs) s b off =
    let t = bwrite (start + i + 1) (s.view c) s in
    let (d, v) = write_log-Off start (i + 1) bs t b (Off-next off) in
    let (d', v') = bwrite-off (start + i + 1) b (s.view c) s (apart off) in (d ∙ d', v ∙ v')
  where
    Off-next : Off start i (suc (length bs)) b → Off start (i + 1) (length bs) b
    Off-next (inl h) = inl (omega arith)
    Off-next (inr h) = inr (omega arith)

    apart : Off start i (suc (length bs)) b → b ≢ start + i + 1
    apart (inl h) = λ e. omega arith
    apart (inr h) = λ e. omega arith

-- Where the power lasts, write_log() brings the cached blocks to the log, in order.
pub write_log-logs :
    (start size i : ℕ) (bs : List ℕ) (s : Store) (j b : ℕ)
    → length bs ≤ s.writes_left
    → i + length bs ≤ size
    → AllOff start size bs
    → get_elem? bs j ≡ some b
    → ((write_log start i bs s).disk (start + i + j + 1) ≡ s.view b)
      × ((write_log start i bs s).view (start + i + j + 1) ≡ s.view b)
unfolding write_log
write_log-logs start size i [] s j b left fits off g = cc
write_log-logs start size i (c ∷ bs) s zero b left fits off g =
    let t = bwrite (start + i + 1) (s.view c) s in
    let here : start + i + 0 + 1 ≡ start + i + 1 = omega arith in
    let same : c ≡ b = ground arith in
    let (d, v) = write_log-Off start (i + 1) bs t (start + i + 1) (inl (omega arith)) in
    let (d', v') = bwrite-at (start + i + 1) (s.view c) s (omega arith) in
    rw here (d ∙ d' ∙ ap s.view same, v ∙ v' ∙ ap s.view same)
write_log-logs start size i (c ∷ bs) s (suc j) b left fits off g =
    let t = bwrite (start + i + 1) (s.view c) s in
    let f = bwrite-left (start + i + 1) (s.view c) s in
    let there : start + i + suc j + 1 ≡ start + (i + 1) + j + 1 = omega arith in
    let (d, v) = write_log-logs start size (i + 1) bs t j b (omega arith) (omega arith) off.1 g in
    let apart : b ≢ start + i + 1 =
      AllOff-apart start size bs j b off.1 g (start + i + 1) (omega arith) (omega arith) in
    let (_, v') = bwrite-off (start + i + 1) b (s.view c) s apart in rw there (d ∙ v', v ∙ v')

-- install_trans() touches the blocks of its list only.
pub install-off :
    (start i : ℕ) (bs : List ℕ) (s : Store) (b : ℕ)
    → first_index (λ x. x == b) bs ≡ none
    → ((install_trans start i bs s).disk b ≡ s.disk b)
      × ((install_trans start i bs s).view b ≡ s.view b)
unfolding install_trans
install-off start i [] s b out = (refl, refl)
install-off start i (c ∷ bs) s b out =
    let t = bwrite c (s.view (start + i + 1)) s in
    let (ne, out') = first_index-cons_none (λ x. x == b) c bs out in
    let (d, v) = install-off start (i + 1) bs t b out' in
    let (d', v') = bwrite-off c b (s.view (start + i + 1)) s (ground arith) in (d ∙ d', v ∙ v')

-- The blocks of a list differ.
abbrev pub Distinct : List ℕ → Type 0
Distinct [] = Unit {0}
Distinct (b ∷ bs) = (first_index (λ x. x == b) bs ≡ none) × Distinct bs

-- Where the power lasts, install_trans() brings each log block to its home.
pub install-homes :
    (start size i : ℕ) (bs : List ℕ) (s : Store) (j b : ℕ)
    → length bs ≤ s.writes_left
    → i + length bs ≤ size
    → AllOff start size bs
    → Distinct bs
    → first_index (λ x. x == b) bs ≡ some j
    → (install_trans start i bs s).disk b ≡ s.view (start + i + j + 1)
unfolding install_trans first_index
install-homes start size i [] s j b left fits off dist e = cc
install-homes start size i (c ∷ bs) s j b left fits off (new, dist) e =
    let t = bwrite c (s.view (start + i + 1)) s in
    let f = bwrite-left c (s.view (start + i + 1)) s in
    elim (first_index-cons (λ x. x == b) c bs j e) [
      | inl (hit, z) ↦
          let same : c ≡ b = ground arith in
          let here : start + i + j + 1 ≡ start + i + 1 = omega arith in
          let (d, _) = install-off start (i + 1) bs t c new in
          let (d', _) = bwrite-at c (s.view (start + i + 1)) s (omega arith) in
          rw (here, ← same) (d ∙ d')
      | inr (k, miss, sj, r) ↦
          let there : start + i + j + 1 ≡ start + (i + 1) + k + 1 = omega arith in
          let d =
            install-homes start size (i + 1) bs t k b (omega arith) (omega arith) off.1 dist r in
          let (_, v) = bwrite-off c (start + (i + 1) + k + 1) (s.view (start + i + 1)) s (λ q.
            let lt = first_index-lt bs k b r in
            AllOff-apart start size (c ∷ bs) 0 c off refl (start + (i + 1) + k + 1) (omega arith)
              (omega arith) (sym q)) in
          rw there (d ∙ v)
    ]
