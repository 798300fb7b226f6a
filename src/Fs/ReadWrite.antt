-- ===== src/Fs/ReadWrite.antt =====
-- fs.c: readi() and writei() of a file whose blocks are allocated.
use spring18cs.Base.{
  ℕ, zero, suc, ◌+◌, ◌-◌, ◌*◌, ◌/◌, ◌%◌, ◌<◌, ◌≤◌, ◌≡◌, inl, inr, refl, sym, ◌∙◌, ap, ap₂, true,
  false, ◌==◌, if◌then◌else◌, List, [], ◌∷◌, ◌++◌, arith, Bool-cases, ok, get_or, length, drop,
  length-drop, length-append, get_or-drop,
}
use spring18cs.Fs.{Fs, Inode, log_block, bsize}
use spring18cs.Fs.Content.{read_from, write_from, chunk, get_bytes, put_bytes}
use spring18cs.Fs.Placed.{Placed, bmap-Placed, Placed-log_block, content, covers, round-content}

-- The `n` bytes of the file from offset `off` on.
abbrev pub range : Fs → (ℕ → ℕ) → ℕ → ℕ → List ℕ
range fs addr off zero = []
range fs addr off (suc n) = content fs addr off ∷ range fs addr (off + 1) n

get_bytes-range :
    (fs : Fs) (addr : ℕ → ℕ) (n off at : ℕ)
    → off % bsize ≡ at
    → at + n ≤ bsize
    → get_bytes n at (fs.blocks (addr (off / bsize))) ≡ range fs addr off n
unfolding get_bytes
get_bytes-range fs addr zero off at e h = refl
get_bytes-range fs addr (suc zero) off at e h =
    ap (λ a. fs.blocks (addr (off / bsize)) a ∷ []) (sym e)
get_bytes-range fs addr (suc (suc n)) off at e h =
    let q : (off + 1) / bsize ≡ off / bsize = omega arith in
    let ih = get_bytes-range fs addr (suc n) (off + 1) (at + 1) (omega arith) (omega arith) in
    ap₂ (λ x xs. x ∷ xs) (ap (fs.blocks (addr (off / bsize))) (sym e)) (rw q at (ih))

range-append :
    (fs : Fs) (addr : ℕ → ℕ) (m r off : ℕ)
    → range fs addr off m ++ range fs addr (off + m) r ≡ range fs addr off (m + r)
range-append fs addr zero r off =
    let e : off + 0 ≡ off = omega arith in let z : 0 + r ≡ r = omega arith in rw (e, z) refl
range-append fs addr (suc m) r off =
    let e : off + suc m ≡ off + 1 + m = omega arith in
    let s : suc m + r ≡ suc (m + r) = omega arith in
    rw (e, s) (ap (◌∷◌ (content fs addr off)) (range-append fs addr m r (off + 1)))

-- A range that holds what a list does is the list.
pub range-list :
    (fs : Fs) (addr : ℕ → ℕ) (off : ℕ) (src : List ℕ)
    → ((j : ℕ) → j < length src → content fs addr (off + j) ≡ get_or src j 0)
    → range fs addr off (length src) ≡ src
range-list fs addr off [] h = refl
range-list fs addr off (c ∷ src) h =
    let z : off + 0 ≡ off = omega arith in
    ap₂ (λ x xs. x ∷ xs) (rw z at (h 0 (omega arith)))
      (range-list fs addr (off + 1) src
        (λ j lt. let e : off + 1 + j ≡ off + suc j = omega arith in rw e (h (suc j) (omega arith))))

-- The loop of readi() reads the range and changes nothing.
pub read_from-range :
    (fs : Fs) (ip : ℕ) (n : Inode) (addr : ℕ → ℕ) (k fuel off left : ℕ)
    → Placed fs ip n addr k
    → left ≤ fuel
    → off + left ≤ k * bsize
    → read_from fuel ip off left fs ≡ ok (range fs addr off left, fs)
unfolding read_from
read_from-range fs ip n addr k zero off left p enough fits =
    let z : left ≡ 0 = omega arith in rw (read_from, z) refl
read_from-range fs ip n addr k (suc fuel) off zero p enough fits = refl
read_from-range fs ip n addr k (suc fuel) off (suc l) p enough fits =
    let m = chunk (suc l) off in
    let small : m ≤ suc l = ground arith in
    let pos : 0 < m = ground arith in
    let inside : off % bsize + m ≤ bsize = ground arith in
    let f : (suc l == 0) ≡ false = ground arith in
    let found = bmap-Placed fs ip n addr k (off / bsize) p (omega arith) in
    let rest =
      read_from-range fs ip n addr k fuel (off + m) (suc l - m) p (omega arith) (omega arith) in
    let e : m + (suc l - m) ≡ suc l = omega arith in
    let bytes = get_bytes-range fs addr m off (off % bsize) refl inside in
    let all = range-append fs addr m (suc l - m) off in
    rw (read_from, f, found, rest, bytes)
      (ap (λ (x : List ℕ). ok (x, fs)) (all ∙ ap (range fs addr off) e))

-- How many blocks `l` bytes at offset `off` lie in.
abbrev pub rounds : ℕ → ℕ → ℕ
rounds off l = if l == 0 then 0 else (off % bsize + l + bsize - 1) / bsize

-- The number of blocks that a round and the rounds behind it write.
count_round :
    (off l m r c : ℕ)
    → 0 < l
    → m ≡ chunk l off
    → r ≡ l - m
    → c ≤ rounds (off + m) r
    → c + 1 ≤ rounds off l
count_round off l m r c pos e d h = ground arith

-- What the loop of writei() leaves.
pub record Wrote (fs fs' : Fs) (ip : ℕ) (n : Inode) (addr : ℕ → ℕ) (k off : ℕ) (src : List ℕ)
    : Type 0 where
  pub placed : Placed fs' ip n addr k
  pub bytes :
      (i : ℕ)
      → i < k * bsize
      → content fs' addr i
        ≡ (if covers off (length src) i then get_or src (i - off) 0 else content fs addr i)
  -- The blocks that it logs.
  pub new : List ℕ
  pub logs : fs'.logged ≡ new ++ fs.logged
  pub count : length new ≤ rounds off (length src)

append-snoc : (xs ys : List ℕ) (b : ℕ) → xs ++ (b ∷ ys) ≡ (xs ++ (b ∷ [])) ++ ys
append-snoc [] ys b = refl
append-snoc (x ∷ xs) ys b = ap (◌∷◌ x) (append-snoc xs ys b)

pub write_from-Wrote :
    (fs : Fs) (ip : ℕ) (n : Inode) (addr : ℕ → ℕ) (k fuel off : ℕ) (src : List ℕ)
    → Placed fs ip n addr k
    → length src ≤ fuel
    → off + length src ≤ k * bsize
    → (fs' : Fs) × (write_from fuel ip off src fs ≡ ok (off + length src, fs'))
      × Wrote fs fs' ip n addr k off src
unfolding write_from
write_from-Wrote fs ip n addr k zero off [] p enough fits =
    let z : off + 0 ≡ off = omega arith in
    (
      fs,
      rw z refl,
      record {
        placed = p;
        bytes = λ i li. ground arith;
        new = [];
        logs = refl;
        count = omega arith;
      },
    )
write_from-Wrote fs ip n addr k zero off (c ∷ src) p enough fits = absurd (omega arith)
write_from-Wrote fs ip n addr k (suc fuel) off [] p enough fits =
    let z : off + 0 ≡ off = omega arith in
    (
      fs,
      rw z refl,
      record {
        placed = p;
        bytes = λ i li. ground arith;
        new = [];
        logs = refl;
        count = omega arith;
      },
    )
write_from-Wrote fs ip n addr k (suc fuel) off (c ∷ src) p enough fits =
    let all : List ℕ = c ∷ src in
    let m = chunk (length all) off in
    let small : m ≤ length all = ground arith in
    let pos : 0 < m = ground arith in
    let inside : off % bsize + m ≤ bsize = ground arith in
    let f : (length all == 0) ≡ false = ground arith in
    let found = bmap-Placed fs ip n addr k (off / bsize) p (omega arith) in
    let fs1 = log_block (addr (off / bsize)) (put_bytes m (off % bsize) all) fs in
    let left = length-drop m all in
    let (fs', e, w) =
      write_from-Wrote fs1 ip n addr k fuel (off + m) (drop m all)
        (Placed-log_block fs ip n addr k (off / bsize) (put_bytes m (off % bsize) all) p
          (omega arith))
        (omega arith) (omega arith) in
    let sum : off + m + length (drop m all) ≡ off + length all = omega arith in
    (
      fs',
      rw (write_from, f, found, e) (ap (λ x. ok (x, fs')) sum),
      record {
        placed = w.placed;
        new = w.new ++ (addr (off / bsize) ∷ []);
        logs = w.logs ∙ append-snoc w.new fs.logged (addr (off / bsize));
        count =
            let c = w.count in
            let n = length-append w.new (addr (off / bsize) ∷ []) in
            rw n (
              count_round off (length all) m (length (drop m all)) (length w.new) (omega arith) refl
                (omega arith) c);
        bytes = λ i li.
            let r = round-content fs ip n addr k off m all i p (omega arith) small inside li in
            w.bytes i li ∙ elim (Bool-cases (covers (off + m) (length (drop m all)) i)) [
              | inl t ↦
                  let t' : covers off (length all) i ≡ true = ground arith in
                  let ix : m + (i - (off + m)) ≡ i - off = ground arith in
                  rw (t, t') (get_or-drop m all (i - (off + m)) 0 ∙ rw ix refl)
              | inr g ↦ rw g (
                  r ∙ elim (Bool-cases (covers off m i)) [
                    | inl t ↦
                        let t' : covers off (length all) i ≡ true = ground arith in rw (t, t') refl
                    | inr g' ↦
                        let g'' : covers off (length all) i ≡ false = ground arith in
                        rw (g', g'') refl
                  ])
            ];
      },
    )
