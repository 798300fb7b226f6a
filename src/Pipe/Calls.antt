-- ===== src/Pipe/Calls.antt =====
-- pipe.c: what pipewrite() and piperead() do to the bytes that wait, on every path.
use Prim.Native.Nat.{min}
use spring18cs.Base.{
  ℕ, ◌≡◌, refl, sym, ap, ◌∙◌, Bool, true, false, ◌&&◌, ◌||◌, not, List, [], ◌∷◌, ◌++◌, arith,
  length, Bool-cases, ◌⊎◌, inl, inr,
}
use mathlib.Core.List.{append_assoc, append-nil}
use spring18cs.Pipe.{
  Pipe, is_full, is_empty, put_byte, pipewrite, Writing, wrote, write_fails, write_sleeps, piperead,
  Reading, did_read, read_fails, read_sleeps,
}
use spring18cs.Pipe.Fifo.{
  IsValid, contents, count, put-contents, empty-contents, take-contents, copy_out-Copied,
}

-- What a pipewrite() of `cs` on `p` leaves when it returns or sleeps.
abbrev pub Writes : Bool → Pipe → List ℕ → Writing → Type 0
Writes killed p cs (wrote q) = IsValid q × (contents q ≡ contents p ++ cs)
Writes killed p cs (write_fails q rest) =
    IsValid q
    × (done : List ℕ) × (cs ≡ done ++ rest)
    × (contents q ≡ contents p ++ done)
    × (is_full q ≡ true)
    × ((not p.readopen || killed) ≡ true)
Writes killed p cs (write_sleeps q rest) =
    IsValid q
    × (done : List ℕ) × (cs ≡ done ++ rest)
    × (contents q ≡ contents p ++ done)
    × (is_full q ≡ true)
    × ((not p.readopen || killed) ≡ false)

Writes-cons :
    (killed : Bool) (p q : Pipe) (c : ℕ) (cs : List ℕ) (r : Writing)
    → contents q ≡ contents p ++ (c ∷ [])
    → q.readopen ≡ p.readopen
    → Writes killed q cs r
    → Writes killed p (c ∷ cs) r
Writes-cons killed p q c cs (wrote u) e eo (v, h) =
    (v, h ∙ ap (λ (xs : List ℕ). xs ++ cs) e ∙ append_assoc (contents p) (c ∷ []) cs)
Writes-cons killed p q c cs (write_fails u rest) e eo (v, done, ec, h, full, why) = (
  v,
  c ∷ done,
  ap (◌∷◌ c) ec,
  h ∙ ap (λ (xs : List ℕ). xs ++ done) e ∙ append_assoc (contents p) (c ∷ []) done,
  full,
  rw (← eo) why,
)
Writes-cons killed p q c cs (write_sleeps u rest) e eo (v, done, ec, h, full, why) = (
  v,
  c ∷ done,
  ap (◌∷◌ c) ec,
  h ∙ ap (λ (xs : List ℕ). xs ++ done) e ∙ append_assoc (contents p) (c ∷ []) done,
  full,
  rw (← eo) why,
)

-- pipewrite() of `cs` on a valid pipe. If it returns n, all of `cs` is appended to what waits. If
-- it returns -1 or sleeps, the pipe is full and a first part of `cs` is appended, the rest being
-- left: -1 exactly where the readers are gone or the caller was killed.
pub pipewrite-Writes :
    (killed : Bool) (p : Pipe) (cs : List ℕ)
    → IsValid p
    → Writes killed p cs (pipewrite killed p cs)
unfolding pipewrite put_byte
pipewrite-Writes killed p [] v = (v, sym (append-nil (contents p)))
pipewrite-Writes killed p (c ∷ cs) v = elim (Bool-cases (is_full p)) [
  | inl full ↦ elim (Bool-cases (not p.readopen || killed)) [
    | inl t ↦ rw (full, pipewrite, t) (v, [], refl, sym (append-nil (contents p)), full, t)
    | inr f ↦ rw (full, pipewrite, f) (v, [], refl, sym (append-nil (contents p)), full, f)
  ]
  | inr room ↦
      let (v', e) = put-contents p c v room in
      rw (room, pipewrite)
        (Writes-cons killed p (put_byte p c) c cs (pipewrite killed (put_byte p c) cs) e refl
          (pipewrite-Writes killed (put_byte p c) cs v'))
]

-- What a piperead() of `n` bytes on `p` leaves when it returns or sleeps.
abbrev pub Reads : Bool → Pipe → ℕ → Reading → Type 0
Reads killed p n (did_read cs q) =
    IsValid q
    × (contents p ≡ cs ++ contents q)
    × (length cs ≡ min n (count p))
    × (cs ≡ [] → (n ≡ 0) ⊎ (p.writeopen ≡ false))
Reads killed p n read_fails = (contents p ≡ []) × (p.writeopen ≡ true) × (killed ≡ true)
Reads killed p n read_sleeps = (contents p ≡ []) × (p.writeopen ≡ true) × (killed ≡ false)

-- piperead() of `n` bytes on a valid pipe. It returns -1 or sleeps only while nothing waits and
-- writers are left: -1 exactly if the caller was killed. Otherwise it takes the oldest bytes, the
-- smaller of `n` and the number that wait; it returns none only if none were asked for or the
-- writers are gone.
pub piperead-Reads :
    (killed : Bool) (p : Pipe) (n : ℕ) → IsValid p → Reads killed p n (piperead killed p n)
unfolding piperead
piperead-Reads killed p n v = elim (Bool-cases (is_empty p && p.writeopen)) [
  | inl t ↦
      let em : is_empty p ≡ true = ground arith in
      let wo : p.writeopen ≡ true = ground arith in
      elim (Bool-cases killed) [
        | inl k ↦ rw (t, piperead, k) ((empty-contents p em).1, wo, refl)
        | inr k ↦ rw (t, piperead, k) ((empty-contents p em).1, wo, refl)
      ]
  | inr f ↦
      let c = copy_out-Copied n p v in
      rw (f, piperead) (c.valid, c.bytes, c.number, none_read f c.number)
]
  where
    none_read :
        (is_empty p && p.writeopen) ≡ false
        → {cs : List ℕ} → length cs ≡ min n (count p)
        → cs ≡ []
        → (n ≡ 0) ⊎ (p.writeopen ≡ false)
    none_read f {cs} num e = elim (Bool-cases (is_empty p)) [
      | inl t ↦ inr (rw t at f)
      | inr ne ↦
          let less = (take-contents p v ne).2 in
          let z : length cs ≡ 0 = ap length e in inl (omega arith)
    ]
