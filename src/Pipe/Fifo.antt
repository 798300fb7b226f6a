-- ===== src/Pipe/Fifo.antt =====
-- pipe.c: the ring as a queue of bytes, with counters that wrap at 2^32.
use Prim.Native.Nat.{min}
use spring18cs.Base.{
  ℕ, zero, suc, ◌+◌, ◌-◌, ◌%◌, ◌^◌, ◌≡◌, ◌≢◌, ◌<◌, ◌≤◌, refl, ap, ◌∙◌, ap₂, true, false, List, [],
  ◌∷◌, ◌++◌, arith, ◌==◌, get_or, modify, get_or-modify, length, length-modify, Bool-cases, ==_iff,
  ==_ne, inl, inr,
}
use spring18cs.Pipe.{Pipe, pipe_size, add32, is_full, is_empty, put_byte, copy_out}

-- How many bytes wait in the pipe.
abbrev pub count : Pipe → ℕ
count p = (p.nwrite + 2 ^ 32 - p.nread) % 2 ^ 32

pub record IsValid (p : Pipe) : Type 0 where
  pub room : length p.bytes ≡ pipe_size
  pub nread : p.nread < 2 ^ 32
  pub nwrite : p.nwrite < 2 ^ 32
  pub bounded : count p ≤ pipe_size

-- The `n` bytes from counter `r` on.
abbrev pub window : List ℕ → ℕ → ℕ → List ℕ
window bytes r zero = []
window bytes r (suc n) = get_or bytes (r % pipe_size) 0 ∷ window bytes (add32 r 1) n

-- The bytes that wait, oldest first.
abbrev pub contents : Pipe → List ℕ
contents p = window p.bytes p.nread (count p)

-- A byte written behind a window that does not fill the ring extends it.
window-put :
    (bytes : List ℕ) (r n w c : ℕ)
    → length bytes ≡ pipe_size
    → n < pipe_size
    → w ≡ (r + n) % 2 ^ 32
    → window (modify bytes (w % pipe_size) (λ _. c)) r (suc n) ≡ window bytes r n ++ (c ∷ [])
window-put bytes r zero w c len h e =
    let hit : (w % pipe_size == r % pipe_size) ≡ true =
      (==_iff (w % pipe_size) (r % pipe_size)).1 (omega arith) in
    rw (get_or-modify bytes (w % pipe_size) (r % pipe_size) (λ _. c) 0 (omega arith), hit)
window-put bytes r (suc n) w c len h e =
    let miss : (w % pipe_size == r % pipe_size) ≡ false =
      ==_ne (w % pipe_size) (r % pipe_size) (omega arith) in
    let step : window (modify bytes (w % pipe_size) (λ _. c)) (add32 r 1) (suc n)
        ≡ window bytes (add32 r 1) n ++ (c ∷ []) =
      window-put bytes (add32 r 1) n w c len (omega arith) (omega arith) in
    ap₂ ◌∷◌ (get_or-modify bytes (w % pipe_size) (r % pipe_size) (λ _. c) 0 (omega arith) ∙ rw miss)
      step

-- One byte in: the pipe stays valid, and its contents grow by the byte at their end.
pub put-contents :
    (p : Pipe) (c : ℕ)
    → IsValid p
    → is_full p ≡ false
    → IsValid (put_byte p c) × (contents (put_byte p c) ≡ contents p ++ (c ∷ []))
unfolding put_byte
put-contents p c v n =
    let ne : p.nwrite ≢ add32 p.nread pipe_size = ground arith in
    let lt : count p < pipe_size = omega arith in
    let more : (add32 p.nwrite 1 + 2 ^ 32 - p.nread) % 2 ^ 32 ≡ suc (count p) = omega arith in
    (
      record {
        room = length-modify p.bytes (p.nwrite % pipe_size) (λ _. c) ∙ v.room;
        nread = v.nread;
        nwrite = omega arith;
        bounded = omega arith;
      },
      rw more (window-put p.bytes p.nread (count p) p.nwrite c v.room lt (omega arith)),
    )

-- One byte out.
pub take-contents :
    (p : Pipe)
    → IsValid p
    → is_empty p ≡ false
    → let q : Pipe = record p { nread = add32 p.nread 1 } in
      IsValid q
      × (contents p ≡ get_or p.bytes (p.nread % pipe_size) 0 ∷ contents q)
      × (count p ≡ suc (count q))
take-contents p v n =
    let ne : p.nread ≢ p.nwrite = ground arith in
    let q : Pipe = record p { nread = add32 p.nread 1 } in
    let less : count p ≡ suc (count q) = omega arith in
    (
      record { room = v.room; nread = omega arith; nwrite = v.nwrite; bounded = omega arith },
      rw less,
      less,
    )

pub empty-contents : (p : Pipe) → is_empty p ≡ true → (count p ≡ 0) × (contents p ≡ [])
empty-contents p e =
    let same : p.nread ≡ p.nwrite = ground arith in
    let none : count p ≡ 0 = omega arith in (none, rw none)

-- The copy loop takes the oldest bytes, as many as are asked for and are there.
pub record Copied (n : ℕ) (p : Pipe) (cs : List ℕ) (q : Pipe) : Type 0 where
  pub valid : IsValid q
  pub bytes : contents p ≡ cs ++ contents q
  pub number : length cs ≡ min n (count p)
  pub readopen : q.readopen ≡ p.readopen
  pub writeopen : q.writeopen ≡ p.writeopen

pub copy_out-Copied : (n : ℕ) (p : Pipe) → IsValid p → Copied n p (copy_out n p).0 (copy_out n p).1
unfolding copy_out
copy_out-Copied zero p v = record {
  valid = v;
  bytes = refl;
  number = omega arith;
  readopen = refl;
  writeopen = refl;
}
copy_out-Copied (suc n) p v = elim (Bool-cases (is_empty p)) [
  | inl e ↦
      let (z, c) = empty-contents p e in
      rw (e, copy_out)
        (record {
          valid = v;
          bytes = refl;
          number = omega arith;
          readopen = refl;
          writeopen = refl;
        })
  | inr ne ↦
      let q : Pipe = record p { nread = add32 p.nread 1 } in
      let (vq, c, less) = take-contents p v ne in
      let rest = copy_out-Copied n q vq in
      rw (ne, copy_out)
        (record {
          valid = rest.valid;
          bytes = c ∙ ap (◌∷◌ (get_or p.bytes (p.nread % pipe_size) 0)) rest.bytes;
          number = let r = rest.number in omega arith;
          readopen = rest.readopen;
          writeopen = rest.writeopen;
        })
]
