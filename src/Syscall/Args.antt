-- ===== src/Syscall/Args.antt =====
-- syscall.c: what a system call takes from its caller lies in the caller's memory.
use spring18cs.Base.{
  ℕ, zero, suc, ◌+◌, ◌-◌, ◌*◌, ◌%◌, ◌^◌, ◌<◌, ◌≤◌, ◌≡◌, ◌≢◌, inl, inr, false, ◌||◌, ltb, leb, ◌==◌,
  none, some, Option, refl, arith, Bool-cases, Option-cases,
}
use spring18cs.CString.Memory.{Memory}
use spring18cs.Fs.{read32}
use spring18cs.Proc.Types.{Proc}
use spring18cs.Vm.{}
use spring18cs.Kalloc.{kern_base}
use spring18cs.Syscall.{fetchint, string_to, fetchstr, argint, argptr, argstr}

string_to-some :
    (n s : ℕ) (mem : Memory) {len : ℕ}
    → string_to n s mem ≡ some len
    → (len < n) × (mem (s + len) ≡ 0) × ((j : ℕ) → j < len → mem (s + j) ≢ 0)
unfolding string_to
string_to-some zero s mem e = cc
string_to-some (suc n) s mem {len} e = elim (Bool-cases (mem s == 0)) [
  | inl t ↦
      let z : some 0 ≡ some len = rw t at (e) in
      let same : 0 ≡ len = cc in
      let at : s + 0 ≡ s = omega arith in
      rw (← same) (omega arith, rw at (ground arith), λ j lt. absurd (omega arith))
  | inr f ↦ elim (Option-cases (string_to n (s + 1) mem)) [
    | inl none_there ↦ absurd (let bad : none ≡ some len = rw (f, none_there) at (e) in cc)
    | inr (l, there) ↦
        let (lt, nul, before) = string_to-some n (s + 1) mem there in
        let got : some (suc l) ≡ some len = rw (f, there) at (e) in
        let same : suc l ≡ len = cc in
        let at : s + suc l ≡ s + 1 + l = omega arith in
        rw (← same) (omega arith, rw at nul, first l before f)
  ]
]
  where
    first :
        (l : ℕ)
        → ((j : ℕ) → j < l → mem (s + 1 + j) ≢ 0)
        → (mem s == 0) ≡ false
        → (j : ℕ) → j < suc l
        → mem (s + j) ≢ 0
    first l before f zero lt = let at : s + 0 ≡ s = omega arith in rw at (λ z. ground arith)
    first l before f (suc j) lt =
        let at : s + suc j ≡ s + 1 + j = omega arith in rw at (before j (omega arith))

-- A string of the caller.
abbrev pub IsString : ℕ → Memory → ℕ × ℕ → Type 0
IsString sz mem (at, len) =
    (at + len < sz) × (mem (at + len) ≡ 0) × ((j : ℕ) → j < len → mem (at + j) ≢ 0)

fetchstr-some :
    (sz addr : ℕ) (mem : Memory) {r : ℕ × ℕ} → fetchstr sz mem addr ≡ some r → IsString sz mem r
unfolding fetchstr
fetchstr-some sz addr mem {r} e = elim (Bool-cases (leb sz addr)) [
  | inl t ↦ absurd (let bad : none ≡ some r = rw t at (e) in cc)
  | inr f ↦ elim (Option-cases (string_to (sz - addr) addr mem)) [
    | inl out ↦ absurd (let bad : none ≡ some r = rw (f, out) at (e) in cc)
    | inr (len, there) ↦
        let (lt, nul, before) = string_to-some (sz - addr) addr mem there in
        let got : some (addr, len) ≡ some r = rw (f, there) at (e) in
        let same : (addr, len) ≡ r = cc in rw (← same) (ground arith, nul, before)
  ]
]

argint-some :
    (p : Proc) (mem : Memory) (n : ℕ) {w : ℕ}
    → p.sz ≤ kern_base
    → argint p mem n ≡ some w
    → (addr : ℕ) × (addr + 4 ≤ p.sz) × (w ≡ read32 mem addr)
unfolding argint fetchint
argint-some p mem n {w} low e =
    let addr = (p.tf.esp + 4 + 4 * n) % 2 ^ 32 in
    elim (Bool-cases (leb p.sz addr || ltb p.sz ((addr + 4) % 2 ^ 32))) [
      | inl t ↦ absurd (let bad : none ≡ some w = rw t at (e) in cc)
      | inr f ↦
          let got : some (read32 mem addr) ≡ some w = rw f at (e) in
          let inside : addr < p.sz = ground arith in
          let wrap : (addr + 4) % 2 ^ 32 ≡ addr + 4 = omega arith in
          let f' : (leb p.sz addr || ltb p.sz (addr + 4)) ≡ false = rw wrap at (f) in
          (addr, ground arith, cc)
    ]

argptr-some :
    (p : Proc) (mem : Memory) (n size : ℕ) {at : ℕ}
    → p.sz ≤ kern_base
    → size < 2 ^ 31
    → argptr p mem n size ≡ some at
    → (at < p.sz) × (at + size ≤ p.sz)
unfolding argptr
argptr-some p mem n size {at} low small e = elim (Option-cases (argint p mem n)) [
  | inl out ↦ absurd (let bad : none ≡ some at = rw (out, argptr) at (e) in cc)
  | inr (i, there) ↦ elim (Bool-cases (leb p.sz i || ltb p.sz ((i + size) % 2 ^ 32))) [
    | inl t ↦ absurd (let bad : none ≡ some at = rw (there, argptr, t) at (e) in cc)
    | inr f ↦
        let got : some i ≡ some at = rw (there, argptr, f) at (e) in
        let same : i ≡ at = cc in
        let inside : i < p.sz = ground arith in
        let wrap : (i + size) % 2 ^ 32 ≡ i + size = omega arith in
        let f' : (leb p.sz i || ltb p.sz (i + size)) ≡ false = rw wrap at (f) in
        rw (← same) (inside, ground arith)
  ]
]

argstr-some :
    (p : Proc) (mem : Memory) (n : ℕ) {r : ℕ × ℕ} → argstr p mem n ≡ some r → IsString p.sz mem r
unfolding argstr
argstr-some p mem n {r} e = elim (Option-cases (argint p mem n)) [
  | inl out ↦ absurd (let bad : none ≡ some r = rw (out, argstr) at (e) in cc)
  | inr (addr, there) ↦ fetchstr-some p.sz addr mem (rw (there, argstr) at (e))
]

-- What holds of the result, where there is one.
abbrev pub WhereSome {ℓ} : {A : Type ℓ} → (A → Type 0) → Option A → Type 0
WhereSome P none = Unit
WhereSome P (some a) = P a

where_some {ℓ} :
    {A : Type ℓ} (P : A → Type 0) (o : Option A) → ((a : A) → o ≡ some a → P a) → WhereSome P o
where_some P none h = tt
where_some P (some a) h = h a refl

-- For a process of no more than KERNBASE bytes, each on its own: argint(), where it returns 0, gives
-- a word of its memory; argptr() for a size that is not negative, where it returns 0, the start of
-- an area of that size in it; and argstr(), where it does not return -1, the start and length of a
-- string that ends in it, with no NUL before its end.
pub args_inside :
    (p : Proc) (mem : Memory) (n size : ℕ)
    → p.sz ≤ kern_base
    → size < 2 ^ 31
    → WhereSome (λ w. (addr : ℕ) × (addr + 4 ≤ p.sz) × (w ≡ read32 mem addr)) (argint p mem n)
      × WhereSome (λ at. (at < p.sz) × (at + size ≤ p.sz)) (argptr p mem n size)
      × WhereSome (IsString p.sz mem) (argstr p mem n)
args_inside p mem n size low small = (
  where_some _ (argint p mem n) (λ w e. argint-some p mem n low e),
  where_some _ (argptr p mem n size) (λ at e. argptr-some p mem n size low small e),
  where_some _ (argstr p mem n) (λ r e. argstr-some p mem n e),
)
