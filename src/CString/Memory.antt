-- ===== src/CString/Memory.antt =====
-- string.c: the functions on memory, which is a function from addresses to bytes. A result of type
-- `int` is its bit pattern.
use spring18cs.Base.{
  ℕ, zero, suc, ◌+◌, ◌-◌, ◌*◌, ◌/◌, ◌%◌, ◌^◌, ◌&&◌, not, ltb, ◌==◌, if◌then◌else◌, Option, none,
  some,
}

abbrev pub Memory : Type 0
Memory = ℕ → ℕ

-- `*(char*)at = v`
abbrev pub set_byte : ℕ → ℕ → Memory → Memory
set_byte at v mem a = if a == at then v else mem a

-- stosb()
unfoldable pub stosb : ℕ → ℕ → ℕ → Memory → Memory
stosb at v zero mem = mem
stosb at v (suc n) mem = stosb (at + 1) v n (set_byte at (v % 256) mem)

-- A word of 4 bytes, the lowest first.
abbrev pub set_word : ℕ → ℕ → Memory → Memory
set_word at w mem = set_byte (at + 3) (w / 2 ^ 24 % 256) (
    set_byte (at + 2) (w / 2 ^ 16 % 256)
      (set_byte (at + 1) (w / 2 ^ 8 % 256) (set_byte at (w % 256) mem)))

-- stosl()
unfoldable pub stosl : ℕ → ℕ → ℕ → Memory → Memory
stosl at w zero mem = mem
stosl at w (suc n) mem = stosl (at + 4) w n (set_word at w mem)

-- memset()
unfoldable pub memset : ℕ → ℕ → ℕ → Memory → Memory
memset dst c n mem =
    let b = c % 256 in
    if dst % 4 == 0 && n % 4 == 0
    then stosl dst (b * 2 ^ 24 + b * 2 ^ 16 + b * 2 ^ 8 + b) (n / 4) mem
    else stosb dst c n mem

-- The loop of memmove() from the first byte on.
unfoldable pub copy_up : ℕ → ℕ → ℕ → Memory → Memory
copy_up d s zero mem = mem
copy_up d s (suc n) mem = copy_up (d + 1) (s + 1) n (set_byte d (mem s) mem)

-- The loop from the last byte down: `n` bytes are left.
unfoldable pub copy_down : ℕ → ℕ → ℕ → Memory → Memory
copy_down d s zero mem = mem
copy_down d s (suc n) mem = copy_down d s n (set_byte (d + n) (mem (s + n)) mem)

-- memmove(), and memcpy(), which calls it
unfoldable pub memmove : ℕ → ℕ → ℕ → Memory → Memory
memmove dst src n mem =
    if ltb src dst && ltb dst (src + n) then copy_down dst src n mem else copy_up dst src n mem

-- `a - b` on bytes, as an `int`
abbrev pub minus : ℕ → ℕ → ℕ
minus a b = (a + 2 ^ 32 - b) % 2 ^ 32

-- memcmp()
unfoldable pub memcmp : ℕ → ℕ → ℕ → Memory → ℕ
memcmp p q zero mem = 0
memcmp p q (suc n) mem =
    let rest = memcmp (p + 1) (q + 1) n mem in
    if not (mem p == mem q) then minus (mem p) (mem q) else rest

-- strncmp()
unfoldable pub strncmp : ℕ → ℕ → ℕ → Memory → ℕ
strncmp p q zero mem = 0
strncmp p q (suc n) mem =
    let rest = strncmp (p + 1) (q + 1) n mem in
    if not (mem p == 0) && mem p == mem q then rest else minus (mem p) (mem q)

-- The loop of strncpy() that pads with NULs.
unfoldable pub pad : ℕ → ℕ → Memory → Memory
pad s zero mem = mem
pad s (suc n) mem = pad (s + 1) n (set_byte s 0 mem)

-- strncpy(), for an `n` that is not negative
unfoldable pub strncpy : ℕ → ℕ → ℕ → Memory → Memory
strncpy s t zero mem = mem
strncpy s t (suc n) mem =
    let mem' = set_byte s (mem t) mem in
    let rest = strncpy (s + 1) (t + 1) n mem' in if mem t == 0 then pad (s + 1) n mem' else rest

-- strlen(), on fuel: `none` where there is no NUL within it
unfoldable pub strlen : ℕ → ℕ → Memory → Option ℕ
strlen zero s mem = none
strlen (suc fuel) s mem =
    let rest = strlen fuel (s + 1) mem in
    if mem s == 0 then some 0 else elim rest [ none ↦ none | some n ↦ some (suc n) ]
