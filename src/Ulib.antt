-- ===== src/Ulib.antt =====
-- ulib.c and printf.c: strings and numbers in user programs. What goes to a file descriptor is the
-- list of the bytes written. Where a string is read only, it is the list of its bytes before the
-- NUL, and else an address in memory.
pub mod Numbers
mod Tests
use spring18cs.Base.{
  ℕ, zero, suc, ◌+◌, ◌-◌, ◌*◌, ◌/◌, ◌%◌, ◌^◌, Bool, true, false, ◌&&◌, ◌||◌, not, ltb, leb, ◌==◌,
  if◌then◌else◌, List, [], ◌∷◌, ◌++◌, drop, Option, none, some, get_or,
}
use spring18cs.CString.Memory.{Memory, set_byte, minus}

-- strcpy(), on fuel
unfoldable pub strcpy : ℕ → ℕ → ℕ → Memory → Option Memory
strcpy zero s t mem = none
strcpy (suc fuel) s t mem =
    let mem' = set_byte s (mem t) mem in
    let rest = strcpy fuel (s + 1) (t + 1) mem' in if mem t == 0 then some mem' else rest

-- strcmp()
unfoldable pub strcmp : List ℕ → List ℕ → ℕ
strcmp [] q = minus 0 (get_or q 0 0)
strcmp (c ∷ p) q =
    let rest = strcmp p (drop 1 q) in if c == get_or q 0 0 then rest else minus c (get_or q 0 0)

-- strchr(): the string from the byte on
unfoldable pub strchr : List ℕ → ℕ → Option (List ℕ)
strchr [] c = none
strchr (d ∷ s) c = if d == c then some (d ∷ s) else strchr s c

-- memmove() of ulib.c, which copies upwards however the areas lie
unfoldable pub move_bytes : ℕ → ℕ → ℕ → Memory → Memory
move_bytes dst src zero mem = mem
move_bytes dst src (suc n) mem = move_bytes (dst + 1) (src + 1) n (set_byte dst (mem src) mem)

-- The loop of gets() with room for `n` more bytes: what it stores, and the input that is left. The
-- input ends where read() returns less than 1.
unfoldable pub gets_line : ℕ → List ℕ → List ℕ × List ℕ
gets_line zero input = ([], input)
gets_line (suc n) [] = ([], [])
gets_line (suc n) (c ∷ input) =
    let (line, rest) = gets_line n input in
    if c == 10 || c == 13 then (c ∷ [], input) else (c ∷ line, rest)

-- gets(), for a `max` that is not negative: the string in the buffer, and the input that is left
abbrev pub gets : ℕ → List ℕ → List ℕ × List ℕ
gets max input = gets_line (max - 1) input

-- `while (*s == ' ') s++;`
unfoldable pub skip_spaces : List ℕ → List ℕ
skip_spaces [] = []
skip_spaces (c ∷ s) = if c == 32 then skip_spaces s else c ∷ s

-- The loop over the digits below `base`, on an `int` as its bit pattern.
unfoldable pub number_from : ℕ → ℕ → List ℕ → ℕ
number_from base n [] = n
number_from base n (c ∷ s) =
    if leb 48 c && ltb c (48 + base)
    then number_from base ((n * base + c + 2 ^ 32 - 48) % 2 ^ 32) s
    else n

-- What atoi() and atoo() share.
unfoldable pub parse_int : ℕ → List ℕ → ℕ
parse_int base text =
    let s = skip_spaces text in
    let sign = get_or s 0 0 in
    let digits = if sign == 43 || sign == 45 then drop 1 s else s in
    let n = number_from base 0 digits in if sign == 45 then (2 ^ 32 - n) % 2 ^ 32 else n

-- atoi()
abbrev pub atoi : List ℕ → ℕ
atoi s = parse_int 10 s

-- atoo()
abbrev pub atoo : List ℕ → ℕ
atoo s = parse_int 8 s

-- `digits[d]`
abbrev pub digit : ℕ → ℕ
digit d = if ltb d 10 then 48 + d else 55 + d

-- The loop of printint() that fills buf, read from its end, on fuel: buf has 16 bytes.
unfoldable pub put_digits : ℕ → ℕ → ℕ → List ℕ → List ℕ
put_digits zero base x buf = buf
put_digits (suc fuel) base x buf =
    let rest = put_digits fuel base (x / base) (digit (x % base) ∷ buf) in
    if x / base == 0 then digit (x % base) ∷ buf else rest

-- printint()
unfoldable pub printint : ℕ → ℕ → Bool → List ℕ
printint xx base sgn =
    if sgn && leb (2 ^ 31) xx
    then 45 ∷ put_digits 16 base ((2 ^ 32 - xx) % 2 ^ 32) []
    else put_digits 16 base xx []

abbrev null_text : List ℕ
null_text = b'(' ∷ b'n' ∷ b'u' ∷ b'l' ∷ b'l' ∷ b')' ∷ []

-- The loop of printf(). `percent` says that the state is '%', `ap n` is the n-th argument, and
-- `string` the string at an address.
unfoldable pub printf_from : (ℕ → ℕ) → (ℕ → List ℕ) → Bool → ℕ → List ℕ → List ℕ
printf_from ap string percent n [] = []
printf_from ap string false n (c ∷ fmt) =
    if c == b'%' then printf_from ap string true n fmt else c ∷ printf_from ap string false n fmt
printf_from ap string true n (c ∷ fmt) =
    let next = printf_from ap string false (suc n) fmt in
    let same = printf_from ap string false n fmt in
    if c == b'd'
    then printint (ap n) 10 true ++ next
    else if c == b'x' || c == b'p'
    then printint (ap n) 16 false ++ next
    else if c == b's'
    then (if ap n == 0 then null_text else string (ap n)) ++ next
    else if c == b'c'
    then ap n % 256 ∷ next
    else if c == b'%'
    then c ∷ same
    else b'%' ∷ c ∷ same

-- printf()
abbrev pub printf : List ℕ → (ℕ → ℕ) → (ℕ → List ℕ) → List ℕ
printf fmt ap string = printf_from ap string false 0 fmt
