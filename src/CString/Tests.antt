-- ===== src/CString/Tests.antt =====
-- string.c: the theorems on a memory whose bytes are the low bytes of their addresses.
use spring18cs.Base.{
  List, ℕ, [], ◌∷◌, replicate, ◌+◌, ◌-◌, ◌%◌, ◌≡◌, ◌↔◌, refl, inl, if◌then◌else◌, arith, some,
}
use spring18cs.CString.Memory.{Memory, memset, memmove, memcmp, strncmp, strncpy, strlen}
use spring18cs.CString.{safestrcpy}
use spring18cs.CString.Names.{Terminated, safestrcpy-Terminated}
use spring18cs.CString.Moves.{within, memset-Fills, memmove-Copies}
use spring18cs.CString.Compare.{Bytes, Same, memcmp-Same, strncmp-strncpy}

abbrev low : Memory
low a = a % 256

low-Bytes : Bytes low
low-Bytes a = omega arith

memset-Fills_example :
    memset 4096 513 8 low 4099 ≡ (if within 4096 8 4099 then 513 % 256 else low 4099)
memset-Fills_example = memset-Fills 4096 513 8 low 4099

-- Two areas that overlap, the target above the source.
memmove-Copies_example :
    memmove 102 100 6 low 105 ≡ (if within 102 6 105 then low (100 + (105 - 102)) else low 105)
memmove-Copies_example = memmove-Copies 102 100 6 low 105

memcmp-Same_example : (memcmp 10 266 4 low ≡ 0) ↔ Same 10 266 4 low
memcmp-Same_example = memcmp-Same 10 266 4 low low-Bytes

strncmp-strncpy_example : strncmp 200 500 14 (strncpy 200 500 14 low) ≡ 0
strncmp-strncpy_example = strncmp-strncpy 200 500 14 low (inl (omega arith))

-- The first NUL behind 250 is at 256.
strlen_test : strlen 10 250 low ≡ some 6
unfolding strlen
strlen_test = refl

abbrev a_name : List ℕ
a_name = 115 ∷ 104 ∷ 0 ∷ []

safestrcpy-Terminated_example :
    Terminated 3 (replicate 5 7) a_name (safestrcpy (replicate 5 7) a_name 4)
safestrcpy-Terminated_example = safestrcpy-Terminated 3 (replicate 5 7) a_name (omega arith)
