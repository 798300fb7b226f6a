-- ===== src/Pipe/Tests.antt =====
-- pipe.c: the theorems on a pipe into which two bytes were written.
use spring18cs.Base.{ℕ, ◌≡◌, refl, true, false, List, [], ◌∷◌, ◌++◌, arith, replicate, modify}
use spring18cs.Pipe.{Pipe, fresh, put_byte, pipewrite, piperead, copy_out, wrote, did_read}
use spring18cs.Pipe.Fifo.{IsValid, contents}
use spring18cs.Pipe.Calls.{Writes, pipewrite-Writes, Reads, piperead-Reads}
use spring18cs.Pipe.Traffic.{Traffic, quiet, writes, reads, Traffic-fifo}

abbrev page : List ℕ
page = replicate 512 0

-- The counters are about to wrap.
abbrev near_wrap : Pipe
near_wrap = record {
  bytes = page;
  nread = 0xFFFF_FFFF;
  nwrite = 0xFFFF_FFFF;
  readopen = true;
  writeopen = true;
}

near_wrap-IsValid : IsValid near_wrap
near_wrap-IsValid = record {
  room = refl;
  nread = omega arith;
  nwrite = omega arith;
  bounded = omega arith;
}

abbrev two_bytes : List ℕ
two_bytes = 104 ∷ 105 ∷ []

pipewrite-Writes_example : Writes false near_wrap two_bytes (pipewrite false near_wrap two_bytes)
pipewrite-Writes_example = pipewrite-Writes false near_wrap two_bytes near_wrap-IsValid

piperead-Reads_example : Reads false near_wrap 2 (piperead false near_wrap 2)
piperead-Reads_example = piperead-Reads false near_wrap 2 near_wrap-IsValid

written : Pipe
unfolding fresh put_byte modify
written = put_byte (put_byte (fresh page) 104) 105

written_lem : pipewrite false (fresh page) two_bytes ≡ wrote written
unfolding written pipewrite fresh put_byte modify
written_lem = refl

abbrev first_read : Pipe
first_read = record written { nread = 1 }

first_read_lem : piperead false written 1 ≡ did_read (104 ∷ []) first_read
unfolding written piperead copy_out
first_read_lem = refl

-- Two bytes in, one byte out.
two_in_one_out : Traffic (fresh page) two_bytes (104 ∷ []) first_read
two_in_one_out =
    reads false 1 (104 ∷ []) first_read (104 ∷ [])
      (writes false two_bytes written two_bytes quiet written_lem refl) first_read_lem refl

Traffic-fifo_example : IsValid first_read × (two_bytes ≡ (104 ∷ []) ++ contents first_read)
Traffic-fifo_example = Traffic-fifo page refl two_in_one_out
