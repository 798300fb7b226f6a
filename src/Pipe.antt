-- ===== src/Pipe.antt =====
-- pipe.c: a ring of PIPESIZE bytes under p->lock. A call that sleeps is split there: it returns
-- how it stands, and goes on from there on the pipe that it finds when it wakes.
pub mod Fifo
pub mod Calls
pub mod Traffic
mod Tests
use spring18cs.Base.{
  ℕ, zero, suc, ◌+◌, ◌-◌, ◌%◌, ◌^◌, Bool, true, false, ◌&&◌, ◌||◌, not, List, [], ◌∷◌, ◌++◌, Option,
  none, some, ◌==◌, if◌then◌else◌, get_or, modify,
}

-- PIPESIZE
abbrev pub pipe_size : ℕ
pipe_size = 512

-- `x++` and `x + n` on a `uint`
abbrev pub add32 : ℕ → ℕ → ℕ
add32 a b = (a + b) % 2 ^ 32

-- `struct pipe`, but for its lock
pub record Pipe : Type 0 where
  pub bytes : List ℕ
  pub nread : ℕ
  pub nwrite : ℕ
  pub readopen : Bool
  pub writeopen : Bool

-- What pipealloc() sets up in the page `bytes`, whose contents it leaves alone.
unfoldable pub fresh : List ℕ → Pipe
fresh bytes = record { bytes = bytes; nread = 0; nwrite = 0; readopen = true; writeopen = true }

-- What pipeclose() does to the pipe. The result says whether the page is freed.
unfoldable pub close_end : Bool → Pipe → Pipe × Bool
close_end writable p =
    let q : Pipe =
      if writable then record p { writeopen = false } else record p { readopen = false } in
    (q, not q.readopen && not q.writeopen)

abbrev pub is_full : Pipe → Bool
is_full p = p.nwrite == add32 p.nread pipe_size

abbrev pub is_empty : Pipe → Bool
is_empty p = p.nread == p.nwrite

-- `p->data[p->nwrite++ % PIPESIZE] = c`
unfoldable pub put_byte : Pipe → ℕ → Pipe
put_byte p c = record p {
  bytes = modify p.bytes (p.nwrite % pipe_size) (λ _. c);
  nwrite = add32 p.nwrite 1;
}

-- How a pipewrite() stands: it returned n, or with bytes still to write it returned -1 or sleeps on
-- nwrite.
pub data Writing : Type 0 where
  wrote : Pipe → Writing
  write_fails : Pipe → List ℕ → Writing
  write_sleeps : Pipe → List ℕ → Writing

-- pipewrite(), from the byte that it has reached. `killed` is proc->killed.
unfoldable pub pipewrite : Bool → Pipe → List ℕ → Writing
pipewrite killed p [] = wrote p
pipewrite killed p (c ∷ cs) =
    let rest = pipewrite killed (put_byte p c) cs in
    if is_full p
    then (if not p.readopen || killed then write_fails p (c ∷ cs) else write_sleeps p (c ∷ cs))
    else rest

-- The copy loop of piperead(), for at most `n` bytes: the bytes and the pipe afterwards.
unfoldable pub copy_out : ℕ → Pipe → List ℕ × Pipe
copy_out zero p = ([], p)
copy_out (suc n) p =
    let rest = copy_out n (record p { nread = add32 p.nread 1 }) in
    if is_empty p then ([], p) else (get_or p.bytes (p.nread % pipe_size) 0 ∷ rest.0, rest.1)

-- How a piperead() stands: it returned the bytes, it returned -1, or it sleeps on nread.
pub data Reading : Type 0 where
  did_read : List ℕ → Pipe → Reading
  read_fails : Reading
  read_sleeps : Reading

-- piperead()
unfoldable pub piperead : Bool → Pipe → ℕ → Reading
piperead killed p n =
    if is_empty p && p.writeopen
    then (if killed then read_fails else read_sleeps)
    else (let (cs, q) = copy_out n p in did_read cs q)
