-- ===== src/Pipe/Traffic.antt =====
-- pipe.c: what goes through a pipe in any order of calls.
use spring18cs.Base.{
  ℕ, ◌≡◌, refl, sym, ap, ◌∙◌, subst, Bool, true, false, List, [], ◌++◌, arith, length, ◌⊎◌, inl,
  inr,
}
use mathlib.Core.List.{append_assoc, append_cancel_right}
use spring18cs.Pipe.{
  Pipe, pipe_size, pipewrite, wrote, write_fails, write_sleeps, piperead, did_read, fresh,
  close_end,
}
use spring18cs.Pipe.Fifo.{IsValid, contents}
use spring18cs.Pipe.Calls.{Writes, pipewrite-Writes, Reads, piperead-Reads}

-- Calls on a pipe, by any processes and in any order, from the pipe `p` on: the bytes that were
-- put in, the bytes that were taken out, and the pipe that is left. A call that sleeps stops where
-- it stands; its process calls again with the bytes that are left.
pub data Traffic (p : Pipe) : List ℕ → List ℕ → Pipe → Type 0 where
  quiet : Traffic p [] [] p
  writes :
      {ins outs : List ℕ} {q : Pipe} (killed : Bool) (cs : List ℕ) (u : Pipe) (ins' : List ℕ)
      → Traffic p ins outs q
      → pipewrite killed q cs ≡ wrote u
      → ins' ≡ ins ++ cs
      → Traffic p ins' outs u
  writes_part :
      {ins outs : List ℕ} {q : Pipe} (killed : Bool) (done rest : List ℕ) (u : Pipe) (ins' : List ℕ)
      → Traffic p ins outs q
      → (pipewrite killed q (done ++ rest) ≡ write_sleeps u rest)
        ⊎ (pipewrite killed q (done ++ rest) ≡ write_fails u rest)
      → ins' ≡ ins ++ done
      → Traffic p ins' outs u
  reads :
      {ins outs : List ℕ} {q : Pipe} (killed : Bool) (n : ℕ) (cs : List ℕ) (u : Pipe)
      (outs' : List ℕ)
      → Traffic p ins outs q
      → piperead killed q n ≡ did_read cs u
      → outs' ≡ outs ++ cs
      → Traffic p ins outs' u
  closes :
      {ins outs : List ℕ} {q : Pipe} (writable : Bool) (u : Pipe)
      → Traffic p ins outs q
      → u ≡ (close_end writable q).0
      → Traffic p ins outs u

-- More bytes at the end of what waits are more bytes put in.
put_in : (outs ins cs q u : List ℕ) → ins ≡ outs ++ q → u ≡ q ++ cs → ins ++ cs ≡ outs ++ u
put_in outs ins cs q u h e = ap (λ xs. xs ++ cs) h ∙ append_assoc outs q cs ∙ ap (◌++◌ outs) (sym e)

part_in :
    (outs ins done rest done' q u : List ℕ)
    → ins ≡ outs ++ q
    → done ++ rest ≡ done' ++ rest
    → u ≡ q ++ done'
    → ins ++ done ≡ outs ++ u
part_in outs ins done rest done' q u h same e =
    let d : done ≡ done' = append_cancel_right done done' rest same in
    put_in outs ins done q u h (e ∙ ap (◌++◌ q) (sym d))

close-IsValid :
    (writable : Bool) (q : Pipe)
    → IsValid q
    → IsValid (close_end writable q).0 × (contents (close_end writable q).0 ≡ contents q)
unfolding close_end
close-IsValid true q v =
    (record { room = v.room; nread = v.nread; nwrite = v.nwrite; bounded = v.bounded }, refl)
close-IsValid false q v =
    (record { room = v.room; nread = v.nread; nwrite = v.nwrite; bounded = v.bounded }, refl)

pub fresh-IsValid :
    (bytes : List ℕ)
    → length bytes ≡ pipe_size
    → IsValid (fresh bytes) × (contents (fresh bytes) ≡ [])
unfolding fresh
fresh-IsValid bytes e =
    (record { room = e; nread = omega arith; nwrite = omega arith; bounded = omega arith }, refl)

-- Whatever goes through a pipe that was just made comes out in order, each byte once: at any time
-- the bytes put in are the bytes taken out followed by those that wait, and the pipe is valid, so
-- no more than 512 wait. This holds though the counters wrap at 2^32.
pub Traffic-fifo :
    (bytes : List ℕ) {ins outs : List ℕ} {q : Pipe}
    → length bytes ≡ pipe_size
    → Traffic (fresh bytes) ins outs q
    → IsValid q × (ins ≡ outs ++ contents q)
Traffic-fifo bytes len quiet = let (v, e) = fresh-IsValid bytes len in (v, sym e)
Traffic-fifo bytes {outs} len (writes {ins} {q} killed cs u ins' t e ei) =
    let (v, h) = Traffic-fifo bytes len t in
    let (vu, c) = subst (Writes killed q cs) e (pipewrite-Writes killed q cs v) in
    (vu, ei ∙ put_in outs ins cs (contents q) (contents u) h c)
Traffic-fifo bytes {outs} len (writes_part {ins} {q} killed done rest u ins' t (inl e) ei) =
    let (v, h) = Traffic-fifo bytes len t in
    let (vu, d, same, c, _, _) =
      subst (Writes killed q (done ++ rest)) e (pipewrite-Writes killed q (done ++ rest) v) in
    (vu, ei ∙ part_in outs ins done rest d (contents q) (contents u) h same c)
Traffic-fifo bytes {outs} len (writes_part {ins} {q} killed done rest u ins' t (inr e) ei) =
    let (v, h) = Traffic-fifo bytes len t in
    let (vu, d, same, c, _, _) =
      subst (Writes killed q (done ++ rest)) e (pipewrite-Writes killed q (done ++ rest) v) in
    (vu, ei ∙ part_in outs ins done rest d (contents q) (contents u) h same c)
Traffic-fifo bytes {ins} len (reads {outs} {q} killed n cs u outs' t e eo) =
    let (v, h) = Traffic-fifo bytes len t in
    let (vu, c, _, _) = subst (Reads killed q n) e (piperead-Reads killed q n v) in
    (
      vu,
      h
          ∙ ap (◌++◌ outs) c
          ∙ sym (append_assoc outs cs (contents u))
          ∙ ap (λ xs. xs ++ contents u) (sym eo),
    )
Traffic-fifo bytes {ins} {outs} len (closes {q} writable u t e) =
    let (v, h) = Traffic-fifo bytes len t in
    let (vu, c) = close-IsValid writable q v in
    (rw e vu, h ∙ ap (◌++◌ outs) (sym c) ∙ ap (λ w. outs ++ contents w) (sym e))
