-- ===== src/Files.antt =====
-- file.c: the table of open files. A `struct file *` is an index into `ftable.file`.
-- What fileclose() does beyond the table (pipeclose(), iput()) is its result, a `Close`, which the
-- caller runs: Proc.Kernel says how. Each critical section is one step.
use spring18cs.Base.{
  ℕ, ◌+◌, ◌-◌, Bool, List, Option, none, some, ltb, ◌==◌, if◌then◌else◌, get_elem?, modify,
  first_index, Outcome, ok, panic,
}

-- The enum of `struct file`.
pub data FileType : Type 0 where
  fd_none fd_pipe fd_inode : FileType

-- `struct file`. A pipe is named by its page's address, an inode by its index in the cache.
pub record File : Type 0 where
  pub type : FileType
  pub ref : ℕ
  pub readable : Bool
  pub writable : Bool
  pub pipe : ℕ
  pub ip : ℕ
  pub off : ℕ

-- What is left to do when the last reference is gone.
pub data Close : Type 0 where
  nothing : Close
  close_pipe : ℕ → Bool → Close
  put_inode : ℕ → Close

-- filealloc(): the index of the file, or `none` for 0
unfoldable pub filealloc : List File → Option ℕ × List File
filealloc ft = elim (first_index (λ f. f.ref == 0) ft) [
  | none ↦ (none, ft)
  | some i ↦ (some i, modify ft i (λ f. record f { ref = 1 }))
]

-- filedup(). An index out of range is a wild pointer.
unfoldable pub filedup : ℕ → List File → Outcome (List File)
filedup i ft = elim (get_elem? ft i) [
  | none ↦ panic "wild file pointer"
  | some f ↦
      if ltb f.ref 1 then panic "filedup" else ok (modify ft i (λ g. record g { ref = g.ref + 1 }))
]

-- The end of fileclose(), on the copy `ff`.
unfoldable pub closing : File → Close
closing ff = elim ff.type [
  | fd_pipe ↦ close_pipe ff.pipe ff.writable
  | fd_inode ↦ put_inode ff.ip
  | fd_none ↦ nothing
]

-- fileclose(). `--f->ref` runs only where the count is at least 1.
unfoldable pub fileclose : ℕ → List File → Outcome (Close × List File)
fileclose i ft = elim (get_elem? ft i) [
  | none ↦ panic "wild file pointer"
  | some f ↦
      if ltb f.ref 1
      then panic "fileclose"
      else if ltb 0 (f.ref - 1)
      then ok (nothing, modify ft i (λ g. record g { ref = g.ref - 1 }))
      else ok (closing f, modify ft i (λ g. record g { ref = 0; type = fd_none }))
]
