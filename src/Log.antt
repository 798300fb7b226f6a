-- ===== src/Log.antt =====
-- log.c: the redo log of the file system. A block is its words of 4 bytes; the log header is the
-- block at `start`: its first word is n, and the block numbers follow.
-- The power may fail: `writes_left` counts the block writes that still reach the disk, so that a
-- run with every number of them is a crash at every moment.
pub mod Header
pub mod Phases
pub mod Crash
pub mod Commit
pub mod Recovery
pub mod Space
mod Tests
use spring18cs.Base.{
  ℕ, zero, suc, ◌+◌, ◌-◌, ◌*◌, ◌%◌, ◌^◌, Bool, true, false, ◌&&◌, ◌||◌, not, ltb, leb, ◌==◌,
  if◌then◌else◌, List, [], ◌∷◌, ◌++◌, Option, none, some, length, modify, first_index, Outcome, ok,
  panic, ◌>>=◌,
}

-- MAXOPBLOCKS and LOGSIZE
abbrev pub max_op_blocks : ℕ
max_op_blocks = 10

abbrev pub log_size : ℕ
log_size = max_op_blocks * 3

-- The words of a block.
abbrev pub Block : Type 0
Block = List ℕ

-- `struct log` without its lock and device. `lh` is the part of lh.block in use, so lh.n is its
-- length. `outstanding` is the bit pattern of an `int`.
pub record Log : Type 0 where
  pub start : ℕ
  pub size : ℕ
  pub outstanding : ℕ
  pub committing : Bool
  pub lh : List ℕ

-- The disk, and what bread() returns of each block: the cached buffer or, where there is none, the
-- block on the disk.
pub record Store : Type 0 where
  pub disk : ℕ → Block
  pub view : ℕ → Block
  pub writes_left : ℕ

abbrev pub set_block : ℕ → Block → (ℕ → Block) → ℕ → Block
set_block at image blocks b = if b == at then image else blocks b

-- memmove() into the buffer of block `at`, and bwrite()
unfoldable pub bwrite : ℕ → Block → Store → Store
bwrite at image s = record {
  disk = if s.writes_left == 0 then s.disk else set_block at image s.disk;
  view = set_block at image s.view;
  writes_left = s.writes_left - 1;
}

-- The loop that stores the header's block numbers, in the words behind the first.
unfoldable pub overlay : List ℕ → List ℕ → List ℕ
overlay [] ws = ws
overlay (b ∷ bs) [] = []
overlay (b ∷ bs) (w ∷ ws) = b ∷ overlay bs ws

-- What write_head() makes of the header block.
abbrev pub encode : List ℕ → Block → Block
encode lh [] = []
encode lh (w ∷ ws) = length lh ∷ overlay lh ws

-- The loop that reads `n` block numbers.
unfoldable pub take_words : ℕ → List ℕ → List ℕ
take_words zero ws = []
take_words (suc n) [] = []
take_words (suc n) (w ∷ ws) = w ∷ take_words n ws

-- What read_head() reads of the header block.
abbrev pub decode : Block → List ℕ
decode [] = []
decode (n ∷ ws) = take_words n ws

-- write_head()
unfoldable pub write_head : Log → Store → Store
write_head lg s = bwrite lg.start (encode lg.lh (s.view lg.start)) s

-- read_head()
unfoldable pub read_head : Log → Store → Log
read_head lg s = record lg { lh = decode (s.view lg.start) }

-- The loop of write_log(), at tail `i`, over the block numbers that are left.
unfoldable pub write_log : ℕ → ℕ → List ℕ → Store → Store
write_log start i [] s = s
write_log start i (b ∷ bs) s = write_log start (i + 1) bs (bwrite (start + i + 1) (s.view b) s)

-- The loop of install_trans(), likewise.
unfoldable pub install_trans : ℕ → ℕ → List ℕ → Store → Store
install_trans start i [] s = s
install_trans start i (b ∷ bs) s =
    install_trans start (i + 1) bs (bwrite b (s.view (start + i + 1)) s)

-- commit()
unfoldable pub commit : Log → Store → Log × Store
commit lg s =
    let s1 = write_log lg.start 0 lg.lh s in
    let s2 = write_head lg s1 in
    let s3 = install_trans lg.start 0 lg.lh s2 in
    let done : Log = record lg { lh = [] } in
    if ltb 0 (length lg.lh) then (done, write_head done s3) else (lg, s)

-- recover_from_log()
unfoldable pub recover_from_log : Log → Store → Log × Store
recover_from_log lg s =
    let found = read_head lg s in
    let s1 = install_trans found.start 0 found.lh s in
    let done : Log = record found { lh = [] } in (done, write_head done s1)

-- `log.lh.n + (log.outstanding+1)*MAXOPBLOCKS > LOGSIZE`, where `outstanding` may be negative
abbrev pub is_short : Log → Bool
is_short lg =
    if ltb lg.outstanding (2 ^ 31)
    then ltb log_size (length lg.lh + (lg.outstanding + 1) * max_op_blocks)
    else ltb (log_size + (2 ^ 32 - 1 - lg.outstanding) * max_op_blocks) (length lg.lh)

-- A round of begin_op(): `none` where it sleeps.
unfoldable pub begin_op : Log → Option Log
begin_op lg =
    if lg.committing
    then none
    else if is_short lg
    then none
    else some (record lg { outstanding = (lg.outstanding + 1) % 2 ^ 32 })

-- The first part of end_op(), and whether this was the last operation, which commits.
unfoldable pub leave_op : Log → Outcome (Bool × Log)
leave_op lg =
    let left = (lg.outstanding + 2 ^ 32 - 1) % 2 ^ 32 in
    if lg.committing
    then panic "log.committing"
    else if left == 0
    then ok (true, record lg { outstanding = left; committing = true })
    else ok (false, record lg { outstanding = left })

-- The second part of end_op(): the commit, whole.
unfoldable pub run_commit : Log → Store → Log × Store
run_commit lg s = let (lg', s') = commit lg s in (record lg' { committing = false }, s')

-- end_op(). Its wake-ups of `&log` are those of Proc.
unfoldable pub end_op : Log → Store → Outcome (Log × Store)
end_op lg s = do (last, lg') ← leave_op lg; ok (if last then run_commit lg' s else (lg', s))

-- The loop of log_write() and the store behind it: a block that is logged already is absorbed.
abbrev pub absorb : ℕ → List ℕ → List ℕ
absorb b lh = elim (first_index (λ x. x == b) lh) [
  | some i ↦ modify lh i (λ _. b)
  | none ↦ lh ++ (b ∷ [])
]

-- log_write() of block `b`; the flag B_DIRTY, which keeps it in the cache, is that of `view`.
unfoldable pub log_write : ℕ → Log → Outcome Log
log_write b lg =
    if leb log_size (length lg.lh) || leb (lg.size - 1) (length lg.lh)
    then panic "too big a transaction"
    else if ltb lg.outstanding 1 || leb (2 ^ 31) lg.outstanding
    then panic "log_write outside of trans"
    else ok (record lg { lh = absorb b lg.lh })
