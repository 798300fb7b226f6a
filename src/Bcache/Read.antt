-- ===== src/Bcache/Read.antt =====
-- bio.c: bget() and bread().
use spring18cs.Base.{
  ℕ, ◌<◌, ◌≡◌, ◌⊎◌, inl, inr, refl, ◌∙◌, ap, true, false, some, none, get_elem?, modify, modify-at,
  arith, ok, Bool-cases, Option-cases, Returns, Returns-cases,
}
use spring18cs.Log.{Block}
use spring18cs.Bcache.{
  Buf, Bcache, Disk, sync_buf, bget, bread, find_buf, caches, is_free, backwards, take_buf, recycle,
  gets, waits, Getting,
}
use spring18cs.Bcache.Find.{buf_at-of, find_buf-some, find_buf-none, has-backwards}
use spring18cs.Bcache.Cached.{Cached, Cached-modify}
use spring18cs.Bcache.Calls.{Taken, same_block-Fits, sync_buf-Cached}

-- Some buffer is neither taken nor waits to be written.
abbrev pub HasRoom : Bcache → Type 0
HasRoom c = (i : ℕ) × (b : Buf) × (get_elem? c.bufs i ≡ some b) × (is_free b ≡ true)

abbrev pub Idle : Bcache → ℕ → Type 0
Idle c i = (b : Buf) × (get_elem? c.bufs i ≡ some b) × (b.busy ≡ false)

-- What bget() says of its result.
abbrev pub Gets : Bcache → Disk → (ℕ → Block) → ℕ → Getting → Type 0
Gets c d says blk (gets i c') =
    Cached c' d says
    × Idle c i
    × ((b : Buf) × (get_elem? c'.bufs i ≡ some b)
        × (b.busy ≡ true)
        × (b.dev ≡ 1)
        × (b.blockno ≡ blk)
        × ((b.valid ≡ true) ⊎ (b.dirty ≡ false)))
Gets c d says blk (waits i) = Taken c i blk

hit-Gets :
    (c : Bcache) (d : Disk) (says : ℕ → Block) (blk i : ℕ) (b : Buf)
    → Cached c d says
    → get_elem? c.bufs i ≡ some b
    → caches 1 blk b ≡ true
    → b.busy ≡ false
    → Gets c d says blk (gets i (record c { bufs = modify c.bufs i take_buf }))
hit-Gets c d says blk i b h s t idle =
    let dv : b.dev ≡ 1 = ground arith in
    let at : b.blockno ≡ blk = ground arith in
    (
      Cached-modify c d d says says i take_buf h s
          (same_block-Fits c d says i b (take_buf b) h s dv dv refl refl refl refl),
      (b, s, idle),
      (
        take_buf b,
        modify-at c.bufs i take_buf s,
        refl,
        dv,
        at,
        elim (Bool-cases b.dirty) [ inl di ↦ inl (h.filled i b s di) | inr f ↦ inr f ],
      ),
    )

miss-Gets :
    (c : Bcache) (d : Disk) (says : ℕ → Block) (blk i : ℕ) (b : Buf)
    → Cached c d says
    → find_buf (caches 1 blk) c.bufs c.mru ≡ none
    → get_elem? c.bufs i ≡ some b
    → is_free b ≡ true
    → Gets c d says blk (gets i (record c { bufs = modify c.bufs i (recycle 1 blk) }))
miss-Gets c d says blk i b h none_caches s t = (
  Cached-modify c d d says says i (recycle 1 blk) h s (record {
    on_disk = refl;
    alone = λ j o ne so d1 same.
        let f = find_buf-none (caches 1 blk) c.bufs c.mru j none_caches (h.linked j o so) so in
        ground arith;
    new_holds = λ v. cc;
    new_filled = λ v. cc;
    others = λ blk' ne. refl;
    new_stored =
        λ blk'. elim (h.stored blk') [ inl e ↦ inl e | inr p ↦ inr (inr (inr (ground arith), p)) ];
  }),
  (b, s, ground arith),
  (recycle 1 blk b, modify-at c.bufs i (recycle 1 blk) s, refl, refl, refl, inr refl),
)

pub bget-Gets :
    (c : Bcache) (d : Disk) (says : ℕ → Block) (blk : ℕ)
    → Cached c d says
    → HasRoom c
    → Returns (Gets c d says blk) (bget 1 blk c)
unfolding bget
bget-Gets c d says blk h (k, o, so, fo) =
    elim (Option-cases (find_buf (caches 1 blk) c.bufs c.mru)) [
      | inr (i, e) ↦
          let (b, s, t) = find_buf-some (caches 1 blk) c.bufs c.mru e in
          elim (Bool-cases b.busy) [
            | inl busy ↦
                let taken = buf_at-of (λ b. b.busy) c.bufs i s ∙ busy in
                rw (e, bget, taken) (b, s, busy, ground arith, ground arith)
            | inr idle ↦
                let taken = buf_at-of (λ b. b.busy) c.bufs i s ∙ idle in
                rw (e, bget, taken) (hit-Gets c d says blk i b h s t idle)
          ]
      | inl n ↦ elim (Option-cases (find_buf is_free c.bufs (backwards c.mru))) [
        | inr (i, e) ↦
            let (b, s, t) = find_buf-some is_free c.bufs (backwards c.mru) e in
            rw (n, e, bget) (miss-Gets c d says blk i b h n s t)
        | inl n' ↦
            let f =
              find_buf-none is_free c.bufs (backwards c.mru) k n'
                (has-backwards k c.mru (h.linked k o so)) so in
            absurd cc
      ]
    ]

-- What bread() says of its result.
abbrev pub Reads : Bcache → Disk → (ℕ → Block) → ℕ → Getting × Disk → Type 0
Reads c d says blk (gets i c', d') =
    Cached c' d' says
    × (d'.size ≡ d.size)
    × Idle c i
    × ((b : Buf) × (get_elem? c'.bufs i ≡ some b)
        × (b.busy ≡ true)
        × (b.dev ≡ 1)
        × (b.blockno ≡ blk)
        × (b.valid ≡ true)
        × (b.image ≡ says blk))
Reads c d says blk (waits i, d') = Taken c i blk × (d' ≡ d)

after_bget :
    (c c' : Bcache) (d : Disk) (says : ℕ → Block) (blk i : ℕ)
    → blk < d.size
    → bget 1 blk c ≡ ok (gets i c')
    → Gets c d says blk (gets i c')
    → Returns (Reads c d says blk) (bread 1 blk c d)
unfolding bread
after_bget c c' d says blk i lt e (h, idle, (b, s, busy, dv, at, clean)) =
    elim (Bool-cases b.valid) [
      | inl v ↦
          let full = buf_at-of (λ b. b.valid) c'.bufs i s ∙ v in
          rw (e, bread, full)
            (h, refl, idle, (b, s, busy, dv, at, v, (h.holds i b s v).1 ∙ ap says at))
      | inr f ↦
          let empty = buf_at-of (λ b. b.valid) c'.bufs i s ∙ f in
          let (r, er, (h', sz, (b', s', busy', dv', at', v', di'))) =
            Returns-cases (sync_buf i c' d)
              (sync_buf-Cached c' d says i b h s busy dv (ground arith) (rw at lt)) in
          rw (e, bread, empty, er)
            (
              h',
              sz,
              idle,
              (b', s', busy', dv', at' ∙ at, v', (h'.holds i b' s' v').1 ∙ ap says (at' ∙ at)),
            )
    ]

-- bread() of a block of disk 1, where a buffer is free and the block lies on the disk, does not
-- panic. It returns a buffer that nobody had taken, which is then taken and holds what the cache
-- and the disk say of the block, or it sleeps, and then a buffer of the block is taken. What they
-- say does not change.
pub bread-Reads :
    (c : Bcache) (d : Disk) (says : ℕ → Block) (blk : ℕ)
    → Cached c d says
    → HasRoom c
    → blk < d.size
    → Returns (Reads c d says blk) (bread 1 blk c d)
unfolding bread
bread-Reads c d says blk h room lt =
    let (got, e, p) = Returns-cases (bget 1 blk c) (bget-Gets c d says blk h room) in of_got got e p
  where
    of_got :
        (got : Getting)
        → bget 1 blk c ≡ ok got
        → Gets c d says blk got
        → Returns (Reads c d says blk) (bread 1 blk c d)
    of_got (gets i c') e p = after_bget c c' d says blk i lt e p
    of_got (waits i) e p = rw (e, bread) (p, refl)
