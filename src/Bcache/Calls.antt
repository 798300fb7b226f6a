-- ===== src/Bcache/Calls.antt =====
-- bio.c: each call keeps what the cache and the disk say.
use spring18cs.Base.{
  ℕ, ◌<◌, ◌≡◌, inl, inr, refl, sym, ◌∙◌, true, false, ◌&&◌, not, ◌==◌, some, get_elem?, modify-at,
  arith, ltb, ==_iff, Bool-cases, Returns,
}
use spring18cs.Log.{Block, set_block}
use spring18cs.Bcache.{Buf, Bcache, Disk, iderw, sync_buf}
use spring18cs.Bcache.Cached.{Cached, Fits, Cached-modify}

-- Buffer `i` is taken, and stands for block `blk` of disk 1.
abbrev pub Taken : Bcache → ℕ → ℕ → Type 0
Taken c i blk =
    (b : Buf) × (get_elem? c.bufs i ≡ some b) × (b.busy ≡ true) × (b.dev ≡ 1) × (b.blockno ≡ blk)

-- A buffer that changes neither its block nor what it says of it.
pub same_block-Fits :
    (c : Bcache) (d : Disk) (says : ℕ → Block) (i : ℕ) (b b' : Buf)
    → Cached c d says
    → get_elem? c.bufs i ≡ some b
    → b.dev ≡ 1
    → b'.dev ≡ 1
    → b'.blockno ≡ b.blockno
    → b'.valid ≡ b.valid
    → b'.dirty ≡ b.dirty
    → b'.image ≡ b.image
    → Fits c i b b' d says says
same_block-Fits c d says i b b' h s dv dv' at va di im = record {
  on_disk = dv';
  alone = λ j o ne so d1 same. ne (h.one i j b o s so dv d1 (sym at ∙ same));
  new_holds = λ v. rw (at, im) ((h.holds i b s (sym va ∙ v)).1);
  new_filled = λ t. va ∙ h.filled i b s (sym di ∙ t);
  others = λ blk ne. refl;
  new_stored = λ blk. elim (h.stored blk) [
    | inl e ↦ inl e
    | inr p ↦ elim (Bool-cases b.dirty) [
      | inr f ↦ inr (inr (inr f, p))
      | inl t ↦ elim (Bool-cases (b.blockno == blk)) [
        | inl e ↦ inr (inl (di ∙ t, at ∙ (==_iff b.blockno blk).0 e))
        | inr ne ↦ inr (inr (inl (λ e. ground arith), p))
      ]
    ]
  ];
}

-- iderw() on a taken buffer of the disk that has something to do: what is said stays, and the
-- buffer and the disk agree on it afterwards.
pub sync_buf-Cached :
    (c : Bcache) (d : Disk) (says : ℕ → Block) (i : ℕ) (b : Buf)
    → Cached c d says
    → get_elem? c.bufs i ≡ some b
    → b.busy ≡ true
    → b.dev ≡ 1
    → (b.valid && not b.dirty) ≡ false
    → b.blockno < d.size
    → Returns
        (λ r.
          Cached r.0 r.1 says
          × (r.1.size ≡ d.size)
          × ((b' : Buf) × (get_elem? r.0.bufs i ≡ some b')
              × (b'.busy ≡ true)
              × (b'.dev ≡ 1)
              × (b'.blockno ≡ b.blockno)
              × (b'.valid ≡ true)
              × (b'.dirty ≡ false)))
        (sync_buf i c d)
unfolding sync_buf iderw
sync_buf-Cached c d says i b h s busy dv todo lt =
    let t1 : (b.dev == 1) ≡ true = (==_iff b.dev 1).1 dv in
    let t2 : ltb b.blockno d.size ≡ true = ground arith in
    elim (Bool-cases b.dirty) [
      | inl t ↦
          let b' : Buf = record b { busy = true; dirty = false; valid = true } in
          let d' : Disk = record d { blocks = set_block b.blockno b.image d.blocks } in
          rw (s, busy, todo, t, t1, t2, sync_buf, iderw)
            (
              Cached-modify c d d' says says i (λ _. b') h s
                  (record {
                    on_disk = dv;
                    alone = λ j o ne so d1 same. ne (h.one i j b o s so dv d1 same);
                    new_holds = λ v. (h.holds i b s (h.filled i b s t)).1;
                    new_filled = λ e. refl;
                    others = λ blk ne. refl;
                    new_stored = λ blk. elim (Bool-cases (blk == b.blockno)) [
                      | inl e ↦
                          let e' : blk ≡ b.blockno = (==_iff blk b.blockno).0 e in
                          inl (rw e (rw e' ((h.holds i b s (h.filled i b s t)).1)))
                      | inr ne ↦ elim (h.stored blk) [
                        | inl e ↦ inl (rw ne e)
                        | inr p ↦ inr (inr (inl (λ e. ground arith), p))
                      ]
                    ];
                  }),
              refl,
              (b', modify-at c.bufs i (λ _. b') s, refl, dv, refl, refl, refl),
            )
      | inr f ↦
          let nv : b.valid ≡ false = ground arith in
          let b' : Buf = record b {
            busy = true;
            valid = true;
            dirty = false;
            image = d.blocks b.blockno;
          } in
          rw (s, busy, f, nv, t1, t2, sync_buf, iderw)
            (
              Cached-modify c d d says says i (λ _. b') h s
                  (record {
                    on_disk = dv;
                    alone = λ j o ne so d1 same. ne (h.one i j b o s so dv d1 same);
                    new_holds = λ v. elim (h.stored b.blockno) [
                      | inl e ↦ e
                      | inr (j, o, so, dirty, at) ↦
                          let d1 = (h.holds j o so (h.filled j o so dirty)).0 in
                          let same : i ≡ j = h.one i j b o s so dv d1 (sym at) in
                          let s' = rw same at (s) in
                          let eo : o ≡ b = cc in
                          let t : b.dirty ≡ true = rw (← eo) dirty in absurd cc
                    ];
                    new_filled = λ e. refl;
                    others = λ blk ne. refl;
                    new_stored =
                        λ blk. elim (h.stored blk) [ inl e ↦ inl e | inr p ↦ inr (inr (inr f, p)) ];
                  }),
              refl,
              (b', modify-at c.bufs i (λ _. b') s, refl, dv, refl, refl, refl),
            )
    ]
