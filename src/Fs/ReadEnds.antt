-- ===== src/Fs/ReadEnds.antt =====
-- fs.c: locks of inodes and reads of files end, where the reads of the devices do.
use Prim.Native.Nat.{Ordering}
use Prim.Native.String.{String, compare}
use spring18cs.Base.{
  ℕ, zero, suc, ◌+◌, ◌-◌, ◌/◌, ◌%◌, ◌^◌, ◌<◌, ◌≤◌, ◌≡◌, false, ◌||◌, not, ltb, ◌==◌, if◌then◌else◌,
  none, some, length, get_elem?, arith, Bool-cases, Option-cases, inl, inr, ok, panic, Outcome,
  Ends, Ends-bind, ap, ◌≢◌,
}
use spring18cs.Fs.{Fs, bsize, iblock}
use spring18cs.Fs.Icache.{
  inode_at, iget, ilock, iunlock, scan_inodes, is_pos, get_dinode, dinode_at,
}
use spring18cs.Fs.Content.{Devsw, bmap, iunlockput, read_from, readi, device, chunk, t_dev}
use spring18cs.Fs.Dir.{read_dirent, dirent_size}
use spring18cs.Fs.Ends.{inode_at-Ends, bmap-Ends, iput-Ends}

-- The reads of the devices end.
abbrev pub DevsEnd : Devsw → Type 0
DevsEnd devsw =
    (major : ℕ) (read : _)
    → devsw.read major ≡ some read
    → (ip n : ℕ) (fs : Fs) → Ends (read ip n fs)

pub iget-Ends : (dev inum : ℕ) (fs : Fs) → Ends (iget dev inum fs)
unfolding iget
iget-Ends dev inum fs =
    let r = scan_inodes dev inum fs.inodes 0 none in
    elim (Option-cases r.0) [
      | inr (ip, e) ↦ rw (iget, e) (λ x. cc)
      | inl e ↦ elim (Option-cases r.1) [
        | inr (ip, e') ↦ rw (iget, e, e') (λ x. cc)
        | inl e' ↦ rw (iget, e, e') (λ x. cc)
      ]
    ]

-- The two messages have one length.
message_of : {A : Type 0} → Outcome A → String
message_of (panic message) = message
message_of (ok result) = ""

lt≢eq : Ordering.lt ≢ Ordering.eq
lt≢eq = λ e. cc

not_iunlock : {A : Type 0} → let m : Outcome A = panic "iunlock" in Ends m
unfolding message_of
not_iunlock {A} e =
    let apart : compare "iunlock" "no fuel" ≡ compare "no fuel" "no fuel" =
      ap (λ (m : Outcome A). compare (message_of m) "no fuel") e in
    lt≢eq apart

pub iunlock-Ends : (ip : ℕ) (fs : Fs) → Ends (iunlock ip fs)
unfolding iunlock
iunlock-Ends ip fs = elim (Option-cases (get_elem? fs.inodes ip)) [
  | inl e ↦ rw (iunlock, e) not_iunlock
  | inr (n, e) ↦ elim (Bool-cases (not n.busy || not (is_pos n.ref))) [
    | inl t ↦ rw (iunlock, e, t) not_iunlock
    | inr f ↦ rw (iunlock, e, f) (λ x. cc)
  ]
]

pub iunlockput-Ends : (ip : ℕ) (fs : Fs) → Ends (iunlockput ip fs)
unfolding iunlockput
iunlockput-Ends ip fs = Ends-bind (iunlock ip fs) _ (iunlock-Ends ip fs) (iput-Ends ip)

pub ilock-Ends : (ip : ℕ) (fs : Fs) → Ends (ilock ip fs)
unfolding ilock get_dinode
ilock-Ends ip fs = elim (Option-cases (get_elem? fs.inodes ip)) [
  | inl e ↦ rw (ilock, e) (λ x. cc)
  | inr (n, e) ↦ elim (Bool-cases (not (is_pos n.ref))) [
    | inl t ↦ rw (ilock, e, t) (λ x. cc)
    | inr f ↦ elim (Bool-cases n.busy) [
      | inl b ↦ rw (ilock, e, f, b) (λ x. cc)
      | inr b ↦ elim (Bool-cases n.valid) [
        | inl v ↦ rw (ilock, e, f, b, v) (λ x. cc)
        | inr v ↦
            elim (Bool-cases
              ((get_dinode (dinode_at n.inum) (fs.blocks (iblock n.inum fs.sb)) n).kind == 0)) [
                | inl k ↦ rw (ilock, e, f, b, v, k) (λ x. cc)
                | inr k ↦ rw (ilock, e, f, b, v, k) (λ x. cc)
              ]
      ]
    ]
  ]
]

chunk-pos : (left off : ℕ) → (left == 0) ≡ false → left - chunk left off < left
chunk-pos left off h = ground arith

read_from-Ends :
    (fuel ip off left : ℕ) (fs : Fs) → left ≤ fuel → Ends (read_from fuel ip off left fs)
unfolding read_from
read_from-Ends zero ip off left fs le =
    let z : left ≡ 0 = omega arith in rw (read_from, z) (λ x. cc)
read_from-Ends (suc fuel) ip off left fs le = elim (Bool-cases (left == 0)) [
  | inl t ↦ rw (read_from, t) (λ x. cc)
  | inr f ↦
      let m = chunk left off in
      let less = chunk-pos left off f in
      rw (read_from, f)
        (Ends-bind (bmap ip (off / bsize) fs) _ (bmap-Ends ip (off / bsize) fs) (λ r.
          Ends-bind (read_from fuel ip (off + m) (left - m) r.1) _
            (read_from-Ends fuel ip (off + m) (left - m) r.1 (omega arith)) (λ q e. cc)))
]

readi-Ends :
    (devsw : Devsw) (ip off n : ℕ) (fs : Fs) → DevsEnd devsw → Ends (readi devsw ip off n fs)
unfolding readi
readi-Ends devsw ip off n fs h = Ends-bind (inode_at ip fs) _ (inode_at-Ends ip fs) (λ node.
    elim (Bool-cases (node.kind == t_dev)) [
      | inl t ↦ elim (Option-cases (device devsw.read node)) [
        | inl e ↦ rw (t, e) (λ x. cc)
        | inr (read, e) ↦ elim (Bool-cases (ltb node.major 10)) [
          | inl lt ↦
              let e' : devsw.read node.major ≡ some read = rw lt at (e) in
              rw (t, e) (h node.major read e' ip n fs)
          | inr ge ↦ let e' = rw ge at (e) in absurd cc
        ]
      ]
      | inr f ↦ elim (Bool-cases (ltb node.size off || ltb ((off + n) % 2 ^ 32) off)) [
        | inl out ↦ rw (f, out) (λ x. cc)
        | inr fits ↦
            let left = if ltb node.size ((off + n) % 2 ^ 32) then node.size - off else n in
            rw (f, fits)
              (Ends-bind (read_from left ip off left fs) _
                (read_from-Ends left ip off left fs (omega arith)) (λ r e. cc))
      ]
    ])

pub read_dirent-Ends :
    (devsw : Devsw) (dp off : ℕ) (fs : Fs) → DevsEnd devsw → Ends (read_dirent devsw dp off fs)
unfolding read_dirent
read_dirent-Ends devsw dp off fs h =
    Ends-bind (readi devsw dp off dirent_size fs) _ (readi-Ends devsw dp off dirent_size fs h) (λ r.
      elim (Option-cases r.0) [
        | inl e ↦ rw e (λ x. cc)
        | inr (de, e) ↦ elim (Bool-cases (length de == dirent_size)) [
          | inl t ↦ rw (e, t) (λ x. cc)
          | inr f ↦ rw (e, f) (λ x. cc)
        ]
      ])
