-- ===== src/Proc/CloseInv.antt =====
-- proc.c, file.c, pipe.c: the process table while files are closed.
use spring18cs.Base.{
  ℕ, zero, suc, ◌+◌, refl, Bool, none, some, get_elem?, Option-cases, Bool-cases, inl, inr,
  get_elem?-map, Outcome, ok, panic, Post, Post-bind,
}
use spring18cs.Kalloc.{kfree}
use spring18cs.Files.{Close, nothing, close_pipe, put_inode, fileclose}
use spring18cs.Pipe.{close_end}
use spring18cs.Proc.Types.{Table, Chan}
use spring18cs.Proc.Table.{wakeup1, wake}
use spring18cs.Proc.Keep.{wake-Keeps}
use spring18cs.Proc.Mild.{Mild, Mild-refl, Mild-trans, modify-Mild}
use spring18cs.Proc.Kernel.{Symbols, Kernel, Services, pipeclose, finish_close, close_file}
use spring18cs.Proc.Create.{update}
use spring18cs.Proc.Exit.{close_fds, clear_fd}

unfoldable pub wakeup1-Mild :
    (c : Chan) (t : Table) → Mild t (record t { procs = wakeup1 c t.procs })
unfolding wakeup1
wakeup1-Mild c t = record {
  change = λ i. wake c;
  pointwise = get_elem?-map (wake c) t.procs;
  keeps = λ i p s. wake-Keeps c p;
  next_pid = refl;
  initproc = refl;
}

module _ {F : Type 0} (syms : Symbols) (sv : Services F) where
  pub pipeclose-Mild :
      (at : ℕ) (writable : Bool) (k : Kernel F)
      → Post (λ l. Mild k.table l.table) (pipeclose syms sv at writable k)
  unfolding pipeclose
  pipeclose-Mild at writable k = elim (Bool-cases (close_end writable (k.pipes at)).1) [
    | inl t ↦
        rw (t, pipeclose)
          (Post-bind (λ l. Mild k.table l.table) (kfree syms.end_addr at k.kmem) _
            (λ m e. wakeup1-Mild _ k.table))
    | inr f ↦ rw (f, pipeclose) (wakeup1-Mild _ k.table)
  ]

  finish_close-Mild :
      (c : Close) (k : Kernel F) → Post (λ l. Mild k.table l.table) (finish_close syms sv c k)
  unfolding finish_close
  finish_close-Mild nothing k = Mild-refl k.table
  finish_close-Mild (close_pipe at writable) k = pipeclose-Mild at writable k
  finish_close-Mild (put_inode ip) k =
      Post-bind (λ l. Mild k.table l.table) (sv.put_inode_op ip k.fs) _ (λ f e. Mild-refl k.table)

  pub close_file-Mild :
      (i : ℕ) (k : Kernel F) → Post (λ l. Mild k.table l.table) (close_file syms sv i k)
  unfolding close_file
  close_file-Mild i k =
      Post-bind (λ l. Mild k.table l.table) (fileclose i k.ftable) _
        (λ r e. finish_close-Mild r.0 (record k { ftable = r.1 }))

  Post-Mild :
      (k l : Kernel F) (o : Outcome (Kernel F))
      → Mild k.table l.table
      → Post (λ m. Mild l.table m.table) o
      → Post (λ m. Mild k.table m.table) o
  Post-Mild k l (ok m) a b = Mild-trans a b
  Post-Mild k l (panic s) a b = tt

  pub close_fds-Mild :
      (me n fd : ℕ) (k : Kernel F) → Post (λ l. Mild k.table l.table) (close_fds syms sv me n fd k)
  unfolding close_fds
  close_fds-Mild me zero fd k = Mild-refl k.table
  close_fds-Mild me (suc n) fd k = elim (Option-cases (get_elem? k.procs me)) [
    | inl e ↦ rw (e, close_fds) tt
    | inr (p, e) ↦ elim (Option-cases (get_elem? p.ofile fd)) [
      | inl e2 ↦ rw (e, close_fds, e2) (close_fds-Mild me n (fd + 1) k)
      | inr (none, e2) ↦ rw (e, close_fds, e2) (close_fds-Mild me n (fd + 1) k)
      | inr (some i, e2) ↦
          let clear = λ (l : Kernel F). update me (clear_fd fd) l in
          rw (e, close_fds, e2)
            (Post-bind (λ l. Mild k.table l.table) (close_file syms sv i k) _
              (λ l el.
                Post-Mild k (clear l) (close_fds syms sv me n (fd + 1) (clear l))
                  (Mild-trans (rw el at (close_file-Mild i k)) (
                    modify-Mild me (clear_fd fd) l.table (λ q r. record {
                      pid = refl;
                      parent = refl;
                      live = refl;
                      started = refl;
                      alive = refl;
                    })))
                  (close_fds-Mild me n (fd + 1) (clear l))))
    ]
  ]
