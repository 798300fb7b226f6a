-- ===== src/Sysfile.antt =====
-- sysfile.c: the system calls on files, on the file system of Fs, the table of open files and the
-- descriptors of the caller. The arguments that argstr() and argint() have fetched are given; a
-- string is the list of its bytes. A call runs between begin_op() and end_op(), so that its writes
-- are one transaction of Log.
pub mod Names
pub mod Open
pub mod Fds
mod Tests
use Prim.Native.String.{String}
use spring18cs.Base.{
  ℕ, zero, suc, ◌+◌, ◌-◌, ◌%◌, ◌^◌, Bool, true, false, ◌&&◌, ◌||◌, not, ltb, ◌==◌, if◌then◌else◌,
  List, [], ◌∷◌, Option, none, some, get_elem?, modify, first_index, Outcome, ok, panic,
}
use spring18cs.Fs.{Fs, Inode}
use spring18cs.Fs.Icache.{ilock, Locking, locks, lock_sleeps, set_inode, iupdate}
use spring18cs.Fs.Dir.{Walk, walks, walk_fails, walk_sleeps}

-- How a call stands: it returned, it waits for the lock of an inode, where the model leaves it, or
-- it called panic().
pub data Run (A : Type 0) : Type 0 where
  done : A → Run A
  waits_for : ℕ → Run A
  dies : String → Run A

infixl 5 ◌>>=◌
abbrev pub ◌>>=◌ : {A B : Type 0} (first : Run A) (next : A → Run B) → Run B
done a >>= next = next a
waits_for ip >>= next = waits_for ip
dies message >>= next = dies message

abbrev pub lift : {A : Type 0} → Outcome A → Run A
lift (ok a) = done a
lift (panic message) = dies message

-- ilock()
unfoldable pub lock : ℕ → Fs → Run Fs
lock ip fs =
    lift (ilock ip fs) >>= λ l. elim l [ locks fs' ↦ done fs' | lock_sleeps ↦ waits_for ip ]

-- namei() and nameiparent(): the inode and the last name, or none
abbrev pub walk_end : Walk → Run (Option (ℕ × List ℕ) × Fs)
walk_end (walks ip name fs) = done (some (ip, name), fs)
walk_end (walk_fails fs) = done (none, fs)
walk_end (walk_sleeps ip path fs) = waits_for ip

unfoldable pub walk : Outcome Walk → Run (Option (ℕ × List ℕ) × Fs)
walk w = lift w >>= walk_end

-- `ip->nlink++` and `ip->nlink--`, of a `short`, with iupdate(ip)
unfoldable pub add_link : ℕ → Fs → Outcome Fs
add_link ip fs =
    iupdate ip (set_inode ip (λ (n : Inode). record n { nlink = (n.nlink + 1) % 2 ^ 16 }) fs)

unfoldable pub drop_link : ℕ → Fs → Outcome Fs
drop_link ip fs =
    iupdate ip
      (set_inode ip (λ (n : Inode). record n { nlink = (n.nlink + 2 ^ 16 - 1) % 2 ^ 16 }) fs)

-- argfd(), for what argint() has fetched: the descriptor and the file
unfoldable pub argfd : Option ℕ → List (Option ℕ) → Option (ℕ × ℕ)
argfd none ofile = none
argfd (some fd) ofile =
    if ltb fd 16
    then elim (get_elem? ofile fd) [ some (some f) ↦ some (fd, f) | _ ↦ none ]
    else none

abbrev pub is_null : Option ℕ → Bool
is_null none = true
is_null (some f) = false

-- fdalloc(): the descriptor, and the descriptors then
unfoldable pub fdalloc : ℕ → List (Option ℕ) → Option ℕ × List (Option ℕ)
fdalloc f ofile = elim (first_index is_null ofile) [
  | none ↦ (none, ofile)
  | some fd ↦ (some fd, modify ofile fd (λ _. some f))
]
