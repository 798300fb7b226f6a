-- ===== src/Vm/Tests.antt =====
-- vm.c: the theorems on a directory with one free page.
use spring18cs.Base.{Ends, ℕ, refl, [], ◌∷◌, false, arith, Returns}
use spring18cs.Kalloc.{Kmem}
use spring18cs.Vm.{mappages, allocuvm, deallocuvm, freevm}
use spring18cs.Vm.User.{copyuvm}
use spring18cs.Vm.Space.{Space}
use spring18cs.Vm.Map.{Maps}
use spring18cs.Vm.Mappages.{mappages-Maps}
use spring18cs.Vm.CopyEnds.{uvm-Ends}

-- The kernel ends at the one free page; the directory, behind it, is empty.
abbrev page : ℕ
page = 0x8040_0000

abbrev directory : ℕ
directory = 0x8040_1000

abbrev one_free : Kmem
one_free = record { mem = λ a. 0; use_lock = false; freelist = page }

one_free-Space : Space page directory one_free (page ∷ [])
one_free-Space = record {
  free = (refl, record { aligned = refl; above = omega arith; below = omega arith }, refl, refl);
  free_ram = λ v h. (ground arith, ground arith, ground arith);
  root = (refl, omega arith, omega arith);
  root_taken = refl;
  table = λ n lt h. cc;
  table_taken = λ n lt h. cc;
  not_root = λ n lt h. cc;
  apart = λ n m ln lm h h'. cc;
}

mappages-Maps_example :
    Returns
      (Maps page directory one_free 0x1000 1 0x5000 6)
      (mappages directory 0x1000 4096 0x5000 6 one_free)
mappages-Maps_example =
    mappages-Maps page directory 0x1000 4096 0x5000 6 one_free (page ∷ []) (omega arith)
      (omega arith) (omega arith) refl (omega arith) one_free-Space (λ va lv t. refl)

uvm-Ends_example :
    Ends (deallocuvm page directory 0x5000 0x2000 one_free)
    × Ends (allocuvm page directory 0x5000 0x2000 one_free)
    × Ends (freevm page directory one_free)
    × Ends (copyuvm page 0x8020_0000 directory 0x5000 one_free)
uvm-Ends_example =
    uvm-Ends page 0x8020_0000 directory 0x5000 0x2000 one_free (omega arith)
      (omega arith, omega arith)
