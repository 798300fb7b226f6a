-- ===== src/Proc.antt =====
-- proc.c and proc.h: the process table and its operations.
pub mod Types
pub mod Table
pub mod Inv
pub mod Keep
pub mod Mild
pub mod Kernel
pub mod Create
pub mod Exit
pub mod Boot
pub mod Fork
pub mod Adopt
pub mod AdoptAll
pub mod Death
pub mod CloseInv
pub mod ExitInv
pub mod WaitInv
pub mod System
pub mod PipeCalls
pub mod Wakeups
pub mod PipeSystem
pub mod Scheduler
pub mod PipeAlloc
mod Machine
mod Tests
mod PipeTests
mod SchedulerTests
