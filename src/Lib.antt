-- ===== src/Lib.antt =====
-- PANDOS, a small operating system for the umps3 machine: the three phases of the project.
--
-- The parts, from the bottom:
-- - Prelude: shared names, tests on numbers, lists of addresses.
-- - Machine: 32-bit words and constants (h/const.h), the structures (h/types.h), and the outcome of a
--   piece of kernel code: it returns, hands the processor over, faults, or runs out of fuel.
-- - Pcb (phase 3/pcb.c): the fields of all pcbs as maps from pointers, and the process queues. A queue
--   is a ring known by its tail (Pcb.Seg, Pcb.Ring, Pcb.Cut); Pcb.Insert, Pcb.Remove and Pcb.Out are
--   about its operations, and Pcb.Queue states them by the list from the head to the tail. Pcb.Free
--   and Pcb.FreeList are about the free list, Pcb.Tree and Pcb.Children about the process tree.
-- - Asl (phase 3/asl.c): the active semaphore list over the pcbs. Asl.Entries says what it stands for,
--   Asl.Traverse is about the walk, Asl.Link, Asl.Around, Asl.Enqueue, Asl.Insert and Asl.InsertNew
--   about insertBlocked, Asl.Unlink, Asl.Remove and Asl.Out about removeBlocked and outBlocked,
--   Asl.Head about headBlocked, Asl.Init about initASL; Asl.Wait states the first three for a
--   semaphore with any number of pcbs.
-- - Nucleus: the global variables and the machine; Nucleus.Scheduler (phase 3/scheduler.c) and
--   Nucleus.Dispatch about it, Nucleus.Exceptions (phase 3/exceptions.c), Nucleus.Interrupts
--   (phase 3/interrupts.c) and Nucleus.Devices about it, Nucleus.Initial (phase 3/initial.c), and
--   Nucleus.Phases, where the nucleus of phase 2 (phase2/exceptions.c, phase2/initial.c) differs.
--   Nucleus.Invariant says when the ready queue and the queues of the semaphores are well-formed and
--   have no pcb in common, and Nucleus.Queues what the queue operations do to all of them. On it stand
--   Nucleus.Semaphores about SYS3 and SYS4, Nucleus.Waiting about SYS5 and SYS7, Nucleus.Release and
--   Nucleus.Clock about the interval timer, Nucleus.Preempt about the process local timer,
--   Nucleus.Completion about the devices, Nucleus.Create about SYS1, and Nucleus.First and Nucleus.Boot
--   about `main`. Nucleus.Exit is about SYS2 of a process without children. For one with descendants
--   Nucleus.Family says what the tree below a process is; Nucleus.Unqueue, Nucleus.LeaveWait,
--   Nucleus.Leave, Nucleus.Freed and Nucleus.Live are about one pcb that ends, by the queues that
--   Asl.View names by their semaphore; Nucleus.Siblings and Nucleus.Tree are about the recursion, and
--   Nucleus.Terminate about the call.
--   Nucleus.Calls is about the system calls that do not block, Nucleus.DevSems about which semaphore
--   belongs to which device, Nucleus.Lines about which interrupt line is served, Nucleus.Protect about
--   calls in user mode, and Nucleus.Death about the exceptions of a process without a support
--   structure.
-- - Support: the support level of phase 3; Support.InitProc (phase 3/initProc.c), Support.Vm
--   (phase 3/vmSupport.c), Support.Pages and Support.Pager about the two, Support.Sys
--   (phase 3/sysSupport.c). Support.Pool says when the swap pool and the page tables are in step, and
--   Support.PoolStep what changes them together; Support.Serves says what the pager relies on of
--   SYSCALL, Support.Flash is about the transfers of a page, Support.Paging about a page fault, and
--   Support.PoolInit about `test`.
-- - Phase1: the earlier version, Phase1.Pcb, Phase1.Free and Phase1.Tree (phase1/pcb.c) and Phase1.Asl
--   (phase1/asl.c). Its queues have their links the other way round: Phase1.Turn turns them, and
--   Phase1.Remove, Phase1.Out and Phase1.Blocked compare the operations with those of phase 3.
-- - Tests: concrete states, and the theorems at them.
--
-- C names are kept in snake case: `insertProcQ` is `insert_proc_q`. A pointer to the entry `i` of a
-- static table is `i + 1`; `null` is 0xffffffff and 0 is the pointer that static storage starts with:
-- a read or write of a pcb or a descriptor through either faults, as does one of a semaphore through 0
-- in SYS2, SYS3 and SYS4, and one of a support structure through either in pass up or die and in the
-- refill handler. The other maps by addresses (the semaphores of devices, saved states, the support
-- structure that SYS8 gives) are total. A function that takes the address of a tail pointer takes the
-- pointer and returns the new one. Words are numbers with their wrap at 2 ^ 32 written out, signed
-- words their bit patterns. Memory that holds semaphores, saved states and support structures is one
-- map for each type of object, so objects of different types do not overlap.
--
-- LDST, LDCXT, HALT, PANIC and WAIT end a run by an event, since they do not return. At the support
-- level SYSCALL is a parameter. The clock shows a sequence of values that is part of the state. What a
-- C variable without a value holds is an argument.
--
-- Fuel: a queue or a list of children has at most 20 pcbs and its walk gets 21 rounds; the walk of the
-- active semaphore list gets 22, one for each descriptor; terminateProcess gets depth 21.
--
-- Not modelled: the test programs (p1test.c, p2test.c,
-- testers), the debug functions debugA, debugB and debugC, which return their argument, and libumps.
pub mod Prelude
pub mod Machine
pub mod Pcb
pub mod Asl
pub mod Nucleus
pub mod Phase1
pub mod Support
pub mod Tests
