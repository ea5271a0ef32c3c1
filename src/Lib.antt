-- ===== src/Lib.antt =====
-- The parts of the kernel that keep its own state, as functions and step relations, with the
-- theorems that make them correct.
--
-- The physical frame allocator (src/pmm.c) hands out 4 KiB frames to the rest of the kernel. The
-- sync layer (mcsos/kernel/sync) has spinlocks, mutexes and the checks of the lock order that a
-- context makes before it acquires and after it releases. The ELF loader
-- (mcsos/kernel/user/m11_elf_loader.c) checks a program image and plans its segments. The system
-- call layer (mcsos/kernel/syscall) checks what a user program passes and calls the operations that
-- the kernel registers. The file system (mcsos/kernel/vfs) keeps a tree of files in memory and a
-- table of open files over it. The scheduler (mcsos/kernel/mcsos_thread.c) keeps the queue of ready
-- threads, which is linked through them, and the current thread. The page tables (src/vmm.c) map
-- pages to frames, with frames from an allocator that their space names. The kernel heap
-- (kernel/mm/kmem.c) hands out blocks of one range of memory. The parts do not call one another: the
-- kernel's start-up code calls each.
--
-- Which file models which part:
--   Base         arrays as lists, Boolean tests, masks and machine words
--   Pmm          src/pmm.c, include/pmm.h. `Pmm` is `struct pmm_state`, and each function keeps its
--                name without the prefix `pmm_`; Pmm.Bitmap has the bitmap helpers, Pmm.Inv the
--                invariant, Pmm.Range the range functions, Pmm.Init the initialisation, Pmm.Alloc
--                allocation and release, Pmm.Spec and Pmm.Trace the abstract allocator and the
--                refinement, Pmm.Wrap the end of the address space.
--   Sync         mcsos/kernel/sync and mcsos/include/mcs_sync.h. Sync.Lockdep is lockdep.c,
--                Sync.Spin spinlock.c and Sync.Mutex mutex.c; the functions keep their names
--                without the prefix `mcs_`. Spinlocks and mutexes also have a step relation, one
--                step for each atomic access of one of any number of processors or threads. A
--                spinlock is released only by a processor that is inside, which mcs_spin_unlock
--                leaves to its callers.
--   Elf          mcsos/kernel/user/m11_elf_loader.c and its header. The functions keep their names
--                without the prefix `m11_`. Elf.Image reads the headers from bytes, Elf.Ranges and
--                Elf.Checks decide the checks, Elf.Steps and Elf.Load are the loop over the program
--                headers, Elf.Finish its end, Elf.Accept the whole and Elf.Planned the plan that it leaves.
--   Syscall      mcsos/kernel/syscall/syscall.c and mcsos/include/mcsos/syscall.h. The functions keep
--                their names without the prefix `mcsos_`; the registered operations are functions on
--                a world of any type. Syscall.Confine has what the checks let through.
--   Vfs          mcsos/include/mcs_vfs.h. Vfs.Tree is mcsos/kernel/vfs/ramfs.c, with its invariant in
--                Vfs.Tree.Inv. Vfs.Fd (descriptors), Vfs.Transfer (reads, writes and seeks) and
--                Vfs.Process (the calls of a process) are mcsos/kernel/vfs/fd.c, with proofs in
--                Vfs.Fd.Table and Vfs.Transfer.Io. The functions keep their names without the prefix
--                `mcs_`. A node is named by its index, and every call is given the one file system.
--   Sched        mcsos/kernel/mcsos_thread.c and mcsos/include/mcsos_thread.h. The functions keep
--                their names without the prefix `mcsos_`; Sched.Prepare is thread_prepare, Sched.Count
--                sched_ready_count and Sched.Validate sched_validate, with its loop in Sched.Walk. Sched.Queue
--                has the list that
--                the links stand for and Sched.Links the two operations on it, Sched.Spec the turns
--                that the scheduler promises, Sched.Shows to Sched.Trace the refinement and
--                Sched.Fair the waiting time.
--   Vmm          src/vmm.c and include/vmm.h. The functions keep their names without the prefix
--                `vmm_`. Vmm.Tree has the invariant: the tables form a tree. Vmm.Bits takes entries
--                apart and Vmm.Cells memory; Vmm.Reach follows the tables down, Vmm.Grow adds one,
--                Vmm.Leaf writes the entry of a page, Vmm.Map and Vmm.Pages are the calls, Vmm.Spec
--                and Vmm.Trace the map of pages and the refinement.
--   Kmem         kernel/mm/kmem.c and include/mcsos/kmem.h. The functions keep their names, without
--                the prefix `kmem_` where they are static. Kmem.Chain has the invariant: the blocks
--                tile the heap. Kmem.Check is the validation and the initialisation, Kmem.Split and
--                Kmem.Alloc the allocation, Kmem.Free, Kmem.Coalesce and Kmem.Release the release,
--                Kmem.Account the statistics.
--
-- A word of 64 or 32 bits is a natural number with its wrap-around written out. A struct is a
-- record, an array a list: a read past its end gives 0 and a write there changes nothing, and the
-- theorems keep the code within bounds. A function that changes a struct returns the new one. A
-- pointer to a struct is not NULL unless it is an option. Loops are recursive on the array, on the
-- count, or on fuel: `for_frames` has one round more than the frames below its end, and
-- `first_free` one more than the frames it may visit, which is enough since each round moves one
-- frame on; the loops over the segments of a path have one round for each character, and a segment
-- has at least one; the validation of the scheduler's queue has three rounds more than its count,
-- and its result is none where these are not enough. The count of the ready threads may run for ever, so its result is an
-- option, none where the fuel runs out. The loops over the blocks of the heap end with one round
-- more than the blocks. Memory orderings weaker than sequential consistency are not modelled.
--
-- Not modelled: the device drivers, interrupts and traps (registers and assembly), logging, the
-- start-up code, the context switch and the third-party boot header.
pub mod Base
pub mod Pmm
pub mod Sync
pub mod Elf
pub mod Syscall
pub mod Vfs
pub mod Kmem
pub mod Sched
pub mod Vmm
