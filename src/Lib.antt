-- ===== src/Lib.antt =====
-- os1 is a small x86-64 kernel. This library models its core data structures and the functions that
-- change them, and proves what makes them correct. Paths are from the root of the repository.
--
-- Memory. `Bitmap` reads an array of 64-bit words bit by bit. `PageFrame` is the bitmap allocator of
-- physical pages of src/kernel/mm/page_frame.cpp, with `reserve_tracked_physical_range` of
-- src/kernel/mm/boot_reserve.cpp; a page is free where its bit is set. `PageFrame.Initialize` is the
-- construction of the bitmap from the boot loader's memory map, loop by loop; it returns `none` where a loop
-- over a reserved range wraps around and does not end. The modules below them
-- are named for what they prove: Inv (well-formedness), Single and Run (the two forms of `allocate`),
-- Release (`free`), Reserve, and for the construction Measure, Paint, Count, Marking, Usable, Ready.
--
-- `VirtualMemory` is the four-level page tables of src/kernel/mm/virtual_memory.cpp over the page-frame
-- allocator: a physical page is a function from indices to 64-bit words. Its modules below are Tree (when
-- tables form a tree, with the level of each table and the indices that lead to it), Ensure, Grow, Walk,
-- Store, Map and MapLoop (the steps of `map_physical`), Translate and Root. `VirtualMemory.Ranges` holds the
-- operations on ranges and whole tables: Loop, Protect and Outcomes are about `protect` and `free` of a
-- range, Teardown, Destroy and Slots about `destroy_table`. The recursion of `destroy_table` is structural in the
-- level. No page of 2 MiB is mapped in a tree.
--
-- `UserAddress` holds the checks of src/kernel/mm/user_address.hpp on what a system call may touch.
-- `UserCopy` is the copies between the kernel and an address space of src/kernel/mm/user_copy.cpp, over
-- `translate`. Their loop has the length for fuel, since each round copies at least one byte. The tables
-- do not change while a copy runs, and its kernel buffer does not lie in the pages that it writes to.
-- Below it, Page and Bytes compare the loop with a copy byte by byte, Isolation is about the memory
-- that a copy leaves alone, Result, Strings and StringEnds are about what it returns.
--
-- `Dma` is the DMA buffers of src/kernel/mm/dma.cpp over the page-frame allocator, with the registry of
-- them. Pages is about giving back a run of pages, Records about the list of records, Inv says when the
-- registry and the bitmap of the pages agree, Laws and Release are about the two operations.
--
-- `UserElf` is the checks on the ELF image of a user program of src/kernel/proc/user_elf.cpp and
-- src/common/elf/elf64.hpp: Fields is about the headers, Segment about one segment and Entry about the
-- whole image.
--
-- Threads. `Machine` is the store of threads, processes and CPUs of src/kernel/proc/thread.hpp,
-- src/kernel/proc/process.hpp and src/kernel/arch/x86_64/cpu/cpu.hpp; a pointer is an address or
-- `none`. `RunQueue` is the queue of each CPU, an intrusive list through `Thread::next`, of
-- src/kernel/sched/thread_queue.cpp and src/kernel/proc/thread.cpp. `Balance` is the work stealing of
-- src/kernel/sched/scheduler.cpp over these queues: `scheduler_balance_cpu` reads the queue lengths
-- without locks, so what other CPUs do before it holds both locks is the argument `meanwhile`.
-- `WaitQueue` is the wait queue, an intrusive list through `Thread::wait_link`, with completions and
-- the blocking of the current thread, of src/kernel/sync/wait_queue.cpp and src/kernel/proc/thread.cpp.
--
-- `Wake` chooses a CPU for a thread and wakes the threads of a queue, of the same two files; `Dispatch` is
-- the machine with the CPU that the last user thread went to. The search for the CPU with the shortest
-- queue looks at twice as many candidates as there are CPUs: a queue seen to be shorter makes the search
-- begin again behind it, and no CPU is taken twice. `Schedule` is `schedule_next` and the timer tick
-- of src/kernel/sched/scheduler.cpp, with `set_current_thread` and `mark_current_thread_dying` of
-- src/kernel/proc/thread.cpp; the flag that turns the balancer off is taken to say that it is on.
-- `Schedule/Steps` puts the scheduler together: a step is one call on one CPU, for any CPU, thread and
-- argument; the tick, which holds no lock between measuring the queues and moving a thread, has steps
-- of other CPUs in the middle. `Schedule/Sound` says when all run queues are in order, for threads
-- numbered below a limit, which is also enough fuel; `Schedule/Change`, `Switch`, `Bind`, `Leave` and
-- `Tick` are about the steps. `Schedule/Handoff` puts a switch on one CPU and a balancing round on
-- another together, with `Current` about the current threads, and `Schedule/Woken` is about the queues
-- that woken threads join.
--
-- Devices and events. `VectorAllocator` is the allocator of interrupt vectors of
-- src/kernel/arch/x86_64/interrupt/vector_allocator.cpp, `BarClaim` the ownership of PCI BARs of
-- src/kernel/drivers/bus/resource.cpp, `ArpCache` the cache of src/kernel/drivers/net/arp_cache.cpp,
-- `EventRing` the ring of kernel events of src/kernel/debug/event_ring.cpp and `ConsoleInput` the line
-- input of src/kernel/console/console_input.cpp.
--
-- Files. `Cpio` is the reader of newc archives of src/kernel/fs/cpio_newc.cpp and `Initrd` the lookup of
-- src/kernel/fs/initrd.cpp. An archive is a function from offsets to bytes, a C string the list of its
-- bytes. The loop over the entries has the size of the archive plus one for fuel, which is enough since
-- each round moves the offset on; the loop over a name looks at 2^64 bytes, the whole address space.
-- Bounds, Local, Files, Slices and Path are about where entries and files lie, which bytes are read, the
-- list of the files and the paths. Written says what a writer puts into an archive for an entry, with
-- numbers in hexadecimal of either case, and Contents what is found in an archive of such entries.
--
-- Conventions. Functions keep the source's names. Machine integers are natural numbers with their
-- wrap-around written out. A function that runs under a lock is one step. A null pointer is `none`, and
-- a result by reference is part of the value returned. `Base.Chain` says when a chain of pointers
-- visits a list of nodes. A loop over a linked queue visits the nodes that `walk` lists within a fuel;
-- the length of the queue is enough, which the theorems state as `length xs ≤ fuel`. The loop that
-- doubles a capacity in `BarClaim`, which `Dma` shares, takes the required capacity as its fuel, which is enough since each
-- round adds at least one. All other loops are structural in the number of rounds left. The chains of
-- nodes in `BarClaim`, `ArpCache` and `Dma`, which no other code links into, are lists.
--
-- Not modelled: the context switch, the reaping of dead threads, the thread registry, the kernel heap (whether an
-- allocation succeeds is an argument of the models that allocate), loading CR3 and the TLB shootdown, system calls,
-- the loading of programs, terminals, drivers that act on hardware, boot loaders and vendored code. The range
-- that the kernel image occupies comes from a generated header and is a parameter of the construction
-- of the bitmap.
pub mod Base
pub mod Bitmap
pub mod PageFrame
pub mod Machine
pub mod RunQueue
pub mod Balance
pub mod VectorAllocator
pub mod EventRing
pub mod WaitQueue
pub mod Wake
pub mod Schedule
pub mod BarClaim
pub mod ArpCache
pub mod UserAddress
pub mod UserCopy
pub mod Dma
pub mod UserElf
pub mod ConsoleInput
pub mod VirtualMemory
pub mod Cpio
pub mod Initrd
