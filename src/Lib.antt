-- ===== src/Lib.antt =====
-- CosmoRT is a Unix-like kernel in C. This library models the parts of it that keep state of their
-- own, and proves what makes them correct. A part is a module named for it; its children hold the
-- proofs and its concrete runs.
--
-- Common         shared tests, list lemmas, error numbers and the integers of the system calls.
-- Cred           kernel/sys/sys_id.c: the ids and the capability sets of a process
--                (kernel/proc/process.h), and every call that changes them. `Cred.Calls` has the
--                calls as data, and runs of them.
-- Vma            kernel/mm/vma.c: the AVL tree of the areas of an address space. A node carries its
--                address, so that which node is freed can be told from what it holds; `Vma.Gap` is
--                the search for a gap with its explicit stack, `Vma.FreeAbove` the one upward.
-- TimerWheel     kernel/core/timer_wheel.c: 256 slots of entries, with rounds.
-- Timerfd        kernel/event/timerfd.c: timers behind a descriptor, and the expirations they count.
-- Eventfd        kernel/event/eventfd.c: the counter and the calls that block on it.
-- Inotify        kernel/event/inotify.c: the ring of bytes of an instance, which events are written
--                to and read from; `Inotify.Watch` is the table of watches, and
--                `Inotify.Watch.Expected` the events that a watch should be told of.
-- Ipc            kernel/ipc/ipc.c: endpoints with one message and a notification word.
-- Route6         kernel/net/route6.c: the IPv6 routes of each network namespace.
-- Pty            kernel/vt/pty.c: the rings of a terminal pair as queues, and the line discipline
--                between them. `Pty.Edit` is line editing on plain lists.
-- PageAlloc      kernel/mm/page_alloc.c: the buddy allocator over page frames, with its bitmap and
--                free lists; `PageAlloc.Pages` is the interface on top, with the reference counts.
-- Slab           kernel/mm/slab.c: pools of objects of one size, with the free list as links in
--                memory.
-- Sysv           kernel/ipc/sysv_ipc.c: System V IPC. `Sysv.Table` is the search for a key,
--                `Sysv.Msg` the message queues with their links, `Sysv.Sem` the semaphore sets.
--
-- Paths are those of src/kernel, headers those of include/kernel. A function of the source has the
-- name here that it has there, without the prefix of its file (`timer_wheel_add` is
-- `TimerWheel.add`); a state that the C code updates in place is the argument and the result of the
-- function. Numbers of the source are natural numbers, with wrap-around written out where the source
-- can reach it; a lock is not modelled, and a function that holds one is a single step. What another
-- core, a callback or a signal does while a function has let go of its lock is an argument: a
-- function of the state, or a list of rounds. What an allocator gives is an argument too.
--
-- The gap search runs on fuel, one more than the number of nodes of the tree, and its stack has
-- the 64 entries of the source; the results on it show that both are enough for an AVL tree of
-- areas of at least a page below 2 ^ 48. The doubling of a slab's pages has 9 rounds, enough for
-- the 512 pages that it may ask for. The buddy allocator's merging has a round for each order,
-- `order_for_pages` 31 rounds, enough for every positive `int`, and a region of pages as many
-- rounds as it has pages. The search of a message queue has a round for each message that the
-- queue counts, and a read of inotify events 128 rounds, as many as the ring has room for events.
-- A timer that catches up at the time `now` has `now` + 1 rounds. A loop over a list or over a
-- fixed number of slots is structural. Blocked readers and writers of an eventfd take their rounds
-- as a list and are asleep where it ends.
--
-- Not modelled: page tables, scheduling, signals, process creation, the file systems, the rest of
-- the network, the screen, futexes and System V shared memory, which later modules are for; and
-- drivers, interrupt entry, boot code and the vDSO, which are device and processor access.
pub mod Common
pub mod Cred
pub mod Eventfd
pub mod Inotify
pub mod Ipc
pub mod PageAlloc
pub mod Pty
pub mod Route6
pub mod Slab
pub mod Sysv
pub mod TimerWheel
pub mod Timerfd
pub mod Vma
