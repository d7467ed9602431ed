-- ===== src/Lib.antt =====
-- libsel4osapi is a library of system services over seL4: pools, timers, UDP sockets, serial
-- devices and processes. Services run as threads that receive requests over endpoints and keep
-- their data in pools of preallocated elements. This development models the C code of src/ and
-- include/.
--
-- The code runs in the state monad of Run: a run ends with a value and a state, or stops at a
-- failed assert, at a bad pointer, on used up fuel, or because a thread waits for good. The files
-- and the code that they model:
-- * LinkedList (src/list.c): doubly linked lists over a store from addresses to nodes;
--   insert_node, insert, unlink and to_array are the functions of that name. Chain says what a list
--   looks like in the store, Insert, Unlink and ToArray what the functions do, Separate keeps two
--   lists apart.
-- * Pool (src/pool.c): pools as two such lists over a heap. Pool/View is the abstract pool that a
--   client sees, two queues of elements; Shape says which heaps show it; Alloc, Release, Update and
--   New prove that the code implements it, and Session puts them together. The services below are
--   written over the view.
-- * Clock (src/clock.c): tick is a round of the timer thread and Clock/Server.serve one of the
--   server thread. Both hold a mutex while they use the schedule, so a round is a step. Schedule,
--   Tick and Invariant hold the invariant and the outcome of a tick, Server/Cancel, Accept and
--   Safety the requests, Reachable the runs; Clock/Sleep is a thread that sleeps (src/thread.c).
-- * Udp/Receive, Udp/Transmit and Udp/Stack (src/udp.c): the two threads of a socket with the
--   client calls, and the requests of the stack thread; Udp/Sockets has the calls that make them. A
--   round of the receive thread is two steps, rx_begin and rx_end, since udprecv may run in
--   between. Queue, Order, Deliver and Fifo lead to the order of delivery; Client is
--   sel4osapi_udp_recv.
-- * Serial (src/io.c): the serial server, its clients and their calls. Ipc (src/ipc.c): the
--   clients of the IPC server.
-- * Process (src/process.c): the grant of untyped memory to a process and its return;
--   Process/Environment is sel4osapi_process_init_env and Process/Create sel4osapi_process_create.
--   Memory (src/util.c): the allocation of untypeds. System (src/system.c): the division of the
--   untyped memory, and the hand-over to the allocator of a process; System/Start is the start of a
--   process and System/Life its spawn and deletion. Boot (src/system.c and the initialize functions
--   of the services): the start of the root task; Boot/Root/First goes on to its first process and
--   Boot/Root/Networked to the network.
-- * Buffer has the shared pages and memcpy (a copy past the end is a bad pointer), Prelude the
--   names, numbers and lists.
-- * Tester (src/list.c): the test of the lists, over the heap of Pool.
-- * Network (src/network.c): the interfaces that the stack thread of Udp/Stack serves.
-- * Thread (src/thread.c): threads from their creation to their end, over any world that their
--   routines work on; Thread/Monitor is sel4osapi_syslog_monitor_thread. Log (src/log.c): the
--   messages of the log, on their way to a serial device.
-- * The Examples of each part run the code on concrete states.
--
-- Numbers are those of a 32-bit target: sums that the code may let wrap around are taken modulo 2 ^
-- 32, and bytes stored in uint8_t modulo 2 ^ 8. Pointers are numbers and NULL is 0. A loop over a
-- list takes fuel: more than the list has nodes is enough, and the pool passes more than its size;
-- the server of the clock needs three rounds more than there are timeouts, because it visits a
-- released entry again. What other libraries do is a parameter: the slots of vka_cspace_alloc, the
-- packets of lwIP, the devices, the allocator of untypeds.
--
-- Not modelled: what the calls of other libraries do that set up allocators, address spaces and
-- drivers, the fault handler of the root task, capability copies whose result is only checked, the
-- arguments and the start of the program of a process, formatting and printing, the heap and the
-- synchronisation libraries.
pub mod Boot
pub mod Buffer
pub mod Clock
pub mod Ipc
pub mod LinkedList
pub mod Log
pub mod Memory
pub mod Network
pub mod Pool
pub mod Prelude
pub mod Process
pub mod Run
pub mod Serial
pub mod System
pub mod Tester
pub mod Thread
pub mod Udp
