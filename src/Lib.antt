-- ===== src/Lib.antt =====
-- The data structures of the Lua system library: what passes values between VM-threads, the memory
-- buffers that files, sockets and streams are read and written through, the scheduler of coroutines,
-- threads and the VMs that they run in, and the identifiers, the waits and the timeouts of events.
--
-- Parts and files:
--   - DataPool.antt is src/thread/thread_dpool.c. `struct data_pool` is the record `Pool`, and each C
--     function is one definition for every stretch of it between two points where it gives up the VM
--     lock: `dpool_put` is `put`, `put_woken` (after `thread_event_wait`) and `put_switched` (after
--     `sys_thread_switch`), `dpool_get` is `get` and `get_woken`. DataPool/Slots and DataPool/Queue
--     read the integer keys of the storage table as a queue of tuples. DataPool/Threads has the step
--     relation of several threads with calls under way, and DataPool/Conserve what every schedule
--     keeps. DataPool/Overtake is one schedule in which the order is lost.
--   - MemBuf.antt is src/mem/sys_mem.c: the buffer, its allocation and length, and its bytes.
--     MemBuf/Output and MemBuf/Input are the two halves of src/mem/membuf.c, and MemBuf/Window the
--     `sys_buffer` functions of sys_mem.c, through which files and sockets read and write.
--     MemBuf/Access is the access to single items, `mem_index` and `mem_newindex`. A call that would
--     not return is the value `hang`, and an access outside of the block is `fault`, so that a theorem
--     with `Returns` says that there is neither. The stream objects, which are Lua objects, are the
--     record `Streams`, with the laws that a proof relies on in `IsLawful`.
--   - Pipe.antt is src/thread/thread_pipe.c: ring buffers in a circular list, found by their address
--     in a heap. `pipe_put` is `put` and `put_woken`, `pipe_get` is `get` and `get_woken`. Pipe/Ring
--     says which list of messages a ring buffer holds, Pipe/Put and Pipe/Get what the calls do to
--     that list. Pipe/Message has `pipe_msg_build` and `pipe_msg_parse`, between Lua values and the
--     bytes of a message.
--   - Timeout.antt is src/event/timeout.c: events and their queues by address, with the links as the
--     source has them. `timeout_reset` is `reset`, and likewise `del`, `add` and `get`;
--     `timeout_process` is `process` in Timeout/Expire. Timeout/Linked reads the links of a queue as a
--     list of events; Timeout/Deleted, Timeout/Kept, Timeout/Added and Timeout/Expire/Round say what
--     the functions do to that list, and Timeout/Expire/Order that it stays in the order of the
--     timeouts. Timeout/Wait is about how long the event loop waits.
--   - Thread.antt is src/thread/sys_thread.c: the data of threads and of VMs by address. Thread/Exit is
--     `thread_exit`, split where it gives up the lock of the VM: `exit_thread` up to there,
--     `close_or_wait` for each round of the main thread's wait, and `exit_ref` for the reference that
--     is given back. Thread/Create has `sys_thread_new` (`thread_new`), `thread_newvm` (`newvm`),
--     `thread_run` (`run_thread`) and `thread_runvm` (`runvm`), with what fails as an argument, and
--     Thread/Control the calls on other threads. Thread/World is the step relation of all threads of
--     all VMs, with where each of them is; Thread/Shape is what holds between the steps, Thread/Moving,
--     Thread/Making, Thread/NewValid and Thread/Dropping that each kind of step keeps it, and
--     Thread/Closing, Thread/Last and Thread/Fake what follows for whole runs.
--   - Signal.antt is src/event/signal.c: `signal_gethead` (`gethead`), `signal_add` and `signal_del`, and
--     Signal/Chain what these do to the list of the events of a signal.
--   - Affin.antt is src/thread/thread_affin.c, the choice of a processor for a thread.
--   - TaskList.antt and Sched.antt are src/thread/thread_sched.c. TaskList has `struct sched_task` and the
--     circular lists of tasks: `sched_tasklist_add` is `list_add` and `sched_tasklist_del` is
--     `list_del`, on the head of a list and the tasks buffer, a function of ids. Sched has `struct
--     scheduler`, the allocation of tasks, `put` and the rounds of `sched_loop`: `pick` up to
--     `lua_resume` or a wait, and `after_resume`, `after_events` and `after_signal` from there on.
--     Sched/Methods are the methods that coroutines and the event queue call, by the names of the
--     source. Sched/Steps has the step relation of all of them, Sched/Owned the places of tasks that
--     Sched/Invariant shows to be kept, and Sched/Fair the order in which tasks are run.
--   - Evq.antt is the allocation of events in src/sys_evq.c: `levq_new_event` is `new_event`, and
--     `locate` is how `levq_done` finds an event by its identifier. Evq/MaxBit is about `getmaxbit`,
--     Evq/Ids and Evq/Live about the identifiers in use. Evq/Loop is the control of `sys_evq_loop`,
--     split where it waits or calls functions, with `levq_control_wait` (`control_begin` and
--     `control_end`), `levq_sync_call` and `levq_stop`. Evq/Waiting and Evq/Sync are about several
--     threads in it.
--   - Poll.antt is the array of src/event/poll.c: `evq_add` is `add`, `evq_del` is `del`, and the loop of
--     `evq_wait` over the results is `scan`. Poll/Scan is about one-shot events in that loop.
--   - Lua.antt has what is used of Lua values, and Base.antt the names that all modules share.
--
-- Numbers are natural. Sums of `unsigned int` and `size_t` wrap at 2 ^ 32 and 2 ^ 64, and where the
-- source counts with `int` the theorems have bounds below 2 ^ 31. Negative lengths and offsets of
-- buffers are not modelled. Loops run on fuel: 64 rounds are enough for the doubling of a buffer's
-- length (`grow_total`); `read_chunks`, `free_buffers` and the loops of Timeout take
-- their fuel as an argument, and so does `signal_del`. The steps of a scheduler assume that the
-- buffer of tasks is not doubled past the range of `int`, and theorems on its runs have the hypothesis
-- `AllObey`: no coroutine that was asked to terminate suspends itself or waits for an event
-- (`resume_deleted` is about one that does). The steps of the event loop assume threads of the library.
-- Times are the 32 bits of an `int`; their sums wrap, and they are compared as numbers with a sign.
--
-- The steps of threads are those on POSIX. Threads are numbered as they are made, fewer than 2 ^ 32
-- of them, and a wait for a condition does not fail. A `thread_wait` that finds that the thread it
-- waits for was asked to end is no step, and theorems on runs of threads say nothing of runs with
-- one: `sys_thread_check` then ends the calling thread with the data of the other one, which gives
-- back the other's reference twice (`wait_over` has this case).
--
-- A memory buffer's output stream is a parameter. That a write with a false result has taken nothing
-- is a hypothesis (`IsLawful`) that `sys_write` breaks with a partial write; MemBuf/Output/Partial
-- is about such streams. The loop of `evq_wait` over the results of `poll` is a fault where it would
-- read arrays that `evq_del` has given to `realloc`, and Poll/Scan has the condition under which it
-- does not.
--
-- Not modelled: the Lua stack and errors raised by Lua (argument checks, a thread that is
-- interrupted), the libraries and arguments that a new VM gets, the values that the scheduler moves
-- between coroutines, its controller function, the creation of worker threads, the functions that
-- the event loop calls, the deletion of one-shot events, memory maps, negative indexes of items, and
-- the parts of the library that are calls of the operating system: sockets, files, processes, dates,
-- servers, the handling of signals that have come, and the event back ends but for the array of
-- poll.c.
pub mod Base
pub mod Lua
pub mod DataPool
pub mod MemBuf
pub mod Pipe
pub mod Sched
pub mod TaskList
pub mod Evq
pub mod Poll
pub mod Timeout
pub mod Thread
pub mod Affin
pub mod Signal
