-- ===== src/Sched.antt =====
-- thread/thread_sched.c: a scheduler's state, its allocation of tasks, and the loop that runs them.
-- A call of `sched_loop` is split where it runs a coroutine or waits: only there another thread can
-- change the scheduler. Coroutines and events are named by numbers.
pub mod Methods
pub mod Owned
pub mod Moves
pub mod Steps
pub mod Keeps
pub mod Rounds
pub mod Wake
pub mod Calls
pub mod Events
pub mod Invariant
pub mod Fair
pub mod Tests
use luasys.Base.{
  ℕ, zero, suc, ◌+◌, ◌-◌, ◌*◌, ◌%◌, ◌^◌, Bool, true, false, ◌&&◌, ◌||◌, not, Option, none, some,
  ltb, ◌==◌, if◌then◌else◌,
}
use luasys.TaskList.{Task, Tasks, set_task, list_add, list_del}

-- `struct sched_context`
pub record Context : Type 0 where
  pub co : Option ℕ
  pub task_id : ℕ

-- `struct scheduler`. The last field counts the signals to `cond`.
pub record Scheduler : Type 0 where
  pub task : Tasks
  pub active_task_id : Option ℕ
  pub free_task_id : Option ℕ
  pub ntasks : ℕ
  pub tick : ℕ
  pub ctx : Option Context
  pub buf_idx : ℕ
  pub buf_max : ℕ
  pub has_evq : Bool
  pub stop : Bool
  pub evq_waiting : Bool
  pub worker_timeout : ℕ
  pub min_workers : ℕ
  pub max_workers : ℕ
  pub nworkers : ℕ
  pub nwaiters : ℕ
  pub signals : ℕ

-- `sched_tasklist_add` and `sched_tasklist_del` on the two lists
abbrev pub add_active : ℕ → Scheduler → Scheduler
add_active id s =
    let (head, ts) = list_add id s.active_task_id s.task in
    record s { active_task_id = head; task = ts }

abbrev pub add_free : ℕ → Scheduler → Scheduler
add_free id s =
    let (head, ts) = list_add id s.free_task_id s.task in
    record s { free_task_id = head; task = ts }

abbrev pub del_active : ℕ → Scheduler → Scheduler
del_active id s =
    let (head, ts) = list_del id s.active_task_id s.task in
    record s { active_task_id = head; task = ts }

abbrev pub del_free : ℕ → Scheduler → Scheduler
del_free id s =
    let (head, ts) = list_del id s.free_task_id s.task in
    record s { free_task_id = head; task = ts }

abbrev pub update : ℕ → Task → Scheduler → Scheduler
update id t s = record s { task = set_task id t s.task }

abbrev pub signal : Scheduler → Scheduler
signal s = record s { signals = s.signals + 1 }

-- SCHED_BUF_MIN
abbrev pub buf_min : ℕ
buf_min = 32

-- `sched_task_alloc`, with whether `realloc` succeeds, and its part for no free task
unfoldable pub alloc_end : Bool → Scheduler → Option (ℕ × Scheduler)
alloc_end has_memory s =
    if s.buf_idx == s.buf_max
    then (if has_memory
        then some (
          s.buf_idx,
          record s {
            buf_max = if s.buf_max == 0 then buf_min else s.buf_max * 2;
            buf_idx = s.buf_idx + 1;
          },
        )
        else none)
    else some (s.buf_idx, record s { buf_idx = s.buf_idx + 1 })

pub task_alloc : Bool → Scheduler → Option (ℕ × Scheduler)
unfolding alloc_end
task_alloc has_memory s = elim s.free_task_id [
  | some id ↦ some (id, del_free id s)
  | none ↦ alloc_end has_memory s
]

-- `sched_task_del`. The coroutines controller, a Lua function that is called last, is not modelled.
pub task_del : ℕ → Scheduler → Scheduler
task_del id s = let s' = add_free id s in record s' { ntasks = (s.ntasks + (2 ^ 32 - 1)) % 2 ^ 32 }

-- `sched_new`
pub new : (min_workers max_workers worker_timeout : ℕ) → Tasks → Scheduler
new min_workers max_workers worker_timeout ts = record {
  task = ts;
  active_task_id = none;
  free_task_id = none;
  ntasks = 0;
  tick = 0;
  ctx = none;
  buf_idx = 0;
  buf_max = 0;
  has_evq = false;
  stop = false;
  evq_waiting = false;
  worker_timeout = worker_timeout;
  min_workers = min_workers % 2 ^ 16;
  max_workers = max_workers % 2 ^ 16;
  nworkers = 0;
  nwaiters = 0;
  signals = 0;
}

-- `sched_event_queue`, with an event queue; `none` is the error "Scheduler must be empty".
pub event_queue : Scheduler → Option Scheduler
event_queue s = if s.ntasks == 0 then some (record s { has_evq = true }) else none

-- `sched_vm_switch`
pub vm_switch : Context → Bool → Scheduler → Scheduler
vm_switch c enter_vm s = record s { ctx = if enter_vm then some c else none }

-- A new task. Its links are not read before `sched_tasklist_add` sets them.
abbrev pub new_task : ℕ → Task
new_task co = record {
  co = co;
  prev_id = 0;
  next_id = 0;
  ev_op = none;
  started = false;
  suspended = false;
  ev_added = false;
  terminate = false;
}

-- `sched_put` from the allocated task on, with the coroutine: the id, and whether a worker thread is
-- to be created.
pub insert : ℕ → ℕ → Scheduler → ℕ × Bool × Scheduler
unfolding list_add
insert co id s =
    let is_empty : Bool = elim s.active_task_id [ none ↦ true | some h ↦ false ] in
    let s2 = add_active id (update id (new_task co) s) in
    let s3 = record s2 { ntasks = (s2.ntasks + 1) % 2 ^ 32 } in
    (
      id,
      is_empty && s3.nwaiters == 0 && ltb s3.nworkers s3.max_workers,
      (if is_empty && not (s3.nwaiters == 0) then signal s3 else s3),
    )

-- `sched_put`, with whether memory is there; `none` is the error.
pub put : Bool → ℕ → Scheduler → Option (ℕ × Bool × Scheduler)
unfolding task_alloc insert
put has_memory co s = elim (task_alloc has_memory s) [
  | none ↦ none
  | some (id, s1) ↦ some (insert co id s1)
]

-- `sched_loop`, before its loop
pub enter : Scheduler → Scheduler
enter s = record s {
  nworkers = (s.nworkers + 1) % 2 ^ 16;
  ctx = some (record { co = none; task_id = 0 });
}

-- What one round of the loop comes to: it is over, waits in the event queue or for a signal, has
-- deleted a terminated task, or runs a task's coroutine.
pub data Picked : Type 0 where
  stopped idle waits_events waits_signal : Picked
  deleted : ℕ → Picked
  runs : ℕ → Picked

-- A round of the loop that finds a task.
pub pick_task : ℕ → Scheduler → Picked × Scheduler
unfolding list_del task_del
pick_task id s =
    let s1 = del_active id s in
    let t : Task = s1.task id in
    if t.terminate then (deleted id, task_del id s1) else (
      runs id,
      record (update id (record t { started = true }) s1) {
        ctx = some (record { co = some t.co; task_id = id });
        tick = (s1.tick + 1) % 2 ^ 32;
      },
    )

-- A round of the loop up to `lua_resume` or the wait
pub pick : Bool → Scheduler → Picked × Scheduler
unfolding pick_task
pick not_linger s = if s.stop then (stopped, signal s) else elim s.active_task_id [
  | some id ↦ pick_task id s
  | none ↦
      if not_linger
      then (idle, s)
      else (if (s.nwaiters + 1 == s.nworkers) && s.has_evq && not s.evq_waiting
          then (waits_events, record s { evq_waiting = true })
          else (waits_signal, record s { nwaiters = (s.nwaiters + 1) % 2 ^ 16 }))
]

-- What `lua_resume` returns.
pub data Resumed : Type 0 where
  yielded finished failed : Resumed

-- The rest of a round after `lua_resume`
pub after_resume : Resumed → ℕ → Scheduler → Scheduler
unfolding list_add task_del
after_resume r id s =
    let s1 = record s { ctx = some (record { co = none; task_id = id }) } in
    let t : Task = s1.task id in
    let requeued = if t.suspended then s1 else add_active id s1 in
    elim r [
      | yielded ↦ if t.terminate then task_del id s1 else requeued
      | finished ↦ task_del id s1
      | failed ↦ task_del id s1
    ]

-- The rest of a round after the wait in the event queue, and after the one for a signal
pub after_events : Scheduler → Scheduler
after_events s = record s { evq_waiting = false }

pub after_signal : Scheduler → Scheduler
after_signal s = record s { nwaiters = (s.nwaiters + (2 ^ 16 - 1)) % 2 ^ 16 }

-- `sched_loop`, after its loop
pub leave : Scheduler → Scheduler
leave s =
    let s1 = record s { ctx = none; nworkers = (s.nworkers + (2 ^ 16 - 1)) % 2 ^ 16 } in
    if not s.stop && not s.evq_waiting && s.has_evq && s1.nwaiters == s1.nworkers
    then signal s1
    else s1

-- `sched_stop`
pub stop_work : Bool → Scheduler → Scheduler
stop_work b s = signal (record s { stop = b })
