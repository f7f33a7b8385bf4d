-- ===== src/Sched/Methods.antt =====
-- thread/thread_sched.c: the methods that coroutines call on their scheduler, and what the event
-- queue calls for a task that waits for an event.
use luasys.Base.{ℕ, Bool, true, false, ◌&&◌, not, Option, none, some, ltb, ◌==◌, if◌then◌else◌}
use luasys.TaskList.{Task, list_add}
use luasys.Sched.{Scheduler, add_active, update, signal}

-- `sched_running`, called from a coroutine
pub running : ℕ → Scheduler → Option ℕ
running co s = elim s.ctx [
  | none ↦ none
  | some c ↦ elim c.co [ none ↦ none | some k ↦ if k == co then some c.task_id else none ]
]

-- `sched_terminate`. `sys_evq_sched_del`, which takes the task's event out of the event queue, is
-- not modelled.
unfoldable pub terminate : ℕ → Scheduler → Scheduler
unfolding list_add
terminate id s =
    if not (ltb id s.buf_idx)
    then s
    else let t : Task = s.task id in
      let s1 = update id (record t { terminate = true; suspended = false }) s in
      let s2 = if t.suspended then add_active id s1 else s1 in
      elim t.ev_op [
        | none ↦ s2
        | some ev ↦ update id (record (s2.task id) { ev_op = none; ev_added = false }) s2
      ]

-- `sched_suspend`, called from a coroutine; `none` is the error.
unfoldable pub suspend : ℕ → Scheduler → Option Scheduler
suspend co s = elim s.ctx [
  | none ↦ none
  | some c ↦
      let t : Task = s.task c.task_id in
      elim t.ev_op [
        | some ev ↦ none
        | none ↦
            if t.co == co then some (update c.task_id (record t { suspended = true }) s) else none
      ]
]

-- `sched_resume`; `none` is the error.
unfoldable pub resume : ℕ → Scheduler → Option Scheduler
unfolding list_add
resume id s =
    let t : Task = s.task id in
    let s1 = add_active id s in
    let free : Bool = elim t.ev_op [ none ↦ true | some ev ↦ false ] in
    if ltb id s.buf_idx && t.suspended && free
    then some (update id (record (s1.task id) { suspended = false }) s1)
    else none

-- `sched_event_add` of the running task, after `sys_evq_sched_add` succeeded with the operation
-- `op`. The Boolean says whether the task is to wait.
unfoldable pub event_add : ℕ → ℕ → Scheduler → Bool × Scheduler
event_add id op s =
    let t : Task = s.task id in
    let waits = update id (record t { suspended = true }) s in
    let queued = update id (record t { suspended = true; ev_op = some op }) s in
    let failed = update id (record t { suspended = false; ev_added = false }) s in
    if t.ev_added
    then elim t.ev_op [ some ev ↦ (true, waits) | none ↦ (false, failed) ]
    else (true, queued)

unfoldable pub same_op : Option ℕ → Option ℕ → Bool
same_op none none = true
same_op none (some b) = false
same_op (some a) none = false
same_op (some a) (some b) = a == b

-- `sys_sched_event_ready`
unfoldable pub event_ready : ℕ → Option ℕ → Scheduler → Scheduler
unfolding same_op list_add
event_ready id ev s =
    let t : Task = s.task id in
    let s1 = update id (record t { ev_op = none; ev_added = false; suspended = false }) s in
    let waiting : Bool = elim s.active_task_id [ none ↦ not (s.nwaiters == 0) | some h ↦ false ] in
    if same_op t.ev_op ev then add_active id (if waiting then signal s1 else s1) else s

-- `sys_sched_event_added`
unfoldable pub event_added : ℕ → Option ℕ → Scheduler → Scheduler
unfolding event_ready
event_added id ev s =
    let t : Task = s.task id in
    let s1 = update id (record t { ev_op = ev; ev_added = true }) s in
    elim ev [ some e ↦ s1 | none ↦ if t.suspended then event_ready id none s1 else s1 ]

-- `sched_size`
unfoldable pub size : Scheduler → ℕ
size s = s.ntasks

-- A round of `sched_preempt_tasks`, with the tick that it saw before and whether the running
-- coroutine has a hook: the coroutine that is to yield.
pub preempt : ℕ → (ℕ → Bool) → Scheduler → Option ℕ
preempt old_tick has_hook s =
    let active : Bool = elim s.active_task_id [ none ↦ false | some id ↦ true ] in
    let co : Option ℕ = elim s.ctx [ none ↦ none | some c ↦ c.co ] in
    if not s.stop && s.tick == old_tick && active
    then elim co [ none ↦ none | some k ↦ if has_hook k then none else some k ]
    else none
