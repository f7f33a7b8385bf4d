-- ===== src/Thread/Control.antt =====
-- What threads do to each other: termination, interrupts, suspension and waits.
use luasys.Base.{ℕ, ◌-◌, ◌*◌, ◌/◌, ◌%◌, Bool, true, false, ◌==◌, if◌then◌else◌}
use luasys.DataPool.{WaitResult, signal, timeout, failure}
use luasys.Thread.{Store, set_thread, killed, terminated, interrupted, isvm, unfake, broadcast}

-- What `sys_thread_check` does: nothing, `thread_exit`, or an error with the object for interrupts
pub data Check : Type 0 where
  passes exits raises : Check

unfoldable pub check : ℕ → Store → Check × Store
check td s =
    let t = s.thread td in
    if t.flags == terminated
    then (exits, set_thread td (record t { flags = killed }) s)
    else ((if t.flags == interrupted then raises else passes), s)

-- `thread_set_interrupt`, called in thread `self`
unfoldable pub set_interrupt : (self td : ℕ) (recover : Bool) → Store → Check × Store
unfolding unfake check
set_interrupt self td recover s =
    let a = unfake td s in
    let t = s.thread a in
    let s1 = set_thread a (record t { flags = interrupted }) s in
    if recover
    then (passes, set_thread a (record t { flags = t.flags - t.flags / 4 % 2 * 4 }) s)
    else (if a == self then check a s1 else (passes, s1))

-- `thread_interrupted`
unfoldable pub is_interrupted : ℕ → Store → Bool
unfolding unfake
is_interrupted td s = (s.thread (unfake td s)).flags == interrupted

-- `thread_set_terminate`, called in thread `self`
unfoldable pub set_terminate : (self td status : ℕ) → Store → Check × Store
unfolding unfake
set_terminate self td status s =
    let a = unfake td s in
    let t = s.thread a in
    let s1 = set_thread a (record t { exit_status = status; flags = terminated }) s in
    ((if a == self then exits else passes), s1)

-- `sys_thread_suspend` up to its wait, and after the wait: whether it waits again
unfoldable pub suspend_begin : ℕ → Store → Store
suspend_begin td s = set_thread td (record (s.thread td) { suspended = true }) s

unfoldable pub suspend_again : WaitResult → ℕ → Store → Bool
suspend_again signal td s = (s.thread td).suspended
suspend_again timeout td s = false
suspend_again failure td s = false

-- `sys_thread_resume`
unfoldable pub resume_thread : ℕ → Store → Store
resume_thread td s = broadcast td (set_thread td (record (s.thread td) { suspended = false }) s)

-- How a call of `thread_wait` goes on: it waits (again), or returns true for no workers, a status,
-- false for a timeout or an error; or the check in its loop ends the calling thread or raises.
pub data Waiting : Type 0 where
  waits no_workers times_out fails ends interrupts : Waiting
  returns : ℕ → Waiting

-- `thread_wait` on thread `td` up to its wait
unfoldable pub wait_begin : ℕ → Store → Waiting
wait_begin td s =
    let t = s.thread td in
    if isvm td s
    then (if (s.vm td).nref == 0 then no_workers else waits)
    else (if t.flags == killed then returns t.exit_status else waits)

-- The result after the loop
abbrev pub wait_result : WaitResult → ℕ → Waiting → Waiting
wait_result signal status again = again
wait_result timeout status again = times_out
wait_result failure status again = fails

-- `thread_wait` after its wait: `sys_thread_check` looks at the thread that is waited for.
unfoldable pub wait_over : WaitResult → ℕ → Store → Waiting × Store
unfolding check
wait_over r td s =
    if isvm td s
    then (wait_result r 0 (if (s.vm td).nref == 0 then no_workers else waits), s)
    else (let (c, s1) = check td s in
        let t = s1.thread td in
        let done : Waiting = if t.flags == killed then returns t.exit_status else waits in
        elim c [
          | exits ↦ (ends, s1)
          | raises ↦ (interrupts, s1)
          | passes ↦ (wait_result r 0 done, s1)
        ])
