-- ===== src/Sched/Steps.antt =====
-- The calls on a scheduler as the steps of a transition system: every worker thread's rounds of
-- `sched_loop`, and the methods that the coroutines and the event queue call.
use luasys.Base.{ℕ, ◌<◌, ◌≤◌, ◌^◌, ◌≡◌, Bool, false, Option, none, some, List, ◌∷◌}
use luasys.TaskList.Times.{times, erase}
use luasys.Sched.{
  Scheduler, Context, Picked, stopped, idle, waits_events, waits_signal, deleted, runs, Resumed,
  yielded, put, enter, pick, after_resume, after_events, after_signal, leave, stop_work, vm_switch,
}
use luasys.Sched.Methods.{terminate, suspend, resume, event_add, event_added, event_ready}

-- A scheduler with the tasks that worker threads run, from `lua_resume` on until it returns.
pub record System : Type 0 where
  pub sched : Scheduler
  pub running : List ℕ

abbrev pub start : Picked → List ℕ → List ℕ
start (runs id) rs = id ∷ rs
start stopped rs = rs
start idle rs = rs
start waits_events rs = rs
start waits_signal rs = rs
start (deleted id) rs = rs

-- A call that fails changes nothing.
abbrev pub after_put : Option (ℕ × Bool × Scheduler) → Scheduler → Scheduler
after_put none s = s
after_put (some (id, w, s1)) s = s1

abbrev pub after_try : Option Scheduler → Scheduler → Scheduler
after_try none s = s
after_try (some s1) s = s1

-- A coroutine that suspends itself or waits for an event yields at once.
pub data Step : System → System → Type 0 where
  puts :
      {s : Scheduler} {rs : List ℕ} (has_memory : Bool) (co : ℕ)
      → s.buf_max < 2 ^ 30
      → Step
          (record { sched = s; running = rs })
          (record { sched = after_put (put has_memory co s) s; running = rs })
  picks :
      {s : Scheduler} {rs : List ℕ} (not_linger : Bool)
      → Step
          (record { sched = s; running = rs })
          (record { sched = (pick not_linger s).1; running = start (pick not_linger s).0 rs })
  returns :
      {s : Scheduler} {rs : List ℕ} (r : Resumed) (id : ℕ)
      → 1 ≤ times id rs
      → Step
          (record { sched = s; running = rs })
          (record { sched = after_resume r id s; running = erase id rs })
  suspends :
      {s s1 : Scheduler} {rs : List ℕ} (id co : ℕ)
      → 1 ≤ times id rs
      → s.ctx ≡ some (record { co = some co; task_id = id })
      → suspend co s ≡ some s1
      → Step
          (record { sched = s; running = rs })
          (record { sched = after_resume yielded id s1; running = erase id rs })
  waits :
      {s : Scheduler} {rs : List ℕ} (id op : ℕ)
      → 1 ≤ times id rs
      → Step
          (record { sched = s; running = rs })
          (record { sched = after_resume yielded id (event_add id op s).1; running = erase id rs })
  waits_added :
      {s : Scheduler} {rs : List ℕ} (id op ev : ℕ)
      → 1 ≤ times id rs
      → Step
          (record { sched = s; running = rs })
          (record {
            sched = after_resume yielded id (event_add id op (event_added id (some ev) s)).1;
            running = erase id rs;
          })
  resumes :
      {s : Scheduler} {rs : List ℕ} (id : ℕ)
      → Step
          (record { sched = s; running = rs })
          (record { sched = after_try (resume id s) s; running = rs })
  terminates :
      {s : Scheduler} {rs : List ℕ} (id : ℕ)
      → Step (record { sched = s; running = rs }) (record { sched = terminate id s; running = rs })
  event_adds :
      {s : Scheduler} {rs : List ℕ} (id op : ℕ) (ev : Option ℕ)
      → id < s.buf_idx
      → (s.task id).ev_op ≡ some op
      → Step
          (record { sched = s; running = rs })
          (record { sched = event_added id ev s; running = rs })
  event_readies :
      {s : Scheduler} {rs : List ℕ} (id ev : ℕ)
      → id < s.buf_idx
      → Step
          (record { sched = s; running = rs })
          (record { sched = event_ready id (some ev) s; running = rs })
  enters :
      {s : Scheduler} {rs : List ℕ}
      → Step (record { sched = s; running = rs }) (record { sched = enter s; running = rs })
  leaves :
      {s : Scheduler} {rs : List ℕ}
      → Step (record { sched = s; running = rs }) (record { sched = leave s; running = rs })
  stops :
      {s : Scheduler} {rs : List ℕ} (b : Bool)
      → Step (record { sched = s; running = rs }) (record { sched = stop_work b s; running = rs })
  polled :
      {s : Scheduler} {rs : List ℕ}
      → Step (record { sched = s; running = rs }) (record { sched = after_events s; running = rs })
  signalled :
      {s : Scheduler} {rs : List ℕ}
      → Step (record { sched = s; running = rs }) (record { sched = after_signal s; running = rs })
  switches :
      {s : Scheduler} {rs : List ℕ} (c : Context) (b : Bool)
      → Step (record { sched = s; running = rs }) (record { sched = vm_switch c b s; running = rs })

pub data Reach (s : System) : System → Type 0 where
  here : Reach s s
  next : {t u : System} → Reach s t → Step t u → Reach s u

-- A step in which no coroutine that was asked to terminate suspends itself or waits for an event
abbrev pub Obeys : {s t : System} → Step s t → Type 0
Obeys (puts m co lt) = Unit
Obeys (picks n) = Unit
Obeys (returns r id h) = Unit
Obeys (suspends {s} id co h e q) = (s.task id).terminate ≡ false
Obeys (waits {s} id op h) = (s.task id).terminate ≡ false
Obeys (waits_added {s} id op ev h) = (s.task id).terminate ≡ false
Obeys (resumes id) = Unit
Obeys (terminates id) = Unit
Obeys (event_adds id op ev lt e) = Unit
Obeys (event_readies id ev lt) = Unit
Obeys enters = Unit
Obeys leaves = Unit
Obeys (stops b) = Unit
Obeys polled = Unit
Obeys signalled = Unit
Obeys (switches c b) = Unit

-- A run of such steps
abbrev pub AllObey : {s t : System} → Reach s t → Type 0
AllObey here = Unit
AllObey (next r st) = AllObey r × Obeys st
