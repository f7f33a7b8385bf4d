-- ===== src/TaskList.antt =====
-- thread/thread_sched.c: the tasks of a scheduler, and the circular lists that they are linked
-- into by their ids.
pub mod Ring
pub mod Links
pub mod Times
use luasys.Base.{ℕ, Bool, Option, none, some, ◌==◌, if◌then◌else◌}

-- `struct sched_task`
pub record Task : Type 0 where
  pub co : ℕ
  pub prev_id : ℕ
  pub next_id : ℕ
  pub ev_op : Option ℕ
  pub started : Bool
  pub suspended : Bool
  pub ev_added : Bool
  pub terminate : Bool

-- The tasks buffer, by the id of a task.
abbrev pub Tasks : Type 0
Tasks = ℕ → Task

unfoldable pub set_task : ℕ → Task → Tasks → Tasks
set_task i t ts j = if j == i then t else ts j

-- Assignments to one field of a task.
abbrev pub set_next : ℕ → ℕ → Tasks → Tasks
set_next i n ts = set_task i (record (ts i) { next_id = n }) ts

abbrev pub set_prev : ℕ → ℕ → Tasks → Tasks
set_prev i p ts = set_task i (record (ts i) { prev_id = p }) ts

-- `sched_tasklist_add`, on the head of a list, `none` for -1, and the buffer
unfoldable pub list_add : ℕ → Option ℕ → Tasks → Option ℕ × Tasks
unfolding set_task
list_add id none ts = (some id, set_next id id (set_prev id id ts))
list_add id (some h) ts =
    let ts1 : Tasks = set_next (ts h).prev_id id ts in
    let ts2 : Tasks = set_prev id (ts1 h).prev_id ts1 in (some h, set_next id h (set_prev h id ts2))

-- `sched_tasklist_del`
unfoldable pub list_del : ℕ → Option ℕ → Tasks → Option ℕ × Tasks
unfolding set_task
list_del id head ts =
    let n : ℕ = (ts id).next_id in
    let ts1 : Tasks = set_prev n (ts id).prev_id ts in
    let ts2 : Tasks = set_next (ts1 id).prev_id (ts1 id).next_id ts1 in
    if id == n then (none, ts) else (
      elim head [ none ↦ none | some h ↦ if h == id then some (ts2 id).next_id else some h ],
      ts2,
    )
