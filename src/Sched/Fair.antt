-- ===== src/Sched/Fair.antt =====
-- Where each task is in every run, which task a round of the loop runs, and what becomes of a deleted one.
use luasys.Base.{
  ℕ, ◌+◌, ◌≤◌, ◌<◌, ◌^◌, ◌%◌, ◌≡◌, refl, ◌≢◌, Bool, true, false, Option, none, some, List, [], ◌∷◌,
  ◌==◌, if◌then◌else◌, arith, sym, ap, ◌∙◌, not, ◌&&◌, lt→ltb,
}
use luasys.TaskList.{Tasks}
use luasys.TaskList.Links.{state, list_del-state, list_add-state}
use luasys.TaskList.Times.{times}
use luasys.Sched.{
  Scheduler, del_active, new, pick, pick_task, Picked, stopped, idle, waits_events, waits_signal,
  deleted, runs, task_del, update, add_active, after_resume, yielded,
}
use luasys.Sched.Methods.{resume}
use luasys.Sched.Invariant.{Reach-Served, new-Kept}
use luasys.Sched.Keeps.{Kept, head-first}
use luasys.Sched.Steps.{System, Reach, AllObey}

-- The scheduler that `sched_new` makes, with no worker thread in its loop.
abbrev pub fresh : ℕ → ℕ → ℕ → Tasks → System
fresh min_workers max_workers worker_timeout ts = record {
  sched = new min_workers max_workers worker_timeout ts;
  running = [];
}

-- Whatever rounds and calls follow on `sched_new`, if no coroutine that was asked to terminate
-- suspends itself or waits for an event, and no task is put while the buffer has 2 ^ 30 tasks,
-- each task of the buffer is in exactly one place: the circular list of active tasks, that of free
-- ones, a worker thread that runs it, or none of these with its `suspended` flag set; both lists
-- are well linked; the number of tasks that `sched_size` returns is that of the tasks that are not
-- free.
pub fresh-Kept :
    (min_workers max_workers worker_timeout : ℕ) (ts : Tasks) {t : System}
    (r : Reach (fresh min_workers max_workers worker_timeout ts) t)
    → AllObey r
    → (qs : List ℕ) × Kept qs t.sched t.running
fresh-Kept m n w ts r ob =
    let (new_ones, qs, e, k) = Reach-Served r [] ob (new-Kept m n w ts) in (qs, k)

-- Whatever rounds and calls follow on `sched_new`, if no coroutine that was asked to terminate
-- suspends itself or waits for an event, and no task is put while the buffer has 2 ^ 30 tasks, the
-- first active task, the first free one and every task that a worker thread runs are in the used
-- part of the buffer, and this is in the allocated part, whose length is in the range of `int`.
pub fresh-bounds :
    (min_workers max_workers worker_timeout : ℕ) (ts : Tasks) {t : System}
    (r : Reach (fresh min_workers max_workers worker_timeout ts) t)
    → AllObey r
    → ((id : ℕ) → t.sched.active_task_id ≡ some id → id < t.sched.buf_idx)
      × ((id : ℕ) → t.sched.free_task_id ≡ some id → id < t.sched.buf_idx)
      × ((id : ℕ) → 1 ≤ times id t.running → id < t.sched.buf_idx)
      × (t.sched.buf_idx ≤ t.sched.buf_max)
      × (t.sched.buf_max < 2 ^ 31)
fresh-bounds m n w ts {t} r ob =
    let (qs, (fs, ws, (o, f))) = fresh-Kept m n w ts r ob in
    (
      (λ id e.
          let (bs, split) = head-first t.sched.task t.sched.active_task_id qs id e o.rings.0 in
          ground (arith, o.once id, ap (times id) split)),
      (λ id e.
          let (bs, split) = head-first t.sched.task t.sched.free_task_id fs id e o.rings.1 in
          ground (arith, o.once id, ap (times id) split)),
      (λ id h. ground (arith, o.once id)),
      o.room,
      o.range,
    )

pick-active :
    (n : Bool) (id : ℕ) (s : Scheduler)
    → s.stop ≡ false
    → s.active_task_id ≡ some id
    → pick n s ≡ pick_task id s
unfolding pick
pick-active n id s e a =
    let no_task : Picked × Scheduler =
      if n
      then (idle, s)
      else (if (s.nwaiters + 1 == s.nworkers) && s.has_evq && not s.evq_waiting
          then (waits_events, record s { evq_waiting = true })
          else (waits_signal, record s { nwaiters = (s.nwaiters + 1) % 2 ^ 16 })) in
    (λ i.
      if e i
      then (stopped, record s { signals = s.signals + 1 })
      else elim (a i) [ some j ↦ pick_task j s | none ↦ no_task ])

pick_task-result :
    (id : ℕ) (s : Scheduler)
    → (pick_task id s).0 ≡ (if (s.task id).terminate then deleted id else runs id)
unfolding pick_task
pick_task-result id s =
    let same : ((del_active id s).task id).terminate ≡ (s.task id).terminate =
      ap (λ t. t.terminate) (list_del-state id s.active_task_id s.task id) in
    by_test ((del_active id s).task id).terminate (deleted id, task_del id (del_active id s))
      (
        runs id,
        record (update id (record ((del_active id s).task id) { started = true })
            (del_active id s)) {
              ctx = some (record { co = some ((del_active id s).task id).co; task_id = id });
              tick = (s.tick + 1) % 2 ^ 32;
            },
      )
    ∙ (λ i. if same i then deleted id else runs id)
  where
    by_test :
        (b : Bool) (x y : Picked × Scheduler) → (if b then x else y).0 ≡ (if b then x.0 else y.0)
    by_test true x y = refl
    by_test false x y = refl

-- A round of a loop that is not stopped takes the first of the active tasks: it deletes the task
-- if this was asked to terminate, and runs it otherwise.
pub pick-first :
    (not_linger : Bool) (id : ℕ) (qs : List ℕ) (s : Scheduler) (rs : List ℕ)
    → Kept (id ∷ qs) s rs
    → s.stop ≡ false
    → (pick not_linger s).0 ≡ (if (s.task id).terminate then deleted id else runs id)
pick-first n id qs s rs (fs, ws, (o, f)) e =
    ap (λ r. r.0) (pick-active n id s e o.rings.0.0) ∙ pick_task-result id s

-- A task that was asked to terminate and whose coroutine yields suspended is deleted with its flag
-- set: it is then in the list of free tasks, and a call of `sched_resume` with its id, which raises
-- no error, puts it into the list of active tasks as well.
pub resume_deleted :
    (id : ℕ) (s : Scheduler)
    → id < s.buf_idx
    → (s.task id).suspended ≡ true
    → (s.task id).terminate ≡ true
    → (s.task id).ev_op ≡ none
    → (after_resume yielded id s
        ≡ task_del id (record s { ctx = some (record { co = none; task_id = id }) }))
      × (resume id (after_resume yielded id s) ≢ none)
unfolding after_resume task_del resume
resume_deleted id s l susp term op =
    let s1 : Scheduler = record s { ctx = some (record { co = none; task_id = id }) } in
    let s2 : Scheduler = task_del id s1 in
    let yields : after_resume yielded id s ≡ s2 =
      (λ i. if term i then s2 else (if (s.task id).suspended then s1 else add_active id s1)) in
    let st : state (s2.task id) ≡ state (s.task id) = list_add-state id s.free_task_id s.task id in
    let free : Option ℕ → Bool = λ o. elim o [ none ↦ true | some ev ↦ false ] in
    let s3 : Scheduler = add_active id s2 in
    let s4 : Scheduler = update id (record (s3.task id) { suspended = false }) s3 in
    let tested : resume id s2 ≡ some s4 = (λ i.
      if (lt→ltb id s.buf_idx l i)
        && ((ap (λ t. t.suspended) st ∙ susp) i)
        && (free ((ap (λ t. t.ev_op) st ∙ op) i))
      then some s4
      else none) in
    (yields, λ z. some-none s4 (sym tested ∙ ap (resume id) (sym yields) ∙ z))
  where
    some-none : (u : Scheduler) → ◌≢◌ {A = Option Scheduler} (some u) none
    some-none u e = absurd (cc)
