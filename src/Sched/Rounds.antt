-- ===== src/Sched/Rounds.antt =====
-- A round of the loop keeps each task in one place: up to `lua_resume`, and from its return on.
use luasys.Base.{
  ℕ, ◌+◌, ◌≤◌, ◌<◌, ◌^◌, ◌%◌, ◌≡◌, refl, Bool, true, false, Option, none, some, List, [], ◌∷◌, ◌++◌,
  ◌==◌, if◌then◌else◌, ltb, arith, sym, subst, inl, inr, Option-cases, on_branches, not, ◌&&◌,
}
use luasys.TaskList.{Task, list_add, list_del}
use luasys.TaskList.Links.{list_add-state, list_del-state}
use luasys.TaskList.Times.{times, erase}
use luasys.Sched.{
  Scheduler, del_active, signal, add_active, update, task_del, pick, pick_task, after_resume,
  Picked, stopped, idle, waits_events, waits_signal, deleted, runs, Resumed, yielded, finished,
  failed,
}
use luasys.Sched.Keeps.{Kept, Grown, Kept-Grown, head-first, erase-head, head-in}
use luasys.Sched.Moves.{
  requeue-Placed, delete-Placed, take-Placed, write-Placed, Flags-state, Flags-set,
}
use luasys.Sched.Owned.{core, Places, Fits}
use luasys.Sched.Steps.{start}

-- A task that is run, deleted
pub task_del-Kept :
    (id : ℕ) (qs : List ℕ) (s : Scheduler) (rs : List ℕ)
    → 1 ≤ times id rs
    → Kept qs s rs
    → Kept qs (task_del id s) (erase id rs)
unfolding task_del
task_del-Kept id qs s rs h (fs, ws, (o, f)) =
    let p : Places = record { active = qs; free = fs; running = rs; suspended = ws } in
    (
      fs ++ id ∷ [],
      ws,
      (
        delete-Placed id (core s) p h o,
        Flags-state s.task (list_add id s.free_task_id s.task).1 s.buf_idx ws
            (list_add-state id s.free_task_id s.task) f,
      ),
    )

-- A task that is run, put back
pub requeue-Kept :
    (id : ℕ) (qs : List ℕ) (s : Scheduler) (rs : List ℕ)
    → 1 ≤ times id rs
    → Kept qs s rs
    → Kept (qs ++ id ∷ []) (add_active id s) (erase id rs)
requeue-Kept id qs s rs h (fs, ws, (o, f)) =
    let p : Places = record { active = qs; free = fs; running = rs; suspended = ws } in
    (
      fs,
      ws,
      (
        requeue-Placed id (core s) p h o,
        Flags-state s.task (list_add id s.active_task_id s.task).1 s.buf_idx ws
            (list_add-state id s.active_task_id s.task) f,
      ),
    )

-- The first of the active tasks, taken to be run
take-Kept :
    (id : ℕ) (qs : List ℕ) (s : Scheduler) (rs : List ℕ)
    → s.active_task_id ≡ some id
    → Kept qs s rs
    → (bs : List ℕ) × (qs ≡ id ∷ bs) × Kept bs (del_active id s) (id ∷ rs)
take-Kept id qs s rs e (fs, ws, (o, f)) =
    let p : Places = record { active = qs; free = fs; running = rs; suspended = ws } in
    let (bs, split) = head-first s.task s.active_task_id qs id e o.rings.0 in
    (
      bs,
      split,
      (
        fs,
        ws,
        (
          take-Placed id (core s) p bs split o,
          Flags-state s.task (list_del id s.active_task_id s.task).1 s.buf_idx ws
              (list_del-state id s.active_task_id s.task) f,
        ),
      ),
    )

-- A write to a task that keeps its links and the flags of its wait.
pub write-Kept :
    (id : ℕ) (t : Task) (qs : List ℕ) (s : Scheduler) (rs : List ℕ)
    → t.next_id ≡ (s.task id).next_id
    → t.prev_id ≡ (s.task id).prev_id
    → ((w : Bool) → Fits (s.task id) w → Fits t w)
    → id < s.buf_idx
    → Kept qs s rs
    → Kept qs (update id t s) rs
write-Kept id t qs s rs n p k l (fs, ws, (o, f)) = (
  fs,
  ws,
  (
    write-Placed id (core s) (record { active = qs; free = fs; running = rs; suspended = ws }) t n p
        o,
    Flags-set id t s.task s.buf_idx ws ws (k (ltb 0 (times id ws)) (f id l)) (λ j ne. refl)
        (λ x lx ne. f x lx),
  ),
)

-- A task in one of the four places is in the buffer.
pub running_in :
    (id : ℕ) (qs : List ℕ) (s : Scheduler) (rs : List ℕ)
    → 1 ≤ times id rs
    → Kept qs s rs
    → id < s.buf_idx
running_in id qs s rs h (fs, ws, (o, f)) = ground (arith, o.once id)

-- The active tasks before a round, by those after it
abbrev pub before_round : Picked → List ℕ → List ℕ
before_round (runs id) bs = id ∷ bs
before_round (deleted id) bs = id ∷ bs
before_round stopped bs = bs
before_round idle bs = bs
before_round waits_events bs = bs
before_round waits_signal bs = bs

abbrev pub Turned : List ℕ → (Picked × Scheduler) → List ℕ → Type 0
Turned qs r rs = (bs : List ℕ) × (qs ≡ before_round r.0 bs) × Kept bs r.1 (start r.0 rs)

pick_task-Kept :
    (id : ℕ) (qs : List ℕ) (s : Scheduler) (rs : List ℕ)
    → s.active_task_id ≡ some id
    → Kept qs s rs
    → Turned qs (pick_task id s) rs
unfolding pick_task
pick_task-Kept id qs s rs e k =
    let s1 = del_active id s in
    let t : Task = s1.task id in
    let (bs, split, k1) = take-Kept id qs s rs e k in
    on_branches (λ r. Turned qs r rs) t.terminate (deleted id, task_del id s1)
      (
        runs id,
        record (update id (record t { started = true }) s1) {
          ctx = some (record { co = some t.co; task_id = id });
          tick = (s1.tick + 1) % 2 ^ 32;
        },
      )
      (λ y. (
        bs,
        split,
        subst (λ l. Kept bs (task_del id s1) l) (erase-head id rs)
            (task_del-Kept id bs s1 (id ∷ rs) (head-in id rs) k1),
      ))
      (λ z. (
        bs,
        split,
        write-Kept id (record t { started = true }) bs s1 (id ∷ rs) refl refl (λ w f. f)
            (running_in id bs s1 (id ∷ rs) (head-in id rs) k1) k1,
      ))

pub pick-Kept :
    (not_linger : Bool) (qs : List ℕ) (s : Scheduler) (rs : List ℕ)
    → Kept qs s rs
    → Turned qs (pick not_linger s) rs
unfolding pick
pick-Kept n qs s rs k =
    let waits : Scheduler = record s { evq_waiting = true } in
    let joins : Scheduler = record s { nwaiters = (s.nwaiters + 1) % 2 ^ 16 } in
    let no_task : Picked × Scheduler =
      if n
      then (idle, s)
      else (if (s.nwaiters + 1 == s.nworkers) && s.has_evq && not s.evq_waiting
          then (waits_events, waits)
          else (waits_signal, joins)) in
    let round : Option ℕ → Picked × Scheduler =
      λ o. elim o [ some id ↦ pick_task id s | none ↦ no_task ] in
    let rest : Turned qs (round s.active_task_id) rs = elim (Option-cases s.active_task_id) [
      | inr (id, e) ↦ subst (λ o. Turned qs (round o) rs) (sym e) (pick_task-Kept id qs s rs e k)
      | inl e ↦
          subst (λ o. Turned qs (round o) rs) (sym e)
            (on_branches (λ r. Turned qs r rs) n (idle, s)
              (if (s.nwaiters + 1 == s.nworkers) && s.has_evq && not s.evq_waiting
                then (waits_events, waits)
                else (waits_signal, joins))
              (λ y. (qs, refl, k))
              (λ y.
                on_branches (λ r. Turned qs r rs)
                  ((s.nwaiters + 1 == s.nworkers) && s.has_evq && not s.evq_waiting)
                  (waits_events, waits) (waits_signal, joins) (λ z. (qs, refl, k))
                  (λ z. (qs, refl, k))))
    ] in
    on_branches (λ r. Turned qs r rs) s.stop (stopped, signal s) (round s.active_task_id)
      (λ y. (qs, refl, k)) (λ z. rest)

-- A coroutine that returns, fails or yields, and is not suspended
pub after_resume-Kept :
    (r : Resumed) (id : ℕ) (qs : List ℕ) (s : Scheduler) (rs : List ℕ)
    → 1 ≤ times id rs
    → (s.task id).suspended ≡ false
    → Kept qs s rs
    → Grown qs (after_resume r id s) (erase id rs)
unfolding after_resume
after_resume-Kept finished id qs s rs h f k =
    let s1 : Scheduler = record s { ctx = some (record { co = none; task_id = id }) } in
    Kept-Grown qs (task_del id s1) (erase id rs) (task_del-Kept id qs s1 rs h k)
after_resume-Kept failed id qs s rs h f k =
    let s1 : Scheduler = record s { ctx = some (record { co = none; task_id = id }) } in
    Kept-Grown qs (task_del id s1) (erase id rs) (task_del-Kept id qs s1 rs h k)
after_resume-Kept yielded id qs s rs h f k =
    let s1 : Scheduler = record s { ctx = some (record { co = none; task_id = id }) } in
    let t : Task = s1.task id in
    let requeued : Scheduler = if t.suspended then s1 else add_active id s1 in
    on_branches (λ u. Grown qs u (erase id rs)) t.terminate (task_del id s1) requeued
      (λ y. Kept-Grown qs (task_del id s1) (erase id rs) (task_del-Kept id qs s1 rs h k))
      (λ n.
        on_branches (λ u. Grown qs u (erase id rs)) t.suspended s1 (add_active id s1)
          (λ y. absurd (cc)) (λ y. (id ∷ [], requeue-Kept id qs s1 rs h k)))

-- A coroutine that yields suspended
pub yield_suspended :
    (id : ℕ) (s : Scheduler)
    → (s.task id).suspended ≡ true
    → (s.task id).terminate ≡ false
    → after_resume yielded id s ≡ record s { ctx = some (record { co = none; task_id = id }) }
unfolding after_resume
yield_suspended id s f n =
    let s1 : Scheduler = record s { ctx = some (record { co = none; task_id = id }) } in
    (λ i. if n i then task_del id s1 else (if f i then s1 else add_active id s1))
