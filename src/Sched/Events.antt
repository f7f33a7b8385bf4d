-- ===== src/Sched/Events.antt =====
-- What the event queue calls keeps each task in one place.
use luasys.Base.{
  ℕ, ◌<◌, ◌≡◌, refl, Bool, true, false, Option, none, some, List, [], ◌∷◌, ◌++◌, ◌==◌,
  if◌then◌else◌, arith, ap, ◌∙◌, Bool-cases, inl, inr, on_branches, not,
}
use luasys.TaskList.{Task}
use luasys.TaskList.Links.{state, list_add-state}
use luasys.Sched.{Scheduler, signal, add_active, update}
use luasys.Sched.Methods.{same_op, event_added, event_ready}
use luasys.Sched.Keeps.{Kept, Grown, Kept-Grown, Kept-core}
use luasys.Sched.Owned.{core, Fits-state, set_task_self}
use luasys.Sched.Rounds.{write-Kept}
use luasys.Sched.Wake.{Waking, Kept-Waking, write-Waking, wake-Woken, Woken-Kept, Kept-Fits}

same_op-eq : (a : Option ℕ) (ev : ℕ) → same_op a (some ev) ≡ true → a ≡ some ev
unfolding same_op
same_op-eq none ev e = absurd (cc)
same_op-eq (some a) ev e = ground (arith, e)

-- The event of a task that waits is ready.
wake_ready :
    (id : ℕ) (qs : List ℕ) (s : Scheduler) (rs : List ℕ)
    → Waking id qs s rs
    → Kept
        (qs ++ id ∷ [])
        (add_active id
          (update id (record (s.task id) { ev_op = none; ev_added = false; suspended = false }) s))
        rs
wake_ready id qs s rs w =
    let t : Task = record (s.task id) { ev_op = none; ev_added = false; suspended = false } in
    let s1 : Scheduler = update id t s in
    let st : state ((add_active id s1).task id) ≡ state t =
      list_add-state id s1.active_task_id s1.task id ∙ ap state (set_task_self id t s.task) in
    Woken-Kept id (qs ++ id ∷ []) (add_active id s1) rs
      (Fits-state t ((add_active id s1).task id) false st (refl, (λ y. refl), (λ y. refl)))
      (wake-Woken id qs s1 rs (write-Waking id qs s rs t refl refl w))

op-suspended :
    (id ev : ℕ) (qs : List ℕ) (s : Scheduler) (rs : List ℕ)
    → id < s.buf_idx
    → (s.task id).ev_op ≡ some ev
    → Kept qs s rs
    → (s.task id).suspended ≡ true
op-suspended id ev qs s rs lt e k = elim (Bool-cases (s.task id).suspended) [
  | inl y ↦ y
  | inr y ↦
      let (b, fit) = Kept-Fits id qs s rs lt k in
      let z : (s.task id).ev_op ≡ none = fit.1 y in absurd (cc)
]

core-add_active :
    (b : Bool) (id : ℕ) (s : Scheduler)
    → core (add_active id (if b then signal s else s)) ≡ core (add_active id s)
core-add_active true id s = refl
core-add_active false id s = refl

woken-Kept :
    (w : Bool) (id : ℕ) (qs : List ℕ) (s : Scheduler) (rs : List ℕ)
    → Waking id qs s rs
    → Kept
        (qs ++ id ∷ [])
        (add_active id (
          if w
          then signal (
              update id
                (record (s.task id) { ev_op = none; ev_added = false; suspended = false })
                s)
          else update id
              (record (s.task id) { ev_op = none; ev_added = false; suspended = false })
              s))
        rs
woken-Kept w id qs s rs k =
    let s1 : Scheduler =
      update id (record (s.task id) { ev_op = none; ev_added = false; suspended = false }) s in
    Kept-core (qs ++ id ∷ []) (add_active id s1) (add_active id (if w then signal s1 else s1)) rs
      (core-add_active w id s1) (wake_ready id qs s rs k)

-- `sys_sched_event_ready`, where the operation of the task is this one, and on a task of the buffer
ready_same :
    (id : ℕ) (ev : Option ℕ) (qs : List ℕ) (s : Scheduler) (rs : List ℕ)
    → same_op (s.task id).ev_op ev ≡ true
    → Waking id qs s rs
    → Kept (qs ++ id ∷ []) (event_ready id ev s) rs
unfolding event_ready
ready_same id ev qs s rs e k =
    let s1 : Scheduler =
      update id (record (s.task id) { ev_op = none; ev_added = false; suspended = false }) s in
    let waiting : Bool = elim s.active_task_id [ none ↦ not (s.nwaiters == 0) | some h ↦ false ] in
    on_branches (λ u. Kept (qs ++ id ∷ []) u rs) (same_op (s.task id).ev_op ev)
      (add_active id (if waiting then signal s1 else s1)) s (λ y. woken-Kept waiting id qs s rs k)
      (λ y. absurd (cc))

pub event_ready-Kept :
    (id ev : ℕ) (qs : List ℕ) (s : Scheduler) (rs : List ℕ)
    → id < s.buf_idx
    → Kept qs s rs
    → Grown qs (event_ready id (some ev) s) rs
unfolding event_ready
event_ready-Kept id ev qs s rs lt k =
    let s1 : Scheduler =
      update id (record (s.task id) { ev_op = none; ev_added = false; suspended = false }) s in
    let waiting : Bool = elim s.active_task_id [ none ↦ not (s.nwaiters == 0) | some h ↦ false ] in
    on_branches (λ u. Grown qs u rs) (same_op (s.task id).ev_op (some ev))
      (add_active id (if waiting then signal s1 else s1)) s
      (λ y. (
        id ∷ [],
        woken-Kept waiting id qs s rs (
            Kept-Waking id qs s rs lt
              (op-suspended id ev qs s rs lt (same_op-eq (s.task id).ev_op ev y) k) k),
      ))
      (λ y. Kept-Grown qs s rs k)

-- `sys_sched_event_added` of a task whose operation was in the event queue's list
pub event_added-Kept :
    (id op : ℕ) (ev : Option ℕ) (qs : List ℕ) (s : Scheduler) (rs : List ℕ)
    → id < s.buf_idx
    → (s.task id).ev_op ≡ some op
    → Kept qs s rs
    → Grown qs (event_added id ev s) rs
unfolding event_added
event_added-Kept id op (some ev) qs s rs lt e k =
    let susp = op-suspended id op qs s rs lt e k in
    let t : Task = record (s.task id) { ev_op = some ev; ev_added = true } in
    Kept-Grown qs (update id t s) rs (
      write-Kept id t qs s rs refl refl (λ w f. (f.0, (λ y. absurd (cc)), (λ y. absurd (cc)))) lt k)
event_added-Kept id op none qs s rs lt e k =
    let susp = op-suspended id op qs s rs lt e k in
    let t : Task = record (s.task id) { ev_op = none; ev_added = true } in
    let s1 : Scheduler = update id t s in
    on_branches (λ u. Grown qs u rs) (s.task id).suspended (event_ready id none s1) s1
      (λ y. (
        id ∷ [],
        ready_same id none qs s1 rs (ap (λ u. same_op u.ev_op none) (set_task_self id t s.task))
            (write-Waking id qs s rs t refl refl (Kept-Waking id qs s rs lt susp k)),
      ))
      (λ y. absurd (cc))
