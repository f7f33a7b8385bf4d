-- ===== src/Sched/Calls.antt =====
-- The methods that suspend, wake and terminate tasks keep each task in one place.
use luasys.Base.{
  ℕ, ◌≤◌, ◌<◌, ◌≡◌, refl, Bool, true, false, Option, none, some, List, [], ◌∷◌, ◌++◌, ◌==◌,
  if◌then◌else◌, ltb, arith, sym, ap, subst, ◌∙◌, Bool-cases, inl, inr, Option-cases, on_branches,
  not, ◌&&◌,
}
use luasys.TaskList.{Task, Tasks, set_task}
use luasys.TaskList.Links.{state, list_add-state}
use luasys.TaskList.Times.{times, erase}
use luasys.Sched.{Scheduler, Context, add_active, update, after_resume, yielded}
use luasys.Sched.Methods.{terminate, suspend, resume, event_add, event_added}
use luasys.Sched.Keeps.{Kept, Grown, Kept-Grown, Kept-core}
use luasys.Sched.Moves.{one_if_le}
use luasys.Sched.Owned.{core, Fits, Fits-state, set_task_self}
use luasys.Sched.Rounds.{write-Kept, yield_suspended}
use luasys.Sched.Steps.{after_try}
use luasys.Sched.Wake.{
  suspended-Kept, Woken, Kept-Waking, write-Waking, wake-Woken, write-Woken, Woken-Kept, Kept-Fits,
}

-- A task that is run is not suspended.
pub running-Fits :
    (id : ℕ) (qs : List ℕ) (s : Scheduler) (rs : List ℕ)
    → 1 ≤ times id rs
    → Kept qs s rs
    → Fits (s.task id) false
running-Fits id qs s rs h (fs, ws, (o, f)) =
    subst (λ b. Fits (s.task id) b) (ground (arith, o.once id, one_if_le (ltb id s.buf_idx)))
      (f id (ground (arith, o.once id)))

-- A coroutine that yields with its task marked as suspended
yield-Kept :
    (id : ℕ) (t : Task) (qs : List ℕ) (s : Scheduler) (rs : List ℕ)
    → t.suspended ≡ true
    → t.terminate ≡ false
    → Kept qs (update id t s) (erase id rs)
    → Kept qs (after_resume yielded id (update id t s)) (erase id rs)
yield-Kept id t qs s rs e n k =
    let self = set_task_self id t s.task in
    Kept-core qs (update id t s) (after_resume yielded id (update id t s)) (erase id rs)
      (ap core (
        yield_suspended id (update id t s) (ap (λ u. u.suspended) self ∙ e)
          (ap (λ u. u.terminate) self ∙ n)))
      k

suspend-result :
    (c : Context) (co : ℕ) (s s1 : Scheduler)
    → s.ctx ≡ some c
    → suspend co s ≡ some s1
    → s1 ≡ update c.task_id (record (s.task c.task_id) { suspended = true }) s
unfolding suspend
suspend-result c co s s1 e h =
    let t : Task = s.task c.task_id in
    let X : Scheduler = update c.task_id (record t { suspended = true }) s in
    let body : Option ℕ → Option Scheduler =
      λ o. elim o [ some ev ↦ none | none ↦ if t.co == co then some X else none ] in
    let start : some s1 ≡ body t.ev_op = sym h ∙ (λ i. elim (e i) [
      | none ↦ none
      | some d ↦ elim (s.task d.task_id).ev_op [
        | some ev ↦ none
        | none ↦
            if (s.task d.task_id).co == co
            then some (update d.task_id (record (s.task d.task_id) { suspended = true }) s)
            else none
      ]
    ]) in
    elim (Option-cases t.ev_op) [
      | inr (ev, q) ↦ let dead : some s1 ≡ none = start ∙ ap body q in absurd (cc)
      | inl q ↦ elim (Bool-cases (t.co == co)) [
        | inl y ↦ ap (λ o. after_try o s) (start ∙ ap body q ∙ (λ i. if y i then some X else none))
        | inr y ↦
            let dead : some s1 ≡ none = start ∙ ap body q ∙ (λ i. if y i then some X else none) in
            absurd (cc)
      ]
    ]

pub suspend-Kept :
    (id co : ℕ) (qs : List ℕ) (s s1 : Scheduler) (rs : List ℕ)
    → 1 ≤ times id rs
    → s.ctx ≡ some (record { co = some co; task_id = id })
    → (s.task id).terminate ≡ false
    → suspend co s ≡ some s1
    → Kept qs s rs
    → Kept qs (after_resume yielded id s1) (erase id rs)
suspend-Kept id co qs s s1 rs h e n q k =
    let t : Task = record (s.task id) { suspended = true } in
    let (a, b, c) = running-Fits id qs s rs h k in
    subst (λ u. Kept qs (after_resume yielded id u) (erase id rs))
      (sym (suspend-result (record { co = some co; task_id = id }) co s s1 e q))
      (yield-Kept id t qs s rs refl n
        (suspended-Kept id t qs s rs h refl refl (refl, (λ z. b a), c) k))

event_add-queued :
    (id op : ℕ) (s : Scheduler)
    → (s.task id).ev_added ≡ false
    → (event_add id op s).1 ≡ update id (record (s.task id) { suspended = true; ev_op = some op }) s
unfolding event_add
event_add-queued id op s e = ground arith

event_add-added :
    (id op ev : ℕ) (s : Scheduler)
    → (s.task id).ev_added ≡ true
    → (s.task id).ev_op ≡ some ev
    → (event_add id op s).1 ≡ update id (record (s.task id) { suspended = true }) s
unfolding event_add
event_add-added id op ev s e q = ground arith

-- A running coroutine that waits for an event, put into the event queue's list of operations
pub wait-Kept :
    (id op : ℕ) (qs : List ℕ) (s : Scheduler) (rs : List ℕ)
    → 1 ≤ times id rs
    → (s.task id).terminate ≡ false
    → Kept qs s rs
    → Kept qs (after_resume yielded id (event_add id op s).1) (erase id rs)
wait-Kept id op qs s rs h n k =
    let t : Task = record (s.task id) { suspended = true; ev_op = some op } in
    let (a, b, c) = running-Fits id qs s rs h k in
    subst (λ u. Kept qs (after_resume yielded id u) (erase id rs))
      (sym (event_add-queued id op s (c (b a))))
      (yield-Kept id t qs s rs refl n
        (suspended-Kept id t qs s rs h refl refl (refl, (λ z. absurd (cc)), (λ z. absurd (cc))) k))

set_task-twice :
    (id : ℕ) (t u : Task) (ts : Tasks) → set_task id u (set_task id t ts) ≡ set_task id u ts
unfolding set_task
set_task-twice id t u ts = λ i j. twice j i
  where
    twice : (j : ℕ) → set_task id u (set_task id t ts) j ≡ set_task id u ts j
    twice j = ground arith

-- One whose event was added to the event queue at once
pub wait_added-Kept :
    (id op ev : ℕ) (qs : List ℕ) (s : Scheduler) (rs : List ℕ)
    → 1 ≤ times id rs
    → (s.task id).terminate ≡ false
    → Kept qs s rs
    → Kept qs
        (after_resume yielded id (event_add id op (event_added id (some ev) s)).1)
        (erase id rs)
unfolding event_added
wait_added-Kept id op ev qs s rs h n k =
    let t1 : Task = record (s.task id) { ev_op = some ev; ev_added = true } in
    let s1 : Scheduler = update id t1 s in
    let self : s1.task id ≡ t1 = set_task_self id t1 s.task in
    let t : Task = record t1 { suspended = true } in
    let same : (event_add id op s1).1 ≡ update id t s =
      event_add-added id op ev s1 (ap (λ u. u.ev_added) self) (ap (λ u. u.ev_op) self)
      ∙ ap (λ u. update id (record u { suspended = true }) s1) self
      ∙ ap (λ ts. record s { task = ts }) (set_task-twice id t1 t s.task) in
    subst (λ u. Kept qs (after_resume yielded id u) (erase id rs)) (sym same)
      (yield-Kept id t qs s rs refl n
        (suspended-Kept id t qs s rs h refl refl (refl, (λ z. absurd (cc)), (λ z. absurd (cc))) k))

and-parts : (a b c : Bool) → (a && b && c) ≡ true → (a ≡ true) × (b ≡ true) × (c ≡ true)
and-parts true true true e = (refl, refl, refl)
and-parts true true false e = absurd (cc)
and-parts true false c e = absurd (cc)
and-parts false b c e = absurd (cc)

-- `sched_resume`
pub resume-Kept :
    (id : ℕ) (qs : List ℕ) (s : Scheduler) (rs : List ℕ)
    → Kept qs s rs
    → Grown qs (after_try (resume id s) s) rs
unfolding resume
resume-Kept id qs s rs k =
    let t : Task = s.task id in
    let s1 : Scheduler = add_active id s in
    let free : Bool = elim t.ev_op [ none ↦ true | some ev ↦ false ] in
    let t1 : Task = record (s1.task id) { suspended = false } in
    on_branches (λ o. Grown qs (after_try o s) rs) (ltb id s.buf_idx && t.suspended && free)
      (some (update id t1 s1)) none
      (λ e.
        let (in_buffer, susp, no_ev) = and-parts (ltb id s.buf_idx) t.suspended free e in
        let lt : id < s.buf_idx = ground (arith, in_buffer) in
        let no_op : t.ev_op ≡ none = elim (Option-cases t.ev_op) [
          | inl z ↦ z
          | inr (ev, z) ↦
              let no : free ≡ false =
                ap (λ (o : Option ℕ). elim o [ none ↦ true | some x ↦ false ]) z in
              absurd (cc)
        ] in
        let (b, fit) = Kept-Fits id qs s rs lt k in
        let st : state (s1.task id) ≡ state t = list_add-state id s.active_task_id s.task id in
        (
          id ∷ [],
          write-Woken id (qs ++ id ∷ []) s1 rs t1 refl refl
              (
                refl,
                (λ z. ap (λ u. u.ev_op) st ∙ no_op),
                (λ z. ap (λ u. u.ev_added) st ∙ fit.2 no_op),
              )
              (wake-Woken id qs s rs (Kept-Waking id qs s rs lt susp k)),
        ))
      (λ e. Kept-Grown qs s rs k)

-- `sched_terminate` of a task in the buffer, by whether it is suspended
abbrev settled : ℕ → Scheduler → Option ℕ → Scheduler
settled id s o = elim o [
  | none ↦ s
  | some ev ↦ update id (record (s.task id) { ev_op = none; ev_added = false }) s
]

wake_terminated :
    (id : ℕ) (qs : List ℕ) (s : Scheduler) (rs : List ℕ)
    → id < s.buf_idx
    → (s.task id).suspended ≡ true
    → Kept qs s rs
    → Kept
        (qs ++ id ∷ [])
        (settled id
          (add_active id (update id (record (s.task id) { terminate = true; suspended = false }) s))
          (s.task id).ev_op)
        rs
wake_terminated id qs s rs lt susp k =
    let t : Task = record (s.task id) { terminate = true; suspended = false } in
    let s1 : Scheduler = update id t s in
    let s2 : Scheduler = add_active id s1 in
    let w : Woken id (qs ++ id ∷ []) s2 rs =
      wake-Woken id qs s1 rs
        (write-Waking id qs s rs t refl refl (Kept-Waking id qs s rs lt susp k)) in
    let st : state (s2.task id) ≡ state t =
      list_add-state id s1.active_task_id s1.task id ∙ ap state (set_task_self id t s.task) in
    let (b, fit) = Kept-Fits id qs s rs lt k in
    elim (Option-cases (s.task id).ev_op) [
      | inl z ↦
          subst (λ o. Kept (qs ++ id ∷ []) (settled id s2 o) rs) (sym z)
            (Woken-Kept id (qs ++ id ∷ []) s2 rs
              (Fits-state t (s2.task id) false st (refl, (λ y. z), (λ y. fit.2 z))) w)
      | inr (ev, z) ↦
          subst (λ o. Kept (qs ++ id ∷ []) (settled id s2 o) rs) (sym z)
            (write-Woken id (qs ++ id ∷ []) s2 rs
              (record (s2.task id) { ev_op = none; ev_added = false }) refl refl
              (ap (λ u. u.suspended) st, (λ y. refl), (λ y. refl)) w)
    ]

mark_terminated :
    (id : ℕ) (qs : List ℕ) (s : Scheduler) (rs : List ℕ)
    → id < s.buf_idx
    → (s.task id).suspended ≡ false
    → Kept qs s rs
    → Kept qs
        (settled id
          (update id (record (s.task id) { terminate = true; suspended = false }) s)
          (s.task id).ev_op)
        rs
mark_terminated id qs s rs lt calm k =
    let t : Task = record (s.task id) { terminate = true; suspended = false } in
    let (b, fit) = Kept-Fits id qs s rs lt k in
    subst (λ o. Kept qs (settled id (update id t s) o) rs) (sym (fit.1 calm))
      (write-Kept id t qs s rs refl refl (λ w f. (sym calm ∙ f.0, (λ y. f.1 calm), f.2)) lt k)

pub terminate-Kept :
    (id : ℕ) (qs : List ℕ) (s : Scheduler) (rs : List ℕ)
    → Kept qs s rs
    → Grown qs (terminate id s) rs
unfolding terminate
terminate-Kept id qs s rs k =
    let t : Task = s.task id in
    let s1 : Scheduler = update id (record t { terminate = true; suspended = false }) s in
    on_branches (λ u. Grown qs u rs) (not (ltb id s.buf_idx)) s
      (settled id (if t.suspended then add_active id s1 else s1) t.ev_op)
      (λ e. Kept-Grown qs s rs k)
      (λ e.
        let lt : id < s.buf_idx = ground (arith, e) in
        on_branches (λ u. Grown qs (settled id u t.ev_op) rs) t.suspended (add_active id s1) s1
          (λ y. (id ∷ [], wake_terminated id qs s rs lt y k))
          (λ y. Kept-Grown qs (settled id s1 t.ev_op) rs (mark_terminated id qs s rs lt y k)))
