-- ===== src/Sched/Owned.antt =====
-- Where the tasks of a scheduler are: in the circular list of active tasks, in that of free ones,
-- run by a worker thread, or suspended.
use luasys.Base.{
  ℕ, ◌+◌, ◌≤◌, ◌<◌, ◌^◌, ◌≡◌, ◌≢◌, Bool, false, Option, none, List, [], ◌∷◌, ◌++◌, length, ltb,
  arith, sym, subst,
}
use luasys.TaskList.{Task, Tasks, set_task, list_add, list_del}
use luasys.TaskList.Ring.{IsRing, list_add-IsRing, list_del-IsRing}
use luasys.TaskList.Links.{
  IsRing-Unchanged, Unchanged, Unchanged-all, list_add-links, list_del-links, state,
}
use luasys.TaskList.Times.{one_if, times, times-append, NotIn-times, Apart-times}
use luasys.Sched.{Scheduler}

-- The fields of a scheduler that say where its tasks are.
pub record Core : Type 0 where
  pub task : Tasks
  pub active : Option ℕ
  pub free : Option ℕ
  pub ntasks : ℕ
  pub buf_idx : ℕ
  pub buf_max : ℕ

abbrev pub core : Scheduler → Core
core s = record {
  task = s.task;
  active = s.active_task_id;
  free = s.free_task_id;
  ntasks = s.ntasks;
  buf_idx = s.buf_idx;
  buf_max = s.buf_max;
}

-- A task's flags, when it is (`true`) or is not suspended: one that is not waits for no event.
abbrev pub Fits : Task → Bool → Type 0
Fits t w =
    (t.suspended ≡ w)
    × (t.suspended ≡ false → t.ev_op ≡ none)
    × (t.ev_op ≡ none → t.ev_added ≡ false)

-- The two circular lists, with no task in both or twice in one.
abbrev pub Rings : Core → List ℕ → List ℕ → Type 0
Rings c qs fs =
    IsRing c.task c.active qs × IsRing c.task c.free fs × ((x : ℕ) → times x qs + times x fs ≤ 1)

-- The four places of the tasks: active, free, running, suspended.
pub record Places : Type 0 where
  pub active : List ℕ
  pub free : List ℕ
  pub running : List ℕ
  pub suspended : List ℕ

abbrev pub everywhere : ℕ → Places → ℕ
everywhere x p = times x p.active + times x p.free + times x p.running + times x p.suspended

-- Each task of the buffer is in one place, `ntasks` counts those that are not free, and the buffer's
-- indexes are in the range of `int`.
pub record Placed (c : Core) (p : Places) : Type 0 where
  pub rings : Rings c p.active p.free
  pub once : (x : ℕ) → everywhere x p ≡ one_if (ltb x c.buf_idx)
  pub live : c.ntasks ≡ length p.active + length p.running + length p.suspended
  pub all : c.ntasks + length p.free ≡ c.buf_idx
  pub room : c.buf_idx ≤ c.buf_max
  pub range : c.buf_max < 2 ^ 31

-- The flags of each task say whether it is suspended.
abbrev pub Flags : Tasks → ℕ → List ℕ → Type 0
Flags ts b ws = (x : ℕ) → x < b → Fits (ts x) (ltb 0 (times x ws))

abbrev pub Owned : Core → Places → Type 0
Owned c p = Placed c p × Flags c.task c.buf_idx p.suspended

pub Fits-state : (t u : Task) (w : Bool) → state u ≡ state t → Fits t w → Fits u w
Fits-state t u w e f = subst (λ v. Fits v w) (sym e) f

-- A write to a task that leaves its links alone.
module _ (id : ℕ) (t : Task) (ts : Tasks) (n : t.next_id ≡ (ts id).next_id)
    (p : t.prev_id ≡ (ts id).prev_id) (j : ℕ) where
  pub set_task-links :
      ((set_task id t ts j).next_id ≡ (ts j).next_id)
      × ((set_task id t ts j).prev_id ≡ (ts j).prev_id)
  unfolding set_task
  set_task-links = (ground arith, ground arith)

pub set_task_self : (id : ℕ) (t : Task) (ts : Tasks) → set_task id t ts id ≡ t
unfolding set_task
set_task_self id t ts = ground arith

pub set_task-other : (id : ℕ) (t : Task) (ts : Tasks) (j : ℕ) → j ≢ id → set_task id t ts j ≡ ts j
unfolding set_task
set_task-other id t ts j ne = ground arith

Unchanged-links :
    (os : List ℕ) (ts ts' : Tasks)
    → ((j : ℕ) → ((ts' j).next_id ≡ (ts j).next_id) × ((ts' j).prev_id ≡ (ts j).prev_id))
    → Unchanged ts ts' os
Unchanged-links [] ts ts' f = tt
Unchanged-links (o ∷ os) ts ts' f = let (a, b) = f o in (a, b, Unchanged-links os ts ts' f)

pub Rings-links :
    (c d : Core) (qs fs : List ℕ)
    → d.active ≡ c.active
    → d.free ≡ c.free
    → ((j : ℕ)
        → ((d.task j).next_id ≡ (c.task j).next_id) × ((d.task j).prev_id ≡ (c.task j).prev_id))
    → Rings c qs fs
    → Rings d qs fs
Rings-links c d qs fs e1 e2 f (a, b, o) = (
  subst (λ h. IsRing d.task h qs) (sym e1)
      (IsRing-Unchanged qs c.active c.task d.task (Unchanged-links qs c.task d.task f) a),
  subst (λ h. IsRing d.task h fs) (sym e2)
      (IsRing-Unchanged fs c.free c.task d.task (Unchanged-links fs c.task d.task f) b),
  o,
)

-- `sched_tasklist_add` of a task that is in neither list.
abbrev pub core_add : ℕ → Core → Core
core_add id c = let (h, ts) = list_add id c.active c.task in record c { active = h; task = ts }

abbrev pub core_free : ℕ → Core → Core
core_free id c = let (h, ts) = list_add id c.free c.task in record c { free = h; task = ts }

abbrev pub swap : Core → Core
swap c = record c { active = c.free; free = c.active }

pub Rings-swap : (c : Core) (qs fs : List ℕ) → Rings c qs fs → Rings (swap c) fs qs
Rings-swap c qs fs (a, f, o) = (f, a, λ x. omega (arith, o x))

pub core_add-Rings :
    (id : ℕ) (c : Core) (qs fs : List ℕ)
    → times id qs + times id fs ≡ 0
    → Rings c qs fs
    → Rings (core_add id c) (qs ++ id ∷ []) fs
core_add-Rings id c qs fs z (a, f, o) = (
  list_add-IsRing id c.active qs c.task a (NotIn-times qs id (omega arith)),
  IsRing-Unchanged fs c.free c.task (list_add id c.active c.task).1
      (Unchanged-all fs c.task (list_add id c.active c.task).1 (id ∷ qs)
        (λ j n. list_add-links id c.active qs c.task j a n)
        (Apart-times (id ∷ qs) fs (λ x. ground (arith, o x))))
      f,
  λ x. ground (arith, o x, times-append qs (id ∷ []) x),
)

pub core_del-Rings :
    (id : ℕ) (c : Core) (bs fs : List ℕ)
    → Rings c (id ∷ bs) fs
    → (let (h, ts) = list_del id c.active c.task in
        Rings (record c { active = h; task = ts }) bs fs)
core_del-Rings id c bs fs (a, f, o) = (
  list_del-IsRing id c.active bs c.task a,
  IsRing-Unchanged fs c.free c.task (list_del id c.active c.task).1
      (Unchanged-all fs c.task (list_del id c.active c.task).1 (id ∷ bs)
        (λ j n. list_del-links id c.active bs c.task j a n) (Apart-times (id ∷ bs) fs o))
      f,
  λ x. omega (arith, o x),
)
