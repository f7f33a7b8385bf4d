-- ===== src/Sched/Invariant.antt =====
-- In every state that a new scheduler comes to, each task is in one place.
use luasys.Base.{
  ℕ, ◌+◌, ◌-◌, ◌^◌, ◌%◌, ◌≡◌, refl, none, some, List, [], ◌∷◌, not, ◌&&◌, ◌==◌, arith, append-nil,
  append_assoc, ◌++◌, sym, ap, ◌∙◌,
}
use luasys.TaskList.{Tasks}
use luasys.TaskList.Times.{erase}
use luasys.Sched.{
  Scheduler, new, leave, enter, stop_work, after_events, after_signal, vm_switch, put, pick,
  after_resume, yielded, Picked, stopped, idle, waits_events, waits_signal, deleted, runs,
}
use luasys.Sched.Methods.{resume, terminate, event_add, event_added, event_ready}
use luasys.Sched.Calls.{
  running-Fits, suspend-Kept, wait-Kept, wait_added-Kept, resume-Kept, terminate-Kept,
}
use luasys.Sched.Events.{event_ready-Kept, event_added-Kept}
use luasys.Sched.Keeps.{Kept, Grown, Kept-core, core-signal, put-PutResult, PutResult-Grown}
use luasys.Sched.Owned.{core}
use luasys.Sched.Rounds.{before_round, Turned, pick-Kept, after_resume-Kept}
use luasys.Sched.Steps.{
  System, Step, puts, picks, returns, suspends, waits, waits_added, resumes, terminates, event_adds,
  event_readies, start, after_put, after_try, enters, leaves, stops, polled, signalled, switches,
  Reach, here, next, Obeys, AllObey,
}

pub leave-core : (s : Scheduler) → core (leave s) ≡ core s
unfolding leave
leave-core s =
    let s1 : Scheduler = record s { ctx = none; nworkers = (s.nworkers + (2 ^ 16 - 1)) % 2 ^ 16 } in
    core-signal (not s.stop && not s.evq_waiting && s.has_evq && s1.nwaiters == s1.nworkers) s1

-- The task that a step takes off the active ones, if it is a round that finds one.
abbrev pub taken_by : Picked → List ℕ
taken_by (runs id) = id ∷ []
taken_by (deleted id) = id ∷ []
taken_by stopped = []
taken_by idle = []
taken_by waits_events = []
taken_by waits_signal = []

abbrev pub step_taken : {s t : System} → Step s t → List ℕ
step_taken (puts m co lt) = []
step_taken (picks {s} n) = taken_by (pick n s).0
step_taken (returns r id h) = []
step_taken (suspends id co h e q) = []
step_taken (waits id op h) = []
step_taken (waits_added id op ev h) = []
step_taken (resumes id) = []
step_taken (terminates id) = []
step_taken (event_adds id op ev lt e) = []
step_taken (event_readies id ev lt) = []
step_taken enters = []
step_taken leaves = []
step_taken (stops b) = []
step_taken polled = []
step_taken signalled = []
step_taken (switches c b) = []

-- The tasks that a run of steps takes, in its order.
abbrev pub taken : {s t : System} → Reach s t → List ℕ
taken here = []
taken (next r st) = taken r ++ step_taken st

-- What `qs` and those that became active after them have in front, `xs` were taken, and the rest is
-- active.
abbrev pub Served : List ℕ → List ℕ → System → Type 0
Served qs xs t = (new : List ℕ) × (bs : List ℕ) × (qs ++ new ≡ xs ++ bs) × Kept bs t.sched t.running

Grown-Served :
    (qs : List ℕ) (s : Scheduler) (rs : List ℕ)
    → Grown qs s rs
    → Served qs [] (record { sched = s; running = rs })
Grown-Served qs s rs (new, k) = (new, qs ++ new, refl, k)

Kept-Served :
    (qs : List ℕ) (s : Scheduler) (rs : List ℕ)
    → Kept qs s rs
    → Served qs [] (record { sched = s; running = rs })
Kept-Served qs s rs k = ([], qs, append-nil qs, k)

before_round-taken_by : (p : Picked) (bs : List ℕ) → before_round p bs ≡ taken_by p ++ bs
before_round-taken_by (runs id) bs = refl
before_round-taken_by (deleted id) bs = refl
before_round-taken_by stopped bs = refl
before_round-taken_by idle bs = refl
before_round-taken_by waits_events bs = refl
before_round-taken_by waits_signal bs = refl

Turned-Served :
    (qs : List ℕ) (r : Picked × Scheduler) (rs : List ℕ)
    → Turned qs r rs
    → Served qs (taken_by r.0) (record { sched = r.1; running = start r.0 rs })
Turned-Served qs r rs (bs, e, k) = ([], bs, append-nil qs ∙ e ∙ before_round-taken_by r.0 bs, k)

Step-Served :
    {s t : System} (st : Step s t) (qs : List ℕ)
    → Obeys st
    → Kept qs s.sched s.running
    → Served qs (step_taken st) t
unfolding stop_work enter after_events after_signal vm_switch
Step-Served (puts {s} {rs} m co lt) qs o k =
    Grown-Served qs (after_put (put m co s) s) rs
      (PutResult-Grown m co qs s rs (put m co s) k (put-PutResult m co qs s rs lt k))
Step-Served (picks {s} {rs} n) qs o k = Turned-Served qs (pick n s) rs (pick-Kept n qs s rs k)
Step-Served (returns {s} {rs} r id h) qs o k =
    Grown-Served qs (after_resume r id s) (erase id rs)
      (after_resume-Kept r id qs s rs h (running-Fits id qs s rs h k).0 k)
Step-Served (suspends {s} {s1} {rs} id co h e q) qs n k =
    Kept-Served qs (after_resume yielded id s1) (erase id rs)
      (suspend-Kept id co qs s s1 rs h e n q k)
Step-Served (waits {s} {rs} id op h) qs n k =
    Kept-Served qs (after_resume yielded id (event_add id op s).1) (erase id rs)
      (wait-Kept id op qs s rs h n k)
Step-Served (waits_added {s} {rs} id op ev h) qs n k =
    Kept-Served qs (after_resume yielded id (event_add id op (event_added id (some ev) s)).1)
      (erase id rs) (wait_added-Kept id op ev qs s rs h n k)
Step-Served (resumes {s} {rs} id) qs o k =
    Grown-Served qs (after_try (resume id s) s) rs (resume-Kept id qs s rs k)
Step-Served (terminates {s} {rs} id) qs o k =
    Grown-Served qs (terminate id s) rs (terminate-Kept id qs s rs k)
Step-Served (event_adds {s} {rs} id op ev lt e) qs o k =
    Grown-Served qs (event_added id ev s) rs (event_added-Kept id op ev qs s rs lt e k)
Step-Served (event_readies {s} {rs} id ev lt) qs o k =
    Grown-Served qs (event_ready id (some ev) s) rs (event_ready-Kept id ev qs s rs lt k)
Step-Served (enters {s} {rs}) qs o k = Kept-Served qs (enter s) rs k
Step-Served (leaves {s} {rs}) qs o k =
    Kept-Served qs (leave s) rs (Kept-core qs s (leave s) rs (leave-core s) k)
Step-Served (stops {s} {rs} b) qs o k = Kept-Served qs (stop_work b s) rs k
Step-Served (polled {s} {rs}) qs o k = Kept-Served qs (after_events s) rs k
Step-Served (signalled {s} {rs}) qs o k = Kept-Served qs (after_signal s) rs k
Step-Served (switches {s} {rs} c b) qs o k = Kept-Served qs (vm_switch c b s) rs k

-- In every run of rounds of the loop and of calls of the methods in which no coroutine that was asked
-- to terminate suspends itself or waits for an event, and no task is put while the buffer has 2 ^ 30
-- tasks, tasks are taken off the active
-- ones in the order in which they became active: those that were active at first and those that
-- became so later are, in this order, the ones taken and the ones still active. Each task of the
-- buffer stays in one place.
pub Reach-Served :
    {s t : System} (r : Reach s t) (qs : List ℕ)
    → AllObey r
    → Kept qs s.sched s.running
    → Served qs (taken r) t
Reach-Served {s} here qs o k = Kept-Served qs s.sched s.running k
Reach-Served (next r st) qs (o, o1) k =
    let (new, bs, e, k1) = Reach-Served r qs o k in
    let (more, cs, e2, k2) = Step-Served st bs o1 k1 in
    (
      new ++ more,
      cs,
      sym (append_assoc qs new more)
          ∙ ap (λ l. l ++ more) e
          ∙ append_assoc (taken r) bs more
          ∙ ap (λ l. taken r ++ l) e2
          ∙ sym (append_assoc (taken r) (step_taken st) cs),
      k2,
    )

pub new-Kept :
    (min_workers max_workers worker_timeout : ℕ) (ts : Tasks)
    → Kept [] (new min_workers max_workers worker_timeout ts) []
unfolding new
new-Kept m n w ts = (
  [],
  [],
  (
    record {
      rings = (refl, refl, λ x. omega arith);
      once = λ x. ground arith;
      live = omega arith;
      all = omega arith;
      room = omega arith;
      range = omega arith;
    },
    (λ x lt. absurd (omega arith)),
  ),
)
