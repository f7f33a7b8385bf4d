-- ===== src/Sched/Tests.antt =====
-- The scheduler at concrete inputs.
use luasys.Base.{
  ℕ, ◌==◌, ◌<◌, ◌≤◌, ◌^◌, ◌≡◌, ◌≢◌, refl, true, none, some, List, [], ◌∷◌, arith, if◌then◌else◌,
}
use luasys.TaskList.{Tasks, set_task, list_add, list_del}
use luasys.TaskList.Ring.{IsRing, list_add-IsRing, list_del-IsRing}
use luasys.TaskList.Times.{times}
use luasys.Sched.{
  Scheduler, new_task, new, put, pick, runs, after_resume, yielded, task_del, task_alloc, insert,
  pick_task, alloc_end,
}
use luasys.Sched.Methods.{terminate, suspend, resume, size}
use luasys.Sched.Fair.{fresh, fresh-Kept, fresh-bounds, pick-first, resume_deleted}
use luasys.Sched.Invariant.{taken, Served, Reach-Served, new-Kept}
use luasys.Sched.Keeps.{Kept, PutResult, put-PutResult}
use luasys.Sched.Steps.{puts, picks, returns, Reach, here, next, after_put, after_try}

abbrev no_tasks : Tasks
no_tasks i = new_task 0

abbrev empty : Scheduler
empty = new 0 4 3000 no_tasks

abbrev one : Scheduler
one = after_put (put true 11 empty) empty

abbrev two : Scheduler
two = after_put (put true 22 one) one

one-Kept : Kept (0 ∷ []) one []
unfolding new put task_alloc alloc_end insert list_add set_task
one-Kept = (put-PutResult true 11 [] empty [] (omega arith) (new-Kept 0 4 3000 no_tasks)).3

two-Kept : Kept (0 ∷ 1 ∷ []) two []
unfolding new put task_alloc alloc_end insert list_add set_task
two-Kept = (put-PutResult true 22 (0 ∷ []) one [] (omega arith) one-Kept).3

-- Two coroutines are put, the first is run and yields, the second is run.
abbrev two_puts : Reach (fresh 0 4 3000 no_tasks) (record { sched = two; running = [] })
unfolding new put task_alloc alloc_end insert list_add set_task
two_puts = next (next here (puts true 11 (omega arith))) (puts true 22 (omega arith))

abbrev turn :
    Reach
      (record { sched = two; running = [] })
      (record {
        sched = (pick true (after_resume yielded 0 (pick true two).1)).1;
        running = 1 ∷ [];
      })
unfolding new put task_alloc alloc_end insert list_add set_task pick pick_task list_del after_resume
    task_del
turn = next (next (next here (picks true)) (returns yielded 0 (omega arith))) (picks true)

turn-taken : taken turn ≡ 0 ∷ 1 ∷ []
unfolding new put task_alloc alloc_end insert list_add set_task pick pick_task list_del after_resume
    task_del
turn-taken = refl

fresh-Kept_example : (qs : List ℕ) × Kept qs two []
unfolding two_puts
fresh-Kept_example = fresh-Kept 0 4 3000 no_tasks two_puts ((tt, tt), tt)

fresh-bounds_example :
    ((id : ℕ) → two.active_task_id ≡ some id → id < two.buf_idx)
    × ((id : ℕ) → two.free_task_id ≡ some id → id < two.buf_idx)
    × ((id : ℕ) → 1 ≤ times id [] → id < two.buf_idx)
    × (two.buf_idx ≤ two.buf_max)
    × (two.buf_max < 2 ^ 31)
unfolding two_puts
fresh-bounds_example = fresh-bounds 0 4 3000 no_tasks two_puts ((tt, tt), tt)

Reach-Served_example :
    Served (0 ∷ 1 ∷ []) (taken turn) (record {
      sched = (pick true (after_resume yielded 0 (pick true two).1)).1;
      running = 1 ∷ [];
    })
unfolding turn
Reach-Served_example = Reach-Served turn (0 ∷ 1 ∷ []) (((tt, tt), tt), tt) two-Kept

pick-first_example : (pick true two).0 ≡ runs 0
unfolding new put task_alloc alloc_end insert list_add set_task
pick-first_example = pick-first true 0 (1 ∷ []) two [] two-Kept refl

put-PutResult_example : PutResult true 33 (0 ∷ 1 ∷ []) two [] (put true 33 two)
unfolding new put task_alloc alloc_end insert list_add set_task
put-PutResult_example = put-PutResult true 33 (0 ∷ 1 ∷ []) two [] (omega arith) two-Kept

-- The first coroutine asks for its own termination, and then suspends itself.
abbrev self_ended : Scheduler
self_ended = let s = terminate 0 (pick true two).1 in after_try (suspend 11 s) s

resume_deleted_example :
    (after_resume yielded 0 self_ended
      ≡ task_del 0 (record self_ended { ctx = some (record { co = none; task_id = 0 }) }))
    × (resume 0 (after_resume yielded 0 self_ended) ≢ none)
unfolding new put task_alloc alloc_end insert list_add set_task pick pick_task list_del terminate
    suspend
resume_deleted_example = resume_deleted 0 self_ended (omega arith) refl refl refl

-- After a resume of the deleted task, it is at the head of the free list and behind the active one.
abbrev doubled : Scheduler
doubled = let s = after_resume yielded 0 self_ended in after_try (resume 0 s) s

doubled-in_both :
    (doubled.free_task_id ≡ some 0) × ((doubled.task 1).next_id ≡ 0) × (size doubled ≡ 1)
unfolding new put task_alloc alloc_end insert list_add set_task pick pick_task list_del terminate
    suspend after_resume task_del resume size
doubled-in_both = (refl, refl, refl)

-- Tasks 3 and 5 in a list, and 4 added to them.
abbrev pair_of : Tasks
pair_of i =
    if i == 3
    then record (new_task 33) { prev_id = 5; next_id = 5 }
    else (if i == 5 then record (new_task 55) { prev_id = 3; next_id = 3 } else new_task 0)

pair-IsRing : IsRing pair_of (some 3) (3 ∷ 5 ∷ [])
pair-IsRing = (refl, (refl, refl, tt), refl, refl, (((λ e. absurd (omega arith)), tt), (tt, tt)))

list_add-IsRing_example :
    IsRing (list_add 4 (some 3) pair_of).1 (list_add 4 (some 3) pair_of).0 (3 ∷ 5 ∷ 4 ∷ [])
list_add-IsRing_example =
    list_add-IsRing 4 (some 3) (3 ∷ 5 ∷ []) pair_of pair-IsRing
      ((λ e. absurd (omega arith)), ((λ e. absurd (omega arith)), tt))

list_del-IsRing_example :
    IsRing (list_del 3 (some 3) pair_of).1 (list_del 3 (some 3) pair_of).0 (5 ∷ [])
list_del-IsRing_example = list_del-IsRing 3 (some 3) (5 ∷ []) pair_of pair-IsRing
