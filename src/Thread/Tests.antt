-- ===== src/Thread/Tests.antt =====
-- Threads in concrete runs.
use luasys.Base.{ℕ, ◌<◌, ◌≡◌, ◌≢◌, refl, true, none, some, arith}
use luasys.DataPool.{signal, timeout}
use luasys.Thread.{getvm, lock, unlock, killed, unfake}
use luasys.Thread.Exit.{
  leaves, waits_refs, close_or_wait, exit_ref, exit_thread, set_status, leave_vm, drop_ref, end_ref,
}
use luasys.Thread.Create.{created, no_thread, init_vm, newvm, thread_new, run_thread, runvm}
use luasys.Thread.Control.{check, set_terminate, wait_begin, wait_over, waits, ends}
use luasys.Thread.World.{
  World, inside, outside, gone, runs, runs_vm, goes_out, starts, returns, drops, comes_in,
  put_place, with_store, after_run, after_runvm, after_exit, Reach, here, step, first_world,
}
use luasys.Thread.Counts.{refs_of}
use luasys.Thread.Shape.{IsRunning, IsOwing, IsPast}
use luasys.Thread.Closing.{Reach-counted, Reach-exclusive, Reach-closed, failed_waits}
use luasys.Thread.Fake.{fake_waits}
use luasys.Thread.Last.{last_closes}

abbrev start : World
start = first_world 65536

-- The first thread makes a VM: 1, with 2 to stand for it.
abbrev with_vm : World
with_vm = after_runvm (runvm created 1 2 0 none start.store) start

to_vm : Reach start with_vm
unfolding first_world
to_vm = step here (runs_vm 0 created none refl tt (omega arith))

-- The first thread makes a thread, 1, and gives up the lock; that one starts and returns.
abbrev made : World
made = after_run (run_thread created 1 0 start.store) start

abbrev out : World
out = put_place 0 outside (with_store (unlock 0 made.store) made)

abbrev entered : World
entered = put_place 1 inside (with_store (lock 1 0 out.store) out)

abbrev ended : World
ended = after_exit 1 (exit_thread 1 7 entered.store) entered

to_ended : Reach start ended
unfolding first_world init_vm newvm thread_new run_thread exit_thread set_status leave_vm
    close_or_wait
to_ended =
    step
      (step (step (step here (runs 0 created refl tt (omega arith))) (goes_out 0 refl))
        (starts 1 refl refl))
      (returns 1 7 refl)

-- It gives back its reference, and the first thread returns and closes the VM.
abbrev dropped : World
dropped = put_place 1 gone (with_store (exit_ref 1 ended.store) ended)

abbrev back : World
back = put_place 0 inside (with_store (lock 0 0 dropped.store) dropped)

abbrev closed : World
closed = after_exit 0 (exit_thread 0 3 back.store) back

to_closed : Reach start closed
unfolding first_world init_vm newvm thread_new run_thread exit_thread set_status leave_vm
    close_or_wait exit_ref drop_ref end_ref
to_closed =
    step (step (step to_ended (drops 1 0 refl refl refl)) (comes_in 0 refl refl)) (returns 0 3 refl)

-- A thread that cannot be created
abbrev without : World
without = after_run (run_thread no_thread 1 0 start.store) start

to_without : Reach start without
unfolding first_world
to_without = step here (runs 0 no_thread refl tt (omega arith))

Reach-counted_example : (ended.store.vm 0).nref ≡ refs_of 0 ended
Reach-counted_example = Reach-counted 65536 ended to_ended 0

Reach-exclusive_example :
    (◌≡◌ {A = ℕ} 1 1) × ((entered.store.vm (getvm 1 entered.store)).owner ≡ some 1)
unfolding first_world init_vm newvm thread_new run_thread
Reach-exclusive_example = Reach-exclusive 65536 entered to_entered 1 1 refl refl refl
  where
    to_entered : Reach start entered
    to_entered =
        step (step (step here (runs 0 created refl tt (omega arith))) (goes_out 0 refl))
          (starts 1 refl refl)

Reach-closed_example :
    ((t : ℕ) → t < closed.next → IsRunning (closed.place t) → getvm t closed.store ≢ 0)
    × ((t r : ℕ)
        → t < closed.next
        → IsOwing (closed.place t)
        → (closed.store.thread t).reftd ≡ some r
        → getvm r closed.store ≢ 0)
    × IsPast (closed.place 0)
unfolding first_world init_vm newvm thread_new run_thread exit_thread set_status leave_vm
    close_or_wait exit_ref drop_ref end_ref
Reach-closed_example = Reach-closed 65536 closed to_closed 0 refl

failed_waits_example :
    ((close_or_wait 0 without.store).0 ≡ waits_refs) × ((without.store.vm 0).closed ≢ true)
unfolding first_world init_vm newvm thread_new run_thread
failed_waits_example = failed_waits 65536 without without 1 0 to_without here refl refl

fake_waits_example :
    (wait_begin 2 with_vm.store ≡ waits) × ((wait_over signal 2 with_vm.store).0 ≡ waits)
unfolding first_world init_vm runvm newvm thread_new
fake_waits_example = fake_waits 65536 with_vm 2 to_vm refl

last_closes_example :
    ((ended.store.thread 0).wakes < ((exit_ref 1 ended.store).thread 0).wakes)
    × ((close_or_wait 0 (exit_ref 1 ended.store)).0 ≡ leaves)
    × (((close_or_wait 0 (exit_ref 1 ended.store)).1.vm 0).closed ≡ true)
unfolding first_world init_vm newvm thread_new run_thread exit_thread set_status leave_vm
    close_or_wait
last_closes_example = last_closes 65536 ended 1 0 to_ended refl refl refl

-- Thread 1 is asked to terminate. Before it sees this, a wait for it with a timeout is over: the
-- check in `thread_wait` ends the thread that waits, and marks 1 as ended.
wait_ends :
    let s = (set_terminate 0 1 5 made.store).1 in
    ((wait_over timeout 1 s).0 ≡ ends) × (((wait_over timeout 1 s).1.thread 1).flags ≡ killed)
unfolding first_world init_vm newvm thread_new run_thread set_terminate unfake wait_over check
wait_ends = (refl, refl)
