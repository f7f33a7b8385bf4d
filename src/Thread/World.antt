-- ===== src/Thread/World.antt =====
-- All threads of all VMs, each at its place between the points where it enters or leaves the lock of
-- its VM. Threads are numbered as they are made, and their data are not freed. A step of a thread is
-- what it does to the data of threads; everything else that it does in Lua is no step.
use luasys.Base.{ℕ, ◌+◌, ◌<◌, ◌^◌, ◌≡◌, ◌≢◌, Bool, false, Option, none, some, ◌==◌, if◌then◌else◌}
use luasys.Thread.{Store, getvm, lock, unlock}
use luasys.Thread.Exit.{Exiting, waits_refs, leaves, close_or_wait, exit_thread, exit_ref}
use luasys.Thread.Create.{Creation, new_thread, init_vm, run_thread, runvm}
use luasys.Thread.Control.{
  Check, passes, exits, raises, check, set_interrupt, set_terminate, suspend_begin, resume_thread,
  wait_over, ends,
}
use luasys.DataPool.{WaitResult}

-- Where a thread is: created but not yet in its VM; inside, with the lock; outside, to enter it
-- again; in `thread_waitvm` at its end; past its own VM; or it has ended, or was not made yet. A
-- fake thread stands for a VM, and a failed one was never created.
pub data Place : Type 0 where
  starting inside outside closing left gone fake failed : Place

pub record World : Type 0 where
  pub store : Store
  pub place : ℕ → Place
  pub next : ℕ

abbrev pub put_place : ℕ → Place → World → World
put_place t p w = record w { place = λ b. if b == t then p else w.place b }

abbrev pub with_store : Store → World → World
with_store s w = record w { store = s }

abbrev pub IsFree : ℕ → World → Type 0
IsFree v w = (w.store.vm v).owner ≡ none

-- After the part of `thread_exit` in the own VM
abbrev pub after_exit : ℕ → Exiting × Store → World → World
after_exit t (waits_refs, s) w = put_place t closing (with_store s w)
after_exit t (leaves, s) w = put_place t left (with_store s w)

-- After a function that may end in `thread_exit` of the thread that calls it
abbrev pub after_check : (t top : ℕ) → Check × Store → World → World
after_check t top (passes, s) w = with_store s w
after_check t top (raises, s) w = with_store s w
after_check t top (exits, s) w = after_exit t (exit_thread t top s) w

abbrev pub place_made : Bool → Place
place_made ok = if ok then starting else failed

-- After `thread_run` and `thread_runvm`
abbrev pub after_run : Bool × Store → World → World
after_run (ok, s) w = record (put_place w.next (place_made ok) (with_store s w)) {
  next = w.next + 1;
}

abbrev pub after_runvm : Bool × Store → World → World
after_runvm (ok, s) w =
    record (put_place (w.next + 1) fake (put_place w.next (place_made ok) (with_store s w))) {
      next = w.next + 2;
    }

-- A creation that comes as far as to count the new thread. One that does not changes only data that
-- nobody else has.
abbrev pub IsCounted : Creation → Type 0
IsCounted Creation.no_memory = ⊥
IsCounted Creation.no_cond = Unit
IsCounted Creation.no_thread = Unit
IsCounted Creation.created = Unit

-- One thread runs, `t`. It is inside its VM, or enters a lock that is free. `thread_wait` is
-- `goes_out`, `comes_in` and `waited`, as often as its loop is run. When it finds that the thread
-- that it waits for was asked to end it is no step: it then runs `thread_exit` on the data of that
-- thread.
pub data Step (w : World) : World → Type 0 where
  starts :
      (t : ℕ)
      → w.place t ≡ starting
      → IsFree (getvm t w.store) w
      → Step w (put_place t inside (with_store (lock t (getvm t w.store) w.store) w))
  goes_out :
      (t : ℕ)
      → w.place t ≡ inside
      → Step w (put_place t outside (with_store (unlock (getvm t w.store) w.store) w))
  comes_in :
      (t : ℕ)
      → w.place t ≡ outside
      → IsFree (getvm t w.store) w
      → Step w (put_place t inside (with_store (lock t (getvm t w.store) w.store) w))
  checks : (t top : ℕ) → w.place t ≡ inside → Step w (after_check t top (check t w.store) w)
  runs :
      (t : ℕ) (c : Creation)
      → w.place t ≡ inside
      → IsCounted c
      → w.next + 1 < 2 ^ 32
      → Step w (after_run (run_thread c w.next t w.store) w)
  runs_vm :
      (t : ℕ) (c : Creation) (cpu : Option ℕ)
      → w.place t ≡ inside
      → IsCounted c
      → w.next + 2 < 2 ^ 32
      → Step w (after_runvm (runvm c w.next (w.next + 1) t cpu w.store) w)
  interrupts :
      (t top td : ℕ) (recover : Bool)
      → w.place t ≡ inside
      → td < w.next
      → Step w (after_check t top (set_interrupt t td recover w.store) w)
  terminates :
      (t top td status : ℕ)
      → w.place t ≡ inside
      → td < w.next
      → Step w (after_check t top (set_terminate t td status w.store) w)
  suspends : (t : ℕ) → w.place t ≡ inside → Step w (with_store (suspend_begin t w.store) w)
  resumes :
      (t td : ℕ)
      → w.place t ≡ inside
      → td < w.next
      → Step w (with_store (resume_thread td w.store) w)
  waited :
      (t td : ℕ) (r : WaitResult)
      → w.place t ≡ inside
      → td < w.next
      → (wait_over r td w.store).0 ≢ ends
      → Step w (with_store (wait_over r td w.store).1 w)
  returns : (t top : ℕ) → w.place t ≡ inside → Step w (after_exit t (exit_thread t top w.store) w)
  looks_again :
      (t : ℕ)
      → w.place t ≡ closing
      → t ≡ getvm t w.store
      → IsFree (getvm t w.store) w
      → Step w (after_exit t (close_or_wait t w.store) w)
  drops :
      (t r : ℕ)
      → w.place t ≡ left
      → (w.store.thread t).reftd ≡ some r
      → IsFree (getvm r w.store) w
      → Step w (put_place t gone (with_store (exit_ref t w.store) w))

pub data Reach (w : World) : World → Type 0 where
  here : Reach w w
  step : {x y : World} → Reach w x → Step x y → Reach w y

-- The process with its first thread in `thread_init`
abbrev no_store : Store
no_store = record {
  thread = λ a. new_thread 0 none;
  vm = λ a. record { owner = none; nref = 0; cpu = 0; stack_size = 0; closed = false };
}

unfoldable pub first_world : ℕ → World
unfolding init_vm
first_world stack_size = record {
  store = init_vm 0 stack_size no_store;
  place = λ a. if a == 0 then inside else gone;
  next = 1;
}
