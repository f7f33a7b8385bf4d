-- ===== src/Thread/Fake.antt =====
-- The thread that `thread_runvm` returns, which stands for the main thread of the new VM, is never
-- marked as ended.
use luasys.Base.{
  ℕ, suc, ◌+◌, ◌<◌, ◌≡◌, ◌≢◌, refl, sym, ◌∙◌, ap, subst, ◌==◌, if◌then◌else◌, on_branches, arith,
}
use luasys.Thread.{Store, unfake}
use luasys.Thread.Exit.{Exiting, waits_refs, leaves, exit_thread, close_or_wait}
use luasys.Thread.Create.{runvm, init_vm, newvm}
use luasys.Thread.Control.{
  Check, passes, raises, exits, check, set_interrupt, set_terminate, suspend_begin, resume_thread,
  wait_begin, wait_over, waits,
}
use luasys.DataPool.{signal}
use luasys.Thread.World.{
  World, Place, inside, gone, fake, with_store, after_exit, after_check, Step, starts, goes_out,
  comes_in, checks, runs, runs_vm, interrupts, terminates, suspends, resumes, waited, returns,
  looks_again, drops, Reach, here, step, first_world,
}
use luasys.Thread.Shape.{IsOwing, IsValid}
use luasys.Thread.Flags.{
  Untouched, unfake-other, check-Untouched, set_interrupt-Untouched, set_terminate-Untouched,
  suspend_begin-Untouched, resume_thread-Untouched, exit_thread-Untouched, close_or_wait-Untouched,
  exit_ref-Untouched, run_thread-Untouched, runvm-Untouched, fake-flags,
}
use luasys.Thread.Stands.{Stands, Same-Stands, Moves-Stands, Runs-Stands, RunsVm-Stands}
use luasys.Thread.Calm.{
  Calm, Calm-refl, check-Calm, set_interrupt-Calm, set_terminate-Calm, suspend_begin-Calm,
  resume_thread-Calm, wait_over-Calm, wait_over-same,
}
use luasys.Thread.Going.{
  Goes, enter-Goes, leave-Goes, stay-Moves, exit_thread-Goes, close_or_wait-Goes, after_check-Goes,
}
use luasys.Thread.Made.{run_thread-Runs}
use luasys.Thread.NewVm.{runvm-RunsVm}
use luasys.Thread.Dropping.{exit_ref-Drops}
use luasys.Thread.Invariant.{place-next, inside-next, Reach-IsValid}

after_exit-Untouched :
    (u t : ℕ) (w : World) (r : Exiting × Store) → Untouched u r.1 (after_exit t r w).store
after_exit-Untouched u t w (waits_refs, s) = refl
after_exit-Untouched u t w (leaves, s) = refl

-- A function in thread `t` that may end in `thread_exit` leaves the flags of others.
after_check-Untouched :
    (u t top : ℕ) (w : World) (c : Check) (s : Store)
    → u ≢ t
    → Untouched u w.store s
    → Untouched u w.store (after_check t top (c, s) w).store
after_check-Untouched u t top w passes s ne h = h
after_check-Untouched u t top w raises s ne h = h
after_check-Untouched u t top w exits s ne h =
    after_exit-Untouched u t w (exit_thread t top s) ∙ exit_thread-Untouched u t top s ne ∙ h

module _ (w : World) (v : IsValid w) (k : Stands w) where
  -- A thread at another place does not stand for a VM.
  other_than : (t u : ℕ) (p : Place) → w.place t ≡ p → IsOwing p → w.place u ≡ fake → u ≢ t
  other_than t u p at owing f d = subst IsOwing (sym at ∙ ap w.place (sym d) ∙ f) owing

  aimed_at : (td u : ℕ) → td < w.next → w.place u ≡ fake → u ≢ unfake td w.store
  aimed_at td u lt f =
      unfake-other u td w.store (k.own u f) (λ r e d. k.unref td r lt e (ap w.place (sym d) ∙ f))
        (k.ref u f)

  Goes-Stands :
      (t : ℕ) (w' : World)
      → Goes t w w'
      → ((u : ℕ) → w.place u ≡ fake → Untouched u w.store w'.store)
      → Stands w'
  Goes-Stands t w' (q, m, owing) h = Moves-Stands t q w w' k m owing h

  check-Stands :
      (t top : ℕ) (r : Check × Store)
      → w.place t ≡ inside
      → Calm w.store r.1
      → ((u : ℕ) → w.place u ≡ fake → Untouched u w.store r.1)
      → Stands (after_check t top r w)
  check-Stands t top (c, s) at calm h =
      Goes-Stands t _ (after_check-Goes t top w c s calm at (v.locked t at))
        (λ u f. after_check-Untouched u t top w c s (other_than t u inside at tt f) (h u f))

  stay-Stands :
      (t : ℕ) (s : Store)
      → w.place t ≡ inside
      → Calm w.store s
      → ((u : ℕ) → w.place u ≡ fake → Untouched u w.store s)
      → Stands (with_store s w)
  stay-Stands t s at calm h =
      Goes-Stands t _ (inside, stay-Moves t w s calm at (v.locked t at), tt) h

Step-Stands : {w w' : World} → IsValid w → Stands w → Step w w' → Stands w'
Step-Stands {w} v k (starts t at free) = Goes-Stands w v k t _ (enter-Goes t w) (λ u _. refl)
Step-Stands {w} v k (comes_in t at free) = Goes-Stands w v k t _ (enter-Goes t w) (λ u _. refl)
Step-Stands {w} v k (goes_out t at) = Goes-Stands w v k t _ (leave-Goes t w) (λ u _. refl)
Step-Stands {w} v k (checks t top at) =
    check-Stands w v k t top (check t w.store) at (check-Calm t w.store)
      (λ u f. check-Untouched u t w.store (other_than w v k t u inside at tt f))
Step-Stands {w} v k (interrupts t top td recover at l) =
    check-Stands w v k t top (set_interrupt t td recover w.store) at
      (set_interrupt-Calm t td recover w.store)
      (λ u f. set_interrupt-Untouched u t td recover w.store (aimed_at w v k td u l f))
Step-Stands {w} v k (terminates t top td status at l) =
    check-Stands w v k t top (set_terminate t td status w.store) at
      (set_terminate-Calm t td status w.store)
      (λ u f. set_terminate-Untouched u t td status w.store (aimed_at w v k td u l f))
Step-Stands {w} v k (suspends t at) =
    stay-Stands w v k t (suspend_begin t w.store) at (suspend_begin-Calm t w.store)
      (λ u f. suspend_begin-Untouched u t w.store)
Step-Stands {w} v k (resumes t td at l) =
    stay-Stands w v k t (resume_thread td w.store) at (resume_thread-Calm td w.store)
      (λ u f. resume_thread-Untouched u td w.store)
Step-Stands {w} v k (waited t td r at l ne) =
    stay-Stands w v k t (wait_over r td w.store).1 at (wait_over-Calm r td w.store ne)
      (λ u f. ap (λ (s : Store). (s.thread u).flags) (wait_over-same r td w.store ne))
Step-Stands {w} v k (returns t top at) =
    Goes-Stands w v k t _ (exit_thread-Goes t top w w.store (Calm-refl w.store)) (λ u f.
      after_exit-Untouched u t w (exit_thread t top w.store)
      ∙ exit_thread-Untouched u t top w.store (other_than w v k t u inside at tt f))
Step-Stands {w} v k (looks_again t at m free) =
    Goes-Stands w v k t _ (close_or_wait-Goes t w w.store (Calm-refl w.store) m) (λ u f.
      after_exit-Untouched u t w (close_or_wait t w.store) ∙ close_or_wait-Untouched u t w.store)
Step-Stands {w} v k (runs t c at counted room) =
    let lt = inside-next w t v at in
    Runs-Stands t w _ v k lt (run_thread-Runs t c w lt counted)
      (λ u ne. run_thread-Untouched u c w.next t w.store ne)
Step-Stands {w} v k (runs_vm t c cpu at counted room) =
    let lt = inside-next w t v at in
    RunsVm-Stands t w _ v k lt at (runvm-RunsVm t c cpu w lt (v.vms t lt).0 counted)
      (λ u ne nf. runvm-Untouched u c w.next (w.next + 1) t cpu w.store ne (λ d. nf (omega arith)))
      (let same : w.next + 1 ≡ suc w.next = omega arith in
        subst (λ x. ((runvm c w.next (w.next + 1) t cpu w.store).1.thread x).flags ≡ 0) same
          (fake-flags c w.next (w.next + 1) t cpu w.store counted))
Step-Stands {w} v k (drops t r at e free) =
    Same-Stands w _ k (exit_ref-Drops t r w.store e).same refl back (λ u f.
      exit_ref-Untouched u t r w.store e (λ d.
        k.unref t r (place-next w t v (subst IsOwing (sym at) tt)) e (ap w.place (sym d) ∙ f)))
  where
    back : (u : ℕ) → (if u == t then gone else w.place u) ≡ fake → w.place u ≡ fake
    back u =
        on_branches (λ p. p ≡ fake → w.place u ≡ fake) (u == t) gone (w.place u) (λ _ f. absurd cc)
          (λ _ f. f)

first_world-Stands : (stack_size : ℕ) → Stands (first_world stack_size)
unfolding first_world init_vm newvm
first_world-Stands stack_size = record {
  own = λ u f. absurd (ground arith);
  ref = λ u f. absurd (ground arith);
  unref = λ t r lt e. absurd (ground arith);
  flags = λ u f. absurd (ground arith);
}

Reach-Stands : (stack_size : ℕ) (w : World) → Reach (first_world stack_size) w → Stands w
Reach-Stands stack_size w here = first_world-Stands stack_size
Reach-Stands stack_size w (step {x} r st) =
    Step-Stands (Reach-IsValid stack_size x r) (Reach-Stands stack_size x r) st

-- In every run, a call of `thread_wait` on the thread that `thread_runvm` has returned waits, and
-- waits again after each signal, as the flags of this thread are never set: also when the thread of
-- the new VM has ended.
pub fake_waits :
    (stack_size : ℕ) (w : World) (u : ℕ)
    → Reach (first_world stack_size) w
    → w.place u ≡ fake
    → (wait_begin u w.store ≡ waits) × ((wait_over signal u w.store).0 ≡ waits)
unfolding wait_begin wait_over check
fake_waits stack_size w u r f =
    let k = Reach-Stands stack_size w r in
    let own = k.own u f in let flags = k.flags u f in (ground arith, ground arith)
