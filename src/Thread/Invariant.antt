-- ===== src/Thread/Invariant.antt =====
-- What holds between the steps holds in every run from the first thread's start.
use luasys.Base.{
  some-inj, ℕ, ◌≤◌, ◌<◌, ◌^◌, ◌≡◌, ◌≢◌, refl, sym, ◌∙◌, ap, subst, Bool-cases, ltb, ltb→lt, inl,
  inr, none, some, arith, ==_iff, if◌then◌else◌,
}
use luasys.Thread.{Store, getvm, lock}
use luasys.Thread.Create.{init_vm, newvm}
use luasys.Thread.Control.{
  Check, check, set_interrupt, set_terminate, suspend_begin, resume_thread, wait_over,
}
use luasys.Thread.World.{
  World, Place, starting, inside, outside, left, gone, failed, IsFree, with_store, put_place,
  after_check, Step, starts, goes_out, comes_in, checks, runs, runs_vm, interrupts, terminates,
  suspends, resumes, waited, returns, looks_again, drops, Reach, here, step, first_world,
}
use luasys.Thread.Counts.{target, owes, one_ref, le-sum}
use luasys.Thread.Shape.{
  IsRunning, IsOwing, IsAlone, IsValid, Same-target, owed-IsOwing, IsRunning-IsOwing,
}
use luasys.Thread.Moving.{Moves-IsValid}
use luasys.Thread.Calm.{
  Calm, Calm-refl, check-Calm, set_interrupt-Calm, set_terminate-Calm, suspend_begin-Calm,
  resume_thread-Calm, wait_over-Calm,
}
use luasys.Thread.Going.{
  Goes, enter-Goes, leave-Goes, stay-Moves, exit_thread-Goes, close_or_wait-Goes, after_check-Goes,
}
use luasys.Thread.Making.{Runs-IsValid, Keeps, Keeps-target, target-some}
use luasys.Thread.Made.{run_thread-Runs}
use luasys.Thread.NewVm.{runvm-RunsVm}
use luasys.Thread.NewValid.{RunsVm-IsValid}
use luasys.Thread.Exit.{exit_ref}
use luasys.Thread.Dropping.{Drops, exit_ref-Drops, Drops-IsValid}

pub place-next : (w : World) (t : ℕ) → IsValid w → IsOwing (w.place t) → t < w.next
place-next w t k h = elim (Bool-cases (ltb t w.next)) [
  | inl l ↦ ltb→lt t w.next l
  | inr ge ↦ absurd (subst IsOwing (k.unmade t (ground arith)) h)
]

inside-IsAlone : (w : World) (t : ℕ) → IsValid w → w.place t ≡ inside → IsAlone t w
inside-IsAlone w t k i u ne e j =
    ne (some-inj (sym (k.locked u j) ∙ ap (λ x. (w.store.vm x).owner) e ∙ k.locked t i))

free-IsAlone : (w : World) (t : ℕ) → IsValid w → IsFree (getvm t w.store) w → IsAlone t w
free-IsAlone w t k free u ne e j =
    let bad : some u ≡ none = sym (k.locked u j) ∙ ap (λ x. (w.store.vm x).owner) e ∙ free in cc

abbrev IsKept : World → Type 0
IsKept w = IsValid w × (w.next < 2 ^ 32)

-- A thread that was never created stays so, and refers to the same VM.
abbrev Lasts : World → World → Type 0
Lasts w w' =
    (u : ℕ)
    → u < w.next
    → w.place u ≡ failed
    → (w'.place u ≡ failed) × (target w'.store u ≡ target w.store u)

abbrev IsAfter : World → World → Type 0
IsAfter w w' = IsKept w' × Lasts w w'

Goes-Lasts : (t : ℕ) (w w' : World) → IsRunning (w.place t) → Goes t w w' → Lasts w w'
Goes-Lasts t w w' run (q, m, owing) u lt e =
    let ne : u ≢ t = λ d. subst IsRunning (ap w.place (sym d) ∙ e) run in
    (m.others u ne ∙ e, Same-target w.store w'.store u m.same)

Keeps-Lasts : (w w' : World) → IsValid w → Keeps w w' → Lasts w w'
Keeps-Lasts w w' k m u lt e = (m.place u lt ∙ e, Keeps-target m k u lt)

drop-Lasts :
    (t v : ℕ) (w : World) (s : Store)
    → w.place t ≡ left
    → Drops v w.store s
    → Lasts w (put_place t gone (with_store s w))
drop-Lasts t v w s at d u lt e =
    let ne : u ≢ t = λ x. let bad : failed ≡ left = sym e ∙ ap w.place x ∙ at in cc in
    ((ground arith) ∙ e, Same-target w.store s u d.same)

Goes-IsKept :
    (t : ℕ) (w w' : World)
    → IsKept w
    → IsRunning (w.place t)
    → IsAlone t w
    → Goes t w w'
    → IsAfter w w'
Goes-IsKept t w w' (k, room) run alone (q, m, owing) = (
  (
    Moves-IsValid m k (place-next w t k (IsRunning-IsOwing (w.place t) run)) run owing alone,
    omega (arith, room, m.next),
  ),
  Goes-Lasts t w w' run (q, m, owing),
)

-- A step inside of the VM
inside-IsKept : (t : ℕ) (w w' : World) → IsKept w → w.place t ≡ inside → Goes t w w' → IsAfter w w'
inside-IsKept t w w' k i g =
    Goes-IsKept t w w' k (subst IsRunning (sym i) tt) (inside-IsAlone w t k.0 i) g

pub inside-next : (w : World) (t : ℕ) → IsValid w → w.place t ≡ inside → t < w.next
inside-next w t k i = place-next w t k (subst IsOwing (sym i) tt)

-- A thread enters its VM.
enter-IsKept :
    (t : ℕ) (p : Place) (w : World)
    → IsKept w
    → w.place t ≡ p
    → IsRunning p
    → IsFree (getvm t w.store) w
    → IsAfter w (put_place t inside (with_store (lock t (getvm t w.store) w.store) w))
enter-IsKept t p w k at run free =
    Goes-IsKept t w _ k (subst IsRunning (sym at) run) (free-IsAlone w t k.0 free) (enter-Goes t w)

-- A function of a thread inside, which may end in `thread_exit`
check-IsKept :
    (t top : ℕ) (w : World) (r : Check × Store)
    → IsKept w
    → w.place t ≡ inside
    → Calm w.store r.1
    → IsAfter w (after_check t top r w)
check-IsKept t top w (c, s) k at calm =
    inside-IsKept t w _ k at (after_check-Goes t top w c s calm at (k.0.locked t at))

stay-IsKept :
    (t : ℕ) (w : World) (s : Store)
    → IsKept w
    → w.place t ≡ inside
    → Calm w.store s
    → IsAfter w (with_store s w)
stay-IsKept t w s k at calm =
    inside-IsKept t w _ k at (inside, stay-Moves t w s calm at (k.0.locked t at), tt)

Step-IsAfter : {w w' : World} → IsKept w → Step w w' → IsAfter w w'
Step-IsAfter {w} k (starts t at free) = enter-IsKept t starting w k at tt free
Step-IsAfter {w} k (comes_in t at free) = enter-IsKept t outside w k at tt free
Step-IsAfter {w} k (goes_out t at) = inside-IsKept t w _ k at (leave-Goes t w)
Step-IsAfter {w} k (checks t top at) =
    check-IsKept t top w (check t w.store) k at (check-Calm t w.store)
Step-IsAfter {w} k (interrupts t top td recover at l) =
    check-IsKept t top w (set_interrupt t td recover w.store) k at
      (set_interrupt-Calm t td recover w.store)
Step-IsAfter {w} k (terminates t top td status at l) =
    check-IsKept t top w (set_terminate t td status w.store) k at
      (set_terminate-Calm t td status w.store)
Step-IsAfter {w} k (suspends t at) =
    stay-IsKept t w (suspend_begin t w.store) k at (suspend_begin-Calm t w.store)
Step-IsAfter {w} k (resumes t td at l) =
    stay-IsKept t w (resume_thread td w.store) k at (resume_thread-Calm td w.store)
Step-IsAfter {w} k (waited t td r at l ne) =
    stay-IsKept t w (wait_over r td w.store).1 k at (wait_over-Calm r td w.store ne)
Step-IsAfter {w} k (returns t top at) =
    inside-IsKept t w _ k at (exit_thread-Goes t top w w.store (Calm-refl w.store))
Step-IsAfter {w} k (looks_again t at main free) =
    Goes-IsKept t w _ k (subst IsRunning (sym at) tt) (free-IsAlone w t k.0 free)
      (close_or_wait-Goes t w w.store (Calm-refl w.store) main)
Step-IsAfter {w} k (runs t c at counted room) =
    let lt = inside-next w t k.0 at in
    let m = run_thread-Runs t c w lt counted in
    ((Runs-IsValid m k.0 lt (subst IsRunning (sym at) tt) room, room), Keeps-Lasts w _ k.0 m.keeps)
Step-IsAfter {w} k (runs_vm t c cpu at counted room) =
    let lt = inside-next w t k.0 at in
    let m = runvm-RunsVm t c cpu w lt (k.0.vms t lt).0 counted in
    (
      (RunsVm-IsValid m k.0 lt (subst IsRunning (sym at) tt) room, room),
      Keeps-Lasts w _ k.0 m.keeps,
    )
Step-IsAfter {w} k (drops t r at e free) =
    let lt = place-next w t k.0 (subst IsOwing (sym at) tt) in
    let d = exit_ref-Drops t r w.store e in
    (
      (Drops-IsValid t r w (exit_ref t w.store) d k.0 lt at e k.1, k.1),
      drop-Lasts t (getvm r w.store) w (exit_ref t w.store) at d,
    )

first_world-IsKept : (stack_size : ℕ) → IsKept (first_world stack_size)
unfolding first_world init_vm newvm
first_world-IsKept stack_size = (
  record {
    unmade = λ t le. ground arith;
    refs = λ t r lt e. absurd (ground arith);
    vms = λ t lt. (ground arith, ground arith);
    subs = λ t lt nf ns. absurd (ns (ground arith));
    counted = λ v. ground arith;
    locked = λ t i. ground arith;
    shut = λ v c. absurd (ground arith);
  },
  omega arith,
)

Reach-IsKept : {w w' : World} → IsKept w → Reach w w' → IsKept w'
Reach-IsKept k here = k
Reach-IsKept k (step r st) = (Step-IsAfter (Reach-IsKept k r) st).0

Reach-Lasts :
    {w w' : World}
    → IsKept w
    → Reach w w'
    → (u : ℕ) → u < w.next
    → w.place u ≡ failed
    → (u < w'.next) × (w'.place u ≡ failed) × (target w'.store u ≡ target w.store u)
Reach-Lasts k here u lt e = (lt, e, refl)
Reach-Lasts k (step r st) u lt e =
    let (lt1, a, b) = Reach-Lasts k r u lt e in
    let k1 = Reach-IsKept k r in
    let (k2, lasts) = Step-IsAfter k1 st in
    let (c, d) = lasts u lt1 a in (place-next _ u k2.0 (subst IsOwing (sym c) tt), c, d ∙ b)

-- What holds between the steps, in every run from the start of the first thread
pub Reach-IsValid : (stack_size : ℕ) (w : World) → Reach (first_world stack_size) w → IsValid w
Reach-IsValid stack_size w r = (Reach-IsKept (first_world-IsKept stack_size) r).0

pub Reach_trans : {x y z : World} → Reach x y → Reach y z → Reach x z
Reach_trans a here = a
Reach_trans a (step b st) = step (Reach_trans a b) st

-- The VM that a thread refers to which was never created has a reference in every later state.
pub failed-nref :
    (stack_size : ℕ) (w w' : World) (t r : ℕ)
    → Reach (first_world stack_size) w
    → Reach w w'
    → w.place t ≡ failed
    → (w.store.thread t).reftd ≡ some r
    → 1 ≤ (w'.store.vm (getvm r w.store)).nref
failed-nref stack_size w w' t r before after e f =
    let k = Reach-IsKept (first_world-IsKept stack_size) before in
    let lt = place-next w t k.0 (subst IsOwing (sym e) tt) in
    let (lt1, e1, same) = Reach-Lasts k after t lt e in
    let v = getvm r w.store in
    let one : owes w' v t ≡ 1 =
      owed-IsOwing (w'.place t) (target w'.store t) v (subst IsOwing (sym e1) tt)
      ∙ ap (λ o. one_ref o v) (same ∙ target-some w.store t r f)
      ∙ ap (λ b. if b then 1 else 0) ((==_iff v v).1 refl) in
    omega (
      arith,
      one,
      le-sum w'.next (owes w' v) t lt1,
      (Reach-IsValid stack_size w' (Reach_trans before after)).counted v,
    )
