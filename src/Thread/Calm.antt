-- ===== src/Thread/Calm.antt =====
-- Functions that change only the flags, the status, the signals and the listing of threads.
use luasys.Base.{
  ℕ, ◌≡◌, ◌≢◌, refl, ◌∙◌, sym, subst, Bool, true, false, ◌==◌, arith, on_branches, if◌then◌else◌,
}
use luasys.DataPool.{WaitResult}
use luasys.Thread.{
  Thread, Store, set_thread, killed, terminated, interrupted, isvm, getvm, unfake, broadcast,
  unlist,
}
use luasys.Thread.Exit.{set_status, end_ref}
use luasys.Thread.Control.{
  passes, exits, raises, Waiting, waits, ends, interrupts, returns, wait_result, wait_over, Check,
  check, set_interrupt, set_terminate, suspend_begin, resume_thread,
}
use luasys.Thread.Shape.{Same}

pub record Calm (s s' : Store) : Type 0 where
  pub same : Same s s'
  pub vms : (v : ℕ) → s'.vm v ≡ s.vm v

pub Calm-refl : (s : Store) → Calm s s
Calm-refl s = record { same = λ t. (refl, refl); vms = λ v. refl }

pub Calm-trans : {s s1 s2 : Store} → Calm s s1 → Calm s1 s2 → Calm s s2
Calm-trans c d = record {
  same = λ t. ((d.same t).0 ∙ (c.same t).0, (d.same t).1 ∙ (c.same t).1);
  vms = λ v. d.vms v ∙ c.vms v;
}

pub set_thread-Calm :
    (a : ℕ) (x : Thread) (s : Store)
    → x.vmtd ≡ getvm a s
    → x.reftd ≡ (s.thread a).reftd
    → Calm s (set_thread a x s)
set_thread-Calm a x s e f = record { same = λ t. (ground arith, ground arith); vms = λ v. refl }

pub set_status-Calm : (td top : ℕ) (s : Store) → Calm s (set_status td top s)
unfolding set_status
set_status-Calm td top s =
    on_branches (Calm s) ((s.thread td).flags == killed) _ _ (λ _. Calm-refl s)
      (λ _. set_thread-Calm td _ s refl refl)

pub broadcast-Calm : (td : ℕ) (s : Store) → Calm s (broadcast td s)
broadcast-Calm td s = set_thread-Calm td _ s refl refl

pub unlist-Calm : (td : ℕ) (s : Store) → Calm s (unlist td s)
unlist-Calm td s = set_thread-Calm td _ s refl refl

pub end_ref-Calm : (r status : ℕ) (s : Store) → Calm s (end_ref r status s)
unfolding end_ref
end_ref-Calm r status s =
    let s1 = set_thread r (record (s.thread r) { flags = killed; exit_status = status }) s in
    Calm-trans (set_thread-Calm r _ s refl refl)
      (Calm-trans (broadcast-Calm r s1) (unlist-Calm r (broadcast r s1)))

pub check-Calm : (td : ℕ) (s : Store) → Calm s (check td s).1
unfolding check
check-Calm td s =
    on_branches (λ (r : Check × Store). Calm s r.1) ((s.thread td).flags == 2) _ _
      (λ _. set_thread-Calm td _ s refl refl) (λ _. Calm-refl s)

pub set_interrupt-Calm :
    (self td : ℕ) (recover : Bool) (s : Store) → Calm s (set_interrupt self td recover s).1
unfolding set_interrupt
set_interrupt-Calm self td true s = set_thread-Calm (unfake td s) _ s refl refl
set_interrupt-Calm self td false s =
    let a = unfake td s in
    let s1 = set_thread a (record (s.thread a) { flags = 4 }) s in
    let c = set_thread-Calm a (record (s.thread a) { flags = 4 }) s refl refl in
    on_branches (λ (r : Check × Store). Calm s r.1) (a == self) _ _
      (λ _. Calm-trans c (check-Calm a s1)) (λ _. c)

pub set_terminate-Calm :
    (self td status : ℕ) (s : Store) → Calm s (set_terminate self td status s).1
unfolding set_terminate
set_terminate-Calm self td status s = set_thread-Calm (unfake td s) _ s refl refl

pub suspend_begin-Calm : (td : ℕ) (s : Store) → Calm s (suspend_begin td s)
unfolding suspend_begin
suspend_begin-Calm td s = set_thread-Calm td _ s refl refl

pub resume_thread-Calm : (td : ℕ) (s : Store) → Calm s (resume_thread td s)
unfolding resume_thread
resume_thread-Calm td s =
    let s1 = set_thread td (record (s.thread td) { suspended = false }) s in
    Calm-trans (set_thread-Calm td _ s refl refl) (broadcast-Calm td s1)

-- A `thread_wait` that does not end the thread that calls it changes no data.
pub wait_over-same :
    (r : WaitResult) (td : ℕ) (s : Store) → (wait_over r td s).0 ≢ ends → (wait_over r td s).1 ≡ s
unfolding wait_over check
wait_over-same r td s =
    let P : Waiting × Store → Type 0 = λ x. x.0 ≢ ends → x.1 ≡ s in
    let after : Check × Store → Waiting × Store = λ (c, s1). elim c [
      | exits ↦ (ends, s1)
      | raises ↦ (interrupts, s1)
      | passes ↦ (
        wait_result r 0
            (if (s1.thread td).flags == killed then returns (s1.thread td).exit_status else waits),
        s1,
      )
    ] in
    on_branches P (isvm td s) _ (after (check td s)) (λ _ _. refl)
      (λ _.
        on_branches (λ (x : Check × Store). P (after x)) ((s.thread td).flags == terminated)
          (exits, set_thread td (record (s.thread td) { flags = killed }) s)
          ((if (s.thread td).flags == interrupted then raises else passes), s)
          (λ _ ne. absurd (ne refl))
          (λ _.
            on_branches (λ (c : Check). P (after (c, s))) ((s.thread td).flags == interrupted)
              raises passes (λ _ _. refl) (λ _ _. refl)))

pub wait_over-Calm :
    (r : WaitResult) (td : ℕ) (s : Store)
    → (wait_over r td s).0 ≢ ends
    → Calm s (wait_over r td s).1
wait_over-Calm r td s ne = subst (Calm s) (sym (wait_over-same r td s ne)) (Calm-refl s)
