-- ===== src/Thread/Flags.antt =====
-- Which threads have their flags changed by a function.
use luasys.Base.{
  ℕ, ◌≡◌, ◌≢◌, refl, sym, ◌∙◌, ap, subst, Bool, true, Option, Option-cases, none, some, inl, inr,
  ◌==◌, if◌then◌else◌, not, ◌&&◌, on_branches, arith,
}
use native.Mathlib.Decide.{ℕ_discrete}
use luasys.Thread.{Store, getvm, isvm, unfake}
use luasys.Thread.Exit.{
  set_status, close_or_wait, leave_vm, exit_thread, end_ref, drop_ref, exit_ref,
}
use luasys.Thread.Create.{
  Creation, no_memory, no_cond, no_thread, created, newvm, thread_new, run_thread, runvm,
}
use luasys.Thread.World.{IsCounted}
use luasys.Thread.Control.{check, set_interrupt, set_terminate, suspend_begin, resume_thread}

module _ (u : ℕ) where
  abbrev pub Untouched : Store → Store → Type 0
  Untouched s s' = (s'.thread u).flags ≡ (s.thread u).flags

  pub check-Untouched : (td : ℕ) (s : Store) → u ≢ td → Untouched s (check td s).1
  unfolding check
  check-Untouched td s ne = ground arith

  pub set_interrupt-Untouched :
      (self td : ℕ) (b : Bool) (s : Store)
      → u ≢ unfake td s
      → Untouched s (set_interrupt self td b s).1
  unfolding set_interrupt check
  set_interrupt-Untouched self td b s ne = ground arith

  pub set_terminate-Untouched :
      (self td status : ℕ) (s : Store)
      → u ≢ unfake td s
      → Untouched s (set_terminate self td status s).1
  unfolding set_terminate
  set_terminate-Untouched self td status s ne = ground arith

  pub suspend_begin-Untouched : (td : ℕ) (s : Store) → Untouched s (suspend_begin td s)
  unfolding suspend_begin
  suspend_begin-Untouched td s = ground arith

  pub resume_thread-Untouched : (td : ℕ) (s : Store) → Untouched s (resume_thread td s)
  unfolding resume_thread
  resume_thread-Untouched td s = ground arith

  pub close_or_wait-Untouched : (td : ℕ) (s : Store) → Untouched s (close_or_wait td s).1
  unfolding close_or_wait
  close_or_wait-Untouched td s = ground arith

  pub exit_thread-Untouched :
      (td top : ℕ) (s : Store) → u ≢ td → Untouched s (exit_thread td top s).1
  unfolding exit_thread set_status close_or_wait leave_vm
  exit_thread-Untouched td top s ne = ground arith

  pub drop_ref-Untouched : (v : ℕ) (s : Store) → Untouched s (drop_ref v s)
  unfolding drop_ref
  drop_ref-Untouched v s = ground arith

  pub exit_ref-Untouched :
      (t r : ℕ) (s : Store) → (s.thread t).reftd ≡ some r → u ≢ r → Untouched s (exit_ref t s)
  unfolding exit_ref end_ref
  exit_ref-Untouched t r s e ne =
      subst
        (λ (o : Option ℕ). Untouched s (elim o [
          | none ↦ s
          | some x ↦
              drop_ref (getvm x s) (if isvm t s then end_ref x (s.thread t).exit_status s else s)
        ]))
        (sym e)
        (drop_ref-Untouched (getvm r s)
            (if isvm t s then end_ref r (s.thread t).exit_status s else s)
          ∙ on_branches (Untouched s) (isvm t s) (end_ref r (s.thread t).exit_status s) s
              (λ _. ground arith) (λ _. refl))

  unfake-none : (td : ℕ) (s : Store) → (s.thread td).reftd ≡ none → unfake td s ≡ td
  unfolding unfake
  unfake-none td s e =
      ap
        (λ (o : Option ℕ). elim o [
          | none ↦ td
          | some r ↦ if not (isvm td s) && not (r == getvm td s) then r else td
        ])
        e

  unfake-some :
      (td r : ℕ) (s : Store)
      → (s.thread td).reftd ≡ some r
      → unfake td s ≡ (if not (isvm td s) && not (r == getvm td s) then r else td)
  unfolding unfake
  unfake-some td r s e =
      ap
        (λ (o : Option ℕ). elim o [
          | none ↦ td
          | some r ↦ if not (isvm td s) && not (r == getvm td s) then r else td
        ])
        e

  -- A call on the thread that stands for a VM goes to another one, and so does one on any other.
  pub unfake-other :
      (td : ℕ) (s : Store)
      → u ≢ getvm u s
      → ((r : ℕ) → (s.thread td).reftd ≡ some r → u ≢ r)
      → ((r : ℕ) × ((s.thread u).reftd ≡ some r) × (r ≢ getvm u s))
      → u ≢ unfake td s
  unfake-other td s nv nr (r, e, ne) = elim (ℕ_discrete u td) [
    | yes d ↦
        let stands : (not (isvm u s) && not (r == getvm u s)) ≡ true = ground arith in
        let to_r : unfake u s ≡ r = unfake-some u r s e ∙ ap (λ b. if b then r else u) stands in
        let other = nr r (ap (λ x. (s.thread x).reftd) (sym d) ∙ e) in
        λ x. other (x ∙ ap (λ y. unfake y s) (sym d) ∙ to_r)
    | no nt ↦ elim (Option-cases (s.thread td).reftd) [
      | inl n ↦ λ x. nt (x ∙ unfake-none td s n)
      | inr (r2, n) ↦ λ x.
          on_branches (λ y. u ≢ y) (not (isvm td s) && not (r2 == getvm td s)) r2 td (λ _. nr r2 n)
            (λ _. nt) (x ∙ unfake-some td r2 s n)
    ]
  ]

  pub run_thread-Untouched :
      (c : Creation) (td by : ℕ) (s : Store) → u ≢ td → Untouched s (run_thread c td by s).1
  unfolding run_thread thread_new
  run_thread-Untouched no_memory td by s ne = refl
  run_thread-Untouched no_cond td by s ne = ground arith
  run_thread-Untouched no_thread td by s ne = ground arith
  run_thread-Untouched created td by s ne = ground arith

  pub runvm-Untouched :
      (c : Creation) (td fake by : ℕ) (cpu : Option ℕ) (s : Store)
      → u ≢ td
      → u ≢ fake
      → Untouched s (runvm c td fake by cpu s).1
  unfolding runvm newvm thread_new
  runvm-Untouched no_memory td fake by cpu s ne nf = ground arith
  runvm-Untouched no_cond td fake by cpu s ne nf = ground arith
  runvm-Untouched no_thread td fake by cpu s ne nf = ground arith
  runvm-Untouched created td fake by cpu s ne nf = ground arith

pub fake-flags :
    (c : Creation) (td fake by : ℕ) (cpu : Option ℕ) (s : Store)
    → IsCounted c
    → ((runvm c td fake by cpu s).1.thread fake).flags ≡ 0
unfolding runvm newvm thread_new
fake-flags no_memory td fake by cpu s h = absurd h
fake-flags no_cond td fake by cpu s h = ground arith
fake-flags no_thread td fake by cpu s h = ground arith
fake-flags created td fake by cpu s h = ground arith
