-- ===== src/Thread/Last.antt =====
-- The end of the last thread of a VM, and of the main thread of a VM that `thread_runvm` has made.
use luasys.Base.{
  ℕ, ◌+◌, ◌≤◌, ◌<◌, ◌≡◌, refl, sym, ◌∙◌, ap, subst, true, Option, none, some, arith, if◌then◌else◌,
  on_branches,
}
use luasys.Thread.{Store, getvm, isvm}
use luasys.Thread.Exit.{leaves, close_or_wait, end_ref, drop_ref, exit_ref}
use luasys.Thread.World.{World, left, Reach, first_world}
use luasys.Thread.Counts.{refs_of}
use luasys.Thread.Dropping.{exit_ref-Drops}
use luasys.Thread.Invariant.{Reach-IsValid}

exit_ref-some :
    (t r : ℕ) (s : Store)
    → (s.thread t).reftd ≡ some r
    → exit_ref t s
      ≡ drop_ref (getvm r s) (if isvm t s then end_ref r (s.thread t).exit_status s else s)
unfolding exit_ref
exit_ref-some t r s e =
    ap
      (λ (o : Option ℕ). elim o [
        | none ↦ s
        | some x ↦
            drop_ref (getvm x s) (if isvm t s then end_ref x (s.thread t).exit_status s else s)
      ])
      e

drop_ref-wakes :
    (v : ℕ) (s : Store)
    → (s.vm v).nref ≡ 1
    → ((drop_ref v s).thread v).wakes ≡ (s.thread v).wakes + 1
unfolding drop_ref
drop_ref-wakes v s e = ground arith

end_ref-wakes :
    (v r status : ℕ) (s : Store) → (s.thread v).wakes ≤ ((end_ref r status s).thread v).wakes
unfolding end_ref
end_ref-wakes v r status s = ground arith

end_ref-nref : (v r status : ℕ) (s : Store) → ((end_ref r status s).vm v).nref ≡ (s.vm v).nref
unfolding end_ref
end_ref-nref v r status s = refl

exit_ref-wakes :
    (t r : ℕ) (s : Store)
    → (s.thread t).reftd ≡ some r
    → (s.vm (getvm r s)).nref ≡ 1
    → (s.thread (getvm r s)).wakes < ((exit_ref t s).thread (getvm r s)).wakes
exit_ref-wakes t r s e one =
    let v = getvm r s in
    subst (λ x. (s.thread v).wakes < (x.thread v).wakes) (sym (exit_ref-some t r s e))
      (on_branches (λ x. (s.thread v).wakes < ((drop_ref v x).thread v).wakes) (isvm t s)
        (end_ref r (s.thread t).exit_status s) s
        (λ _.
          let s1 = end_ref r (s.thread t).exit_status s in
          let same = end_ref-nref v r (s.thread t).exit_status s ∙ one in
          omega (arith, drop_ref-wakes v s1 same, end_ref-wakes v r (s.thread t).exit_status s))
        (λ _. omega (arith, drop_ref-wakes v s one)))

-- In every run in which no `thread_wait` finds that the thread it waits for was asked to end, when
-- the only thread that still refers to VM `v` gives its reference back, this signals the main
-- thread of `v`, which then no longer waits in `thread_exit` but closes the VM.
pub last_closes :
    (stack_size : ℕ) (w : World) (t r : ℕ)
    → Reach (first_world stack_size) w
    → w.place t ≡ left
    → (w.store.thread t).reftd ≡ some r
    → refs_of (getvm r w.store) w ≡ 1
    → let v = getvm r w.store in
      ((w.store.thread v).wakes < ((exit_ref t w.store).thread v).wakes)
      × ((close_or_wait v (exit_ref t w.store)).0 ≡ leaves)
      × (((close_or_wait v (exit_ref t w.store)).1.vm v).closed ≡ true)
unfolding close_or_wait
last_closes stack_size w t r run at e one =
    let k = Reach-IsValid stack_size w run in
    let v = getvm r w.store in
    let d = (exit_ref-Drops t r w.store e).nref v in
    let was : (w.store.vm v).nref ≡ 1 = k.counted v ∙ one in
    let now : ((exit_ref t w.store).vm v).nref ≡ 0 = ground arith in
    (exit_ref-wakes t r w.store e was, ground arith, ground arith)
