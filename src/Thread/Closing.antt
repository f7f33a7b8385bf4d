-- ===== src/Thread/Closing.antt =====
-- The counts of references, the locks, and when a VM is closed.
use luasys.Base.{
  some-inj, ℕ, refl, on_branches, ◌==◌, ==_iff, ◌<◌, ◌≡◌, ◌≢◌, sym, ◌∙◌, ap, true, some, arith,
}
use luasys.Thread.{Store, getvm}
use luasys.Thread.World.{World, inside, failed, Reach, first_world}
use luasys.Thread.Counts.{refs_of}
use luasys.Thread.Shape.{IsPast, IsRunning, IsOwing}
use luasys.Thread.Making.{owing-nref, running-open}
use luasys.Thread.Invariant.{Reach-IsValid, Reach_trans, failed-nref}
use luasys.Thread.Exit.{Exiting, waits_refs, close_or_wait}

module _ (stack_size : ℕ) (w : World) (run : Reach (first_world stack_size) w) where
  -- In every run in which no `thread_wait` finds that the thread it waits for was asked to end,
  -- `nref` of a VM is the number of the threads that have not given back their reference to it,
  -- those of failed creations included; so it does not wrap around.
  pub Reach-counted : (v : ℕ) → ((w.store.vm v).nref ≡ refs_of v w)
  Reach-counted v = (Reach-IsValid stack_size w run).counted v

  -- In every run in which no `thread_wait` finds that the thread it waits for was asked to end,
  -- two threads that are inside of the same VM are the same, and its lock is theirs.
  pub Reach-exclusive :
      (t u : ℕ)
      → w.place t ≡ inside
      → w.place u ≡ inside
      → getvm t w.store ≡ getvm u w.store
      → (t ≡ u) × ((w.store.vm (getvm t w.store)).owner ≡ some t)
  Reach-exclusive t u i j e =
      let k = Reach-IsValid stack_size w run in
      (
        some-inj (sym (k.locked t i) ∙ ap (λ v. (w.store.vm v).owner) e ∙ k.locked u j),
        k.locked t i,
      )

  -- In every run in which no `thread_wait` finds that the thread it waits for was asked to end,
  -- when a VM was closed, none of its threads is in it or will enter it again, none refers to it,
  -- and its main thread is past its part of `thread_exit`, or was never created.
  pub Reach-closed :
      (v : ℕ)
      → (w.store.vm v).closed ≡ true
      → ((t : ℕ) → t < w.next → IsRunning (w.place t) → getvm t w.store ≢ v)
        × ((t r : ℕ)
            → t < w.next
            → IsOwing (w.place t)
            → (w.store.thread t).reftd ≡ some r
            → getvm r w.store ≢ v)
        × IsPast (w.place v)
  Reach-closed v c =
      let k = Reach-IsValid stack_size w run in
      let (l, past, none_left) = k.shut v c in
      (
        (λ t lt r e. running-open w t k lt r (ap (λ x. (w.store.vm x).closed) e ∙ c)),
        (λ t r lt o e d.
            let one = owing-nref w t r k lt o e in
            let same = ap (λ x. (w.store.vm x).nref) d in omega (arith, one, same, none_left)),
        past,
      )

-- When a thread could not be created, `thread_run` and `thread_runvm` keep the reference that they
-- counted for it: at the end of the main thread of the VM, in any state that is reached later, if
-- no `thread_wait` finds that the thread it waits for was asked to end, `thread_exit` waits.
pub failed_waits :
    (stack_size : ℕ) (w w' : World) (t r : ℕ)
    → Reach (first_world stack_size) w
    → Reach w w'
    → w.place t ≡ failed
    → (w.store.thread t).reftd ≡ some r
    → ((close_or_wait (getvm r w.store) w'.store).0 ≡ waits_refs)
      × ((w'.store.vm (getvm r w.store)).closed ≢ true)
unfolding close_or_wait
failed_waits stack_size w w' t r before after e f =
    let one = failed-nref stack_size w w' t r before after e f in
    let k = Reach-IsValid stack_size w' (Reach_trans before after) in
    let v = getvm r w.store in
    (
      on_branches (λ (x : Exiting × Store). x.0 ≡ waits_refs) ((w'.store.vm v).nref == 0) _ _
          (λ z. absurd (let z0 = (==_iff (w'.store.vm v).nref 0).0 z in omega (arith, one, z0)))
          (λ _. refl),
      λ c. let z = (k.shut v c).2 in omega (arith, one, z),
    )
