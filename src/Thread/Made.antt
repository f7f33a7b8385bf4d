-- ===== src/Thread/Made.antt =====
-- `thread_run` makes a thread as Making says, whichever way it comes to an end.
use luasys.Base.{ℕ, ◌<◌, Bool, true, false, none, arith, ◌==◌, on_branches, ap, ◌∙◌}
use luasys.Thread.{Store, Vm, unlist}
use luasys.Thread.Create.{Creation, no_memory, no_cond, no_thread, created, thread_new, run_thread}
use luasys.Thread.Calm.{Calm, unlist-Calm}
use luasys.Thread.World.{World, IsCounted, after_run, place_made}
use luasys.Thread.Making.{Runs, IsMade}

pub place_made-IsMade : (made : Bool) → IsMade (place_made made)
place_made-IsMade true = tt
place_made-IsMade false = tt

thread_new-Runs :
    (t : ℕ) (ok made : Bool) (w : World)
    → t < w.next
    → Runs t w (after_run (made, (thread_new w.next t none ok w.store).1) w)
unfolding thread_new
thread_new-Runs t ok made w lt = record {
  keeps = record {
    place = λ u l. ground arith;
    vmtd = λ u l. ground arith;
    reftd = λ u l. ground arith;
  };
  next = omega arith;
  made =
      on_branches IsMade (w.next == w.next) (place_made made) (w.place w.next)
        (λ _. place_made-IsMade made) (λ e. absurd (ground arith));
  unmade = λ u l. ground arith;
  vmtd = ground arith;
  reftd = ground arith;
  nref = λ v. ground arith;
  owner = λ v. ground arith;
  closed = λ v. ground arith;
}

Runs-Calm :
    (t : ℕ) (made : Bool) (s s' : Store) (w : World)
    → Calm s s'
    → Runs t w (after_run (made, s) w)
    → Runs t w (after_run (made, s') w)
Runs-Calm t made s s' w c m = record {
  keeps = record {
    place = m.keeps.place;
    vmtd = λ u l. (c.same u).0 ∙ m.keeps.vmtd u l;
    reftd = λ u l. (c.same u).1 ∙ m.keeps.reftd u l;
  };
  next = m.next;
  made = m.made;
  unmade = m.unmade;
  vmtd = (c.same w.next).0 ∙ m.vmtd;
  reftd = (c.same w.next).1 ∙ m.reftd;
  nref = λ v. ap (λ (z : Vm). z.nref) (c.vms v) ∙ m.nref v;
  owner = λ v. ap (λ (z : Vm). z.owner) (c.vms v) ∙ m.owner v;
  closed = λ v. ap (λ (z : Vm). z.closed) (c.vms v) ∙ m.closed v;
}

pub run_thread-Runs :
    (t : ℕ) (c : Creation) (w : World)
    → t < w.next
    → IsCounted c
    → Runs t w (after_run (run_thread c w.next t w.store) w)
unfolding run_thread
run_thread-Runs t no_memory w lt h = absurd h
run_thread-Runs t no_cond w lt h = thread_new-Runs t false false w lt
run_thread-Runs t no_thread w lt h =
    let s = (thread_new w.next t none true w.store).1 in
    Runs-Calm t false s (unlist w.next s) w (unlist-Calm w.next s)
      (thread_new-Runs t true false w lt)
run_thread-Runs t created w lt h = thread_new-Runs t true true w lt
