-- ===== src/Thread/NewVm.antt =====
-- A new VM and the thread that stands for it: what holds between the steps holds after
-- `thread_runvm`.
use luasys.Base.{
  ℕ, suc, ◌+◌, ◌%◌, ◌^◌, ◌<◌, ◌≡◌, ◌≢◌, refl, sym, ◌∙◌, ap, subst, ◌⊎◌, Bool, true, false, Option,
  some, arith, ◌==◌, if◌then◌else◌, ==_iff, on_branches, inl, inr,
}
use native.Mathlib.Decide.{ℕ_discrete}
use luasys.Thread.{Store, Vm, getvm, set_vm}
use luasys.Thread.Create.{
  Creation, no_memory, no_cond, no_thread, created, newvm, thread_new, runvm,
}
use luasys.Thread.World.{
  World, Place, starting, inside, outside, closing, left, gone, fake, failed, IsCounted,
  after_runvm, place_made,
}
use luasys.Thread.Making.{IsMade, Keeps}
use luasys.Thread.Made.{place_made-IsMade}

pub record RunsVm (t : ℕ) (w w' : World) : Type 0 where
  pub keeps : Keeps w w'
  pub next : w'.next ≡ suc (suc w.next)
  pub made : IsMade (w'.place w.next)
  pub stands : w'.place (suc w.next) ≡ fake
  pub unmade : (u : ℕ) → suc w.next < u → w'.place u ≡ w.place u
  pub vmtd : getvm w.next w'.store ≡ w.next
  pub reftd : (w'.store.thread w.next).reftd ≡ some t
  pub fake_vmtd : getvm (suc w.next) w'.store ≡ getvm t w.store
  pub fake_reftd : (w'.store.thread (suc w.next)).reftd ≡ some w.next
  pub nref_new : (w'.store.vm w.next).nref ≡ 0
  pub nref :
      (v : ℕ)
      → v ≢ w.next
      → (w'.store.vm v).nref
        ≡ (if getvm t w.store == v then ((w.store.vm v).nref + 1) % 2 ^ 32 else (w.store.vm v).nref)
  pub owner : (v : ℕ) → v ≢ w.next → (w'.store.vm v).owner ≡ (w.store.vm v).owner
  pub closed :
      (v : ℕ)
      → (w'.store.vm v).closed ≡ true
      → ((v ≢ w.next) × ((w.store.vm v).closed ≡ true)) ⊎ ((v ≡ w.next) × (w'.place v ≡ failed))

abbrev IsStarting : Place → Type 0
IsStarting starting = Unit
IsStarting inside = ⊥
IsStarting outside = ⊥
IsStarting closing = ⊥
IsStarting left = ⊥
IsStarting gone = ⊥
IsStarting fake = ⊥
IsStarting failed = ⊥

place_new :
    (w : World) (ok : Bool)
    → (if w.next == w.next + 1
        then fake
        else (if w.next == w.next then place_made ok else w.place w.next))
      ≡ place_made ok
place_new w ok = ground arith

made_vm-RunsVm :
    (t : ℕ) (cond_ok ok : Bool) (w : World)
    → t < w.next
    → getvm t w.store < w.next
    → RunsVm t w (
        after_runvm
          (
            ok,
            (thread_new
                (w.next + 1)
                t
                (some w.next)
                cond_ok
                (newvm w.next (some t) true w.store).1).1,
          )
          w)
unfolding thread_new newvm
made_vm-RunsVm t cond_ok ok w lt lv = record {
  keeps = record {
    place = λ u l. ground arith;
    vmtd = λ u l. ground arith;
    reftd = λ u l. ground arith;
  };
  next = omega arith;
  made = subst IsMade (sym (place_new w ok)) (place_made-IsMade ok);
  stands = ground arith;
  unmade = λ u l. ground arith;
  vmtd = ground arith;
  reftd = ground arith;
  fake_vmtd = ground arith;
  fake_reftd = ground arith;
  nref_new = ground arith;
  nref = λ v ne. ground arith;
  owner = λ v ne. ground arith;
  closed = λ v c. elim (ℕ_discrete v w.next) [
    | yes e ↦ absurd (ground arith)
    | no ne ↦ inl (ne, ground arith)
  ];
}

RunsVm-set :
    (t : ℕ) (ok : Bool) (s : Store) (y : Vm) (w : World)
    → y.nref ≡ 0
    → (y.closed ≡ true → ok ≡ false)
    → RunsVm t w (after_runvm (ok, s) w)
    → RunsVm t w (after_runvm (ok, set_vm w.next y s) w)
RunsVm-set t ok s y w z c m = record {
  keeps = record { place = m.keeps.place; vmtd = m.keeps.vmtd; reftd = m.keeps.reftd };
  next = m.next;
  made = m.made;
  stands = m.stands;
  unmade = m.unmade;
  vmtd = m.vmtd;
  reftd = m.reftd;
  fake_vmtd = m.fake_vmtd;
  fake_reftd = m.fake_reftd;
  nref_new = ground arith;
  nref = λ v ne.
      on_branches
        (λ (x : Vm). x.nref ≡ (
          if getvm t w.store == v then ((w.store.vm v).nref + 1) % 2 ^ 32 else (w.store.vm v).nref))
        (v == w.next) y (s.vm v) (λ e. absurd (ne ((==_iff v w.next).0 e))) (λ _. m.nref v ne);
  owner = λ v ne.
      on_branches (λ (x : Vm). x.owner ≡ (w.store.vm v).owner) (v == w.next) y (s.vm v)
        (λ e. absurd (ne ((==_iff v w.next).0 e))) (λ _. m.owner v ne);
  closed = λ v.
      on_branches
        (λ (x : Vm).
          x.closed ≡ true
          → ((v ≢ w.next) × ((w.store.vm v).closed ≡ true))
            ⊎ ((v ≡ w.next) × ((after_runvm (ok, s) w).place v ≡ failed)))
        (v == w.next) y (s.vm v)
        (λ e d.
          let same = (==_iff v w.next).0 e in
          inr (same, ap (after_runvm (ok, s) w).place same ∙ place_new w ok ∙ ap place_made (c d)))
        (λ _. m.closed v);
}

pub runvm-RunsVm :
    (t : ℕ) (c : Creation) (cpu : Option ℕ) (w : World)
    → t < w.next
    → getvm t w.store < w.next
    → IsCounted c
    → RunsVm t w (after_runvm (runvm c w.next (w.next + 1) t cpu w.store) w)
unfolding runvm
runvm-RunsVm t no_memory cpu w lt lv h = absurd h
runvm-RunsVm t no_cond cpu w lt lv h = made_vm-RunsVm t false false w lt lv
runvm-RunsVm t no_thread cpu w lt lv h =
    let m = made_vm-RunsVm t true false w lt lv in RunsVm-set t false _ _ w m.nref_new (λ _. refl) m
runvm-RunsVm t created cpu w lt lv h =
    let m = made_vm-RunsVm t true true w lt lv in
    RunsVm-set t true _ _ w m.nref_new
      (λ d. elim (m.closed w.next d) [
        | inl (ne, _) ↦ absurd (ne refl)
        | inr (_, p) ↦ absurd (subst IsStarting (sym (place_new w true) ∙ p) tt)
      ])
      m
