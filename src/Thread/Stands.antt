-- ===== src/Thread/Stands.antt =====
-- The threads that stand for a VM, which `thread_runvm` returns, after the steps of the others.
use luasys.Base.{
  some-inj, ℕ, suc, ◌<◌, ◌≡◌, ◌≢◌, sym, ◌∙◌, ap, subst, some, inl, inr, ◌⊎◌, Bool-cases, ltb,
  ltb→lt, arith,
}
use native.Mathlib.Decide.{ℕ_discrete}
use luasys.Thread.{getvm}
use luasys.Thread.World.{World, Place, inside, gone, fake}
use luasys.Thread.Shape.{IsOwing, IsValid, Moves, Same}
use luasys.Thread.Making.{Runs, IsMade}
use luasys.Thread.NewVm.{RunsVm}
use luasys.Thread.NewValid.{which, old, main, stand, none_yet}
use luasys.Thread.Flags.{Untouched}

-- What holds of the threads that stand for a VM, and that no thread refers to one
pub record Stands (w : World) : Type 0 where
  pub own : (u : ℕ) → w.place u ≡ fake → u ≢ getvm u w.store
  pub ref :
      (u : ℕ)
      → w.place u ≡ fake
      → (r : ℕ) × ((w.store.thread u).reftd ≡ some r) × (r ≢ getvm u w.store)
  pub unref : (t r : ℕ) → t < w.next → (w.store.thread t).reftd ≡ some r → w.place r ≢ fake
  pub flags : (u : ℕ) → w.place u ≡ fake → (w.store.thread u).flags ≡ 0

-- A step that makes no thread and does not change the flags of these
pub Same-Stands :
    (w w' : World)
    → Stands w
    → Same w.store w'.store
    → w'.next ≡ w.next
    → ((u : ℕ) → w'.place u ≡ fake → w.place u ≡ fake)
    → ((u : ℕ) → w.place u ≡ fake → Untouched u w.store w'.store)
    → Stands w'
Same-Stands w w' k same next back flags = record {
  own = λ u e d. k.own u (back u e) (d ∙ (same u).0);
  ref = λ u e. let (r, a, b) = k.ref u (back u e) in (r, (same u).1 ∙ a, λ d. b (d ∙ (same u).0));
  unref = λ t r l e f. k.unref t r (omega (arith, next)) (sym (same t).1 ∙ e) (back r f);
  flags = λ u e. flags u (back u e) ∙ k.flags u (back u e);
}

pub Moves-Stands :
    (t : ℕ) (q : Place) (w w' : World)
    → Stands w
    → Moves t q w w'
    → IsOwing q
    → ((u : ℕ) → w.place u ≡ fake → Untouched u w.store w'.store)
    → Stands w'
Moves-Stands t q w w' k m owing flags = Same-Stands w w' k m.same m.next back flags
  where
    back : (u : ℕ) → w'.place u ≡ fake → w.place u ≡ fake
    back u e = elim (ℕ_discrete u t) [
      | yes d ↦ absurd (subst IsOwing (sym m.at ∙ ap w'.place (sym d) ∙ e) owing)
      | no ne ↦ sym (m.others u ne) ∙ e
    ]

pub Runs-Stands :
    (t : ℕ) (w w' : World)
    → IsValid w
    → Stands w
    → t < w.next
    → Runs t w w'
    → ((u : ℕ) → u ≢ w.next → Untouched u w.store w'.store)
    → Stands w'
Runs-Stands t w w' v k lt m flags = record {
  own = λ u e d. k.own u (back u e) (d ∙ m.keeps.vmtd u (below u e));
  ref = λ u e.
      let (r, a, b) = k.ref u (back u e) in
      (r, m.keeps.reftd u (below u e) ∙ a, λ d. b (d ∙ m.keeps.vmtd u (below u e)));
  unref = λ x r l e f. elim (ℕ_discrete x w.next) [
    | yes d ↦
        let same = some-inj (sym e ∙ ap (λ y. (w'.store.thread y).reftd) d ∙ m.reftd) in
        let main = (v.vms t lt).1 in
        k.own (getvm t w.store) (back _ (ap w'.place (sym same) ∙ f)) (sym main)
    | no ne ↦
        let o : x < w.next = omega (arith, m.next) in
        k.unref x r o (sym (m.keeps.reftd x o) ∙ e) (back r f)
  ];
  flags = λ u e. flags u (λ d. omega (arith, below u e)) ∙ k.flags u (back u e);
}
  where
    below : (u : ℕ) → w'.place u ≡ fake → u < w.next
    below u e = elim (Bool-cases (ltb u w.next)) [
      | inl l ↦ ltb→lt u w.next l
      | inr ge ↦ elim (ℕ_discrete u w.next) [
        | yes d ↦ absurd (subst IsMade (ap w'.place (sym d) ∙ e) m.made)
        | no ne ↦
            let bad : gone ≡ fake =
              sym (v.unmade u (ground arith)) ∙ sym (m.unmade u (ground arith)) ∙ e in
            absurd cc
      ]
    ]

    back : (u : ℕ) → w'.place u ≡ fake → w.place u ≡ fake
    back u e = sym (m.keeps.place u (below u e)) ∙ e

pub RunsVm-Stands :
    (t : ℕ) (w w' : World)
    → IsValid w
    → Stands w
    → t < w.next
    → w.place t ≡ inside
    → RunsVm t w w'
    → ((u : ℕ) → u ≢ w.next → u ≢ suc w.next → Untouched u w.store w'.store)
    → (w'.store.thread (suc w.next)).flags ≡ 0
    → Stands w'
RunsVm-Stands t w w' v k lt at m flags new_flags = record {
  own = λ u e. elim (cases u e) [
    | inl l ↦ λ d. k.own u (back u l e) (d ∙ m.keeps.vmtd u l)
    | inr n ↦
        subst (λ x. x ≢ getvm x w'.store) n (λ d. omega (arith, d, m.fake_vmtd, (v.vms t lt).0))
  ];
  ref = λ u e. elim (cases u e) [
    | inl l ↦
        let (r, a, b) = k.ref u (back u l e) in
        (r, m.keeps.reftd u l ∙ a, λ d. b (d ∙ m.keeps.vmtd u l))
    | inr n ↦
        subst (λ x. (r : ℕ) × ((w'.store.thread x).reftd ≡ some r) × (r ≢ getvm x w'.store)) n
          (w.next, m.fake_reftd, λ d. omega (arith, d, m.fake_vmtd, (v.vms t lt).0))
  ];
  unref = λ x r l e f. elim (which w.next x) [
    | old o ↦
        let e1 = sym (m.keeps.reftd x o) ∙ e in
        elim (cases r f) [
          | inl l1 ↦ k.unref x r o e1 (back r l1 f)
          | inr n ↦ omega (arith, n, v.refs x r o e1)
        ]
    | main d ↦
        let same = some-inj (sym e ∙ ap (λ y. (w'.store.thread y).reftd) (sym d) ∙ m.reftd) in
        let bad : inside ≡ fake = sym at ∙ sym (m.keeps.place t lt) ∙ ap w'.place (sym same) ∙ f in
        cc
    | stand d ↦
        let same = some-inj (sym e ∙ ap (λ y. (w'.store.thread y).reftd) (sym d) ∙ m.fake_reftd) in
        subst IsMade (ap w'.place (sym same) ∙ f) m.made
    | none_yet g ↦ omega (arith, m.next)
  ];
  flags = λ u e. elim (cases u e) [
    | inl l ↦ flags u (λ d. omega arith) (λ d. omega arith) ∙ k.flags u (back u l e)
    | inr n ↦ ap (λ x. (w'.store.thread x).flags) (sym n) ∙ new_flags
  ];
}
  where
    cases : (u : ℕ) → w'.place u ≡ fake → (u < w.next) ⊎ (suc w.next ≡ u)
    cases u e = elim (which w.next u) [
      | old l ↦ inl l
      | main d ↦ absurd (subst IsMade (ap w'.place d ∙ e) m.made)
      | stand d ↦ inr d
      | none_yet g ↦
          let bad : gone ≡ fake = sym (v.unmade u (omega arith)) ∙ sym (m.unmade u g) ∙ e in
          absurd cc
    ]

    back : (u : ℕ) → u < w.next → w'.place u ≡ fake → w.place u ≡ fake
    back u l e = sym (m.keeps.place u l) ∙ e
