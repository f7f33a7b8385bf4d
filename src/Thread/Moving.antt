-- ===== src/Thread/Moving.antt =====
-- A thread that goes on keeps what holds between the steps.
use luasys.Base.{ℕ, ◌<◌, ◌≡◌, ◌≢◌, sym, ◌∙◌, ap, subst, inl, inr, true, some, arith}
use native.Mathlib.Decide.{ℕ_discrete}
use luasys.Thread.{getvm}
use luasys.Thread.World.{World, Place, inside, fake}
use luasys.Thread.Counts.{sum, sum-same, owed, target, owes, refs_of}
use luasys.Thread.Shape.{
  IsPast, IsRunning, IsOwing, IsAlone, IsValid, Moves, Same-target, owed-IsOwing, IsRunning-IsOwing,
  not-IsPast,
}

module _ {t : ℕ} {q : Place} {w w' : World} (m : Moves t q w w') where
  pub Moves-owes : IsOwing (w.place t) → IsOwing q → (v u : ℕ) → owes w' v u ≡ owes w v u
  Moves-owes hp hq v u =
      ap (λ o. owed (w'.place u) o v) (Same-target w.store w'.store u m.same)
      ∙ elim (ℕ_discrete u t) [
        | no ne ↦ ap (λ p. owed p (target w.store u) v) (m.others u ne)
        | yes e ↦
            subst (λ x. owed (w'.place x) (target w.store x) v ≡ owes w v x) (sym e)
              (ap (λ p. owed p (target w.store t) v) m.at
                ∙ owed-IsOwing q (target w.store t) v hq
                ∙ sym (owed-IsOwing (w.place t) (target w.store t) v hp))
      ]

  Moves-refs_of : IsOwing (w.place t) → IsOwing q → (v : ℕ) → refs_of v w' ≡ refs_of v w
  Moves-refs_of hp hq v =
      ap (λ n. sum n (owes w' v)) m.next
      ∙ sum-same w.next (owes w' v) (owes w v) (λ u _. Moves-owes hp hq v u)

  Moves-vms :
      IsValid w
      → (u : ℕ) → u < w'.next
      → (getvm u w'.store < w'.next) × (getvm (getvm u w'.store) w'.store ≡ getvm u w'.store)
  Moves-vms k u lt =
      let (a, b) = k.vms u (omega (arith, m.next)) in
      let e = (m.same u).0 in
      (
        omega (arith, m.next, e),
        ap (λ x. getvm x w'.store) e ∙ (m.same (getvm u w.store)).0 ∙ b ∙ sym e,
      )

  Moves-subs :
      IsValid w
      → IsOwing (w.place t)
      → (u : ℕ) → u < w'.next
      → w'.place u ≢ fake
      → getvm u w'.store ≢ u
      → (w'.store.thread u).reftd ≡ some (getvm u w'.store)
  Moves-subs k hp u lt nf ns =
      let nf1 : w.place u ≢ fake = λ f. elim (ℕ_discrete u t) [
        | yes e ↦ subst IsOwing (ap w.place (sym e) ∙ f) hp
        | no ne ↦ nf (m.others u ne ∙ f)
      ] in
      (m.same u).1
      ∙ k.subs u (omega (arith, m.next)) nf1 (λ e. ns ((m.same u).0 ∙ e))
      ∙ ap some (sym (m.same u).0)

  Moves-locked :
      IsValid w
      → IsAlone t w
      → (u : ℕ) → w'.place u ≡ inside
      → (w'.store.vm (getvm u w'.store)).owner ≡ some u
  Moves-locked k alone u h = elim (ℕ_discrete u t) [
    | yes e ↦
        subst (λ x. (w'.store.vm (getvm x w'.store)).owner ≡ some x) (sym e)
          (ap (λ x. (w'.store.vm x).owner) (m.same t).0
            ∙ m.takes (sym m.at ∙ ap w'.place (sym e) ∙ h))
    | no ne ↦
        let h1 = sym (m.others u ne) ∙ h in
        ap (λ x. (w'.store.vm x).owner) (m.same u).0
        ∙ m.owner (getvm u w.store) (λ d. alone u ne d h1)
        ∙ k.locked u h1
  ]

  Moves-shut :
      IsValid w
      → t < w.next
      → IsRunning (w.place t)
      → (v : ℕ) → (w'.store.vm v).closed ≡ true
      → (v < w'.next) × IsPast (w'.place v) × ((w'.store.vm v).nref ≡ 0)
  Moves-shut k lt run v h = elim (m.closes v h) [
    | inl c ↦
        let (l, a, b) = k.shut v c in
        let ne : v ≢ t = λ e. not-IsPast (w.place t) run (subst (λ x. IsPast (w.place x)) e a) in
        (omega (arith, m.next), subst IsPast (sym (m.others v ne)) a, m.nref v ∙ b)
    | inr (e, l, z) ↦ (
      omega (arith, m.next, e),
      subst (λ x. IsPast (w'.place x)) (sym e) (subst IsPast (sym (m.at ∙ l)) tt),
      m.nref v ∙ z,
    )
  ]

  pub Moves-IsValid :
      IsValid w → t < w.next → IsRunning (w.place t) → IsOwing q → IsAlone t w → IsValid w'
  Moves-IsValid k lt run hq alone =
      let hp = IsRunning-IsOwing (w.place t) run in
      record {
        unmade =
            λ u le. m.others u (λ e. omega (arith, m.next)) ∙ k.unmade u (omega (arith, m.next));
        refs = λ u r l e.
            omega (arith, m.next, k.refs u r (omega (arith, m.next)) (sym (m.same u).1 ∙ e));
        vms = Moves-vms k;
        subs = Moves-subs k hp;
        counted = λ v. m.nref v ∙ k.counted v ∙ sym (Moves-refs_of hp hq v);
        locked = Moves-locked k alone;
        shut = Moves-shut k lt run;
      }
