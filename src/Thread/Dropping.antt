-- ===== src/Thread/Dropping.antt =====
-- `thread_exit` gives back the reference of a thread: what holds between the steps holds after it.
use luasys.Base.{
  ℕ, suc, ◌+◌, ◌-◌, ◌%◌, ◌^◌, ◌≤◌, ◌<◌, ◌≡◌, ◌≢◌, refl, sym, ◌∙◌, ap, subst, Bool, true, false,
  Option, none, some, arith, ◌==◌, if◌then◌else◌, ==_iff, on_branches, inl, inr, Bool-cases,
}
use native.Mathlib.Decide.{ℕ_discrete}
use luasys.Thread.{Store, Vm, getvm, isvm, set_vm, broadcast}
use luasys.Thread.Exit.{end_ref, drop_ref, exit_ref}
use luasys.Thread.World.{World, inside, left, gone, fake, put_place, with_store}
use luasys.Thread.Counts.{sum-changed, le-sum, owed, target, owes, refs_of, refs_of-le}
use luasys.Thread.Shape.{IsPast, IsValid, IsOwing, Same, Same-target}
use luasys.Thread.Making.{owed-target, owing-nref}
use luasys.Thread.Calm.{Calm, Calm-refl, end_ref-Calm, broadcast-Calm}

-- One reference less to VM `v`
pub record Drops (v : ℕ) (s s' : Store) : Type 0 where
  pub same : Same s s'
  pub nref :
      (u : ℕ)
      → (s'.vm u).nref ≡ (if v == u then ((s.vm u).nref + (2 ^ 32 - 1)) % 2 ^ 32 else (s.vm u).nref)
  pub owner : (u : ℕ) → (s'.vm u).owner ≡ (s.vm u).owner
  pub closed : (u : ℕ) → (s'.vm u).closed ≡ (s.vm u).closed

set_nref-Drops :
    (v n : ℕ) (s s1 : Store)
    → Calm s s1
    → n ≡ ((s1.vm v).nref + (2 ^ 32 - 1)) % 2 ^ 32
    → Drops v s (set_vm v (record (s1.vm v) { nref = n }) s1)
set_nref-Drops v n s s1 c e = record {
  same = c.same;
  nref = λ u. let d = ap (λ (z : Vm). z.nref) (c.vms u) in ground arith;
  owner = λ u. let d = ap (λ (z : Vm). z.owner) (c.vms u) in ground arith;
  closed = λ u. let d = ap (λ (z : Vm). z.closed) (c.vms u) in ground arith;
}

Drops-Calm : (v : ℕ) (s s1 s2 : Store) → Drops v s s1 → Calm s1 s2 → Drops v s s2
Drops-Calm v s s1 s2 m c = record {
  same = λ t. ((c.same t).0 ∙ (m.same t).0, (c.same t).1 ∙ (m.same t).1);
  nref = λ u. ap (λ (z : Vm). z.nref) (c.vms u) ∙ m.nref u;
  owner = λ u. ap (λ (z : Vm). z.owner) (c.vms u) ∙ m.owner u;
  closed = λ u. ap (λ (z : Vm). z.closed) (c.vms u) ∙ m.closed u;
}

drop_ref-Drops : (v : ℕ) (s s1 : Store) → Calm s s1 → Drops v s (drop_ref v s1)
unfolding drop_ref
drop_ref-Drops v s s1 c =
    let n : ℕ = ((s1.vm v).nref + (2 ^ 32 - 1)) % 2 ^ 32 in
    let s2 = set_vm v (record (s1.vm v) { nref = n }) s1 in
    let d = set_nref-Drops v n s s1 c refl in
    on_branches (Drops v s) (n == 0) (broadcast v s2) s2
      (λ _. Drops-Calm v s s2 (broadcast v s2) d (broadcast-Calm v s2)) (λ _. d)

pub exit_ref-Drops :
    (t r : ℕ) (s : Store) → (s.thread t).reftd ≡ some r → Drops (getvm r s) s (exit_ref t s)
unfolding exit_ref
exit_ref-Drops t r s e =
    subst
      (λ (o : Option ℕ). Drops (getvm r s) s (elim o [
        | none ↦ s
        | some x ↦
            drop_ref (getvm x s) (if isvm t s then end_ref x (s.thread t).exit_status s else s)
      ]))
      (sym e)
      (drop_ref-Drops (getvm r s) s _ (
        on_branches (Calm s) (isvm t s) _ s (λ _. end_ref-Calm r (s.thread t).exit_status s)
          (λ _. Calm-refl s)))

counted_less :
    (b : Bool) (n c m : ℕ)
    → n ≡ (if b then (c + (2 ^ 32 - 1)) % 2 ^ 32 else c)
    → c < m
    → m ≤ 2 ^ 32
    → (if b then 1 else 0) ≤ c
    → n + (if b then 1 else 0) ≡ c
counted_less true n c m e l l2 h = omega (arith, e)
counted_less false n c m e l l2 h = omega (arith, e)

module _ (t r : ℕ) (w : World) (s : Store) (d : Drops (getvm r w.store) w.store s) (k : IsValid w)
    (lt : t < w.next) (at : w.place t ≡ left) (e : (w.store.thread t).reftd ≡ some r) where
  abbrev w' : World
  w' = put_place t gone (with_store s w)

  t-IsOwing : IsOwing (w.place t)
  t-IsOwing = subst IsOwing (sym at) tt

  place_self : w'.place t ≡ gone
  place_self = ground arith

  place_other : (u : ℕ) → u ≢ t → w'.place u ≡ w.place u
  place_other u ne = ground arith

  drop-counted : w.next < 2 ^ 32 → (v : ℕ) → (s.vm v).nref ≡ refs_of v w'
  drop-counted room v =
      let was = owed-target w t r v t-IsOwing e in
      let now : owes w' v t ≡ 0 = ap (λ p. owed p (target s t) v) place_self in
      let rest = sum-changed w.next (owes w' v) (owes w v) t lt λ u _ ne.
        ap (λ p. owed p (target s u) v) (place_other u ne)
        ∙ ap (λ o. owed (w.place u) o v) (Same-target w.store s u d.same) in
      let one = le-sum w.next (owes w v) t lt in
      let b = getvm r w.store == v in
      let less =
        counted_less b (s.vm v).nref (w.store.vm v).nref (suc w.next) (d.nref v)
          (omega (arith, k.counted v, refs_of-le v w)) (omega arith)
          (omega (arith, one, was, k.counted v)) in
      omega (arith, was, now, rest, less, k.counted v)

  drop-locked : (u : ℕ) → w'.place u ≡ inside → (s.vm (getvm u s)).owner ≡ some u
  drop-locked u i = elim (ℕ_discrete u t) [
    | yes x ↦ let bad : gone ≡ inside = sym place_self ∙ ap w'.place (sym x) ∙ i in absurd cc
    | no ne ↦
        ap (λ x. (s.vm x).owner) (d.same u).0
        ∙ d.owner (getvm u w.store)
        ∙ k.locked u (sym (place_other u ne) ∙ i)
  ]

  drop-shut :
      (v : ℕ) → (s.vm v).closed ≡ true → (v < w.next) × IsPast (w'.place v) × ((s.vm v).nref ≡ 0)
  drop-shut v c =
      let (l, p, z) = k.shut v (sym (d.closed v) ∙ c) in
      let past : IsPast (w'.place v) = elim (ℕ_discrete v t) [
        | yes x ↦ subst IsPast (sym place_self ∙ ap w'.place (sym x)) tt
        | no ne ↦ subst IsPast (sym (place_other v ne)) p
      ] in
      let other : (getvm r w.store == v) ≡ false = elim (Bool-cases (getvm r w.store == v)) [
        | inr h ↦ h
        | inl h ↦
            let some_ref = owing-nref w t r k lt t-IsOwing e in
            let here = ap (λ x. (w.store.vm x).nref) ((==_iff (getvm r w.store) v).0 h) in
            absurd (omega (arith, some_ref, here, z))
      ] in
      (
        l,
        past,
        d.nref v
            ∙ ap
                (λ b.
                  if b then ((w.store.vm v).nref + (2 ^ 32 - 1)) % 2 ^ 32 else (w.store.vm v).nref)
                other
            ∙ z,
      )

  pub Drops-IsValid : w.next < 2 ^ 32 → IsValid w'
  Drops-IsValid room = record {
    unmade = λ u le. place_other u (λ x. omega arith) ∙ k.unmade u le;
    refs = λ u x l f. k.refs u x l (sym (d.same u).1 ∙ f);
    vms = λ u l.
        let (a, b) = k.vms u l in
        let same = (d.same u).0 in
        (
          omega (arith, same),
          ap (λ x. getvm x s) same ∙ (d.same (getvm u w.store)).0 ∙ b ∙ sym same,
        );
    subs = λ u l nf ns.
        let nf1 : w.place u ≢ fake = λ f. elim (ℕ_discrete u t) [
          | yes x ↦ subst IsOwing (ap w.place (sym x) ∙ f) t-IsOwing
          | no ne ↦ nf (place_other u ne ∙ f)
        ] in
        (d.same u).1 ∙ k.subs u l nf1 (λ x. ns ((d.same u).0 ∙ x)) ∙ ap some (sym (d.same u).0);
    counted = drop-counted room;
    locked = drop-locked;
    shut = drop-shut;
  }
