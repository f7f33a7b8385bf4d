-- ===== src/Thread/NewValid.antt =====
-- What holds between the steps holds after a new VM was made, and the thread that stands for it.
use luasys.Base.{
  some-inj, ℕ, zero, suc, ◌+◌, ◌%◌, ◌^◌, ◌≤◌, ◌<◌, ◌≡◌, ◌≢◌, refl, sym, ◌∙◌, ap, subst, true, false,
  some, arith, ◌==◌, if◌then◌else◌, ==_iff, inl, inr, Option-cases, Bool-cases, ltb, ltb→lt,
}
use native.Mathlib.Decide.{ℕ_discrete}
use luasys.Thread.{getvm}
use luasys.Thread.World.{World, inside, gone, fake}
use luasys.Thread.Counts.{sum, sum-same, one_ref, owed, target, owes, refs_of, refs_of-le, owed-le}
use luasys.Thread.Shape.{IsPast, IsRunning, IsValid}
use luasys.Thread.Making.{
  IsMade, IsMade-IsOwing, target-some, target-none, Keeps-sum, Keeps-vms, Keeps-subs, owed-target,
  running-open, counted_more,
}
use luasys.Thread.NewVm.{RunsVm}

-- A thread is an old one, the new main thread, the one that stands for it, or not made yet.
pub data Which (n u : ℕ) : Type 0 where
  old : u < n → Which n u
  main : n ≡ u → Which n u
  stand : suc n ≡ u → Which n u
  none_yet : suc n < u → Which n u

pub which : (n u : ℕ) → Which n u
which n u = elim (Bool-cases (ltb u n)) [
  | inl l ↦ old (ltb→lt u n l)
  | inr ge ↦ elim (ℕ_discrete n u) [
    | yes e ↦ main e
    | no ne ↦ elim (ℕ_discrete (suc n) u) [
      | yes e ↦ stand e
      | no ne2 ↦ none_yet (let le : n ≤ u = ground arith in omega arith)
    ]
  ]
]

sum-zero : (n : ℕ) → sum n (λ _. 0) ≡ 0
sum-zero zero = refl
sum-zero (suc n) = omega (arith, sum-zero n)

module _ {t : ℕ} {w w' : World} (m : RunsVm t w w') (k : IsValid w) (lt : t < w.next) where
  -- Nobody refers to a VM that is new.
  refs_of-new : refs_of w.next w ≡ 0
  refs_of-new = sum-same w.next (owes w w.next) (λ _. 0) nobody ∙ sum-zero w.next
    where
      nobody : (u : ℕ) → u < w.next → owes w w.next u ≡ 0
      nobody u l =
          let some_at : owes w w.next u ≤ one_ref (target w.store u) w.next =
            owed-le (w.place u) (target w.store u) w.next in
          elim (Option-cases (w.store.thread u).reftd) [
            | inl e ↦
                let z = ap (λ o. one_ref o w.next) (target-none w.store u e) in
                omega (arith, some_at, z)
            | inr (r, e) ↦
                let z = ap (λ o. one_ref o w.next) (target-some w.store u r e) in
                let far = (k.vms r (k.refs u r l e)).0 in
                let other : one_ref (some (getvm r w.store)) w.next ≡ 0 = ground arith in
                omega (arith, some_at, z, other)
          ]

  new-counted : w.next + 2 < 2 ^ 32 → (v : ℕ) → (w'.store.vm v).nref ≡ refs_of v w'
  new-counted room v =
      let a = (k.vms t lt).0 in
      let last : owes w' v w.next ≡ (if getvm t w.store == v then 1 else 0) =
        owed-target w' w.next t v (IsMade-IsOwing (w'.place w.next) m.made) m.reftd
        ∙ ap (λ x. if x == v then 1 else 0) (m.keeps.vmtd t lt) in
      let stands : owes w' v (suc w.next) ≡ 0 =
        ap (λ p. owed p (target w'.store (suc w.next)) v) m.stands in
      let all : refs_of v w' ≡ sum (suc (suc w.next)) (owes w' v) =
        ap (λ n. sum n (owes w' v)) m.next in
      let before = Keeps-sum m.keeps k v in
      elim (ℕ_discrete v w.next) [
        | yes e ↦
            let zero_refs : refs_of v w ≡ 0 = ap (λ x. refs_of x w) e ∙ refs_of-new in
            let here : (w'.store.vm v).nref ≡ 0 = ap (λ x. (w'.store.vm x).nref) e ∙ m.nref_new in
            let nobody : one_ref (some (getvm t w.store)) v ≡ 0 = ground arith in
            omega (arith, last, stands, all, before, zero_refs, here, nobody)
        | no ne ↦
            let more =
              counted_more (getvm t w.store == v) (w'.store.vm v).nref (w.store.vm v).nref
                (suc w.next) (m.nref v ne) (omega (arith, k.counted v, refs_of-le v w))
                (omega arith) in
            omega (arith, last, stands, all, before, more, k.counted v)
      ]

  abbrev RefsAt : ℕ → Type 0
  RefsAt u = (r : ℕ) → (w'.store.thread u).reftd ≡ some r → r < w'.next

  new-refs : (u : ℕ) → u < w'.next → RefsAt u
  new-refs u l = elim (which w.next u) [
    | old o ↦ λ r e. omega (arith, m.next, k.refs u r o (sym (m.keeps.reftd u o) ∙ e))
    | main d ↦ subst RefsAt d (λ r e. omega (arith, some-inj (sym e ∙ m.reftd), m.next))
    | stand d ↦ subst RefsAt d (λ r e. omega (arith, some-inj (sym e ∙ m.fake_reftd), m.next))
    | none_yet g ↦ absurd (omega (arith, m.next))
  ]

  abbrev VmAt : ℕ → Type 0
  VmAt u = (getvm u w'.store < w'.next) × (getvm (getvm u w'.store) w'.store ≡ getvm u w'.store)

  new-vms : (u : ℕ) → u < w'.next → VmAt u
  new-vms u l = elim (which w.next u) [
    | old o ↦ Keeps-vms m.keeps k (omega (arith, m.next)) u o
    | main d ↦
        subst VmAt d
          (omega (arith, m.vmtd, m.next), ap (λ x. getvm x w'.store) m.vmtd ∙ m.vmtd ∙ sym m.vmtd)
    | stand d ↦
        let (a, b) = k.vms t lt in
        subst VmAt d (
          omega (arith, m.fake_vmtd, m.next),
          ap (λ x. getvm x w'.store) m.fake_vmtd
              ∙ m.keeps.vmtd (getvm t w.store) a
              ∙ b
              ∙ sym m.fake_vmtd,
        )
    | none_yet g ↦ absurd (omega (arith, m.next))
  ]

  abbrev SubAt : ℕ → Type 0
  SubAt u =
      w'.place u ≢ fake → getvm u w'.store ≢ u → (w'.store.thread u).reftd ≡ some (getvm u w'.store)

  new-subs : (u : ℕ) → u < w'.next → SubAt u
  new-subs u l = elim (which w.next u) [
    | old o ↦ Keeps-subs m.keeps k u o
    | main d ↦ subst SubAt d (λ _ ns. absurd (ns m.vmtd))
    | stand d ↦ subst SubAt d (λ nf _. absurd (nf m.stands))
    | none_yet g ↦ absurd (omega (arith, m.next))
  ]

  abbrev LockAt : ℕ → Type 0
  LockAt u = w'.place u ≡ inside → (w'.store.vm (getvm u w'.store)).owner ≡ some u

  new-locked : (u : ℕ) → LockAt u
  new-locked u = elim (which w.next u) [
    | old o ↦ λ i.
        let same = m.keeps.vmtd u o in
        let (a, b) = k.vms u o in
        ap (λ x. (w'.store.vm x).owner) same
        ∙ m.owner (getvm u w.store) (λ e. omega arith)
        ∙ k.locked u (sym (m.keeps.place u o) ∙ i)
    | main d ↦ subst LockAt d (λ i. absurd (subst IsMade i m.made))
    | stand d ↦ subst LockAt d (λ i. let bad : fake ≡ inside = sym m.stands ∙ i in absurd cc)
    | none_yet g ↦ λ i.
        let bad : gone ≡ inside = sym (k.unmade u (omega arith)) ∙ sym (m.unmade u g) ∙ i in
        absurd cc
  ]

  new-shut :
      IsRunning (w.place t)
      → (v : ℕ) → (w'.store.vm v).closed ≡ true
      → (v < w'.next) × IsPast (w'.place v) × ((w'.store.vm v).nref ≡ 0)
  new-shut run v c = elim (m.closed v c) [
    | inr (e, p) ↦ (
      omega (arith, m.next),
      subst IsPast (sym p) tt,
      ap (λ x. (w'.store.vm x).nref) e ∙ m.nref_new,
    )
    | inl (ne, was) ↦
        let (l, p, z) = k.shut v was in
        let other : (getvm t w.store == v) ≡ false = elim (Bool-cases (getvm t w.store == v)) [
          | inr d ↦ d
          | inl e ↦ absurd (
              running-open w t k lt run
                (ap (λ x. (w.store.vm x).closed) ((==_iff (getvm t w.store) v).0 e) ∙ was))
        ] in
        (
          omega (arith, m.next),
          subst IsPast (sym (m.keeps.place v l)) p,
          m.nref v ne
              ∙ ap (λ b. if b then ((w.store.vm v).nref + 1) % 2 ^ 32 else (w.store.vm v).nref)
                  other
              ∙ z,
        )
  ]

  pub RunsVm-IsValid : IsRunning (w.place t) → w.next + 2 < 2 ^ 32 → IsValid w'
  RunsVm-IsValid run room = record {
    unmade = λ u le. m.unmade u (omega (arith, m.next)) ∙ k.unmade u (omega (arith, m.next));
    refs = λ u r l. new-refs u l r;
    vms = new-vms;
    subs = new-subs;
    counted = new-counted room;
    locked = new-locked;
    shut = new-shut run;
  }
