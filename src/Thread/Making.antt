-- ===== src/Thread/Making.antt =====
-- New threads in a VM: what holds between the steps holds after `thread_run`.
use luasys.Base.{
  some-inj, ℕ, suc, ◌+◌, ◌%◌, ◌^◌, ◌≤◌, ◌<◌, ◌≡◌, ◌≢◌, refl, sym, ◌∙◌, ap, subst, Bool, true, false,
  Option, none, some, arith, ◌==◌, if◌then◌else◌, ==_iff, Option-cases, inl, inr, Bool-cases, ltb,
  ltb→lt,
}
use native.Mathlib.Decide.{ℕ_discrete}
use luasys.Thread.{Store, getvm}
use luasys.Thread.World.{World, Place, starting, inside, outside, closing, left, gone, fake, failed}
use luasys.Thread.Counts.{sum, sum-same, le-sum, one_ref, owed, target, owes, refs_of, refs_of-le}
use luasys.Thread.Shape.{
  IsPast, IsRunning, IsRunning-IsOwing, not-IsPast, IsValid, IsOwing, owed-IsOwing,
}

abbrev pub IsMade : Place → Type 0
IsMade starting = Unit
IsMade inside = ⊥
IsMade outside = ⊥
IsMade closing = ⊥
IsMade left = ⊥
IsMade gone = ⊥
IsMade fake = ⊥
IsMade failed = Unit

pub IsMade-IsOwing : (p : Place) → IsMade p → IsOwing p
IsMade-IsOwing starting h = tt
IsMade-IsOwing failed h = tt
IsMade-IsOwing inside h = absurd h
IsMade-IsOwing outside h = absurd h
IsMade-IsOwing closing h = absurd h
IsMade-IsOwing left h = absurd h
IsMade-IsOwing gone h = absurd h
IsMade-IsOwing fake h = absurd h

-- The threads there were before stay where they are.
pub record Keeps (w w' : World) : Type 0 where
  pub place : (u : ℕ) → u < w.next → w'.place u ≡ w.place u
  pub vmtd : (u : ℕ) → u < w.next → getvm u w'.store ≡ getvm u w.store
  pub reftd : (u : ℕ) → u < w.next → (w'.store.thread u).reftd ≡ (w.store.thread u).reftd

pub target-some :
    (s : Store) (u r : ℕ) → (s.thread u).reftd ≡ some r → target s u ≡ some (getvm r s)
target-some s u r e = ap (λ (o : Option ℕ). elim o [ none ↦ none | some r ↦ some (getvm r s) ]) e

pub target-none : (s : Store) (u : ℕ) → (s.thread u).reftd ≡ none → target s u ≡ none
target-none s u e = ap (λ (o : Option ℕ). elim o [ none ↦ none | some r ↦ some (getvm r s) ]) e

pub owed-target :
    (w : World) (u r v : ℕ)
    → IsOwing (w.place u)
    → (w.store.thread u).reftd ≡ some r
    → owes w v u ≡ (if getvm r w.store == v then 1 else 0)
owed-target w u r v h e =
    owed-IsOwing (w.place u) (target w.store u) v h
    ∙ ap (λ o. one_ref o v) (target-some w.store u r e)

module _ {w w' : World} (m : Keeps w w') (k : IsValid w) where
  pub Keeps-target : (u : ℕ) → u < w.next → target w'.store u ≡ target w.store u
  Keeps-target u lt = elim (Option-cases (w.store.thread u).reftd) [
    | inl e ↦ target-none w'.store u (m.reftd u lt ∙ e) ∙ sym (target-none w.store u e)
    | inr (r, e) ↦
        target-some w'.store u r (m.reftd u lt ∙ e)
        ∙ ap some (m.vmtd r (k.refs u r lt e))
        ∙ sym (target-some w.store u r e)
  ]

  pub Keeps-sum : (v : ℕ) → sum w.next (owes w' v) ≡ refs_of v w
  Keeps-sum v = sum-same w.next (owes w' v) (owes w v) λ u lt.
      ap (λ p. owed p (target w'.store u) v) (m.place u lt)
      ∙ ap (λ o. owed (w.place u) o v) (Keeps-target u lt)

  pub Keeps-vms :
      w.next ≤ w'.next
      → (u : ℕ) → u < w.next
      → (getvm u w'.store < w'.next) × (getvm (getvm u w'.store) w'.store ≡ getvm u w'.store)
  Keeps-vms le u lt =
      let (a, b) = k.vms u lt in
      let e = m.vmtd u lt in
      (omega (arith, e), ap (λ x. getvm x w'.store) e ∙ m.vmtd (getvm u w.store) a ∙ b ∙ sym e)

  pub Keeps-subs :
      (u : ℕ)
      → u < w.next
      → w'.place u ≢ fake
      → getvm u w'.store ≢ u
      → (w'.store.thread u).reftd ≡ some (getvm u w'.store)
  Keeps-subs u lt nf ns =
      m.reftd u lt
      ∙ k.subs u lt (λ f. nf (m.place u lt ∙ f)) (λ e. ns (m.vmtd u lt ∙ e))
      ∙ ap some (sym (m.vmtd u lt))

-- A VM that a thread refers to is not closed.
pub owing-nref :
    (w : World) (u r : ℕ)
    → IsValid w
    → u < w.next
    → IsOwing (w.place u)
    → (w.store.thread u).reftd ≡ some r
    → 1 ≤ (w.store.vm (getvm r w.store)).nref
owing-nref w u r k lt h e =
    let v = getvm r w.store in
    let one = owed-target w u r v h e ∙ ap (λ b. if b then 1 else 0) ((==_iff v v).1 refl) in
    omega (arith, one, le-sum w.next (owes w v) u lt, k.counted v)

pub running-open :
    (w : World) (t : ℕ)
    → IsValid w
    → t < w.next
    → IsRunning (w.place t)
    → (w.store.vm (getvm t w.store)).closed ≢ true
running-open w t k lt run c =
    let (l, past, z) = k.shut (getvm t w.store) c in
    elim (ℕ_discrete (getvm t w.store) t) [
      | yes e ↦ not-IsPast (w.place t) run (subst (λ x. IsPast (w.place x)) e past)
      | no ne ↦
          let owing = IsRunning-IsOwing (w.place t) run in
          let nf : w.place t ≢ fake = λ f. subst IsOwing f owing in
          let some_ref = owing-nref w t (getvm t w.store) k lt owing (k.subs t lt nf ne) in
          let main = (k.vms t lt).1 in
          let here : 1 ≤ (w.store.vm (getvm t w.store)).nref =
            subst (λ x. 1 ≤ (w.store.vm x).nref) main some_ref in
          omega (arith, here, z)
    ]

-- A thread made in the VM of thread `t`
pub record Runs (t : ℕ) (w w' : World) : Type 0 where
  pub keeps : Keeps w w'
  pub next : w'.next ≡ suc w.next
  pub made : IsMade (w'.place w.next)
  pub unmade : (u : ℕ) → w.next < u → w'.place u ≡ w.place u
  pub vmtd : getvm w.next w'.store ≡ getvm t w.store
  pub reftd : (w'.store.thread w.next).reftd ≡ some (getvm t w.store)
  pub nref :
      (v : ℕ)
      → (w'.store.vm v).nref
        ≡ (if getvm t w.store == v then ((w.store.vm v).nref + 1) % 2 ^ 32 else (w.store.vm v).nref)
  pub owner : (v : ℕ) → (w'.store.vm v).owner ≡ (w.store.vm v).owner
  pub closed : (v : ℕ) → (w'.store.vm v).closed ≡ (w.store.vm v).closed

pub counted_more :
    (b : Bool) (n c m : ℕ)
    → n ≡ (if b then (c + 1) % 2 ^ 32 else c)
    → c < m
    → m < 2 ^ 32
    → n ≡ c + (if b then 1 else 0)
counted_more true n c m e l l2 = omega (arith, e)
counted_more false n c m e l l2 = omega (arith, e)

module _ {t : ℕ} {w w' : World} (m : Runs t w w') (k : IsValid w) (lt : t < w.next) where
  Runs-counted : w.next + 1 < 2 ^ 32 → (v : ℕ) → (w'.store.vm v).nref ≡ refs_of v w'
  Runs-counted room v =
      let (a, main) = k.vms t lt in
      let last : owes w' v w.next ≡ (if getvm t w.store == v then 1 else 0) =
        owed-target w' w.next (getvm t w.store) v (IsMade-IsOwing (w'.place w.next) m.made) m.reftd
        ∙ ap (λ x. if x == v then 1 else 0) (m.keeps.vmtd (getvm t w.store) a ∙ main) in
      let all : refs_of v w' ≡ sum (suc w.next) (owes w' v) = ap (λ n. sum n (owes w' v)) m.next in
      let old = Keeps-sum m.keeps k v in
      let more =
        counted_more (getvm t w.store == v) (w'.store.vm v).nref (w.store.vm v).nref (suc w.next)
          (m.nref v) (omega (arith, k.counted v, refs_of-le v w)) (omega arith) in
      omega (arith, last, all, old, more, k.counted v)

  Runs-old : (u : ℕ) → u < w'.next → u ≢ w.next → u < w.next
  Runs-old u l ne = omega (arith, m.next)

  Runs-vms :
      (getvm w.next w'.store < w'.next)
      × (getvm (getvm w.next w'.store) w'.store ≡ getvm w.next w'.store)
  Runs-vms =
      let (a, main) = k.vms t lt in
      (
        omega (arith, m.vmtd, m.next),
        ap (λ x. getvm x w'.store) m.vmtd ∙ m.keeps.vmtd (getvm t w.store) a ∙ main ∙ sym m.vmtd,
      )

  Runs-refs : (r : ℕ) → (w'.store.thread w.next).reftd ≡ some r → r < w'.next
  Runs-refs r e =
      let same = some-inj (sym e ∙ m.reftd) in omega (arith, same, (k.vms t lt).0, m.next)

  Runs-locked : (u : ℕ) → w'.place u ≡ inside → (w'.store.vm (getvm u w'.store)).owner ≡ some u
  Runs-locked u i = elim (Bool-cases (ltb u w.next)) [
    | inl h ↦
        let l = ltb→lt u w.next h in
        m.owner (getvm u w'.store)
        ∙ ap (λ x. (w.store.vm x).owner) (m.keeps.vmtd u l)
        ∙ k.locked u (sym (m.keeps.place u l) ∙ i)
    | inr h ↦ elim (ℕ_discrete u w.next) [
      | yes e ↦ absurd (subst IsMade (ap w'.place (sym e) ∙ i) m.made)
      | no ne ↦
          let gone_inside : gone ≡ inside =
            sym (k.unmade u (ground arith)) ∙ sym (m.unmade u (ground arith)) ∙ i in
          absurd cc
    ]
  ]

  Runs-shut :
      IsRunning (w.place t)
      → (v : ℕ) → (w'.store.vm v).closed ≡ true
      → (v < w'.next) × IsPast (w'.place v) × ((w'.store.vm v).nref ≡ 0)
  Runs-shut run v c =
      let was = sym (m.closed v) ∙ c in
      let (l, p, z) = k.shut v was in
      let other : (getvm t w.store == v) ≡ false = elim (Bool-cases (getvm t w.store == v)) [
        | inr ne ↦ ne
        | inl e ↦ absurd (
            running-open w t k lt run
              (ap (λ x. (w.store.vm x).closed) ((==_iff (getvm t w.store) v).0 e) ∙ was))
      ] in
      (
        omega (arith, m.next),
        subst IsPast (sym (m.keeps.place v l)) p,
        m.nref v
            ∙ ap (λ b. if b then ((w.store.vm v).nref + 1) % 2 ^ 32 else (w.store.vm v).nref) other
            ∙ z,
      )

  pub Runs-IsValid : IsRunning (w.place t) → w.next + 1 < 2 ^ 32 → IsValid w'
  Runs-IsValid run room = record {
    unmade = λ u le. m.unmade u (omega (arith, m.next)) ∙ k.unmade u (omega (arith, m.next));
    refs = λ u r l e. elim (ℕ_discrete u w.next) [
      | yes d ↦ Runs-refs r (ap (λ x. (w'.store.thread x).reftd) (sym d) ∙ e)
      | no ne ↦
          let old = Runs-old u l ne in
          omega (arith, m.next, k.refs u r old (sym (m.keeps.reftd u old) ∙ e))
    ];
    vms = λ u l. elim (ℕ_discrete u w.next) [
      | yes d ↦
          subst
            (λ x.
              (getvm x w'.store < w'.next) × (getvm (getvm x w'.store) w'.store ≡ getvm x w'.store))
            (sym d) Runs-vms
      | no ne ↦ Keeps-vms m.keeps k (omega (arith, m.next)) u (Runs-old u l ne)
    ];
    subs = λ u l nf ns. elim (ℕ_discrete u w.next) [
      | yes d ↦
          subst (λ x. (w'.store.thread x).reftd ≡ some (getvm x w'.store)) (sym d)
            (m.reftd ∙ ap some (sym m.vmtd))
      | no ne ↦ Keeps-subs m.keeps k u (Runs-old u l ne) nf ns
    ];
    counted = Runs-counted room;
    locked = Runs-locked;
    shut = Runs-shut run;
  }
