-- ===== src/Thread/Going.antt =====
-- Each way for a thread to go on in its VM, `thread_exit` included, is one of the moves of Shape.
use luasys.Base.{
  ℕ, ◌≡◌, refl, sym, ◌∙◌, ap, subst, ◌⊎◌, inl, inr, true, none, some, arith, ◌==◌, if◌then◌else◌,
  ==_iff, on_branches,
}
use luasys.Thread.{Vm, Store, set_vm, getvm, isvm, lock, unlock, broadcast, unlist}
use luasys.Thread.Exit.{set_status, close_or_wait, leave_vm, exit_thread}
use luasys.Thread.Control.{Check, passes, exits, raises}
use luasys.Thread.World.{
  World, Place, inside, outside, closing, left, put_place, with_store, after_exit, after_check,
}
use luasys.Thread.Shape.{IsOwing, Moves}
use luasys.Thread.Calm.{Calm, Calm-refl, Calm-trans, set_status-Calm, broadcast-Calm, unlist-Calm}

-- What a VM may become when thread `t`, whose VM is `v`, goes to `q`
abbrev pub IsNext : (t v : ℕ) → Place → (x y : Vm) → Type 0
IsNext t v q x y =
    (y.nref ≡ x.nref)
    × (q ≡ inside → y.owner ≡ some t)
    × (y.closed ≡ true → (x.closed ≡ true) ⊎ ((v ≡ t) × (q ≡ left) × (x.nref ≡ 0)))

pub move-Moves :
    (t : ℕ) (q : Place) (w : World) (s1 : Store) (v : ℕ) (y : Vm)
    → Calm w.store s1
    → v ≡ getvm t w.store
    → IsNext t v q (w.store.vm v) y
    → Moves t q w (put_place t q (with_store (set_vm v y s1) w))
move-Moves t q w s1 v y c e (nref, takes, closes) = record {
  next = refl;
  at = ground arith;
  others = λ u ne. ground arith;
  same = c.same;
  nref = λ u.
      on_branches (λ (z : Vm). z.nref ≡ (w.store.vm u).nref) (u == v) y (s1.vm u)
        (λ h. nref ∙ ap (λ x. (w.store.vm x).nref) (sym ((==_iff u v).0 h)))
        (λ _. ap (λ (z : Vm). z.nref) (c.vms u));
  owner = λ u ne.
      on_branches (λ (z : Vm). z.owner ≡ (w.store.vm u).owner) (u == v) y (s1.vm u)
        (λ h. absurd (ne ((==_iff u v).0 h ∙ e))) (λ _. ap (λ (z : Vm). z.owner) (c.vms u));
  takes = λ h. subst (λ x. (if x == v then y else s1.vm x).owner ≡ some t) e (self h);
  closes = λ u.
      on_branches
        (λ (z : Vm).
          z.closed ≡ true
          → ((w.store.vm u).closed ≡ true) ⊎ ((u ≡ t) × (q ≡ left) × ((w.store.vm u).nref ≡ 0)))
        (u == v) y (s1.vm u)
        (λ h d.
          subst
            (λ x.
              ((w.store.vm x).closed ≡ true) ⊎ ((x ≡ t) × (q ≡ left) × ((w.store.vm x).nref ≡ 0)))
            (sym ((==_iff u v).0 h)) (closes d))
        (λ _ d. inl (sym (ap (λ (z : Vm). z.closed) (c.vms u)) ∙ d));
}
  where
    self : q ≡ inside → (if v == v then y else s1.vm v).owner ≡ some t
    self h =
        subst (λ b. (if b then y else s1.vm v).owner ≡ some t) (sym ((==_iff v v).1 refl)) (takes h)

-- The thread moves to a place where it still owes its reference.
abbrev pub Goes : ℕ → World → World → Type 0
Goes t w w' = (q : Place) × Moves t q w w' × IsOwing q

pub close_or_wait-Goes :
    (t : ℕ) (w : World) (s1 : Store)
    → Calm w.store s1
    → t ≡ getvm t w.store
    → Goes t w (after_exit t (close_or_wait t s1) w)
unfolding close_or_wait
close_or_wait-Goes t w s1 c e =
    let same = ap (λ (z : Vm). z.nref) (c.vms t) in
    let was = ap (λ (z : Vm). z.closed) (c.vms t) in
    on_branches (λ r. Goes t w (after_exit t r w)) ((s1.vm t).nref == 0) _ _
      (λ h. (
        left,
        move-Moves t left w s1 t _ c e
            (same, λ i. cc, λ _. inr (refl, refl, sym same ∙ (==_iff (s1.vm t).nref 0).0 h)),
        tt,
      ))
      (λ _.
        (closing, move-Moves t closing w s1 t _ c e (same, λ i. cc, λ d. inl (sym was ∙ d)), tt))

pub exit_thread-Goes :
    (t top : ℕ) (w : World) (s : Store)
    → Calm w.store s
    → Goes t w (after_exit t (exit_thread t top s) w)
unfolding exit_thread leave_vm
exit_thread-Goes t top w s c =
    let s1 = set_status t top s in
    let c1 = Calm-trans c (set_status-Calm t top s) in
    on_branches (λ r. Goes t w (after_exit t r w)) (isvm t s) _ _
      (λ h. close_or_wait-Goes t w s1 c1 ((==_iff t (getvm t s)).0 h ∙ (c.same t).0))
      (λ _.
        let c2 =
          Calm-trans c1 (Calm-trans (broadcast-Calm t s1) (unlist-Calm t (broadcast t s1))) in
        let v = getvm t s1 in
        (
          left,
          move-Moves t left w (unlist t (broadcast t s1)) v _ c2 (c1.same t).0 (
            ap (λ (z : Vm). z.nref) (c2.vms v),
            λ i. cc,
            λ d. inl (sym (ap (λ (z : Vm). z.closed) (c2.vms v)) ∙ d),
          ),
          tt,
        ))

pub stay-Moves :
    (t : ℕ) (w : World) (s1 : Store)
    → Calm w.store s1
    → w.place t ≡ inside
    → (w.store.vm (getvm t w.store)).owner ≡ some t
    → Moves t inside w (with_store s1 w)
stay-Moves t w s1 c i o = record {
  next = refl;
  at = i;
  others = λ u ne. refl;
  same = c.same;
  nref = λ v. ap (λ (z : Vm). z.nref) (c.vms v);
  owner = λ v _. ap (λ (z : Vm). z.owner) (c.vms v);
  takes = λ _. ap (λ (z : Vm). z.owner) (c.vms (getvm t w.store)) ∙ o;
  closes = λ v d. inl (sym (ap (λ (z : Vm). z.closed) (c.vms v)) ∙ d);
}

pub after_check-Goes :
    (t top : ℕ) (w : World) (c : Check) (s1 : Store)
    → Calm w.store s1
    → w.place t ≡ inside
    → (w.store.vm (getvm t w.store)).owner ≡ some t
    → Goes t w (after_check t top (c, s1) w)
after_check-Goes t top w passes s1 c i o = (inside, stay-Moves t w s1 c i o, tt)
after_check-Goes t top w raises s1 c i o = (inside, stay-Moves t w s1 c i o, tt)
after_check-Goes t top w exits s1 c i o = exit_thread-Goes t top w s1 c

-- The thread enters its VM, or gives up the lock.
pub enter-Goes :
    (t : ℕ) (w : World)
    → Goes t w (put_place t inside (with_store (lock t (getvm t w.store) w.store) w))
enter-Goes t w =
    let y = record (w.store.vm (getvm t w.store)) { owner = some t } in
    let m =
      move-Moves t inside w w.store (getvm t w.store) y (Calm-refl w.store) refl
        (refl, λ _. refl, λ c. inl c) in
    (inside, m, tt)

pub leave-Goes :
    (t : ℕ) (w : World)
    → Goes t w (put_place t outside (with_store (unlock (getvm t w.store) w.store) w))
leave-Goes t w =
    let y = record (w.store.vm (getvm t w.store)) { owner = none } in
    let m =
      move-Moves t outside w w.store (getvm t w.store) y (Calm-refl w.store) refl
        (refl, (λ i. cc), λ c. inl c) in
    (outside, m, tt)
