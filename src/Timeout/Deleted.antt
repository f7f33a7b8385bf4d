-- ===== src/Timeout/Deleted.antt =====
-- `timeout_del` takes an event out of its queue.
use luasys.Base.{
  ℕ, ◌≡◌, ◌≢◌, refl, sym, ◌∙◌, ap, subst, Option, none, some, List, [], ◌∷◌, ◌++◌, arith,
}
use luasys.Timeout.{Timers, set_event, link_next, link_prev, del, drop_queue}
use luasys.Timeout.Linked.{first, last, last-some}
use luasys.Timeout.Moving.{IsQueue, IsQueue-links, Front-frame, Rest-frame, unlink-IsQueue}

-- `timeout_del` with the links of the event, in the state `s` without its `tq`
abbrev del_at : ℕ → (p n : Option ℕ) → Timers → Timers
del_at q p n s =
    let unlinked = link_prev n p q (link_next p n q s) in
    elim p [ none ↦ elim n [ none ↦ drop_queue q s | some b ↦ unlinked ] | some a ↦ unlinked ]

del_at-unlinked :
    (q : ℕ) (p n : Option ℕ) (s : Timers)
    → (p ≡ none → n ≢ none)
    → del_at q p n s ≡ link_prev n p q (link_next p n q s)
del_at-unlinked q none none s h = absurd (h refl refl)
del_at-unlinked q none (some b) s h = refl
del_at-unlinked q (some a) n s h = refl

abbrev without_tq : ℕ → Timers → Timers
without_tq ev s = set_event ev (record (s.event ev) { tq = none }) s

del-del_at :
    (ev q : ℕ) (s : Timers)
    → (s.event ev).tq ≡ some q
    → let s0 = without_tq ev s in del ev s ≡ del_at q (s0.event ev).prev (s0.event ev).next s0
unfolding del
del-del_at ev q s e =
    let s0 = without_tq ev s in
    ap
      (λ (o : Option ℕ). elim o [
        | none ↦ s
        | some q ↦ del_at q (s0.event ev).prev (s0.event ev).next s0
      ])
      e

not-alone : (xs ys : List ℕ) → xs ++ ys ≢ [] → last none xs ≡ none → first ys none ≢ none
not-alone [] [] h a b = h refl
not-alone [] (y ∷ ys) h a b = cc
not-alone (x ∷ xs) ys h a b = let (z, e) = last-some x xs in let bad = sym a ∙ e in cc

-- Deleting the timeout of an event that stands between others, or first or last of several, leaves
-- the others in the queue, in order.
pub del_lem :
    (s : Timers) (q ev : ℕ) (xs ys : List ℕ)
    → IsQueue s q (xs ++ ev ∷ ys)
    → (s.event ev).tq ≡ some q
    → xs ++ ys ≢ []
    → IsQueue (del ev s) q (xs ++ ys)
del_lem s q ev xs ys k e others =
    let s0 = without_tq ev s in
    let (f, a, b, r) = IsQueue-links s q ev xs ys k in
    let p = last none xs in
    let n = first ys none in
    let prev : (s0.event ev).prev ≡ p = ground arith in
    let next : (s0.event ev).next ≡ n = ground arith in
    let whole : del ev s ≡ link_prev n p q (link_next p n q s0) =
      del-del_at ev q s e
      ∙ ap (λ x. del_at q x (s0.event ev).next s0) prev
      ∙ ap (λ x. del_at q p x s0) next
      ∙ del_at-unlinked q p n s0 (not-alone xs ys others) in
    let same : (x : ℕ)
        → ((s0.event x).prev ≡ (s.event x).prev) × ((s0.event x).next ≡ (s.event x).next) =
      λ x. (ground arith, ground arith) in
    subst (λ x. IsQueue x q (xs ++ ys)) (sym whole)
      (unlink-IsQueue s0 q ev xs ys k.distinct (Front-frame s s0 q xs (some ev) same refl f)
        (Rest-frame s s0 q (some ev) ys same refl r))
