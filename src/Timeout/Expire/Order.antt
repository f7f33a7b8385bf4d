-- ===== src/Timeout/Expire/Order.antt =====
-- The timeouts of a queue stay in order, so that a round finds all that are due.
use luasys.Base.{
  ℕ, ◌≤◌, ◌≡◌, sym, subst, ap, on_branches, Option, List, [], ◌∷◌, ◌++◌, length, ltb, true, arith,
}
use luasys.TaskList.Ring.{NotIn}
use luasys.Timeout.{Timers, plus_int, to_long}
use luasys.Timeout.Expire.{process_queue}
use luasys.Timeout.Linked.{All}
use luasys.Timeout.Moving.{IsQueue, Distinct-split}
use luasys.Timeout.Expire.Marked.{due, not_due}
use luasys.Timeout.Expire.Round.{process_queue_lem}

-- The timeouts of the events, with their signs, are in order, and not after `bound`.
abbrev pub IsTimed : Timers → ℕ → List ℕ → Type 0
IsTimed s bound [] = Unit
IsTimed s bound (x ∷ xs) =
    ((to_long (s.event x).timeout_at) ≤ bound)
    × All (λ y. (to_long (s.event x).timeout_at) ≤ (to_long (s.event y).timeout_at)) xs
    × IsTimed s bound xs

abbrev pub NoneDue : Timers → ℕ → List ℕ → Type 0
NoneDue s timeout xs = All (λ x. timeout ≤ (to_long (s.event x).timeout_at)) xs

All_le : (s : Timers) (a b : ℕ) (xs : List ℕ) → a ≤ b → NoneDue s b xs → NoneDue s a xs
All_le s a b [] h c = tt
All_le s a b (x ∷ xs) h (d, c) = (omega arith, All_le s a b xs h c)

not_due-NoneDue :
    (s : Timers) (bound timeout : ℕ) (xs : List ℕ)
    → IsTimed s bound xs
    → NoneDue s timeout (not_due s timeout xs) × IsTimed s bound (not_due s timeout xs)
not_due-NoneDue s bound timeout [] h = (tt, tt)
not_due-NoneDue s bound timeout (x ∷ xs) (a, b, c) =
    on_branches (λ l. NoneDue s timeout l × IsTimed s bound l)
      (ltb (to_long (s.event x).timeout_at) timeout) (not_due s timeout xs) (x ∷ xs)
      (λ _. not_due-NoneDue s bound timeout xs c)
      (λ h.
        let le : timeout ≤ (to_long (s.event x).timeout_at) = ground arith in
        ((le, All_le s timeout (to_long (s.event x).timeout_at) xs le b), (a, b, c)))

All_append : (P : ℕ → Type 0) (xs ys : List ℕ) → All P xs → All P ys → All P (xs ++ ys)
All_append P [] ys a b = b
All_append P (x ∷ xs) ys (p, a) b = (p, All_append P xs ys a b)

abbrev AllAt : Timers → ℕ → List ℕ → Type 0
AllAt s bound ys = All (λ y. (to_long (s.event y).timeout_at) ≡ bound) ys

AllAt-NoneDue :
    (s : Timers) (t bound : ℕ) (ys : List ℕ) → t ≤ bound → AllAt s bound ys → NoneDue s t ys
AllAt-NoneDue s t bound [] l e = tt
AllAt-NoneDue s t bound (y ∷ ys) l (e, r) = (omega (arith, e), AllAt-NoneDue s t bound ys l r)

AllAt-IsTimed : (s : Timers) (bound : ℕ) (ys : List ℕ) → AllAt s bound ys → IsTimed s bound ys
AllAt-IsTimed s bound [] e = tt
AllAt-IsTimed s bound (y ∷ ys) (e, r) = (
  omega (arith, e),
  AllAt-NoneDue s (to_long (s.event y).timeout_at) bound ys (omega (arith, e)) r,
  AllAt-IsTimed s bound ys r,
)

pub IsTimed-append :
    (s : Timers) (bound : ℕ) (xs ys : List ℕ)
    → IsTimed s bound xs
    → AllAt s bound ys
    → IsTimed s bound (xs ++ ys)
IsTimed-append s bound [] ys h e = AllAt-IsTimed s bound ys e
IsTimed-append s bound (x ∷ xs) ys (a, b, c) e = (
  a,
  All_append (λ y. (to_long (s.event x).timeout_at) ≤ (to_long (s.event y).timeout_at)) xs ys b
      (AllAt-NoneDue s (to_long (s.event x).timeout_at) bound ys a e),
  IsTimed-append s bound xs ys c e,
)

abbrev SameTimes : Timers → Timers → List ℕ → Type 0
SameTimes s s' xs =
    All (λ x. (to_long (s'.event x).timeout_at) ≡ (to_long (s.event x).timeout_at)) xs

NoneDue-frame :
    (s s' : Timers) (t : ℕ) (xs : List ℕ) → SameTimes s s' xs → NoneDue s t xs → NoneDue s' t xs
NoneDue-frame s s' t [] h c = tt
NoneDue-frame s s' t (x ∷ xs) (e, h) (d, c) = (omega (arith, e), NoneDue-frame s s' t xs h c)

IsTimed-frame :
    (s s' : Timers) (bound : ℕ) (xs : List ℕ)
    → SameTimes s s' xs
    → IsTimed s bound xs
    → IsTimed s' bound xs
IsTimed-frame s s' bound [] h c = tt
IsTimed-frame s s' bound (x ∷ xs) (e, h) (a, b, c) = (
  omega (arith, e),
  subst (λ t. NoneDue s' t xs) (sym e) (NoneDue-frame s s' (to_long (s.event x).timeout_at) xs h b),
  IsTimed-frame s s' bound xs h c,
)

All_map2 : (P Q : ℕ → Type 0) (xs : List ℕ) → ((x : ℕ) → P x → Q x) → All P xs → All Q xs
All_map2 P Q [] f a = tt
All_map2 P Q (x ∷ xs) f (p, a) = (f x p, All_map2 P Q xs f a)

-- When the timeouts of a queue are in order as numbers with a sign, and not after that of an event
-- which is reset now, whose sum may have wrapped around, then after a round of `timeout_process`
-- no event that was not made ready has a timeout before `timeout`, and the timeouts are in order
-- again.
pub process_queue-IsTimed :
    (s : Timers) (f q timeout now : ℕ) (ready : Option ℕ) (xs : List ℕ)
    → IsQueue s q xs
    → length xs ≤ f
    → IsTimed s (to_long (plus_int now (s.queue q).msec)) xs
    → let s' = (process_queue f q timeout now ready s).1 in
      NoneDue s' timeout (not_due s timeout xs)
      × IsQueue s' q (not_due s timeout xs ++ due s timeout xs)
      × IsTimed s'
          (to_long (plus_int now (s.queue q).msec))
          (not_due s timeout xs ++ due s timeout xs)
process_queue-IsTimed s f q timeout now ready xs k le h =
    let at : ℕ = plus_int now (s.queue q).msec in
    let bound : ℕ = to_long at in
    let s' = (process_queue f q timeout now ready s).1 in
    let turned = process_queue_lem s f q timeout now ready xs k le in
    let r = not_due s timeout xs in
    let d = due s timeout xs in
    let apart = (Distinct-split r d turned.queue.distinct).2 in
    let same =
      All_map2 (λ x. NotIn x d)
        (λ x. (to_long (s'.event x).timeout_at) ≡ (to_long (s.event x).timeout_at)) r
        (λ x h. ap to_long (turned.others x h)) apart in
    let (none_due, timed) = not_due-NoneDue s bound timeout xs h in
    let at_bound =
      All_map2 (λ x. ((s'.event x).timeout_at ≡ at) × ((s'.event x).timed_out ≡ true))
        (λ x. (to_long (s'.event x).timeout_at) ≡ bound) d (λ x p. ap to_long p.0) turned.times in
    (
      NoneDue-frame s s' timeout r same none_due,
      turned.queue,
      IsTimed-append s' bound r d (IsTimed-frame s s' bound r same timed) at_bound,
    )
