-- ===== src/Timeout/Wait.antt =====
-- How long `timeout_get` lets the event loop wait.
use luasys.Base.{
  refl, ℕ, zero, suc, ◌-◌, ◌≤◌, ◌≡◌, ◌⊎◌, inl, inr, Option, none, some, List, [], ◌∷◌, length,
  arith, ltb, if◌then◌else◌, ap, ◌∙◌, sym, subst, min, on_branches, ltb→lt,
}
use luasys.Timeout.{Timers, head_at, least, get, max_timeout, plus_int, to_long}

-- The queues from `q` on, in the order of the list.
abbrev pub Chain : Timers → ℕ → List ℕ → Type 0
Chain s q [] = ⊥
Chain s q (x ∷ []) = (x ≡ q) × ((s.queue q).tq_next ≡ none)
Chain s q (x ∷ y ∷ ys) = (x ≡ q) × ((s.queue q).tq_next ≡ some y) × Chain s y (y ∷ ys)

-- No queue has a timeout before `t`.
abbrev pub NoneBefore : Timers → ℕ → List ℕ → Type 0
NoneBefore s t [] = Unit
NoneBefore s t (q ∷ qs) = (to_long t ≤ to_long (head_at s q)) × NoneBefore s t qs

-- Some queue has its first timeout at `t`.
abbrev pub SomeAt : Timers → ℕ → List ℕ → Type 0
SomeAt s t [] = ⊥
SomeAt s t (q ∷ qs) = (t ≡ head_at s q) ⊎ SomeAt s t qs

least-none :
    (f q min : ℕ) (s : Timers)
    → (s.queue q).tq_next ≡ none
    → least (suc f) q min s
      ≡ (if ltb (to_long (head_at s q)) (to_long min) then head_at s q else min)
unfolding least
least-none f q min s e = ground arith

least-some :
    (f q min n : ℕ) (s : Timers)
    → (s.queue q).tq_next ≡ some n
    → least (suc f) q min s
      ≡ least f n (if ltb (to_long (head_at s q)) (to_long min) then head_at s q else min) s
unfolding least
least-some f q min n s e = ground arith

-- The loop's result is the smallest of its start and the first timeouts.
abbrev IsLeast : Timers → ℕ → List ℕ → ℕ → Type 0
IsLeast s min qs t = (to_long t ≤ to_long min) × NoneBefore s t qs × ((t ≡ min) ⊎ SomeAt s t qs)

abbrev smaller : ℕ → ℕ → ℕ
smaller a b = if ltb (to_long a) (to_long b) then a else b

smaller-cases :
    (a b : ℕ)
    → (to_long (smaller a b) ≤ to_long a)
      × (to_long (smaller a b) ≤ to_long b)
      × ((smaller a b ≡ b) ⊎ (smaller a b ≡ a))
smaller-cases a b =
    on_branches (λ c. (to_long c ≤ to_long a) × (to_long c ≤ to_long b) × ((c ≡ b) ⊎ (c ≡ a)))
      (ltb (to_long a) (to_long b)) a b
      (λ h. let lt = ltb→lt _ _ h in (omega arith, omega arith, inr refl))
      (λ h. (ground arith, omega arith, inl refl))

least-IsLeast :
    (qs : List ℕ) (f q min : ℕ) (s : Timers)
    → Chain s q qs
    → length qs ≤ f
    → IsLeast s min qs (least f q min s)
least-IsLeast [] f q min s c le = absurd c
least-IsLeast (x ∷ qs) zero q min s c le = absurd (omega arith)
least-IsLeast (x ∷ []) (suc f) q min s (e, n) le =
    let (a, b, d) = smaller-cases (head_at s q) min in
    let all : IsLeast s min (q ∷ []) (smaller (head_at s q) min) =
      (b, (a, tt), elim d [ inl m ↦ inl m | inr h ↦ inr (inl h) ]) in
    subst (λ z. IsLeast s min (z ∷ []) (least (suc f) q min s)) (sym e)
      (subst (IsLeast s min (q ∷ [])) (sym (least-none f q min s n)) all)
least-IsLeast (x ∷ y ∷ ys) (suc f) q min s (e, n, c) le =
    let (a, b, d) = smaller-cases (head_at s q) min in
    let (u, v, w) = least-IsLeast (y ∷ ys) f y (smaller (head_at s q) min) s c (omega arith) in
    let all : IsLeast s min (q ∷ y ∷ ys) (least f y (smaller (head_at s q) min) s) = (
      omega arith,
      (omega arith, v),
      elim w [
        | inr h ↦ inr (inr h)
        | inl m ↦ elim d [ inl k ↦ inl (m ∙ k) | inr h ↦ inr (inl (m ∙ h)) ]
      ],
    ) in
    subst (λ z. IsLeast s min (z ∷ y ∷ ys) (least (suc f) q min s)) (sym e)
      (subst (IsLeast s min (q ∷ y ∷ ys)) (sym (least-some f q min y s n)) all)

-- Where the search starts: at the time that the caller asked for, or at a timeout.
abbrev pub start_at : Timers → ℕ → Option ℕ → ℕ → ℕ
start_at s q none now = head_at s q
start_at s q (some m) now = plus_int m now

clipped : (d : ℕ) → (if ltb max_timeout d then max_timeout else d) ≡ min d max_timeout
clipped d = ground arith

-- `timeout_get` on the list of queues returns the milliseconds from `now` to a time `t`, as
-- numbers with a sign, at most MAX_TIMEOUT and 0 for a time that is not after `now`. No queue has
-- a timeout before `t`, `t` is not after the time that the caller asked for, a sum that may wrap
-- around, and it is that time or the first timeout of a queue. The list has as many queues as
-- there is fuel, or fewer.
pub get_lem :
    (qs : List ℕ) (f q : ℕ) (asked : Option ℕ) (now : ℕ) (s : Timers)
    → Chain s q qs
    → length qs ≤ f
    → (t : ℕ) × (get f (some q) asked now s ≡ some (min (to_long t - to_long now) max_timeout))
      × (to_long t ≤ to_long (start_at s q asked now))
      × NoneBefore s t qs
      × ((t ≡ start_at s q asked now) ⊎ SomeAt s t qs)
unfolding get
get_lem qs f q none now s c le =
    let (a, b, d) = least-IsLeast qs f q (head_at s q) s c le in
    (
      least f q (head_at s q) s,
      ap some (clipped (to_long (least f q (head_at s q) s) - to_long now)),
      a,
      b,
      d,
    )
get_lem qs f q (some m) now s c le =
    let (a, b, d) = least-IsLeast qs f q (plus_int m now) s c le in
    (
      least f q (plus_int m now) s,
      ap some (clipped (to_long (least f q (plus_int m now) s) - to_long now)),
      a,
      b,
      d,
    )
