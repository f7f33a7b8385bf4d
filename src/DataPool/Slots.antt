-- ===== src/DataPool/Slots.antt =====
-- How `dpool_put` lays one tuple out in the table, and how `dpool_get` takes it out again.
use luasys.Base.{
  ℕ, zero, suc, ◌+◌, ◌≤◌, ◌<◌, ◌≡◌, refl, ◌≢◌, List, [], ◌∷◌, ◌++◌, reverse, length, length-append,
  arith, ◌∙◌, ap, ap₂, subst,
}
use mathlib.Core.List.{reverse-append}
use luasys.Lua.{LuaValue}
use luasys.DataPool.{Table, set_at, push_slots, pop_slots}

module _ {V : Type 0} where
  -- The slots above `i` hold the values, in order.
  abbrev pub Slots : Table V → ℕ → List V → Type 0
  Slots t i [] = Unit
  Slots t i (v ∷ vs) = (t (i + 1) ≡ v) × Slots t (i + 1) vs

  -- Two tables agree on the slots above `lo`, up to `hi`.
  abbrev pub Agree : Table V → Table V → ℕ → ℕ → Type 0
  Agree t u lo hi = (i : ℕ) → lo < i → i ≤ hi → u i ≡ t i

  pub set_at_self : (t : Table V) (i : ℕ) (v : V) → set_at t i v i ≡ v
  unfolding set_at
  set_at_self t i v = ground arith

  pub set_at_ne : (t : Table V) (i j : ℕ) (v : V) → i ≢ j → set_at t i v j ≡ t j
  unfolding set_at
  set_at_ne t i j v h = ground arith

  pub Slots-Agree :
      (vs : List V) (t u : Table V) (i : ℕ)
      → Agree t u i (i + length vs)
      → Slots t i vs
      → Slots u i vs
  Slots-Agree [] t u i same s = tt
  Slots-Agree (v ∷ vs) t u i same s = (
    same (i + 1) (omega arith) (omega arith) ∙ s.0,
    Slots-Agree vs t u (i + 1) (λ j p q. same j (omega arith) (omega arith)) s.1,
  )

  pub length-reverse : (vs : List V) → length (reverse vs) ≡ length vs
  length-reverse [] = refl
  length-reverse (v ∷ vs) =
      ap length (reverse-append (v ∷ []) vs)
      ∙ length-append (reverse vs) (v ∷ [])
      ∙ omega (arith, length-reverse vs)

  -- The store loop moves the top by the number of values.
  pub push_slots-top :
      (st : List V) (n top : ℕ) (t : Table V)
      → length st ≡ n + 1
      → (push_slots n st top t).0 ≡ top + length st
  unfolding push_slots
  push_slots-top [] n top t h = absurd (omega arith)
  push_slots-top (v ∷ []) zero top t h = refl
  push_slots-top (v ∷ w ∷ st) zero top t h = absurd (omega arith)
  push_slots-top (v ∷ st) (suc n) top t h =
      push_slots-top st n (top + 1) (set_at t (top + 1) v) (omega arith) ∙ omega arith

  -- It writes above the old top only.
  pub push_slots-below :
      (st : List V) (n top i : ℕ) (t : Table V) → i ≤ top → (push_slots n st top t).1 i ≡ t i
  unfolding push_slots
  push_slots-below [] n top i t h = refl
  push_slots-below (v ∷ st) zero top i t h = set_at_ne t (top + 1) i v (omega arith)
  push_slots-below (v ∷ st) (suc n) top i t h =
      push_slots-below st n (top + 1) i (set_at t (top + 1) v) (omega arith)
      ∙ set_at_ne t (top + 1) i v (omega arith)

  -- Above it, the values stand in the order in which the stack gave them.
  pub push_slots-Slots :
      (st : List V) (n top : ℕ) (t : Table V)
      → length st ≡ n + 1
      → Slots (push_slots n st top t).1 top st
  unfolding push_slots
  push_slots-Slots [] n top t h = tt
  push_slots-Slots (v ∷ []) zero top t h = (set_at_self t (top + 1) v, tt)
  push_slots-Slots (v ∷ w ∷ st) zero top t h = absurd (omega arith)
  push_slots-Slots (v ∷ st) (suc n) top t h = (
    push_slots-below st n (top + 1) (top + 1) (set_at t (top + 1) v) (omega arith)
        ∙ set_at_self t (top + 1) v,
    push_slots-Slots st n (top + 1) (set_at t (top + 1) v) (omega arith),
  )

  Slots-append :
      (vs : List V) (w : V) (t : Table V) (i : ℕ)
      → Slots t i (vs ++ w ∷ [])
      → Slots t i vs × (t (i + length vs + 1) ≡ w)
  Slots-append [] w t i s = (tt, ap t (omega arith) ∙ s.0)
  Slots-append (v ∷ vs) w t i s =
      let (front, last) = Slots-append vs w t (i + 1) s.1 in
      ((s.0, front), ap t (omega arith) ∙ last)

module _ {V : Type 0} ⦃lua : LuaValue V⦄ where
  -- The read loop writes at its own slots only.
  pub pop_slots-above : (k idx i : ℕ) (t : Table V) → idx + k < i → (pop_slots k idx t).1 i ≡ t i
  unfolding pop_slots
  pop_slots-above zero idx i t h = refl
  pop_slots-above (suc k) idx i t h =
      pop_slots-above k idx i (set_at t (idx + suc k) lua.nil) (omega arith)
      ∙ set_at_ne t (idx + suc k) i lua.nil (omega arith)

  -- It returns the values in the order in which `dpool_put` was given them.
  pub pop_slots-reverse :
      (vs : List V) (idx : ℕ) (t : Table V)
      → Slots t idx (reverse vs)
      → (pop_slots (length vs) idx t).0 ≡ vs
  unfolding pop_slots
  pop_slots-reverse [] idx t s = refl
  pop_slots-reverse (v ∷ vs) idx t s =
      let s' : Slots t idx (reverse vs ++ v ∷ []) =
        subst (Slots t idx) (reverse-append (v ∷ []) vs) s in
      let (front, last) = Slots-append (reverse vs) v t idx s' in
      ap₂ ◌∷◌ (ap t (omega (arith, length-reverse vs)) ∙ last) (
        pop_slots-reverse vs idx (set_at t (idx + suc (length vs)) lua.nil) (
          Slots-Agree (reverse vs) t (set_at t (idx + suc (length vs)) lua.nil) idx
            (λ j p q.
              set_at_ne t (idx + suc (length vs)) j lua.nil (omega (arith, length-reverse vs)))
            front))
