-- ===== src/DataPool/Queue.antt =====
-- The storage of a pool against a queue of tuples: `store` of `dpool_put`, `take_stored` of
-- `dpool_get`.
use luasys.Base.{
  ℕ, ◌+◌, ◌%◌, ◌^◌, ◌≤◌, ◌<◌, ◌≡◌, refl, List, [], ◌∷◌, ◌++◌, reverse, length, length-append, arith,
  ◌∙◌, ap, subst, inl, inr, Bool-cases, ◌==◌, ==_iff,
}
use luasys.Lua.{LuaValue}
use luasys.DataPool.{Table, Pool, set_at, push_slots, pop_slots, store, take_stored}
use luasys.DataPool.Slots.{
  Slots, Agree, set_at_ne, Slots-Agree, length-reverse, push_slots-top, push_slots-below,
  push_slots-Slots, pop_slots-above, pop_slots-reverse,
}

module _ {V : Type 0} ⦃lua : LuaValue V⦄ where
  -- A tuple's slots: the number of values, then the values, the last one first.
  abbrev pub tuple_slots : List V → List V
  tuple_slots q = lua.integer (length q) ∷ reverse q

  -- The slots above `lo` and up to `hi` hold the tuples, the oldest first.
  abbrev pub Stored : Table V → ℕ → ℕ → List (List V) → Type 0
  Stored t lo hi [] = lo ≡ hi
  Stored t lo hi (q ∷ qs) = Slots t lo (tuple_slots q) × Stored t (lo + 1 + length q) hi qs

  pub Stored-le :
      (qs : List (List V)) (t : Table V) (lo hi : ℕ) → Stored t lo hi qs → lo + length qs ≤ hi
  Stored-le [] t lo hi s = omega arith
  Stored-le (q ∷ qs) t lo hi s = omega (arith, Stored-le qs t (lo + 1 + length q) hi s.1)

  Stored-Agree :
      (qs : List (List V)) (t u : Table V) (lo hi : ℕ)
      → Agree t u lo hi
      → Stored t lo hi qs
      → Stored u lo hi qs
  Stored-Agree [] t u lo hi same s = s
  Stored-Agree (q ∷ qs) t u lo hi same s =
      let bound = Stored-le qs t (lo + 1 + length q) hi s.1 in
      (
        Slots-Agree (tuple_slots q) t u lo (λ j a b. same j a (omega (arith, length-reverse q)))
            s.0,
        Stored-Agree qs t u (lo + 1 + length q) hi (λ j a b. same j (omega arith) b) s.1,
      )

  Stored-append :
      (qs : List (List V)) (q : List V) (t : Table V) (lo mid hi : ℕ)
      → Stored t lo mid qs
      → Slots t mid (tuple_slots q)
      → mid + 1 + length q ≡ hi
      → Stored t lo hi (qs ++ q ∷ [])
  Stored-append [] q t lo mid hi s new e =
      (subst (λ k. Slots t k (tuple_slots q)) (omega arith) new, omega arith)
  Stored-append (r ∷ qs) q t lo mid hi s new e =
      (s.0, Stored-append qs q t (lo + 1 + length r) mid hi s.1 new e)

  Stored-empty : (qs : List (List V)) (t : Table V) (lo : ℕ) → Stored t lo lo qs → qs ≡ []
  Stored-empty [] t lo s = refl
  Stored-empty (q ∷ qs) t lo s = absurd (omega (arith, Stored-le qs t (lo + 1 + length q) lo s.1))

  -- The pool holds these tuples. The indices are of type `int` where they are counted up.
  pub record IsQueue (p : Pool V) (qs : List (List V)) : Type 0 where
    pub stored : Stored p.storage p.idx p.top qs
    pub counted : p.n ≡ length qs
    pub small : p.top < 2 ^ 31

  module _ (p : Pool V) (q : List V) where
    abbrev after_push : ℕ × Table V
    after_push = push_slots (length q) (tuple_slots q) p.top p.storage

    push-top : after_push.0 ≡ p.top + 1 + length q
    push-top =
        push_slots-top (tuple_slots q) (length q) p.top p.storage (omega (arith, length-reverse q))
        ∙ omega (arith, length-reverse q)

    push-Stored :
        (qs : List (List V))
        → Stored p.storage p.idx p.top qs
        → Stored after_push.1 p.idx (p.top + 1 + length q) (qs ++ q ∷ [])
    push-Stored qs s =
        Stored-append qs q after_push.1 p.idx p.top (p.top + 1 + length q)
          (Stored-Agree qs p.storage after_push.1 p.idx p.top
            (λ j a b. push_slots-below (tuple_slots q) (length q) p.top j p.storage b) s)
          (push_slots-Slots (tuple_slots q) (length q) p.top p.storage
            (omega (arith, length-reverse q)))
          refl

  -- Keeping a tuple in the storage puts it at the end of the queue, as long as the index stays in
  -- the range of `int`.
  pub store_refines :
      (p : Pool V) (q : List V) (qs : List (List V))
      → IsQueue p qs
      → p.top + 1 + length q < 2 ^ 31
      → IsQueue (store q p) (qs ++ q ∷ [])
  unfolding store
  store_refines p q qs v room =
      let t = push-top p q in
      let e : (after_push p q).0 % 2 ^ 32 ≡ p.top + 1 + length q = omega arith in
      record {
        stored = rw e (push-Stored p q qs v.stored);
        counted = omega (
          arith,
          v.counted,
          length-append qs (q ∷ []),
          Stored-le qs p.storage p.idx p.top v.stored,
        );
        small = omega arith;
      }

  module _ (p : Pool V) (q : List V) (qs : List (List V)) (v : IsQueue p (q ∷ qs)) where
    abbrev cleared : Table V
    cleared = set_at p.storage (p.idx + 1) lua.nil

    abbrev after_pop : List V × Table V
    after_pop = pop_slots (length q) (p.idx + 1) cleared

    header : lua.to_integer (p.storage (p.idx + 1)) ≡ length q
    header = ap lua.to_integer v.stored.0.0 ∙ lua.to_integer-integer (length q)

    pop-values : after_pop.0 ≡ q
    pop-values = pop_slots-reverse q (p.idx + 1) cleared (
        Slots-Agree (reverse q) p.storage cleared (p.idx + 1)
          (λ j a b. set_at_ne p.storage (p.idx + 1) j lua.nil (omega arith)) v.stored.0.1)

    pop-Stored : Stored after_pop.1 (p.idx + 1 + length q) p.top qs
    pop-Stored =
        Stored-Agree qs p.storage after_pop.1 (p.idx + 1 + length q) p.top
          (λ j a b.
            pop_slots-above (length q) (p.idx + 1) j cleared a
            ∙ set_at_ne p.storage (p.idx + 1) j lua.nil (omega arith))
          v.stored.1

  -- Taking from the storage returns the oldest tuple, its values in the order in which they were
  -- put, and leaves the rest of the queue.
  pub take_stored_refines :
      (p : Pool V) (q : List V) (qs : List (List V))
      → IsQueue p (q ∷ qs)
      → ((take_stored p).0 ≡ q) × IsQueue (take_stored p).1 qs
  unfolding take_stored
  take_stored_refines p q qs v =
      let bound = Stored-le qs p.storage (p.idx + 1 + length q) p.top v.stored.1 in
      let small = v.small in
      let w : (p.idx + 1 + length q) % 2 ^ 32 ≡ p.idx + 1 + length q = omega arith in
      rw (header p q qs v, w)
        (
          pop-values p q qs v,
          elim (Bool-cases (p.idx + 1 + length q == p.top)) [
            | inl e ↦ rw e (
                let end : p.idx + 1 + length q ≡ p.top = (==_iff _ _).0 e in
                let none_left : qs ≡ [] =
                  Stored-empty qs p.storage p.top
                    (subst (λ k. Stored p.storage k p.top qs) end v.stored.1) in
                record {
                  stored = rw none_left refl;
                  counted = omega (arith, v.counted);
                  small = omega arith;
                })
            | inr e ↦ rw e (record {
              stored = pop-Stored p q qs v;
              counted = omega (arith, v.counted);
              small = v.small;
            })
          ],
        )
