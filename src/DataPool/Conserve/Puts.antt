-- ===== src/DataPool/Conserve/Puts.antt =====
-- The steps of `dpool_put` keep the account.
use luasys.Base.{
  ◌≡◌, ◌≢◌, refl, ◌⊎◌, leb, inl, inr, Bool, true, false, none, some, List, [], ◌∷◌, ◌++◌, length,
  arith, if◌then◌else◌, ◌∙◌, sym,
}
use luasys.Lua.{LuaValue}
use luasys.DataPool.{
  Pool, WaitResult, signal, store, offer, put, put_woken, put_switched, put_done, put_offers,
  put_waits,
}
use luasys.DataPool.Threads.{Threads, settle_put, HasRoom}
use luasys.DataPool.Conserve.Account.{Keeps, store-Keeps, Kept}

module _ {V : Type 0} ⦃lua : LuaValue V⦄ where
  -- `offered_pool` is the pool whose data the next reader may move.
  abbrev offered_pool : List V → Pool V → Pool V
  offered_pool q p = record p { writer = some q; nput = length q; signalled = true }

  offer-cases :
      (q : List V) (p : Pool V)
      → (offer q p ≡ (put_done, store q p))
        ⊎ ((p.writer ≡ none) × (offer q p ≡ (put_offers q, offered_pool q p)))
  unfolding offer
  offer-cases q p = ground arith

  pub offer-Keeps :
      (s : Threads V) (v : V) (vs : List V) (qs : List (List V))
      → HasRoom s.pool (v ∷ vs)
      → Keeps s qs ((v ∷ vs) ∷ [])
      → Kept (settle_put (v ∷ vs) s (offer (v ∷ vs) s.pool))
  unfolding settle_put
  offer-Keeps s v vs qs room k = elim (offer-cases (v ∷ vs) s.pool) [
    | inl e ↦ rw e (qs ++ (v ∷ vs) ∷ [], store-Keeps s (v ∷ vs) qs room k)
    | inr (free, e) ↦
        let unused : s.offered ≡ none = sym k.linked ∙ free in
        rw e (
          qs,
          record {
            queue = record {
              stored = k.queue.stored;
              counted = k.queue.counted;
              small = k.queue.small;
            };
            no_on_full = k.no_on_full;
            no_on_empty = k.no_on_empty;
            linked = refl;
            handing = (omega arith, inr refl);
            sound = k.sound;
            kept = λ w. ground (arith, k.kept w);
          },
        )
  ]

  pub put-plain :
      (v : V) (vs : List V) (p : Pool V)
      → p.put_on_full ≡ false
      → put (v ∷ vs) p ≡ (if leb p.max p.n then (put_waits (v ∷ vs), p) else offer (v ∷ vs) p)
  unfolding put
  put-plain v vs p h = ground arith

  -- What both `put` and `put_woken` do next.
  pub next-Keeps :
      (s : Threads V) (v : V) (vs : List V) (qs : List (List V)) (full : Bool)
      → HasRoom s.pool (v ∷ vs)
      → Keeps s qs ((v ∷ vs) ∷ [])
      → Kept (
          settle_put
            (v ∷ vs)
            s
            (if full then (put_waits (v ∷ vs), s.pool) else offer (v ∷ vs) s.pool))
  unfolding settle_put
  next-Keeps s v vs qs false room k = offer-Keeps s v vs qs room k
  next-Keeps s v vs qs true room k = (
    qs,
    record {
      queue = k.queue;
      no_on_full = k.no_on_full;
      no_on_empty = k.no_on_empty;
      linked = k.linked;
      handing = k.handing;
      sound = k.sound;
      kept = λ w. omega (arith, k.kept w);
    },
  )

  pub put_woken-Keeps :
      (r : WaitResult) (s : Threads V) (v : V) (vs : List V) (qs : List (List V))
      → HasRoom s.pool (v ∷ vs)
      → Keeps s qs ((v ∷ vs) ∷ [])
      → Kept (settle_put (v ∷ vs) s (put_woken r (v ∷ vs) s.pool))
  unfolding put_woken settle_put
  put_woken-Keeps signal s v vs qs room k = next-Keeps s v vs qs (leb s.pool.max s.pool.n) room k
  put_woken-Keeps _ s v vs qs room k = (
    qs,
    record {
      queue = k.queue;
      no_on_full = k.no_on_full;
      no_on_empty = k.no_on_empty;
      linked = k.linked;
      handing = k.handing;
      sound = k.sound;
      kept = λ w. omega (arith, k.kept w);
    },
  )

  put_switched-cases :
      (q : List V) (p : Pool V)
      → ((p.nput ≡ 0) × (put_switched q p ≡ (put_done, record p { writer = none })))
        ⊎ ((p.nput ≢ 0)
            × (put_switched q p ≡ (put_done, store q (record p { writer = none; nput = 0 }))))
  unfolding put_switched
  put_switched-cases q p = ground arith

  pub put_switched-Keeps :
      (s : Threads V) (q : List V) (qs : List (List V))
      → s.offered ≡ some q
      → HasRoom s.pool q
      → Keeps s qs []
      → Kept (settle_put q (record s { offered = none }) (put_switched q s.pool))
  unfolding settle_put
  put_switched-Keeps s q qs e room k = elim (put_switched-cases q s.pool) [
    | inl (taken, r) ↦ rw r (
      qs,
      record {
        queue = record {
          stored = k.queue.stored;
          counted = k.queue.counted;
          small = k.queue.small;
        };
        no_on_full = k.no_on_full;
        no_on_empty = k.no_on_empty;
        linked = refl;
        handing = taken;
        sound = k.sound;
        kept = λ w. ground (arith, k.kept w);
      },
    )
    | inr (left, r) ↦ rw r (
      qs ++ q ∷ [],
      store-Keeps (record s { offered = none; pool = record s.pool { writer = none; nput = 0 } }) q
          qs room
          (record {
            queue = record {
              stored = k.queue.stored;
              counted = k.queue.counted;
              small = k.queue.small;
            };
            no_on_full = k.no_on_full;
            no_on_empty = k.no_on_empty;
            linked = refl;
            handing = refl;
            sound = k.sound;
            kept = λ w. ground (arith, k.kept w);
          }),
    )
  ]
