-- ===== src/DataPool/Overtake.antt =====
-- The hand-over between threads against the order of the storage.
use luasys.Base.{◌+◌, ◌<◌, ◌^◌, ◌≡◌, refl, some, none, true, ◌-◌, List, [], ◌∷◌, length, arith}
use luasys.Lua.{LuaValue}
use luasys.DataPool.{Pool, signal, got, new, put, get, put_switched, get_woken, store, offer, fetch}
use luasys.DataPool.Queue.{IsQueue, store_refines}

module _ {V : Type 0} ⦃lua : LuaValue V⦄ where
  -- A reader waits on a new pool.
  abbrev waited_on : Pool V
  waited_on = (get new).1

  -- A writer has offered it a tuple, and come back before the reader ran.
  abbrev pub refused : List V → Pool V
  refused a = (put_switched a (put a waited_on).1).1

  -- The pool of the reader, when the first writer keeps its tuple.
  abbrev waiting : Pool V
  unfolding new
  waiting = record new { nwaits = 1; signalled = true }

  refused-store : (v : V) (vs : List V) → refused (v ∷ vs) ≡ store (v ∷ vs) waiting
  unfolding get put put_switched fetch offer new
  refused-store v vs = ground arith

  waiting-IsQueue : IsQueue waiting []
  unfolding new
  waiting-IsQueue = record { stored = refl; counted = refl; small = omega arith }

  -- A reader that waits moves a tuple that is put while no other one is offered.
  handed_over :
      (p : Pool V) (w : V) (ws : List V)
      → p.writer ≡ none
      → 0 < p.nwaits
      → p.n < p.max
      → get_woken signal (put (w ∷ ws) p).1 ≡ (
        got (w ∷ ws),
        record p { nwaits = p.nwaits - 1; writer = some (w ∷ ws); nput = 0; signalled = true },
      )
  unfolding put offer get_woken
  handed_over p w ws free waits room = ground arith

  -- A reader waits on a new pool, a first `put` offers its tuple, comes back before the reader has
  -- run and keeps the tuple in the storage, and a second `put` offers another one. When the reader
  -- runs it gets the second tuple, while the first one is still in the storage.
  pub second_overtakes :
      (v w : V) (vs ws : List V)
      → length (v ∷ vs) + 1 < 2 ^ 31
      → ((get_woken signal (put (w ∷ ws) (refused (v ∷ vs))).1).0 ≡ got (w ∷ ws))
        × IsQueue (get_woken signal (put (w ∷ ws) (refused (v ∷ vs))).1).1 ((v ∷ vs) ∷ [])
  unfolding store new
  second_overtakes v w vs ws room =
      let p : Pool V = store (v ∷ vs) waiting in
      let q = store_refines waiting (v ∷ vs) [] waiting-IsQueue (omega arith) in
      let e = handed_over p w ws refl (omega arith) (omega arith) in
      rw (refused-store v vs, e)
        (refl, record { stored = q.stored; counted = q.counted; small = q.small })
