-- ===== src/DataPool/Conserve/Gets.antt =====
-- The steps of `dpool_get` keep the account.
use luasys.Base.{
  ℕ, ◌+◌, ◌-◌, ◌≡◌, ◌≢◌, refl, ◌⊎◌, inl, inr, Bool, true, false, Option, none, some, List, [], ◌∷◌,
  arith, ◌==◌, ◌∙◌, ap,
}
use luasys.Lua.{LuaValue}
use luasys.DataPool.{
  Pool, WaitResult, signal, timeout, failure, fetch, take_stored, get, get_woken, got, get_waits,
}
use luasys.DataPool.Queue.{take_stored_refines}
use luasys.DataPool.Threads.{Threads, settle_get}
use luasys.DataPool.Conserve.Account.{Keeps, Kept}

module _ {V : Type 0} ⦃lua : LuaValue V⦄ where
  fetch-cases :
      (p : Pool V)
      → ((p.n ≡ 0) × (fetch p ≡ (get_waits, record p { nwaits = p.nwaits + 1 })))
        ⊎ ((p.n ≢ 0) × (fetch p ≡ (got (take_stored p).0, (take_stored p).1)))
  unfolding fetch
  fetch-cases p = ground arith

  -- A change of the pool that leaves the storage, the writer and its data alone.
  Keeps-nwaits :
      (s : Threads V) (qs moving : List (List V)) (n : ℕ)
      → Keeps s qs moving
      → Keeps (record s { pool = record s.pool { nwaits = n } }) qs moving
  Keeps-nwaits s qs moving n k = record {
    queue = record { stored = k.queue.stored; counted = k.queue.counted; small = k.queue.small };
    no_on_full = k.no_on_full;
    no_on_empty = k.no_on_empty;
    linked = k.linked;
    handing = k.handing;
    sound = k.sound;
    kept = k.kept;
  }

  pub take-Keeps :
      (s : Threads V) (q : List V) (qs : List (List V))
      → Keeps s (q ∷ qs) []
      → Keeps
          (record s {
            pool = (take_stored s.pool).1;
            delivered = (take_stored s.pool).0 ∷ s.delivered;
          })
          qs
          []
  unfolding take_stored
  take-Keeps s q qs k =
      let (same, rest) = take_stored_refines s.pool q qs k.queue in
      record {
        queue = rest;
        no_on_full = k.no_on_full;
        no_on_empty = k.no_on_empty;
        linked = k.linked;
        handing = k.handing;
        sound = k.sound;
        kept = λ w. omega (arith, k.kept w, ap w same);
      }

  pub fetch-Keeps :
      (s : Threads V) (qs : List (List V)) → Keeps s qs [] → Kept (settle_get s (fetch s.pool))
  unfolding settle_get
  fetch-Keeps s qs k = elim (fetch-cases s.pool) [
    | inl (e, r) ↦ rw r (qs, Keeps-nwaits s qs [] (s.pool.nwaits + 1) k)
    | inr (ne, r) ↦ rw r (take_first s qs ne k)
  ]
    where
      take_first :
          (s : Threads V) (qs : List (List V))
          → s.pool.n ≢ 0
          → Keeps s qs []
          → Kept (settle_get s (got (take_stored s.pool).0, (take_stored s.pool).1))
      take_first s [] ne k = absurd (ne k.queue.counted)
      take_first s (q ∷ qs) ne k = (qs, take-Keeps s q qs k)

  pub get-plain : (p : Pool V) → p.get_on_empty ≡ false → get p ≡ fetch p
  unfolding get
  get-plain p h = ground arith

  get_woken-none :
      (p : Pool V) → p.nput ≡ 0 → get_woken signal p ≡ fetch (record p { nwaits = p.nwaits - 1 })
  unfolding get_woken
  get_woken-none p h = ground arith

  get_woken-some :
      (p : Pool V) (q : List V)
      → p.nput ≢ 0
      → p.writer ≡ some q
      → get_woken signal p ≡ (got q, record p { nwaits = p.nwaits - 1; nput = 0 })
  unfolding get_woken
  get_woken-some p q h e = ground arith

  -- A reader moves the data of the writer in `sys_thread_switch`.
  pub move-Keeps :
      (s : Threads V) (q : List V) (qs : List (List V)) (n : ℕ)
      → s.offered ≡ some q
      → s.pool.nput ≢ 0
      → Keeps s qs []
      → Keeps
          (record s { pool = record s.pool { nwaits = n; nput = 0 }; delivered = q ∷ s.delivered })
          qs
          []
  move-Keeps s q qs n e ne k = record {
    queue = record { stored = k.queue.stored; counted = k.queue.counted; small = k.queue.small };
    no_on_full = k.no_on_full;
    no_on_empty = k.no_on_empty;
    linked = k.linked;
    handing = ground (arith, k.handing);
    sound = k.sound;
    kept = λ w. ground (arith, k.kept w);
  }

  pub signalled-Keeps :
      (s : Threads V) (qs : List (List V)) (o : Option (List V)) (idle : Bool)
      → s.offered ≡ o
      → (s.pool.nput == 0) ≡ idle
      → Keeps s qs []
      → Kept (settle_get s (get_woken signal s.pool))
  unfolding settle_get
  signalled-Keeps s qs o true e h k = rw (get_woken-none s.pool (ground arith)) (
      fetch-Keeps (record s { pool = record s.pool { nwaits = s.pool.nwaits - 1 } }) qs
        (Keeps-nwaits s qs [] (s.pool.nwaits - 1) k))
  signalled-Keeps s qs none false e h k = absurd (ground (arith, k.handing))
  signalled-Keeps s qs (some q) false e h k =
      let ne : s.pool.nput ≢ 0 = ground arith in
      rw (get_woken-some s.pool q ne (k.linked ∙ e))
        (qs, move-Keeps s q qs (s.pool.nwaits - 1) e ne k)

  pub get_woken-Keeps :
      (r : WaitResult) (s : Threads V) (qs : List (List V))
      → Keeps s qs []
      → Kept (settle_get s (get_woken r s.pool))
  unfolding get_woken settle_get
  get_woken-Keeps timeout s qs k = (qs, Keeps-nwaits s qs [] (s.pool.nwaits - 1) k)
  get_woken-Keeps failure s qs k = (qs, Keeps-nwaits s qs [] (s.pool.nwaits - 1) k)
  get_woken-Keeps signal s qs k = signalled-Keeps s qs s.offered (s.pool.nput == 0) refl refl k
