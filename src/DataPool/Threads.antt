-- ===== src/DataPool/Threads.antt =====
-- The threads that share a pool: each call of `put` and `get` runs up to a point where it gives up
-- the VM lock, and any waiting call may go on next, woken by a signal, a timeout or an error.
use luasys.Base.{◌+◌, ◌<◌, ◌^◌, ◌≡◌, Bool, true, Option, none, some, List, ◌∷◌, ◌++◌, length}
use luasys.Lua.{LuaValue}
use luasys.DataPool.{
  Pool, WaitResult, Putting, put_done, put_error, put_waits, put_offers, Getting, got, get_waits,
  get_timeout, get_error, get_fault, put, put_woken, put_switched, get, get_woken,
}

-- A pool with the calls under way on it. `blocked` are the tuples of the writers that wait for room,
-- `offered` is the tuple of the writer in `sys_thread_switch`; the waiting readers are counted by
-- the pool. `accepted`, `delivered` and `rejected` record what was given to `put`, what `get`
-- returned, and what `put` gave up with an error.
pub record Threads (V : Type 0) : Type 0 where
  pub pool : Pool V
  pub blocked : List (List V)
  pub offered : Option (List V)
  pub accepted : List (List V)
  pub delivered : List (List V)
  pub rejected : List (List V)
  pub faulty : Bool

module _ {V : Type 0} where
  -- A call of `put` with this tuple has come to its next point.
  unfoldable pub settle_put : List V → Threads V → Putting V × Pool V → Threads V
  settle_put items s (put_done, p) = record s { pool = p }
  settle_put items s (put_error, p) = record s { pool = p; rejected = items ∷ s.rejected }
  settle_put items s (put_waits vs, p) = record s { pool = p; blocked = vs ∷ s.blocked }
  settle_put items s (put_offers vs, p) = record s { pool = p; offered = some vs }

  -- A call of `get` has come to its next point.
  unfoldable pub settle_get : Threads V → Getting V × Pool V → Threads V
  settle_get s (got vs, p) = record s { pool = p; delivered = vs ∷ s.delivered }
  settle_get s (get_waits, p) = record s { pool = p }
  settle_get s (get_timeout, p) = record s { pool = p }
  settle_get s (get_error, p) = record s { pool = p }
  settle_get s (get_fault, p) = record s { pool = p; faulty = true }

-- The storage index has room for the tuple, in the range of `int`.
abbrev pub HasRoom : {V : Type 0} → Pool V → List V → Type 0
HasRoom p q = p.top + 1 + length q < 2 ^ 31

module _ {V : Type 0} ⦃lua : LuaValue V⦄ where
  pub data Step (s : Threads V) : Threads V → Type 0 where
    puts :
        (v : V) (vs : List V)
        → HasRoom s.pool (v ∷ vs)
        → Step s (
            settle_put
              (v ∷ vs)
              (record s { accepted = (v ∷ vs) ∷ s.accepted })
              (put (v ∷ vs) s.pool))
    put_wakes :
        (r : WaitResult) (before after : List (List V)) (v : V) (vs : List V)
        → s.blocked ≡ before ++ (v ∷ vs) ∷ after
        → HasRoom s.pool (v ∷ vs)
        → Step s (
            settle_put
              (v ∷ vs)
              (record s { blocked = before ++ after })
              (put_woken r (v ∷ vs) s.pool))
    put_returns :
        (vs : List V)
        → s.offered ≡ some vs
        → HasRoom s.pool vs
        → Step s (settle_put vs (record s { offered = none }) (put_switched vs s.pool))
    gets : Step s (settle_get s (get s.pool))
    get_wakes : (r : WaitResult) → 0 < s.pool.nwaits → Step s (settle_get s (get_woken r s.pool))

  pub data Reach (s : Threads V) : Threads V → Type 0 where
    here : Reach s s
    next : {t u : Threads V} → Reach s t → Step t u → Reach s u
