-- ===== src/DataPool/Conserve.antt =====
-- No tuple is lost or doubled between the threads of a pool, whatever the schedule.
pub mod Account
pub mod Puts
pub mod Gets
use luasys.Base.{
  ℕ, ◌+◌, ◌-◌, ◌<◌, ◌≡◌, ◌≢◌, refl, ◌⊎◌, leb, inl, inr, Bool, true, false, Option, none, some, List,
  [], ◌∷◌, ◌++◌, length, arith, ◌==◌, if◌then◌else◌, ◌∙◌, sym, ap,
}
use luasys.Lua.{LuaValue}
use luasys.DataPool.{
  Pool, WaitResult, signal, timeout, failure, store, offer, put, put_woken, put_switched, fetch,
  take_stored, get, get_woken, put_done, put_offers, put_waits, got, get_waits,
}
use luasys.DataPool.Queue.{IsQueue, store_refines, take_stored_refines}
use luasys.DataPool.Threads.{
  Threads, settle_put, settle_get, HasRoom, Step, puts, put_wakes, put_returns, gets, get_wakes,
  Reach, here, next,
}
use luasys.DataPool.Conserve.Account.{
  weigh, weigh-append, in_hand, Offered, Keeps, store-Keeps, Kept,
}
use luasys.DataPool.Conserve.Puts.{put-plain, next-Keeps, put_woken-Keeps, put_switched-Keeps}
use luasys.DataPool.Conserve.Gets.{get-plain, fetch-Keeps, get_woken-Keeps}

module _ {V : Type 0} ⦃lua : LuaValue V⦄ where
  -- Every step keeps the account.
  pub Step-Keeps : {s t : Threads V} → Step s t → Kept s → Kept t
  Step-Keeps {s} (puts v vs room) (qs, k) = rw (put-plain v vs s.pool k.no_on_full) (
      next-Keeps (record s { accepted = (v ∷ vs) ∷ s.accepted }) v vs qs (leb s.pool.max s.pool.n)
        room
        (record {
          queue = k.queue;
          no_on_full = k.no_on_full;
          no_on_empty = k.no_on_empty;
          linked = k.linked;
          handing = k.handing;
          sound = k.sound;
          kept = λ w. omega (arith, k.kept w);
        }))
  Step-Keeps {s} (put_wakes r before after v vs e room) (qs, k) =
      put_woken-Keeps r (record s { blocked = before ++ after }) v vs qs room
        (record {
          queue = k.queue;
          no_on_full = k.no_on_full;
          no_on_empty = k.no_on_empty;
          linked = k.linked;
          handing = k.handing;
          sound = k.sound;
          kept = λ w. omega (
            arith,
            k.kept w,
            ap (weigh w) e,
            weigh-append w before ((v ∷ vs) ∷ after),
            weigh-append w before after,
          );
        })
  Step-Keeps {s} (put_returns q e room) (qs, k) = put_switched-Keeps s q qs e room k
  Step-Keeps {s} gets (qs, k) = rw (get-plain s.pool k.no_on_empty) (fetch-Keeps s qs k)
  Step-Keeps {s} (get_wakes r some_wait) (qs, k) = get_woken-Keeps r s qs k

  -- In every state that the threads can reach from a state whose account is right, it is right:
  -- counted by any measure, the accepted tuples are the delivered, the rejected and the stored
  -- ones, those of the blocked writers and the one offered; and no reader moves data from the
  -- stack of no thread. The pool has no callbacks, and room for each tuple.
  pub Reach-Keeps : {s t : Threads V} → Reach s t → Kept s → Kept t
  Reach-Keeps here k = k
  Reach-Keeps (next r st) k = Step-Keeps st (Reach-Keeps r k)
