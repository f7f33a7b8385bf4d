-- ===== src/DataPool/Tests.antt =====
-- The data pool on concrete tuples.
use luasys.Base.{ℕ, ◌≡◌, refl, Option, none, some, List, [], ◌∷◌, false, arith}
use luasys.Lua.{LuaValue}
use luasys.DataPool.{
  Table, Pool, WaitResult, signal, timeout, failure, Putting, put_done, put_error, put_waits,
  put_offers, Getting, got, get_waits, new, store, put, get, take_stored, put_switched, get_woken,
  set_at, push_slots, pop_slots, is_none,
}
use luasys.DataPool.Queue.{IsQueue, store_refines, take_stored_refines}
use luasys.DataPool.Threads.{Threads, settle_put, settle_get, puts, gets, get_wakes, here, next}
use luasys.Base.{}
use luasys.DataPool.{got}
use luasys.DataPool.Overtake.{refused, second_overtakes}
use luasys.DataPool.Conserve.Account.{Kept}
use luasys.DataPool.Conserve.{Reach-Keeps}

-- Values that are nil or a number.
abbrev Value : Type 0
Value = Option ℕ

abbrev number : Value → ℕ
number none = 0
number (some k) = k

instance Value-LuaValue : LuaValue Value
Value-LuaValue = record {
  nil = none;
  integer = some;
  to_integer = number;
  to_integer-integer = λ n. refl;
}

abbrev one_two : List Value
one_two = some 1 ∷ some 2 ∷ []

abbrev three : List Value
three = some 3 ∷ []

abbrev fresh : Pool Value
unfolding new
fresh = new

abbrev filled : Pool Value
filled = store three (store one_two fresh)

fresh-IsQueue : IsQueue fresh []
unfolding new
fresh-IsQueue = record { stored = refl; counted = refl; small = omega arith }

filled-IsQueue : IsQueue filled (one_two ∷ three ∷ [])
unfolding new store push_slots
filled-IsQueue =
    store_refines (store one_two fresh) three (one_two ∷ [])
      (store_refines fresh one_two [] fresh-IsQueue (omega arith)) (omega arith)

store_refines_example : IsQueue (store one_two fresh) (one_two ∷ [])
unfolding new
store_refines_example = store_refines fresh one_two [] fresh-IsQueue (omega arith)

take_stored_refines_example :
    ((take_stored filled).0 ≡ one_two) × IsQueue (take_stored filled).1 (three ∷ [])
take_stored_refines_example = take_stored_refines filled one_two (three ∷ []) filled-IsQueue

take_stored_values : (take_stored filled).0 ≡ one_two
unfolding take_stored store push_slots pop_slots set_at new Value-LuaValue
take_stored_values = refl

abbrev start : Threads Value
start = record {
  pool = fresh;
  blocked = [];
  offered = none;
  accepted = [];
  delivered = [];
  rejected = [];
  faulty = false;
}

start-Kept : Kept start
unfolding new
start-Kept = (
  [],
  record {
    queue = fresh-IsQueue;
    no_on_full = refl;
    no_on_empty = refl;
    linked = refl;
    handing = refl;
    sound = refl;
    kept = λ w. refl;
  },
)

abbrev after_gets : Threads Value
after_gets = settle_get start (get start.pool)

abbrev after_puts : Threads Value
after_puts =
    settle_put one_two (record after_gets { accepted = one_two ∷ after_gets.accepted })
      (put one_two after_gets.pool)

abbrev after_wakes : Threads Value
after_wakes = settle_get after_puts (get_woken signal after_puts.pool)

-- A reader waits, a writer offers its tuple, and the reader moves it.
Reach-Keeps_example : Kept after_wakes
unfolding new get put settle_put settle_get luasys.DataPool.fetch luasys.DataPool.offer
Reach-Keeps_example =
    Reach-Keeps
      (next (next (next here gets) (puts (some 1) (some 2 ∷ []) (omega arith)))
        (get_wakes signal (omega arith)))
      start-Kept

second_overtakes_example :
    ((get_woken signal (put three (refused one_two)).1).0 ≡ got three)
    × IsQueue (get_woken signal (put three (refused one_two)).1).1 (one_two ∷ [])
second_overtakes_example = second_overtakes (some 1) (some 3) (some 2 ∷ []) [] (omega arith)
