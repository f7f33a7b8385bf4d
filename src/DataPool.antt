-- ===== src/DataPool.antt =====
-- thread/thread_dpool.c: a pool that passes tuples of Lua values between VM-threads.
-- The VM lock is given up in `thread_event_wait` and `sys_thread_switch` alone, so each function
-- below is the code from one such point to the next, and runs without interference.
pub mod Slots
pub mod Queue
pub mod Threads
pub mod Conserve
pub mod Overtake
mod Tests
use luasys.Base.{
  ℕ, zero, suc, ◌+◌, ◌-◌, ◌%◌, ◌^◌, Bool, true, false, ◌&&◌, not, Option, none, some, List, [], ◌∷◌,
  reverse, length, ◌==◌, leb, if◌then◌else◌,
}
use luasys.Lua.{LuaValue}

-- The environment table of the userdata, at its integer keys.
abbrev pub Table : Type 0 → Type 0
Table V = ℕ → V

-- `lua_rawseti`
unfoldable pub set_at : {V : Type 0} → Table V → ℕ → V → Table V
set_at t i v j = if j == i then v else t j

-- `struct data_pool`. The flag word is three Booleans, and the callbacks that the table holds under
-- two light keys are fields. `writer` is the stack of the thread `L`; `signalled` is the state of
-- the auto-reset event `tev`.
pub record Pool (V : Type 0) : Type 0 where
  pub n : ℕ
  pub nwaits : ℕ
  pub nput : ℕ
  pub writer : Option (List V)
  pub idx : ℕ
  pub top : ℕ
  pub max : ℕ
  pub put_on_full : Bool
  pub get_on_empty : Bool
  pub is_open : Bool
  pub on_full : List V → List V
  pub on_empty : List V
  pub signalled : Bool
  pub storage : Table V

-- What `thread_event_wait` returns.
pub data WaitResult : Type 0 where
  signal timeout failure : WaitResult

-- Where a call of `put` stands: it has returned, or has given up the VM lock with its data.
pub data Putting (V : Type 0) : Type 0 where
  put_done : Putting V
  put_error : Putting V
  put_waits : List V → Putting V
  put_offers : List V → Putting V

-- Where a call of `get` stands. `get_fault` is a move from the stack of no thread.
pub data Getting (V : Type 0) : Type 0 where
  got : List V → Getting V
  get_waits : Getting V
  get_timeout : Getting V
  get_error : Getting V
  get_fault : Getting V

is_none : {A : Type 0} → Option A → Bool
is_none none = true
is_none (some x) = false

module _ {V : Type 0} where
  -- `dpool_close`
  pub close : Pool V → Pool V
  close p = if p.is_open then record p { is_open = false } else p

  -- The loop `do lua_rawseti(L, 1, ++top); while (nput--);` over the stack, its top first.
  pub push_slots : ℕ → List V → ℕ → Table V → ℕ × Table V
  push_slots n [] top t = (top, t)
  push_slots zero (v ∷ st) top t = (top + 1, set_at t (top + 1) v)
  push_slots (suc n) (v ∷ st) top t = push_slots n st (top + 1) (set_at t (top + 1) v)

  -- `dpool_max`, with a new maximum and without
  pub set_max : ℕ → Pool V → Pool V
  set_max m p = record p { max = m % 2 ^ 32 }

  -- `dpool_callbacks`; `none` is an argument that is no function. A callback that the flags do not
  -- use is never called, and its field keeps its value.
  pub callbacks : Option (List V → List V) → Option (List V) → Pool V → Pool V
  unfolding is_none
  callbacks f g p = record p {
    put_on_full = not (is_none f);
    get_on_empty = not (is_none g);
    on_full = elim f [ none ↦ p.on_full | some h ↦ h ];
    on_empty = elim g [ none ↦ p.on_empty | some vs ↦ vs ];
  }

  -- `dpool_count`
  pub count : Pool V → ℕ
  count p = p.n

module _ {V : Type 0} ⦃lua : LuaValue V⦄ where
  -- `dpool_new`
  pub new : Pool V
  new = record {
    n = 0;
    nwaits = 0;
    nput = 0;
    writer = none;
    idx = 0;
    top = 0;
    max = 2 ^ 32 - 1;
    put_on_full = false;
    get_on_empty = false;
    is_open = true;
    on_full = λ vs. vs;
    on_empty = [];
    signalled = false;
    storage = λ i. lua.nil;
  }

  -- `dpool_put`, keep data in the storage
  pub store : List V → Pool V → Pool V
  store items p =
      let (top, t) =
        push_slots (length items) (lua.integer (length items) ∷ reverse items) p.top p.storage in
      record p {
        storage = t;
        top = top % 2 ^ 32;
        n = (p.n + 1) % 2 ^ 32;
        signalled = if p.n == 0 then true else p.signalled;
      }

  -- `dpool_put`, try directly move data between threads
  pub offer : List V → Pool V → Putting V × Pool V
  unfolding is_none
  offer items p =
      if not (p.nwaits == 0) && is_none p.writer
      then (
        put_offers items,
        record p { writer = some items; nput = length items; signalled = true },
      )
      else (put_done, store items p)

  after_full : List V → Pool V → Putting V × Pool V
  after_full [] p = (put_done, p)
  after_full (v ∷ vs) p = offer (v ∷ vs) p

  -- `dpool_put` up to its first wait
  pub put : List V → Pool V → Putting V × Pool V
  unfolding after_full
  put [] p = (put_error, p)
  put (v ∷ vs) p =
      if leb p.max p.n
      then (if p.put_on_full then after_full (p.on_full (v ∷ vs)) p else (put_waits (v ∷ vs), p))
      else offer (v ∷ vs) p

  -- `dpool_put` after `thread_event_wait`
  pub put_woken : WaitResult → List V → Pool V → Putting V × Pool V
  put_woken signal items p = if leb p.max p.n then (put_waits items, p) else offer items p
  put_woken timeout items p = (put_error, p)
  put_woken failure items p = (put_error, p)

  -- `dpool_put` after `sys_thread_switch`
  pub put_switched : List V → Pool V → Putting V × Pool V
  put_switched items p =
      if p.nput == 0
      then (put_done, record p { writer = none })
      else (put_done, store items (record p { writer = none; nput = 0 }))

  -- The loop from `dp->idx` down to `idx + 1`, with the values that it pushes.
  pub pop_slots : ℕ → ℕ → Table V → List V × Table V
  pop_slots zero idx t = ([], t)
  pop_slots (suc k) idx t =
      let (vs, t') = pop_slots k idx (set_at t (idx + suc k) lua.nil) in (t (idx + suc k) ∷ vs, t')

  -- `dpool_get`, get from storage
  pub take_stored : Pool V → List V × Pool V
  take_stored p =
      let idx : ℕ = p.idx + 1 in
      let nput : ℕ = lua.to_integer (p.storage idx) in
      let (vs, t) = pop_slots nput idx (set_at p.storage idx lua.nil) in
      let drained = (idx + nput) % 2 ^ 32 == p.top in
      (
        vs,
        record p {
          storage = t;
          idx = if drained then 0 else (idx + nput) % 2 ^ 32;
          top = if drained then 0 else p.top;
          n = p.n - 1;
          signalled = if p.n == p.max then true else p.signalled;
        },
      )

  -- `dpool_get`, one round of its loop up to the wait
  pub fetch : Pool V → Getting V × Pool V
  fetch p =
      if p.n == 0
      then (get_waits, record p { nwaits = p.nwaits + 1 })
      else (let (vs, p') = take_stored p in (got vs, p'))

  after_empty : List V → Pool V → Getting V × Pool V
  after_empty [] p = fetch p
  after_empty (v ∷ vs) p = (got (v ∷ vs), p)

  -- `dpool_get` up to its first wait
  pub get : Pool V → Getting V × Pool V
  unfolding after_empty
  get p = if p.get_on_empty && p.n == 0 then after_empty p.on_empty p else fetch p

  moved : Option (List V) → Pool V → Getting V × Pool V
  moved none p = (get_fault, p)
  moved (some vs) p = (got vs, record p { nput = 0 })

  -- `dpool_get` after `thread_event_wait`
  pub get_woken : WaitResult → Pool V → Getting V × Pool V
  unfolding moved
  get_woken signal p =
      let p' = record p { nwaits = p.nwaits - 1 } in
      if p.nput == 0 then fetch p' else moved p.writer p'
  get_woken timeout p = (get_timeout, record p { nwaits = p.nwaits - 1 })
  get_woken failure p = (get_error, record p { nwaits = p.nwaits - 1 })
