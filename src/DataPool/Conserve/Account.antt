-- ===== src/DataPool/Conserve/Account.antt =====
-- Where the tuples given to a pool are: an account that counts each of them once.
use luasys.Base.{
  ℕ, ◌+◌, ◌<◌, ◌≡◌, ◌⊎◌, false, Option, none, some, List, [], ◌∷◌, ◌++◌, length, arith, ◌==◌,
  if◌then◌else◌,
}
use luasys.Lua.{LuaValue}
use luasys.DataPool.{store}
use luasys.DataPool.Queue.{IsQueue, store_refines}
use luasys.DataPool.Threads.{Threads, HasRoom}

-- The total of a measure of tuples. Two bags of tuples are the same if they agree for each measure.
abbrev pub weigh {ℓ} : {A : Type ℓ} → (A → ℕ) → List A → ℕ
weigh w [] = 0
weigh w (x ∷ xs) = w x + weigh w xs

pub weigh-append {ℓ} :
    {A : Type ℓ} (w : A → ℕ) (xs ys : List A) → weigh w (xs ++ ys) ≡ weigh w xs + weigh w ys
weigh-append w [] ys = omega arith
weigh-append w (x ∷ xs) ys = omega (arith, weigh-append w xs ys)

module _ {V : Type 0} where
  -- What the writer in `sys_thread_switch` still has: nothing once a reader has moved it.
  abbrev pub in_hand : (List V → ℕ) → Option (List V) → ℕ → ℕ
  in_hand w none k = 0
  in_hand w (some q) k = if k == 0 then 0 else w q

  abbrev pub Offered : Option (List V) → ℕ → Type 0
  Offered none k = k ≡ 0
  Offered (some q) k = (0 < length q) × ((k ≡ 0) ⊎ (k ≡ length q))

module _ {V : Type 0} ⦃lua : LuaValue V⦄ where
  -- The tuples of the storage are `qs`, and each accepted tuple is in one place. `moving` is the
  -- tuple of the call that runs.
  pub record Keeps (s : Threads V) (qs moving : List (List V)) : Type 0 where
    pub queue : IsQueue s.pool qs
    pub no_on_full : s.pool.put_on_full ≡ false
    pub no_on_empty : s.pool.get_on_empty ≡ false
    pub linked : s.pool.writer ≡ s.offered
    pub handing : Offered s.offered s.pool.nput
    pub sound : s.faulty ≡ false
    pub kept :
        (w : List V → ℕ)
        → weigh w s.accepted
          ≡ weigh w s.delivered
            + weigh w s.rejected
            + weigh w qs
            + weigh w s.blocked
            + in_hand w s.offered s.pool.nput
            + weigh w moving

  pub store-Keeps :
      (s : Threads V) (q : List V) (qs : List (List V))
      → HasRoom s.pool q
      → Keeps s qs (q ∷ [])
      → Keeps (record s { pool = store q s.pool }) (qs ++ q ∷ []) []
  unfolding store
  store-Keeps s q qs room k = record {
    queue = store_refines s.pool q qs k.queue room;
    no_on_full = k.no_on_full;
    no_on_empty = k.no_on_empty;
    linked = k.linked;
    handing = k.handing;
    sound = k.sound;
    kept = λ w. omega (arith, k.kept w, weigh-append w qs (q ∷ []));
  }

  abbrev pub Kept : Threads V → Type 0
  Kept s = (qs : List (List V)) × Keeps s qs []
