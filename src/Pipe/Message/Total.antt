-- ===== src/Pipe/Message/Total.antt =====
-- Which values `pipe_msg_build` makes a message of.
use luasys.Base.{
  ℕ, ◌+◌, ◌-◌, ◌<◌, ◌≡◌, refl, ◌≢◌, false, none, List, [], ◌∷◌, length, leb, arith, inl, inr,
  Option-cases,
}
use luasys.Pipe.{Memory}
use luasys.Pipe.Message.{
  Repr, Value, built, put_item, type_of, tested, stored, aligned, build_items, put_size, build,
  msg_max_size, item_align,
}
use luasys.Pipe.Message.Built.{stored-tested}

module _ {N P : Type 0} (num : Repr N) (ptr : Repr P) where
  -- No value is of a type that no message takes.
  abbrev pub ArePrimitive : List (Value N P) → Type 0
  ArePrimitive [] = Unit
  ArePrimitive (v ∷ vs) = (stored num ptr v ≢ none) × ArePrimitive vs

  -- The bytes that the values need at most.
  abbrev pub total_size : List (Value N P) → ℕ
  total_size [] = 0
  total_size (v ∷ vs) = 8 + aligned (tested num ptr v) + total_size vs

  build_items-built :
      (vs : List (Value N P)) (cp : ℕ) (mem : Memory)
      → ArePrimitive vs
      → cp + total_size vs < 508
      → (e : ℕ) × ((m : Memory) × (build_items num ptr vs cp mem ≡ built e m))
  unfolding build_items
  build_items-built [] cp mem prim small = (cp, (mem, refl))
  build_items-built (v ∷ vs) cp mem (p, prim) small =
      let room : leb (msg_max_size - item_align) (cp + 8 + tested num ptr v) ≡ false =
        ground arith in
      elim (Option-cases (stored num ptr v)) [
        | inl e ↦ absurd (p e)
        | inr (bs, e) ↦
            let le = stored-tested num ptr v bs e in
            rw (room, e)
              (build_items-built vs (cp + 8 + aligned (length bs))
                (put_item (2 + cp) (type_of num ptr v) bs mem) prim (omega arith))
      ]

  -- `pipe_msg_build` makes a message of every list of primitive values whose items, each of eight
  -- bytes and its value rounded up, or eight bytes for one that is no string, take less than 508
  -- bytes.
  pub build-built :
      (vs : List (Value N P)) (mem : Memory)
      → ArePrimitive vs
      → total_size vs < 508
      → (n : ℕ) × ((m : Memory) × (build num ptr vs mem ≡ built n m))
  unfolding build put_size
  build-built vs mem prim small =
      let (e, (m, h)) = build_items-built vs 0 mem prim (omega arith) in rw h (_, (_, refl))
