-- ===== src/Pipe/Message.antt =====
-- thread/thread_pipe.c: how Lua values become a message of a pipe and come back,
-- `pipe_msg_build` and `pipe_msg_parse`, on a 64-bit machine with the low byte first.
pub mod Built
pub mod RoundTrip
pub mod Total
mod Tests
use luasys.Base.{
  ℕ, zero, suc, ◌+◌, ◌*◌, ◌-◌, ◌^◌, ◌/◌, ◌%◌, ◌≡◌, Bool, true, false, not, Option, none, some, List,
  [], ◌∷◌, length, ltb, leb, ◌==◌, if◌then◌else◌,
}
use luasys.Pipe.{Memory, copy_in, copy_out, short_at}

-- How the machine keeps a `lua_Number` or a pointer: in eight bytes, which give it back.
pub record Repr (A : Type 0) : Type 0 where
  pub to_bytes : A → List ℕ
  pub of_bytes : List ℕ → A
  pub width : (a : A) → length (to_bytes a) ≡ 8
  pub back : (a : A) → of_bytes (to_bytes a) ≡ a

-- A Lua value on the stack; `other` is one of a type that no message takes.
pub data Value (N P : Type 0) : Type 0 where
  nil : Value N P
  boolean : Bool → Value N P
  light : P → Value N P
  number : N → Value N P
  string : List ℕ → Value N P
  userdata : P → Value N P
  other : ℕ → Value N P

-- MSG_MAXSIZE and MSG_ITEM_ALIGN
abbrev pub msg_max_size : ℕ
msg_max_size = 512

abbrev pub item_align : ℕ
item_align = 4

-- `(len + (MSG_ITEM_ALIGN-1)) & ~(MSG_ITEM_ALIGN-1)`
abbrev pub aligned : ℕ → ℕ
aligned n = (n + 3) / item_align * item_align

-- `pipe_msg_build` returns, or raises an error.
pub data Building : Type 0 where
  built : ℕ → Memory → Building
  too_big : Building
  not_primitive : Building

-- `item->type` and `item->len`, the bit fields, and the value behind them
unfoldable pub put_item : (p type : ℕ) → List ℕ → Memory → Memory
unfolding copy_in
put_item p type bs mem =
    copy_in (copy_in mem (p + 8) bs) p (type ∷ length bs % 256 ∷ length bs / 256 ∷ [])

module _ {N P : Type 0} (num : Repr N) (ptr : Repr P) where
  -- `lua_type`
  abbrev pub type_of : Value N P → ℕ
  type_of nil = 0
  type_of (boolean b) = 1
  type_of (light a) = 2
  type_of (number x) = 3
  type_of (string s) = 4
  type_of (userdata a) = 7
  type_of (other t) = t

  -- The `len` that is tested against the end of the message.
  abbrev pub tested : Value N P → ℕ
  tested (string s) = length s
  tested v = 8

  -- The bytes that the `switch` stores, and none for a type that is not primitive.
  abbrev pub stored : Value N P → Option (List ℕ)
  stored nil = some []
  stored (boolean b) = some ((if b then 1 else 0) ∷ [])
  stored (light a) = some (ptr.to_bytes a)
  stored (number x) = some (num.to_bytes x)
  stored (string s) = some s
  stored (userdata a) = some (ptr.to_bytes a)
  stored (other t) = none

  -- The loop of `pipe_msg_build`; `cp` is counted from `msg->items`, two bytes into the message.
  pub build_items : List (Value N P) → ℕ → Memory → Building
  unfolding put_item
  build_items [] cp mem = built cp mem
  build_items (v ∷ vs) cp mem =
      if leb (msg_max_size - item_align) (cp + 8 + tested v) then too_big else elim (stored v) [
        | none ↦ not_primitive
        | some bs ↦
            build_items vs (cp + 8 + aligned (length bs)) (put_item (2 + cp) (type_of v) bs mem)
      ]

  put_size : Building → Building
  put_size (built cp mem) =
      built (2 + cp) (copy_in mem 0 ((2 + cp) % 256 ∷ (2 + cp) / 256 % 256 ∷ []))
  put_size too_big = too_big
  put_size not_primitive = not_primitive

  -- `pipe_msg_build`, over memory that was not set before
  pub build : List (Value N P) → Memory → Building
  unfolding put_size
  build vs mem = put_size (build_items vs 0 mem)

  -- The `switch` of `pipe_msg_parse`, with the value at address `p`
  pub value_at : (type len p : ℕ) → Memory → Value N P
  unfolding copy_out
  value_at type len p mem =
      if type == 4
      then string (copy_out mem p len)
      else (if type == 3
          then number (num.of_bytes (copy_out mem p 8))
          else (if type == 1
              then boolean (not (mem p == 0))
              else (if type == 0 then nil else light (ptr.of_bytes (copy_out mem p 8)))))

  -- The loop of `pipe_msg_parse`, on fuel. A length is below 2 ^ 15 and so is not negative.
  pub parse_items : ℕ → ℕ → Memory → List (Value N P)
  unfolding value_at short_at
  parse_items zero cp mem = []
  parse_items (suc f) cp mem =
      let len : ℕ = short_at mem (2 + cp + 1) in
      let rest = parse_items f (cp + 8 + aligned len) mem in
      if ltb (2 + cp) (short_at mem 0)
      then value_at (mem (2 + cp)) len (2 + cp + 8) mem ∷ rest
      else []

  -- `pipe_msg_parse`; an item has at least eight bytes, which bounds their number.
  pub parse : Memory → List (Value N P)
  parse mem = parse_items msg_max_size 0 mem
