-- ===== src/Lua.antt =====
-- What the library uses of the Lua C API. Lua is no part of the repository, so its values are a
-- parameter: a type with `nil`, the integers and `lua_tointeger`.
use luasys.Base.{ℕ, ◌≡◌}

-- `lua_pushinteger` followed by `lua_tointeger` gives the number back.
pub record LuaValue (V : Type 0) : Type 0 where
  pub nil : V
  pub integer : ℕ → V
  pub to_integer : V → ℕ
  pub to_integer-integer : (n : ℕ) → to_integer (integer n) ≡ n
