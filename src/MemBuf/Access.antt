-- ===== src/MemBuf/Access.antt =====
-- mem/sys_mem.c: access to the items of a buffer by index, `mem_index` and `mem_newindex`. The
-- type that the buffer is set to is an argument, and the index is not negative.
pub mod StoreLoad
use luasys.Base.{
  ℕ, ◌+◌, ◌-◌, ◌*◌, ◌/◌, ◌%◌, ◌^◌, ◌≡◌, Bool, true, false, Option, none, some, List, [], ◌∷◌,
  length, take, drop, get_or, leb, ◌==◌, if◌then◌else◌,
}
use luasys.MemBuf.{Bytes, MemBuf, Run, done, fault, ◌>>=◌, bytes, copy_to}

-- `type_names`
pub data ItemType : Type 0 where
  char uchar short ushort int uint long ulong float double number bitstring : ItemType

-- MEM_SIZE_MASK of `type_flags`, on a 64-bit machine
abbrev pub item_size : ItemType → ℕ
item_size char = 1
item_size uchar = 1
item_size short = 2
item_size ushort = 2
item_size int = 4
item_size uint = 4
item_size long = 8
item_size ulong = 8
item_size float = 4
item_size double = 8
item_size number = 8
item_size bitstring = 1

-- The types of C that the items are cast to and read as, and their sizes on a 64-bit machine
pub data CType : Type 0 where
  c_char c_uchar c_short c_ushort c_int c_uint c_long c_ulong c_float c_double c_number : CType

abbrev pub size_of : CType → ℕ
size_of c_char = 1
size_of c_uchar = 1
size_of c_short = 2
size_of c_ushort = 2
size_of c_int = 4
size_of c_uint = 4
size_of c_long = 8
size_of c_ulong = 8
size_of c_float = 4
size_of c_double = 8
size_of c_number = 8

-- What C relies on: the bytes of a `lua_Number` that is cast to a type, the number that an object of
-- these bytes is, and the numbers that the type has. They keep their value as objects of it.
pub record Casts (N : Type 0) : Type 0 where
  pub to_bytes : CType → N → Bytes
  pub of_bytes : CType → Bytes → N
  pub in_range : CType → N → Bool
  pub width : (c : CType) (x : N) → length (to_bytes c x) ≡ size_of c
  pub back : (c : CType) (x : N) → in_range c x ≡ true → of_bytes c (to_bytes c x) ≡ x

-- The type as which `mem_index` reads an item; none is the case of bits.
unfoldable pub index_type : ItemType → Option CType
index_type char = some c_char
index_type uchar = some c_uchar
index_type short = some c_short
index_type ushort = some c_ushort
index_type int = some c_int
index_type uint = some c_uint
index_type long = some c_long
index_type ulong = some c_ulong
index_type float = some c_float
index_type double = some c_double
index_type number = some c_number
index_type bitstring = none

-- The type that `mem_newindex` casts a number to; none is the error for bits.
pub assign_type : ItemType → Option CType
assign_type char = some c_char
assign_type uchar = some c_uchar
assign_type short = some c_short
assign_type ushort = some c_ushort
assign_type int = some c_int
assign_type uint = some c_uint
assign_type long = some c_long
assign_type ulong = some c_ulong
assign_type float = some c_float
assign_type double = some c_double
assign_type number = some c_number
assign_type bitstring = none

-- `memlen`
abbrev pub mem_len : ItemType → ℕ → ℕ
mem_len bitstring n = n / 8 + 1
mem_len t n = n * item_size t

-- A Lua value that is read or assigned; `other` is one that has no use here.
pub data Item (N : Type 0) : Type 0 where
  num : N → Item N
  bool : Bool → Item N
  str : Bytes → Item N
  other : Item N

-- A read of `n` bytes at position `p`
abbrev pub load : Option Bytes → ℕ → ℕ → Run Bytes
load b p n = if leb (p + n) (length (bytes b)) then done (take n (drop p (bytes b))) else fault

-- `1 << (off & 7)`, and the test of that bit
abbrev pub bit : ℕ → ℕ
bit off = 2 ^ (off % 8)

abbrev pub has_bit : ℕ → ℕ → Bool
has_bit off byte = byte / bit off % 2 == 1

-- `*ptr |= bit` and `*ptr &= ~bit`
abbrev pub assign_bit : ℕ → Bool → ℕ → ℕ
assign_bit off true byte = if has_bit off byte then byte else byte + bit off
assign_bit off false byte = if has_bit off byte then byte - bit off else byte

module _ {N : Type 0} (casts : Casts N) where
  -- `mem_index` with a number
  pub index : ItemType → ℕ → MemBuf → Run (Item N)
  unfolding index_type
  index t off mb = elim (index_type t) [
    | none ↦ load mb.block (mem_len t off - 1) 1 >>= λ bs. done (bool (has_bit off (get_or bs 0 0)))
    | some c ↦ load mb.block (mem_len t off) (size_of c) >>= λ bs. done (num (casts.of_bytes c bs))
  ]

  put_at : ℕ → Bytes → MemBuf → Run (Option MemBuf)
  put_at p s mb = copy_to mb.block p s >>= λ b. done (some (record mb { block = b }))

  -- `mem_newindex`; none is an error that is raised.
  pub new_index : ItemType → ℕ → Item N → MemBuf → Run (Option MemBuf)
  unfolding put_at assign_type
  new_index t off (num x) mb = elim (assign_type t) [
    | none ↦ done none
    | some c ↦ put_at (mem_len t off) (casts.to_bytes c x) mb
  ]
  new_index bitstring off (bool b) mb = load mb.block (mem_len bitstring off - 1) 1 >>= λ bs.
      put_at (mem_len bitstring off - 1) (assign_bit off b (get_or bs 0 0) ∷ []) mb
  new_index t off (bool b) mb = done none
  new_index t off (str s) mb = put_at (mem_len t off) s mb
  new_index t off other mb = done none
