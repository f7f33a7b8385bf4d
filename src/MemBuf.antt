-- ===== src/MemBuf.antt =====
-- mem/sys_mem.c: a memory buffer. Its streams, mem/membuf.c, are in the modules below.
-- The flag word is a type tag and Booleans. `len` and `offset` are of type `int`, and negative ones
-- are not modelled. The bytes at `data` are a list, `none` for NULL.
pub mod Output
pub mod Input
pub mod Valid
pub mod Taken
pub mod Window
pub mod Access
mod Tests
mod StreamTests
use mathlib.Core.Option
use luasys.Base.{
  ℕ, min, zero, suc, ◌+◌, ◌-◌, ◌*◌, ◌%◌, ◌^◌, Bool, true, false, ◌&&◌, ◌||◌, not, Option, none,
  some, List, [], ◌∷◌, ◌++◌, length, take, drop, replicate, leb, ltb, ◌==◌, if◌then◌else◌,
}

abbrev pub Bytes : Type 0
Bytes = List ℕ

-- `struct membuf`
pub record MemBuf : Type 0 where
  pub block : Option Bytes
  pub len : ℕ
  pub offset : ℕ
  pub tag : ℕ
  pub is_udata : Bool
  pub is_alloc : Bool
  pub is_map : Bool
  pub istream : Bool
  pub ostream : Bool
  pub istream_bufio : Bool
  pub ostream_bufio : Bool

-- A call returns, runs for ever, or accesses memory outside of its block.
pub data Run (A : Type 0) : Type 0 where
  done : A → Run A
  hang : Run A
  fault : Run A

infixl 5 ◌>>=◌
abbrev pub ◌>>=◌ : {A B : Type 0} → Run A → (A → Run B) → Run B
done a >>= k = k a
hang >>= k = hang
fault >>= k = fault

-- The bytes of the block, and the first `offset` of them, which are what the buffer holds.
abbrev pub bytes : Option Bytes → Bytes
bytes none = []
bytes (some bs) = bs

abbrev pub contents : MemBuf → Bytes
contents mb = take mb.offset (bytes mb.block)

-- `memcpy` of `s` to position `p` of a block
unfoldable pub copy_to : Option Bytes → ℕ → Bytes → Run (Option Bytes)
copy_to none p s = fault
copy_to (some bs) p s =
    if leb (p + length s) (length bs)
    then done (some (take p bs ++ (s ++ drop (p + length s) bs)))
    else fault

-- What `realloc` makes of a block: the old bytes, cut or followed by new ones.
abbrev pub resize : ℕ → Bytes → Bytes
resize n bs = take n (bs ++ replicate n 0)

-- `memmove(p, p + n, m)` at the start of a block
unfoldable pub move_down : Bytes → ℕ → ℕ → Bytes
move_down bs n m = take m (drop n bs) ++ drop m bs

-- Take the first `m` bytes of the contents out, and drop `k` of them: a read that is out of the
-- block is a fault.
unfoldable pub take_out : ℕ → ℕ → MemBuf → Run (Bytes × MemBuf)
unfolding move_down
take_out m k mb =
    if leb mb.offset (length (bytes mb.block))
    then done (
      take m (bytes mb.block),
      record mb {
        offset = mb.offset - k;
        block =
            if mb.offset - k == 0
            then mb.block
            else some (move_down (bytes mb.block) k (mb.offset - k));
      },
    )
    else fault

-- `sys_buffer_read_next`, after `n` bytes of a buffer's contents were consumed
pub read_next : ℕ → MemBuf → MemBuf
unfolding move_down
read_next n mb = if mb.offset == n then record mb { offset = 0 } else record mb {
  offset = mb.offset - n;
  block = Option.map (λ bs. move_down bs n (mb.offset - n)) mb.block;
}

-- `mem_free`
pub free : MemBuf → MemBuf
free mb = elim mb.block [
  | none ↦ mb
  | some bs ↦ record mb {
    block = none;
    is_udata = false;
    is_alloc = false;
    is_map = false;
    istream = false;
    ostream = false;
    istream_bufio = false;
    ostream_bufio = false;
  }
]

-- `memisptr`
abbrev pub is_pointer : MemBuf → Bool
is_pointer mb = not (mb.is_udata || mb.is_alloc || mb.is_map)

-- `mem_new`
pub new : ℕ → MemBuf
new len = record {
  block = if len == 0 then none else some (replicate len 0);
  len = if len == 0 then 0 else len % 2 ^ 32;
  offset = 0;
  tag = 0;
  is_udata = not (len == 0);
  is_alloc = false;
  is_map = false;
  istream = false;
  ostream = false;
  istream_bufio = false;
  ostream_bufio = false;
}

-- `mem_alloc`, with what `malloc` or `calloc` returns. The Boolean says whether the buffer is
-- returned.
pub alloc : ℕ → Option Bytes → MemBuf → Bool × MemBuf
alloc len p mb = (
  elim p [ none ↦ false | some bs ↦ true ],
  record mb { is_alloc = true; len = len; offset = 0; block = p },
)

-- `mem_realloc`, with whether `realloc` succeeds
pub realloc : ℕ → Bool → MemBuf → Bool × MemBuf
realloc len false mb = (false, mb)
realloc len true mb = (true, record mb { block = some (resize len (bytes mb.block)); len = len })

-- `mem_length` with a length; `none` is the error "membuf is mapped"
pub set_length : ℕ → MemBuf → Option MemBuf
set_length n mb = if mb.is_map then none else some (record mb { len = n })

-- `mem_setptr`, on memory that the buffer does not own
pub set_pointer : Option Bytes → ℕ → MemBuf → Bool × MemBuf
set_pointer p off mb =
    if is_pointer mb then (true, record mb { block = p; offset = off }) else (false, mb)

-- `membuf_seek`, with an offset
pub seek : ℕ → MemBuf → MemBuf
seek n mb = record mb { offset = n }

-- `membuf_tostring`: `n` bytes from position `off`
pub to_string : ℕ → ℕ → MemBuf → Run Bytes
to_string n off mb =
    if leb (off + n) (length (bytes mb.block))
    then done (take n (drop off (bytes mb.block)))
    else fault

-- `mem_type`, with the flags of the new type
pub set_type : ℕ → MemBuf → MemBuf
set_type t mb = record mb { tag = t }

-- `mem_typesize`
pub type_size : MemBuf → ℕ
type_size mb = mb.tag % 256

-- `mem_memcpy` between two buffers
pub memcpy : ℕ → MemBuf → MemBuf → Run MemBuf
unfolding copy_to
memcpy n src mb =
    if leb n (length (bytes src.block))
    then (copy_to mb.block 0 (take n (bytes src.block)) >>= (λ b. done (record mb { block = b })))
    else fault

-- `mem_memset`
pub memset : ℕ → ℕ → MemBuf → Run MemBuf
unfolding copy_to
memset c n mb = copy_to mb.block 0 (replicate n (c % 256)) >>= λ b. done (record mb { block = b })
