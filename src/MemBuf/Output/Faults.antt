-- ===== src/MemBuf/Output/Faults.antt =====
-- What `membuf_addlstring` does with a buffer that has no memory.
use luasys.Base.{ℕ, ◌+◌, ◌%◌, ◌^◌, ◌<◌, ◌≡◌, false, Option, none, some, length, arith}
use luasys.MemBuf.{Bytes, MemBuf, hang, fault, copy_to, free}
use luasys.MemBuf.Valid.{IsValid}
use luasys.MemBuf.Output.{Streams, grow_fuel, put_bytes, enlarge, add_lstring}
use luasys.MemBuf.Output.Grow.{grow_zero}

free_block : (mb : MemBuf) → (free mb).block ≡ none
unfolding free
free_block mb = ground arith

free_sizes : (mb : MemBuf) → ((free mb).len ≡ mb.len) × ((free mb).offset ≡ mb.offset)
unfolding free
free_sizes mb = ground arith

module _ {S : Type 0} (env : Streams S) where
  -- A buffer of length 0 that has no output stream, such as a fresh `sys.mem.pointer()`, makes every
  -- call with bytes or a reservation loop for ever.
  pub add_lstring-hang :
      (s : Option Bytes) (size : ℕ) (mb : MemBuf) (st : S)
      → mb.len ≡ 0
      → mb.ostream ≡ false
      → add_lstring env s size mb st ≡ hang
  unfolding add_lstring enlarge
  add_lstring-hang s size mb st e o =
      ground (arith, grow_zero grow_fuel ((mb.offset + size) % 2 ^ 64))

  -- `mem_free` leaves `len` and `offset` as they were, so that a later write that fits in the old
  -- length goes to the NULL block.
  pub add_lstring-free :
      (s : Bytes) (mb : MemBuf) (st : S)
      → IsValid mb
      → mb.offset + length s < mb.len
      → add_lstring env (some s) (length s) (free mb) st ≡ fault
  unfolding add_lstring put_bytes copy_to
  add_lstring-free s mb st v fits =
      let small = v.small in ground (arith, free_block mb, free_sizes mb)
