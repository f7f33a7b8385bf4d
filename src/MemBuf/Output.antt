-- ===== src/MemBuf/Output.antt =====
-- mem/membuf.c, the output half: adding bytes to a buffer, which grows or is flushed to its stream.
pub mod Grow
pub mod Append
pub mod Write
pub mod Faults
pub mod Partial
use luasys.Base.{
  ℕ, zero, suc, ◌+◌, ◌-◌, ◌*◌, ◌%◌, ◌^◌, Bool, true, false, ◌||◌, not, Option, none, some, List, [],
  ◌∷◌, ◌++◌, length, leb, ltb, if◌then◌else◌,
}
use luasys.MemBuf.{
  Bytes, MemBuf, Run, done, hang, fault, ◌>>=◌, bytes, contents, copy_to, resize, free,
}

-- The stream objects of the buffer, which Lua code implements: `write` with a string and with the
-- buffer itself, `read` with a
-- length and with the buffer; and whether `realloc` to a size succeeds.
pub record Streams (S : Type 0) : Type 0 where
  pub write : Bytes → S → Bool × S
  pub write_buffer : MemBuf → S → Bool × MemBuf × S
  pub read : Option ℕ → S → Option Bytes × S
  pub read_buffer : Option ℕ → MemBuf → S → Option Bytes × MemBuf × S
  pub has_memory : ℕ → Bool

-- The loop `while ((len *= 2) <= newlen)`, on fuel; `none` means that the fuel ran out.
pub grow : ℕ → ℕ → ℕ → Option ℕ
grow zero len new_len = none
grow (suc f) len new_len =
    let len' : ℕ = 2 * len % 2 ^ 64 in
    let rest = grow f len' new_len in if leb len' new_len then rest else some len'

-- A doubling `size_t` leaves the range in 64 rounds, unless it is 0.
abbrev pub grow_fuel : ℕ
grow_fuel = 64

module _ {S : Type 0} (env : Streams S) where
  -- `stream_write`
  pub stream_write : MemBuf → S → Run (Bool × MemBuf × S)
  stream_write mb st =
      if mb.ostream_bufio
      then done (env.write_buffer mb st)
      else (if leb mb.offset (length (bytes mb.block))
          then (let (res, st') = env.write (contents mb) st in
              done (res, (if res then record mb { offset = 0 } else mb), st'))
          else fault)

  -- The end of `membuf_addlstring`, at its own `offset`; `s` is NULL for `none`.
  put_bytes : Option Bytes → ℕ → MemBuf → S → Run (Bool × MemBuf × S)
  put_bytes none offset mb st = done (true, mb, st)
  put_bytes (some s) offset mb st = copy_to mb.block offset s >>= λ block.
      done (true, record mb { block = block; offset = offset + length s }, st)

  reallocate : Option Bytes → ℕ → ℕ → MemBuf → S → Run (Bool × MemBuf × S)
  unfolding put_bytes
  reallocate s offset len mb st =
      if not mb.is_alloc || not (env.has_memory len)
      then done (false, mb, st)
      else put_bytes s offset
          (record mb { len = len % 2 ^ 32; block = some (resize len (bytes mb.block)) }) st

  -- The rest of it from the loop on, with its own `offset` and `len`.
  enlarge : Option Bytes → ℕ → ℕ → ℕ → MemBuf → S → Run (Bool × MemBuf × S)
  unfolding reallocate
  enlarge s offset len new_len mb st = elim (grow grow_fuel len new_len) [
    | none ↦ hang
    | some len' ↦ reallocate s offset len' mb st
  ]

  after_flush : Option Bytes → ℕ → ℕ → MemBuf → Bool × MemBuf × S → Run (Bool × MemBuf × S)
  unfolding enlarge
  after_flush s size new_len mb (true, mb', st) =
      if ltb size ((2 ^ 64 + mb'.len - mb'.offset) % 2 ^ 64)
      then put_bytes s mb'.offset mb' st
      else enlarge s mb'.offset mb'.len new_len mb' st
  after_flush s size new_len mb (false, mb', st) = enlarge s mb.offset mb.len new_len mb' st

  -- `membuf_addlstring`, with the bytes or, for NULL, their number alone. The arithmetic is that of
  -- `size_t`.
  pub add_lstring : Option Bytes → ℕ → MemBuf → S → Run (Bool × MemBuf × S)
  unfolding enlarge after_flush
  add_lstring s size mb st =
      let new_len : ℕ = (mb.offset + size) % 2 ^ 64 in
      if ltb new_len mb.len
      then put_bytes s mb.offset mb st
      else (if mb.ostream
          then stream_write mb st >>= after_flush s size new_len mb
          else enlarge s mb.offset mb.len new_len mb st)

  -- `membuf_write`, over its string arguments
  pub write : List Bytes → MemBuf → S → Run (Bool × MemBuf × S)
  write [] mb st = done (true, mb, st)
  write ([] ∷ args) mb st = write args mb st
  write ((b ∷ bs) ∷ args) mb st =
      let rest = λ (r : Bool × MemBuf × S). write args r.1 r.2 in
      add_lstring (some (b ∷ bs)) (length (b ∷ bs)) mb st >>= λ r. elim r.0 [
        | true ↦ rest r
        | false ↦ done r
      ]

  -- `membuf_writeln`
  pub writeln : List Bytes → MemBuf → S → Run (Bool × MemBuf × S)
  writeln args mb st = write (args ++ (0x0a ∷ []) ∷ []) mb st

  -- `mem_reserve`
  pub reserve : ℕ → MemBuf → S → Run (Bool × MemBuf × S)
  reserve n mb st = add_lstring none n mb st

  -- `membuf_flush`, without and with `close`
  pub flush : Bool → MemBuf → S → Run (Bool × MemBuf × S)
  unfolding stream_write free
  flush is_close mb st =
      if mb.ostream
      then (stream_write mb st >>= (λ r. done (r.0, (if is_close then free r.1 else r.1), r.2)))
      else done (true, mb, st)
