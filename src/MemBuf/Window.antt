-- ===== src/MemBuf/Window.antt =====
-- mem/sys_mem.c: `struct sys_buffer`, the window through which other parts of the library read
-- bytes from a string or a memory buffer, and write them to a buffer, an array on the stack or,
-- once that is full, a block of the heap.
pub mod Collect
pub mod Fill
use luasys.Base.{
  ℕ, ◌+◌, ◌-◌, ◌*◌, ◌%◌, ◌^◌, Bool, true, false, Option, none, some, List, [], ◌∷◌, ◌++◌, length,
  take, leb, ltb, ◌==◌, if◌then◌else◌,
}
use luasys.MemBuf.{Bytes, MemBuf, Run, done, fault, ◌>>=◌, bytes, contents, copy_to, resize}
use luasys.MemBuf.Output.{Streams, add_lstring}

-- `sys_buffer_read_init`, on a memory buffer: the bytes that its window shows
pub read_init : MemBuf → Run Bytes
read_init mb = if leb mb.offset (length (bytes mb.block)) then done (contents mb) else fault

-- A window without a memory buffer: `ptr.w` is the array on the stack, with its bytes, or points
-- into a block of the heap. Then the array, of which nothing else is read any more, holds `osb`,
-- whose `ptr.w` is the block and whose `size` is `saved`; `start` is `ptr.w` counted from the
-- start of the block.
pub data Scratch : Type 0 where
  on_stack : Bytes → ℕ → Scratch
  on_heap : (block : Bytes) (saved start size : ℕ) → Scratch

-- `sys_buffer_write_init` without a memory buffer
pub write_init : Bytes → Scratch
write_init buf = on_stack buf (length buf)

-- What the owner of a window does with it: bytes are stored from `ptr.w` on.
pub fill : Bytes → Scratch → Run Scratch
fill s (on_stack buf size) = copy_to (some buf) 0 s >>= λ b. done (on_stack (bytes b) size)
fill s (on_heap p saved start size) =
    copy_to (some p) start s >>= λ b. done (on_heap (bytes b) saved start size)

-- The fields of `osb` that are stored in the array, a pointer and a `size_t`, on a 64-bit machine
abbrev pub osb_size : ℕ
osb_size = 16

-- The next window, once there is room for it: the old bytes with the array or the block twice as
-- large
pub grown : Scratch → Scratch
grown (on_stack buf size) = on_heap (resize (2 * size % 2 ^ 64) (take size buf)) size size size
grown (on_heap p saved start size) =
    let size' : ℕ = 2 * saved % 2 ^ 64 in on_heap (resize (2 * size' % 2 ^ 64) p) size' size' size'

-- `sys_buffer_write_next` without a memory buffer, with whether the allocation succeeds. It stores
-- `osb` in the array once the bytes are copied from it.
pub write_next : Bool → Scratch → Run (Bool × Scratch)
unfolding grown
write_next false sc = done (false, sc)
write_next true (on_stack buf size) =
    if ltb (length buf) osb_size then fault else done (true, grown (on_stack buf size))
write_next true (on_heap p saved start size) = done (true, grown (on_heap p saved start size))

-- `sys_buffer_write_done` without a memory buffer: the string that is pushed
pub write_done : ℕ → Scratch → Bytes
write_done tail (on_stack buf size) = take tail buf
write_done tail (on_heap p saved start size) = take (saved + tail) p

-- A window to the room of a memory buffer is where it starts, and its size.
-- `sys_buffer_write_init` on a memory buffer
unfoldable pub buffer_init : MemBuf → ℕ × ℕ
buffer_init mb = (mb.offset, mb.len - mb.offset)

module _ {S : Type 0} (env : Streams S) where
  -- `sys_buffer_write_next` on a memory buffer
  pub buffer_next : ℕ → ℕ × ℕ → MemBuf → S → Run (Bool × (ℕ × ℕ) × MemBuf × S)
  unfolding buffer_init
  buffer_next n w mb st =
      let mb' : MemBuf = if n == 0 then record mb { offset = mb.len } else mb in
      add_lstring env none n mb' st >>= λ r.
      done (r.0, (if r.0 then buffer_init r.1 else w), r.1, r.2)

-- `sys_buffer_write_done` on a memory buffer
pub buffer_done : ℕ → MemBuf → MemBuf
buffer_done tail mb = record mb { offset = mb.offset + tail }
