-- ===== src/MemBuf/Output/Partial.antt =====
-- What `membuf_addlstring` does with a stream that takes some bytes out of the buffer and returns
-- false, as `sys_write` of sys_file.c does on a partial write: it goes on with the offset from
-- before.
use luasys.Base.{
  ℕ, ◌+◌, ◌%◌, ◌^◌, ◌≤◌, ◌<◌, ◌≡◌, refl, Bool, true, false, some, ◌++◌, length, take, arith, ap,
  ◌∙◌, ltb, if◌then◌else◌, length-append, length-take,
}
use luasys.MemBuf.{Bytes, MemBuf, Run, done, bytes, contents, resize, ◌>>=◌}
use luasys.MemBuf.Valid.{IsValid, Returns, copy_to-Fits, take-resize, length-resize}
use luasys.MemBuf.Output.{
  Streams, grow, grow_fuel, put_bytes, reallocate, enlarge, after_flush, add_lstring, stream_write,
}
use luasys.MemBuf.Output.Grow.{grow_total}

-- The buffer after a successful `realloc` to `l` bytes
abbrev bigger : MemBuf → ℕ → MemBuf
bigger mb l = record mb { len = l % 2 ^ 32; block = some (resize l (bytes mb.block)) }

-- The buffer has the bytes `s` behind place `p`, whatever it held there before.
abbrev pub Stale : {S : Type 0} → Bytes → ℕ → MemBuf → S → Bool × MemBuf × S → Type 0
Stale s p mb st (ok, mb', st') =
    (ok ≡ true)
    × (st' ≡ st)
    × (contents mb' ≡ take p (bytes mb.block) ++ s)
    × (length (contents mb ++ s) < length (contents mb'))

module _ {S : Type 0} (env : Streams S) where
  reallocate-works :
      (s : Bytes) (p l : ℕ) (mb : MemBuf) (st : S)
      → mb.is_alloc ≡ true
      → env.has_memory l ≡ true
      → reallocate env (some s) p l mb st ≡ put_bytes env (some s) p (bigger mb l) st
  unfolding reallocate
  reallocate-works s p l mb st a h = ground arith

  put_bytes-Stale :
      (s : Bytes) (p l : ℕ) (mb : MemBuf) (st : S)
      → IsValid mb
      → mb.offset < p
      → p ≤ mb.len
      → mb.len ≤ l
      → p + length s ≤ l
      → Returns (Stale s p mb st) (put_bytes env (some s) p (bigger mb l) st)
  unfolding put_bytes
  put_bytes-Stale s p l mb st v lt le grows room =
      let all = length-resize l (bytes mb.block) in
      let sized = v.sized in
      let (c, e, len, t) =
        copy_to-Fits (some (resize l (bytes mb.block))) s p (omega (arith, all, v.positive))
          (omega (arith, all)) in
      let held : take (p + length s) (bytes c) ≡ take p (bytes mb.block) ++ s =
        t ∙ ap (λ bs. bs ++ s) (take-resize p l (bytes mb.block) (omega arith) (omega arith)) in
      let m = length-append (take mb.offset (bytes mb.block)) s in
      let n = length-append (take p (bytes mb.block)) s in
      let m1 = length-take mb.offset (bytes mb.block) in
      let n1 = length-take p (bytes mb.block) in
      let h1 = ap length held in rw e (refl, refl, held, omega arith)

  enlarge-reallocate :
      (s : Bytes) (p len n l : ℕ) (mb : MemBuf) (st : S)
      → grow grow_fuel len n ≡ some l
      → enlarge env (some s) p len n mb st ≡ reallocate env (some s) p l mb st
  unfolding enlarge
  enlarge-reallocate s p len n l mb st e = ground arith

  refused-enlarge :
      (s : Bytes) (size n : ℕ) (mb mb1 : MemBuf) (st : S)
      → after_flush env (some s) size n mb (false, mb1, st)
        ≡ enlarge env (some s) mb.offset mb.len n mb1 st
  unfolding after_flush
  refused-enlarge s size n mb mb1 st = refl

  buffer-written :
      (mb : MemBuf) (st : S)
      → mb.ostream_bufio ≡ true
      → stream_write env mb st ≡ done (env.write_buffer mb st)
  unfolding stream_write
  buffer-written mb st h = ground arith

  flushing :
      (s : Bytes) (mb mb1 : MemBuf) (st st1 : S)
      → mb.ostream ≡ true
      → (mb.offset + length s) % 2 ^ 64 ≡ mb.offset + length s
      → mb.len ≤ mb.offset + length s
      → stream_write env mb st ≡ done (false, mb1, st1)
      → add_lstring env (some s) (length s) mb st
        ≡ enlarge env (some s) mb.offset mb.len (mb.offset + length s) mb1 st1
  unfolding add_lstring
  flushing s mb mb1 st st1 o w le e =
      let n : ℕ = mb.offset + length s in
      let full : ltb n mb.len ≡ false = ground arith in
      let flow = λ (k : ℕ) (b c : Bool) (r : Run (Bool × MemBuf × S)).
        if b
        then put_bytes env (some s) mb.offset mb st
        else (if c
            then r >>= after_flush env (some s) (length s) k mb
            else enlarge env (some s) mb.offset mb.len k mb st) in
      (λ i. flow (w i) (ltb (w i) mb.len) (o i) (e i))
      ∙ (λ i. flow n (full i) true (done (false, mb1, st1)))
      ∙ refused-enlarge s (length s) n mb mb1 st1

  -- A buffer with a stream of buffers that takes some bytes out of it and returns false: when the
  -- bytes to add need more room, and there is memory for it, `membuf_addlstring` returns true, and
  -- has put the bytes behind the old offset. The bytes that were left there from before are
  -- contents of the buffer again, so that it holds more than it should.
  pub add_lstring-partial :
      (s : Bytes) (mb mb1 : MemBuf) (st st1 : S)
      → mb.ostream ≡ true
      → mb.ostream_bufio ≡ true
      → IsValid mb
      → mb.len ≤ mb.offset + length s
      → mb.offset + length s < 2 ^ 30
      → env.write_buffer mb st ≡ (false, mb1, st1)
      → IsValid mb1
      → mb1.len ≡ mb.len
      → mb1.offset < mb.offset
      → mb1.is_alloc ≡ true
      → ((l : ℕ) → env.has_memory l ≡ true)
      → Returns (Stale s mb.offset mb1 st1) (add_lstring env (some s) (length s) mb st)
  add_lstring-partial s mb mb1 st st1 o b v le small e v1 same lt a memory =
      let n : ℕ = mb.offset + length s in
      let w : n % 2 ^ 64 ≡ n = omega arith in
      let written : stream_write env mb st ≡ done (false, mb1, st1) =
        buffer-written mb st b ∙ ap done e in
      let (l, g, gt, le2) = grow_total mb.len n v.positive le (omega arith) in
      let inside = v.inside in
      rw
        (flushing s mb mb1 st st1 o w le written
          ∙ enlarge-reallocate s mb.offset mb.len n l mb1 st1 g
          ∙ reallocate-works s mb.offset l mb1 st1 a (memory l))
        (put_bytes-Stale s mb.offset l mb1 st1 v1 lt (omega arith) (omega arith) (omega arith))
