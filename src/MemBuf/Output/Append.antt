-- ===== src/MemBuf/Output/Append.antt =====
-- `membuf_addlstring` and `membuf_write` put the bytes behind what the stream and the buffer hold.
use luasys.Base.{
  ℕ, ◌+◌, ◌-◌, ◌%◌, ◌^◌, ◌≤◌, ◌<◌, ◌≡◌, refl, Bool, true, false, Option, some, [], ◌++◌, length,
  append_assoc, append-nil, arith, ap, ◌∙◌, sym, subst, ap₂, ltb→lt, not, ◌||◌, inl, inr,
  Bool-cases, ltb, if◌then◌else◌,
}
use luasys.MemBuf.{Bytes, MemBuf, Run, done, bytes, contents, resize}
use luasys.MemBuf.Valid.{
  IsValid, Returns, Returns-mono, Returns-if, Returns->>=, copy_to-Fits, take-resize, length-resize,
}
use luasys.MemBuf.Output.{
  Streams, grow, grow_fuel, stream_write, put_bytes, reallocate, enlarge, after_flush, add_lstring,
}
use luasys.MemBuf.Output.Grow.{grow_total}

-- What the proofs rely on of the output stream: `sent` are the bytes that it has accepted. Given a
-- string it accepts all of it or, with a false result, nothing. Given the buffer, it may take some
-- of the contents from the front, and leaves the buffer alone if it refuses. The files and sockets
-- of the library are not such streams when a write is partial: `sys_write` takes some bytes out of
-- the buffer and returns false (MemBuf/Output/Faults). Memory buffers as streams are.
pub record IsLawful {S : Type 0} (env : Streams S) (sent : S → Bytes) : Type 0 where
  pub accepts :
      (bs : Bytes) (st : S) → (env.write bs st).0 ≡ true → sent (env.write bs st).1 ≡ sent st ++ bs
  pub refuses :
      (bs : Bytes) (st : S) → (env.write bs st).0 ≡ false → sent (env.write bs st).1 ≡ sent st
  pub consumes :
      (mb : MemBuf) (st : S)
      → (env.write_buffer mb st).0 ≡ true
      → IsValid mb
      → IsValid (env.write_buffer mb st).1
        × ((env.write_buffer mb st).1.len ≡ mb.len)
        × ((env.write_buffer mb st).1.offset ≤ mb.offset)
        × (sent (env.write_buffer mb st).2 ++ contents (env.write_buffer mb st).1
            ≡ sent st ++ contents mb)
  pub leaves :
      (mb : MemBuf) (st : S)
      → (env.write_buffer mb st).0 ≡ false
      → ((env.write_buffer mb st).1 ≡ mb) × (sent (env.write_buffer mb st).2 ≡ sent st)

module _ {S : Type 0} (env : Streams S) (sent : S → Bytes) where
  -- The stream and the buffer together hold what they held, and then `s`.
  abbrev pub Added : Bytes → MemBuf → S → Bool × MemBuf × S → Type 0
  Added s mb st (ok, mb', st') =
      IsValid mb'
      × (mb'.offset ≤ mb.offset + length s)
      × (sent st' ++ contents mb' ≡ sent st ++ contents mb ++ (if ok then s else []))

  put_bytes-Added :
      (s : Bytes) (mb : MemBuf) (st : S)
      → IsValid mb
      → mb.offset + length s ≤ mb.len
      → Returns (Added s mb st) (put_bytes env (some s) mb.offset mb st)
  unfolding put_bytes
  put_bytes-Added s mb st v room =
      let (c, e, l, t) =
        copy_to-Fits mb.block s mb.offset (omega (arith, v.sized)) (omega (arith, v.sized)) in
      rw e (
        record { sized = l ∙ v.sized; positive = v.positive; inside = room; small = v.small },
        omega arith,
        ap (λ bs. sent st ++ bs) t ∙ sym (append_assoc (sent st) (contents mb) s),
      )

  -- The buffer after a successful `realloc` to `l` bytes.
  abbrev enlarged : MemBuf → ℕ → MemBuf
  enlarged mb l = record mb { len = l % 2 ^ 32; block = some (resize l (bytes mb.block)) }

  enlarged-IsValid :
      (mb : MemBuf) (l : ℕ) → IsValid mb → mb.len ≤ l → l < 2 ^ 31 → IsValid (enlarged mb l)
  enlarged-IsValid mb l v le small = record {
    sized = length-resize l (bytes mb.block) ∙ omega arith;
    positive = omega (arith, v.positive);
    inside = omega (arith, v.inside);
    small = omega arith;
  }

  enlarged-contents :
      (mb : MemBuf) (l : ℕ) → IsValid mb → mb.len ≤ l → contents (enlarged mb l) ≡ contents mb
  enlarged-contents mb l v le =
      take-resize mb.offset l (bytes mb.block) (omega (arith, v.inside))
        (omega (arith, v.inside, v.sized))

  reallocate-Added :
      (s : Bytes) (mb : MemBuf) (st : S) (l : ℕ)
      → IsValid mb
      → mb.len ≤ l
      → l < 2 ^ 31
      → mb.offset + length s ≤ l
      → Returns (Added s mb st) (reallocate env (some s) mb.offset l mb st)
  unfolding reallocate
  reallocate-Added s mb st l v le small room =
      Returns-if (Added s mb st) (not mb.is_alloc || not (env.has_memory l)) _ _
        (λ fails. (v, omega arith, sym (append-nil (sent st ++ contents mb))))
        (λ works.
          Returns-mono (Added s (enlarged mb l) st) (Added s mb st) _
            (put_bytes-Added s (enlarged mb l) st (enlarged-IsValid mb l v le small) (omega arith))
            (λ (ok, m, t) (a, b, c). (
              a,
              b,
              c ∙ ap (λ bs. sent st ++ bs ++ (if ok then s else [])) (enlarged-contents mb l v le),
            )))

  enlarge-some :
      (s : Option Bytes) (off len n : ℕ) (mb : MemBuf) (st : S) {l : ℕ}
      → grow grow_fuel len n ≡ some l
      → enlarge env s off len n mb st ≡ reallocate env s off l mb st
  unfolding enlarge
  enlarge-some s off len n mb st e = ground arith

  enlarge-Added :
      (s : Bytes) (mb : MemBuf) (st : S) (n : ℕ)
      → IsValid mb
      → mb.len ≤ n
      → n < 2 ^ 30
      → mb.offset + length s ≤ n
      → Returns (Added s mb st) (enlarge env (some s) mb.offset mb.len n mb st)
  enlarge-Added s mb st n v le small room =
      let (l, e, gt, le2) = grow_total mb.len n v.positive le (omega arith) in
      rw (enlarge-some (some s) mb.offset mb.len n mb st e)
        (reallocate-Added s mb st l v (omega arith) (omega arith) (omega arith))

  -- What a call of `stream_write` leaves: on a refusal all is as before.
  abbrev Flushed : MemBuf → S → Bool × MemBuf × S → Type 0
  Flushed mb st (ok, mb', st') =
      IsValid mb'
      × (mb'.len ≡ mb.len)
      × (mb'.offset ≤ mb.offset)
      × (sent st' ++ contents mb' ≡ sent st ++ contents mb)
      × (ok ≡ false → mb' ≡ mb)

  carry :
      (s : Bytes) (mb mb' : MemBuf) (st st' : S) (r : Run (Bool × MemBuf × S))
      → sent st' ++ contents mb' ≡ sent st ++ contents mb
      → mb'.offset ≤ mb.offset
      → Returns (Added s mb' st') r
      → Returns (Added s mb st) r
  carry s mb mb' st st' r e le h =
      Returns-mono (Added s mb' st') (Added s mb st) r h
        (λ (ok, m, t) (a, b, c). (a, omega arith, c ∙ ap (λ bs. bs ++ (if ok then s else [])) e))

  -- The two ways to the stream, by the flag MEM_OSTREAM_BUFIO.
  stream_write-buffer :
      (mb : MemBuf) (st : S)
      → mb.ostream_bufio ≡ true
      → stream_write env mb st ≡ done (env.write_buffer mb st)
  unfolding stream_write
  stream_write-buffer mb st h = ground arith

  stream_write-string :
      (mb : MemBuf) (st : S)
      → mb.ostream_bufio ≡ false
      → mb.offset ≤ length (bytes mb.block)
      → stream_write env mb st
        ≡ done (
          (env.write (contents mb) st).0,
          (if (env.write (contents mb) st).0 then record mb { offset = 0 } else mb),
          (env.write (contents mb) st).1,
        )
  unfolding stream_write
  stream_write-string mb st h k = ground arith

  module _ (law : IsLawful env sent) where
    string-Flushed :
        (mb : MemBuf) (st : S) (ok : Bool)
        → IsValid mb
        → (env.write (contents mb) st).0 ≡ ok
        → Flushed mb st
            (ok, (if ok then record mb { offset = 0 } else mb), (env.write (contents mb) st).1)
    string-Flushed mb st true v e = (
      record { sized = v.sized; positive = v.positive; inside = omega arith; small = v.small },
      refl,
      omega arith,
      append-nil (sent (env.write (contents mb) st).1) ∙ law.accepts (contents mb) st e,
      λ h. cc,
    )
    string-Flushed mb st false v e = (
      v,
      refl,
      omega arith,
      ap (λ bs. bs ++ contents mb) (law.refuses (contents mb) st e),
      λ h. refl,
    )

    buffer-Flushed :
        (mb : MemBuf) (st : S) (ok : Bool)
        → IsValid mb
        → (env.write_buffer mb st).0 ≡ ok
        → Flushed mb st (ok, (env.write_buffer mb st).1, (env.write_buffer mb st).2)
    buffer-Flushed mb st true v e =
        let (a, b, c, d) = law.consumes mb st e v in (a, b, c, d, λ h. cc)
    buffer-Flushed mb st false v e =
        let (same, quiet) = law.leaves mb st e in
        (
          subst IsValid (sym same) v,
          ap (λ (m : MemBuf). m.len) same,
          omega (arith, ap (λ (m : MemBuf). m.offset) same),
          ap₂ (λ bs cs. bs ++ cs) quiet (ap contents same),
          λ h. same,
        )

    stream_write-Flushed :
        (mb : MemBuf) (st : S) → IsValid mb → Returns (Flushed mb st) (stream_write env mb st)
    stream_write-Flushed mb st v = elim (Bool-cases mb.ostream_bufio) [
      | inl e ↦ rw (stream_write-buffer mb st e) (buffer-Flushed mb st _ v refl)
      | inr e ↦
          rw (stream_write-string mb st e (omega (arith, v.sized, v.inside)))
            (string-Flushed mb st (env.write (contents mb) st).0 v refl)
    ]

    refused-Added :
        (s : Bytes) (mb mb' : MemBuf) (st st' : S) (n : ℕ)
        → n ≡ mb.offset + length s
        → n < 2 ^ 30
        → mb.len ≤ n
        → IsValid mb'
        → sent st' ++ contents mb' ≡ sent st ++ contents mb
        → mb' ≡ mb
        → Returns (Added s mb st) (enlarge env (some s) mb.offset mb.len n mb' st')
    refused-Added s mb mb' st st' n e small le v c same =
        let o = ap (λ (m : MemBuf). m.offset) same in
        let l = ap (λ (m : MemBuf). m.len) same in
        subst
          (λ (m : MemBuf). Returns (Added s mb st) (enlarge env (some s) m.offset m.len n mb' st'))
          same
          (carry s mb mb' st st' _ c (omega arith)
            (enlarge-Added s mb' st' n v (omega arith) small (omega arith)))

    accepted-Added :
        (s : Bytes) (mb' : MemBuf) (st' : S) (n : ℕ)
        → mb'.offset + length s ≤ n
        → n < 2 ^ 30
        → mb'.len ≤ n
        → IsValid mb'
        → Returns (Added s mb' st') (
            if ltb (length s) ((2 ^ 64 + mb'.len - mb'.offset) % 2 ^ 64)
            then put_bytes env (some s) mb'.offset mb' st'
            else enlarge env (some s) mb'.offset mb'.len n mb' st')
    accepted-Added s mb' st' n room small le v =
        let inside = v.inside in
        let below = v.small in
        Returns-if (Added s mb' st') _ _ _
          (λ fits. let lt = ltb→lt _ _ fits in put_bytes-Added s mb' st' v (omega arith))
          (λ full. enlarge-Added s mb' st' n v le small room)

    after_flush-Added :
        (s : Bytes) (mb : MemBuf) (st : S) (n : ℕ) (r : Bool × MemBuf × S)
        → n ≡ mb.offset + length s
        → n < 2 ^ 30
        → mb.len ≤ n
        → Flushed mb st r
        → Returns (Added s mb st) (after_flush env (some s) (length s) n mb r)
    unfolding after_flush
    after_flush-Added s mb st n (true, mb', st') e small le (v, l, o, c, _) =
        carry s mb mb' st st' _ c o (accepted-Added s mb' st' n (omega arith) small (omega arith) v)
    after_flush-Added s mb st n (false, mb', st') e small le (v, l, o, c, same) =
        refused-Added s mb mb' st st' n e small le v c (same refl)

    -- `membuf_addlstring` of bytes to a valid buffer returns, and accesses the block alone. If it
    -- says so, the stream and the buffer hold what they held followed by the bytes, and if not, what
    -- they held. The sizes stay below 2 ^ 30, and the stream makes no partial writes: with a false
    -- result it has taken nothing.
    pub add_lstring-Added :
        (s : Bytes) (mb : MemBuf) (st : S)
        → IsValid mb
        → mb.offset + length s < 2 ^ 30
        → Returns (Added s mb st) (add_lstring env (some s) (length s) mb st)
    unfolding add_lstring
    add_lstring-Added s mb st v small =
        let w : (mb.offset + length s) % 2 ^ 64 ≡ mb.offset + length s = omega arith in
        Returns-if (Added s mb st) _ _ _
          (λ fits. let lt = ltb→lt _ _ fits in put_bytes-Added s mb st v (omega arith))
          (λ over.
            let ge : mb.len ≤ (mb.offset + length s) % 2 ^ 64 = ground arith in
            Returns-if (Added s mb st) mb.ostream _ _
              (λ flushes.
                Returns->>= (Flushed mb st) (Added s mb st) (stream_write env mb st) _
                  (stream_write-Flushed mb st v)
                  (λ r h. after_flush-Added s mb st _ r w (omega arith) ge h))
              (λ grows. enlarge-Added s mb st _ v ge (omega arith) (omega arith)))
