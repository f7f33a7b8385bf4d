-- ===== src/MemBuf/Output/Write.antt =====
-- `membuf_write`: all the arguments, or the first few of them.
use mathlib.Core.List.{flatten}
use luasys.Base.{
  ℕ, suc, ◌+◌, ◌^◌, ◌<◌, ◌≡◌, refl, Bool, true, false, some, List, [], ◌∷◌, ◌++◌, length, take,
  append_assoc, append-nil, arith, ap, ◌∙◌, sym, length-append,
}
use luasys.MemBuf.{Bytes, MemBuf, contents, done}
use luasys.MemBuf.Valid.{IsValid, Returns, Returns-mono, Returns->>=}
use luasys.MemBuf.Output.{Streams, add_lstring, write}
use luasys.MemBuf.Output.Append.{IsLawful, Added, add_lstring-Added}

module _ {S : Type 0} (env : Streams S) (sent : S → Bytes) where
  -- The stream and the buffer have got the first `k` arguments, and all of them if the result is
  -- true.
  abbrev pub Written : List Bytes → MemBuf → S → Bool × MemBuf × S → Type 0
  Written args mb st (ok, mb', st') =
      IsValid mb'
      × ((k : ℕ) × (sent st' ++ contents mb' ≡ sent st ++ contents mb ++ flatten (take k args))
          × (ok ≡ true → take k args ≡ args))

  module _ (law : IsLawful env sent) where
    after_first :
        (b : ℕ) (bs : Bytes) (args : List Bytes) (mb : MemBuf) (st : S)
        → ((mb' : MemBuf) (st' : S)
            → IsValid mb'
            → mb'.offset + length (flatten args) < 2 ^ 30
            → Returns (Written args mb' st') (write env args mb' st'))
        → mb.offset + length (b ∷ bs) + length (flatten args) < 2 ^ 30
        → (r : Bool × MemBuf × S) → Added env sent (b ∷ bs) mb st r
        → Returns
            (Written ((b ∷ bs) ∷ args) mb st)
            (elim r.0 [ true ↦ write env args r.1 r.2 | false ↦ done r ])
    unfolding flatten
    after_first b bs args mb st rest small (false, mb', st') (v, o, c) = (v, (0, c, λ h. cc))
    after_first b bs args mb st rest small (true, mb', st') (v, o, c) =
        Returns-mono (Written args mb' st') (Written ((b ∷ bs) ∷ args) mb st)
          (write env args mb' st') (rest mb' st' v (omega arith))
          (λ (ok, m, t) (a, (k, e, f)). (
            a,
            (
              suc k,
              e
                  ∙ ap (λ xs. xs ++ flatten (take k args)) c
                  ∙ append_assoc (sent st ++ contents mb) (b ∷ bs) (flatten (take k args)),
              λ h. ap (λ xs. (b ∷ bs) ∷ xs) (f h),
            ),
          ))

    -- `membuf_write` returns. With a true result the stream and the buffer together have got all
    -- the bytes of the arguments, in order, behind what they held, and with a false one those of
    -- the first `k` arguments. The stream makes no partial writes, which take something and
    -- return false, the buffer is valid, and its contents and the
    -- arguments together are below 2 ^ 30 bytes.
    pub write-Written :
        (args : List Bytes) (mb : MemBuf) (st : S)
        → IsValid mb
        → mb.offset + length (flatten args) < 2 ^ 30
        → Returns (Written args mb st) (write env args mb st)
    unfolding write flatten
    write-Written [] mb st v small = (v, (0, sym (append-nil (sent st ++ contents mb)), λ h. refl))
    write-Written ([] ∷ args) mb st v small =
        Returns-mono (Written args mb st) (Written ([] ∷ args) mb st) (write env args mb st)
          (write-Written args mb st v small)
          (λ (ok, mb', st') (a, (k, e, f)). (a, (suc k, e, λ h. ap (λ xs. [] ∷ xs) (f h))))
    write-Written ((b ∷ bs) ∷ args) mb st v small =
        let l = length-append (b ∷ bs) (flatten args) in
        Returns->>= (Added env sent (b ∷ bs) mb st) (Written ((b ∷ bs) ∷ args) mb st)
          (add_lstring env (some (b ∷ bs)) (length (b ∷ bs)) mb st) _
          (add_lstring-Added env sent law (b ∷ bs) mb st v (omega arith))
          (after_first b bs args mb st (write-Written args) (omega arith))
