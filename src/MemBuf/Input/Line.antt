-- ===== src/MemBuf/Input/Line.antt =====
-- Reading from the contents of a buffer: `read_bytes`, and `read_line` with no input stream.
use luasys.Base.{
  ℕ, zero, suc, min, ◌+◌, ◌≤◌, ◌<◌, ◌≡◌, refl, Bool, true, false, ◌&&◌, Option, none, some, [], ◌∷◌,
  ◌++◌, length, take, drop, arith, ap, ap₂, ◌∙◌, sym, ==_iff, ◌==◌, if◌then◌else◌, ltb,
  take-append-drop, length-take,
}
use mathlib.Core.Option
use luasys.MemBuf.{Bytes, MemBuf, done, ◌>>=◌, bytes, contents, take_out}
use luasys.MemBuf.Valid.{IsValid, Returns, Returns-if, Returns->>=}
use luasys.MemBuf.Output.{Streams}
use luasys.MemBuf.Input.{
  find_newline, Reply, no_value, nil, string, read_bytes, finish_line, read_line, read_chunks,
}
use luasys.MemBuf.Taken.{TakenOut, take_out-TakenOut}

abbrev pub reply_bytes : Reply → Bytes
reply_bytes no_value = []
reply_bytes nil = []
reply_bytes (string bs) = bs

-- How many bytes `read_bytes` takes of `n`; `none` asks for all.
abbrev pub wanted : Option ℕ → ℕ → ℕ
wanted none n = n
wanted (some k) n = min k n

-- The bytes up to the newline at `l`, which holds none, and those behind it.
abbrev pub SplitAt : ℕ → Bytes → Type 0
SplitAt l bs =
    (l < length bs) × (bs ≡ take l bs ++ 0x0a ∷ drop (l + 1) bs) × (find_newline (take l bs) ≡ none)

split_cons :
    (c : ℕ) (cs : Bytes) (l : ℕ) (b : Bool) (o : Option ℕ)
    → ((j : ℕ) → find_newline cs ≡ some j → SplitAt j cs)
    → (c == 0x0a) ≡ b
    → find_newline cs ≡ o
    → (if b then some 0 else Option.map suc o) ≡ some l
    → SplitAt l (c ∷ cs)
unfolding find_newline
split_cons c cs zero true o ih here e h =
    let newline : c ≡ 0x0a = ground arith in (omega arith, ap (λ d. d ∷ cs) newline, refl)
split_cons c cs (suc l) true o ih here e h = cc
split_cons c cs l false none ih here e h = cc
split_cons c cs zero false (some j) ih here e h = cc
split_cons c cs (suc l) false (some j) ih here e h =
    let same : j ≡ l = ground arith in
    let (lt, whole, none_in) = ih l (e ∙ ap (λ k. some k) same) in
    (
      omega arith,
      ap (λ bs. c ∷ bs) whole
          ∙ (let q : suc (l + 1) ≡ suc l + 1 = omega arith in
              ap (λ n. c ∷ (take l cs ++ 0x0a ∷ drop n (c ∷ cs))) q),
      ground (arith, none_in),
    )

find_newline-split : (bs : Bytes) (l : ℕ) → find_newline bs ≡ some l → SplitAt l bs
unfolding find_newline
find_newline-split [] l e = cc
find_newline-split (c ∷ cs) l e =
    split_cons c cs l (c == 0x0a) (find_newline cs) (find_newline-split cs) refl refl e

module _ {S : Type 0} (env : Streams S) where
  -- What a read of some of the contents leaves: the stream untouched.
  abbrev pub Read : ℕ → MemBuf → S → Reply × MemBuf × S → Type 0
  Read n mb st (v, mb', st') =
      IsValid mb'
      × (reply_bytes v ++ contents mb' ≡ contents mb)
      × (length (reply_bytes v) ≡ n)
      × (st' ≡ st)

  take_out-Read :
      (m : ℕ) (mb : MemBuf) (st : S)
      → IsValid mb
      → m ≤ mb.offset
      → Returns (Read m mb st) (
          if m == 0
          then done (nil, mb, st)
          else take_out m m mb >>= λ r. done (string r.0, r.1, st))
  take_out-Read m mb st v le =
      Returns-if (Read m mb st) (m == 0) _ _ (λ e. (v, refl, sym ((==_iff m 0).0 e), refl))
        (λ e.
          Returns->>= (TakenOut m m mb) (Read m mb st) (take_out m m mb) _
            (take_out-TakenOut m m mb v (omega arith) le)
            (λ (bs, mb') (a, b, c). (
              a,
              ap₂ (λ xs ys. xs ++ ys) b c ∙ take-append-drop m (contents mb),
              ap length b
                  ∙ length-take m (contents mb)
                  ∙ omega (arith, length-take mb.offset (bytes mb.block), v.sized, v.inside),
              refl,
            )))

  -- `read_bytes` from a buffer that holds some bytes, or has no input stream, returns as many of the
  -- first bytes as were asked for and are there, and leaves the others in order; nil stands for no
  -- byte. It returns, keeps the buffer valid and does not touch the stream.
  pub read_bytes_lem :
      (l : Option ℕ) (mb : MemBuf) (st : S)
      → IsValid mb
      → (mb.offset == 0 && mb.istream) ≡ false
      → Returns (Read (wanted l mb.offset) mb st) (read_bytes env l mb st)
  unfolding read_bytes
  read_bytes_lem l mb st v e =
      Returns-if (Read (wanted l mb.offset) mb st) (mb.offset == 0 && mb.istream) _ _
        (λ h. absurd (cc)) (λ h. wanted-Read l)
    where
      wanted-Read :
          (l : Option ℕ)
          → Returns (Read (wanted l mb.offset) mb st) (
              let m : ℕ = elim l [ none ↦ mb.offset | some k ↦ min k mb.offset ] in
              if m == 0
              then done (nil, mb, st)
              else take_out m m mb >>= λ r. done (string r.0, r.1, st))
      wanted-Read none = take_out-Read mb.offset mb st v (omega arith)
      wanted-Read (some k) = take_out-Read (min k mb.offset) mb st v (omega arith)

  -- With a newline at `l` the reply is the line before it, without the newline, and what follows it
  -- stays. With none the reply is all that the buffer holds, nil if that is nothing.
  abbrev pub IsLine : Option ℕ → MemBuf → S → Reply × MemBuf × S → Type 0
  IsLine (some l) mb st (v, mb', st') =
      IsValid mb'
      × (find_newline (reply_bytes v) ≡ none)
      × (reply_bytes v ++ 0x0a ∷ contents mb' ≡ contents mb)
      × (st' ≡ st)
  IsLine none mb st (v, mb', st') =
      IsValid mb'
      × (v ≡ (if mb.offset == 0 then nil else string (contents mb)))
      × (contents mb' ≡ [])
      × (st' ≡ st)

  take_out-IsLine :
      (l : ℕ) (mb : MemBuf) (st : S)
      → IsValid mb
      → find_newline (contents mb) ≡ some l
      → Returns (IsLine (some l) mb st) (take_out l (l + 1) mb >>= λ r. done (string r.0, r.1, st))
  take_out-IsLine l mb st v e =
      let (lt, whole, free) = find_newline-split (contents mb) l e in
      Returns->>= (TakenOut l (l + 1) mb) (IsLine (some l) mb st) (take_out l (l + 1) mb) _
        (take_out-TakenOut l (l + 1) mb v (omega arith)
          (omega (arith, length-take mb.offset (bytes mb.block))))
        (λ (bs, mb') (a, b, c).
          (a, ap find_newline b ∙ free, ap₂ (λ xs ys. xs ++ 0x0a ∷ ys) b c ∙ sym whole, refl))

  rest-IsLine :
      (mb : MemBuf) (st : S) → IsValid mb → Returns (IsLine none mb st) (finish_line env [] mb st)
  unfolding finish_line
  rest-IsLine mb st v =
      let sized = v.sized in
      let inside = v.inside in
      Returns-if (IsLine none mb st) (ltb (length (bytes mb.block)) mb.offset) _ _
        (λ out. absurd (ground arith))
        (λ _. (
          record { sized = v.sized; positive = v.positive; inside = omega arith; small = v.small },
          refl,
          refl,
          refl,
        ))

  -- `read_line` from a valid buffer without an input stream returns, and gives the first line as
  -- `IsLine` says.
  pub read_line-IsLine :
      (fuel : ℕ) (mb : MemBuf) (st : S)
      → IsValid mb
      → mb.istream ≡ false
      → Returns (IsLine (find_newline (contents mb)) mb st) (read_line env fuel mb st)
  unfolding read_line
  read_line-IsLine fuel mb st v plain = found (find_newline (contents mb)) refl
    where
      found :
          (o : Option ℕ)
          → find_newline (contents mb) ≡ o
          → Returns (IsLine o mb st) (elim o [
            | none ↦ if mb.istream then read_chunks env fuel mb st else finish_line env [] mb st
            | some l ↦ take_out l (l + 1) mb >>= λ r. done (string r.0, r.1, st)
          ])
      found none e =
          Returns-if (IsLine none mb st) mb.istream _ _ (λ h. absurd (cc))
            (λ h. rest-IsLine mb st v)
      found (some l) e = take_out-IsLine l mb st v e
