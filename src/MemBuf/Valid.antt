-- ===== src/MemBuf/Valid.antt =====
-- What a buffer must satisfy for its accesses to stay inside of the block.
use luasys.Base.{
  Bool, true, false, if◌then◌else◌, Option, none, ℕ, zero, suc, ◌+◌, ◌^◌, ◌≤◌, ◌<◌, ◌≡◌, refl, List,
  [], ◌∷◌, ◌++◌, length, take, drop, length-append, length-take, length-drop, arith, ap, ◌∙◌, some,
  replicate, length-replicate,
}
use luasys.MemBuf.{Bytes, MemBuf, Run, done, hang, fault, ◌>>=◌, bytes, copy_to, resize}

-- The block has as many bytes as `len` says, at least one, and the contents lie inside.
pub record IsValid (mb : MemBuf) : Type 0 where
  pub sized : length (bytes mb.block) ≡ mb.len
  pub positive : 0 < mb.len
  pub inside : mb.offset ≤ mb.len
  pub small : mb.len < 2 ^ 31

-- The call returns, and its result has the property: it neither hangs nor faults.
abbrev pub Returns : {A : Type 0} → (A → Type 0) → Run A → Type 0
Returns P (done a) = P a
Returns P hang = ⊥
Returns P fault = ⊥

pub Returns-if :
    {A : Type 0} (P : A → Type 0) (b : Bool) (x y : Run A)
    → (b ≡ true → Returns P x)
    → (b ≡ false → Returns P y)
    → Returns P (if b then x else y)
Returns-if P true x y f g = f refl
Returns-if P false x y f g = g refl

pub Returns->>= :
    {A B : Type 0} (P : A → Type 0) (Q : B → Type 0) (m : Run A) (k : A → Run B)
    → Returns P m
    → ((a : A) → P a → Returns Q (k a))
    → Returns Q (m >>= k)
Returns->>= P Q (done a) k h f = f a h
Returns->>= P Q hang k h f = h
Returns->>= P Q fault k h f = h

pub Returns-mono :
    {A : Type 0} (P Q : A → Type 0) (m : Run A) → Returns P m → ((a : A) → P a → Q a) → Returns Q m
Returns-mono P Q (done a) h f = f a h
Returns-mono P Q hang h f = h
Returns-mono P Q fault h f = h

pub take-length-append {ℓ} :
    {A : Type ℓ} (n m : ℕ) (xs ys : List A)
    → length xs ≡ n
    → take (n + m) (xs ++ ys) ≡ xs ++ take m ys
take-length-append n m [] ys h = let e : n + m ≡ m = omega arith in ap (λ k. take k ys) e
take-length-append zero m (x ∷ xs) ys h = absurd (omega arith)
take-length-append (suc n) m (x ∷ xs) ys h =
    let e : suc n + m ≡ suc (n + m) = omega arith in
    ap (λ k. take k (x ∷ (xs ++ ys))) e
    ∙ ap (λ zs. x ∷ zs) (take-length-append n m xs ys (omega arith))

pub take-length {ℓ} : {A : Type ℓ} (xs ys : List A) → take (length xs) (xs ++ ys) ≡ xs
take-length [] ys = refl
take-length (x ∷ xs) ys = ap (λ zs. x ∷ zs) (take-length xs ys)

pub take_all {ℓ} : {A : Type ℓ} (n : ℕ) (xs : List A) → length xs ≤ n → take n xs ≡ xs
take_all zero [] h = refl
take_all zero (x ∷ xs) h = absurd (omega arith)
take_all (suc n) [] h = refl
take_all (suc n) (x ∷ xs) h = ap (λ zs. x ∷ zs) (take_all n xs (omega arith))

pub take-append_le {ℓ} :
    {A : Type ℓ} (n : ℕ) (xs ys : List A) → n ≤ length xs → take n (xs ++ ys) ≡ take n xs
take-append_le zero xs ys h = refl
take-append_le (suc n) [] ys h = absurd (omega arith)
take-append_le (suc n) (x ∷ xs) ys h = ap (λ zs. x ∷ zs) (take-append_le n xs ys (omega arith))

pub take-take {ℓ} : {A : Type ℓ} (n m : ℕ) (xs : List A) → n ≤ m → take n (take m xs) ≡ take n xs
take-take zero m xs h = refl
take-take (suc n) zero xs h = absurd (omega arith)
take-take (suc n) (suc m) [] h = refl
take-take (suc n) (suc m) (x ∷ xs) h = ap (λ zs. x ∷ zs) (take-take n m xs (omega arith))

-- The bytes that `copy_to` writes end the prefix up to their end.
pub copy_to-some :
    (bs s : Bytes) (p : ℕ)
    → p + length s ≤ length bs
    → (cs : Bytes) × (copy_to (some bs) p s ≡ done (some cs))
      × (length cs ≡ length bs)
      × (take (p + length s) cs ≡ take p bs ++ s)
unfolding copy_to
copy_to-some bs s p h = (
  take p bs ++ (s ++ drop (p + length s) bs),
  ground arith,
  length-append (take p bs) (s ++ drop (p + length s) bs)
      ∙ omega (
        arith,
        length-append s (drop (p + length s) bs),
        length-take p bs,
        length-drop (p + length s) bs,
      ),
  take-length-append p (length s) (take p bs) (s ++ drop (p + length s) bs)
        (omega (arith, length-take p bs))
      ∙ ap (λ zs. take p bs ++ zs) (take-length s (drop (p + length s) bs)),
)

pub copy_to-Fits :
    (b : Option Bytes) (s : Bytes) (p : ℕ)
    → 0 < length (bytes b)
    → p + length s ≤ length (bytes b)
    → (c : Option Bytes) × (copy_to b p s ≡ done c)
      × (length (bytes c) ≡ length (bytes b))
      × (take (p + length s) (bytes c) ≡ take p (bytes b) ++ s)
copy_to-Fits none s p pos h = absurd (omega arith)
copy_to-Fits (some bs) s p pos h = let (cs, e, l, t) = copy_to-some bs s p h in (some cs, e, l, t)

-- `realloc` to a longer block keeps the bytes.
pub take-resize : (n m : ℕ) (bs : Bytes) → n ≤ m → n ≤ length bs → take n (resize m bs) ≡ take n bs
take-resize n m bs h k =
    take-take n m (bs ++ replicate m 0) h ∙ take-append_le n bs (replicate m 0) k

abbrev zero_byte : ℕ
zero_byte = 0

pub length-resize : (m : ℕ) (bs : Bytes) → length (resize m bs) ≡ m
length-resize m bs =
    length-take m (bs ++ replicate m 0)
    ∙ omega (arith, length-append bs (replicate m 0), length-replicate m (zero_byte))
