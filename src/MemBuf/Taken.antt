-- ===== src/MemBuf/Taken.antt =====
-- Taking the first bytes of a buffer out of it: what `memmove` and the new offset leave.
use luasys.Base.{
  ℕ, zero, suc, ◌+◌, ◌-◌, ◌≤◌, ◌≡◌, refl, Bool, true, false, some, [], ◌∷◌, length, take, drop,
  arith, ap, ◌∙◌, sym, ==_iff, ◌==◌, if◌then◌else◌, leb, length-take, length-drop, length-append,
}
use luasys.MemBuf.{Bytes, MemBuf, bytes, contents, take_out, move_down}
use luasys.MemBuf.Valid.{IsValid, Returns, Returns-if, take-append_le, take_all, take-take}

pub drop-take : (k n : ℕ) (bs : Bytes) → k ≤ n → drop k (take n bs) ≡ take (n - k) (drop k bs)
drop-take zero n bs h = ap (λ m. take m bs) (let e : n ≡ n - 0 = omega arith in e)
drop-take (suc k) zero bs h = absurd (omega arith)
drop-take (suc k) (suc n) [] h = sym (take_all (suc n - suc k) [] (omega arith))
drop-take (suc k) (suc n) (b ∷ bs) h =
    drop-take k n bs (omega arith)
    ∙ (let e : n - k ≡ suc n - suc k = omega arith in ap (λ m. take m (drop k bs)) e)

pub length-move_down :
    (bs : Bytes) (k m : ℕ) → k + m ≤ length bs → length (move_down bs k m) ≡ length bs
unfolding move_down
length-move_down bs k m h =
    length-append (take m (drop k bs)) (drop m bs)
    ∙ omega (arith, length-take m (drop k bs), length-drop k bs, length-drop m bs)

-- After `memmove` the contents are the old ones less the first `k` bytes.
pub take-move_down :
    (bs : Bytes) (k n : ℕ)
    → k ≤ n
    → n ≤ length bs
    → take (n - k) (move_down bs k (n - k)) ≡ drop k (take n bs)
unfolding move_down
take-move_down bs k n h l =
    take-append_le (n - k) (take (n - k) (drop k bs)) (drop (n - k) bs)
      (omega (arith, length-take (n - k) (drop k bs), length-drop k bs))
    ∙ take-take (n - k) (n - k) (drop k bs) (omega arith)
    ∙ sym (drop-take k n bs h)

-- The first `m` bytes are returned, and the contents lose the first `k`.
abbrev pub TakenOut : ℕ → ℕ → MemBuf → Bytes × MemBuf → Type 0
TakenOut m k mb (bs, mb') =
    IsValid mb' × (bs ≡ take m (contents mb)) × (contents mb' ≡ drop k (contents mb))

moved : (b : Bool) (k : ℕ) (mb : MemBuf) → MemBuf
moved b k mb = record mb {
  offset = mb.offset - k;
  block = if b then mb.block else some (move_down (bytes mb.block) k (mb.offset - k));
}

moved-TakenOut :
    (b : Bool) (m k : ℕ) (mb : MemBuf)
    → IsValid mb
    → m ≤ k
    → k ≤ mb.offset
    → (mb.offset - k == 0) ≡ b
    → TakenOut m k mb (take m (bytes mb.block), moved b k mb)
unfolding moved
moved-TakenOut false m k mb v h l e =
    let inside = v.inside in
    let sized = v.sized in
    (
      record {
        sized = length-move_down (bytes mb.block) k (mb.offset - k) (omega arith) ∙ v.sized;
        positive = v.positive;
        inside = omega arith;
        small = v.small;
      },
      sym (take-take m mb.offset (bytes mb.block) (omega arith)),
      take-move_down (bytes mb.block) k mb.offset l (omega arith),
    )
moved-TakenOut true m k mb v h l e =
    let zero_left : mb.offset - k ≡ 0 = (==_iff _ _).0 e in
    let inside = v.inside in
    (
      record { sized = v.sized; positive = v.positive; inside = omega arith; small = v.small },
      sym (take-take m mb.offset (bytes mb.block) (omega arith)),
      ap (λ j. take j (bytes mb.block)) zero_left
          ∙ ap (λ j. take j (drop k (bytes mb.block))) (sym zero_left)
          ∙ sym (drop-take k mb.offset (bytes mb.block) l),
    )

pub take_out-TakenOut :
    (m k : ℕ) (mb : MemBuf)
    → IsValid mb
    → m ≤ k
    → k ≤ mb.offset
    → Returns (TakenOut m k mb) (take_out m k mb)
unfolding take_out moved
take_out-TakenOut m k mb v h l =
    Returns-if (TakenOut m k mb) (leb mb.offset (length (bytes mb.block))) _ _
      (λ _. moved-TakenOut (mb.offset - k == 0) m k mb v h l refl)
      (λ out. absurd (let inside = v.inside in let sized = v.sized in ground arith))
