-- ===== src/MemBuf/Window/Collect.antt =====
-- The bytes that were written through the windows of one scratch area come out in order.
use mathlib.Core.List.{flatten}
use luasys.Base.{
  ℕ, ◌+◌, ◌*◌, ◌%◌, ◌^◌, ◌≤◌, ◌<◌, ◌≡◌, refl, Bool, true, false, List, [], ◌∷◌, ◌++◌, length, take,
  arith, ap, ◌∙◌, sym, subst, if◌then◌else◌, append_assoc, length-append, length-take,
}
use luasys.MemBuf.{Bytes, Run, done, ◌>>=◌}
use luasys.MemBuf.Valid.{
  Returns, Returns->>=, Returns-mono, copy_to-some, take-length, take-take, take-resize,
  length-resize,
}
use luasys.MemBuf.Window.{
  Scratch, on_stack, on_heap, write_init, fill, write_next, grown, osb_size, write_done,
}

-- The bytes before the window are `s`, and the window is the rest of the array or of the block.
abbrev pub Collected : Bytes → Scratch → Type 0
Collected s (on_stack buf size) =
    (s ≡ []) × (size ≡ length buf) × (size < 2 ^ 60) × (osb_size ≤ size)
Collected s (on_heap p saved start size) =
    (take saved p ≡ s)
    × (length s ≡ saved)
    × (start ≡ saved)
    × (size ≡ saved)
    × (length p ≡ 2 * saved)
    × (saved < 2 ^ 60)

abbrev pub window_size : Scratch → ℕ
window_size (on_stack buf size) = size
window_size (on_heap p saved start size) = size

abbrev pub in_heap : Scratch → Bool
in_heap (on_stack buf size) = false
in_heap (on_heap p saved start size) = true

-- The window holds `w` at its start.
abbrev pub Filled : Bytes → Bytes → Scratch → Type 0
Filled s w sc = Collected s sc × (write_done (length w) sc ≡ s ++ w)

pub fill-Filled :
    (s w : Bytes) (sc : Scratch)
    → Collected s sc
    → length w ≤ window_size sc
    → Returns
        (λ sc'. Filled s w sc' × (window_size sc' ≡ window_size sc) × (in_heap sc' ≡ in_heap sc))
        (fill w sc)
unfolding fill write_done
fill-Filled s w (on_stack buf size) (e, len, small, big) fits =
    let (cs, r, l, t) = copy_to-some buf w 0 (omega arith) in
    rw r (
      (
        (e, len ∙ sym l, small, big),
        (let z : length w ≡ 0 + length w = omega arith in ap (λ n. take n cs) z)
            ∙ t
            ∙ ap (λ a. a ++ w) (sym e),
      ),
      refl,
      refl,
    )
fill-Filled s w (on_heap p saved start size) (t0, ls, e1, e2, len, small) fits =
    let (cs, r, l, t) = copy_to-some p w start (omega arith) in
    let whole : take (saved + length w) cs ≡ s ++ w =
      ap (λ n. take (n + length w) cs) (sym e1)
      ∙ t
      ∙ ap (λ n. take n p ++ w) e1
      ∙ ap (λ a. a ++ w) t0 in
    let front : take saved cs ≡ s =
      sym (take-take saved (saved + length w) cs (omega arith))
      ∙ ap (take saved) whole
      ∙ ap (λ n. take n (s ++ w)) (sym ls)
      ∙ take-length s w in
    rw r (((front, ls, e1, e2, l ∙ len, small), whole), refl, refl)

-- Once the window is full, the next one begins behind it, and is as large or twice as large.
pub grown-Collected :
    (s w : Bytes) (sc : Scratch)
    → Filled s w sc
    → length w ≡ window_size sc
    → window_size sc < 2 ^ 59
    → Collected (s ++ w) (grown sc)
unfolding grown write_done
grown-Collected s w (on_stack buf size) ((e, len, small, big), t) full lt =
    let z : 2 * size % 2 ^ 64 ≡ 2 * size = omega arith in
    let front : take size (take size buf) ≡ s ++ w =
      take-take size size buf (omega arith) ∙ ap (λ n. take n buf) (sym full) ∙ t in
    rw z (
      take-resize size (2 * size) (take size buf) (omega arith)
            (omega (arith, length-take size buf))
          ∙ front,
      length-append s w ∙ omega (arith, ap length e),
      refl,
      refl,
      length-resize (2 * size) (take size buf),
      small,
    )
grown-Collected s w (on_heap p saved start size) ((t0, ls, e1, e2, len, small), t) full lt =
    let z : 2 * saved % 2 ^ 64 ≡ 2 * saved = omega arith in
    let y : 2 * (2 * saved) % 2 ^ 64 ≡ 2 * (2 * saved) = omega arith in
    let all : 2 * saved ≡ saved + length w = omega arith in
    rw (z, y)
      (
        take-resize (2 * saved) (2 * (2 * saved)) p (omega arith) (omega arith)
            ∙ ap (λ n. take n p) all
            ∙ t,
        length-append s w ∙ omega arith,
        refl,
        refl,
        length-resize (2 * (2 * saved)) p,
        omega arith,
      )

-- What a function that reads to the end of its input does: it fills each window, asks for the next
-- one, and is done with the last one, which it may fill in part.
abbrev pub collect : List Bytes → Bytes → Scratch → Run Bytes
collect [] w sc = fill w sc >>= λ sc'. done (write_done (length w) sc')
collect (c ∷ cs) w sc = fill c sc >>= λ sc'. write_next true sc' >>= λ r. collect cs w r.1

-- The bytes fill the windows, which are of `n` bytes, then, after one more of them, twice as large
-- each time. No window is of 2 ^ 59 bytes.
abbrev pub Chunks : Bool → ℕ → List Bytes → Bytes → Type 0
Chunks b n [] w = length w ≤ n
Chunks b n (c ∷ cs) w = (length c ≡ n) × (n < 2 ^ 59) × Chunks true (if b then 2 * n else n) cs w

grown-sizes :
    (s : Bytes) (sc : Scratch)
    → Collected s sc
    → window_size sc < 2 ^ 59
    → (in_heap (grown sc) ≡ true)
      × (window_size (grown sc) ≡ (if in_heap sc then 2 * window_size sc else window_size sc))
unfolding grown
grown-sizes s (on_stack buf size) c lt = (refl, refl)
grown-sizes s (on_heap p saved start size) (t0, ls, e1, e2, len, small) lt = (refl, omega arith)

-- The array has the room for `osb`.
write_next-grown :
    (s : Bytes) (sc : Scratch) → Collected s sc → write_next true sc ≡ done (true, grown sc)
unfolding write_next
write_next-grown s (on_stack buf size) (e, len, small, big) = ground arith
write_next-grown s (on_heap p saved start size) c = refl

collect-from :
    (cs : List Bytes) (w s : Bytes) (sc : Scratch)
    → Collected s sc
    → Chunks (in_heap sc) (window_size sc) cs w
    → Returns (λ r. r ≡ s ++ (flatten cs ++ w)) (collect cs w sc)
unfolding flatten
collect-from [] w s sc c fits =
    Returns->>=
      (λ sc'. Filled s w sc' × (window_size sc' ≡ window_size sc) × (in_heap sc' ≡ in_heap sc))
      (λ r. r ≡ s ++ w) (fill w sc) (λ sc'. done (write_done (length w) sc'))
      (fill-Filled s w sc c fits) (λ sc' (f, _, _). f.1)
collect-from (x ∷ xs) w s sc c (full, small, rest) =
    Returns->>=
      (λ sc'. Filled s x sc' × (window_size sc' ≡ window_size sc) × (in_heap sc' ≡ in_heap sc))
      (λ r. r ≡ s ++ (x ++ flatten xs ++ w)) (fill x sc)
      (λ sc'. write_next true sc' >>= λ r. collect xs w r.1) (fill-Filled s x sc c (omega arith))
      (λ sc' (f, e, h).
        let (b, n) = grown-sizes s sc' f.0 (omega arith) in
        let size : window_size (grown sc')
            ≡ (if in_heap sc then 2 * window_size sc else window_size sc) =
          n ∙ (λ i. if h i then 2 * e i else e i) in
        let fits : Chunks (in_heap (grown sc')) (window_size (grown sc')) xs w =
          subst (λ k. Chunks (in_heap (grown sc')) k xs w) (sym size)
            (subst (λ k. Chunks k (if in_heap sc then 2 * window_size sc else window_size sc) xs w)
              (sym b) rest) in
        rw (write_next-grown s sc' f.0) (
          Returns-mono (λ r. r ≡ s ++ x ++ (flatten xs ++ w)) (λ r. r ≡ s ++ (x ++ flatten xs ++ w))
            (collect xs w (grown sc'))
            (collect-from xs w (s ++ x) (grown sc')
              (grown-Collected s x sc' f (omega arith) (omega arith)) fits)
            (λ r q.
              q
              ∙ append_assoc s x (flatten xs ++ w)
              ∙ ap (λ a. s ++ a) (sym (append_assoc x (flatten xs) w)))))

-- A function that fills the windows of an array on the stack, of 16 bytes or more, one after the
-- other, asks for the next one each time, and gets it, as all allocations succeed, pushes a string of
-- all the bytes in order at the end. It returns, and writes inside of the array and of the blocks of
-- the heap alone. No window is of 2 ^ 59 bytes.
pub collect_lem :
    (buf : Bytes) (cs : List Bytes) (w : Bytes)
    → osb_size ≤ length buf
    → length buf < 2 ^ 60
    → Chunks false (length buf) cs w
    → Returns (λ r. r ≡ flatten cs ++ w) (collect cs w (write_init buf))
unfolding write_init
collect_lem buf cs w big small fits =
    collect-from cs w [] (on_stack buf (length buf)) (refl, refl, small, big) fits
