-- ===== src/MemBuf/Window/Fill.antt =====
-- Bytes that are read or written through a window to a memory buffer.
use mathlib.Core.Option
use luasys.Base.{
  ℕ, ◌-◌, ◌≤◌, ◌<◌, ◌≡◌, ◌≢◌, refl, Option, none, some, ◌++◌, length, take, drop, arith, ap, ◌∙◌,
  sym,
}
use native.Mathlib.Decide.{ℕ_discrete}
use luasys.MemBuf.{Bytes, MemBuf, done, ◌>>=◌, bytes, contents, copy_to, move_down, read_next}
use luasys.MemBuf.Valid.{IsValid, Returns, copy_to-Fits}
use luasys.MemBuf.Taken.{drop-take, length-move_down, take-move_down}
use luasys.MemBuf.Window.{buffer_init, buffer_done}

-- Bytes that fit in the window, and are stored there, stand behind the contents once they are
-- reported. The buffer was valid, and stays so.
pub fill-buffer_done :
    (mb : MemBuf) (s : Bytes)
    → IsValid mb
    → length s ≤ (buffer_init mb).1
    → Returns
        (λ mb'. IsValid mb' × (contents mb' ≡ contents mb ++ s))
        (copy_to mb.block (buffer_init mb).0 s >>= λ b.
          done (buffer_done (length s) (record mb { block = b })))
unfolding buffer_init buffer_done
fill-buffer_done mb s v fits =
    let inside = v.inside in
    let sized = v.sized in
    let pos = v.positive in
    let (c, e, l, t) = copy_to-Fits mb.block s mb.offset (omega arith) (omega arith) in
    rw e (record { sized = l ∙ sized; positive = pos; inside = omega arith; small = v.small }, t)

map-bytes :
    (b : Option Bytes) (f : Bytes → Bytes)
    → 0 < length (bytes b)
    → bytes (Option.map f b) ≡ f (bytes b)
map-bytes none f pos = absurd (omega arith)
map-bytes (some bs) f pos = refl

module _ (n : ℕ) (mb : MemBuf) where
  read_next-all : mb.offset ≡ n → read_next n mb ≡ record mb { offset = 0 }
  unfolding read_next
  read_next-all e = ground arith

  read_next-some :
      mb.offset ≢ n
      → read_next n mb ≡ record mb {
        offset = mb.offset - n;
        block = Option.map (λ bs. move_down bs n (mb.offset - n)) mb.block;
      }
  unfolding read_next
  read_next-some ne = ground arith

  -- After `n` bytes of a valid buffer were consumed, its contents are the others, in order, and the
  -- buffer is valid.
  pub read_next-drop :
      IsValid mb
      → n ≤ mb.offset
      → IsValid (read_next n mb) × (contents (read_next n mb) ≡ drop n (contents mb))
  read_next-drop v le =
      let inside = v.inside in
      let sized = v.sized in
      let pos = v.positive in
      elim (ℕ_discrete mb.offset n) [
        | yes e ↦ rw (read_next-all e) (
          record { sized = sized; positive = pos; inside = omega arith; small = v.small },
          (let z : 0 ≡ mb.offset - n = omega arith in ap (λ k. take k (drop n (bytes mb.block))) z)
              ∙ sym (drop-take n mb.offset (bytes mb.block) le),
        )
        | no ne ↦
            let b = map-bytes mb.block (λ bs. move_down bs n (mb.offset - n)) (omega arith) in
            rw (read_next-some ne) (
              record {
                sized =
                    ap length b
                    ∙ length-move_down (bytes mb.block) n (mb.offset - n) (omega arith)
                    ∙ sized;
                positive = pos;
                inside = omega arith;
                small = v.small;
              },
              ap (take (mb.offset - n)) b
                  ∙ take-move_down (bytes mb.block) n mb.offset le (omega arith),
            )
      ]
