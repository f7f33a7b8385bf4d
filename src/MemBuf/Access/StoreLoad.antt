-- ===== src/MemBuf/Access/StoreLoad.antt =====
-- An item that was assigned is read back.
use luasys.Base.{
  ℕ, ◌+◌, ◌-◌, ◌≤◌, ◌≡◌, refl, true, some-inj, Option, none, some, get_or, List, [], ◌∷◌, ◌++◌,
  length, take, drop, arith, ap, length-take, ◌∙◌, sym,
}
use luasys.MemBuf.{Bytes, MemBuf, done, ◌>>=◌, bytes}
use luasys.MemBuf.Valid.{IsValid, copy_to-Fits}
use luasys.MemBuf.Taken.{drop-take}
use luasys.MemBuf.Access.{
  ItemType, char, uchar, short, ushort, int, uint, long, ulong, float, double, number, bitstring,
  CType, size_of, Casts, num, bool, item_size, mem_len, load, has_bit, index, new_index, put_at,
  index_type, assign_type,
}

drop-length-append {ℓ} : {A : Type ℓ} (xs ys : List A) → drop (length xs) (xs ++ ys) ≡ ys
drop-length-append [] ys = refl
drop-length-append (x ∷ xs) ys = drop-length-append xs ys

drop-length-take : (p : ℕ) (bs s : Bytes) → p ≤ length bs → drop p (take p bs ++ s) ≡ s
drop-length-take p bs s le =
    let l : p ≡ length (take p bs) = omega (arith, length-take p bs) in
    ap (λ n. drop n (take p bs ++ s)) l ∙ drop-length-append (take p bs) s

load-fits :
    (b : Option Bytes) (p n : ℕ)
    → p + n ≤ length (bytes b)
    → load b p n ≡ done (take n (drop p (bytes b)))
load-fits b p n le = ground arith

-- Where `mem_index` reads an item as of some C type, `mem_newindex` casts to the same one, and it has
-- the size of the item.
same_type :
    (t : ItemType) (c : CType)
    → index_type t ≡ some c
    → (assign_type t ≡ some c) × (size_of c ≡ item_size t)
unfolding index_type assign_type
same_type char c e = (e, ap size_of (sym (some-inj e)))
same_type uchar c e = (e, ap size_of (sym (some-inj e)))
same_type short c e = (e, ap size_of (sym (some-inj e)))
same_type ushort c e = (e, ap size_of (sym (some-inj e)))
same_type int c e = (e, ap size_of (sym (some-inj e)))
same_type uint c e = (e, ap size_of (sym (some-inj e)))
same_type long c e = (e, ap size_of (sym (some-inj e)))
same_type ulong c e = (e, ap size_of (sym (some-inj e)))
same_type float c e = (e, ap size_of (sym (some-inj e)))
same_type double c e = (e, ap size_of (sym (some-inj e)))
same_type number c e = (e, ap size_of (sym (some-inj e)))
same_type bitstring c e = absurd cc

module _ {N : Type 0} (casts : Casts N) where
  put_at-load :
      (p : ℕ) (s : Bytes) (mb : MemBuf)
      → IsValid mb
      → p + length s ≤ mb.len
      → (mb' : MemBuf) × (put_at casts p s mb ≡ done (some mb'))
        × (load mb'.block p (length s) ≡ done s)
        × IsValid mb'
  unfolding put_at
  put_at-load p s mb v fits =
      let sized = v.sized in
      let pos = v.positive in
      let (c, e, l, t) = copy_to-Fits mb.block s p (omega arith) (omega arith) in
      let n : length s ≡ p + length s - p = omega arith in
      (
        record mb { block = c },
        (λ i. e i >>= λ b. done (some (record mb { block = b }))),
        load-fits c p (length s) (omega arith)
            ∙ ap done (
                ap (λ k. take k (drop p (bytes c))) n
                ∙ sym (drop-take p (p + length s) (bytes c) (omega arith))
                ∙ ap (drop p) t
                ∙ drop-length-take p (bytes mb.block) s (omega arith)),
        record { sized = l ∙ sized; positive = pos; inside = v.inside; small = v.small },
      )

  index-typed :
      (t : ItemType) (c : CType) (off : ℕ) (mb : MemBuf)
      → index_type t ≡ some c
      → index casts t off mb
        ≡ (load mb.block (mem_len t off) (size_of c) >>= λ bs. done (num (casts.of_bytes c bs)))
  unfolding index
  index-typed t c off mb e =
      ap
        (λ (o : Option CType). elim o [
          | none ↦ load mb.block (mem_len t off - 1) 1 >>= λ bs.
              done (bool (has_bit off (get_or bs 0 0)))
          | some c ↦
              load mb.block (mem_len t off) (size_of c) >>= λ bs. done (num (casts.of_bytes c bs))
        ])
        e

  new_index-typed :
      (t : ItemType) (c : CType) (off : ℕ) (x : N) (mb : MemBuf)
      → assign_type t ≡ some c
      → new_index casts t off (num x) mb ≡ put_at casts (mem_len t off) (casts.to_bytes c x) mb
  unfolding new_index
  new_index-typed t c off x mb e =
      ap
        (λ (o : Option CType). elim o [
          | none ↦ done none
          | some c ↦ put_at casts (mem_len t off) (casts.to_bytes c x) mb
        ])
        e

  -- A number that the C type has as which `mem_index` reads the items of a valid buffer, assigned to
  -- an item that lies inside of the buffer, is stored without an error or an access outside of the
  -- block, and is read back. The buffer stays valid.
  pub index-new_index :
      (t : ItemType) (c : CType) (off : ℕ) (x : N) (mb : MemBuf)
      → index_type t ≡ some c
      → IsValid mb
      → mem_len t off + item_size t ≤ mb.len
      → casts.in_range c x ≡ true
      → (mb' : MemBuf) × (new_index casts t off (num x) mb ≡ done (some mb'))
        × (index casts t off mb' ≡ done (num x))
        × IsValid mb'
  index-new_index t c off x mb read v fits range =
      let (assigned, size) = same_type t c read in
      let w = casts.width c x in
      let (mb', e, l, v') = put_at-load (mem_len t off) (casts.to_bytes c x) mb v (omega arith) in
      (
        mb',
        new_index-typed t c off x mb assigned ∙ e,
        index-typed t c off mb' read
            ∙ (λ i.
                load mb'.block (mem_len t off) (sym w i) >>= λ bs. done (num (casts.of_bytes c bs)))
            ∙ (λ i. l i >>= λ bs. done (num (casts.of_bytes c bs)))
            ∙ ap (λ y. done (num y)) (casts.back c x range),
        v',
      )
