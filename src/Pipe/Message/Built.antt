-- ===== src/Pipe/Message/Built.antt =====
-- What `pipe_msg_build` leaves in memory.
use luasys.Base.{
  ℕ, ◌+◌, ◌-◌, ◌/◌, ◌%◌, ◌^◌, ◌≤◌, ◌<◌, ◌≡◌, refl, Bool, true, false, Option, none, some, List, [],
  ◌∷◌, length, leb, arith, ap, ◌∙◌, sym, if◌then◌else◌, inl, inr,
}
use luasys.Pipe.{Memory, copy_in, short_at}
use luasys.Pipe.Ring.{At, copy_in-At, copy_in-outside}
use luasys.Pipe.Message.{
  Repr, Value, nil, boolean, light, number, string, userdata, other, Building, built, too_big,
  not_primitive, put_item, type_of, tested, stored, aligned, build_items, msg_max_size, item_align,
}

-- An item at address `p`: its type, its length and its bytes.
pub record IsItem (mem : Memory) (p type : ℕ) (bs : List ℕ) : Type 0 where
  pub typed : mem p ≡ type
  pub sized : short_at mem (p + 1) ≡ length bs
  pub value : At mem (p + 8) bs

pub put_item-IsItem :
    (p type : ℕ) (bs : List ℕ) (mem : Memory)
    → length bs < 2 ^ 15
    → IsItem (put_item p type bs mem) p type bs
unfolding put_item short_at
put_item-IsItem p type bs mem small =
    let below : Memory = copy_in mem (p + 8) bs in
    let head : List ℕ = type ∷ length bs % 256 ∷ length bs / 256 ∷ [] in
    let at = copy_in-At below p head in
    let m : Memory = copy_in below p head in
    let e0 : m p ≡ type = ap m (let e : p ≡ p + 0 = omega arith in e) ∙ at 0 (omega arith) in
    let e2 : m (p + 1 + 1) ≡ length bs / 256 =
      ap m (let e : p + 1 + 1 ≡ p + 2 = omega arith in e) ∙ at 2 (omega arith) in
    record {
      typed = e0;
      sized = omega (arith, at 1 (omega arith), e2);
      value = λ i lt.
          copy_in-outside below p head (p + 8 + i) (inr (omega arith))
          ∙ copy_in-At mem (p + 8) bs i lt;
    }

pub put_item-below :
    (p type : ℕ) (bs : List ℕ) (mem : Memory) (a : ℕ) → a < p → put_item p type bs mem a ≡ mem a
unfolding put_item
put_item-below p type bs mem a lt =
    let below : Memory = copy_in mem (p + 8) bs in
    copy_in-outside below p (type ∷ length bs % 256 ∷ length bs / 256 ∷ []) a (inl lt)
    ∙ copy_in-outside mem (p + 8) bs a (inl (omega arith))

-- The two tests of a round that did not raise an error.
passed :
    (b : Bool) (o : Option (List ℕ)) (k : List ℕ → Building) (e : ℕ) (mem : Memory)
    → (if b then too_big else elim o [ none ↦ not_primitive | some bs ↦ k bs ]) ≡ built e mem
    → (b ≡ false) × ((bs : List ℕ) × (o ≡ some bs) × (k bs ≡ built e mem))
passed true o k e mem h = absurd (cc)
passed false none k e mem h = absurd (cc)
passed false (some bs) k e mem h = (refl, (bs, refl, h))

module _ {N P : Type 0} (num : Repr N) (ptr : Repr P) where
  -- From `cp` to `e` the items of the message hold the values.
  abbrev pub Items : Memory → ℕ → ℕ → List (Value N P) → Type 0
  Items mem cp e [] = cp ≡ e
  Items mem cp e (v ∷ vs) =
      (bs : List ℕ) × (stored num ptr v ≡ some bs)
      × IsItem mem (2 + cp) (type_of num ptr v) bs
      × Items mem (cp + 8 + aligned (length bs)) e vs

  pub stored-tested :
      (v : Value N P) (bs : List ℕ) → stored num ptr v ≡ some bs → length bs ≤ tested num ptr v
  stored-tested nil bs h = let e : [] ≡ bs = cc in omega (arith, ap length e)
  stored-tested (boolean b) bs h =
      let e : (if b then 1 else 0) ∷ [] ≡ bs = cc in omega (arith, ap length e)
  stored-tested (light a) bs h =
      let e : ptr.to_bytes a ≡ bs = cc in omega (arith, ap length e, ptr.width a)
  stored-tested (number x) bs h =
      let e : num.to_bytes x ≡ bs = cc in omega (arith, ap length e, num.width x)
  stored-tested (string s) bs h = let e : s ≡ bs = cc in omega (arith, ap length e)
  stored-tested (userdata a) bs h =
      let e : ptr.to_bytes a ≡ bs = cc in omega (arith, ap length e, ptr.width a)
  stored-tested (other t) bs h = absurd (cc)

  -- What the rest of the loop leaves alone.
  abbrev Kept : ℕ → Memory → Memory → Type 0
  Kept cp mem mem' = (a : ℕ) → a < 2 + cp → mem' a ≡ mem a

  IsItem-Kept :
      (mem mem' : Memory) (p type : ℕ) (bs : List ℕ)
      → ((a : ℕ) → a < p + 8 + length bs → mem' a ≡ mem a)
      → IsItem mem p type bs
      → IsItem mem' p type bs
  unfolding short_at
  IsItem-Kept mem mem' p type bs same h = record {
    typed = same p (omega arith) ∙ h.typed;
    sized = omega (arith, same (p + 1) (omega arith), same (p + 1 + 1) (omega arith), h.sized);
    value = λ i lt. same (p + 8 + i) (omega arith) ∙ h.value i lt;
  }

  -- A loop that ends has laid out the items, in the 508 bytes that there are.
  pub build_items-Items :
      (vs : List (Value N P)) (cp e : ℕ) (mem mem' : Memory)
      → build_items num ptr vs cp mem ≡ built e mem'
      → cp ≤ 508
      → cp % 4 ≡ 0
      → Items mem' cp e vs × Kept cp mem mem' × (cp ≤ e) × (e ≤ 508)
  unfolding build_items
  build_items-Items [] cp e mem mem' h le four =
      let e1 : cp ≡ e = cc in
      let e2 : mem ≡ mem' = cc in (e1, λ a b. ap (λ m. m a) (sym e2), omega arith, omega arith)
  build_items-Items (v ∷ vs) cp e mem mem' h le four =
      let (lt, (bs, eb, rest)) =
        passed (leb (msg_max_size - item_align) (cp + 8 + tested num ptr v)) (stored num ptr v)
          (λ bs.
            build_items num ptr vs (cp + 8 + aligned (length bs))
              (put_item (2 + cp) (type_of num ptr v) bs mem))
          e mem' h in
      let room : cp + 8 + tested num ptr v < 508 = ground (arith, lt) in
      let len = stored-tested v bs eb in
      let (items, kept, up, down) =
        build_items-Items vs (cp + 8 + aligned (length bs)) e
          (put_item (2 + cp) (type_of num ptr v) bs mem) mem' rest (omega arith) (omega arith) in
      (
        (
          bs,
          eb,
          IsItem-Kept (put_item (2 + cp) (type_of num ptr v) bs mem) mem' (2 + cp)
              (type_of num ptr v) bs (λ a b. kept a (omega arith))
              (put_item-IsItem (2 + cp) (type_of num ptr v) bs mem (omega arith)),
          items,
        ),
        λ a b. kept a (omega arith) ∙ put_item-below (2 + cp) (type_of num ptr v) bs mem a b,
        omega arith,
        down,
      )
