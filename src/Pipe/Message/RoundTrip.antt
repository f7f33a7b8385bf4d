-- ===== src/Pipe/Message/RoundTrip.antt =====
-- Values that went through a message: what `pipe_msg_parse` makes of what `pipe_msg_build` left.
use luasys.Base.{
  ℕ, zero, suc, ◌+◌, ◌*◌, ◌/◌, ◌%◌, ◌≤◌, ◌≡◌, refl, true, false, some, List, [], ◌∷◌, length,
  get_or, map, ltb, arith, ap, ap₂, ◌∙◌, sym, subst, inr, ◌==◌, not,
}
use luasys.Pipe.{Memory, copy_in, copy_out, short_at}
use luasys.Pipe.Ring.{IsMessage, At, copy_in-At, copy_in-outside, copy_out-At}
use luasys.Pipe.Message.{
  Repr, Value, nil, boolean, light, number, string, userdata, other, Building, built, too_big,
  not_primitive, type_of, stored, aligned, build_items, put_size, build, value_at, parse_items,
  parse, msg_max_size,
}
use luasys.Pipe.Message.Built.{IsItem, Items, build_items-Items}

-- A userdata arrives as a light userdata, and each other value as it was.
abbrev pub received : {N P : Type 0} → Value N P → Value N P
received (userdata a) = light a
received v = v

length-copy_out : (n : ℕ) (mem : Memory) (p : ℕ) → length (copy_out mem p n) ≡ n
unfolding copy_out
length-copy_out zero mem p = refl
length-copy_out (suc n) mem p = omega (arith, length-copy_out n mem (p + 1))

copy_out-bytes :
    (bs bs' : List ℕ) (mem : Memory) (p n : ℕ)
    → bs ≡ bs'
    → length bs ≡ n
    → At mem p bs'
    → copy_out mem p n ≡ bs
copy_out-bytes bs bs' mem p n e len at =
    ap (copy_out mem p) (sym len) ∙ copy_out-At bs mem p (subst (At mem p) (sym e) at)

module _ {N P : Type 0} (num : Repr N) (ptr : Repr P) where
  value_at-received :
      (v : Value N P) (bs : List ℕ) (mem : Memory) (p : ℕ)
      → stored num ptr v ≡ some bs
      → At mem p bs
      → value_at num ptr (type_of num ptr v) (length bs) p mem ≡ received v
  unfolding value_at
  value_at-received nil bs mem p h at = refl
  value_at-received (boolean true) bs mem p h at =
      let e : 1 ∷ [] ≡ bs = cc in
      let m : mem p ≡ 1 =
        ap mem (let z : p ≡ p + 0 = omega arith in z)
        ∙ subst (At mem p) (sym e) at 0 (omega arith) in
      ap (λ c. boolean (not (c == 0))) m
  value_at-received (boolean false) bs mem p h at =
      let e : 0 ∷ [] ≡ bs = cc in
      let m : mem p ≡ 0 =
        ap mem (let z : p ≡ p + 0 = omega arith in z)
        ∙ subst (At mem p) (sym e) at 0 (omega arith) in
      ap (λ c. boolean (not (c == 0))) m
  value_at-received (light a) bs mem p h at =
      let e : ptr.to_bytes a ≡ bs = cc in
      ap (λ xs. light (ptr.of_bytes xs))
        (copy_out-bytes (ptr.to_bytes a) bs mem p 8 e (ptr.width a) at)
      ∙ ap light (ptr.back a)
  value_at-received (number x) bs mem p h at =
      let e : num.to_bytes x ≡ bs = cc in
      ap (λ xs. number (num.of_bytes xs))
        (copy_out-bytes (num.to_bytes x) bs mem p 8 e (num.width x) at)
      ∙ ap number (num.back x)
  value_at-received (string s) bs mem p h at =
      let e : s ≡ bs = cc in ap string (copy_out-At bs mem p at ∙ sym e)
  value_at-received (userdata a) bs mem p h at =
      let e : ptr.to_bytes a ≡ bs = cc in
      ap (λ xs. light (ptr.of_bytes xs))
        (copy_out-bytes (ptr.to_bytes a) bs mem p 8 e (ptr.width a) at)
      ∙ ap light (ptr.back a)
  value_at-received (other t) bs mem p h at = absurd (cc)

  Items-count :
      (vs : List (Value N P)) (mem : Memory) (cp e : ℕ)
      → Items num ptr mem cp e vs
      → cp + 8 * length vs ≤ e
  Items-count [] mem cp e h = omega arith
  Items-count (v ∷ vs) mem cp e (bs, s, item, rest) =
      omega (arith, Items-count vs mem (cp + 8 + aligned (length bs)) e rest)

  parse_items-Items :
      (vs : List (Value N P)) (f cp e : ℕ) (mem : Memory)
      → Items num ptr mem cp e vs
      → short_at mem 0 ≡ 2 + e
      → length vs ≤ f
      → parse_items num ptr f cp mem ≡ map received vs
  unfolding parse_items
  parse_items-Items [] zero cp e mem h size le = refl
  parse_items-Items [] (suc f) cp e mem h size le =
      let past : ltb (2 + cp) (short_at mem 0) ≡ false = ground arith in rw past refl
  parse_items-Items (v ∷ vs) zero cp e mem h size le = absurd (omega arith)
  parse_items-Items (v ∷ vs) (suc f) cp e mem (bs, s, item, rest) size le =
      let more = Items-count vs mem (cp + 8 + aligned (length bs)) e rest in
      let inside : ltb (2 + cp) (short_at mem 0) ≡ true = ground arith in
      rw (inside, item.typed, item.sized)
        (ap₂ ◌∷◌ (value_at-received v bs mem (2 + cp + 8) s item.value)
          (parse_items-Items vs f (cp + 8 + aligned (length bs)) e mem rest size (omega arith)))

  -- The memory with the message's size written.
  abbrev sized_memory : ℕ → Memory → Memory
  sized_memory cp mem = copy_in mem 0 ((2 + cp) % 256 ∷ (2 + cp) / 256 % 256 ∷ [])

  put_size-built :
      (r : Building) (n : ℕ) (mem : Memory)
      → put_size num ptr r ≡ built n mem
      → (cp : ℕ) × ((m : Memory) × (r ≡ built cp m) × (2 + cp ≡ n) × (sized_memory cp m ≡ mem))
  unfolding put_size
  put_size-built (built cp m) n mem h = (cp, (m, refl, cc, cc))
  put_size-built too_big n mem h = absurd (cc)
  put_size-built not_primitive n mem h = absurd (cc)

  IsItem-moved :
      (mem mem' : Memory) (p type : ℕ) (bs : List ℕ)
      → ((a : ℕ) → p ≤ a → mem' a ≡ mem a)
      → IsItem mem p type bs
      → IsItem mem' p type bs
  unfolding short_at
  IsItem-moved mem mem' p type bs same h = record {
    typed = same p (omega arith) ∙ h.typed;
    sized = omega (arith, same (p + 1) (omega arith), same (p + 1 + 1) (omega arith), h.sized);
    value = λ i lt. same (p + 8 + i) (omega arith) ∙ h.value i lt;
  }

  Items-moved :
      (vs : List (Value N P)) (mem mem' : Memory) (cp e : ℕ)
      → ((a : ℕ) → 2 ≤ a → mem' a ≡ mem a)
      → Items num ptr mem cp e vs
      → Items num ptr mem' cp e vs
  Items-moved [] mem mem' cp e same h = h
  Items-moved (v ∷ vs) mem mem' cp e same (bs, s, item, rest) = (
    bs,
    s,
    IsItem-moved mem mem' (2 + cp) (type_of num ptr v) bs (λ a le. same a (omega arith)) item,
    Items-moved vs mem mem' (cp + 8 + aligned (length bs)) e same rest,
  )

  size-written : (cp : ℕ) (mem : Memory) → cp ≤ 508 → short_at (sized_memory cp mem) 0 ≡ 2 + cp
  unfolding short_at
  size-written cp mem le =
      let at = copy_in-At mem 0 ((2 + cp) % 256 ∷ (2 + cp) / 256 % 256 ∷ []) in
      omega (arith, at 0 (omega arith), at 1 (omega arith))

  copy_out-IsMessage :
      (mem : Memory) (k : ℕ) → short_at mem 0 ≡ 2 + k → k ≤ 508 → IsMessage (copy_out mem 0 (2 + k))
  unfolding copy_out short_at
  copy_out-IsMessage mem k size le =
      let len = length-copy_out (2 + k) mem 0 in
      let e : 2 + k ≡ suc (suc k) = omega arith in
      record {
        has_header = omega arith;
        header =
            ap (λ n. get_or (copy_out mem 0 n) 0 0 + 256 * get_or (copy_out mem 0 n) 1 0) e
            ∙ size
            ∙ sym len;
        fits = omega arith;
      }

  built-parse :
      (vs : List (Value N P)) (cp : ℕ) (m : Memory)
      → Items num ptr m 0 cp vs
      → cp ≤ 508
      → (parse num ptr (sized_memory cp m) ≡ map received vs)
        × IsMessage (copy_out (sized_memory cp m) 0 (2 + cp))
  unfolding parse
  built-parse vs cp m items le =
      let few = Items-count vs m 0 cp items in
      let size = size-written cp m le in
      (
        parse_items-Items vs msg_max_size 0 cp (sized_memory cp m)
            (Items-moved vs m (sized_memory cp m) 0 cp
              (λ a above.
                copy_in-outside m 0 ((2 + cp) % 256 ∷ (2 + cp) / 256 % 256 ∷ []) a
                  (inr (omega arith)))
              items)
            size (omega arith),
        copy_out-IsMessage (sized_memory cp m) cp size le,
      )

  -- If `pipe_msg_build` returns, the message has its size in front and at most 510 bytes, and
  -- `pipe_msg_parse` gives the values back, in order, with light userdata for userdata.
  pub parse-build :
      (vs : List (Value N P)) (mem mem' : Memory) (n : ℕ)
      → build num ptr vs mem ≡ built n mem'
      → (parse num ptr mem' ≡ map received vs) × IsMessage (copy_out mem' 0 n) × (n ≤ 510)
  unfolding build
  parse-build vs mem mem' n h =
      let (cp, (m, r, e, w)) = put_size-built (build_items num ptr vs 0 mem) n mem' h in
      let (items, kept, up, down) =
        build_items-Items num ptr vs 0 cp mem m r (omega arith) (omega arith) in
      let (a, b) = built-parse vs cp m items down in
      (
        ap (parse num ptr) (sym w) ∙ a,
        subst IsMessage ((λ i. copy_out (w i) 0 (2 + cp)) ∙ ap (copy_out mem' 0) e) b,
        omega arith,
      )
