-- ===== src/MemBuf/Tests.antt =====
-- Memory buffers on concrete bytes.
use mathlib.Core.List.{flatten}
use luasys.Base.{
  ◌≤◌, ◌<◌, ◌≡◌, refl, true, false, none, some, [], ◌∷◌, ◌++◌, length, arith, append-nil,
}
use luasys.MemBuf.{Bytes, MemBuf, hang, fault, contents, new, free}
use luasys.Base.{drop}
use luasys.MemBuf.{done, ◌>>=◌, copy_to, read_next}
use luasys.MemBuf.Window.{write_init, buffer_init, buffer_done}
use luasys.MemBuf.Window.Collect.{collect, collect_lem}
use luasys.MemBuf.Window.Fill.{fill-buffer_done, read_next-drop}
use luasys.Base.{
  replicate, ℕ, zero, suc, ◌+◌, ◌*◌, ◌/◌, ◌%◌, Bool, ◌&&◌, ltb, ◌==◌, ==_iff, ap, sym,
}
use luasys.MemBuf.Access.{
  uint, CType, c_char, c_uchar, c_short, c_ushort, c_int, c_uint, c_long, c_ulong, c_float,
  c_double, c_number, size_of, Casts, num, index, new_index, index_type,
}
use luasys.MemBuf.Access.StoreLoad.{index-new_index}
use luasys.MemBuf.Valid.{IsValid, Returns}
use luasys.MemBuf.Output.{Streams, add_lstring, write, grow, grow_fuel}
use luasys.MemBuf.Output.Grow.{grow_total}
use luasys.MemBuf.Output.Append.{IsLawful, Added, add_lstring-Added}
use luasys.MemBuf.Output.Write.{Written, write-Written}
use luasys.MemBuf.Output.Faults.{add_lstring-hang, add_lstring-free}
use luasys.MemBuf.Input.{read_bytes, read_line, find_newline}
use luasys.MemBuf.Input.Line.{Read, IsLine, read_bytes_lem, read_line-IsLine}

-- A stream that accepts all bytes, and is the list of them.
abbrev sink : Streams Bytes
sink = record {
  write = λ bs st. (true, st ++ bs);
  write_buffer = λ mb st. (true, record mb { offset = 0 }, st ++ contents mb);
  read = λ l st. (none, st);
  read_buffer = λ l mb st. (none, mb, st);
  has_memory = λ n. true;
}

abbrev sent : Bytes → Bytes
sent st = st

sink-IsLawful : IsLawful sink sent
sink-IsLawful = record {
  accepts = λ bs st h. refl;
  refuses = λ bs st h. absurd (cc);
  consumes = λ mb st h v. (
    record { sized = v.sized; positive = v.positive; inside = omega arith; small = v.small },
    refl,
    omega arith,
    append-nil (st ++ contents mb),
  );
  leaves = λ mb st h. absurd (cc);
}

-- "ab", a newline and "c", with room for four bytes more
abbrev two_lines : MemBuf
two_lines = record {
  block = some (97 ∷ 98 ∷ 10 ∷ 99 ∷ 0 ∷ 0 ∷ 0 ∷ 0 ∷ []);
  len = 8;
  offset = 4;
  tag = 0;
  is_udata = false;
  is_alloc = true;
  is_map = false;
  istream = false;
  ostream = false;
  istream_bufio = false;
  ostream_bufio = false;
}

abbrev streaming : MemBuf
streaming = record two_lines { ostream = true }

two_lines-IsValid : IsValid two_lines
two_lines-IsValid = record {
  sized = refl;
  positive = omega arith;
  inside = omega arith;
  small = omega arith;
}

streaming-IsValid : IsValid streaming
streaming-IsValid = record {
  sized = refl;
  positive = omega arith;
  inside = omega arith;
  small = omega arith;
}

abbrev six : Bytes
six = 1 ∷ 2 ∷ 3 ∷ 4 ∷ 5 ∷ 6 ∷ []

-- `sys.mem.pointer()`
abbrev pointer : MemBuf
unfolding new
pointer = new 0

add_lstring-Added_example :
    Returns
      (Added sink sent six streaming [])
      (add_lstring sink (some six) (length six) streaming [])
add_lstring-Added_example =
    add_lstring-Added sink sent sink-IsLawful six streaming [] streaming-IsValid (omega arith)

write-Written_example :
    Returns
      (Written sink sent (six ∷ [] ∷ six ∷ []) two_lines [])
      (write sink (six ∷ [] ∷ six ∷ []) two_lines [])
unfolding flatten
write-Written_example =
    write-Written sink sent sink-IsLawful (six ∷ [] ∷ six ∷ []) two_lines [] two_lines-IsValid
      (omega arith)

grow_total_example : (l : ℕ) × (grow grow_fuel 8 100 ≡ some l) × (100 < l) × (l ≤ 200)
grow_total_example = grow_total 8 100 (omega arith) (omega arith) (omega arith)

add_lstring-hang_example : add_lstring sink (some six) 6 pointer [] ≡ hang
unfolding new
add_lstring-hang_example = add_lstring-hang sink (some six) 6 pointer [] refl refl

add_lstring-free_example : add_lstring sink (some (1 ∷ [])) 1 (free two_lines) [] ≡ fault
add_lstring-free_example =
    add_lstring-free sink (1 ∷ []) two_lines [] two_lines-IsValid (omega arith)

read_bytes_lem_example : Returns (Read sink 3 two_lines []) (read_bytes sink (some 3) two_lines [])
read_bytes_lem_example = read_bytes_lem sink (some 3) two_lines [] two_lines-IsValid refl

read_line-IsLine_example :
    Returns
      (IsLine sink (find_newline (contents two_lines)) two_lines [])
      (read_line sink 1 two_lines [])
read_line-IsLine_example = read_line-IsLine sink 1 two_lines [] two_lines-IsValid refl

-- An array of 16 bytes on the stack, and 33 bytes for its windows of 16, 16 and 32 bytes
abbrev sixteen : ℕ → Bytes
sixteen b = replicate 16 b

collect_lem_example :
    Returns
      (λ r. r ≡ flatten (sixteen 1 ∷ sixteen 2 ∷ []) ++ (5 ∷ []))
      (collect (sixteen 1 ∷ sixteen 2 ∷ []) (5 ∷ []) (write_init (sixteen 0)))
collect_lem_example =
    collect_lem (sixteen 0) (sixteen 1 ∷ sixteen 2 ∷ []) (5 ∷ []) (omega arith) (omega arith)
      (refl, omega arith, (refl, omega arith, omega arith))

fill-buffer_done_example :
    Returns
      (λ mb'. IsValid mb' × (contents mb' ≡ contents two_lines ++ (1 ∷ 2 ∷ [])))
      (copy_to two_lines.block (buffer_init two_lines).0 (1 ∷ 2 ∷ []) >>= λ b.
        done (buffer_done 2 (record two_lines { block = b })))
unfolding buffer_init
fill-buffer_done_example = fill-buffer_done two_lines (1 ∷ 2 ∷ []) two_lines-IsValid (omega arith)

read_next-drop_example :
    IsValid (read_next 3 two_lines)
    × (contents (read_next 3 two_lines) ≡ drop 3 (contents two_lines))
read_next-drop_example = read_next-drop 3 two_lines two_lines-IsValid (omega arith)

-- The bytes of a number, the lowest first, and the numbers that so many bytes are enough for
abbrev le_bytes : ℕ → ℕ → Bytes
le_bytes zero x = []
le_bytes (suc n) x = x % 256 ∷ le_bytes n (x / 256)

abbrev of_le : Bytes → ℕ
of_le [] = 0
of_le (b ∷ bs) = b + 256 * of_le bs

abbrev fits_in : ℕ → ℕ → Bool
fits_in zero x = x == 0
fits_in (suc n) x = fits_in n (x / 256)

length-le_bytes : (n x : ℕ) → length (le_bytes n x) ≡ n
length-le_bytes zero x = refl
length-le_bytes (suc n) x = ap suc (length-le_bytes n (x / 256))

of_le-le_bytes : (n x : ℕ) → fits_in n x ≡ true → of_le (le_bytes n x) ≡ x
of_le-le_bytes zero x h = sym ((==_iff x 0).0 h)
of_le-le_bytes (suc n) x h = let rest = of_le-le_bytes n (x / 256) h in omega (arith, rest)

-- The natural numbers that an unsigned type has, and those below 128 for a signed one. Numbers of
-- floating point have none in common with these here.
abbrev has_number : CType → ℕ → Bool
has_number c_uchar x = fits_in 1 x
has_number c_ushort x = fits_in 2 x
has_number c_uint x = fits_in 4 x
has_number c_ulong x = fits_in 8 x
has_number c_char x = ltb x 128 && fits_in 1 x
has_number c_short x = ltb x 128 && fits_in 2 x
has_number c_int x = ltb x 128 && fits_in 4 x
has_number c_long x = ltb x 128 && fits_in 8 x
has_number _ x = false

and-right : (a b : Bool) → a && b ≡ true → b ≡ true
and-right true b h = h
and-right false b h = absurd cc

has_number-fits_in : (c : CType) (x : ℕ) → has_number c x ≡ true → fits_in (size_of c) x ≡ true
has_number-fits_in c_uchar x h = h
has_number-fits_in c_ushort x h = h
has_number-fits_in c_uint x h = h
has_number-fits_in c_ulong x h = h
has_number-fits_in c_char x h = and-right (ltb x 128) (fits_in 1 x) h
has_number-fits_in c_short x h = and-right (ltb x 128) (fits_in 2 x) h
has_number-fits_in c_int x h = and-right (ltb x 128) (fits_in 4 x) h
has_number-fits_in c_long x h = and-right (ltb x 128) (fits_in 8 x) h
has_number-fits_in c_float x h = absurd cc
has_number-fits_in c_double x h = absurd cc
has_number-fits_in c_number x h = absurd cc

abbrev naturals : Casts ℕ
naturals = record {
  to_bytes = λ c x. le_bytes (size_of c) x;
  of_bytes = λ c bs. of_le bs;
  in_range = has_number;
  width = λ c x. length-le_bytes (size_of c) x;
  back = λ c x h. of_le-le_bytes (size_of c) x (has_number-fits_in c x h);
}

index-new_index_example :
    (mb' : MemBuf) × (new_index naturals uint 1 (num 3000000000) two_lines ≡ done (some mb'))
    × (index naturals uint 1 mb' ≡ done (num 3000000000))
    × IsValid mb'
unfolding index_type
index-new_index_example =
    index-new_index naturals uint c_uint 1 3000000000 two_lines refl two_lines-IsValid (omega arith)
      refl
