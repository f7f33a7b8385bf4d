-- ===== src/MemBuf/StreamTests.antt =====
-- A stream that takes one byte at a time.
use luasys.Base.{ℕ, ◌-◌, refl, true, false, none, some, [], ◌∷◌, ◌++◌, take, drop, arith}
use luasys.MemBuf.{Bytes, MemBuf, bytes}
use luasys.MemBuf.Valid.{IsValid, Returns}
use luasys.MemBuf.Output.{Streams, add_lstring}
use luasys.MemBuf.Output.Partial.{Stale, add_lstring-partial}

-- The first byte of the buffer is sent, and the others are moved to its start.
abbrev without_first : MemBuf → MemBuf
without_first mb =
    let n : ℕ = mb.offset - 1 in
    let bs : Bytes = bytes mb.block in
    record mb { offset = n; block = some (take n (drop 1 bs) ++ drop n bs) }

abbrev slow_sink : Streams Bytes
slow_sink = record {
  write = λ bs st. (false, st ++ take 1 bs);
  write_buffer = λ mb st. (false, without_first mb, st ++ take 1 (bytes mb.block));
  read = λ l st. (none, st);
  read_buffer = λ l mb st. (none, mb, st);
  has_memory = λ n. true;
}

abbrev four_bytes : MemBuf
four_bytes = record {
  block = some (97 ∷ 98 ∷ 99 ∷ 100 ∷ 0 ∷ 0 ∷ []);
  len = 6;
  offset = 4;
  tag = 0;
  is_udata = false;
  is_alloc = true;
  is_map = false;
  istream = false;
  ostream = true;
  istream_bufio = false;
  ostream_bufio = true;
}

four_bytes-IsValid : IsValid four_bytes
four_bytes-IsValid = record {
  sized = refl;
  positive = omega arith;
  inside = omega arith;
  small = omega arith;
}

three_left-IsValid : IsValid (without_first four_bytes)
three_left-IsValid = record {
  sized = refl;
  positive = omega arith;
  inside = omega arith;
  small = omega arith;
}

add_lstring-partial_example :
    Returns
      (Stale (7 ∷ 8 ∷ 9 ∷ []) 4 (without_first four_bytes) (97 ∷ []))
      (add_lstring slow_sink (some (7 ∷ 8 ∷ 9 ∷ [])) 3 four_bytes [])
add_lstring-partial_example =
    add_lstring-partial slow_sink (7 ∷ 8 ∷ 9 ∷ []) four_bytes (without_first four_bytes) []
      (97 ∷ []) refl refl four_bytes-IsValid (omega arith) (omega arith) refl three_left-IsValid
      refl (omega arith) refl (λ l. refl)
