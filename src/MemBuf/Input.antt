-- ===== src/MemBuf/Input.antt =====
-- mem/membuf.c, the input half: reading from a buffer, or from its stream once that is empty.
pub mod Line
use mathlib.Core.Option
use luasys.Base.{
  ℕ, min, zero, suc, ◌+◌, ◌&&◌, Bool, true, false, Option, none, some, [], ◌∷◌, length, take, drop,
  ltb, ◌==◌, if◌then◌else◌,
}
use luasys.MemBuf.{Bytes, MemBuf, Run, done, hang, fault, ◌>>=◌, bytes, contents, take_out}
use luasys.MemBuf.Output.{Streams, add_lstring}

-- Where `memchr` finds a newline.
unfoldable pub find_newline : Bytes → Option ℕ
find_newline [] = none
find_newline (c ∷ cs) = if c == 0x0a then some 0 else Option.map suc (find_newline cs)

-- What `read` leaves on the stack: no value, nil or a string.
pub data Reply : Type 0 where
  no_value nil : Reply
  string : Bytes → Reply

abbrev pub to_reply : Option Bytes → Reply
to_reply none = nil
to_reply (some bs) = string bs

-- What `membuf_read` is asked for.
pub data Mode : Type 0 where
  count : ℕ → Mode
  line all : Mode

-- `membuf_assosiate`: no stream, or one of which the Boolean says whether it can operate with
-- buffers. `membuf_input` is the first of the two definitions, `membuf_output` the other one.
pub input : Option Bool → MemBuf → MemBuf
input none mb = record mb { istream = false }
input (some bufio) mb = record mb {
  istream = true;
  istream_bufio = if bufio then true else mb.istream_bufio;
}

pub output : Option Bool → MemBuf → MemBuf
output none mb = record mb { ostream = false }
output (some bufio) mb = record mb {
  ostream = true;
  ostream_bufio = if bufio then true else mb.ostream_bufio;
}

module _ {S : Type 0} (env : Streams S) where
  -- `read_bytes`; the length `none` is `~((size_t) 0)`
  pub read_bytes : Option ℕ → MemBuf → S → Run (Reply × MemBuf × S)
  unfolding take_out
  read_bytes l mb st =
      if mb.offset == 0 && mb.istream
      then (if mb.istream_bufio
          then (let (v, mb', st') = env.read_buffer l mb st in done (to_reply v, mb', st'))
          else (let (v, st') = env.read l st in done (to_reply v, mb, st')))
      else (let m : ℕ = elim l [ none ↦ mb.offset | some k ↦ min k mb.offset ] in
          if m == 0
          then done (nil, mb, st)
          else take_out m m mb >>= λ r. done (string r.0, r.1, st))

  -- The end of `read_line`: all that the buffer holds is the line, and `tail` goes into the buffer.
  finish_line : Bytes → MemBuf → S → Run (Reply × MemBuf × S)
  finish_line tail mb st =
      if ltb (length (bytes mb.block)) mb.offset
      then fault
      else let line = if mb.offset == 0 then nil else string (contents mb) in
        let mb' = record mb { offset = 0 } in
        elim tail [
          | [] ↦ done (line, mb', st)
          | b ∷ bs ↦ add_lstring env (some (b ∷ bs)) (length (b ∷ bs)) mb' st >>= λ r.
              done (if r.0 then line else no_value, r.1, r.2)
        ]

  -- A chunk that does not begin with a newline: up to its first newline it goes into the buffer.
  add_chunk :
      (MemBuf → S → Run (Reply × MemBuf × S))
      → Bytes
      → Option ℕ
      → MemBuf
      → S
      → Run (Reply × MemBuf × S)
  unfolding finish_line
  add_chunk more chunk none mb st = add_lstring env (some chunk) (length chunk) mb st >>= λ r.
      if r.0 then more r.1 r.2 else done (no_value, r.1, r.2)
  add_chunk more chunk (some j) mb st =
      add_lstring env (some (take (j + 1) chunk)) (j + 1) mb st >>= λ r.
      if r.0 then finish_line (drop (j + 2) chunk) r.1 r.2 else done (no_value, r.1, r.2)

  -- The loop of `read_line` over the chunks of the stream, on fuel.
  read_chunks : ℕ → MemBuf → S → Run (Reply × MemBuf × S)
  unfolding finish_line add_chunk
  read_chunks zero mb st = hang
  read_chunks (suc f) mb st =
      let (chunk, st') = env.read (some 256) st in
      elim chunk [
        | none ↦ finish_line [] mb st'
        | some [] ↦ finish_line [] mb st'
        | some (c ∷ cs) ↦
            if c == 0x0a
            then finish_line cs mb st'
            else add_chunk (read_chunks f) (c ∷ cs) (find_newline cs) mb st'
      ]

  -- `read_line`, with fuel for the chunks of the stream
  pub read_line : ℕ → MemBuf → S → Run (Reply × MemBuf × S)
  unfolding take_out find_newline finish_line read_chunks
  read_line fuel mb st = elim (find_newline (contents mb)) [
    | none ↦ if mb.istream then read_chunks fuel mb st else finish_line [] mb st
    | some l ↦ take_out l (l + 1) mb >>= λ r. done (string r.0, r.1, st)
  ]

  -- `membuf_read`: a number of bytes, a line, or all
  pub read : Mode → ℕ → MemBuf → S → Run (Reply × MemBuf × S)
  unfolding read_bytes read_line
  read (count n) fuel mb st = read_bytes (some n) mb st
  read line fuel mb st = read_line fuel mb st
  read all fuel mb st = read_bytes none mb st
