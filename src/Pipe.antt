-- ===== src/Pipe.antt =====
-- thread/thread_pipe.c: messages between VM-threads through a chain of ring buffers.
-- The critical section guards the whole of `put` and of `get` but for the wait, so each function
-- below is the code from one wait to the next, and runs without interference.
pub mod Ring
pub mod Put
pub mod Get
pub mod Message
mod Tests
use Prim.Native.Nat.{bit_and}
use luasys.Base.{
  ℕ, zero, suc, ◌+◌, ◌-◌, ◌*◌, ◌/◌, ◌%◌, ◌^◌, Bool, true, false, ◌&&◌, ◌||◌, not, Option, none,
  some, List, [], ◌∷◌, length, get_or, ltb, leb, ◌==◌, if◌then◌else◌,
}

-- Bytes in memory: what each address of a buffer holds.
abbrev pub Memory : Type 0
Memory = ℕ → ℕ

-- `memcpy` to an address
unfoldable pub copy_in : Memory → ℕ → List ℕ → Memory
copy_in mem p bs a = if leb p a && ltb a (p + length bs) then get_or bs (a - p) 0 else mem a

-- `memcpy` of `n` bytes from an address
unfoldable pub copy_out : Memory → ℕ → ℕ → List ℕ
copy_out mem p zero = []
copy_out mem p (suc n) = mem p ∷ copy_out mem (p + 1) n

-- The `unsigned short` at an address, low byte first.
unfoldable pub short_at : Memory → ℕ → ℕ
short_at mem p = mem p + 256 * mem (p + 1)

-- `struct pipe_buf`, with the bytes behind it
pub record Buffer : Type 0 where
  pub begin : ℕ
  pub end : ℕ
  pub len : ℕ
  pub next : ℕ
  pub mem : Memory

-- PIPE_BUF_EXTRASIZE, PIPE_BUF_MINSIZE and PIPE_BUF_MAXSIZE on a 64-bit machine
abbrev pub extra_size : ℕ
extra_size = 26

abbrev pub min_buffer_size : ℕ
min_buffer_size = 8 * 512

abbrev pub max_buffer_size : ℕ
max_buffer_size = 2 * 1024 * 1024 * 1024

-- `unsigned int` subtraction
abbrev pub sub_u32 : ℕ → ℕ → ℕ
sub_u32 a b = (2 ^ 32 + a - b) % 2 ^ 32

abbrev pub wrapped : Buffer → Bool
wrapped b = ltb b.end b.begin

-- The local `len` of `pipe_put`: the room behind `end`.
abbrev pub room : Buffer → ℕ
room b = sub_u32 (if wrapped b then b.begin else b.len) b.end

-- `pipe_put`, wrap the buffer: a size of 0 marks the place.
unfoldable pub wrap : Buffer → Buffer
unfolding copy_in
wrap b = record b { mem = copy_in b.mem b.end (0 ∷ 0 ∷ []); end = 0 }

-- `pipe_put`, the copy of the message
unfoldable pub append : Buffer → List ℕ → Buffer
unfolding copy_in
append b msg = record b { mem = copy_in b.mem b.end msg; end = (b.end + length msg) % 2 ^ 32 }

-- `pipe_get`, where the message at the front begins
unfoldable pub front : Buffer → ℕ
unfolding short_at
front b = if short_at b.mem b.begin == 0 then 0 else b.begin

-- `pipe_get`, the message, whether it was the last one of the buffer, and the indices that are left
unfoldable pub take_front : Buffer → List ℕ × Bool × Buffer
unfolding copy_out short_at front
take_front b =
    let size : ℕ = short_at b.mem (front b) in
    let begin : ℕ = (front b + size) % 2 ^ 32 in
    (
      copy_out b.mem (front b) size,
      begin == b.end,
      (if begin == b.end
          then record b { begin = 0; end = 0 }
          else (if begin == b.len then record b { begin = 0 } else record b { begin = begin })),
    )

-- `struct pipe`. A buffer is named by its address, and `heap` has what each address holds. The two
-- last fields count the signals to the condition variables.
pub record Pipe : Type 0 where
  pub nmsg : ℕ
  pub rbuf : ℕ
  pub wbuf : ℕ
  pub heap : ℕ → Buffer
  pub nref : ℕ
  pub signal_on_put : ℕ
  pub signal_on_get : ℕ
  pub buf_size : ℕ
  pub buf_max_size : ℕ
  pub put_signals : ℕ
  pub get_signals : ℕ

abbrev pub store : (ℕ → Buffer) → ℕ → Buffer → ℕ → Buffer
store h p b q = if q == p then b else h q

-- What `thread_cond_wait_nolock` returns.
pub data Woken : Type 0 where
  signalled timed_out failed : Woken

-- `pipe_new`, with the address that `malloc` returns for the first buffer and the bytes there.
-- `none` is the error "invalid size".
pub new : (max_size min_size pb : ℕ) → Memory → Option Pipe
new max_size min_size pb mem =
    let q : ℕ = max_size / min_size in
    let b : Buffer = record {
      begin = 0;
      end = 0;
      len = sub_u32 min_size extra_size;
      next = pb;
      mem = mem;
    } in
    if ltb max_size min_size
      || ltb min_size min_buffer_size
      || ltb max_buffer_size max_size
      || not (bit_and q (q - 1) == 0)
    then none
    else some (record {
      nmsg = 0;
      rbuf = pb;
      wbuf = pb;
      heap = λ q. b;
      nref = 0;
      signal_on_put = 0;
      signal_on_get = 0;
      buf_size = min_size;
      buf_max_size = max_size;
      put_signals = 0;
      get_signals = 0;
    })

-- `pipe_xdup`
pub xdup : Pipe → Pipe
xdup p = record p { nref = (p.nref + 1) % 2 ^ 32 }

-- `pipe_close`, the loop that frees the buffers, on fuel: their addresses in order
pub free_buffers : ℕ → (ℕ → Buffer) → (rpb wpb : ℕ) → List ℕ
free_buffers zero heap rpb wpb = []
free_buffers (suc f) heap rpb wpb =
    let rest = free_buffers f heap (heap rpb).next wpb in
    rpb ∷ (if (heap rpb).next == wpb then [] else rest)

-- `pipe_close`, with the buffers that it frees
pub close : ℕ → Pipe → List ℕ × Pipe
close fuel p = (
  (if p.nref == 0 then free_buffers fuel p.heap p.rbuf p.wbuf else []),
  record p { nref = sub_u32 p.nref 1 },
)

-- Where a call stands: it has returned, or waits with the lock given up.
pub data Putting : Type 0 where
  put_done : Putting
  put_waits : Putting
  put_timeout : Putting
  put_error : Putting

pub data Getting : Type 0 where
  got : List ℕ → Getting
  get_waits : Getting
  get_timeout : Getting
  get_error : Getting

-- `pipe_put`, the end of the loop: the message goes to buffer `pb`, whose fields are `b`.
abbrev pub finish_put : ℕ → Buffer → List ℕ → Pipe → Putting × Pipe
finish_put pb b msg p = (
  put_done,
  record p {
    heap = store p.heap pb (append b msg);
    nmsg = (p.nmsg + 1) % 2 ^ 32;
    put_signals = if p.signal_on_put == 0 then p.put_signals else p.put_signals + 1;
  },
)

-- `pipe_put`, allocate a new buffer, or wait. `fresh` is what `malloc` returns.
put_grow : Option ℕ → List ℕ → Pipe → Putting × Pipe
put_grow none msg p = (put_waits, record p { signal_on_get = p.signal_on_get + 1 })
put_grow (some wpb) msg p =
    let b : Buffer = p.heap p.wbuf in
    let new : Buffer = record {
      begin = 0;
      end = 0;
      len = sub_u32 p.buf_size extra_size;
      next = b.next;
      mem = (p.heap wpb).mem;
    } in
    finish_put wpb new msg (record p {
      heap = store p.heap p.wbuf (record b { next = wpb });
      buf_size = p.buf_size * 2 % 2 ^ 32;
      wbuf = wpb;
    })

-- `pipe_put`, one round of its loop
pub put : Option ℕ → List ℕ → Pipe → Putting × Pipe
unfolding put_grow wrap append
put fresh msg p =
    let b : Buffer = p.heap p.wbuf in
    let n : Buffer = p.heap b.next in
    if ltb (room b) (length msg)
    then (if not (wrapped b) && ltb (length msg) b.begin
        then finish_put p.wbuf (wrap b) msg p
        else (if not (p.wbuf == b.next) && (n.begin == 0 && n.end == 0)
            then finish_put b.next n msg (record p { wbuf = b.next })
            else put_grow (if leb (2 * p.buf_size % 2 ^ 32) p.buf_max_size then fresh else none) msg
                p))
    else finish_put p.wbuf b msg p

-- `pipe_put` after the wait for a 'get' signal
pub put_woken : Woken → Option ℕ → List ℕ → Pipe → Putting × Pipe
put_woken r fresh msg p =
    let left : ℕ = p.signal_on_get - 1 in
    let p' : Pipe = record p {
      signal_on_get = left;
      get_signals = if left == 0 then p.get_signals else p.get_signals + 1;
    } in
    elim r [
      | signalled ↦ put fresh msg p'
      | timed_out ↦ (put_timeout, p')
      | failed ↦ (put_error, p')
    ]

-- `pipe_get`, one round of its loop
pub get : Pipe → Getting × Pipe
unfolding take_front
get p =
    let b : Buffer = p.heap p.rbuf in
    let (msg, drained, b') = take_front b in
    if p.nmsg == 0 then (get_waits, record p { signal_on_put = p.signal_on_put + 1 }) else (
      got msg,
      record p {
        heap = store p.heap p.rbuf b';
        rbuf = if drained && ltb 1 p.nmsg then b.next else p.rbuf;
        nmsg = p.nmsg - 1;
        put_signals =
            if not (p.nmsg - 1 == 0) && not (p.signal_on_put == 0)
            then p.put_signals + 1
            else p.put_signals;
        get_signals = if p.signal_on_get == 0 then p.get_signals else p.get_signals + 1;
      },
    )

-- `pipe_get` after the wait for a 'put' signal
pub get_woken : Woken → Pipe → Getting × Pipe
get_woken r p =
    let p' : Pipe = record p { signal_on_put = p.signal_on_put - 1 } in
    elim r [ signalled ↦ get p' | timed_out ↦ (get_timeout, p') | failed ↦ (get_error, p') ]

-- `pipe_count`
pub count : Pipe → ℕ
count p = p.nmsg
