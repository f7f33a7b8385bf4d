-- ===== src/Evq.antt =====
-- sys_evq.c: the identifiers of events in the growing buffers of an event queue.
pub mod Digits
pub mod MaxBit
pub mod Locate
pub mod Ids
pub mod Live
pub mod Loop
pub mod Waiting
pub mod Sync
pub mod Tests
pub mod LoopTests
use Prim.Native.Nat.{bit_or, bit_and}
use luasys.Base.{
  ℕ, ◌+◌, ◌-◌, ◌*◌, ◌/◌, ◌%◌, ◌^◌, List, [], ◌∷◌, get_or, Bool, true, false, not, Option, none,
  some, ltb, leb, ◌==◌, if◌then◌else◌,
}

abbrev pub bit_position : List ℕ
bit_position =
    0 ∷ 9 ∷ 1 ∷ 10 ∷ 13 ∷ 21 ∷ 2 ∷ 29 ∷ 11 ∷ 14 ∷ 16 ∷ 18 ∷ 22 ∷ 25 ∷ 3 ∷ 30 ∷ 8 ∷ 12 ∷ 20 ∷ 28 ∷ 15
    ∷ 17 ∷ 24 ∷ 7 ∷ 19 ∷ 27 ∷ 23 ∷ 6 ∷ 26 ∷ 5 ∷ 4 ∷ 31 ∷ []

-- `v |= v >> n`, with the shift as a division by `d`
unfoldable pub or_shifted : ℕ → ℕ → ℕ
or_shifted d v = bit_or v (v / d)

-- The assignments of `getmaxbit`
unfoldable pub smear : ℕ → ℕ
smear v =
    or_shifted (2 ^ 16)
      (or_shifted (2 ^ 8) (or_shifted (2 ^ 4) (or_shifted (2 ^ 2) (or_shifted (2 ^ 1) v))))

-- `getmaxbit`, of an `unsigned int`
pub getmaxbit : ℕ → ℕ
getmaxbit v = get_or bit_position (smear v * 0x07C4ACDD % 2 ^ 32 / 2 ^ 27) 0

-- EVQ_ENV_BUF_IDX and EVQ_ENV_BUF_MAX
abbrev pub buf_first : ℕ
buf_first = 6

abbrev pub buf_last : ℕ
buf_last = 24

-- The identifier of the first event of a buffer of this length: `(nmax - 1) & ~63`, of an `int`
pub first_id : ℕ → ℕ
first_id nmax = bit_and (nmax - 1) (2 ^ 32 - 2 ^ buf_first)

-- An event: the buffer that it is in, by the logarithm of the buffer's length, its place there, and
-- its `ev_id`.
pub record Slot : Type 0 where
  pub buffer : ℕ
  pub place : ℕ
  pub ev_id : ℕ

-- The fields of `struct event_queue` that events are allocated by: the list `ev_free`, and the
-- buffers that there are in the environment table.
pub record Alloc : Type 0 where
  pub ev_free : List Slot
  pub buf_nevents : ℕ
  pub buf_index : ℕ
  pub has_buffer : ℕ → Bool

-- `levq_new_event`, with no free event. `none` is the error "too many events".
unfoldable pub new_slot : Alloc → Option (Slot × Alloc)
unfolding first_id
new_slot a =
    let n : ℕ = a.buf_nevents in
    let buf_idx : ℕ = a.buf_index + buf_first in
    let nmax : ℕ = 2 ^ buf_idx in
    let id : ℕ = n + first_id nmax in
    let full : Bool = leb nmax (n + 1) in
    if a.has_buffer buf_idx
    then some (
      record { buffer = buf_idx; place = n; ev_id = id },
      record a {
        buf_nevents = if full then 0 else n + 1;
        buf_index = if full then a.buf_index + 1 else a.buf_index;
      },
    )
    else (if ltb buf_last buf_idx
        then none
        else some (
          record { buffer = buf_idx; place = 0; ev_id = id },
          record a {
            buf_nevents = 1;
            has_buffer = λ j. if j == buf_idx then true else a.has_buffer j;
          },
        ))

-- `levq_new_event`
pub new_event : Alloc → Option (Slot × Alloc)
unfolding new_slot
new_event a = elim a.ev_free [
  | ev ∷ rest ↦ some (ev, record a { ev_free = rest })
  | [] ↦ new_slot a
]

-- `levq_free_event`, the last action of `levq_del_event`
pub free_event : Slot → Alloc → Alloc
free_event ev a = record a { ev_free = ev ∷ a.ev_free }

-- Where `levq_done` looks for the event of an identifier: the buffer and the place in it.
pub locate : ℕ → ℕ × ℕ
unfolding getmaxbit first_id
locate id =
    let buf_idx : ℕ = getmaxbit (bit_or id (2 ^ buf_first - 1) + 1) in
    (buf_idx, id - first_id (2 ^ buf_idx))

-- `levq_new`
pub new_alloc : Alloc
new_alloc = record { ev_free = []; buf_nevents = 0; buf_index = 0; has_buffer = λ j. false }
