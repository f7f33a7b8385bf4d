-- ===== src/Evq/Tests.antt =====
-- The identifiers of events at concrete inputs.
use luasys.Base.{◌+◌, ◌<◌, ◌≤◌, ◌^◌, ◌≡◌, refl, [], ◌∷◌, arith}
use luasys.TaskList.Times.{times}
use luasys.Evq.{
  getmaxbit, smear, or_shifted, new_alloc, new_event, new_slot, free_event, locate, first_id,
}
use luasys.Evq.MaxBit.{getmaxbit_log}
use luasys.Evq.Ids.{Given, new_event-Given}
use luasys.Evq.Live.{
  allocates, frees, Reach, here, next, after_new, no_events, new_alloc-Valid, locate-used,
  used-bounds,
}

getmaxbit_log_example : getmaxbit 0x12345 ≡ 16
getmaxbit_log_example = getmaxbit_log 16 0x12345 (omega arith) (omega arith) (omega arith)

new_event-Given_example : Given [] new_alloc (new_event new_alloc)
new_event-Given_example = new_event-Given new_alloc [] new_alloc-Valid

-- Two events are made and the first is deleted.
abbrev one_left : Reach no_events (record {
  alloc =
      free_event
        (record { buffer = 6; place = 0; ev_id = 0 })
        (after_new
          (new_event (after_new (new_event new_alloc) no_events).alloc)
          (after_new (new_event new_alloc) no_events)).alloc;
  used = record { buffer = 6; place = 1; ev_id = 1 } ∷ [];
})
unfolding new_alloc new_event new_slot first_id
one_left = next (next (next here allocates) allocates) (
    frees (record { buffer = 6; place = 0; ev_id = 0 })
      (record { buffer = 6; place = 1; ev_id = 1 } ∷ []) [] refl)

locate-used_example : (locate 1 ≡ (6, 1)) × (1 < 2 ^ 6)
locate-used_example = locate-used 0 (record { buffer = 6; place = 1; ev_id = 1 }) one_left refl

-- The first place of the second buffer
locate-64 : locate 64 ≡ (7, 0)
unfolding locate getmaxbit first_id smear or_shifted
locate-64 = refl

used-bounds_example :
    (times 1 (1 ∷ []) + times 1 (0 ∷ []) ≤ 1) × (1 ≤ times 1 (1 ∷ []) → 1 < 2 ^ 25)
unfolding new_alloc new_event new_slot first_id free_event
used-bounds_example = used-bounds 1 one_left
