-- ===== src/Evq/LoopTests.antt =====
-- The loop of an event queue at concrete inputs.
use luasys.Base.{◌≤◌, ◌≡◌, refl, true, false, [], ◌∷◌}
use luasys.TaskList.Times.{one_if}
use luasys.Evq.Loop.{
  Loop, idles, waits, processes, top, after_ops, look, stop_loop, sync_call, idle_over, new_loop,
}
use luasys.Evq.Waiting.{Reach, here, next, land, tops, syncs, Reach-Flagged, restart_idles}
use luasys.Evq.Sync.{sync_calls, top-sync_calls}

abbrev with_event : Loop
with_event = record new_loop { nevents = 1 }

restart_idles_example :
    ((top true false (stop_loop false (stop_loop true with_event))).0 ≡ idles)
    × ((idle_over false (top true false (stop_loop false (stop_loop true with_event))).1).0 ≡ idles)
unfolding new_loop
restart_idles_example = restart_idles false with_event refl refl refl

-- Without the two calls of `stop` it waits for events.
not_stopped : (top true false with_event).0 ≡ waits
unfolding new_loop top after_ops look
not_stopped = refl

top-sync_calls_example :
    ((top true true (sync_calls (1 ∷ 2 ∷ 3 ∷ []) with_event)).0 ≡ processes (3 ∷ 2 ∷ 1 ∷ []))
    × ((top true true (sync_calls (1 ∷ 2 ∷ 3 ∷ []) with_event)).1.sync_op ≡ [])
unfolding new_loop
top-sync_calls_example = top-sync_calls true true (1 ∷ 2 ∷ []) 3 with_event refl

-- A thread waits for events, another asks for an operation and runs the loop.
abbrev two_threads :
    Reach
      (record { loop = with_event; in_wait = 0 })
      (land 1 (top true false (sync_call 7 (record with_event { waiting = true }))))
unfolding new_loop top after_ops look
two_threads = next (next (next here (tops false)) (syncs 7)) (tops false)

Reach-Flagged_example : (1 ≡ one_if true) × (1 ≤ 1)
unfolding new_loop top after_ops look sync_call
Reach-Flagged_example = Reach-Flagged two_threads refl
