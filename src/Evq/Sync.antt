-- ===== src/Evq/Sync.antt =====
-- The order in which the operations of `levq_sync_call` are called.
use luasys.Base.{
  ℕ, ◌+◌, ◌≡◌, refl, sym, ap, ◌∙◌, Bool, false, List, [], ◌∷◌, ◌++◌, if◌then◌else◌, on_branches,
  reverse, append_assoc,
}
use mathlib.Core.List.{reverse-cons, reverse-append}
use luasys.Evq.Loop.{Loop, Phase, ended, processes, top, after_ops, sync_call}

-- Operations asked for one after the other
abbrev pub sync_calls : List ℕ → Loop → Loop
sync_calls [] l = l
sync_calls (op ∷ ops) l = sync_calls ops (sync_call op l)

sync_call-fields :
    (op : ℕ) (l : Loop)
    → ((sync_call op l).sync_op ≡ op ∷ l.sync_op) × ((sync_call op l).stop ≡ l.stop)
unfolding sync_call
sync_call-fields op l =
    let m : Loop = record l { sync_op = op ∷ l.sync_op } in
    on_branches (λ (u : Loop). (u.sync_op ≡ op ∷ l.sync_op) × (u.stop ≡ l.stop)) l.waiting
      (record m { signals = m.signals + 1 }) m (λ e. (refl, refl)) (λ e. (refl, refl))

sync_calls-fields :
    (ops : List ℕ) (l : Loop)
    → ((sync_calls ops l).sync_op ≡ reverse ops ++ l.sync_op) × ((sync_calls ops l).stop ≡ l.stop)
sync_calls-fields [] l = (refl, refl)
sync_calls-fields (op ∷ ops) l =
    let (e, s) = sync_calls-fields ops (sync_call op l) in
    let (e1, s1) = sync_call-fields op l in
    (
      e
          ∙ ap (λ r. reverse ops ++ r) e1
          ∙ sym (append_assoc (reverse ops) (op ∷ []) l.sync_op)
          ∙ ap (λ r. r ++ l.sync_op) (sym (reverse-cons op ops)),
      s ∙ s1,
    )

top-processes :
    (threaded linger : Bool) (l : Loop) (op : ℕ) (ops : List ℕ)
    → l.stop ≡ false
    → l.sync_op ≡ op ∷ ops
    → top threaded linger l ≡ (processes (op ∷ ops), record l { sync_op = [] })
unfolding top
top-processes threaded linger l op ops s e =
    let round : List ℕ → Phase × Loop = λ r. elim r [
      | o ∷ os ↦ (processes (o ∷ os), record l { sync_op = [] })
      | [] ↦ after_ops threaded linger l
    ] in
    (λ i. if s i then (ended, l) else round l.sync_op) ∙ ap round e

-- After operations were asked for one after the other, by threads and coroutines, the next round of
-- a loop that is not stopped calls all of them, each once and the last one first, before those that
-- waited already, and none is left.
pub top-sync_calls :
    (threaded linger : Bool) (before : List ℕ) (op : ℕ) (l : Loop)
    → l.stop ≡ false
    → ((top threaded linger (sync_calls (before ++ op ∷ []) l)).0
        ≡ processes (op ∷ reverse before ++ l.sync_op))
      × ((top threaded linger (sync_calls (before ++ op ∷ []) l)).1.sync_op ≡ [])
top-sync_calls threaded linger before op l s =
    let m : Loop = sync_calls (before ++ op ∷ []) l in
    let (e, s1) = sync_calls-fields (before ++ op ∷ []) l in
    let order : m.sync_op ≡ op ∷ (reverse before ++ l.sync_op) =
      e ∙ ap (λ r. r ++ l.sync_op) (reverse-append before (op ∷ [])) in
    let turn = top-processes threaded linger m op (reverse before ++ l.sync_op) (s1 ∙ s) order in
    (ap (λ r. r.0) turn, ap (λ r. r.1.sync_op) turn)
