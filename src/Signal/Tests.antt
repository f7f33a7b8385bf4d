-- ===== src/Signal/Tests.antt =====
-- Two events of one signal
use luasys.Base.{
  ℕ, ◌≡◌, ◌⊎◌, refl, false, true, none, some, List, [], ◌∷◌, ◌==◌, if◌then◌else◌, arith,
}
use luasys.Signal.{SignalNumbers, Signals, gethead, signal_add, signal_del}
use luasys.Signal.Chain.{IsList, signal_add_lem, signal_del_lem}

abbrev linux : SignalNumbers
linux = record { sigint = 2; sigquit = 3; sighup = 1; sigterm = 15; sigchld = 17 }

-- The events 7 and 8 wait for signal 15.
abbrev two_events : Signals
two_events = record {
  event = λ a. record { next_object = if a == 7 then some 8 else none; is_pid = false; fd = 15 };
  events = λ i. if i == 3 then some 7 else none;
  handled = λ j. j == 15;
  nevents = 2;
}

two_events-IsList : IsList two_events 3 15 (7 ∷ 8 ∷ [])
two_events-IsList = record {
  chain = (refl, (refl, refl));
  distinct = (((λ e. omega arith), tt), (tt, tt));
  handler = refl;
}

signal_add_lem_example :
    ((s' : Signals) × (signal_add linux 9 true two_events ≡ some s')
      × IsList s' 3 15 (9 ∷ 7 ∷ 8 ∷ [])
      × (s'.nevents ≡ 3))
    ⊎ ((signal_add linux 9 true two_events ≡ none)
        × (true ≡ false)
        × (◌≡◌ {A = List ℕ} (7 ∷ 8 ∷ []) []))
unfolding gethead
signal_add_lem_example =
    signal_add_lem linux two_events 3 9 (7 ∷ 8 ∷ []) true refl two_events-IsList
      ((λ e. omega arith), ((λ e. omega arith), tt))

signal_del_lem_example :
    (s' : Signals) × (signal_del linux 2 8 two_events ≡ some s') × IsList s' 3 15 (7 ∷ [])
unfolding gethead
signal_del_lem_example =
    signal_del_lem linux two_events 3 2 8 (7 ∷ []) [] refl two_events-IsList (omega arith)
