-- ===== src/Signal.antt =====
-- event/signal.c on POSIX without kqueue: the events that wait for a signal, in one list for each
-- of the signals that the library knows. The numbers of these come from the operating system, and
-- so does whether a handler can be set. Of the array `g_Signal.events` the list heads are kept by
-- index.
pub mod Chain
mod Tests
use luasys.Base.{ℕ, zero, suc, ◌+◌, Bool, true, false, Option, none, some, ◌==◌, if◌then◌else◌}

-- EVQ_SIGINT and the others
pub record SignalNumbers : Type 0 where
  pub sigint : ℕ
  pub sigquit : ℕ
  pub sighup : ℕ
  pub sigterm : ℕ
  pub sigchld : ℕ

-- `struct event`: the fields that are used here, with EVENT_PID of the flags
pub record SignalEvent : Type 0 where
  pub next_object : Option ℕ
  pub is_pid : Bool
  pub fd : ℕ

-- The events by address, the heads of the lists, and the signals whose handler is `signal_handler`
pub record Signals : Type 0 where
  pub event : ℕ → SignalEvent
  pub events : ℕ → Option ℕ
  pub handled : ℕ → Bool
  pub nevents : ℕ

-- `signal_gethead`
unfoldable pub gethead : SignalNumbers → ℕ → Option ℕ
gethead n signo =
    if signo == n.sigint
    then some 0
    else (if signo == n.sigquit
        then some 1
        else (if signo == n.sighup
            then some 2
            else (if signo == n.sigterm
                then some 3
                else (if signo == n.sigchld then some 4 else none))))

abbrev pub signo_of : SignalNumbers → SignalEvent → ℕ
signo_of n e = if e.is_pid then n.sigchld else e.fd

abbrev pub set_next_object : ℕ → Option ℕ → Signals → Signals
set_next_object a o s = record s {
  event = λ b. if b == a then record (s.event a) { next_object = o } else s.event b;
}

abbrev pub set_head : ℕ → Option ℕ → Signals → Signals
set_head i o s = record s { events = λ j. if j == i then o else s.events j }

-- `signal_set`, with the handler of the library or the default one
abbrev pub set_handler : ℕ → Bool → Signals → Signals
set_handler signo h s = record s { handled = λ j. if j == signo then h else s.handled j }

-- `signal_add`; none is the result -1.
unfoldable pub signal_add : SignalNumbers → (ev : ℕ) → (set_ok : Bool) → Signals → Option Signals
unfolding gethead
signal_add n ev set_ok s =
    let signo = signo_of n (s.event ev) in
    elim (gethead n signo) [
      | none ↦ none
      | some i ↦ elim (s.events i) [
        | some e ↦ some (record (set_head i (some ev) (set_next_object ev (some e) s)) {
          nevents = s.nevents + 1;
        })
        | none ↦
            if set_ok
            then some
                (record (set_head i (some ev)
                  (set_next_object ev none (set_handler signo true s))) { nevents = s.nevents + 1 })
            else none
      ]
    ]

-- The loop of `signal_del`, from event `a` on; none is a read through NULL.
unfoldable pub unlink_after : ℕ → (a ev : ℕ) → Signals → Option Signals
unlink_after zero a ev s = none
unlink_after (suc f) a ev s = elim (s.event a).next_object [
  | none ↦ none
  | some b ↦
      let rest = unlink_after f b ev s in
      if b == ev then some (set_next_object a (s.event ev).next_object s) else rest
]

-- `signal_del`; the default handler can be set.
unfoldable pub signal_del : SignalNumbers → (fuel ev : ℕ) → Signals → Option Signals
unfolding gethead unlink_after
signal_del n f ev s =
    let signo = signo_of n (s.event ev) in
    elim (gethead n signo) [
      | none ↦ none
      | some i ↦ elim (s.events i) [
        | none ↦ none
        | some e ↦
            let next = (s.event ev).next_object in
            let s1 = set_head i next s in
            let rest = unlink_after f e ev s in
            if e == ev
            then some (elim next [ none ↦ set_handler signo false s1 | some b ↦ s1 ])
            else rest
      ]
    ]
