-- ===== src/Poll/Tests.antt =====
-- The round over the result of `poll` at a concrete input.
use luasys.Base.{◌≡◌, refl, arith, true, false, inl, some, [], ◌∷◌, ◌==◌, if◌then◌else◌}
use luasys.Poll.{Polls, scan}
use luasys.Poll.Scan.{Single, Unvisited, Roomy, readies, scan-results}

-- Event 10 at place 1 is of one shot, event 20 at place 2 is not; both can be read.
abbrev two_polls : Polls
two_polls = record {
  nevents = 2;
  npolls = 3;
  max_polls = 64;
  events = λ k. if k == 2 then 20 else 10;
  fdset = λ k. record {
    fd = k;
    reads = true;
    revents = record { pollin = true; pollout = false; pollerr = false; pollhup = false };
  };
  event = λ x. record {
    fd = 0;
    index = if x == 20 then 2 else 1;
    read = true;
    write = false;
    oneshot = x == 10;
    active = false;
    read_res = false;
    write_res = false;
    eof_res = false;
    deleted = false;
  };
}

two-Single : Single 2 1 two_polls
two-Single j k a b c e = ground (arith, e)

two-Unvisited : Unvisited two_polls two_polls 1 2
two-Unvisited k a b = (refl, refl, refl, ground arith)

two-Roomy : Roomy two_polls 2
two-Roomy = (omega arith, omega arith, inl (omega arith))

scan-results_example : readies (scan 2 1 2 two_polls []) ≡ some (20 ∷ 10 ∷ [])
scan-results_example = scan-results 2 1 two_polls two_polls [] two-Single two-Unvisited two-Roomy
