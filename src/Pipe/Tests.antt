-- ===== src/Pipe/Tests.antt =====
-- Pipes on concrete messages.
use luasys.Base.{ℕ, ◌+◌, ◌≡◌, refl, none, List, [], ◌∷◌, arith, inl, get_or, zero, suc}
use luasys.Pipe.{Memory, Buffer, Pipe, got, put, get, take_front}
use luasys.Pipe.Ring.{IsMessage, At, Turned, Holds, straight}
use luasys.Pipe.Ring.Take.{Taken, take-Taken}
use luasys.Pipe.Put.{PutHere, put_here}
use luasys.Pipe.Put.Overwrite.{put_overwrites}
use luasys.Pipe.Get.{GetHere, get_here}

-- Messages with the contents 7, 8 and 9.
abbrev seven : List ℕ
seven = 3 ∷ 0 ∷ 7 ∷ []

abbrev eight : List ℕ
eight = 3 ∷ 0 ∷ 8 ∷ []

abbrev nine : List ℕ
nine = 3 ∷ 0 ∷ 9 ∷ []

three_bytes-IsMessage : (b : ℕ) → IsMessage (3 ∷ 0 ∷ b ∷ [])
three_bytes-IsMessage b = record { has_header = omega arith; header = refl; fits = omega arith }

three_bytes-At :
    (mem : Memory) (p b : ℕ)
    → mem (p + 0) ≡ 3
    → mem (p + 1) ≡ 0
    → mem (p + 2) ≡ b
    → At mem p (3 ∷ 0 ∷ b ∷ [])
three_bytes-At mem p b h0 h1 h2 zero lt = h0
three_bytes-At mem p b h0 h1 h2 (suc zero) lt = h1
three_bytes-At mem p b h0 h1 h2 (suc (suc zero)) lt = h2
three_bytes-At mem p b h0 h1 h2 (suc (suc (suc i))) lt = absurd (omega arith)

-- What the list says, from address 0 on.
abbrev memory : List ℕ → Memory
memory bs a = get_or bs a 0

-- "seven" then "eight" at the addresses 2 to 8
abbrev line : Buffer
line = record {
  begin = 2;
  end = 8;
  len = 20;
  next = 1;
  mem = memory (0 ∷ 0 ∷ 3 ∷ 0 ∷ 7 ∷ 3 ∷ 0 ∷ 8 ∷ []);
}

line-Holds : Holds line (seven ∷ eight ∷ [])
line-Holds = straight (record {
  laid = (
    three_bytes-IsMessage 7,
    three_bytes-At line.mem 2 7 refl refl refl,
    (three_bytes-IsMessage 8, three_bytes-At line.mem 5 8 refl refl refl, refl),
  );
  inside = omega arith;
  reset = λ h. absurd (omega arith);
  small = omega arith;
})

-- "nine" at the start, a gap of three bytes, and "seven" behind it
abbrev round : Buffer
round = record {
  begin = 6;
  end = 3;
  len = 12;
  next = 1;
  mem = memory (3 ∷ 0 ∷ 9 ∷ 0 ∷ 0 ∷ 0 ∷ 3 ∷ 0 ∷ 7 ∷ 0 ∷ 0 ∷ []);
}

round-Turned : Turned round (seven ∷ []) (nine ∷ []) 9
round-Turned = record {
  older = (three_bytes-IsMessage 7, three_bytes-At round.mem 6 7 refl refl refl, refl);
  newer = (three_bytes-IsMessage 9, three_bytes-At round.mem 0 9 refl refl refl, refl);
  behind = omega arith;
  some_newer = omega arith;
  inside = omega arith;
  not_last = omega arith;
  mark_low = refl;
  mark_high = refl;
  small = omega arith;
}

abbrev pipe_on : Buffer → Pipe
pipe_on b = record {
  nmsg = 2;
  rbuf = 1;
  wbuf = 1;
  heap = λ q. b;
  nref = 0;
  signal_on_put = 0;
  signal_on_get = 0;
  buf_size = 4096;
  buf_max_size = 4096;
  put_signals = 0;
  get_signals = 0;
}

take-Taken_example : Taken seven (eight ∷ []) (take_front line)
take-Taken_example = take-Taken line seven (eight ∷ []) line-Holds

get_here_example : GetHere seven (pipe_on line) (eight ∷ []) (get (pipe_on line))
get_here_example = get_here (pipe_on line) seven (eight ∷ []) line-Holds (omega arith)

put_here_example : PutHere nine (pipe_on line) (seven ∷ eight ∷ []) (put none nine (pipe_on line))
put_here_example =
    put_here none nine (pipe_on line) (seven ∷ eight ∷ []) line-Holds (three_bytes-IsMessage 9)
      (inl (omega arith)) (λ h. cc)

-- The message 8 fills the gap, the next one is put where 7 was, and 7 and 9 are lost.
put_overwrites_example : (get (put none nine (put none eight (pipe_on round)).1).1).0 ≡ got nine
put_overwrites_example =
    put_overwrites none none eight nine (pipe_on round) (seven ∷ []) (nine ∷ []) 9
      (three_bytes-IsMessage 8) (three_bytes-IsMessage 9) refl round-Turned refl (omega arith)
      (omega arith)
