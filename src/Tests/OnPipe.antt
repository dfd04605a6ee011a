-- ===== src/Tests/OnPipe.antt =====
-- A pipe whose implementation answers at once and lets the callers wait.
use modem_modules.Base.{◌⊎◌, false, ◌≡◌, refl, true, List, [], ◌∷◌, ret, fail, eagain}
use modem_modules.Pipe.{Pipe, State, Api, Notice, open_pipe, close_pipe}
use modem_modules.Pipe.Locking.{IsBalanced, close_pipe-unlocks_twice}
use modem_modules.Pipe.Results.{open_pipe_answer, close_pipe_answer}

abbrev slow_api : Api
slow_api = record {
  api_open = λ p. (p, ret 0);
  api_transmit = λ p xs. (p, ret 1);
  api_receive = λ p n. (p, fail eagain);
  api_close = λ p. (p, ret 0);
}

slow_api-IsBalanced : IsBalanced slow_api
slow_api-IsBalanced = record {
  open_balanced = λ p. refl;
  transmit_balanced = λ p xs. refl;
  receive_balanced = λ p n. refl;
  close_balanced = λ p. refl;
}

abbrev closed_pipe : Pipe
closed_pipe = record { has_callback = true; state = State.closed; lock_count = 0; calls = [] }

-- A pipe whose mutex the running thread holds.
abbrev held_pipe : Pipe
held_pipe = record closed_pipe { state = State.opened; lock_count = 1 }

abbrev told_opened : List Notice
told_opened = Notice.opened ∷ []

-- The wait ends without a notice, and one hold is taken away from the caller.
close_pipe-unlocks_twice_example : (close_pipe slow_api held_pipe []).0.lock_count ≡ 0
close_pipe-unlocks_twice_example =
    close_pipe-unlocks_twice slow_api slow_api-IsBalanced held_pipe []

open_pipe_answer_example :
    ((false ≡ true)
      × ((open_pipe slow_api closed_pipe told_opened).1 ≡ ret 0)
      × ((open_pipe slow_api closed_pipe told_opened).0.state ≡ State.closed))
    ⊎ ((false ≡ false)
        × ((open_pipe slow_api closed_pipe told_opened).1 ≡ ret 0)
        × ((open_pipe slow_api closed_pipe told_opened).0.state ≡ State.opened))
open_pipe_answer_example = open_pipe_answer slow_api closed_pipe told_opened

-- No notice comes in time.
close_pipe_answer_example :
    ((false ≡ true)
      × ((close_pipe slow_api held_pipe []).1 ≡ ret 0)
      × ((close_pipe slow_api held_pipe []).0.state ≡ State.opened))
    ⊎ ((false ≡ false)
        × ((close_pipe slow_api held_pipe []).1 ≡ fail eagain)
        × ((close_pipe slow_api held_pipe []).0.state ≡ State.opened))
close_pipe_answer_example = close_pipe_answer slow_api held_pipe []
