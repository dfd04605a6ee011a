-- ===== src/Pipe/Results.antt =====
-- What the functions of a pipe answer.
use modem_modules.Base.{
  ◌≡◌, ◌⊎◌, refl, ap, ◌∙◌, arith, true, false, List, [], ◌∷◌, ret, fail, eagain, if◌then◌else◌,
}
use modem_modules.Pipe.{
  Pipe, State, Api, Notice, is_open, is_negative, lock, unlock, notify, notify_list, heard, wait,
  open_pipe, close_pipe,
}

-- The state that the last of a list of notices tells, and the given one if none does.
abbrev pub told : State → List Notice → State
told s [] = s
told s (Notice.opened ∷ ns) = told State.opened ns
told s (Notice.closed ∷ ns) = told State.closed ns
told s (Notice.receive_ready ∷ ns) = told s ns

pub state-notify_list : (p : Pipe) (ns : List Notice) → (notify_list p ns).state ≡ told p.state ns
unfolding notify_list notify
state-notify_list p [] = refl
state-notify_list p (Notice.opened ∷ ns) =
    state-notify_list (notify p Notice.opened) ns ∙ ap (λ s. told s ns) (ground arith)
state-notify_list p (Notice.closed ∷ ns) =
    state-notify_list (notify p Notice.closed) ns ∙ ap (λ s. told s ns) (ground arith)
state-notify_list p (Notice.receive_ready ∷ ns) =
    state-notify_list (notify p Notice.receive_ready) ns ∙ ap (λ s. told s ns) (ground arith)

module _ (api : Api) (p : Pipe) (ns : List Notice) where
  -- The state that `modem_pipe_open` leaves: open if the implementation opened the pipe at once, and
  -- otherwise what the last notice told that was heard while the function waited.
  abbrev pub after_open : State
  after_open =
      let opened = (api.api_open (lock p)).0.state in
      if is_open opened
      then State.opened
      else told opened (heard (unlock (api.api_open (lock p)).0) ns)

  -- `modem_pipe_open` answers the implementation's error, if there is one, and leaves its state.
  -- Otherwise it leaves the state that was heard last while it waited, or else that of the
  -- implementation, and answers 0 if that is open and -EAGAIN if it is closed.
  pub open_pipe_answer :
      ((is_negative (api.api_open (lock p)).1 ≡ true)
        × ((open_pipe api p ns).1 ≡ (api.api_open (lock p)).1)
        × ((open_pipe api p ns).0.state ≡ (api.api_open (lock p)).0.state))
      ⊎ ((is_negative (api.api_open (lock p)).1 ≡ false)
          × ((open_pipe api p ns).1 ≡ (if is_open after_open then ret 0 else fail eagain))
          × ((open_pipe api p ns).0.state ≡ after_open))
  unfolding open_pipe wait
  open_pipe_answer =
      let (p1, r) = api.api_open (lock p) in
      ground (arith, state-notify_list (unlock p1) (heard (unlock p1) ns))

  -- The state that `modem_pipe_close` leaves.
  abbrev pub after_close : State
  after_close =
      let closed = (api.api_close (lock p)).0.state in
      if is_open closed
      then told closed (heard (unlock (api.api_close (lock p)).0) ns)
      else State.closed

  -- `modem_pipe_close` answers the implementation's error, if there is one, and leaves its state.
  -- Otherwise it leaves the state that was heard last while it waited, or else that of the
  -- implementation, and answers 0 if that is closed and -EAGAIN if it is open.
  pub close_pipe_answer :
      ((is_negative (api.api_close (lock p)).1 ≡ true)
        × ((close_pipe api p ns).1 ≡ (api.api_close (lock p)).1)
        × ((close_pipe api p ns).0.state ≡ (api.api_close (lock p)).0.state))
      ⊎ ((is_negative (api.api_close (lock p)).1 ≡ false)
          × ((close_pipe api p ns).1 ≡ (if is_open after_close then fail eagain else ret 0))
          × ((close_pipe api p ns).0.state ≡ after_close))
  unfolding close_pipe wait
  close_pipe_answer =
      let (p1, r) = api.api_close (lock p) in
      ground (arith, state-notify_list (unlock p1) (heard (unlock p1) ns))
