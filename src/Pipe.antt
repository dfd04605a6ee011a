-- ===== src/Pipe.antt =====
-- subsys/modem/modem_pipe.c and include/zephyr/modem/pipe.h. `lock_count` is how often the running
-- thread holds the recursive mutex `lock`. The callback of a pipe is an entry of `calls`, latest
-- first. `Api` is the implementation of a pipe, which is another module's; `Notice` is a call of a
-- notify function that another thread makes while k_condvar_wait waits.
pub mod Locking
pub mod Results
use modem_modules.Base.{
  ℕ, ◌+◌, ◌-◌, Bool, true, false, List, [], ◌∷◌, Ret, ret, fail, negative, eperm, eagain, ◌==◌,
  if◌then◌else◌,
}

pub data State : Type 0 where
  closed opened : State

pub data Event : Type 0 where
  opened_event receive_ready_event closed_event : Event

pub record Pipe : Type 0 where
  pub has_callback : Bool
  pub state : State
  pub lock_count : ℕ
  pub calls : List Event

-- struct modem_pipe_api
pub record Api : Type 0 where
  pub api_open : Pipe → Pipe × Ret
  pub api_transmit : Pipe → List ℕ → Pipe × Ret
  pub api_receive : Pipe → ℕ → Pipe × Ret
  pub api_close : Pipe → Pipe × Ret

pub data Notice : Type 0 where
  opened closed receive_ready : Notice

abbrev pub is_open : State → Bool
is_open State.opened = true
is_open State.closed = false

abbrev pub is_negative : Ret → Bool
is_negative (ret n) = false
is_negative (fail e) = true
is_negative (negative n) = true

-- k_mutex_lock and k_mutex_unlock; an unlock of a mutex that is not held has no effect
abbrev pub lock : Pipe → Pipe
lock p = record p { lock_count = p.lock_count + 1 }

abbrev pub unlock : Pipe → Pipe
unlock p = record p { lock_count = p.lock_count - 1 }

abbrev raise : Event → Pipe → Pipe
raise e p = if p.has_callback then record p { calls = e ∷ p.calls } else p

-- `modem_pipe_init`
pub init : Pipe
init = record { has_callback = false; state = State.closed; lock_count = 0; calls = [] }

-- `modem_pipe_attach`
pub attach : Pipe → Bool → Pipe
attach p callback = unlock (record (lock p) { has_callback = callback })

-- `modem_pipe_release`
pub release : Pipe → Pipe
release p = unlock (record (lock p) { has_callback = false })

-- `modem_pipe_notify_opened`
pub notify_opened : Pipe → Pipe
notify_opened p = unlock (raise Event.opened_event (record (lock p) { state = State.opened }))

-- `modem_pipe_notify_closed`
pub notify_closed : Pipe → Pipe
notify_closed p = unlock (raise Event.closed_event (record (lock p) { state = State.closed }))

-- `modem_pipe_notify_receive_ready`
pub notify_receive_ready : Pipe → Pipe
notify_receive_ready p = unlock (raise Event.receive_ready_event (lock p))

pub notify : Pipe → Notice → Pipe
unfolding notify_opened notify_closed notify_receive_ready
notify p Notice.opened = notify_opened p
notify p Notice.closed = notify_closed p
notify p Notice.receive_ready = notify_receive_ready p

pub notify_list : Pipe → List Notice → Pipe
unfolding notify
notify_list p [] = p
notify_list p (n ∷ ns) = notify_list (notify p n) ns

-- The notices that other threads can give: they need the mutex.
abbrev pub heard : Pipe → List Notice → List Notice
heard p ns = if p.lock_count == 0 then ns else []

-- k_condvar_wait: the mutex is given back once while other threads notify, and taken again.
pub wait : Pipe → List Notice → Pipe
unfolding notify_list
wait p ns = lock (notify_list (unlock p) (heard (unlock p) ns))

module _ (api : Api) where
  -- `modem_pipe_open`
  pub open_pipe : Pipe → List Notice → Pipe × Ret
  unfolding wait
  open_pipe p ns =
      let (p1, r) = api.api_open (lock p) in
      if is_negative r
      then (unlock p1, r)
      else (if is_open p1.state
          then (unlock p1, ret 0)
          else (let p2 = wait p1 ns in
              (unlock p2, if is_open p2.state then ret 0 else fail eagain)))

  -- `modem_pipe_open_async`
  pub open_async : Pipe → Pipe × Ret
  open_async p = let (p1, r) = api.api_open (lock p) in (unlock p1, r)

  -- `modem_pipe_transmit`
  pub transmit : Pipe → List ℕ → Pipe × Ret
  transmit p buf =
      if is_open p.state
      then (let (p1, r) = api.api_transmit (lock p) buf in (unlock p1, r))
      else (unlock (lock p), fail eperm)

  -- `modem_pipe_receive`
  pub receive : Pipe → ℕ → Pipe × Ret
  receive p size =
      if is_open p.state
      then (let (p1, r) = api.api_receive (lock p) size in (unlock p1, r))
      else (unlock (lock p), fail eperm)

  -- `modem_pipe_close`, with the mutex unlocked twice behind the wait
  pub close_pipe : Pipe → List Notice → Pipe × Ret
  unfolding wait
  close_pipe p ns =
      let (p1, r) = api.api_close (lock p) in
      if is_negative r
      then (unlock p1, r)
      else (if is_open p1.state
          then (let p2 = wait p1 ns in
              (unlock (unlock p2), if is_open p2.state then fail eagain else ret 0))
          else (unlock p1, ret 0))

  -- `modem_pipe_close_async`
  pub close_async : Pipe → Pipe × Ret
  close_async p = let (p1, r) = api.api_close (lock p) in (unlock p1, r)
