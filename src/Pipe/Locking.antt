-- ===== src/Pipe/Locking.antt =====
-- Who holds the mutex of a pipe when a function returns.
use modem_modules.Base.{ℕ, ◌-◌, ◌≡◌, refl, ◌∙◌, arith, Bool, List, [], ◌∷◌, if◌then◌else◌}
use modem_modules.Pipe.{
  Pipe, Api, Notice, is_open, is_negative, lock, unlock, attach, release, notify, notify_opened,
  notify_closed, notify_receive_ready, notify_list, heard, wait, open_pipe, open_async, transmit,
  receive, close_pipe, close_async,
}

lock_count-notify : (p : Pipe) (n : Notice) → (notify p n).lock_count ≡ p.lock_count
unfolding notify
lock_count-notify p Notice.opened = ground arith
lock_count-notify p Notice.closed = ground arith
lock_count-notify p Notice.receive_ready = ground arith

lock_count-notify_list :
    (p : Pipe) (ns : List Notice) → (notify_list p ns).lock_count ≡ p.lock_count
unfolding notify_list
lock_count-notify_list p [] = refl
lock_count-notify_list p (n ∷ ns) = lock_count-notify_list (notify p n) ns ∙ lock_count-notify p n

-- The functions of a pipe's implementation give the mutex back as often as they take it.
pub record IsBalanced (api : Api) : Type 0 where
  pub open_balanced : (p : Pipe) → (api.api_open p).0.lock_count ≡ p.lock_count
  pub transmit_balanced :
      (p : Pipe) (xs : List ℕ) → (api.api_transmit p xs).0.lock_count ≡ p.lock_count
  pub receive_balanced : (p : Pipe) (n : ℕ) → (api.api_receive p n).0.lock_count ≡ p.lock_count
  pub close_balanced : (p : Pipe) → (api.api_close p).0.lock_count ≡ p.lock_count

module _ (api : Api) (b : IsBalanced api) (p : Pipe) where
  pub balanced :
      (ns : List Notice) (xs : List ℕ) (n : ℕ) (callback : Bool)
      → ((open_pipe api p ns).0.lock_count ≡ p.lock_count)
        × ((open_async api p).0.lock_count ≡ p.lock_count)
        × ((transmit api p xs).0.lock_count ≡ p.lock_count)
        × ((receive api p n).0.lock_count ≡ p.lock_count)
        × ((close_async api p).0.lock_count ≡ p.lock_count)
        × ((attach p callback).lock_count ≡ p.lock_count)
        × ((release p).lock_count ≡ p.lock_count)
        × ((notify_opened p).lock_count ≡ p.lock_count)
        × ((notify_closed p).lock_count ≡ p.lock_count)
        × ((notify_receive_ready p).lock_count ≡ p.lock_count)
  unfolding open_pipe open_async transmit receive close_async attach release wait notify_opened
      notify_closed notify_receive_ready
  balanced ns xs n callback =
      let o = b.open_balanced (lock p) in
      (
        ground (
          arith,
          o,
          lock_count-notify_list (unlock (api.api_open (lock p)).0)
              (heard (unlock (api.api_open (lock p)).0) ns),
        ),
        ground (arith, o),
        ground (arith, b.transmit_balanced (lock p) xs),
        ground (arith, b.receive_balanced (lock p) n),
        ground (arith, b.close_balanced (lock p)),
        ground arith,
        ground arith,
        ground arith,
        ground arith,
        ground arith,
      )

  -- `modem_pipe_close` gives the mutex back once more than it takes it when it has waited for the
  -- pipe to close: called by a thread that holds the mutex, it takes one hold of that thread away.
  -- When it does not wait it is balanced.
  pub close_pipe-unlocks_twice :
      (ns : List Notice)
      → let r = api.api_close (lock p) in
        (close_pipe api p ns).0.lock_count ≡ (
          if is_negative r.1
          then p.lock_count
          else (if is_open r.0.state then p.lock_count - 1 else p.lock_count))
  unfolding close_pipe wait
  close_pipe-unlocks_twice ns = ground (
    arith,
    b.close_balanced (lock p),
    lock_count-notify_list (unlock (api.api_close (lock p)).0)
        (heard (unlock (api.api_close (lock p)).0) ns),
  )
