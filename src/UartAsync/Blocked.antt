-- ===== src/UartAsync/Blocked.antt =====
-- A transmission that the driver did not start.
use modem_modules.Base.{
  ap, if_both, not, ℕ, ◌<◌, ◌≡◌, refl, ◌∙◌, Bool, true, false, List, [], ◌∷◌, RingBuf, Ret, ret,
  arith, leb, length, min,
}
use modem_modules.Pipe.{is_negative}
use modem_modules.UartAsync.{
  tx_done, tx_aborted, rx_buf_request, rx_buf_released, rx_rdy, other_event, receive_buf_0,
  receive_buf_1, other_buf, UartAsync, Event, event_handler, transmit, receive, open_uart,
  close_uart, lend_buf,
}
use modem_modules.UartAsync.Keeps.{store_bytes-transmitting, receive-transmitting}

-- An event of the driver, or a call of the pipe: bytes to send, with what uart_tx answers, a read, a
-- closing, or an opening, with what uart_rx_enable answers.
pub data Op : Type 0 where
  event : Event → Op
  give : List ℕ → Ret → Op
  read : ℕ → Op
  reopen : Ret → Op
  shut : Op

-- A transmission ends, or the backend is opened.
abbrev pub is_done : Op → Bool
is_done (event Event.tx_done) = true
is_done (reopen enabled) = true
is_done _ = false

abbrev pub AreNotDone : List Op → Type 0
AreNotDone [] = Unit {0}
AreNotDone (o ∷ os) = (is_done o ≡ false) × AreNotDone os

module _ {Rb : Type 0} ⦃ring : RingBuf Rb⦄ where
  abbrev pub step : UartAsync Rb → Op → UartAsync Rb
  step u (event e) = event_handler u e
  step u (give bs started) = (transmit u bs started).0
  step u (read size) = (receive u size).0
  step u (reopen enabled) = (open_uart u enabled).0
  step u shut = close_uart u

  abbrev pub steps : UartAsync Rb → List Op → UartAsync Rb
  steps u [] = u
  steps u (o ∷ os) = steps (step u o) os

  transmit-busy :
      (u : UartAsync Rb) (bs : List ℕ) (started : Ret)
      → u.transmitting ≡ true
      → transmit u bs started ≡ (u, ret 0)
  unfolding transmit
  transmit-busy u bs started e = rw e refl

  lend_buf-transmitting : (u : UartAsync Rb) → (lend_buf u).transmitting ≡ u.transmitting
  lend_buf-transmitting u =
      if_both {A = UartAsync Rb} (λ v. v.transmitting ≡ u.transmitting) (not u.rx_buf0_used) _ _
        refl
        (if_both {A = UartAsync Rb} (λ v. v.transmitting ≡ u.transmitting) (not u.rx_buf1_used) _ _
          refl refl)

  event-transmitting :
      (u : UartAsync Rb) (e : Event)
      → is_done (event e) ≡ false
      → (event_handler u e).transmitting ≡ u.transmitting
  unfolding event_handler
  event-transmitting u tx_done d = absurd (ground (arith, d))
  event-transmitting u tx_aborted d = refl
  event-transmitting u rx_buf_request d = lend_buf-transmitting u
  event-transmitting u (rx_buf_released receive_buf_0) d = refl
  event-transmitting u (rx_buf_released receive_buf_1) d = refl
  event-transmitting u (rx_buf_released other_buf) d = refl
  event-transmitting u (rx_rdy bs) d = store_bytes-transmitting u bs
  event-transmitting u other_event d = refl

  step-transmitting :
      (u : UartAsync Rb) (o : Op)
      → is_done o ≡ false
      → u.transmitting ≡ true
      → (step u o).transmitting ≡ true
  unfolding close_uart
  step-transmitting u (event v) d e = event-transmitting u v d ∙ e
  step-transmitting u (give bs started) d e =
      ap (λ t. t.0.transmitting) (transmit-busy u bs started e) ∙ e
  step-transmitting u (read size) d e = receive-transmitting u size ∙ e
  step-transmitting u (reopen enabled) d e = absurd (ground (arith, d))
  step-transmitting u shut d e = e

  steps-transmitting :
      (u : UartAsync Rb) (os : List Op)
      → AreNotDone os
      → u.transmitting ≡ true
      → (steps u os).transmitting ≡ true
  steps-transmitting u [] d e = e
  steps-transmitting u (o ∷ os) d e =
      steps-transmitting (step u o) os d.1 (step-transmitting u o d.0 e)

  failed_start :
      (u : UartAsync Rb) (bs : List ℕ) (started : Ret)
      → u.transmitting ≡ false
      → 8 < min (length bs) u.transmit_buf_size
      → is_negative started ≡ true
      → ((transmit u bs started).0.transmitting ≡ true) × ((transmit u bs started).1 ≡ started)
  unfolding transmit
  failed_start u bs started e h f =
      let long : leb (min (length bs) u.transmit_buf_size) 8 ≡ false = ground (arith, h) in
      rw (e, long, f) (refl, refl)

  -- A backend that transmits nothing is given more than 8 bytes, its transmit buffer has room for more
  -- than 8, and uart_tx answers an error. Then modem_backend_uart_async_transmit answers the error, and
  -- from there, through any calls that send, read or close, and any events of the driver but the end of
  -- a transmission, an aborted one among them, it takes no byte: it answers 0 and changes nothing. Only
  -- an opening of the backend is left out.
  pub transmit-failed_start :
      (u : UartAsync Rb) (bs : List ℕ) (started : Ret) (os : List Op) (next : List ℕ) (later : Ret)
      → u.transmitting ≡ false
      → 8 < min (length bs) u.transmit_buf_size
      → is_negative started ≡ true
      → AreNotDone os
      → ((transmit u bs started).1 ≡ started)
        × (transmit (steps (transmit u bs started).0 os) next later
            ≡ (steps (transmit u bs started).0 os, ret 0))
  transmit-failed_start u bs started os next later e h f d =
      let failed = failed_start u bs started e h f in
      let u' = (transmit u bs started).0 in
      (failed.1, transmit-busy (steps u' os) next later (steps-transmitting u' os d failed.0))
