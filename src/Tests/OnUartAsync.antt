-- ===== src/Tests/OnUartAsync.antt =====
-- A backend that lends both receive buffers, and one whose transmission does not start.
use modem_modules.Base.{
  ◌+◌, min, length, ℕ, ◌<◌, ◌≡◌, refl, false, List, [], ◌∷◌, ret, fail, ebusy, arith,
}
use modem_modules.UartAsync.{
  UartAsync, init, open_uart, close_uart, transmit, event_handler, receive, receive_buf_0,
  receive_buf_1, rx_buf_request, rx_buf_released, rx_rdy, tx_aborted,
}
use modem_modules.UartAsync.Blocked.{
  Op, event, give, read, reopen, shut, steps, transmit-failed_start,
}
use modem_modules.UartAsync.Lending.{AreHeld, IsLent, all_backs, steps-IsLent}
use modem_modules.Tests.Instances.{Buffer, empty_buffer, buffer_ring}

abbrev nine : List ℕ
nine = 1 ∷ 2 ∷ 3 ∷ 4 ∷ 5 ∷ 6 ∷ 7 ∷ 8 ∷ 9 ∷ []

abbrev opened : UartAsync Buffer
opened = (open_uart (init 16 (0 ∷ nine) (empty_buffer 4) (empty_buffer 4)) (ret 0)).0

abbrev ops : List Op
ops =
    event rx_buf_request
    ∷ event (rx_rdy (1 ∷ 2 ∷ []))
    ∷ event (rx_buf_released receive_buf_0)
    ∷ read 1
    ∷ event rx_buf_request
    ∷ give (1 ∷ []) (ret 0)
    ∷ shut
    ∷ event (rx_buf_released receive_buf_0)
    ∷ event (rx_buf_released receive_buf_1)
    ∷ reopen (ret 0)
    ∷ []

opened-IsLent : IsLent opened 0 0
unfolding init open_uart
opened-IsLent = record { lent_0 = refl; lent_1 = refl }

ops-AreHeld : AreHeld opened 0 0 ops
unfolding init open_uart close_uart event_handler receive transmit
ops-AreHeld =
    let held : 0 < 1 = omega arith in
    let held_again : 1 < 2 = omega arith in
    (tt, (tt, (held, (tt, (tt, (tt, (tt, (held_again, (held, ((refl, refl, refl), tt))))))))))

steps-IsLent_example :
    IsLent (steps opened ops) (0 + all_backs receive_buf_0 ops) (0 + all_backs receive_buf_1 ops)
steps-IsLent_example = steps-IsLent opened ops 0 0 ops-AreHeld opened-IsLent

opened-idle : opened.transmitting ≡ false
unfolding init open_uart
opened-idle = refl

opened-long : 8 < min (length nine) opened.transmit_buf_size
unfolding init open_uart
opened-long = let long : 8 < 9 = omega arith in long

transmit-failed_start_example :
    ((transmit opened nine (fail ebusy)).1 ≡ fail ebusy)
    × (transmit
          (steps (transmit opened nine (fail ebusy)).0 (event tx_aborted ∷ shut ∷ []))
          nine
          (ret 0)
        ≡ (steps (transmit opened nine (fail ebusy)).0 (event tx_aborted ∷ shut ∷ []), ret 0))
transmit-failed_start_example =
    transmit-failed_start opened nine (fail ebusy) (event tx_aborted ∷ shut ∷ []) nine (ret 0)
      opened-idle opened-long refl (refl, (refl, tt))
