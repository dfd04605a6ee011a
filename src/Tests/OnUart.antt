-- ===== src/Tests/OnUart.antt =====
-- A backend whose older receive buffer is read to its end while two interrupts bring bytes, and one
-- that sends.
use modem_modules.Base.{
  ℕ, ◌<◌, ◌≤◌, ◌≡◌, refl, ◌++◌, List, [], ◌∷◌, Option, some, none, false, arith, take,
}
use modem_modules.Uart.{
  Uart, receive, swap, init, transmit, irq_handler_transmit_ready, irq_handler_receive_ready,
}
use modem_modules.Uart.Receive.{waiting, AreCalm}
use modem_modules.Uart.Reading.{came, first_read, receive-waiting}
use modem_modules.Uart.Transmit.{Turn, all_accepted, all_sent}
use modem_modules.Tests.Instances.{Buffer, empty_buffer, buffer_ring}

abbrev busy : Uart Buffer
busy = record {
  receive_rdb_0 = record { held = 3 ∷ []; free = 4 };
  receive_rdb_1 = record { held = 1 ∷ 2 ∷ []; free = 4 };
  receive_rdb_used = false;
  transmit_rb = empty_buffer 8;
  transmit_buf_len = 0;
  transmit_buf_put_limit = 6;
  calls = [];
}

abbrev bytes : List ℕ → ℕ → Option (List ℕ)
bytes bs n = some (take n bs)

abbrev early : List (ℕ → Option (List ℕ))
early = bytes (4 ∷ []) ∷ []

abbrev late : List (ℕ → Option (List ℕ))
late = bytes (5 ∷ 6 ∷ []) ∷ []

late-AreCalm : AreCalm (swap (first_read busy 3 early)) late
unfolding irq_handler_receive_ready
late-AreCalm =
    let room : 0 < 6 = omega arith in
    let honest : 2 ≤ 6 = omega arith in (record { room = room; honest = honest }, tt)

receive-waiting_example :
    (receive busy 3 early late).1 ++ waiting (receive busy 3 early late).0
    ≡ waiting busy ++ came busy 3 early late
receive-waiting_example =
    receive-waiting busy 3 early late (record { room = omega arith; honest = omega arith }, tt)
      late-AreCalm

reads_in_order : (receive busy 3 early late).1 ≡ 1 ∷ 2 ∷ 3 ∷ []
unfolding receive irq_handler_receive_ready
reads_in_order = refl

abbrev new_uart : Uart Buffer
new_uart = init (empty_buffer 4) (empty_buffer 4) (empty_buffer 8) 8

abbrev some_turns : List Turn
some_turns =
    Turn.give (1 ∷ 2 ∷ 3 ∷ []) ∷ Turn.fill (some 2) ∷ Turn.give (4 ∷ []) ∷ Turn.fill none ∷ []

sends_in_order : all_sent new_uart some_turns ≡ 1 ∷ 2 ∷ []
unfolding init transmit irq_handler_transmit_ready
sends_in_order = refl

accepts_all : all_accepted new_uart some_turns ≡ 1 ∷ 2 ∷ 3 ∷ 4 ∷ []
unfolding init transmit irq_handler_transmit_ready
accepts_all = refl
