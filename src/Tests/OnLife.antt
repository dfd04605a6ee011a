-- ===== src/Tests/OnLife.antt =====
-- A multiplexer that is set up and asked to connect.
use modem_modules.Base.{◌≡◌, refl, true, false, some, [], ◌∷◌, ret, fail, ealready, ◌⊎◌, inr}
use modem_modules.Cmux.{Cmux, State, EventBit, DlciState}
use modem_modules.Cmux.Channel.{dlci_init, pipe_api_transmit}
use modem_modules.Cmux.Work.{init, attach, connect, disconnect, connect_async}
use modem_modules.Cmux.Life.{is_posted, Step, Reached}
use modem_modules.Cmux.Life.Reach.{
  Reached-IsConsistent, disconnected_sends_nothing, answers_already,
}
use modem_modules.Tests.Instances.{Buffer, empty_buffer, buffer_ring, crc8_rohc}

abbrev new_cmux : Cmux Buffer
new_cmux = init true (0 ∷ 0 ∷ 0 ∷ 0 ∷ []) 4 (empty_buffer 64)

abbrev with_channel : Cmux Buffer
with_channel = dlci_init new_cmux 1 (empty_buffer 8)

with_channel-Reached : Reached with_channel
with_channel-Reached =
    Reached.then (Reached.starts true (0 ∷ 0 ∷ 0 ∷ 0 ∷ []) 4 (empty_buffer 64))
      (Step.adds 1 (empty_buffer 8))

abbrev asked_to_connect : Cmux Buffer
asked_to_connect = (connect_async (attach with_channel) false).0

asked_to_connect-Reached : Reached asked_to_connect
asked_to_connect-Reached =
    Reached.then (Reached.then with_channel-Reached Step.attaches) (Step.asks_connect false)

Reached-IsConsistent_example :
    (asked_to_connect.flow_control_on ≡ false)
    × (is_posted EventBit.connected_bit asked_to_connect.calls ≡ false)
    × (is_posted EventBit.disconnected_bit asked_to_connect.calls ≡ true)
unfolding init dlci_init attach connect_async
Reached-IsConsistent_example = Reached-IsConsistent asked_to_connect asked_to_connect-Reached

disconnected_sends_nothing_example :
    pipe_api_transmit asked_to_connect 0 (1 ∷ 2 ∷ []) ≡ some (asked_to_connect, ret 0)
unfolding init dlci_init attach connect_async
disconnected_sends_nothing_example =
    disconnected_sends_nothing asked_to_connect asked_to_connect-Reached 0
      (record { dlci_address = 1; receive_rb = empty_buffer 8; dlci_state = DlciState.closed })
      (1 ∷ 2 ∷ []) refl refl

answers_already_example :
    ((State.disconnected ≡ State.connected)
      × (connect is_posted with_channel false attach ≡ (with_channel, fail ealready)))
    ⊎ ((State.disconnected ≡ State.disconnected)
        × (disconnect is_posted with_channel false attach ≡ (with_channel, fail ealready)))
unfolding init dlci_init
answers_already_example = answers_already with_channel with_channel-Reached false attach (inr refl)
