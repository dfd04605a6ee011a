-- ===== src/Cellular/Queue.antt =====
-- The events of modem_cellular.c: the callbacks that other modules call put them into the ring buffer,
-- and a work item of the system work queue takes them out.
pub mod Order
use modem_modules.Base.{ℕ, List, [], ◌∷◌, Option, none, some, Ret, RingBuf, replicate, get_elem?}
use modem_modules.Pipe as Pipe
use modem_modules.Cmux as Cmux
use modem_modules.Chat.{ScriptResult}
use modem_modules.Cellular.{
  Cellular, State, Event, Call, call, submit_dispatch, uart_init, cmux_init, chat_init, dlci_init,
}
use modem_modules.Cellular.Machine.{event_handler}

-- The numbers of enum modem_cellular_event.
abbrev pub code : Event → ℕ
code Event.resume = 0
code Event.suspend = 1
code Event.script_success = 2
code Event.script_failed = 3
code Event.cmux_connected = 4
code Event.dlci1_opened = 5
code Event.dlci1_closed = 6
code Event.dlci2_opened = 7
code Event.dlci2_closed = 8
code Event.cmux_disconnected = 9
code Event.timeout = 10

abbrev pub events : List Event
events =
    Event.resume ∷ Event.suspend ∷ Event.script_success ∷ Event.script_failed ∷ Event.cmux_connected
    ∷ Event.dlci1_opened ∷ Event.dlci1_closed ∷ Event.dlci2_opened ∷ Event.dlci2_closed
    ∷ Event.cmux_disconnected ∷ Event.timeout ∷ []

-- The cast of a byte to the enum; no state handles another number.
abbrev pub event_of : ℕ → Option Event
event_of b = get_elem? events b

module _ {Rb : Type 0} ⦃ring : RingBuf Rb⦄ where
  -- `modem_cellular_delegate_event`
  unfoldable pub delegate_event : Cellular Rb → Event → Cellular Rb
  delegate_event d e =
      call submit_dispatch (record d { event_rb = ring.put d.event_rb (code e ∷ []) })

  unfoldable pub dlci1_pipe_handler : Cellular Rb → Pipe.Event → Cellular Rb
  unfolding delegate_event
  dlci1_pipe_handler d Pipe.opened_event = delegate_event d Event.dlci1_opened
  dlci1_pipe_handler d Pipe.closed_event = delegate_event d Event.dlci1_closed
  dlci1_pipe_handler d Pipe.receive_ready_event = d

  unfoldable pub dlci2_pipe_handler : Cellular Rb → Pipe.Event → Cellular Rb
  unfolding delegate_event
  dlci2_pipe_handler d Pipe.opened_event = delegate_event d Event.dlci2_opened
  dlci2_pipe_handler d Pipe.closed_event = delegate_event d Event.dlci2_closed
  dlci2_pipe_handler d Pipe.receive_ready_event = d

  unfoldable pub chat_callback_handler : Cellular Rb → ScriptResult → Cellular Rb
  unfolding delegate_event
  chat_callback_handler d ScriptResult.success = delegate_event d Event.script_success
  chat_callback_handler d _ = delegate_event d Event.script_failed

  unfoldable pub cmux_handler : Cellular Rb → Cmux.Event → Cellular Rb
  unfolding delegate_event
  cmux_handler d Cmux.connected_event = delegate_event d Event.cmux_connected
  cmux_handler d Cmux.disconnected_event = delegate_event d Event.cmux_disconnected

  unfoldable pub timeout_handler : Cellular Rb → Cellular Rb
  unfolding delegate_event
  timeout_handler d = delegate_event d Event.timeout

  -- `modem_cellular_init`; `rb` is an empty ring buffer of eight bytes
  unfoldable pub init : Rb → Cellular Rb
  unfolding delegate_event
  init rb =
      delegate_event
        (record {
          imei = replicate 15 0;
          hwinfo = replicate 64 0;
          access_tech = 0;
          registration_status = 0;
          packet_service_attached = 0;
          state = State.idle;
          event_rb = rb;
          calls = chat_init ∷ dlci_init 2 ∷ dlci_init 1 ∷ cmux_init ∷ uart_init ∷ [];
        })
        Event.resume

module _ {Rb : Type 0} ⦃ring : RingBuf Rb⦄ (answers : List Call → Call → Ret) where
  abbrev pub handle_byte : Cellular Rb → Option Event → Cellular Rb
  handle_byte d none = d
  handle_byte d (some e) = event_handler answers d e

  abbrev pub handle_bytes : Cellular Rb → List ℕ → Cellular Rb
  handle_bytes d [] = d
  handle_bytes d (b ∷ bs) = handle_bytes (handle_byte d (event_of b)) bs

  -- `modem_cellular_event_dispatch_handler`
  unfoldable pub event_dispatch_handler : Cellular Rb → Cellular Rb
  event_dispatch_handler d =
      handle_bytes (record d { event_rb = ring.consume d.event_rb 8 }) (ring.get d.event_rb 8)
