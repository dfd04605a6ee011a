-- ===== src/Tests/OnCellular.antt =====
-- A driver whose other modules answer all calls without an error.
use modem_modules.Base.{ℕ, ◌≡◌, refl, List, [], ◌∷◌, Ret, ret, arith, replicate}
use modem_modules.Cellular.{Cellular, State, Event, Call, carrier_on, start_timer}
use modem_modules.Cellular.Texts.{chat_on_imei, chat_on_cgmm, chat_on_creg, chat_on_cgatt}
use modem_modules.Cellular.Texts.Sizes.{IsSized, callbacks-IsSized}
use modem_modules.Cellular.Machine.{event_handler, handle_events}
use modem_modules.Cellular.Machine.Graph.{event_handler-next}
use modem_modules.Cellular.Machine.Trace.{IsIn}
use modem_modules.Cellular.Machine.Trace.Kept.{event_handler-IsIn}
use modem_modules.Cellular.Queue.{event_dispatch_handler}
use modem_modules.Cellular.Queue.Order.{
  delegate_events, taken, event_dispatch_handler-delegate_events,
}
use modem_modules.Cellular.Scripts.{codes}
use modem_modules.Tests.Instances.{Buffer, empty_buffer, buffer_ring}

abbrev silent : List Call → Call → Ret
silent ks k = ret 0

abbrev idle_driver : Cellular Buffer
idle_driver = record {
  imei = replicate 15 0;
  hwinfo = replicate 64 0;
  access_tech = 0;
  registration_status = 0;
  packet_service_attached = 0;
  state = State.idle;
  event_rb = empty_buffer 8;
  calls = [];
}

abbrev roaming_driver : Cellular Buffer
roaming_driver = record idle_driver {
  registration_status = 5;
  packet_service_attached = 1;
  state = State.roaming;
  calls = carrier_on ∷ start_timer 4 ∷ [];
}

event_handler-next_example :
    (event_handler silent roaming_driver Event.suspend).state ≡ State.close_dlci2
event_handler-next_example = event_handler-next silent roaming_driver Event.suspend

roaming-IsIn : IsIn State.roaming roaming_driver
roaming-IsIn = record {
  carrier = refl;
  timer = λ e. absurd (ground (arith, e));
  watching1 = refl;
  watching2 = refl;
}

event_handler-IsIn_example :
    IsIn
      (event_handler silent roaming_driver Event.suspend).state
      (event_handler silent roaming_driver Event.suspend)
event_handler-IsIn_example = event_handler-IsIn silent roaming_driver roaming-IsIn Event.suspend

event_dispatch_handler-delegate_events_example :
    event_dispatch_handler silent
      (delegate_events idle_driver (Event.resume ∷ Event.script_success ∷ []))
    ≡ handle_events silent
        (taken silent (delegate_events idle_driver (Event.resume ∷ Event.script_success ∷ [])))
        (Event.resume ∷ Event.script_success ∷ [])
event_dispatch_handler-delegate_events_example =
    event_dispatch_handler-delegate_events silent idle_driver []
      (Event.resume ∷ Event.script_success ∷ []) refl (omega arith) (omega arith)

idle-IsSized : IsSized idle_driver
idle-IsSized = record {
  imei_size = refl;
  hwinfo_size = refl;
  hwinfo_end = refl;
  tech_byte = omega arith;
  status_byte = omega arith;
  attached_byte = omega arith;
}

abbrev imei_line : List (List ℕ)
imei_line = [] ∷ codes "490154203237518" ∷ []

callbacks-IsSized_example :
    IsSized (chat_on_imei idle_driver imei_line)
    × IsSized (chat_on_cgmm idle_driver imei_line)
    × IsSized (chat_on_creg idle_driver imei_line)
    × IsSized (chat_on_cgatt idle_driver imei_line)
callbacks-IsSized_example = callbacks-IsSized idle_driver idle-IsSized imei_line
