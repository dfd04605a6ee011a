-- ===== src/Cellular/Machine/Graph.antt =====
-- The diagram of the states, described on its own, and the driver's state machine as an
-- implementation of it.
use modem_modules.Base.{◌≡◌, refl, ◌∙◌, Bool, true, false, not, List, ◌∷◌, Ret, if◌then◌else◌}
use modem_modules.Pipe.{is_negative}
use modem_modules.Cellular.{
  Cellular, State, Event, Call, chat_release, ppp_attach, dlci1_pipe, dlci2_pipe, uart_pipe,
  chat_attach, cmux_attach, pipe_open,
}
use modem_modules.Cellular.Texts.{is_registered}
use modem_modules.Cellular.Machine.{
  enter, leave, enter_state, event_handler, handle_in, on_run_init_script_state_enter,
  on_run_init_script_state_leave, on_connect_cmux_state_enter, on_open_dlci1_state_enter,
  on_open_dlci1_state_leave, on_open_dlci2_state_enter, on_open_dlci2_state_leave,
  on_run_dial_script_state_enter, on_run_dial_script_state_leave, on_register_state_enter,
  on_register_state_leave, on_roaming_state_enter, on_roaming_state_leave,
  on_close_dlci2_state_enter, on_close_dlci1_state_enter, on_disconnect_cmux_state_enter,
  idle_event_handler, run_init_script_event_handler, connect_cmux_event_handler,
  open_dlci1_event_handler, open_dlci2_event_handler, run_dial_script_event_handler,
  register_event_handler, roaming_event_handler, close_dlci2_event_handler,
  close_dlci1_event_handler, disconnect_cmux_event_handler,
}
use mathlib.Core.Path.{subst}

-- The state after an event, of a modem that is registered or is not.
abbrev pub next : State → Event → Bool → State
next State.idle Event.resume registered = State.run_init_script
next State.run_init_script Event.script_success registered = State.connect_cmux
next State.connect_cmux Event.cmux_connected registered = State.open_dlci1
next State.open_dlci1 Event.dlci1_opened registered = State.open_dlci2
next State.open_dlci2 Event.dlci2_opened registered = State.run_dial_script
next State.run_dial_script Event.script_success registered = State.register
next State.register Event.script_success true = State.roaming
next State.roaming Event.suspend registered = State.close_dlci2
next State.roaming Event.script_success false = State.run_dial_script
next State.close_dlci2 Event.dlci2_closed registered = State.close_dlci1
next State.close_dlci1 Event.dlci1_closed registered = State.disconnect_cmux
next State.disconnect_cmux Event.cmux_disconnected registered = State.idle
next s e registered = s

if_same : (b : Bool) (s : State) → s ≡ (if b then s else s)
if_same true s = refl
if_same false s = refl

-- What holds of the driver behind a call that may fail.
pub record Ends {Rb : Type 0} (P : Cellular Rb → Type 0) (r : Cellular Rb × Ret) : Type 0 where
  pub holds : P r.0

pub ends :
    {Rb : Type 0} (P : Cellular Rb → Type 0) (d : Cellular Rb) (r : Ret) → P d → Ends P (d, r)
ends P d r p = record { holds = p }

pub if-Ends :
    {Rb : Type 0} (P : Cellular Rb → Type 0) (b : Bool) (x y : Cellular Rb × Ret)
    → Ends P x
    → Ends P y
    → Ends P (if b then x else y)
if-Ends P true x y p q = p
if-Ends P false x y p q = q

module _ {Rb : Type 0} (answers : List Call → Call → Ret) where
  abbrev Is : State → Cellular Rb → Type 0
  Is s d = d.state ≡ s

  pub enter-Is : (s : State) (d : Cellular Rb) → Ends (Is d.state) (enter answers s d)
  unfolding on_run_init_script_state_enter on_connect_cmux_state_enter on_open_dlci1_state_enter
      on_open_dlci2_state_enter on_run_dial_script_state_enter on_register_state_enter
      on_roaming_state_enter on_close_dlci2_state_enter on_close_dlci1_state_enter
      on_disconnect_cmux_state_enter
  enter-Is State.run_init_script d =
      if-Ends _ (is_negative (answers d.calls (pipe_open uart_pipe))) _ _ (ends _ _ _ refl) (
        if-Ends _ (is_negative (answers (pipe_open uart_pipe ∷ d.calls) (chat_attach uart_pipe))) _
          _ (ends _ _ _ refl) (ends _ _ _ refl))
  enter-Is State.connect_cmux d =
      if-Ends _ (is_negative (answers d.calls (cmux_attach uart_pipe))) _ _ (ends _ _ _ refl)
        (ends _ _ _ refl)
  enter-Is State.run_dial_script d =
      if-Ends _ (is_negative (answers d.calls (chat_attach dlci2_pipe))) _ _ (ends _ _ _ refl)
        (ends _ _ _ refl)
  enter-Is State.register d =
      if-Ends _ (is_negative (answers d.calls (chat_attach dlci1_pipe))) _ _ (ends _ _ _ refl)
        (ends _ _ _ refl)
  enter-Is _ d = ends _ _ _ refl

  pub leave-Is : (s : State) (d : Cellular Rb) → Ends (Is d.state) (leave answers s d)
  unfolding on_run_init_script_state_leave on_open_dlci1_state_leave on_open_dlci2_state_leave
      on_run_dial_script_state_leave on_register_state_leave on_roaming_state_leave
  leave-Is State.idle d = ends _ _ _ refl
  leave-Is _ d = ends _ _ _ refl

  -- The packet interface does not take the pipe.
  abbrev pub is_held : State → Cellular Rb → Bool
  is_held State.run_dial_script d =
      is_negative (answers (chat_release ∷ d.calls) (ppp_attach dlci2_pipe))
  is_held _ d = false

  pub leave-is_held :
      (s : State) (d : Cellular Rb) → is_negative (leave answers s d).1 ≡ is_held s d
  unfolding on_run_init_script_state_leave on_open_dlci1_state_leave on_open_dlci2_state_leave
      on_run_dial_script_state_leave on_register_state_leave on_roaming_state_leave
  leave-is_held State.idle d = refl
  leave-is_held _ d = refl

  entered :
      (d : Cellular Rb) (s : State) (b : Bool)
      → is_held d.state d ≡ b
      → (enter_state answers d s).state ≡ (if b then d.state else s)
  unfolding enter_state
  entered d s true e = rw (leave-is_held d.state d, e) ((leave-Is d.state d).holds)
  entered d s false e =
      rw (leave-is_held d.state d, e)
        (enter-Is s (record ((leave answers d.state d).0) { state = s })).holds

  module _ (d : Cellular Rb) where
    moves :
        (s s' : State)
        → d.state ≡ s
        → (enter_state answers d s').state ≡ (if is_held s d then s else s')
    moves s s' same =
        subst (λ x. (enter_state answers d s').state ≡ (if is_held x d then x else s')) same
          (entered d s' (is_held d.state d) refl)

    register_moves :
        (b : Bool)
        → d.state ≡ State.register
        → (if b then enter_state answers d State.roaming else d).state
          ≡ next State.register Event.script_success b
    register_moves true same = moves State.register State.roaming same
    register_moves false same = same

    roaming_moves :
        (b : Bool)
        → d.state ≡ State.roaming
        → (if not b then enter_state answers d State.run_dial_script else d).state
          ≡ next State.roaming Event.script_success b
    roaming_moves true same = same
    roaming_moves false same = moves State.roaming State.run_dial_script same

    handle_in-next :
        (s : State) (e : Event)
        → d.state ≡ s
        → (handle_in answers s d e).state ≡ (if is_held s d then s else next s e (is_registered d))
    unfolding idle_event_handler run_init_script_event_handler connect_cmux_event_handler
        open_dlci1_event_handler open_dlci2_event_handler run_dial_script_event_handler
        register_event_handler roaming_event_handler close_dlci2_event_handler
        close_dlci1_event_handler disconnect_cmux_event_handler
    handle_in-next State.idle Event.resume same = moves _ _ same
    handle_in-next State.run_init_script Event.script_success same = moves _ _ same
    handle_in-next State.connect_cmux Event.cmux_connected same = moves _ _ same
    handle_in-next State.open_dlci1 Event.dlci1_opened same = moves _ _ same
    handle_in-next State.open_dlci2 Event.dlci2_opened same = moves _ _ same
    handle_in-next State.run_dial_script Event.script_success same = moves _ _ same
    handle_in-next State.run_dial_script _ same =
        same ∙ if_same (is_held State.run_dial_script d) State.run_dial_script
    handle_in-next State.register Event.script_success same = register_moves (is_registered d) same
    handle_in-next State.roaming Event.script_success same = roaming_moves (is_registered d) same
    handle_in-next State.roaming Event.suspend same = moves _ _ same
    handle_in-next State.close_dlci2 Event.dlci2_closed same = moves _ _ same
    handle_in-next State.close_dlci1 Event.dlci1_closed same = moves _ _ same
    handle_in-next State.disconnect_cmux Event.cmux_disconnected same = moves _ _ same
    handle_in-next _ _ same = same

  -- The driver follows the diagram: after an event, the state is the next one of the diagram, for a
  -- modem that is registered or not, whatever the other modules answer. The one exception is that it
  -- stays where it is if the packet interface does not take the pipe of the second channel when the
  -- driver would leave the dial script.
  pub event_handler-next :
      (d : Cellular Rb) (e : Event)
      → (event_handler answers d e).state
        ≡ (if is_held d.state d then d.state else next d.state e (is_registered d))
  unfolding event_handler
  event_handler-next d e = handle_in-next d d.state e refl
