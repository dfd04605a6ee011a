-- ===== src/Cellular/Machine.antt =====
-- The state machine of modem_cellular.c. `answers` is what another module returns for a call, after
-- the calls before it.
pub mod Graph
pub mod Trace
use modem_modules.Base.{
  ℕ, Bool, true, false, not, List, [], ◌∷◌, Ret, ret, fail, eagain, if◌then◌else◌, ◌==◌,
}
use modem_modules.Pipe.{is_negative}
use modem_modules.Cellular.{
  Cellular, State, Event, Call, call, uart_pipe, dlci1_pipe, dlci2_pipe, init_script,
  net_stat_script, connect_script, pipe_open, pipe_open_async, pipe_close_async, pipe_attach,
  pipe_release, chat_attach, chat_script_run, chat_release, cmux_attach, cmux_connect_async,
  cmux_disconnect_async, ppp_attach, set_link_addr, carrier_on, carrier_off, start_timer,
  stop_timer,
}
use modem_modules.Cellular.Texts.{is_registered}

module _ {Rb : Type 0} (answers : List Call → Call → Ret) (d : Cellular Rb) where
  -- A call, and what it returns.
  abbrev pub ask : Call → Cellular Rb × Ret
  ask k = (call k d, answers d.calls k)

module _ {Rb : Type 0} (answers : List Call → Call → Ret) (d : Cellular Rb) where
  unfoldable pub on_run_init_script_state_enter : Cellular Rb × Ret
  on_run_init_script_state_enter =
      let opened = ask answers d (pipe_open uart_pipe) in
      if is_negative opened.1
      then (opened.0, fail eagain)
      else (let attached = ask answers opened.0 (chat_attach uart_pipe) in
          if is_negative attached.1
          then (attached.0, fail eagain)
          else ask answers attached.0 (chat_script_run init_script))

  unfoldable pub on_run_init_script_state_leave : Cellular Rb × Ret
  on_run_init_script_state_leave = (call chat_release (call (set_link_addr d.imei) d), ret 0)

  unfoldable pub on_connect_cmux_state_enter : Cellular Rb × Ret
  on_connect_cmux_state_enter =
      let attached = ask answers d (cmux_attach uart_pipe) in
      if is_negative attached.1
      then (attached.0, fail eagain)
      else ask answers attached.0 cmux_connect_async

  unfoldable pub on_open_dlci1_state_enter : Cellular Rb × Ret
  on_open_dlci1_state_enter =
      ask answers (call (pipe_attach dlci1_pipe) d) (pipe_open_async dlci1_pipe)

  unfoldable pub on_open_dlci1_state_leave : Cellular Rb × Ret
  on_open_dlci1_state_leave = (call (pipe_release dlci1_pipe) d, ret 0)

  unfoldable pub on_open_dlci2_state_enter : Cellular Rb × Ret
  on_open_dlci2_state_enter =
      ask answers (call (pipe_attach dlci2_pipe) d) (pipe_open_async dlci2_pipe)

  unfoldable pub on_open_dlci2_state_leave : Cellular Rb × Ret
  on_open_dlci2_state_leave = (call (pipe_release dlci2_pipe) d, ret 0)

  unfoldable pub on_run_dial_script_state_enter : Cellular Rb × Ret
  on_run_dial_script_state_enter =
      let attached = ask answers d (chat_attach dlci2_pipe) in
      if is_negative attached.1
      then (attached.0, fail eagain)
      else ask answers attached.0 (chat_script_run connect_script)

  unfoldable pub on_run_dial_script_state_leave : Cellular Rb × Ret
  on_run_dial_script_state_leave = ask answers (call chat_release d) (ppp_attach dlci2_pipe)

  unfoldable pub on_register_state_enter : Cellular Rb × Ret
  on_register_state_enter =
      let attached = ask answers d (chat_attach dlci1_pipe) in
      if is_negative attached.1
      then (attached.0, fail eagain)
      else ask answers (call (start_timer 2) attached.0) (chat_script_run net_stat_script)

  unfoldable pub on_register_state_leave : Cellular Rb × Ret
  on_register_state_leave = (call chat_release (call stop_timer d), ret 0)

  unfoldable pub on_roaming_state_enter : Cellular Rb × Ret
  on_roaming_state_enter = (
    call carrier_on (
        call (start_timer 4)
          (call (chat_script_run net_stat_script) (call (chat_attach dlci1_pipe) d))),
    ret 0,
  )

  unfoldable pub on_roaming_state_leave : Cellular Rb × Ret
  on_roaming_state_leave = (call carrier_off (call stop_timer (call chat_release d)), ret 0)

  unfoldable pub on_close_dlci2_state_enter : Cellular Rb × Ret
  on_close_dlci2_state_enter = (call (pipe_close_async dlci2_pipe) d, ret 0)

  unfoldable pub on_close_dlci1_state_enter : Cellular Rb × Ret
  on_close_dlci1_state_enter = (call (pipe_close_async dlci1_pipe) d, ret 0)

  unfoldable pub on_disconnect_cmux_state_enter : Cellular Rb × Ret
  on_disconnect_cmux_state_enter = (call cmux_disconnect_async d, ret 0)

module _ {Rb : Type 0} (answers : List Call → Call → Ret) where
  abbrev pub enter : State → Cellular Rb → Cellular Rb × Ret
  enter State.run_init_script d = on_run_init_script_state_enter answers d
  enter State.connect_cmux d = on_connect_cmux_state_enter answers d
  enter State.open_dlci1 d = on_open_dlci1_state_enter answers d
  enter State.open_dlci2 d = on_open_dlci2_state_enter answers d
  enter State.run_dial_script d = on_run_dial_script_state_enter answers d
  enter State.register d = on_register_state_enter answers d
  enter State.roaming d = on_roaming_state_enter answers d
  enter State.close_dlci2 d = on_close_dlci2_state_enter answers d
  enter State.close_dlci1 d = on_close_dlci1_state_enter answers d
  enter State.disconnect_cmux d = on_disconnect_cmux_state_enter answers d
  enter State.idle d = (d, ret 0)

  -- `modem_cellular_on_state_enter`
  abbrev pub on_state_enter : Cellular Rb → Cellular Rb × Ret
  on_state_enter d = enter d.state d

  abbrev pub leave : State → Cellular Rb → Cellular Rb × Ret
  leave State.run_init_script d = on_run_init_script_state_leave answers d
  leave State.open_dlci1 d = on_open_dlci1_state_leave answers d
  leave State.open_dlci2 d = on_open_dlci2_state_leave answers d
  leave State.run_dial_script d = on_run_dial_script_state_leave answers d
  leave State.register d = on_register_state_leave answers d
  leave State.roaming d = on_roaming_state_leave answers d
  leave _ d = (d, ret 0)

  -- `modem_cellular_on_state_leave`
  abbrev pub on_state_leave : Cellular Rb → Cellular Rb × Ret
  on_state_leave d = leave d.state d

  -- `modem_cellular_enter_state`; a state that cannot be entered is entered all the same
  unfoldable pub enter_state : Cellular Rb → State → Cellular Rb
  enter_state d s =
      let left = on_state_leave d in
      if is_negative left.1 then left.0 else (on_state_enter (record (left.0) { state = s })).0

  unfoldable pub idle_event_handler : Cellular Rb → Event → Cellular Rb
  idle_event_handler d Event.resume = enter_state d State.run_init_script
  idle_event_handler d _ = d

  unfoldable pub run_init_script_event_handler : Cellular Rb → Event → Cellular Rb
  run_init_script_event_handler d Event.script_success = enter_state d State.connect_cmux
  run_init_script_event_handler d _ = d

  unfoldable pub connect_cmux_event_handler : Cellular Rb → Event → Cellular Rb
  connect_cmux_event_handler d Event.cmux_connected = enter_state d State.open_dlci1
  connect_cmux_event_handler d _ = d

  unfoldable pub open_dlci1_event_handler : Cellular Rb → Event → Cellular Rb
  open_dlci1_event_handler d Event.dlci1_opened = enter_state d State.open_dlci2
  open_dlci1_event_handler d _ = d

  unfoldable pub open_dlci2_event_handler : Cellular Rb → Event → Cellular Rb
  open_dlci2_event_handler d Event.dlci2_opened = enter_state d State.run_dial_script
  open_dlci2_event_handler d _ = d

  unfoldable pub run_dial_script_event_handler : Cellular Rb → Event → Cellular Rb
  run_dial_script_event_handler d Event.script_success = enter_state d State.register
  run_dial_script_event_handler d _ = d

  unfoldable pub register_event_handler : Cellular Rb → Event → Cellular Rb
  register_event_handler d Event.script_success =
      if is_registered d then enter_state d State.roaming else d
  register_event_handler d Event.timeout =
      call (chat_script_run net_stat_script) (call (start_timer 2) d)
  register_event_handler d _ = d

  unfoldable pub roaming_event_handler : Cellular Rb → Event → Cellular Rb
  roaming_event_handler d Event.suspend = enter_state d State.close_dlci2
  roaming_event_handler d Event.script_success =
      if not (is_registered d) then enter_state d State.run_dial_script else d
  roaming_event_handler d Event.timeout =
      call (start_timer 4) (call (chat_script_run net_stat_script) d)
  roaming_event_handler d _ = d

  unfoldable pub close_dlci2_event_handler : Cellular Rb → Event → Cellular Rb
  close_dlci2_event_handler d Event.dlci2_closed = enter_state d State.close_dlci1
  close_dlci2_event_handler d _ = d

  unfoldable pub close_dlci1_event_handler : Cellular Rb → Event → Cellular Rb
  close_dlci1_event_handler d Event.dlci1_closed = enter_state d State.disconnect_cmux
  close_dlci1_event_handler d _ = d

  unfoldable pub disconnect_cmux_event_handler : Cellular Rb → Event → Cellular Rb
  disconnect_cmux_event_handler d Event.cmux_disconnected = enter_state d State.idle
  disconnect_cmux_event_handler d _ = d

  abbrev pub handle_in : State → Cellular Rb → Event → Cellular Rb
  handle_in State.idle d e = idle_event_handler d e
  handle_in State.run_init_script d e = run_init_script_event_handler d e
  handle_in State.connect_cmux d e = connect_cmux_event_handler d e
  handle_in State.open_dlci1 d e = open_dlci1_event_handler d e
  handle_in State.open_dlci2 d e = open_dlci2_event_handler d e
  handle_in State.run_dial_script d e = run_dial_script_event_handler d e
  handle_in State.register d e = register_event_handler d e
  handle_in State.roaming d e = roaming_event_handler d e
  handle_in State.close_dlci2 d e = close_dlci2_event_handler d e
  handle_in State.close_dlci1 d e = close_dlci1_event_handler d e
  handle_in State.disconnect_cmux d e = disconnect_cmux_event_handler d e

  -- `modem_cellular_event_handler`
  unfoldable pub event_handler : Cellular Rb → Event → Cellular Rb
  event_handler d e = handle_in d.state d e

  -- Events handled one after the other.
  abbrev pub handle_events : Cellular Rb → List Event → Cellular Rb
  handle_events d [] = d
  handle_events d (e ∷ es) = handle_events (event_handler d e) es
