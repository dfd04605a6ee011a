-- ===== src/Cellular/Machine/Trace.antt =====
-- What the calls of the driver leave behind in each state: the carrier of the packet interface, the
-- timer, and the callbacks of the two channels.
pub mod Kept
use modem_modules.Base.{
  ℕ, ◌≡◌, refl, sym, ◌∙◌, arith, Bool, true, false, not, List, [], ◌∷◌, Option, none, some, Ret,
  if◌then◌else◌,
}
use mathlib.Core.Path.{subst}
use modem_modules.Pipe.{is_negative}
use modem_modules.Cellular.{
  Cellular, State, Event, PipeName, Call, call, uart_pipe, dlci1_pipe, dlci2_pipe, pipe_open,
  pipe_attach, pipe_release, chat_attach, chat_release, cmux_attach, ppp_attach, carrier_on,
  carrier_off, start_timer, stop_timer, set_link_addr,
}
use modem_modules.Cellular.Texts.{is_registered}
use modem_modules.Cellular.Machine.{
  enter, leave, enter_state, event_handler, handle_in, on_run_init_script_state_enter,
  on_run_init_script_state_leave, on_connect_cmux_state_enter, on_open_dlci1_state_enter,
  on_open_dlci1_state_leave, on_open_dlci2_state_enter, on_open_dlci2_state_leave,
  on_run_dial_script_state_enter, on_run_dial_script_state_leave, on_register_state_enter,
  on_register_state_leave, on_roaming_state_enter, on_roaming_state_leave,
  on_close_dlci2_state_enter, on_close_dlci1_state_enter, on_disconnect_cmux_state_enter,
  idle_event_handler, run_init_script_event_handler, connect_cmux_event_handler,
  open_dlci1_event_handler, open_dlci2_event_handler, run_dial_script_event_handler,
  register_event_handler, roaming_event_handler, close_dlci2_event_handler,
  close_dlci1_event_handler, disconnect_cmux_event_handler,
}
use modem_modules.Cellular.Machine.Graph.{
  Ends, ends, if-Ends, enter-Is, leave-Is, is_held, leave-is_held,
}

-- The last call about the carrier.
abbrev pub is_carrier_on : List Call → Bool
is_carrier_on [] = false
is_carrier_on (carrier_on ∷ ks) = true
is_carrier_on (carrier_off ∷ ks) = false
is_carrier_on (_ ∷ ks) = is_carrier_on ks

-- The timer was started and not stopped.
abbrev pub is_timer_on : List Call → Bool
is_timer_on [] = false
is_timer_on (start_timer n ∷ ks) = true
is_timer_on (stop_timer ∷ ks) = false
is_timer_on (_ ∷ ks) = is_timer_on ks

abbrev pub is_same : PipeName → PipeName → Bool
is_same uart_pipe uart_pipe = true
is_same dlci1_pipe dlci1_pipe = true
is_same dlci2_pipe dlci2_pipe = true
is_same _ _ = false

-- The chat is attached to the pipe.
abbrev pub is_chatting : PipeName → List Call → Bool
is_chatting p [] = false
is_chatting p (chat_attach q ∷ ks) = is_same q p
is_chatting p (chat_release ∷ ks) = false
is_chatting p (_ ∷ ks) = is_chatting p ks

-- The callback of the pipe is the driver's own: it was attached, and since then neither was the pipe
-- released nor another module attached to it.
abbrev pub is_watching : PipeName → List Call → Bool
is_watching p [] = false
is_watching p (pipe_attach q ∷ ks) =
    let rest = is_watching p ks in if is_same q p then true else rest
is_watching p (pipe_release q ∷ ks) =
    let rest = is_watching p ks in if is_same q p then false else rest
is_watching p (chat_attach q ∷ ks) =
    let rest = is_watching p ks in if is_same q p then false else rest
is_watching p (cmux_attach q ∷ ks) =
    let rest = is_watching p ks in if is_same q p then false else rest
is_watching p (ppp_attach q ∷ ks) =
    let rest = is_watching p ks in if is_same q p then false else rest
is_watching p (chat_release ∷ ks) =
    let rest = is_watching p ks in if is_chatting p ks then false else rest
is_watching p (_ ∷ ks) = is_watching p ks

abbrev pub is_roaming : State → Bool
is_roaming State.roaming = true
is_roaming _ = false

abbrev pub is_ticking : State → Bool
is_ticking State.register = true
is_ticking State.roaming = true
is_ticking _ = false

abbrev pub is_opening1 : State → Bool
is_opening1 State.open_dlci1 = true
is_opening1 _ = false

abbrev pub is_opening2 : State → Bool
is_opening2 State.open_dlci2 = true
is_opening2 _ = false

pub record IsIn {Rb : Type 0} (s : State) (d : Cellular Rb) : Type 0 where
  pub carrier : is_carrier_on d.calls ≡ is_roaming s
  pub timer : is_ticking s ≡ false → is_timer_on d.calls ≡ false
  pub watching1 : is_watching dlci1_pipe d.calls ≡ is_opening1 s
  pub watching2 : is_watching dlci2_pipe d.calls ≡ is_opening2 s
