-- ===== src/Cellular.antt =====
-- The data of drivers/modem/modem_cellular.c. A call of another module of the subsystem, of the
-- network interface or of the kernel is an entry of `calls`, latest first; the results of the other
-- modules are arguments of the functions below. The queue of events is a ring buffer of bytes.
pub mod Texts
pub mod Scripts
pub mod Machine
pub mod Queue
use modem_modules.Base.{ℕ, List, ◌∷◌}

pub data State : Type 0 where
  idle run_init_script connect_cmux open_dlci1 open_dlci2 run_dial_script register roaming : State
  close_dlci2 close_dlci1 disconnect_cmux : State

pub data Event : Type 0 where
  resume suspend script_success script_failed cmux_connected dlci1_opened dlci1_closed : Event
  dlci2_opened dlci2_closed cmux_disconnected timeout : Event

pub data PipeName : Type 0 where
  uart_pipe dlci1_pipe dlci2_pipe : PipeName

pub data ScriptName : Type 0 where
  init_script net_stat_script connect_script : ScriptName

pub data Call : Type 0 where
  uart_init cmux_init chat_init : Call
  dlci_init : ℕ → Call  -- the address
  pipe_open pipe_open_async pipe_close_async : PipeName → Call
  pipe_attach : PipeName → Call  -- the driver's own callback
  pipe_release : PipeName → Call
  chat_attach : PipeName → Call
  chat_script_run : ScriptName → Call
  chat_release : Call
  cmux_attach : PipeName → Call
  cmux_connect_async cmux_disconnect_async : Call
  ppp_attach : PipeName → Call
  set_link_addr : List ℕ → Call
  carrier_on carrier_off : Call
  start_timer : ℕ → Call  -- seconds
  stop_timer submit_dispatch : Call

pub record Cellular (Rb : Type 0) : Type 0 where
  pub imei : List ℕ
  pub hwinfo : List ℕ
  pub access_tech : ℕ
  pub registration_status : ℕ
  pub packet_service_attached : ℕ
  pub state : State
  pub event_rb : Rb
  pub calls : List Call

abbrev pub call : {Rb : Type 0} → Call → Cellular Rb → Cellular Rb
call k d = record d { calls = k ∷ d.calls }
