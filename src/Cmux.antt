-- ===== src/Cmux.antt =====
-- The data of include/zephyr/modem/cmux.h and the constants of subsys/modem/modem_cmux.c. The modules
-- below hold the functions of modem_cmux.c.
-- The fields of `struct modem_cmux` that the receive state machine owns stand in `Receiver`.
-- A call of the kernel, of the application or of another module is an entry of `calls`, latest
-- first. Times are milliseconds.
pub mod Transmit
pub mod Control
pub mod Receive
pub mod Channel
pub mod Work
pub mod Life
use modem_modules.Base.{
  ℕ, Bool, List, [], ◌∷◌, Option, none, some, length, take, leb, if◌then◌else◌,
}

pub data State : Type 0 where
  disconnected connecting connected disconnecting : State

pub data Event : Type 0 where
  connected_event disconnected_event : Event

pub data ReceiveState : Type 0 where
  sof resync_0 resync_1 resync_2 resync_3 address address_cont control : ReceiveState
  len len_cont payload fcs drop_frame eof : ReceiveState

pub data DlciState : Type 0 where
  closed opening opened closing : DlciState

-- The delayable work items; those of a DLCI channel carry its position in `dlcis`.
pub data WorkItem : Type 0 where
  receive_work transmit_work connect_work disconnect_work : WorkItem
  open_work close_work : ℕ → WorkItem

pub data EventBit : Type 0 where
  connected_bit disconnected_bit : EventBit

pub data Call : Type 0 where
  schedule : WorkItem → ℕ → Call
  cancel cancel_sync : WorkItem → Call
  raise : Event → Call
  event_post event_clear : EventBit → Call
  pipe_transmit : List ℕ → Call
  pipe_attach pipe_release : Call
  notify_opened notify_closed notify_receive_ready : ℕ → Call

-- What `frame.data` can point to.
pub data Pointer : Type 0 where
  null receive_buffer : Pointer
  bytes : List ℕ → Pointer

pub record Frame : Type 0 where
  pub dlci_address : ℕ
  pub cr : Bool
  pub pf : Bool
  pub frame_type : ℕ
  pub contents : Pointer  -- data
  pub data_len : ℕ

pub record Receiver : Type 0 where
  pub receive_state : ReceiveState
  pub receive_buf : List ℕ
  pub receive_buf_size : ℕ
  pub receive_buf_len : ℕ
  pub frame : Frame
  pub frame_header : List ℕ
  pub frame_header_len : ℕ

pub record Dlci (Rb : Type 0) : Type 0 where
  pub dlci_address : ℕ
  pub receive_rb : Rb
  pub dlci_state : DlciState

pub record Cmux (Rb : Type 0) : Type 0 where
  pub attached : Bool  -- pipe is not NULL
  pub has_callback : Bool
  pub dlcis : List (Dlci Rb)
  pub state : State
  pub flow_control_on : Bool
  pub receiver : Receiver
  pub open receiver use *
  pub transmit_rb : Rb
  pub calls : List Call

abbrev pub frame_type_ua : ℕ
frame_type_ua = 0x63

abbrev pub frame_type_sabm : ℕ
frame_type_sabm = 0x2F

abbrev pub frame_type_disc : ℕ
frame_type_disc = 0x43

abbrev pub frame_type_uih : ℕ
frame_type_uih = 0xEF

abbrev pub frame_size_max : ℕ
frame_size_max = 0x08

abbrev pub data_frame_size_min : ℕ
data_frame_size_min = 0x10

abbrev pub cmd_data_size_max : ℕ
cmd_data_size_max = 0x04

abbrev pub cmd_frame_size_max : ℕ
cmd_frame_size_max = 0x0C

abbrev pub fcs_init_value : ℕ
fcs_init_value = 0xFF

abbrev pub t1_timeout : ℕ
t1_timeout = 330

abbrev pub t2_timeout : ℕ
t2_timeout = 660

-- The object that a pointer leads to; NULL leads to none.
unfoldable pub target : Receiver → Pointer → List ℕ
target r null = []
target r receive_buffer = r.receive_buf
target r (bytes xs) = xs

-- The first `n` bytes at a pointer. `none`: they are not all there.
unfoldable pub read : Receiver → Pointer → ℕ → Option (List ℕ)
unfolding target
read r p n = if leb n (length (target r p)) then some (take n (target r p)) else none

-- A call of something outside the module.
abbrev pub call : {Rb : Type 0} → Call → Cmux Rb → Cmux Rb
call k c = record c { calls = k ∷ c.calls }
