-- ===== src/Ppp.antt =====
-- The data of include/zephyr/modem/ppp.h. The modules below hold the functions of
-- subsys/modem/modem_ppp.c. `Pkt` is the state of a network packet, `Rb` that of a ring buffer.
-- A call of the kernel, of the network or of the pipe is an entry of `calls`, latest first.
pub mod Packets
pub mod Wrap
pub mod Unwrap
pub mod Handlers
pub mod RoundTrip
use modem_modules.Base.{ℕ, Bool, List, Option, ◌∷◌}

pub data ReceiveState : Type 0 where
  hdr_sof hdr_ff hdr_7d hdr_23 writing unescaping : ReceiveState

pub data TransmitState : Type 0 where
  idle sof hdr_ff hdr_7d hdr_23 : TransmitState
  protocol_high escaping_protocol_high protocol_low escaping_protocol_low : TransmitState
  payload escaping_payload : TransmitState
  fcs_low escaping_fcs_low fcs_high escaping_fcs_high eof : TransmitState

pub data Call (Pkt : Type 0) : Type 0 where
  ref unref : Pkt → Call Pkt
  recv_data : Pkt → Call Pkt
  submit_send submit_process : Call Pkt
  cancel_send cancel_process : Call Pkt
  pipe_transmit : List ℕ → Call Pkt
  pipe_attach pipe_release : Call Pkt

-- The ring of packets that wait to be sent.
pub record Ring (A : Type 0) : Type 0 where
  pub slots : List (Option A)
  pub size : ℕ
  pub tail : ℕ

pub record Ppp (Pkt Rb : Type 0) : Type 0 where
  pub is_attached : Bool
  pub has_pipe : Bool
  pub receive_state : ReceiveState
  pub rx_pkt : Option Pkt
  pub transmit_state : TransmitState
  pub tx_pkt : Option Pkt
  pub tx_pkt_escaped : ℕ
  pub tx_pkt_protocol : ℕ
  pub tx_pkt_fcs : ℕ
  pub transmit_rb : Rb
  pub packets : Ring Pkt  -- tx_pkt_buf, tx_pkt_buf_size, tx_pkt_buf_tail
  pub calls : List (Call Pkt)

abbrev pub call : {Pkt Rb : Type 0} → Call Pkt → Ppp Pkt Rb → Ppp Pkt Rb
call k p = record p { calls = k ∷ p.calls }
