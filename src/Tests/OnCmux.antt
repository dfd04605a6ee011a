-- ===== src/Tests/OnCmux.antt =====
-- A multiplexer that sends frames and takes them in.
use modem_modules.Base.{
  ℕ, ◌≤◌, ◌<◌, ◌≡◌, ◌⊎◌, inl, inr, refl, true, false, some, [], ◌∷◌, arith, ret, fail, enomem,
  ◌>>=◌, length, take, replicate,
}
use modem_modules.Cmux.{
  Cmux, Receiver, ReceiveState, Frame, Dlci, DlciState, State, frame_type_uih, frame_type_sabm,
  receive_buffer, null, bytes, call, pipe_transmit, target,
}
use modem_modules.Cmux.Control.{on_frame}
use modem_modules.Cmux.Transmit.{
  length_octets, last_length_octet, fcs_octet, address_octet, control_octet, transmit_frame,
  transmit_cmd_frame, transmit_data_frame, int16_result,
}
use modem_modules.Cmux.Transmit.Wire.{wire, Holds, transmit_frame-wire}
use modem_modules.Cmux.Transmit.Commands.{transmit_data_frame_cases, reserve_not_kept}
use modem_modules.Cmux.Receive.{process_received_byte, process_received_bytes, go_to}
use modem_modules.Cmux.Receive.Decode.{at, Reaches}
use modem_modules.Cmux.Receive.Frames.{header_octets}
use modem_modules.Cmux.Receive.RoundTrip.{receive-wire}
use modem_modules.Cmux.Receive.Overrun.{long_length_misread, overrun_handed_on}
use modem_modules.Cmux.Receive.Resync.{receive-resync}
use modem_modules.Cmux.Receive.Bounds.{process_received_byte-IsBounded, IsBounded}
use modem_modules.Tests.Instances.{Buffer, empty_buffer, buffer_ring, crc8_rohc}

abbrev pub fresh_receiver : Receiver
fresh_receiver = record {
  receive_state = ReceiveState.sof;
  receive_buf = replicate 4 0;
  receive_buf_size = 4;
  receive_buf_len = 0;
  frame = record {
    dlci_address = 0;
    cr = false;
    pf = false;
    frame_type = 0;
    contents = null;
    data_len = 0;
  };
  frame_header = replicate 5 0;
  frame_header_len = 0;
}

abbrev pub channel : Dlci Buffer
channel = record { dlci_address = 1; receive_rb = empty_buffer 8; dlci_state = DlciState.opened }

abbrev pub cmux_with : ℕ → Receiver → Cmux Buffer
cmux_with room r = record {
  attached = true;
  has_callback = true;
  dlcis = channel ∷ [];
  state = State.connected;
  flow_control_on = true;
  receiver = r;
  transmit_rb = empty_buffer room;
  calls = [];
}

abbrev pub fresh_cmux : Cmux Buffer
fresh_cmux = cmux_with 64 fresh_receiver

abbrev pub greeting : Frame
greeting = record {
  dlci_address = 1;
  cr = true;
  pf = false;
  frame_type = frame_type_uih;
  contents = bytes (1 ∷ 2 ∷ 3 ∷ []);
  data_len = 3;
}

abbrev pub sabm : Frame
sabm = record {
  dlci_address = 0;
  cr = true;
  pf = true;
  frame_type = frame_type_sabm;
  contents = null;
  data_len = 0;
}

transmit_frame-wire_example :
    (c' : Cmux Buffer) × (transmit_frame fresh_cmux greeting ≡ some (c', 3))
    × Holds fresh_cmux.transmit_rb c'.transmit_rb (wire greeting (1 ∷ 2 ∷ 3 ∷ []))
unfolding target
transmit_frame-wire_example =
    transmit_frame-wire fresh_cmux greeting (omega arith) (omega arith) (omega arith)

-- The frame that opens the control channel, octet by octet.
wire-sabm : wire sabm [] ≡ 0xF9 ∷ 0x03 ∷ 0x3F ∷ 0x01 ∷ 0x1C ∷ 0xF9 ∷ []
unfolding address_octet control_octet length_octets last_length_octet fcs_octet
wire-sabm = refl

transmit_data_frame_cases_example :
    ((true ≡ false) × (transmit_data_frame fresh_cmux greeting ≡ some (fresh_cmux, ret 0)))
    ⊎ ((64 < 40) × (transmit_data_frame fresh_cmux greeting ≡ some (fresh_cmux, fail enomem)))
    ⊎ ((true ≡ true)
        × (40 ≤ 64)
        × ((c' : Cmux Buffer) × (transmit_data_frame fresh_cmux greeting
              ≡ some (c', int16_result 3))
            × Holds fresh_cmux.transmit_rb c'.transmit_rb (wire greeting (1 ∷ 2 ∷ 3 ∷ []))))
unfolding target
transmit_data_frame_cases_example =
    transmit_data_frame_cases fresh_cmux greeting (omega arith) (omega arith)

-- Forty bytes of data in a buffer with room for forty octets.
abbrev small_cmux : Cmux Buffer
small_cmux = cmux_with 40 fresh_receiver

abbrev long_frame : ℕ → Frame
long_frame n = record greeting { contents = bytes (replicate n 7); data_len = n }

reserve_not_kept_example :
    (c' : Cmux Buffer) × (transmit_data_frame small_cmux (long_frame 40)
      ≡ some (c', int16_result 32))
    × (c'.transmit_rb.free ≤ 2)
    × (transmit_cmd_frame c' sabm ≡ some (c', false))
unfolding target
reserve_not_kept_example =
    reserve_not_kept small_cmux (long_frame 40) sabm refl (omega arith) (omega arith) (omega arith)
      (omega arith)

receive-wire_example :
    (r : Receiver) × (process_received_bytes fresh_cmux (wire greeting (1 ∷ 2 ∷ 3 ∷ []))
      ≡ (on_frame (at fresh_cmux r) >>= λ c'. some (go_to c' ReceiveState.sof)))
    × (r.frame ≡ record greeting { contents = receive_buffer })
    × (take 3 r.receive_buf ≡ 1 ∷ 2 ∷ 3 ∷ [])
receive-wire_example =
    receive-wire fresh_cmux greeting
      (record { address = omega arith; octet = omega arith; no_pf = refl }) (1 ∷ 2 ∷ 3 ∷ [])
      (record { waits = refl; five = refl; room = refl }) (inl (omega arith)) (omega arith)
      (inr (inr refl))

-- The receive buffer has taken in two of four bytes.
abbrev halfway : Receiver
halfway = record fresh_receiver {
  receive_state = ReceiveState.payload;
  receive_buf = 1 ∷ 2 ∷ 0 ∷ 0 ∷ [];
  receive_buf_len = 2;
  frame = record greeting { data_len = 3 };
  frame_header = 0x07 ∷ 0xEF ∷ 0x07 ∷ 0 ∷ 0 ∷ [];
  frame_header_len = 3;
}

process_received_byte-IsBounded_example :
    (c' : Cmux Buffer) × (process_received_byte (cmux_with 64 halfway) 9 ≡ some c')
    × IsBounded c'.receiver
process_received_byte-IsBounded_example =
    process_received_byte-IsBounded (cmux_with 64 halfway) 9
      (record { five = refl; room = refl; some_room = omega arith; filled = omega arith }) refl

long_length_misread_example :
    Reaches fresh_cmux
      (record fresh_receiver { receive_state = ReceiveState.address })
      (header_octets greeting 300)
      (λ r'. (r'.receive_state ≡ ReceiveState.payload) × (r'.frame.data_len ≡ 428))
long_length_misread_example =
    long_length_misread fresh_cmux greeting
      (record fresh_receiver { receive_state = ReceiveState.address }) 300
      (record { address = omega arith; octet = omega arith; no_pf = refl }) refl refl refl
      (omega arith) (omega arith) refl

-- A frame of nine bytes, of which three have come.
abbrev nearly_full : Receiver
nearly_full = record halfway {
  receive_buf = 1 ∷ 2 ∷ 3 ∷ 0 ∷ [];
  receive_buf_len = 3;
  frame = record greeting { data_len = 9 };
}

overrun_handed_on_example :
    (r' : Receiver) × (process_received_bytes (cmux_with 64 nearly_full) (4 ∷ 0xF9 ∷ [])
      ≡ (on_frame (at fresh_cmux r') >>= λ c'. some (go_to c' ReceiveState.sof)))
    × (r'.frame ≡ record greeting { data_len = 9; contents = receive_buffer })
    × (length r'.receive_buf ≡ 4)
overrun_handed_on_example =
    overrun_handed_on fresh_cmux nearly_full (0x07 ∷ 0xEF ∷ 0x07 ∷ []) (1 ∷ 2 ∷ 3 ∷ [])
      (record greeting { data_len = 9 }) 4
      (record {
        state = refl;
        header = (refl, refl, refl);
        count = refl;
        gathered = refl;
        room = refl;
        fields = refl;
      })
      refl (omega arith)

abbrev pub filled_with : ℕ → Receiver
filled_with n = record fresh_receiver {
  receive_state = ReceiveState.eof;
  receive_buf = 1 ∷ 2 ∷ 3 ∷ 4 ∷ [];
  receive_buf_len = 4;
  frame = record greeting { contents = receive_buffer; data_len = n };
}

receive-resync_example :
    process_received_bytes fresh_cmux
      (0x55 ∷ 0 ∷ 1 ∷ 0xF9 ∷ 0xF9 ∷ 0xF9 ∷ 0xF9 ∷ 0x03 ∷ 0x73 ∷ 0x01 ∷ [])
    ≡ process_received_bytes
        (go_to (call (pipe_transmit (0xF9 ∷ 0xF9 ∷ 0xF9 ∷ [])) fresh_cmux) ReceiveState.sof)
        (0xF9 ∷ 0x03 ∷ 0x73 ∷ 0x01 ∷ [])
receive-resync_example =
    receive-resync fresh_cmux 0x55 (0 ∷ 1 ∷ []) 1 0x03 (0x73 ∷ 0x01 ∷ []) refl (omega arith)
      (omega arith, (omega arith, tt)) (omega arith)
