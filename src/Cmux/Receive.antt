-- ===== src/Cmux/Receive.antt =====
-- The receive state machine: `modem_cmux_process_received_byte`, one function for each state, and the
-- loop of `modem_cmux_receive_handler`. `none` is an access outside a buffer.
pub mod Header
pub mod Steps
pub mod Decode
pub mod Frames
pub mod RoundTrip
pub mod Overrun
pub mod Resync
pub mod Bounds
use modem_modules.Base.{
  ℕ, ◌+◌, ◌-◌, ◌*◌, ◌/◌, Option, none, some, List, [], ◌∷◌, RingBuf, Crc8, bit_and, bit_or, ltb,
  ◌==◌, if◌then◌else◌, ◌>>=◌, not, length, set, take,
}
use modem_modules.Cmux.{
  Cmux, Receiver, ReceiveState, receive_buffer, frame_type_uih, fcs_init_value, read, call,
  schedule, pipe_transmit, receive_work,
}
use modem_modules.Cmux.Control.{on_frame}

-- `cmux->frame_header[cmux->frame_header_len] = byte; cmux->frame_header_len++;`
pub store_header : Receiver → ℕ → Option Receiver
store_header r b =
    if ltb r.frame_header_len (length r.frame_header)
    then some (record r {
      frame_header = set r.frame_header r.frame_header_len b;
      frame_header_len = r.frame_header_len + 1;
    })
    else none

pub receive_address : Receiver → ℕ → Option Receiver
unfolding store_header
receive_address r b =
    store_header (record r { receive_buf_len = 0; frame_header_len = 0 }) b >>= λ s.
    some (record s {
      frame = record (s.frame) {
        cr = not (bit_and b 0x02 == 0);
        dlci_address = bit_and (b / 4) 0x3F;
      };
      receive_state = ReceiveState.control;
    })

pub receive_control : Receiver → ℕ → Option Receiver
unfolding store_header
receive_control r b = store_header r b >>= λ s. some (record s {
  frame = record (s.frame) { pf = not (bit_and b 0x10 == 0); frame_type = bit_and b 0xEF };
  receive_state = ReceiveState.len;
})

pub receive_length : Receiver → ℕ → Option Receiver
unfolding store_header
receive_length r b = store_header r b >>= λ s. some (record s {
  frame = record (s.frame) { data_len = b / 2 };
  receive_state =
      if bit_and b 0x01 == 0
      then ReceiveState.len_cont
      else (if b / 2 == 0 then ReceiveState.fcs else ReceiveState.payload);
})

pub receive_length_cont : Receiver → ℕ → Option Receiver
unfolding store_header
receive_length_cont r b = store_header r b >>= λ s. some (record s {
  frame = record (s.frame) { data_len = bit_or s.frame.data_len (b * 128) };
  receive_state = ReceiveState.payload;
})

-- uint16_t counters: the buffer is shorter than 2^16, so the counter does not wrap.
pub receive_data : Receiver → ℕ → Option Receiver
receive_data r b =
    if ltb r.receive_buf_len (length r.receive_buf)
    then some (record r {
      receive_buf = set r.receive_buf r.receive_buf_len b;
      receive_buf_len = r.receive_buf_len + 1;
      receive_state =
          if r.frame.data_len == r.receive_buf_len + 1
          then ReceiveState.fcs
          else (if r.receive_buf_len + 1 == r.receive_buf_size
              then ReceiveState.eof
              else ReceiveState.payload);
    })
    else none

module _ ⦃crc : Crc8⦄ where
  pub expected_fcs : Receiver → Option ℕ
  expected_fcs r =
      let over_header = crc.crc8 (take r.frame_header_len r.frame_header) fcs_init_value in
      if r.frame.frame_type == frame_type_uih
      then some (0xFF - over_header)
      else (read r r.frame.contents r.frame.data_len >>= λ xs.
          some (0xFF - crc.crc8 xs over_header))

  pub receive_fcs : Receiver → ℕ → Option Receiver
  unfolding expected_fcs
  receive_fcs r b = expected_fcs r >>= λ e.
      some
        (record r { receive_state = if e == b then ReceiveState.eof else ReceiveState.drop_frame })

abbrev to_state : Receiver → ReceiveState → Receiver
to_state r s = record r { receive_state = s }

module _ {Rb : Type 0} where
  abbrev pub with_receiver : Cmux Rb → Option Receiver → Option (Cmux Rb)
  with_receiver c r = r >>= λ r'. some (record c { receiver = r' })

  abbrev pub go_to : Cmux Rb → ReceiveState → Cmux Rb
  go_to c s = record c { receiver = to_state c.receiver s }

  -- Three flags are sent to ask for a resynchronisation.
  unfoldable pub receive_sof : Cmux Rb → ℕ → Cmux Rb
  receive_sof c b =
      if b == 0xF9
      then go_to c ReceiveState.address
      else go_to (call (pipe_transmit (0xF9 ∷ 0xF9 ∷ 0xF9 ∷ [])) c) ReceiveState.resync_0

  unfoldable pub receive_resync : Cmux Rb → ReceiveState → ReceiveState → ℕ → Cmux Rb
  receive_resync c next back b = if b == 0xF9 then go_to c next else go_to c back

module _ {Rb : Type 0} ⦃ring : RingBuf Rb⦄ ⦃crc : Crc8⦄ where
  unfoldable pub receive_eof : Cmux Rb → ℕ → Option (Cmux Rb)
  receive_eof c b =
      if not (b == 0xF9)
      then some (go_to c ReceiveState.sof)
      else (let r = c.receiver in
          let f = record (r.frame) { contents = receive_buffer } in
          on_frame (record c { receiver = record r { frame = f } }) >>= λ c'.
          some (go_to c' ReceiveState.sof))

  -- the `switch` of `modem_cmux_process_received_byte`
  unfoldable pub dispatch : ReceiveState → Cmux Rb → ℕ → Option (Cmux Rb)
  dispatch ReceiveState.sof c b = some (receive_sof c b)
  dispatch ReceiveState.resync_0 c b =
      some (receive_resync c ReceiveState.resync_1 ReceiveState.resync_0 b)
  dispatch ReceiveState.resync_1 c b =
      some (receive_resync c ReceiveState.resync_2 ReceiveState.resync_0 b)
  dispatch ReceiveState.resync_2 c b =
      some (receive_resync c ReceiveState.resync_3 ReceiveState.resync_0 b)
  dispatch ReceiveState.resync_3 c b =
      if b == 0xF9 then some c else with_receiver c (receive_address c.receiver b)
  dispatch ReceiveState.address c b = with_receiver c (receive_address c.receiver b)
  dispatch ReceiveState.address_cont c b = some c
  dispatch ReceiveState.control c b = with_receiver c (receive_control c.receiver b)
  dispatch ReceiveState.len c b = with_receiver c (receive_length c.receiver b)
  dispatch ReceiveState.len_cont c b = with_receiver c (receive_length_cont c.receiver b)
  dispatch ReceiveState.payload c b = with_receiver c (receive_data c.receiver b)
  dispatch ReceiveState.fcs c b = with_receiver c (receive_fcs c.receiver b)
  dispatch ReceiveState.drop_frame c b = some (go_to c ReceiveState.sof)
  dispatch ReceiveState.eof c b = receive_eof c b

  unfoldable pub process_received_byte : Cmux Rb → ℕ → Option (Cmux Rb)
  unfolding dispatch
  process_received_byte c b = dispatch c.receive_state c b

  -- the loop over the received bytes
  pub process_received_bytes : Cmux Rb → List ℕ → Option (Cmux Rb)
  process_received_bytes c [] = some c
  process_received_bytes c (b ∷ bs) =
      process_received_byte c b >>= λ c'. process_received_bytes c' bs

  -- `modem_cmux_receive_handler`, on what `modem_pipe_receive` gave: none is a result below 1.
  pub receive_handler : Cmux Rb → List ℕ → Option (Cmux Rb)
  unfolding process_received_bytes
  receive_handler c [] = some c
  receive_handler c (b ∷ bs) =
      process_received_bytes c (b ∷ bs) >>= λ c'. some (call (schedule receive_work 0) c')
