-- ===== src/Cmux/Work.antt =====
-- The life of the multiplexer: `modem_cmux_init`, `modem_cmux_attach`, connecting and disconnecting
-- with their work handlers, `modem_cmux_transmit_handler`, `modem_cmux_bus_callback` and
-- `modem_cmux_release`. `pending` is what k_work_delayable_is_pending answers, and `meanwhile` is what
-- other threads do while k_event_wait waits.
pub mod Stream
use modem_modules.Base.{
  ℕ, suc, Bool, true, false, Option, some, List, [], ◌∷◌, RingBuf, Crc8, Ret, ret, fail, ebusy,
  eagain, ealready, ◌==◌, if◌then◌else◌, ◌>>=◌, length, replicate,
}
use modem_modules.Cmux.{
  Cmux, Dlci, Frame, Pointer, State, ReceiveState, EventBit, Call, bytes, frame_type_sabm,
  frame_type_uih, t1_timeout, call, schedule, cancel_sync, event_post, pipe_transmit, pipe_attach,
  pipe_release, notify_closed, receive_work, transmit_work, connect_work, disconnect_work,
  connected_bit, disconnected_bit,
}
use modem_modules.Cmux.Channel.{bare_frame}
use modem_modules.Cmux.Transmit.{transmit_cmd_frame}

-- The fields that memset clears.
abbrev cleared_frame : Frame
cleared_frame = record {
  dlci_address = 0;
  cr = false;
  pf = false;
  frame_type = 0;
  contents = Pointer.null;
  data_len = 0;
}

-- The close down command: type octet 0xC3 (CLD, cr, ea) and length octet 0x01 (0, ea).
abbrev pub close_down : Frame
close_down = record {
  dlci_address = 0;
  cr = true;
  pf = false;
  frame_type = frame_type_uih;
  contents = bytes (0xC3 ∷ 0x01 ∷ []);
  data_len = 2;
}

module _ {Rb : Type 0} where
  -- `modem_cmux_init`: a receive buffer, its size, and the ring buffer that ring_buf_init gives
  unfoldable pub init : Bool → List ℕ → ℕ → Rb → Cmux Rb
  init has_callback buf size rb = record {
    attached = false;
    has_callback = has_callback;
    dlcis = [];
    state = State.disconnected;
    flow_control_on = false;
    receiver = record {
      receive_state = ReceiveState.sof;
      receive_buf = buf;
      receive_buf_size = size;
      receive_buf_len = 0;
      frame = cleared_frame;
      frame_header = replicate 5 0;
      frame_header_len = 0;
    };
    transmit_rb = rb;
    calls = event_post disconnected_bit ∷ [];
  }

  -- `modem_cmux_bus_callback`, at the event that data can be received; the others do nothing
  unfoldable pub bus_callback : Cmux Rb → Cmux Rb
  bus_callback c = call (schedule receive_work 0) c

  -- `modem_cmux_connect_async`
  unfoldable pub connect_async : Cmux Rb → Bool → Cmux Rb × Ret
  connect_async c pending =
      if pending then (c, fail ebusy) else (call (schedule connect_work 0) c, ret 0)

  -- `modem_cmux_disconnect_async`
  unfoldable pub disconnect_async : Cmux Rb → Bool → Cmux Rb × Ret
  disconnect_async c pending =
      if pending then (c, fail ebusy) else (call (schedule disconnect_work 0) c, ret 0)

  -- `modem_cmux_dlci_pipes_notify_closed`, from position `i` on
  unfoldable pub notify_all_closed : ℕ → List (Dlci Rb) → Cmux Rb → Cmux Rb
  notify_all_closed i [] c = c
  notify_all_closed i (d ∷ ds) c = notify_all_closed (suc i) ds (call (notify_closed i) c)

  -- `modem_cmux_release`
  unfoldable pub release : Cmux Rb → Cmux Rb
  unfolding notify_all_closed
  release c =
      let closed = call pipe_release (notify_all_closed 0 c.dlcis c) in
      let stopped = call (cancel_sync disconnect_work) (call (cancel_sync connect_work) closed) in
      let idle = call (cancel_sync receive_work) (call (cancel_sync transmit_work) stopped) in
      record idle { attached = false }

  -- `is_set` stands for k_event_wait with no wait.
  module _ (is_set : EventBit → List Call → Bool) where
    -- `modem_cmux_connect`
    unfoldable pub connect : Cmux Rb → Bool → (Cmux Rb → Cmux Rb) → Cmux Rb × Ret
    connect c pending meanwhile =
        if is_set connected_bit c.calls
        then (c, fail ealready)
        else (let asked = if pending then c else call (schedule connect_work 0) c in
            let c' = meanwhile asked in
            (c', if is_set connected_bit c'.calls then ret 0 else fail eagain))

    -- `modem_cmux_disconnect`
    unfoldable pub disconnect : Cmux Rb → Bool → (Cmux Rb → Cmux Rb) → Cmux Rb × Ret
    disconnect c pending meanwhile =
        if is_set disconnected_bit c.calls
        then (c, fail ealready)
        else (let asked = if pending then c else call (schedule disconnect_work 0) c in
            let c' = meanwhile asked in
            (c', if is_set disconnected_bit c'.calls then ret 0 else fail eagain))

module _ {Rb : Type 0} ⦃ring : RingBuf Rb⦄ where
  -- `modem_cmux_attach`
  unfoldable pub attach : Cmux Rb → Cmux Rb
  attach c = call pipe_attach (record c { attached = true; transmit_rb = ring.reset c.transmit_rb })

  -- `modem_cmux_transmit_handler`; `taken` is what the pipe took, 0 for an error
  unfoldable pub transmit_handler : Cmux Rb → ℕ → Cmux Rb
  transmit_handler c taken =
      let c' = call (pipe_transmit (ring.claim c.transmit_rb)) c in
      if taken == 0
      then call (schedule transmit_work 0)
          (record c' { transmit_rb = ring.consume c.transmit_rb 0 })
      else (let rb = ring.consume c.transmit_rb taken in
          let released = record c' { transmit_rb = rb } in
          if length (ring.contents rb) == 0
          then released
          else call (schedule transmit_work 0) released)

module _ {Rb : Type 0} ⦃ring : RingBuf Rb⦄ ⦃crc : Crc8⦄ where
  -- `modem_cmux_connect_handler`
  unfoldable pub connect_handler : Cmux Rb → Option (Cmux Rb)
  connect_handler c =
      transmit_cmd_frame (record c { state = State.connecting }) (bare_frame 0 frame_type_sabm)
      >>= λ s. some (call (schedule connect_work t1_timeout) s.0)

  -- `modem_cmux_disconnect_handler`
  unfoldable pub disconnect_handler : Cmux Rb → Option (Cmux Rb)
  disconnect_handler c =
      transmit_cmd_frame (record c { state = State.disconnecting }) close_down >>= λ s.
      some (call (schedule disconnect_work t1_timeout) s.0)
