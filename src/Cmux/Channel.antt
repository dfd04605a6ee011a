-- ===== src/Cmux/Channel.antt =====
-- DLCI channels: `modem_cmux_dlci_init`, the functions of `modem_cmux_dlci_pipe_api`, and the handlers
-- of a channel's work items. A channel is its position in `dlcis`; `none` is a position that is not
-- there. `pending` is what k_work_delayable_is_pending answers for the channel's work item.
use modem_modules.Base.{
  ℕ, ◌%◌, Bool, true, false, Option, some, List, [], ◌∷◌, ◌++◌, RingBuf, Crc8, Ret, ret, fail,
  ebusy, if◌then◌else◌, ◌>>=◌, length, get_elem?,
}
use modem_modules.Cmux.{
  Cmux, DlciState, Frame, Pointer, bytes, frame_type_sabm, frame_type_disc, frame_type_uih,
  t1_timeout, call, schedule, open_work, close_work,
}
use modem_modules.Cmux.Control.{set_dlci}
use modem_modules.Cmux.Transmit.{transmit_cmd_frame, transmit_data_frame}

-- A frame that carries nothing, to set a channel up or to take it down.
abbrev pub bare_frame : ℕ → ℕ → Frame
bare_frame a t = record {
  dlci_address = a;
  cr = true;
  pf = true;
  frame_type = t;
  contents = Pointer.null;
  data_len = 0;
}

-- The frame of `modem_cmux_dlci_pipe_api_transmit`; its length is a uint16_t.
abbrev pub data_frame : ℕ → List ℕ → Frame
data_frame a xs = record {
  dlci_address = a;
  cr = false;
  pf = false;
  frame_type = frame_type_uih;
  contents = bytes xs;
  data_len = length xs % 65536;
}

module _ {Rb : Type 0} where
  -- `modem_cmux_dlci_init`, with the ring buffer that ring_buf_init gives
  unfoldable pub dlci_init : Cmux Rb → ℕ → Rb → Cmux Rb
  dlci_init c a rb = record c {
    dlcis =
        c.dlcis
        ++ (record { dlci_address = a; receive_rb = rb; dlci_state = DlciState.closed } ∷ []);
  }

  -- `modem_cmux_dlci_pipe_api_open`
  unfoldable pub pipe_api_open : Cmux Rb → ℕ → Bool → Cmux Rb × Ret
  pipe_api_open c i pending =
      if pending then (c, fail ebusy) else (call (schedule (open_work i) 0) c, ret 0)

  -- `modem_cmux_dlci_pipe_api_close`
  unfoldable pub pipe_api_close : Cmux Rb → ℕ → Bool → Cmux Rb × Ret
  pipe_api_close c i pending =
      if pending then (c, fail ebusy) else (call (schedule (close_work i) 0) c, ret 0)

module _ {Rb : Type 0} ⦃ring : RingBuf Rb⦄ where
  -- `modem_cmux_dlci_pipe_api_receive`, with the bytes that it copies
  unfoldable pub pipe_api_receive : Cmux Rb → ℕ → ℕ → Option (Cmux Rb × List ℕ)
  pipe_api_receive c i size = get_elem? c.dlcis i >>= λ d. some (
    set_dlci c i (record d { receive_rb = ring.consume d.receive_rb size }),
    ring.get d.receive_rb size,
  )

module _ {Rb : Type 0} ⦃ring : RingBuf Rb⦄ ⦃crc : Crc8⦄ where
  -- `modem_cmux_dlci_pipe_api_transmit`
  unfoldable pub pipe_api_transmit : Cmux Rb → ℕ → List ℕ → Option (Cmux Rb × Ret)
  pipe_api_transmit c i xs =
      get_elem? c.dlcis i >>= λ d. transmit_data_frame c (data_frame d.dlci_address xs)

  -- `modem_cmux_dlci_open_handler`
  unfoldable pub dlci_open_handler : Cmux Rb → ℕ → Option (Cmux Rb)
  dlci_open_handler c i = get_elem? c.dlcis i >>= λ d.
      transmit_cmd_frame (set_dlci c i (record d { dlci_state = DlciState.opening }))
        (bare_frame d.dlci_address frame_type_sabm)
      >>= λ s. some (call (schedule (open_work i) t1_timeout) s.0)

  -- `modem_cmux_dlci_close_handler`
  unfoldable pub dlci_close_handler : Cmux Rb → ℕ → Option (Cmux Rb)
  dlci_close_handler c i = get_elem? c.dlcis i >>= λ d.
      transmit_cmd_frame (set_dlci c i (record d { dlci_state = DlciState.closing }))
        (bare_frame d.dlci_address frame_type_disc)
      >>= λ s. some (call (schedule (close_work i) t1_timeout) s.0)
