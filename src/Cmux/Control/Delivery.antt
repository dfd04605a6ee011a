-- ===== src/Cmux/Control/Delivery.antt =====
-- Data frames for a DLCI channel: what `modem_cmux_on_frame` puts in the channel's receive buffer.
use modem_modules.Base.{
  take-take-min, ℕ, ◌≤◌, ◌<◌, ◌≡◌, ◌≢◌, ap, ◌∙◌, true, none, some, List, ◌++◌, arith, ◌>>=◌, length,
  take, get_elem?, min, RingBuf, Crc8,
}
use modem_modules.Cmux.{
  Cmux, Dlci, DlciState, frame_type_uih, read, target, receive_buffer, call, notify_receive_ready,
}
use modem_modules.Cmux.Control.{
  find_dlci, is_open, set_dlci, on_dlci_frame_uih, on_dlci_frame, on_frame,
}

module _ {Rb : Type 0} where
  -- The frame that was received is a data frame for the open channel `d` at position `i`.
  pub record IsFor (c : Cmux Rb) (i : ℕ) (d : Dlci Rb) : Type 0 where
    pub not_control : c.frame.dlci_address ≢ 0
    pub data_frame : c.frame.frame_type ≡ frame_type_uih
    pub found : find_dlci c ≡ some i
    pub there : get_elem? c.dlcis i ≡ some d
    pub is_opened : d.dlci_state ≡ DlciState.opened
    pub in_buffer : c.frame.contents ≡ receive_buffer

module _ {Rb : Type 0} ⦃ring : RingBuf Rb⦄ ⦃crc : Crc8⦄ (c : Cmux Rb) (i : ℕ) (d : Dlci Rb)
    (v : IsFor c i d) where
  abbrev wanted : ℕ
  wanted = min (ring.space d.receive_rb) c.frame.data_len

  -- The channel with `xs` put behind what it holds.
  abbrev pub with_data : List ℕ → Cmux Rb
  with_data xs =
      call (notify_receive_ready i)
        (set_dlci c i (record d { receive_rb = ring.put d.receive_rb xs }))

  uih-IsFor :
      on_dlci_frame_uih c i ≡ (read c.receiver receive_buffer wanted >>= λ xs. some (with_data xs))
  unfolding on_dlci_frame_uih
  uih-IsFor =
      let opened : is_open d.dlci_state ≡ true = ap is_open v.is_opened in
      rw v.there
        (rw opened (ap (λ p. read c.receiver p wanted >>= λ xs. some (with_data xs)) v.in_buffer))

  on_frame-IsFor :
      on_frame c ≡ (read c.receiver receive_buffer wanted >>= λ xs. some (with_data xs))
  unfolding on_frame on_dlci_frame
  on_frame-IsFor =
      let to_channel : on_frame c ≡ on_dlci_frame c = ground (arith, v.not_control) in
      let to_data : on_dlci_frame c ≡ on_dlci_frame_uih c i =
        ground (arith, v.found, v.data_frame) in
      to_channel ∙ to_data ∙ uih-IsFor

  -- A data frame for an open channel puts the frame's data, as many as the channel's receive buffer
  -- has room for, behind what that buffer holds, and tells the channel's pipe; nothing else changes.
  -- The data lie within the receive buffer of the multiplexer.
  pub on_frame_delivers :
      c.frame.data_len ≤ length c.receive_buf
      → (rb : Rb) × (on_frame c
          ≡ some (call (notify_receive_ready i) (set_dlci c i (record d { receive_rb = rb }))))
        × (ring.contents rb
            ≡ ring.contents d.receive_rb
              ++ take (ring.space d.receive_rb) (take c.frame.data_len c.receive_buf))
  unfolding read target
  on_frame_delivers inside =
      let xs = take wanted c.receive_buf in
      let there : read c.receiver receive_buffer wanted ≡ some xs = ground (arith, inside) in
      (
        ring.put d.receive_rb xs,
        on_frame-IsFor ∙ rw there,
        ring.contents-put d.receive_rb xs
            ∙ rw (take-take-min (ring.space d.receive_rb) c.frame.data_len c.receive_buf),
      )

  -- A data frame for an open channel that is longer than the multiplexer's receive buffer makes the
  -- code read behind the end of that buffer, if the channel has room for more than it.
  pub on_frame_reads_outside :
      length c.receive_buf < c.frame.data_len
      → length c.receive_buf < ring.space d.receive_rb
      → on_frame c ≡ none
  unfolding read target
  on_frame_reads_outside longer room = rw on_frame-IsFor (ground arith)
