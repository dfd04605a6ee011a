-- ===== src/Cmux/Receive/Overrun.antt =====
-- Frames whose length field the receiver misreads, and frames that are longer than its buffer.
use modem_modules.Base.{
  ℕ, ◌+◌, ◌/◌, ◌%◌, ◌<◌, ◌≡◌, ◌≢◌, refl, ap, ◌∙◌, some, List, [], ◌∷◌, ◌++◌, arith, ◌>>=◌, length,
  RingBuf, Crc8,
}
use modem_modules.Cmux.{Cmux, Receiver, ReceiveState, Frame, receive_buffer}
use modem_modules.Cmux.Control.{on_frame}
use modem_modules.Cmux.Transmit.Octets.{IsFrame}
use modem_modules.Cmux.Receive.{dispatch, process_received_bytes, go_to}
use modem_modules.Cmux.Receive.Header.{Progress, Progress-cast}
use modem_modules.Cmux.Receive.Steps.{data_step}
use modem_modules.Cmux.Receive.Decode.{at, Runs-append, Reaches, run_one, run_close}
use modem_modules.Cmux.Receive.Frames.{received_length, header_octets}
use modem_modules.Cmux.Receive.RoundTrip.{run_header}

module _ {Rb : Type 0} ⦃ring : RingBuf Rb⦄ ⦃crc : Crc8⦄ (c : Cmux Rb) where
  -- The header that the transmitter writes for a frame with `n` bytes of data, where `n` is above
  -- 127, below 2 ^ 15 and has its bit 7 clear, makes the receiver wait for `n + 128` bytes: the
  -- transmitter sets the lowest bit of the second length octet, and the receiver takes it as bit 7.
  pub long_length_misread :
      (f : Frame) (r : Receiver) (n : ℕ)
      → IsFrame f
      → r.receive_state ≡ ReceiveState.address
      → length r.frame_header ≡ 5
      → length r.receive_buf ≡ r.receive_buf_size
      → 127 < n
      → n < 32768
      → n / 128 % 2 ≡ 0
      → Reaches c r
          (header_octets f n)
          (λ r'. (r'.receive_state ≡ ReceiveState.payload) × (r'.frame.data_len ≡ n + 128))
  long_length_misread f r n v s five room long small even =
      let (r', e, z, p) = run_header c f v r n s five room small in
      let wrong : received_length n ≡ n + 128 = ground arith in
      (r', e, z, (p.state ∙ ground arith, ap (λ (g : Frame). g.data_len) p.fields ∙ wrong))

  -- A data octet that fills the receive buffer, where the frame's data are not of just that length,
  -- and a flag behind it hand the frame on to `modem_cmux_on_frame` as if it were whole: its
  -- checksum is not looked at, and its length is the one of its header.
  pub overrun_handed_on :
      (r : Receiver) (h d : List ℕ) (f : Frame) (b : ℕ)
      → Progress r ReceiveState.payload h d f
      → length d + 1 ≡ r.receive_buf_size
      → f.data_len ≢ r.receive_buf_size
      → (r' : Receiver) × (process_received_bytes (at c r) (b ∷ 0xF9 ∷ [])
          ≡ (on_frame (at c r') >>= λ c'. some (go_to c' ReceiveState.sof)))
        × (r'.frame ≡ record f { contents = receive_buffer })
        × (length r'.receive_buf ≡ r.receive_buf_size)
  unfolding dispatch
  overrun_handed_on r h d f b p full longer =
      let (r1, e, z, q) = data_step r b h d f p (omega arith) in
      let dropped =
        Progress-cast r1 {t = ReceiveState.eof} h (d ++ (b ∷ [])) (ground (arith, full, longer))
          refl q in
      (
        record r1 { frame = record (r1.frame) { contents = receive_buffer } },
        Runs-append c r r1 (b ∷ []) (0xF9 ∷ [])
              (run_one c r r1 b ReceiveState.payload p.state (rw e))
            ∙ run_close c r1 h (d ++ (b ∷ [])) f dropped,
        ap (λ (g : Frame). record g { contents = receive_buffer }) q.fields,
        q.room ∙ z,
      )
