-- ===== src/Cmux/Transmit.antt =====
-- Sending frames: `modem_cmux_transmit_frame`, `modem_cmux_transmit_cmd_frame` and
-- `modem_cmux_transmit_data_frame`. A mutex is taken around each and is not modelled.
pub mod Octets
pub mod Wire
pub mod Commands
use modem_modules.Base.{
  ℕ, ◌+◌, ◌-◌, ◌*◌, ◌/◌, ◌%◌, bit_or, Bool, true, false, Option, some, List, [], ◌∷◌, ◌++◌, RingBuf,
  Crc8, Ret, ret, fail, negative, enomem, ltb, ◌==◌, if◌then◌else◌, ◌>>=◌, not,
}
use modem_modules.Cmux.{
  Cmux, Frame, frame_type_uih, frame_size_max, data_frame_size_min, cmd_frame_size_max,
  fcs_init_value, read, call, schedule, transmit_work,
}

abbrev pub flag : Bool → ℕ
flag true = 1
flag false = 0

unfoldable pub address_octet : Frame → ℕ
address_octet f = bit_or (bit_or 0x01 (flag f.cr * 2)) (f.dlci_address * 4) % 256

unfoldable pub control_octet : Frame → ℕ
control_octet f = bit_or f.frame_type (flag f.pf * 16) % 256

-- The octets of the length field but the last, and the last.
unfoldable pub length_octets : ℕ → List ℕ
length_octets n = if ltb 127 n then (n * 2 % 256) ∷ [] else []

unfoldable pub last_length_octet : ℕ → ℕ
last_length_octet n = if ltb 127 n then bit_or 0x01 (n / 128) % 256 else bit_or 0x01 (n * 2) % 256

-- The length field.
abbrev pub length_field : ℕ → List ℕ
length_field n = length_octets n ++ (last_length_octet n ∷ [])

module _ ⦃crc : Crc8⦄ where
  -- The checksum octet, from the octets in the order in which the code feeds them; the checksum is
  -- an octet, so the difference is not negative.
  unfoldable pub fcs_octet : Frame → ℕ → List ℕ → ℕ
  fcs_octet f n payload =
      let fcs_address = crc.crc8 (address_octet f ∷ []) fcs_init_value in
      let fcs_control = crc.crc8 (control_octet f ∷ []) fcs_address in
      let fcs_length =
        if ltb 127 n then crc.crc8 ((n * 2 % 256) ∷ []) fcs_control else fcs_control in
      let fcs_last = crc.crc8 (last_length_octet n ∷ []) fcs_length in
      if f.frame_type == frame_type_uih then 0xFF - fcs_last else 0xFF - crc.crc8 payload fcs_last

module _ {Rb : Type 0} ⦃ring : RingBuf Rb⦄ where
  -- Put a list of octets one call at a time.
  unfoldable pub put_octets : Rb → List ℕ → Rb
  put_octets rb [] = rb
  put_octets rb (x ∷ xs) = put_octets (ring.put rb (x ∷ [])) xs

  -- The number of data bytes that are sent: the uint16_t room behind the frame's own octets.
  unfoldable pub fitting : Rb → ℕ → ℕ
  fitting rb n =
      let space = (ring.space rb + 65536 - frame_size_max) % 65536 in
      if ltb space n then space else n

abbrev pub int16_result : ℕ → Ret
int16_result n = if ltb n 32768 then ret n else negative (65536 - n)

module _ {Rb : Type 0} ⦃ring : RingBuf Rb⦄ ⦃crc : Crc8⦄ where
  unfoldable pub transmit_frame : Cmux Rb → Frame → Option (Cmux Rb × ℕ)
  transmit_frame c f =
      let n = fitting c.transmit_rb f.data_len in
      read c.receiver f.contents n >>= λ payload.
      let header = 0xF9 ∷ address_octet f ∷ control_octet f ∷ [] in
      let rb_header = put_octets c.transmit_rb header in
      let rb_length = put_octets rb_header (length_field n) in
      let rb_data = ring.put rb_length payload in
      let rb = put_octets rb_data (fcs_octet f n payload ∷ 0xF9 ∷ []) in
      some (call (schedule transmit_work 0) (record c { transmit_rb = rb }), n)

  unfoldable pub transmit_cmd_frame : Cmux Rb → Frame → Option (Cmux Rb × Bool)
  transmit_cmd_frame c f =
      if ltb (ring.space c.transmit_rb % 65536) cmd_frame_size_max
      then some (c, false)
      else (transmit_frame c f >>= λ s. some (s.0, true))

  -- The result is an int16_t.
  unfoldable pub transmit_data_frame : Cmux Rb → Frame → Option (Cmux Rb × Ret)
  transmit_data_frame c f =
      if not c.flow_control_on
      then some (c, ret 0)
      else (if ltb (ring.space c.transmit_rb % 65536) (cmd_frame_size_max * 2 + data_frame_size_min)
          then some (c, fail enomem)
          else (transmit_frame c f >>= λ s. some (s.0, int16_result s.1)))
