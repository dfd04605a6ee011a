-- ===== src/Cmux/Receive/Frames.antt =====
-- A frame on the wire, received whole.
use modem_modules.Base.{
  ℕ, ◌+◌, ◌*◌, ◌/◌, ◌%◌, ◌≤◌, ◌<◌, ◌≡◌, refl, sym, ap, ◌∙◌, Bool, List, [], ◌∷◌, ◌++◌, arith, ◌==◌,
  if◌then◌else◌, ltb, length, RingBuf, Crc8,
}
use native.Mathlib.Decide.{dec_lt}
use mathlib.Core.Path.{subst}
use modem_modules.Cmux.{Cmux, Receiver, ReceiveState, Frame}
use modem_modules.Cmux.Transmit.{address_octet, control_octet, last_length_octet, length_field}
use modem_modules.Cmux.Transmit.Octets.{
  IsFrame, address_octet-cr, address_octet-address, control_octet-pf, control_octet-type,
  short_length, long_length, length_field_short, length_field_long,
}
use modem_modules.Cmux.Receive.{dispatch}
use modem_modules.Cmux.Receive.Header.{Progress, Progress-cast, address_step}
use modem_modules.Cmux.Receive.Steps.{control_step, length_step, length_cont_step}
use modem_modules.Cmux.Receive.Decode.{Runs-append, Reaches, run_one}

-- The length that the receiver reads from the length field of `n`.
abbrev pub received_length : ℕ → ℕ
received_length n = if ltb 127 n then n % 128 + n / 256 * 256 + 128 else n

-- What the receiver has of the frame's fields behind its header.
abbrev pub heading : Frame → Receiver → ℕ → Frame
heading f r n = record {
  dlci_address = f.dlci_address;
  cr = f.cr;
  pf = f.pf;
  frame_type = f.frame_type;
  contents = r.frame.contents;
  data_len = n;
}

abbrev pub header_octets : Frame → ℕ → List ℕ
header_octets f n = address_octet f ∷ control_octet f ∷ length_field n

module _ {Rb : Type 0} ⦃ring : RingBuf Rb⦄ ⦃crc : Crc8⦄ (c : Cmux Rb) (f : Frame)
    (v : IsFrame f) where
  pub run_address :
      (r : Receiver)
      → r.receive_state ≡ ReceiveState.address
      → length r.frame_header ≡ 5
      → length r.receive_buf ≡ r.receive_buf_size
      → Reaches c r (address_octet f ∷ []) (λ r'.
        Progress r' ReceiveState.control
          (address_octet f ∷ [])
          []
          (record (r.frame) { cr = f.cr; dlci_address = f.dlci_address }))
  unfolding dispatch
  run_address r s five room =
      let (r', e, z, p) = address_step r (address_octet f) five room in
      let known = λ (b : Bool) (a : ℕ).
        Progress r' ReceiveState.control (address_octet f ∷ []) []
          (record (r.frame) { cr = b; dlci_address = a }) in
      (
        r',
        run_one c r r' (address_octet f) ReceiveState.address s (rw e),
        z,
        subst (λ b. known b f.dlci_address) (address_octet-cr f v)
            (subst (known _) (address_octet-address f v) p),
      )

  pub run_control :
      (r : Receiver) (g : Frame)
      → Progress r ReceiveState.control (address_octet f ∷ []) [] g
      → Reaches c r (control_octet f ∷ []) (λ r'.
        Progress r' ReceiveState.len
          (address_octet f ∷ control_octet f ∷ [])
          []
          (record g { pf = f.pf; frame_type = f.frame_type }))
  unfolding dispatch
  run_control r g p =
      let (r', e, z, q) =
        control_step r (control_octet f) (address_octet f ∷ []) [] g p (omega arith) in
      let known = λ (b : Bool) (t : ℕ).
        Progress r' ReceiveState.len (address_octet f ∷ control_octet f ∷ []) []
          (record g { pf = b; frame_type = t }) in
      (
        r',
        run_one c r r' (control_octet f) ReceiveState.control p.state (rw e),
        z,
        subst (λ b. known b f.frame_type) (control_octet-pf f v)
            (subst (known _) (control_octet-type f v) q),
      )

  abbrev AfterLength : Frame → ℕ → Receiver → Type 0
  AfterLength g n r =
      Progress r (if n == 0 then ReceiveState.fcs else ReceiveState.payload) (header_octets f n) []
        (record g { data_len = received_length n })

  run_length_short :
      (r : Receiver) (g : Frame) (n : ℕ)
      → n ≤ 127
      → Progress r ReceiveState.len (address_octet f ∷ control_octet f ∷ []) [] g
      → Reaches c r (length_field n) (AfterLength g n)
  unfolding dispatch
  run_length_short r g n short p =
      let o = last_length_octet n in
      let h = address_octet f ∷ control_octet f ∷ [] in
      let (odd, half) = short_length n short in
      let (r', e, z, q) = length_step r o h [] g p (omega arith) in
      let same : received_length n ≡ n = ground arith in
      rw (length_field_short n short) (
        r',
        run_one c r r' o ReceiveState.len p.state (rw e),
        z,
        Progress-cast r' (h ++ (o ∷ [])) [] (ground (arith, odd, half))
            (ap (λ k. record g { data_len = k }) (half ∙ sym same)) q,
      )

  run_length_long :
      (r : Receiver) (g : Frame) (n : ℕ)
      → 127 < n
      → n < 32768
      → Progress r ReceiveState.len (address_octet f ∷ control_octet f ∷ []) [] g
      → Reaches c r (length_field n) (AfterLength g n)
  unfolding dispatch
  run_length_long r g n long small p =
      let first : ℕ = n * 2 % 256 in
      let o = last_length_octet n in
      let h = address_octet f ∷ control_octet f ∷ [] in
      let (even, whole) = long_length n long small in
      let same : received_length n ≡ n % 128 + n / 256 * 256 + 128 = ground arith in
      let (r1, e1, z1, q1) = length_step r first h [] g p (omega arith) in
      let waits =
        Progress-cast r1 {t = ReceiveState.len_cont} (h ++ (first ∷ [])) [] (ground (arith, even))
          refl q1 in
      let (r2, e2, z2, q2) =
        length_cont_step r1 o (h ++ (first ∷ [])) [] (record g { data_len = first / 2 }) waits
          (omega arith) in
      rw (length_field_long n long) (
        r2,
        Runs-append c r r1 (first ∷ []) (o ∷ [])
              (run_one c r r1 first ReceiveState.len p.state (rw e1))
            ∙ run_one c r1 r2 o ReceiveState.len_cont waits.state (rw e2),
        z2 ∙ z1,
        Progress-cast r2 (h ++ (first ∷ o ∷ [])) [] (ground arith)
            (ap (λ k. record g { data_len = k }) (whole ∙ sym same)) q2,
      )

  -- The length field, of one octet or of two.
  pub run_length :
      (r : Receiver) (g : Frame) (n : ℕ)
      → n < 32768
      → Progress r ReceiveState.len (address_octet f ∷ control_octet f ∷ []) [] g
      → Reaches c r (length_field n) (AfterLength g n)
  run_length r g n small p = elim (dec_lt 127 n) [
    | no short ↦ run_length_short r g n (omega arith) p
    | yes long ↦ run_length_long r g n long small p
  ]
