-- ===== src/Cmux/Receive/RoundTrip.antt =====
-- What `modem_cmux_transmit_frame` writes, `modem_cmux_process_received_byte` reads.
use modem_modules.Base.{
  ℕ, ◌*◌, ◌%◌, ◌≤◌, ◌<◌, ◌≡◌, ◌⊎◌, inl, inr, refl, ap, ◌∙◌, some, List, [], ◌∷◌, ◌++◌, arith, ◌==◌,
  if◌then◌else◌, ◌>>=◌, length, take, append_assoc, RingBuf, Crc8,
}
use native.Mathlib.Decide.{dec_lt}
use mathlib.Core.Path.{subst}
use modem_modules.Cmux.{
  Cmux, Receiver, ReceiveState, Frame, Pointer, frame_type_uih, fcs_init_value, read,
  receive_buffer, target,
}
use modem_modules.Cmux.Control.{on_frame}
use modem_modules.Cmux.Transmit.{
  address_octet, control_octet, last_length_octet, length_field, fcs_octet,
}
use modem_modules.Cmux.Transmit.Octets.{IsFrame, IsSendable, length_field_short, length_field_long}
use modem_modules.Cmux.Transmit.Wire.{wire}
use modem_modules.Cmux.Receive.{receive_sof, dispatch, process_received_bytes, go_to}
use modem_modules.Cmux.Receive.Header.{Progress, Progress-cast}
use modem_modules.Cmux.Receive.Steps.{fcs_step, checksum, Reads}
use modem_modules.Cmux.Receive.Decode.{
  run_close, at, Runs, Runs-append, Reaches, Reaches-trans, run_one, run_data,
}
use modem_modules.Cmux.Receive.Frames.{
  received_length, heading, header_octets, run_address, run_control, run_length,
}

module _ ⦃crc : Crc8⦄ where
  crc8-cons :
      (x : ℕ) (xs : List ℕ) (i : ℕ) → crc.crc8 (x ∷ xs) i ≡ crc.crc8 xs (crc.crc8 (x ∷ []) i)
  crc8-cons x xs i = crc.crc8-append (x ∷ []) xs i

  -- The transmitter's checksum is the one that the receiver computes from the whole header.
  fcs_octet-checksum :
      (f : Frame) (xs : List ℕ)
      → fcs_octet f (length xs) xs ≡ checksum f.frame_type (header_octets f (length xs)) xs
  unfolding fcs_octet
  fcs_octet-checksum f xs = elim (dec_lt 127 (length xs)) [
    | yes long ↦ rw (length_field_long (length xs) long) (
        ground (
          arith,
          crc8-cons (address_octet f)
              (control_octet f ∷ (length xs * 2 % 256) ∷ last_length_octet (length xs) ∷ [])
              fcs_init_value,
          crc8-cons (control_octet f) ((length xs * 2 % 256) ∷ last_length_octet (length xs) ∷ [])
              (crc.crc8 (address_octet f ∷ []) fcs_init_value),
          crc8-cons (length xs * 2 % 256) (last_length_octet (length xs) ∷ [])
              (crc.crc8 (control_octet f ∷ []) (crc.crc8 (address_octet f ∷ []) fcs_init_value)),
        ))
    | no short ↦ rw (length_field_short (length xs) (omega arith)) (
        ground (
          arith,
          crc8-cons (address_octet f) (control_octet f ∷ last_length_octet (length xs) ∷ [])
              fcs_init_value,
          crc8-cons (control_octet f) (last_length_octet (length xs) ∷ [])
              (crc.crc8 (address_octet f ∷ []) fcs_init_value),
        ))
  ]

read-nil :
    (r : Receiver) (p : Pointer) (xs : List ℕ) → length xs ≡ 0 → read r p (length xs) ≡ some xs
unfolding read
read-nil r p [] e = ground arith
read-nil r p (x ∷ xs) e = absurd (omega arith)

read-receive_buffer :
    (r : Receiver) (xs : List ℕ)
    → take r.receive_buf_len r.receive_buf ≡ xs
    → r.receive_buf_len ≡ length xs
    → length xs ≤ length r.receive_buf
    → read r receive_buffer (length xs) ≡ some xs
unfolding read target
read-receive_buffer r xs held count fits =
    let whole : take (length xs) r.receive_buf ≡ xs =
      subst (λ n. take n r.receive_buf ≡ xs) count held in
    ground (arith, whole)

-- A receiver that waits for a frame, with its buffers whole.
pub record IsReady (r : Receiver) : Type 0 where
  pub waits : r.receive_state ≡ ReceiveState.sof
  pub five : length r.frame_header ≡ 5
  pub room : length r.receive_buf ≡ r.receive_buf_size

module _ {Rb : Type 0} ⦃ring : RingBuf Rb⦄ ⦃crc : Crc8⦄ (c : Cmux Rb) (f : Frame)
    (v : IsFrame f) where
  -- The header of a frame, behind its opening flag.
  pub run_header :
      (r : Receiver) (n : ℕ)
      → r.receive_state ≡ ReceiveState.address
      → length r.frame_header ≡ 5
      → length r.receive_buf ≡ r.receive_buf_size
      → n < 32768
      → Reaches c r (header_octets f n) (λ r'.
        Progress r'
          (if n == 0 then ReceiveState.fcs else ReceiveState.payload)
          (header_octets f n)
          []
          (heading f r (received_length n)))
  run_header r n s five room small =
      Reaches-trans c r (address_octet f ∷ []) (control_octet f ∷ length_field n) _ _
        (run_address c f v r s five room)
        (λ r1 z1 p1.
          Reaches-trans c r1 (control_octet f ∷ []) (length_field n) _ _ (run_control c f v r1 _ p1)
            (λ r2 z2 p2. run_length c f v r2 _ n small p2))

  -- The data, if there are any.
  pub run_payload :
      (r : Receiver) (h xs : List ℕ) (g : Frame)
      → Progress r (if length xs == 0 then ReceiveState.fcs else ReceiveState.payload) h [] g
      → g.data_len ≡ length xs
      → length xs ≤ r.receive_buf_size
      → Reaches c r xs (λ r'. Progress r' ReceiveState.fcs h xs g)
  unfolding process_received_bytes
  run_payload r h [] g p e fits = (r, refl, refl, p)
  run_payload r h (x ∷ xs) g p e fits =
      run_data c r h [] x xs g (Progress-cast r h [] (ground arith) refl p) (omega arith)
        (omega arith)

  -- The pointer of the frame lets the checksum be computed: it leads to the receive buffer, or the
  -- frame has no data, or its checksum does not cover the data.
  abbrev pub CanCheck : Pointer → ℕ → Type 0
  CanCheck p n = (p ≡ receive_buffer) ⊎ (n ≡ 0) ⊎ (f.frame_type ≡ frame_type_uih)

  Reads-payload :
      (r : Receiver) (h xs : List ℕ) (g : Frame)
      → Progress r ReceiveState.fcs h xs g
      → g.frame_type ≡ f.frame_type
      → g.data_len ≡ length xs
      → length xs ≤ r.receive_buf_size
      → CanCheck g.contents (length xs)
      → Reads r g.frame_type xs
  Reads-payload r h xs g q t n fits can other =
      ap (λ (g : Frame). read r g.contents g.data_len) q.fields
      ∙ ap (read r g.contents) n
      ∙ (elim can [
        | inl e ↦ rw e (read-receive_buffer r xs q.gathered q.count (omega (arith, q.room)))
        | inr (inl z) ↦ read-nil r g.contents xs z
        | inr (inr u) ↦ absurd (other (t ∙ u))
      ])

  pub run_fcs :
      (r : Receiver) (h xs : List ℕ) (g : Frame)
      → Progress r ReceiveState.fcs h xs g
      → Reads r g.frame_type xs
      → Reaches c r (checksum g.frame_type h xs ∷ []) (λ r'. Progress r' ReceiveState.eof h xs g)
  unfolding dispatch
  run_fcs r h xs g p reads =
      let (r', e, z, q) = fcs_step r (checksum g.frame_type h xs) h xs g p reads in
      (
        r',
        run_one c r r' (checksum g.frame_type h xs) ReceiveState.fcs p.state (rw e),
        z,
        Progress-cast r' h xs (ground arith) refl q,
      )

  -- The octets of a frame between its flags.
  abbrev pub body : List ℕ → List ℕ
  body xs =
      header_octets f (length xs)
      ++ (xs ++ (checksum f.frame_type (header_octets f (length xs)) xs ∷ []))

  pub run_body :
      (r : Receiver) (xs : List ℕ)
      → r.receive_state ≡ ReceiveState.address
      → length r.frame_header ≡ 5
      → length r.receive_buf ≡ r.receive_buf_size
      → IsSendable (length xs)
      → length xs ≤ r.receive_buf_size
      → CanCheck r.frame.contents (length xs)
      → Reaches c r (body xs) (λ r'.
        Progress r' ReceiveState.eof (header_octets f (length xs)) xs (heading f r (length xs)))
  run_body r xs s five room can_send fits can =
      let h = header_octets f (length xs) in
      let g = heading f r (length xs) in
      let same : received_length (length xs) ≡ length xs = ground arith in
      Reaches-trans c r h (xs ++ (checksum f.frame_type h xs ∷ [])) _ _
        (run_header r (length xs) s five room (ground arith))
        (λ r1 z1 p1.
          Reaches-trans c r1 xs (checksum f.frame_type h xs ∷ []) _ _
            (run_payload r1 h xs g (Progress-cast r1 h [] refl (ap (heading f r) same) p1) refl
              (omega (arith, z1)))
            (λ r2 z2 p2.
              run_fcs r2 h xs g p2
                (Reads-payload r2 h xs g p2 refl refl (omega (arith, z1, z2)) can)))

  wire-body : (xs : List ℕ) → wire f xs ≡ 0xF9 ∷ (body xs ++ (0xF9 ∷ []))
  wire-body xs = simp (fcs_octet-checksum, append_assoc)

  -- The fields that the receiver hands on.
  abbrev pub delivered : ℕ → Frame
  delivered n = record f { contents = receive_buffer; data_len = n }

  run_open :
      (r : Receiver)
      → r.receive_state ≡ ReceiveState.sof
      → Runs c r (0xF9 ∷ []) (record r { receive_state = ReceiveState.address })
  unfolding dispatch receive_sof
  run_open r s =
      run_one c r (record r { receive_state = ReceiveState.address }) 0xF9 ReceiveState.sof s refl

  -- A receiver that waits for a frame, given the octets that the transmitter writes for one, hands
  -- on that frame, with its fields and its data in the receive buffer, to `modem_cmux_on_frame`, and
  -- waits for the next frame; nothing else of the multiplexer changes before. Needed: the data fit
  -- the receive buffer, their length is one that the length field carries (below 128, or with bit 7
  -- set), and the frame's pointer allows for the checksum.
  pub receive-wire :
      (xs : List ℕ)
      → IsReady c.receiver
      → IsSendable (length xs)
      → length xs ≤ c.receive_buf_size
      → CanCheck c.frame.contents (length xs)
      → (r : Receiver) × (process_received_bytes c (wire f xs)
          ≡ (on_frame (at c r) >>= λ c'. some (go_to c' ReceiveState.sof)))
        × (r.frame ≡ delivered (length xs))
        × (take (length xs) r.receive_buf ≡ xs)
  receive-wire xs ready can_send fits can =
      let opened = record (c.receiver) { receive_state = ReceiveState.address } in
      let (r, e, z, p) = run_body opened xs refl ready.five ready.room can_send fits can in
      let handed = record r { frame = record (r.frame) { contents = receive_buffer } } in
      (
        handed,
        rw (wire-body xs) (
            Runs-append c c.receiver opened (0xF9 ∷ []) (body xs ++ (0xF9 ∷ []))
              (run_open c.receiver ready.waits)
            ∙ Runs-append c opened r (body xs) (0xF9 ∷ []) e
            ∙ run_close c r (header_octets f (length xs)) xs (heading f opened (length xs)) p),
        ap (λ (g : Frame). record g { contents = receive_buffer }) p.fields,
        subst (λ n. take n r.receive_buf ≡ xs) p.count p.gathered,
      )
