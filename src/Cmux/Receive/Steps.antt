-- ===== src/Cmux/Receive/Steps.antt =====
-- One octet of a frame at a time: control, length, data and checksum.
use modem_modules.Base.{
  ℕ, ◌+◌, ◌-◌, ◌*◌, ◌/◌, ◌<◌, ◌≡◌, ◌≢◌, refl, sym, ap, some, List, [], ◌∷◌, ◌++◌, arith, bit_and,
  bit_or, ◌==◌, not, if◌then◌else◌, length, set, take, length-set, length-append, Crc8,
}
use native.Mathlib.Decide.{ℕ_discrete}
use mathlib.Core.Path.{subst}
use modem_modules.Cmux.{Receiver, ReceiveState, Frame, frame_type_uih, fcs_init_value, read}
use modem_modules.Cmux.Receive.{
  receive_control, receive_length, receive_length_cont, receive_data, receive_fcs, expected_fcs,
}
use modem_modules.Cmux.Receive.Header.{Progress, Next, stored, store_header-Header, take-set_count}

module _ (r : Receiver) (b : ℕ) (h d : List ℕ) (f : Frame) where
  pub control_step :
      Progress r ReceiveState.control h d f
      → length h < 5
      → Next r
          (λ r. receive_control r b)
          (λ r'.
            Progress r' ReceiveState.len
              (h ++ (b ∷ []))
              d
              (record f { pf = not (bit_and b 0x10 == 0); frame_type = bit_and b 0xEF }))
  unfolding receive_control
  control_step p short =
      let (e, held) = store_header-Header r b h p.header short in
      (
        record (stored r b) {
          frame = record (r.frame) { pf = not (bit_and b 0x10 == 0); frame_type = bit_and b 0xEF };
          receive_state = ReceiveState.len;
        },
        rw e,
        refl,
        record {
          state = refl;
          header = held;
          count = p.count;
          gathered = p.gathered;
          room = p.room;
          fields =
              ap
                (λ (g : Frame). record g {
                  pf = not (bit_and b 0x10 == 0);
                  frame_type = bit_and b 0xEF;
                })
                p.fields;
        },
      )

  -- The state behind the first length octet.
  abbrev pub after_length : ReceiveState
  after_length =
      if bit_and b 0x01 == 0
      then ReceiveState.len_cont
      else (if b / 2 == 0 then ReceiveState.fcs else ReceiveState.payload)

  pub length_step :
      Progress r ReceiveState.len h d f
      → length h < 5
      → Next r
          (λ r. receive_length r b)
          (λ r'. Progress r' after_length (h ++ (b ∷ [])) d (record f { data_len = b / 2 }))
  unfolding receive_length
  length_step p short =
      let (e, held) = store_header-Header r b h p.header short in
      (
        record (stored r b) {
          frame = record (r.frame) { data_len = b / 2 };
          receive_state = after_length;
        },
        rw e,
        refl,
        record {
          state = refl;
          header = held;
          count = p.count;
          gathered = p.gathered;
          room = p.room;
          fields = ap (λ (g : Frame). record g { data_len = b / 2 }) p.fields;
        },
      )

  pub length_cont_step :
      Progress r ReceiveState.len_cont h d f
      → length h < 5
      → Next r
          (λ r. receive_length_cont r b)
          (λ r'.
            Progress r' ReceiveState.payload
              (h ++ (b ∷ []))
              d
              (record f { data_len = bit_or f.data_len (b * 128) }))
  unfolding receive_length_cont
  length_cont_step p short =
      let (e, held) = store_header-Header r b h p.header short in
      (
        record (stored r b) {
          frame = record (r.frame) { data_len = bit_or r.frame.data_len (b * 128) };
          receive_state = ReceiveState.payload;
        },
        rw e,
        refl,
        record {
          state = refl;
          header = held;
          count = p.count;
          gathered = p.gathered;
          room = p.room;
          fields = ap (λ (g : Frame). record g { data_len = bit_or g.data_len (b * 128) }) p.fields;
        },
      )

  -- Data that fits the buffer: the state after it is left to the two tests of the code.
  pub data_step :
      Progress r ReceiveState.payload h d f
      → length d < r.receive_buf_size
      → Next r
          (λ r. receive_data r b)
          (λ r'.
            Progress r'
              (if f.data_len == length d + 1
                then ReceiveState.fcs
                else (if length d + 1 == r.receive_buf_size
                    then ReceiveState.eof
                    else ReceiveState.payload))
              h
              (d ++ (b ∷ []))
              f)
  unfolding receive_data
  data_step p fits =
      let next = λ (g : Frame) (n : ℕ).
        if g.data_len == n + 1
        then ReceiveState.fcs
        else (if n + 1 == r.receive_buf_size then ReceiveState.eof else ReceiveState.payload) in
      (
        record r {
          receive_buf = set r.receive_buf r.receive_buf_len b;
          receive_buf_len = r.receive_buf_len + 1;
          receive_state = next r.frame r.receive_buf_len;
        },
        ground (arith, p.count, p.room),
        refl,
        record {
          state = cc (p.fields, p.count);
          header = p.header;
          count = omega (arith, p.count, length-append d (b ∷ []));
          gathered =
              take-set_count r.receive_buf r.receive_buf_len b d (omega (arith, p.count, p.room))
                p.gathered;
          room = omega (arith, p.room, length-set r.receive_buf r.receive_buf_len b);
          fields = p.fields;
        },
      )

module _ ⦃crc : Crc8⦄ where
  -- The checksum that the receiver expects of header octets and data.
  abbrev pub checksum : ℕ → List ℕ → List ℕ → ℕ
  checksum t h d =
      if t == frame_type_uih
      then 0xFF - crc.crc8 h fcs_init_value
      else 0xFF - crc.crc8 d (crc.crc8 h fcs_init_value)

  -- The data that the code reads through the frame's pointer are the ones just received: the
  -- checksum of a frame of another type than UIH covers them.
  abbrev pub Reads : Receiver → ℕ → List ℕ → Type 0
  Reads r t d = t ≢ frame_type_uih → read r r.frame.contents r.frame.data_len ≡ some d

  expected_fcs-checksum :
      (r : Receiver) (h d : List ℕ)
      → take r.frame_header_len r.frame_header ≡ h
      → Reads r r.frame.frame_type d
      → expected_fcs r ≡ some (checksum r.frame.frame_type h d)
  unfolding expected_fcs
  expected_fcs-checksum r h d e reads = elim (ℕ_discrete r.frame.frame_type frame_type_uih) [
    | yes p ↦ ground (arith, e)
    | no p ↦ ground (arith, e, reads p)
  ]

  pub fcs_step :
      (r : Receiver) (b : ℕ) (h d : List ℕ) (f : Frame)
      → Progress r ReceiveState.fcs h d f
      → Reads r f.frame_type d
      → Next r
          (λ r. receive_fcs r b)
          (λ r'.
            Progress r'
              (if checksum f.frame_type h d == b then ReceiveState.eof else ReceiveState.drop_frame)
              h
              d
              f)
  unfolding receive_fcs
  fcs_step r b h d f p reads =
      let same : r.frame.frame_type ≡ f.frame_type = ap (λ (g : Frame). g.frame_type) p.fields in
      let e : expected_fcs r ≡ some (checksum f.frame_type h d) =
        subst (λ t. expected_fcs r ≡ some (checksum t h d)) same
          (expected_fcs-checksum r h d p.header.2 (subst (λ t. Reads r t d) (sym same) reads)) in
      (
        record r {
          receive_state =
              if checksum f.frame_type h d == b then ReceiveState.eof else ReceiveState.drop_frame;
        },
        rw e,
        refl,
        record {
          state = refl;
          header = p.header;
          count = p.count;
          gathered = p.gathered;
          room = p.room;
          fields = p.fields;
        },
      )
