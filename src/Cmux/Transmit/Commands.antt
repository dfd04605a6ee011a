-- ===== src/Cmux/Transmit/Commands.antt =====
-- What `modem_cmux_transmit_cmd_frame` and `modem_cmux_transmit_data_frame` do with the room in the
-- transmit buffer.
use modem_modules.Base.{
  ℕ, ◌+◌, ◌-◌, ◌≤◌, ◌<◌, ◌≡◌, true, false, some, arith, RingBuf, Crc8, ret, fail, enomem, length,
  length-take, length-append, take, min, inl, inr, ◌⊎◌, Bool-cases, List, ◌++◌, ◌∷◌, [],
}
use native.Mathlib.Decide.{dec_lt}
use mathlib.Core.Path.{subst}
use modem_modules.Cmux.{Cmux, Frame, target}
use modem_modules.Cmux.Transmit.{
  transmit_cmd_frame, transmit_data_frame, int16_result, length_octets, last_length_octet,
  length_field, fcs_octet,
}
use modem_modules.Cmux.Transmit.Wire.{wire, Holds, sent_data, transmit_frame-wire}

module _ ⦃crc : Crc8⦄ where
  length-wire : (f : Frame) (xs : List ℕ) → length xs + 6 ≤ length (wire f xs)
  length-wire f xs =
      let tail = fcs_octet f (length xs) xs ∷ 0xF9 ∷ [] in
      omega (
        arith,
        length-append (length_field (length xs)) (xs ++ tail),
        length-append (length_octets (length xs)) (last_length_octet (length xs) ∷ []),
        length-append xs tail,
      )

module _ {Rb : Type 0} ⦃ring : RingBuf Rb⦄ ⦃crc : Crc8⦄ where
  -- A command frame goes out whole or not at all: with twelve octets of room it is put whole behind
  -- what the buffer holds, with less nothing changes and the answer is false. The command has at most
  -- four bytes of data, which are there.
  pub transmit_cmd_frame-wire :
      (c : Cmux Rb) (f : Frame)
      → ring.space c.transmit_rb < 65536
      → f.data_len ≤ 4
      → f.data_len ≤ length (target c.receiver f.contents)
      → ((12 ≤ ring.space c.transmit_rb)
          × ((c' : Cmux Rb) × (transmit_cmd_frame c f ≡ some (c', true))
              × Holds c.transmit_rb c'.transmit_rb
                  (wire f (take f.data_len (target c.receiver f.contents)))))
        ⊎ ((ring.space c.transmit_rb < 12) × (transmit_cmd_frame c f ≡ some (c, false)))
  unfolding transmit_cmd_frame
  transmit_cmd_frame-wire c f hi small there = elim (dec_lt (ring.space c.transmit_rb) 12) [
    | yes tight ↦ inr (tight, ground arith)
    | no roomy ↦
        let (c', e, h) = transmit_frame-wire c f (omega arith) (omega arith) there in
        let all : min (ring.space c.transmit_rb - 8) f.data_len ≡ f.data_len = omega arith in
        inl (
          omega arith,
          (
            c',
            ground (arith, e),
            subst
                (λ n.
                  Holds c.transmit_rb c'.transmit_rb
                    (wire f (take n (target c.receiver f.contents))))
                all h,
          ),
        )
  ]

  -- With flow control off a data frame is not sent, and with less than forty octets of room it is
  -- refused; otherwise it goes out with as much of its data as there is room for.
  pub transmit_data_frame_cases :
      (c : Cmux Rb) (f : Frame)
      → ring.space c.transmit_rb < 65536
      → f.data_len ≤ length (target c.receiver f.contents)
      → ((c.flow_control_on ≡ false) × (transmit_data_frame c f ≡ some (c, ret 0)))
        ⊎ ((ring.space c.transmit_rb < 40) × (transmit_data_frame c f ≡ some (c, fail enomem)))
        ⊎ ((c.flow_control_on ≡ true)
            × (40 ≤ ring.space c.transmit_rb)
            × ((c' : Cmux Rb) × (transmit_data_frame c f
                  ≡ some (c', int16_result (min (ring.space c.transmit_rb - 8) f.data_len)))
                × Holds c.transmit_rb c'.transmit_rb (wire f (sent_data c f))))
  unfolding transmit_data_frame
  transmit_data_frame_cases c f hi there = elim (Bool-cases c.flow_control_on) [
    | inr off ↦ inl (off, rw off)
    | inl on ↦ elim (dec_lt (ring.space c.transmit_rb) 40) [
      | yes tight ↦ inr (inl (tight, ground arith))
      | no roomy ↦
          let (c', e, h) = transmit_frame-wire c f (omega arith) (omega arith) there in
          inr (inr (on, omega arith, (c', ground (arith, e), h)))
    ]
  ]

  -- The two command frames that the code means to reserve are not kept free: a data frame with at
  -- least as much data as the room behind its own octets leaves less room than a command frame
  -- needs, and the command frame that comes next is refused.
  pub reserve_not_kept :
      (c : Cmux Rb) (f command : Frame)
      → c.flow_control_on ≡ true
      → 40 ≤ ring.space c.transmit_rb
      → ring.space c.transmit_rb < 65536
      → ring.space c.transmit_rb ≤ f.data_len + 8
      → f.data_len ≤ length (target c.receiver f.contents)
      → (c' : Cmux Rb) × (transmit_data_frame c f
          ≡ some (c', int16_result (ring.space c.transmit_rb - 8)))
        × (ring.space c'.transmit_rb ≤ 2)
        × (transmit_cmd_frame c' command ≡ some (c', false))
  unfolding transmit_data_frame transmit_cmd_frame
  reserve_not_kept c f command on lo hi full there =
      let (c', e, h) = transmit_frame-wire c f (omega arith) (omega arith) there in
      let n : min (ring.space c.transmit_rb - 8) f.data_len ≡ ring.space c.transmit_rb - 8 =
        omega arith in
      let sent : length (sent_data c f) ≡ ring.space c.transmit_rb - 8 = omega (
        arith,
        length-take (min (ring.space c.transmit_rb - 8) f.data_len) (target c.receiver f.contents),
      ) in
      let left : ring.space c'.transmit_rb ≤ 2 =
        omega (arith, h.left, sent, length-wire f (sent_data c f)) in
      (c', rw (on) (ground (arith, e, n)), left, ground (arith, left))
