-- ===== src/Cmux/Transmit/Wire.antt =====
-- What `modem_cmux_transmit_frame` leaves in the transmit buffer.
use modem_modules.Base.{
  ℕ, ◌+◌, ◌-◌, ◌≤◌, ◌<◌, ◌≡◌, sym, ap, ◌∙◌, some, List, [], ◌∷◌, ◌++◌, append-nil, append_assoc,
  arith, RingBuf, Crc8, length, take, min, length-take, length-append, take_all,
}
use modem_modules.Cmux.{Cmux, Frame, read, target, call, schedule, transmit_work}
use mathlib.Core.Path.{subst}
use modem_modules.Cmux.Transmit.{
  length_field, address_octet, control_octet, length_octets, fcs_octet, put_octets, fitting,
  transmit_frame,
}

module _ ⦃crc : Crc8⦄ where
  -- A frame as it goes over the wire: flag, address, control, length, data, checksum, flag.
  abbrev pub wire : Frame → List ℕ → List ℕ
  wire f xs =
      (0xF9 ∷ address_octet f ∷ control_octet f ∷ [])
      ++ (length_field (length xs) ++ (xs ++ (fcs_octet f (length xs) xs ∷ 0xF9 ∷ [])))

module _ {Rb : Type 0} ⦃ring : RingBuf Rb⦄ where
  -- `xs` is put whole behind what the buffer holds.
  pub record Holds (rb rb' : Rb) (xs : List ℕ) : Type 0 where
    pub held : ring.contents rb' ≡ ring.contents rb ++ xs
    pub left : ring.space rb' + length xs ≡ ring.space rb

  put-Holds : (rb : Rb) (xs : List ℕ) → length xs ≤ ring.space rb → Holds rb (ring.put rb xs) xs
  put-Holds rb xs h = record {
    held = ring.contents-put rb xs ∙ ap (λ t. ring.contents rb ++ t) (take_all _ xs h);
    left = omega (arith, ring.space-put rb xs);
  }

  Holds-trans : {a b c : Rb} (xs ys : List ℕ) → Holds a b xs → Holds b c ys → Holds a c (xs ++ ys)
  Holds-trans {a} xs ys p q = record {
    held = q.held ∙ ap (λ t. t ++ ys) p.held ∙ append_assoc (ring.contents a) xs ys;
    left = omega (arith, p.left, q.left, length-append xs ys);
  }

  Holds-nil : (rb : Rb) → Holds rb rb []
  Holds-nil rb = record { held = sym (append-nil _); left = omega arith }

  put_octets-Holds :
      (rb : Rb) (xs : List ℕ) → length xs ≤ ring.space rb → Holds rb (put_octets rb xs) xs
  unfolding put_octets
  put_octets-Holds rb [] h = Holds-nil rb
  put_octets-Holds rb (x ∷ xs) h =
      let first = put-Holds rb (x ∷ []) (omega arith) in
      Holds-trans (x ∷ []) xs first
        (put_octets-Holds (ring.put rb (x ∷ [])) xs (omega (arith, first.left)))

-- The length field is at most two octets.
length-length_field : (n : ℕ) → length (length_field n) ≤ 2
unfolding length_octets
length-length_field n = ground arith

module _ {Rb : Type 0} ⦃ring : RingBuf Rb⦄ ⦃crc : Crc8⦄ where
  -- The data of a frame that is sent when the buffer has this much room.
  abbrev pub sent_data : Cmux Rb → Frame → List ℕ
  sent_data c f =
      take (min (ring.space c.transmit_rb - 8) f.data_len) (target c.receiver f.contents)

  fitting-min :
      (rb : Rb) (n : ℕ)
      → 8 ≤ ring.space rb
      → ring.space rb < 65544
      → fitting rb n ≡ min (ring.space rb - 8) n
  unfolding fitting
  fitting-min rb n lo hi = ground arith

  abbrev pub frame_buffer : Rb → Frame → ℕ → List ℕ → Rb
  frame_buffer rb f n xs =
      put_octets
        (ring.put
          (put_octets (put_octets rb (0xF9 ∷ address_octet f ∷ control_octet f ∷ []))
            (length_field n))
          xs)
        (fcs_octet f n xs ∷ 0xF9 ∷ [])

  frame_buffer-Holds :
      (rb : Rb) (f : Frame) (xs : List ℕ)
      → length xs + 8 ≤ ring.space rb
      → Holds rb (frame_buffer rb f (length xs) xs) (wire f xs)
  frame_buffer-Holds rb f xs h =
      let head = 0xF9 ∷ address_octet f ∷ control_octet f ∷ [] in
      let field = length_field (length xs) in
      let tail = fcs_octet f (length xs) xs ∷ 0xF9 ∷ [] in
      let fits = length-length_field (length xs) in
      let p = put_octets-Holds rb head (omega arith) in
      let rb1 = put_octets rb head in
      let q = put_octets-Holds rb1 field (omega (arith, p.left, fits)) in
      let rb2 = put_octets rb1 field in
      let r = put-Holds rb2 xs (omega (arith, p.left, q.left, fits)) in
      let rb3 = ring.put rb2 xs in
      let s = put_octets-Holds rb3 tail (omega (arith, p.left, q.left, r.left, fits)) in
      Holds-trans head (field ++ (xs ++ tail)) p
        (Holds-trans field (xs ++ tail) q (Holds-trans xs tail r s))

  read-some :
      (c : Cmux Rb) (f : Frame) (n : ℕ)
      → n ≤ length (target c.receiver f.contents)
      → read c.receiver f.contents n ≡ some (take n (target c.receiver f.contents))
  unfolding read
  read-some c f n h = ground arith

  -- `modem_cmux_transmit_frame` sends the frame whole, with as much of its data as the room behind
  -- the eight octets that the code sets aside for the rest lets it, and returns that number. Needed:
  -- room for these eight octets, a buffer whose room a uint16_t counts, and data that is there.
  pub transmit_frame-wire :
      (c : Cmux Rb) (f : Frame)
      → 8 ≤ ring.space c.transmit_rb
      → ring.space c.transmit_rb < 65544
      → f.data_len ≤ length (target c.receiver f.contents)
      → (c' : Cmux Rb) × (transmit_frame c f
          ≡ some (c', min (ring.space c.transmit_rb - 8) f.data_len))
        × Holds c.transmit_rb c'.transmit_rb (wire f (sent_data c f))
  unfolding transmit_frame
  transmit_frame-wire c f lo hi there =
      let rb = c.transmit_rb in
      let n = min (ring.space rb - 8) f.data_len in
      let xs = sent_data c f in
      let len : length xs ≡ n = omega (arith, length-take n (target c.receiver f.contents)) in
      let whole = frame_buffer-Holds rb f xs (omega (arith, len)) in
      (
        call (schedule transmit_work 0) (record c { transmit_rb = frame_buffer rb f n xs }),
        rw (fitting-min rb f.data_len lo hi, read-some c f n (omega arith)),
        subst (λ k. Holds rb (frame_buffer rb f k xs) (wire f xs)) len whole,
      )
