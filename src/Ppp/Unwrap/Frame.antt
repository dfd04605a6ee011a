-- ===== src/Ppp/Unwrap/Frame.antt =====
-- A PPP frame, received.
use modem_modules.Base.{
  length, length-append, ℕ, ◌<◌, ◌≡◌, ◌≢◌, refl, sym, ap, ◌∙◌, Bool-cases, inl, inr, true,
  Option-cases, none, some, List, [], ◌∷◌, ◌++◌, append_assoc, append-nil, bit_xor, ◌>>=◌, arith,
  All, All-append, take-append_two,
}
use native.Mathlib.Decide.{ℕ_discrete}
use modem_modules.Base.Bits.{bit_xor_escape}
use modem_modules.Base.Net.{NetPkt}
use modem_modules.Ppp.{Ppp, ReceiveState, recv_data, call}
use modem_modules.Ppp.Wrap.{needs_escape}
use modem_modules.Ppp.Wrap.Stuffing.{not-needs_escape, stuff_octet, stuff, framed}
use modem_modules.Ppp.Unwrap.{
  Supply, receive_in, process_received_byte, process_received_bytes, receive_writing,
  write_or_escape, write_byte, receive_end, receive_hdr_23, expect,
}

module _ {Pkt : Type 0} ⦃net : NetPkt Pkt⦄ where
  -- The network has packets and room to give.
  pub record IsAmple (supply : Supply Pkt) : Type 0 where
    pub fresh : Pkt
    pub alloc_some : supply.alloc ≡ some fresh
    pub empty : net.whole fresh ≡ []
    pub room : 0 < net.room fresh
    pub grow_some :
        (k : Pkt)
        → (k' : Pkt) × (supply.grow k ≡ some k')
          × (net.whole k' ≡ net.whole k)
          × (net.rest k' ≡ net.rest k)
          × (net.room k < net.room k')

module _ {Pkt : Type 0} ⦃net : NetPkt Pkt⦄ where
  -- The packet holds `xs` and its cursor stands behind them.
  abbrev Holds : Pkt → List ℕ → Type 0
  Holds k xs = (net.whole k ≡ xs) × (net.rest k ≡ [])

module _ {Pkt Rb : Type 0} ⦃net : NetPkt Pkt⦄ (supply : Supply Pkt) (ample : IsAmple supply) where
  process_received_bytes-append :
      (p : Ppp Pkt Rb) (xs ys : List ℕ)
      → process_received_bytes supply p (xs ++ ys)
        ≡ (process_received_bytes supply p xs >>= λ p'. process_received_bytes supply p' ys)
  unfolding process_received_bytes
  process_received_bytes-append p [] ys = refl
  process_received_bytes-append p (x ∷ xs) ys =
      elim (Option-cases (process_received_byte supply p x)) [
        | inl e ↦ rw e
        | inr (p', e) ↦ rw e (process_received_bytes-append p' xs ys)
      ]

  -- The receiver in the middle of a frame, with `xs` written so far.
  abbrev Writing : Ppp Pkt Rb → Ppp Pkt Rb → List ℕ → Type 0
  Writing p q xs =
      (k : Pkt) × (q ≡ record p { rx_pkt = some k; receive_state = ReceiveState.writing })
      × Holds k xs
      × (0 < net.room k)

  -- An octet is written where there is room.
  write_byte-some :
      (p : Ppp Pkt Rb) (k : Pkt) (b : ℕ) (xs : List ℕ)
      → Holds k xs
      → 1 < net.room k
      → Writing p (write_byte p k b) (xs ++ (b ∷ []))
  unfolding write_byte
  write_byte-some p k b xs e room =
      let (k', w, whole, ended, less) = net.write_u8_some k b (omega arith) e.1 in
      (k', rw (w, write_byte), (whole ∙ ap (λ t. t ++ (b ∷ [])) e.0, ended), omega arith)

  -- The room that the code asks for before each octet.
  roomy :
      (p : Ppp Pkt Rb) (k : Pkt) (b : ℕ)
      → 0 < net.room k
      → b ≢ 0x7E
      → (k' : Pkt) × (receive_writing supply p k b ≡ write_or_escape p k' b)
        × (net.whole k' ≡ net.whole k)
        × (net.rest k' ≡ net.rest k)
        × (1 < net.room k')
  unfolding receive_writing
  roomy p k b room plain = elim (ℕ_discrete (net.room k) 1) [
    | yes one ↦
        let (k', g, whole, same, more) = ample.grow_some k in
        (k', ground (arith, g), whole, same, omega arith)
    | no many ↦ (k, ground arith, refl, refl, omega arith)
  ]

  -- The receiver in the state after `k` was written.
  abbrev at : Ppp Pkt Rb → Pkt → Ppp Pkt Rb
  at p k = record p { rx_pkt = some k; receive_state = ReceiveState.writing }

  plain_octet :
      (p : Ppp Pkt Rb) (k : Pkt) (b : ℕ) (xs : List ℕ)
      → Holds k xs
      → 0 < net.room k
      → b ≢ 0x7E
      → b ≢ 0x7D
      → (q : Ppp Pkt Rb) × (process_received_bytes supply (at p k) (b ∷ []) ≡ some q)
        × Writing p q (xs ++ (b ∷ []))
  unfolding process_received_bytes process_received_byte receive_in write_or_escape
  plain_octet p k b xs e room ne ne' =
      let (k1, step, whole, same, more) = roomy (at p k) k b room ne in
      let (k2, w, whole2, room2) =
        write_byte-some (at p k) k1 b xs (whole ∙ e.0, same ∙ e.1) more in
      let unescaped : write_or_escape (at p k) k1 b ≡ write_byte (at p k) k1 b = ground arith in
      (write_byte (at p k) k1 b, ap some (step ∙ unescaped), (k2, w, whole2, room2))

  escaped_octet :
      (p : Ppp Pkt Rb) (k : Pkt) (b : ℕ) (xs : List ℕ)
      → Holds k xs
      → 0 < net.room k
      → b < 256
      → (q : Ppp Pkt Rb) × (process_received_bytes supply (at p k) (0x7D ∷ bit_xor b 0x20 ∷ [])
          ≡ some q)
        × Writing p q (xs ++ (b ∷ []))
  unfolding process_received_bytes process_received_byte receive_in write_or_escape
  escaped_octet p k b xs e room small =
      let (k1, step, whole, same, more) = roomy (at p k) k 0x7D room (omega arith) in
      let waiting = record p { rx_pkt = some k1; receive_state = ReceiveState.unescaping } in
      let (k2, w, whole2, room2) = write_byte-some waiting k1 b xs (whole ∙ e.0, same ∙ e.1) more in
      (write_byte waiting k1 b, rw step (rw (bit_xor_escape b small)), (k2, w, whole2, room2))

  stuffed_octet :
      (p : Ppp Pkt Rb) (k : Pkt) (b : ℕ) (xs : List ℕ)
      → Holds k xs
      → 0 < net.room k
      → b < 256
      → (q : Ppp Pkt Rb) × (process_received_bytes supply (at p k) (stuff_octet b) ≡ some q)
        × Writing p q (xs ++ (b ∷ []))
  stuffed_octet p k b xs e room small = elim (Bool-cases (needs_escape b)) [
    | inl t ↦ rw t (escaped_octet p k b xs e room small)
    | inr t ↦ rw t (plain_octet p k b xs e room (not-needs_escape b t).0 (not-needs_escape b t).1)
  ]

  -- Stuffed octets are written as they were.
  stuffed :
      (p : Ppp Pkt Rb) (k : Pkt) (bs xs : List ℕ)
      → Holds k xs
      → 0 < net.room k
      → All (λ b. b < 256) bs
      → (q : Ppp Pkt Rb) × (process_received_bytes supply (at p k) (stuff bs) ≡ some q)
        × Writing p q (xs ++ bs)
  unfolding process_received_bytes stuff
  stuffed p k [] xs e room small = (at p k, refl, (k, refl, (e.0 ∙ sym (append-nil xs), e.1), room))
  stuffed p k (b ∷ bs) xs e room (small, rest) =
      let (q1, e1, (k1, w1, whole1, room1)) = stuffed_octet p k b xs e room small in
      let (q2, e2, (k2, w2, whole2, room2)) = stuffed p k1 bs (xs ++ (b ∷ [])) whole1 room1 rest in
      (
        q2,
        process_received_bytes-append (at p k) (stuff_octet b) (stuff bs) ∙ rw (e1, w1) e2,
        (k2, w2, (whole2.0 ∙ append_assoc xs (b ∷ []) bs, whole2.1), room2),
      )

  -- The header, up to a packet to write to.
  header :
      (p : Ppp Pkt Rb)
      → p.receive_state ≡ ReceiveState.hdr_sof
      → process_received_bytes supply p (0x7E ∷ 0xFF ∷ 0x7D ∷ 0x23 ∷ [])
        ≡ some (at p (net.cursor_init ample.fresh))
  unfolding process_received_bytes process_received_byte receive_in receive_hdr_23 expect
  header p s = rw (ap (λ t. receive_in supply t p 0x7E) s) (rw (ample.alloc_some))

  -- The closing flag.
  close :
      (p : Ppp Pkt Rb) (k : Pkt)
      → process_received_bytes supply (at p k) (0x7E ∷ []) ≡ some (receive_end (at p k) k)
  unfolding process_received_bytes process_received_byte receive_in receive_writing
  close p k = refl

  -- A frame with any two octets where the checksum stands is received: the network is handed one
  -- packet that holds the payload, marked as PPP, and the receiver waits for the next frame with no
  -- packet of its own. The checksum is not looked at. Needed: the receiver waits for a frame, the
  -- network gives packets and room, and the octets are below 256.
  pub receive-framed :
      (p : Ppp Pkt Rb) (payload : List ℕ) (low high : ℕ)
      → p.receive_state ≡ ReceiveState.hdr_sof
      → All (λ b. b < 256) payload
      → low < 256
      → high < 256
      → (q : Pkt) × (process_received_bytes supply p (framed (payload ++ (low ∷ high ∷ [])))
          ≡ some (
              call
                (recv_data q)
                (record p { rx_pkt = none; receive_state = ReceiveState.hdr_sof })))
        × (net.whole q ≡ payload)
        × (net.is_ppp q ≡ true)
  receive-framed p payload low high s small l h =
      let bs = payload ++ (low ∷ high ∷ []) in
      let k0 = net.cursor_init ample.fresh in
      let (q1, e1, (k1, w1, holds1, room1)) =
        stuffed p k0 bs []
          (net.whole-cursor_init _ ∙ ample.empty, net.rest-cursor_init _ ∙ ample.empty)
          (rw net.room-cursor_init ample.room)
          (All-append _ payload (low ∷ high ∷ []) small (l, (h, tt))) in
      let whole1 = holds1.0 in
      let q = net.set_ppp (net.cursor_init (net.remove_tail k1 2)) in
      let whole : net.whole q ≡ payload =
        rw
          (
            net.whole-set_ppp,
            net.whole-cursor_init,
            net.whole-remove_tail k1 2
                (omega (arith, ap length whole1, length-append payload (low ∷ high ∷ []))),
            whole1,
          )
          (take-append_two payload low high) in
      (
        q,
        process_received_bytes-append p (0x7E ∷ 0xFF ∷ 0x7D ∷ 0x23 ∷ []) (stuff bs ++ (0x7E ∷ []))
            ∙ rw (header p s) (
                process_received_bytes-append (at p k0) (stuff bs) (0x7E ∷ [])
                ∙ rw (e1, w1) (close p k1 ∙ unfold receive_end in refl)),
        whole,
        net.is_ppp-set_ppp _,
      )
