-- ===== src/Ppp/Wrap/Frame.antt =====
-- The octets that `modem_ppp_wrap_net_pkt_byte` gives for a packet, call after call.
use modem_modules.Base.{
  ℕ, ◌/◌, ◌%◌, ◌<◌, ◌≡◌, refl, ap, ◌∙◌, Bool, Bool-cases, inl, inr, some, List, [], ◌∷◌, ◌++◌,
  append_assoc, bit_xor, if◌then◌else◌, arith, length, cons_of_pos, Crc16,
}
use mathlib.Core.Path.{subst}
use modem_modules.Base.Net.{NetPkt}
use modem_modules.Ppp.{Ppp, TransmitState}
use modem_modules.Ppp.Wrap.{
  needs_escape, protocol_of, fcs_init, fcs_update, fcs_final, emit, go_to, wrap_hdr_ff, wrap_hdr_23,
  wrap_protocol_high, wrap_protocol_low, after_payload, wrap_payload, wrap_escaping_payload,
  wrap_fcs_low, wrap_fcs_high, wrap_in, wrap_net_pkt_byte,
}
use modem_modules.Ppp.Wrap.Stuffing.{
  stuff_octet, stuff, stuff-append, fcs_over, payload_of, frame_of,
}

module _ {Pkt Rb : Type 0} ⦃net : NetPkt Pkt⦄ ⦃crc : Crc16⦄ where
  -- The state machine gives the octets `bs` and ends in `q`.
  pub data Gives : Ppp Pkt Rb → List ℕ → Ppp Pkt Rb → Type 0 where
    nothing : (p : Ppp Pkt Rb) → Gives p [] p
    octet :
        {p q r : Ppp Pkt Rb} {b : ℕ} {bs : List ℕ}
        → wrap_net_pkt_byte p ≡ some (b, q)
        → Gives q bs r
        → Gives p (b ∷ bs) r

  Gives-append :
      {p q r : Ppp Pkt Rb} {xs ys : List ℕ} → Gives p xs q → Gives q ys r → Gives p (xs ++ ys) r
  Gives-append (nothing p) h = h
  Gives-append (octet e g) h = octet e (Gives-append g h)

  wrap_at :
      (p : Ppp Pkt Rb) {b : ℕ} {q : Ppp Pkt Rb} (s : TransmitState)
      → p.transmit_state ≡ s
      → wrap_in s p ≡ some (b, q)
      → wrap_net_pkt_byte p ≡ some (b, q)
  unfolding wrap_net_pkt_byte
  wrap_at p s e h = ap (λ t. wrap_in t p) e ∙ h

  -- What stays known from one octet to the next.
  pub record At (p : Ppp Pkt Rb) (s : TransmitState) (k : Pkt) (fcs protocol : ℕ) : Type 0 where
    pub state : p.transmit_state ≡ s
    pub packet : p.tx_pkt ≡ some k
    pub checksum : p.tx_pkt_fcs ≡ fcs
    pub number : p.tx_pkt_protocol ≡ protocol

  -- A state that emits `b` gives the stuffed octet, by itself or with the state that follows it.
  stuffed_octet :
      (p p1 : Ppp Pkt Rb) (s escaping next : TransmitState) (b : ℕ) (k : Pkt)
      → p.transmit_state ≡ s
      → wrap_in s p ≡ some (emit p1 b escaping next)
      → p1.tx_pkt ≡ some k
      → ((e : Ppp Pkt Rb)
          → e.tx_pkt ≡ some k
          → wrap_in escaping e ≡ some (e.tx_pkt_escaped, go_to e next))
      → (q : Ppp Pkt Rb) × Gives p (stuff_octet b) q × At q next k p1.tx_pkt_fcs p1.tx_pkt_protocol
  unfolding emit
  stuffed_octet p p1 s escaping next b k e w has follow = elim (Bool-cases (needs_escape b)) [
    | inl t ↦ rw t (
        let waiting = record p1 { tx_pkt_escaped = bit_xor b 0x20; transmit_state = escaping } in
        (
          go_to waiting next,
          octet (wrap_at p s e (w ∙ rw t))
              (octet (wrap_at waiting escaping refl (follow waiting has)) (nothing _)),
          record { state = refl; packet = has; checksum = refl; number = refl },
        ))
    | inr t ↦ rw t (
      go_to p1 next,
      octet (wrap_at p s e (w ∙ rw t)) (nothing _),
      record { state = refl; packet = has; checksum = refl; number = refl },
    )
  ]

  -- The opening flag and the header.
  run_header :
      (p : Ppp Pkt Rb) (k : Pkt)
      → p.transmit_state ≡ TransmitState.sof
      → p.tx_pkt ≡ some k
      → (q : Ppp Pkt Rb) × Gives p (0x7E ∷ 0xFF ∷ 0x7D ∷ 0x23 ∷ []) q
        × At q
            (if net.is_ppp k then TransmitState.payload else TransmitState.protocol_high)
            (net.cursor_init k)
            (fcs_update (fcs_init 0xFF) 0x03)
            (if net.is_ppp k then p.tx_pkt_protocol else protocol_of (net.family k))
  unfolding wrap_in wrap_hdr_ff wrap_hdr_23
  run_header p k s has =
      let p1 = go_to p TransmitState.hdr_ff in
      let k1 = net.cursor_init k in
      let p2 = record p1 {
        tx_pkt = some k1;
        tx_pkt_fcs = fcs_init 0xFF;
        transmit_state = TransmitState.hdr_7d;
      } in
      let p3 = record p2 {
        tx_pkt_fcs = fcs_update (fcs_init 0xFF) 0x03;
        transmit_state = TransmitState.hdr_23;
      } in
      let p4 = if net.is_ppp k1 then go_to p3 TransmitState.payload else record p3 {
        tx_pkt_protocol = protocol_of (net.family k1);
        transmit_state = TransmitState.protocol_high;
      } in
      (
        p4,
        octet (wrap_at p TransmitState.sof s refl) (
            octet (wrap_at p1 TransmitState.hdr_ff refl (rw has)) (
              octet (wrap_at p2 TransmitState.hdr_7d refl refl)
                (octet (wrap_at p3 TransmitState.hdr_23 refl refl) (nothing p4)))),
        rw (← net.is_ppp-cursor_init k, ← net.family-cursor_init k)
            (elim (Bool-cases (net.is_ppp k1)) [
              | inl t ↦
                  rw t (record { state = refl; packet = refl; checksum = refl; number = refl })
              | inr t ↦
                  rw t (record { state = refl; packet = refl; checksum = refl; number = refl })
            ]),
      )

  -- To prove a thing of what is known it is enough to prove it of the fields.
  At-elim :
      {p : Ppp Pkt Rb} {s : TransmitState} {k : Pkt} {fcs protocol : ℕ} (P : ℕ → ℕ → Type 0)
      → At p s k fcs protocol
      → P p.tx_pkt_fcs p.tx_pkt_protocol
      → P fcs protocol
  At-elim {p} {fcs = fcs} P a h =
      subst (P fcs) a.number (subst (λ n. P n p.tx_pkt_protocol) a.checksum h)

  -- The protocol number: its high octet, and its low octet.
  run_protocol_high :
      (p : Ppp Pkt Rb) (k : Pkt) (fcs protocol : ℕ)
      → At p TransmitState.protocol_high k fcs protocol
      → (q : Ppp Pkt Rb) × Gives p (stuff_octet (protocol / 256 % 256)) q
        × At q TransmitState.protocol_low k (fcs_update fcs (protocol / 256 % 256)) protocol
  unfolding wrap_in wrap_protocol_high
  run_protocol_high p k fcs protocol a =
      let b : ℕ = p.tx_pkt_protocol / 256 % 256 in
      At-elim
        (λ fcs protocol.
          (q : Ppp Pkt Rb) × Gives p (stuff_octet (protocol / 256 % 256)) q
          × At q TransmitState.protocol_low k (fcs_update fcs (protocol / 256 % 256)) protocol)
        a
        (stuffed_octet p (record p { tx_pkt_fcs = fcs_update p.tx_pkt_fcs b })
          TransmitState.protocol_high TransmitState.escaping_protocol_high
          TransmitState.protocol_low b k a.state refl a.packet (λ e _. refl))

  run_protocol_low :
      (p : Ppp Pkt Rb) (k : Pkt) (fcs protocol : ℕ)
      → At p TransmitState.protocol_low k fcs protocol
      → (q : Ppp Pkt Rb) × Gives p (stuff_octet (protocol % 256)) q
        × At q TransmitState.payload k (fcs_update fcs (protocol % 256)) protocol
  unfolding wrap_in wrap_protocol_low
  run_protocol_low p k fcs protocol a =
      let b : ℕ = p.tx_pkt_protocol % 256 in
      At-elim
        (λ fcs protocol.
          (q : Ppp Pkt Rb) × Gives p (stuff_octet (protocol % 256)) q
          × At q TransmitState.payload k (fcs_update fcs (protocol % 256)) protocol)
        a
        (stuffed_octet p (record p { tx_pkt_fcs = fcs_update p.tx_pkt_fcs b })
          TransmitState.protocol_low TransmitState.escaping_protocol_low TransmitState.payload b k
          a.state refl a.packet (λ e _. refl))

  -- One octet of data, which leaves the packet at its next octet.
  run_payload_octet :
      (p : Ppp Pkt Rb) (k : Pkt) (fcs protocol x : ℕ) (xs : List ℕ)
      → net.rest k ≡ x ∷ xs
      → At p TransmitState.payload k fcs protocol
      → (q : Ppp Pkt Rb) × (k' : Pkt) × Gives p (stuff_octet x) q
        × At q (after_payload k') k' (fcs_update fcs x) protocol
        × (net.rest k' ≡ xs)
        × (net.whole k' ≡ net.whole k)
  unfolding wrap_in wrap_payload wrap_escaping_payload
  run_payload_octet p k fcs protocol x xs e a =
      let (k', r, left, same) = net.read_u8_some k x xs e in
      let (q, g, a') =
        stuffed_octet p (record p { tx_pkt = some k'; tx_pkt_fcs = fcs_update p.tx_pkt_fcs x })
          TransmitState.payload TransmitState.escaping_payload (after_payload k') x k' a.state
          (rw a.packet (rw r)) refl (λ e has. rw has) in
      At-elim
        (λ fcs protocol.
          (q : Ppp Pkt Rb) × (k' : Pkt) × Gives p (stuff_octet x) q
          × At q (after_payload k') k' (fcs_update fcs x) protocol
          × (net.rest k' ≡ xs)
          × (net.whole k' ≡ net.whole k))
        a (q, k', g, a', left, same)

  -- The data, from the packet's cursor on.
  run_payload :
      (p : Ppp Pkt Rb) (k : Pkt) (fcs protocol x : ℕ) (xs : List ℕ)
      → net.rest k ≡ x ∷ xs
      → At p TransmitState.payload k fcs protocol
      → (q : Ppp Pkt Rb) × (k' : Pkt) × Gives p (stuff (x ∷ xs)) q
        × At q TransmitState.fcs_low k' (fcs_over fcs (x ∷ xs)) protocol
        × (net.whole k' ≡ net.whole k)
  unfolding stuff fcs_over
  run_payload p k fcs protocol x [] e a =
      let (q, k', g, a', left, same) = run_payload_octet p k fcs protocol x [] e a in
      (
        q,
        k',
        Gives-append g (nothing q),
        subst (λ s. At q s k' (fcs_update fcs x) protocol) (rw left) a',
        same,
      )
  run_payload p k fcs protocol x (y ∷ ys) e a =
      let (q, k', g, a', left, same) = run_payload_octet p k fcs protocol x (y ∷ ys) e a in
      let (r, k2, g2, a2, same2) =
        run_payload q k' (fcs_update fcs x) protocol y ys left
          (subst (λ s. At q s k' (fcs_update fcs x) protocol) (rw left (ground arith)) a') in
      (r, k2, Gives-append g g2, a2, same2 ∙ same)

  -- The checksum and the closing flag.
  run_tail :
      (p : Ppp Pkt Rb) (k : Pkt) (fcs protocol : ℕ)
      → At p TransmitState.fcs_low k fcs protocol
      → (q : Ppp Pkt Rb) × Gives p
          (stuff ((fcs_final fcs % 256) ∷ (fcs_final fcs / 256 % 256) ∷ []) ++ (0x7E ∷ []))
          q
        × (q.transmit_state ≡ TransmitState.idle)
        × (q.tx_pkt ≡ some k)
  unfolding wrap_in wrap_fcs_low wrap_fcs_high stuff
  run_tail p k fcs protocol a =
      let low : ℕ = fcs_final p.tx_pkt_fcs in
      let (q1, g1, a1) =
        stuffed_octet p (record p { tx_pkt_fcs = low }) TransmitState.fcs_low
          TransmitState.escaping_fcs_low TransmitState.fcs_high (low % 256) k a.state refl a.packet
          (λ e _. refl) in
      let (q2, g2, a2) =
        stuffed_octet q1 q1 TransmitState.fcs_high TransmitState.escaping_fcs_high TransmitState.eof
          (q1.tx_pkt_fcs / 256 % 256) k a1.state refl a1.packet (λ e _. refl) in
      let q3 = go_to q2 TransmitState.idle in
      let g2' = subst (λ n. Gives q1 (stuff_octet (n / 256 % 256)) q2) a1.checksum g2 in
      let whole =
        λ (n : ℕ). (stuff_octet (n % 256) ++ (stuff_octet (n / 256 % 256) ++ [])) ++ (0x7E ∷ []) in
      let g =
        Gives-append (Gives-append g1 (Gives-append g2' (nothing q2)))
          (octet (wrap_at q2 TransmitState.eof a2.state refl) (nothing q3)) in
      (q3, subst (λ n. Gives p (whole (fcs_final n)) q3) a.checksum g, refl, a2.packet)

  -- What stands between the header and the checksum.
  abbrev Contents : Ppp Pkt Rb → Pkt → ℕ → List ℕ → Type 0
  Contents p k0 fcs xs =
      (q : Ppp Pkt Rb) × (k : Pkt) × (n : ℕ) × Gives p (stuff xs) q
      × At q TransmitState.fcs_low k (fcs_over fcs xs) n
      × (net.whole k ≡ net.whole k0)

  run-Contents :
      (p : Ppp Pkt Rb) (k : Pkt) (fcs protocol x : ℕ) (xs : List ℕ)
      → net.whole k ≡ x ∷ xs
      → At p
          (if net.is_ppp k then TransmitState.payload else TransmitState.protocol_high)
          (net.cursor_init k)
          fcs
          protocol
      → protocol ≡ (if net.is_ppp k then protocol else protocol_of (net.family k))
      → Contents p k fcs (payload_of k)
  unfolding fcs_over stuff
  run-Contents p k fcs protocol x xs e a number = elim (Bool-cases (net.is_ppp k)) [
    | inl t ↦
        let a' =
          subst
            (λ (b : Bool).
              At p (if b then TransmitState.payload else TransmitState.protocol_high)
                (net.cursor_init k) fcs protocol)
            t a in
        let (q, k', g, done, same) =
          run_payload p (net.cursor_init k) fcs protocol x xs (net.rest-cursor_init k ∙ e) a' in
        rw (t, e) (q, k', protocol, g, done, same ∙ (net.whole-cursor_init k ∙ e))
    | inr t ↦
        let a' =
          subst
            (λ (b : Bool).
              At p (if b then TransmitState.payload else TransmitState.protocol_high)
                (net.cursor_init k) fcs protocol)
            t a in
        let (q1, g1, a1) = run_protocol_high p (net.cursor_init k) fcs protocol a' in
        let (q2, g2, a2) =
          run_protocol_low q1 (net.cursor_init k) (fcs_update fcs (protocol / 256 % 256)) protocol
            a1 in
        let (q3, k', g3, done, same) =
          run_payload q2 (net.cursor_init k) _ protocol x xs (net.rest-cursor_init k ∙ e) a2 in
        let known : protocol ≡ protocol_of (net.family k) = rw t at number in
        rw (t, e, ← known)
          (
            q3,
            k',
            protocol,
            Gives-append g1 (Gives-append g2 g3),
            done,
            same ∙ (net.whole-cursor_init k ∙ e),
          )
  ]

  -- From the opening flag on, `modem_ppp_wrap_net_pkt_byte` gives the packet's frame, one octet a
  -- call: flag, header, and the stuffed protocol number (if the packet is no PPP packet), data and
  -- checksum, and the closing flag; then the state machine is idle and still has the packet, with its data. The
  -- packet has data.
  pub wrap-frame_of :
      (p : Ppp Pkt Rb) (k : Pkt)
      → 0 < length (net.whole k)
      → p.transmit_state ≡ TransmitState.sof
      → p.tx_pkt ≡ some k
      → (q : Ppp Pkt Rb) × (k' : Pkt) × Gives p (frame_of k) q
        × (q.transmit_state ≡ TransmitState.idle)
        × (q.tx_pkt ≡ some k')
        × (net.whole k' ≡ net.whole k)
  wrap-frame_of p k some_data s has =
      let (x, xs, e) = cons_of_pos (net.whole k) some_data in
      let (q1, g1, a1) = run_header p k s has in
      let (q2, k2, n, g2, a2, same) = run-Contents q1 k _ _ x xs e a1 (ground arith) in
      let (q3, g3, done, kept) = run_tail q2 k2 _ n a2 in
      (
        q3,
        k2,
        subst (λ bs. Gives p (0x7E ∷ 0xFF ∷ 0x7D ∷ 0x23 ∷ bs) q3)
            (simp (stuff-append, append_assoc)) (Gives-append g1 (Gives-append g2 g3)),
        done,
        kept,
        same,
      )
