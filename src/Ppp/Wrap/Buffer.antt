-- ===== src/Ppp/Wrap/Buffer.antt =====
-- The transmit state machine does not look at the transmit buffer.
use modem_modules.Base.{
  ℕ, ◌≡◌, refl, ap, sym, ◌∙◌, Bool-cases, inl, inr, Option, Option-cases, none, some, List, [], ◌∷◌,
  ◌>>=◌, All, Crc16,
}
use modem_modules.Base.Net.{NetPkt}
use modem_modules.Ppp.{Ppp, TransmitState}
use modem_modules.Ppp.Wrap.{
  needs_escape, emit, wrap_hdr_ff, wrap_hdr_23, wrap_protocol_high, wrap_protocol_low, wrap_payload,
  wrap_escaping_payload, wrap_fcs_low, wrap_fcs_high, wrap_in, wrap_net_pkt_byte, after_payload,
  fcs_update,
}
use modem_modules.Ppp.Wrap.Frame.{Gives}

module _ {Pkt Rb : Type 0} (rb : Rb) where
  -- The same link with another transmit buffer.
  abbrev pub with_rb : Ppp Pkt Rb → Ppp Pkt Rb
  with_rb p = record p { transmit_rb = rb }

  abbrev carried : ℕ × Ppp Pkt Rb → ℕ × Ppp Pkt Rb
  carried s = (s.0, with_rb s.1)

  emit-with_rb :
      (p : Ppp Pkt Rb) (b : ℕ) (s t : TransmitState)
      → emit (with_rb p) b s t ≡ carried (emit p b s t)
  unfolding emit
  emit-with_rb p b s t = elim (Bool-cases (needs_escape b)) [
    | inl e ↦ rw e refl
    | inr e ↦ rw e refl
  ]

  module _ ⦃net : NetPkt Pkt⦄ ⦃crc : Crc16⦄ where
    hdr_23-with_rb :
        (p : Ppp Pkt Rb) (o : Option Pkt)
        → p.tx_pkt ≡ o
        → wrap_hdr_23 (with_rb p) ≡ (wrap_hdr_23 p >>= λ s. some (carried s))
    unfolding wrap_hdr_23
    hdr_23-with_rb p none e = rw e refl
    hdr_23-with_rb p (some k) e = elim (Bool-cases (net.is_ppp k)) [
      | inl t ↦ rw (e, t) refl
      | inr t ↦ rw (e, t) refl
    ]

    payload-with_rb :
        (p : Ppp Pkt Rb) (o : Option Pkt)
        → p.tx_pkt ≡ o
        → wrap_payload (with_rb p) ≡ (wrap_payload p >>= λ s. some (carried s))
    unfolding wrap_payload
    payload-with_rb p none e = rw e refl
    payload-with_rb p (some k) e = elim (Option-cases (net.read_u8 k)) [
      | inl n ↦ rw (e, n) refl
      | inr (s, n) ↦
          rw (e, n)
            (ap some (
              emit-with_rb
                (record p { tx_pkt = some s.1; tx_pkt_fcs = fcs_update p.tx_pkt_fcs s.0 }) s.0
                TransmitState.escaping_payload (after_payload s.1)))
    ]

    wrap_in-with_rb :
        (s : TransmitState) (p : Ppp Pkt Rb)
        → wrap_in s (with_rb p) ≡ (wrap_in s p >>= λ s. some (carried s))
    unfolding wrap_in wrap_hdr_ff wrap_protocol_high wrap_protocol_low wrap_escaping_payload
        wrap_fcs_low wrap_fcs_high
    wrap_in-with_rb TransmitState.idle p = refl
    wrap_in-with_rb TransmitState.sof p = refl
    wrap_in-with_rb TransmitState.hdr_ff p = elim (Option-cases p.tx_pkt) [
      | inl e ↦ rw e refl
      | inr (k, e) ↦ rw e refl
    ]
    wrap_in-with_rb TransmitState.hdr_7d p = refl
    wrap_in-with_rb TransmitState.hdr_23 p = hdr_23-with_rb p p.tx_pkt refl
    wrap_in-with_rb TransmitState.protocol_high p = ap some (emit-with_rb _ _ _ _)
    wrap_in-with_rb TransmitState.escaping_protocol_high p = refl
    wrap_in-with_rb TransmitState.protocol_low p = ap some (emit-with_rb _ _ _ _)
    wrap_in-with_rb TransmitState.escaping_protocol_low p = refl
    wrap_in-with_rb TransmitState.payload p = payload-with_rb p p.tx_pkt refl
    wrap_in-with_rb TransmitState.escaping_payload p = elim (Option-cases p.tx_pkt) [
      | inl e ↦ rw e refl
      | inr (k, e) ↦ rw e refl
    ]
    wrap_in-with_rb TransmitState.fcs_low p = ap some (emit-with_rb _ _ _ _)
    wrap_in-with_rb TransmitState.escaping_fcs_low p = refl
    wrap_in-with_rb TransmitState.fcs_high p = ap some (emit-with_rb _ _ _ _)
    wrap_in-with_rb TransmitState.escaping_fcs_high p = refl
    wrap_in-with_rb TransmitState.eof p = refl

    pub wrap-with_rb :
        (p q : Ppp Pkt Rb) (b : ℕ)
        → wrap_net_pkt_byte p ≡ some (b, q)
        → wrap_net_pkt_byte (with_rb p) ≡ some (b, with_rb q)
    unfolding wrap_net_pkt_byte
    wrap-with_rb p q b e =
        wrap_in-with_rb p.transmit_state p ∙ ap (λ o. o >>= λ s. some (carried s)) e

module _ {Pkt Rb : Type 0} ⦃net : NetPkt Pkt⦄ ⦃crc : Crc16⦄ where
  -- An idle transmitter gives zeros and stays idle.
  pub idle-Gives :
      (p q : Ppp Pkt Rb) (bs : List ℕ)
      → p.transmit_state ≡ TransmitState.idle
      → Gives p bs q
      → All (λ b. b ≡ 0) bs
  unfolding wrap_net_pkt_byte wrap_in
  idle-Gives p q [] s (Gives.nothing r) = tt
  idle-Gives p q (b ∷ bs) s (Gives.octet {q = next} e g) =
      let stays : wrap_net_pkt_byte p ≡ some (0, p) = ap (λ t. wrap_in t p) s in
      let same : Path (Option (ℕ × Ppp Pkt Rb)) (some (b, next)) (some (0, p)) = sym e ∙ stays in
      let zero_first : b ≡ 0 = cc in
      let still : next ≡ p = cc in
      (zero_first, idle-Gives next q bs (ap (λ (x : Ppp Pkt Rb). x.transmit_state) still ∙ s) g)
