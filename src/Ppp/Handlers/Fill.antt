-- ===== src/Ppp/Handlers/Fill.antt =====
-- What the loop of `modem_ppp_send_handler` puts in the transmit buffer.
use modem_modules.Base.{
  ◌>>=◌, ℕ, zero, suc, ◌≡◌, ◌⊎◌, refl, ap, sym, ◌∙◌, Bool-cases, inl, inr, true, false, Option,
  some, List, [], ◌∷◌, ◌++◌, append_assoc, append-nil, arith, ◌==◌, All, take_all, RingBuf, Crc16,
}
use mathlib.Core.Path.{subst}
use modem_modules.Base.Net.{NetPkt}
use modem_modules.Ppp.{Ppp, TransmitState, unref}
use modem_modules.Ppp.Packets.{get}
use modem_modules.Ppp.Wrap.Frame.{Gives}
use modem_modules.Ppp.Wrap.Buffer.{with_rb, wrap-with_rb, idle-Gives}
use modem_modules.Ppp.Handlers.{is_idle, unref_some, next_packet, finish_packet, fill, wrap_packet}

All-last {ℓ κ} : {A : Type ℓ} (P : A → Type κ) (zs : List A) (a : A) → All P (zs ++ (a ∷ [])) → P a
All-last P [] a h = h.0
All-last P (z ∷ zs) a h = All-last P zs a h.1

tail {ℓ} : {A : Type ℓ} → List A → List A
tail [] = []
tail (x ∷ xs) = xs

nil_of_append {ℓ} : {A : Type ℓ} (xs ys : List A) → xs ++ ys ≡ [] → ys ≡ []
nil_of_append [] ys e = e
nil_of_append (x ∷ xs) ys e = cc

-- Of a list cut in two, the second part has the last element, or is empty.
last_in {ℓ κ} :
    {A : Type ℓ} (P : A → Type κ) (xs ys zs : List A) (a : A)
    → (P a → ys ≡ [])
    → zs ++ (a ∷ []) ≡ xs ++ ys
    → All P ys
    → ys ≡ []
unfolding tail
last_in P [] ys zs a bar e h = bar (All-last P zs a (subst (All P) (sym e) h))
last_in P (x ∷ xs) ys [] a bar e h = nil_of_append xs ys (sym (ap tail e))
last_in P (x ∷ xs) ys (z ∷ zs) a bar e h = last_in P xs ys zs a bar (ap tail e) h

is_idle-idle : (s : TransmitState) → is_idle s ≡ true → s ≡ TransmitState.idle
is_idle-idle s h = ground arith

module _ {Rb : Type 0} ⦃ring : RingBuf Rb⦄ where
  put_one :
      (rb : Rb) (b n : ℕ)
      → ring.space rb ≡ suc n
      → (ring.contents (ring.put rb (b ∷ [])) ≡ ring.contents rb ++ (b ∷ []))
        × (ring.space (ring.put rb (b ∷ [])) ≡ n)
  put_one rb b n h = (
    ring.contents-put rb (b ∷ [])
        ∙ ap (λ t. ring.contents rb ++ t) (take_all (ring.space rb) (b ∷ []) (omega arith)),
    omega (arith, ring.space-put rb (b ∷ [])),
  )

module _ {Pkt Rb : Type 0} ⦃net : NetPkt Pkt⦄ ⦃ring : RingBuf Rb⦄ ⦃crc : Crc16⦄ where
  Gives-with_rb :
      (rb : Rb) {p q : Ppp Pkt Rb} {bs : List ℕ}
      → Gives p bs q
      → Gives (with_rb rb p) bs (with_rb rb q)
  Gives-with_rb rb (Gives.nothing p) = Gives.nothing (with_rb rb p)
  Gives-with_rb rb (Gives.octet {p} {q} {b} e g) =
      Gives.octet (wrap-with_rb rb p q b e) (Gives-with_rb rb g)

  -- The packet `k` is given back, and the next of those that wait, if there is one, takes its place.
  abbrev pub let_go : Ppp Pkt Rb → Pkt → Option (Ppp Pkt Rb)
  let_go p k = get p.packets >>= λ s.
      some (record p { calls = unref k ∷ p.calls; packets = s.0; tx_pkt = s.1 })

  finish_packet-let_go :
      (p : Ppp Pkt Rb) (k : Pkt) → p.tx_pkt ≡ some k → finish_packet p ≡ let_go p k
  unfolding finish_packet next_packet
  finish_packet-let_go p k e = ap (λ o. next_packet (unref_some o p)) e

  nothing_given : (p q : Ppp Pkt Rb) (bs : List ℕ) → bs ≡ [] → Gives p bs q → p.tx_pkt ≡ q.tx_pkt
  nothing_given p q [] e (Gives.nothing r) = refl
  nothing_given p q (b ∷ bs) e g = cc

  -- What the loop leaves: `xs` is put, `ys` is still to be given; the buffer is full, or the frame
  -- is out.
  pub record Outcome (before : Rb) (bs : List ℕ) (last : Ppp Pkt Rb) (result : Option (Ppp Pkt Rb))
      : Type 0 where
    pub xs : List ℕ
    pub ys : List ℕ
    pub link : Ppp Pkt Rb
    pub divided : bs ≡ xs ++ ys
    pub to_give : Gives link ys (with_rb link.transmit_rb last)
    pub put_behind : ring.contents link.transmit_rb ≡ ring.contents before ++ xs
    pub stopped :
        ((result ≡ some link) × (ring.space link.transmit_rb ≡ 0))
        ⊎ ((link.transmit_state ≡ TransmitState.idle) × (result ≡ finish_packet link))

  fill-Gives :
      (n : ℕ) (p q : Ppp Pkt Rb) (rb : Rb) (bs : List ℕ)
      → Gives p bs q
      → is_idle p.transmit_state ≡ false
      → is_idle q.transmit_state ≡ true
      → ring.space rb ≡ n
      → Outcome rb bs q (fill n (with_rb rb p))
  unfolding fill
  fill-Gives zero p q rb bs g busy done room = record {
    xs = [];
    ys = bs;
    link = with_rb rb p;
    divided = refl;
    to_give = Gives-with_rb rb g;
    put_behind = sym (append-nil (ring.contents rb));
    stopped = inl (refl, room);
  }
  fill-Gives (suc n) p q rb [] (Gives.nothing r) busy done room = cc
  fill-Gives (suc n) p q rb (b ∷ bs) (Gives.octet {q = next} e g) busy done room =
      let rb1 = ring.put rb (b ∷ []) in
      let (held, left) = put_one rb b n room in
      let some_room : (ring.space rb == 0) ≡ false = ground (arith, room) in
      let first = wrap-with_rb rb p next b e in
      elim (Bool-cases (is_idle next.transmit_state)) [
        | inl out ↦ record {
          xs = b ∷ [];
          ys = bs;
          link = with_rb rb1 next;
          divided = refl;
          to_give = Gives-with_rb rb1 g;
          put_behind = held;
          stopped = inr (is_idle-idle _ out, rw (some_room, first) (rw out refl));
        }
        | inr under_way ↦
            let o = fill-Gives n next q rb1 bs g under_way done left in
            let more : fill (suc n) (with_rb rb p) ≡ fill n (with_rb rb1 next) =
              rw (some_room, first) (rw under_way refl) in
            record {
              xs = b ∷ o.xs;
              ys = o.ys;
              link = o.link;
              divided = ap (λ t. b ∷ t) o.divided;
              to_give = o.to_give;
              put_behind =
                  o.put_behind
                  ∙ (ap (λ t. t ++ o.xs) held ∙ append_assoc (ring.contents rb) (b ∷ []) o.xs);
              stopped = elim o.stopped [
                | inl (r, z) ↦ inl (more ∙ r, z)
                | inr (s, r) ↦ inr (s, more ∙ r)
              ];
            }
      ]

  -- A frame that is under way, or just begun, and whose closing flag is to come, goes on in the
  -- transmit buffer behind what that holds: either as many of its octets as make the buffer full,
  -- and the state machine still has the others to give, or all of them, and then the packet that the
  -- state machine has at the frame's end is given back, and what modem_ppp_tx_net_pkt_buf_get takes
  -- from the packets that wait is the packet from then on. No octet is lost or put twice, and the
  -- loop ends in the rounds that it is given.
  pub wrap_packet-Gives :
      (p q : Ppp Pkt Rb) (k last : Pkt) (zs : List ℕ)
      → Gives p (zs ++ (0x7E ∷ [])) q
      → is_idle p.transmit_state ≡ false
      → q.transmit_state ≡ TransmitState.idle
      → p.tx_pkt ≡ some k
      → q.tx_pkt ≡ some last
      → (xs ys : List ℕ) × (p' : Ppp Pkt Rb) × (zs ++ (0x7E ∷ []) ≡ xs ++ ys)
        × Gives p' ys (with_rb p'.transmit_rb q)
        × (ring.contents p'.transmit_rb ≡ ring.contents p.transmit_rb ++ xs)
        × (((wrap_packet p ≡ some p') × (ring.space p'.transmit_rb ≡ 0))
            ⊎ ((ys ≡ []) × (wrap_packet p ≡ let_go p' last)))
  unfolding wrap_packet
  wrap_packet-Gives p q k last zs g busy done has kept =
      let o =
        fill-Gives (ring.space p.transmit_rb) p q p.transmit_rb (zs ++ (0x7E ∷ [])) g busy
          (ap is_idle done) refl in
      let run : wrap_packet p ≡ fill (ring.space p.transmit_rb) p = ground (arith, busy, has) in
      let link = o.link in
      (
        o.xs,
        o.ys,
        link,
        o.divided,
        o.to_give,
        o.put_behind,
        elim o.stopped [
          | inl (r, z) ↦ inl (run ∙ r, z)
          | inr (s, r) ↦
              let all : o.ys ≡ [] =
                last_in (λ b. b ≡ 0) o.xs o.ys zs 0x7E (λ z. absurd (omega (arith, z))) o.divided
                  (idle-Gives link (with_rb link.transmit_rb q) o.ys s o.to_give) in
              inr (
                all,
                run
                    ∙ (r
                        ∙ finish_packet-let_go link last (
                            nothing_given link (with_rb link.transmit_rb q) o.ys all o.to_give
                            ∙ kept)),
              )
        ],
      )
