-- ===== src/Ppp/Handlers/Release.antt =====
-- The packets that a PPP link gives back when it is released.
use modem_modules.Base.{
  ℕ, zero, suc, ◌≤◌, ◌≡◌, refl, ap, ◌∙◌, true, false, Option, none, some, List, [], ◌∷◌, arith,
  length, not, if◌then◌else◌, inl, inr,
}
use mathlib.Core.Path.{subst}
use modem_modules.Ppp.{
  Ppp, Ring, Call, ReceiveState, TransmitState, call, unref, cancel_send, cancel_process,
  pipe_release,
}
use modem_modules.Ppp.Packets.Queue.{IsQueue, get-IsQueue}
use modem_modules.Ppp.Handlers.{drain, release, unref_some}

module _ {Pkt : Type 0} where
  -- Each packet of a queue given back, the oldest first.
  abbrev pub unref_all : List Pkt → List (Call Pkt) → List (Call Pkt)
  unref_all [] ks = ks
  unref_all (k ∷ q) ks = unref_all q (unref k ∷ ks)

  abbrev pub unref_held : Option Pkt → List (Call Pkt) → List (Call Pkt)
  unref_held none ks = ks
  unref_held (some k) ks = unref k ∷ ks

module _ {Pkt Rb : Type 0} where
  unref_some-calls :
      (o : Option Pkt) (p : Ppp Pkt Rb) → unref_some o p ≡ record p { calls = unref_held o p.calls }
  unref_some-calls none p = refl
  unref_some-calls (some k) p = refl

  drain-IsQueue :
      (n : ℕ) (p : Ppp Pkt Rb) (q : List Pkt)
      → IsQueue p.packets q
      → length q ≤ n
      → (r : Ring Pkt) × (drain n p ≡ some (record p { packets = r; calls = unref_all q p.calls }))
        × IsQueue r []
  unfolding drain
  drain-IsQueue zero p [] v h = (p.packets, refl, v)
  drain-IsQueue zero p (k ∷ q) v h = absurd (omega arith)
  drain-IsQueue (suc n) p q v h = elim (get-IsQueue p.packets q v) [
    | inl (e, g) ↦ rw e (p.packets, rw g, subst (IsQueue p.packets) e v)
    | inr (k, q', r', e, g, w, z) ↦
        let fewer : length q' ≤ n = omega (arith, ap length e) in
        let (r, d, u) = drain-IsQueue n (call (unref k) (record p { packets = r' })) q' w fewer in
        rw e (r, rw g d, u)
  ]

  -- The link at its start, from where the loop over the queue sets out.
  abbrev reset : Ppp Pkt Rb → Ppp Pkt Rb
  reset p = record p {
    is_attached = false;
    has_pipe = false;
    receive_state = ReceiveState.hdr_sof;
    rx_pkt = none;
    transmit_state = TransmitState.idle;
    tx_pkt = none;
  }

  -- `modem_ppp_release` of an attached link gives back the packet that is being received, the one
  -- that is being sent and then each packet that waits, the oldest first, once each; the queue is
  -- empty behind it and both state machines are at their start. The loop over the queue ends.
  pub release-IsQueue :
      (p : Ppp Pkt Rb) (q : List Pkt)
      → IsQueue p.packets q
      → p.is_attached ≡ true
      → (r : Ring Pkt) × (release p
          ≡ some (record p {
            is_attached = false;
            has_pipe = false;
            receive_state = ReceiveState.hdr_sof;
            rx_pkt = none;
            transmit_state = TransmitState.idle;
            tx_pkt = none;
            packets = r;
            calls = unref_all q (
                unref_held p.tx_pkt
                  (unref_held p.rx_pkt (cancel_process ∷ cancel_send ∷ pipe_release ∷ p.calls)));
          }))
        × IsQueue r []
  unfolding release
  release-IsQueue p q v attached =
      let ks = unref_held p.rx_pkt (cancel_process ∷ cancel_send ∷ pipe_release ∷ p.calls) in
      let started = record p {
        is_attached = false;
        has_pipe = false;
        receive_state = ReceiveState.hdr_sof;
        rx_pkt = none;
        transmit_state = TransmitState.idle;
        tx_pkt = none;
        calls = unref_held p.tx_pkt ks;
      } in
      let (r, d, u) = drain-IsQueue p.packets.size started q v v.fits in
      let stopped = call cancel_process (call cancel_send (call pipe_release p)) in
      let given_back : unref_some p.tx_pkt (unref_some p.rx_pkt stopped)
          ≡ record stopped { calls = unref_held p.tx_pkt ks } =
        ap (unref_some p.tx_pkt) (unref_some-calls p.rx_pkt stopped)
        ∙ unref_some-calls p.tx_pkt (record stopped { calls = ks }) in
      (
        r,
        ap
              (λ b.
                if not b
                then some p
                else drain p.packets.size
                    (reset (unref_some p.tx_pkt (unref_some p.rx_pkt stopped))))
              attached
            ∙ (ap (λ x. drain p.packets.size (reset x)) given_back ∙ d),
        u,
      )
