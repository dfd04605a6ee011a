-- ===== src/Cmux/Receive/Decode.antt =====
-- A frame on the wire, received: `modem_cmux_process_received_byte` over all its octets.
use modem_modules.Base.{
  ℕ, ◌+◌, ◌≤◌, ◌≡◌, refl, ap, ◌∙◌, Option-cases, inl, inr, some, List, [], ◌∷◌, ◌++◌, arith, ◌>>=◌,
  >>=-some, length, length-append, append_assoc, RingBuf, Crc8,
}
use mathlib.Core.Path.{subst}
use modem_modules.Cmux.{Cmux, Receiver, ReceiveState, Frame, receive_buffer}
use modem_modules.Cmux.Control.{on_frame}
use modem_modules.Cmux.Receive.{
  receive_eof, go_to, dispatch, process_received_byte, process_received_bytes,
}
use modem_modules.Cmux.Receive.Header.{Progress}
use modem_modules.Cmux.Receive.Steps.{data_step}

module _ {Rb : Type 0} ⦃ring : RingBuf Rb⦄ ⦃crc : Crc8⦄ where
  pub process_received_bytes-append :
      (c : Cmux Rb) (xs ys : List ℕ)
      → process_received_bytes c (xs ++ ys)
        ≡ (process_received_bytes c xs >>= λ c'. process_received_bytes c' ys)
  unfolding process_received_bytes
  process_received_bytes-append c [] ys = refl
  process_received_bytes-append c (x ∷ xs) ys = elim (Option-cases (process_received_byte c x)) [
    | inl e ↦ rw e
    | inr (c', e) ↦ rw e (process_received_bytes-append c' xs ys)
  ]

module _ {Rb : Type 0} ⦃ring : RingBuf Rb⦄ ⦃crc : Crc8⦄ (c : Cmux Rb) where
  -- The multiplexer with its receiver in another condition.
  abbrev pub at : Receiver → Cmux Rb
  at r = record c { receiver = r }

  -- `bs` take the receiver from `r` to `r'`, and nothing else changes.
  abbrev pub Runs : Receiver → List ℕ → Receiver → Type 0
  Runs r bs r' = process_received_bytes (at r) bs ≡ some (at r')

  pub Runs-append :
      (r r' : Receiver) (xs ys : List ℕ)
      → Runs r xs r'
      → process_received_bytes (at r) (xs ++ ys) ≡ process_received_bytes (at r') ys
  Runs-append r r' xs ys h = rw (process_received_bytes-append, h)

  pub run_one :
      (r r' : Receiver) (b : ℕ) (s : ReceiveState)
      → r.receive_state ≡ s
      → dispatch s (at r) b ≡ some (at r')
      → Runs r (b ∷ []) r'
  unfolding process_received_bytes process_received_byte
  run_one r r' b s e h = rw (ap (λ t. dispatch t (at r) b) e ∙ h)

  -- What a run of `bs` reaches.
  abbrev pub Reaches : Receiver → List ℕ → (Receiver → Type 0) → Type 0
  Reaches r bs P =
      (r' : Receiver) × Runs r bs r' × (r'.receive_buf_size ≡ r.receive_buf_size) × P r'

  pub Reaches-trans :
      (r : Receiver) (xs ys : List ℕ) (P Q : Receiver → Type 0)
      → Reaches r xs P
      → ((r' : Receiver) → r'.receive_buf_size ≡ r.receive_buf_size → P r' → Reaches r' ys Q)
      → Reaches r (xs ++ ys) Q
  Reaches-trans r xs ys P Q (r', e, z, p) k =
      let (r'', e', z', q) = k r' z p in (r'', Runs-append r r' xs ys e ∙ e', z' ∙ z, q)

  -- The data octets, to the last one.
  pub run_data :
      (r : Receiver) (h d : List ℕ) (b : ℕ) (bs : List ℕ) (f : Frame)
      → Progress r ReceiveState.payload h d f
      → f.data_len ≡ length d + 1 + length bs
      → f.data_len ≤ r.receive_buf_size
      → Reaches r (b ∷ bs) (λ r'. Progress r' ReceiveState.fcs h (d ++ (b ∷ bs)) f)
  unfolding dispatch
  run_data r h d b [] f p e fits =
      let (r', e', z, q) = data_step r b h d f p (omega arith) in
      (
        r',
        run_one r r' b ReceiveState.payload p.state (rw e'),
        z,
        subst (λ s. Progress r' s h (d ++ (b ∷ [])) f) (ground arith) q,
      )
  run_data r h d b (b' ∷ bs) f p e fits =
      let (r', e', z, q) = data_step r b h d f p (omega arith) in
      let one : Reaches r (b ∷ []) (λ r'. Progress r' ReceiveState.payload h (d ++ (b ∷ [])) f) = (
        r',
        run_one r r' b ReceiveState.payload p.state (rw e'),
        z,
        subst (λ s. Progress r' s h (d ++ (b ∷ [])) f) (ground arith) q,
      ) in
      Reaches-trans r (b ∷ []) (b' ∷ bs) _ _ one (λ r1 z1 p1.
        let (r2, e2, z2, p2) =
          run_data r1 h (d ++ (b ∷ [])) b' bs f p1 (omega (arith, length-append d (b ∷ [])))
            (omega arith) in
        (
          r2,
          e2,
          z2,
          subst (λ xs. Progress r2 ReceiveState.fcs h xs f) (append_assoc d (b ∷ []) (b' ∷ bs)) p2,
        ))

  -- The closing flag hands the frame on.
  pub run_close :
      (r : Receiver) (h xs : List ℕ) (g : Frame)
      → Progress r ReceiveState.eof h xs g
      → let handed = record r { frame = record (r.frame) { contents = receive_buffer } } in
        process_received_bytes (at r) (0xF9 ∷ [])
        ≡ (on_frame (at handed) >>= λ c'. some (go_to c' ReceiveState.sof))
  unfolding process_received_bytes process_received_byte receive_eof
  run_close r h xs g p =
      let handed = record r { frame = record (r.frame) { contents = receive_buffer } } in
      rw (ap (λ s. dispatch s (at r) 0xF9) p.state) (>>=-some _)
