-- ===== src/Cmux/Receive/Resync.antt =====
-- How the receive state machine finds the start of a frame again.
use modem_modules.Base.{
  ℕ, zero, suc, ◌≡◌, ◌≢◌, refl, ap, sym, Bool-cases, inl, inr, ltb, length, ◌∙◌, List, [], ◌∷◌,
  ◌++◌, arith, ◌==◌, ◌>>=◌, false, All, replicate, RingBuf, Crc8,
}
use modem_modules.Cmux.{Cmux, Receiver, ReceiveState, call, pipe_transmit}
use modem_modules.Cmux.Receive.{
  store_header, receive_address, with_receiver, go_to, receive_sof, receive_resync, dispatch,
  process_received_byte, process_received_bytes,
}

-- The state in which an address octet comes does not matter.
receive_address-state :
    (r : Receiver) (s : ReceiveState) (b : ℕ)
    → receive_address (record r { receive_state = s }) b ≡ receive_address r b
unfolding receive_address store_header
receive_address-state r s b = elim (Bool-cases (ltb 0 (length r.frame_header))) [
  | inl t ↦ rw t refl
  | inr t ↦ rw t refl
]

module _ {Rb : Type 0} ⦃ring : RingBuf Rb⦄ ⦃crc : Crc8⦄ (c : Cmux Rb) where
  -- The resynchronisation request sent, no flag of the answer seen.
  abbrev pub asked : Cmux Rb
  asked = go_to (call (pipe_transmit (0xF9 ∷ 0xF9 ∷ 0xF9 ∷ [])) c) ReceiveState.resync_0

  not_flag : (b : ℕ) → b ≢ 0xF9 → (b == 0xF9) ≡ false
  not_flag b n = ground arith

  start :
      (b : ℕ) (bs : List ℕ)
      → c.receive_state ≡ ReceiveState.sof
      → b ≢ 0xF9
      → process_received_bytes c (b ∷ bs) ≡ process_received_bytes asked bs
  unfolding process_received_bytes process_received_byte dispatch receive_sof
  start b bs s n =
      ap (λ t. dispatch t c b >>= λ c'. process_received_bytes c' bs) s ∙ rw (not_flag b n) refl

  noise :
      (bs rest : List ℕ)
      → All (λ b. b ≢ 0xF9) bs
      → process_received_bytes asked (bs ++ rest) ≡ process_received_bytes asked rest
  unfolding process_received_bytes process_received_byte dispatch receive_resync
  noise [] rest h = refl
  noise (b ∷ bs) rest h = rw (not_flag b h.0) (noise bs rest h.1)

  more_flags :
      (n : ℕ) (rest : List ℕ)
      → process_received_bytes (go_to asked ReceiveState.resync_3) (replicate n 0xF9 ++ rest)
        ≡ process_received_bytes (go_to asked ReceiveState.resync_3) rest
  unfolding process_received_bytes process_received_byte dispatch
  more_flags zero rest = refl
  more_flags (suc n) rest = more_flags n rest

  three_flags :
      (rest : List ℕ)
      → process_received_bytes asked (0xF9 ∷ 0xF9 ∷ 0xF9 ∷ rest)
        ≡ process_received_bytes (go_to asked ReceiveState.resync_3) rest
  unfolding process_received_bytes process_received_byte dispatch receive_resync
  three_flags rest = refl

  address_next :
      (a : ℕ) (rest : List ℕ)
      → a ≢ 0xF9
      → process_received_bytes (go_to asked ReceiveState.resync_3) (a ∷ rest)
        ≡ process_received_bytes (go_to asked ReceiveState.sof) (0xF9 ∷ a ∷ rest)
  unfolding process_received_bytes process_received_byte dispatch receive_sof
  address_next a rest n = rw (not_flag a n) (
      ap (λ r. with_receiver c' r >>= λ c'. process_received_bytes c' rest)
        (receive_address-state c.receiver ReceiveState.resync_3 a
          ∙ sym (receive_address-state c.receiver ReceiveState.address a)))
    where
      c' : Cmux Rb
      c' = call (pipe_transmit (0xF9 ∷ 0xF9 ∷ 0xF9 ∷ [])) c

  -- A receiver that waits for a frame and gets another octet sends three flags to the other side,
  -- skips what is no flag, and after three flags or more takes what follows as it would take it
  -- behind an opening flag: no frame behind the flags is lost.
  pub receive-resync :
      (b : ℕ) (bs : List ℕ) (n a : ℕ) (rest : List ℕ)
      → c.receive_state ≡ ReceiveState.sof
      → b ≢ 0xF9
      → All (λ b. b ≢ 0xF9) bs
      → a ≢ 0xF9
      → process_received_bytes c
          (b ∷ (bs ++ (0xF9 ∷ 0xF9 ∷ 0xF9 ∷ (replicate n 0xF9 ++ (a ∷ rest)))))
        ≡ process_received_bytes
            (go_to (call (pipe_transmit (0xF9 ∷ 0xF9 ∷ 0xF9 ∷ [])) c) ReceiveState.sof)
            (0xF9 ∷ a ∷ rest)
  receive-resync b bs n a rest s nb h na =
      start b _ s nb
      ∙ (noise bs _ h ∙ (three_flags _ ∙ (more_flags n (a ∷ rest) ∙ address_next a rest na)))
