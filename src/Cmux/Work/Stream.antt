-- ===== src/Cmux/Work/Stream.antt =====
-- The octets that go through the transmit buffer: frames are put in at one end, and
-- `modem_cmux_transmit_handler` sends what stands at the other.
use modem_modules.Base.{
  refl, ◌∷◌, taken_first, ℕ, ◌≤◌, ◌<◌, ◌≡◌, ap, sym, ◌∙◌, Bool-cases, inl, inr, some, List, [],
  ◌++◌, append_assoc, append-nil, arith, ◌==◌, length, take, drop, RingBuf, Crc8,
}
use mathlib.Core.Path.{subst}
use modem_modules.Cmux.{Call, pipe_transmit, Cmux, Frame, target}
use modem_modules.Cmux.Transmit.{transmit_frame}
use modem_modules.Cmux.Transmit.Wire.{wire, sent_data, Holds, transmit_frame-wire}
use modem_modules.Cmux.Work.{transmit_handler}

-- What the pipe was offered at last, by the calls.
abbrev pub offered : List Call → List ℕ
offered [] = []
offered (pipe_transmit xs ∷ ks) = xs
offered (_ ∷ ks) = offered ks

module _ {Rb : Type 0} ⦃ring : RingBuf Rb⦄ ⦃crc : Crc8⦄ where
  -- What the pipe is offered in a run of the handler.
  abbrev pub offer : Cmux Rb → ℕ → List ℕ
  offer c n = offered (transmit_handler c n).calls

  -- Any sequence of frames that are sent and runs of the handler: `sent` is what the pipe has taken,
  -- `put` what the frames are on the wire.
  pub data Flow : Cmux Rb → List ℕ → List ℕ → Cmux Rb → Type 0 where
    ends : (c : Cmux Rb) → Flow c [] [] c
    handles :
        {sent put : List ℕ} {c c' : Cmux Rb} (n : ℕ)
        → n ≤ length (offer c n)
        → Flow (transmit_handler c n) sent put c'
        → Flow c (take n (offer c n) ++ sent) put c'
    puts :
        {sent put : List ℕ} {c c1 c' : Cmux Rb} {n : ℕ} (f : Frame)
        → 8 ≤ ring.space c.transmit_rb
        → ring.space c.transmit_rb < 65544
        → f.data_len ≤ length (target c.receiver f.contents)
        → transmit_frame c f ≡ some (c1, n)
        → Flow c1 sent put c'
        → Flow c sent (wire f (sent_data c f) ++ put) c'

  offer-claim : (c : Cmux Rb) (n : ℕ) → offer c n ≡ ring.claim c.transmit_rb
  unfolding transmit_handler
  offer-claim c n = elim (Bool-cases (n == 0)) [
    | inl t ↦ rw t refl
    | inr t ↦ elim (Bool-cases (length (ring.contents (ring.consume c.transmit_rb n)) == 0)) [
      | inl e ↦ rw (t, e) refl
      | inr e ↦ rw (t, e) refl
    ]
  ]

  contents-handler :
      (c : Cmux Rb) (n : ℕ)
      → ring.contents (transmit_handler c n).transmit_rb ≡ drop n (ring.contents c.transmit_rb)
  unfolding transmit_handler
  contents-handler c n = elim (Bool-cases (n == 0)) [
    | inl t ↦
        let none_taken : n ≡ 0 = ground arith in
        rw none_taken (ring.contents-consume c.transmit_rb 0)
    | inr t ↦ elim (Bool-cases (length (ring.contents (ring.consume c.transmit_rb n)) == 0)) [
      | inl e ↦ rw (t, e) (ring.contents-consume c.transmit_rb n)
      | inr e ↦ rw (t, e) (ring.contents-consume c.transmit_rb n)
    ]
  ]

  frame-Holds :
      (c c1 : Cmux Rb) (n : ℕ) (f : Frame)
      → 8 ≤ ring.space c.transmit_rb
      → ring.space c.transmit_rb < 65544
      → f.data_len ≤ length (target c.receiver f.contents)
      → transmit_frame c f ≡ some (c1, n)
      → Holds c.transmit_rb c1.transmit_rb (wire f (sent_data c f))
  frame-Holds c c1 n f lo hi there e =
      let (c2, e2, h) = transmit_frame-wire c f lo hi there in
      let same : c2 ≡ c1 = cc in
      subst (λ (x : Cmux Rb). Holds c.transmit_rb x.transmit_rb (wire f (sent_data c f))) same h

  -- Frames and runs of the handler alternate in any way, and in each run the pipe takes some of the
  -- front of what the handler's call of modem_pipe_transmit offers it. Then what the pipe has taken and
  -- what still waits is what waited before and the frames put since, octet by octet in that order: none
  -- is lost, sent twice or out of order. A frame is sent while the transmit buffer has room for 8
  -- octets and less than 65544, and its data lies inside what it points to.
  pub Flow-contents :
      (c c' : Cmux Rb) (sent put : List ℕ)
      → Flow c sent put c'
      → sent ++ ring.contents c'.transmit_rb ≡ ring.contents c.transmit_rb ++ put
  Flow-contents c c' sent put (Flow.ends b) = sym (append-nil _)
  Flow-contents c c' sent put (Flow.handles {sent = later} n h g) =
      let waiting = ring.contents c.transmit_rb in
      let claimed = offer-claim c n in
      let honest : n ≤ length (ring.claim c.transmit_rb) = subst (λ t. n ≤ length t) claimed h in
      append_assoc (take n (offer c n)) later (ring.contents c'.transmit_rb)
      ∙ (ap (λ t. take n t ++ (later ++ ring.contents c'.transmit_rb)) claimed
          ∙ (ap (λ t. take n (ring.claim c.transmit_rb) ++ t)
                (Flow-contents (transmit_handler c n) c' later put g
                  ∙ ap (λ t. t ++ put) (contents-handler c n))
              ∙ (sym (append_assoc (take n (ring.claim c.transmit_rb)) (drop n waiting) put)
                  ∙ ap (λ t. t ++ put) (taken_first c.transmit_rb n honest))))
  Flow-contents c c' sent put (Flow.puts {put = later} {c1} {n} f lo hi there e g) =
      let h = frame-Holds c c1 n f lo hi there e in
      Flow-contents c1 c' sent later g
      ∙ (ap (λ t. t ++ later) h.held
          ∙ append_assoc (ring.contents c.transmit_rb) (wire f (sent_data c f)) later)
