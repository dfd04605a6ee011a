-- ===== src/Uart/Receive.antt =====
-- Interrupts fill one of the two receive buffers and leave the other.
use modem_modules.Base.{
  ℕ, ◌≤◌, ◌<◌, ◌≡◌, refl, sym, ap, ◌∙◌, Bool, true, false, not, List, [], ◌∷◌, ◌++◌, Option, none,
  some, RingBuf, arith, ◌==◌, length, take_all, append_assoc, append-nil,
}
use mathlib.Core.Path.{subst}
use modem_modules.Uart.{
  Uart, Call, call, receive_rdb, with_rdb, roomy, irq_handler_receive_ready, interrupts, take_bytes,
  submit_receive_ready,
}

module _ {Rb : Type 0} where
  pub rdb_written : (s : Bool) (rb : Rb) (u : Uart Rb) → receive_rdb s (with_rdb s rb u) ≡ rb
  rdb_written true rb u = refl
  rdb_written false rb u = refl

  rdb_other :
      (s : Bool) (rb : Rb) (u : Uart Rb)
      → receive_rdb (not s) (with_rdb s rb u) ≡ receive_rdb (not s) u
  rdb_other true rb u = refl
  rdb_other false rb u = refl

  pub rdb_kept :
      (s : Bool) (rb : Rb) (u : Uart Rb) → receive_rdb s (with_rdb (not s) rb u) ≡ receive_rdb s u
  rdb_kept true rb u = refl
  rdb_kept false rb u = refl

  pub used_same :
      (s : Bool) (rb : Rb) (u : Uart Rb) → (with_rdb s rb u).receive_rdb_used ≡ u.receive_rdb_used
  used_same true rb u = refl
  used_same false rb u = refl

abbrev pub bytes_of : Option (List ℕ) → List ℕ
bytes_of none = []
bytes_of (some bs) = bs

module _ {Rb : Type 0} ⦃ring : RingBuf Rb⦄ where
  -- What waits in the backend, oldest byte first.
  abbrev pub waiting : Uart Rb → List ℕ
  waiting u =
      ring.contents (receive_rdb (not u.receive_rdb_used) u)
      ++ ring.contents (receive_rdb u.receive_rdb_used u)

  -- The buffer that interrupts fill has room, and the driver gives no more bytes than it is asked for.
  pub record IsCalm (u : Uart Rb) (fifo : ℕ → Option (List ℕ)) : Type 0 where
    pub room : 0 < ring.put_claim (receive_rdb u.receive_rdb_used u)
    pub honest :
        length (bytes_of (fifo (ring.put_claim (receive_rdb u.receive_rdb_used u))))
        ≤ ring.put_claim (receive_rdb u.receive_rdb_used u)

  abbrev pub AreCalm : Uart Rb → List (ℕ → Option (List ℕ)) → Type 0
  AreCalm u [] = Unit {0}
  AreCalm u (f ∷ fs) = IsCalm u f × AreCalm (irq_handler_receive_ready u f) fs

  -- The bytes that interrupts bring.
  abbrev pub brought : Uart Rb → List (ℕ → Option (List ℕ)) → List ℕ
  brought u [] = []
  brought u (f ∷ fs) =
      bytes_of (f (ring.put_claim (receive_rdb u.receive_rdb_used u)))
      ++ brought (irq_handler_receive_ready u f) fs

  -- The buffer that interrupts fill gets the bytes, and the other stays.
  pub record Gains (u u' : Uart Rb) (bs : List ℕ) : Type 0 where
    pub same_used : u'.receive_rdb_used ≡ u.receive_rdb_used
    pub same_idle : receive_rdb (not u.receive_rdb_used) u' ≡ receive_rdb (not u.receive_rdb_used) u
    pub filled :
        ring.contents (receive_rdb u.receive_rdb_used u')
        ≡ ring.contents (receive_rdb u.receive_rdb_used u) ++ bs

  written-Gains :
      (u : Uart Rb) (rb : Rb) (bs : List ℕ)
      → ring.contents rb ≡ ring.contents (receive_rdb u.receive_rdb_used u) ++ bs
      → Gains u (with_rdb u.receive_rdb_used rb u) bs
  written-Gains u rb bs e = record {
    same_used = used_same u.receive_rdb_used rb u;
    same_idle = rdb_other u.receive_rdb_used rb u;
    filled = ap (λ r. ring.contents r) (rdb_written u.receive_rdb_used rb u) ∙ e;
  }

  called-Gains : (u u' : Uart Rb) (bs : List ℕ) (k : Call) → Gains u u' bs → Gains u (call k u') bs
  called-Gains u u' bs k g = record {
    same_used = g.same_used;
    same_idle = g.same_idle;
    filled = g.filled;
  }

  take_bytes-Gains :
      (u : Uart Rb) (o : Option (List ℕ))
      → length (bytes_of o) ≤ ring.put_claim (receive_rdb u.receive_rdb_used u)
      → Gains u (take_bytes u (receive_rdb u.receive_rdb_used u) o) (bytes_of o)
  take_bytes-Gains u none h =
      let old = receive_rdb u.receive_rdb_used u in
      written-Gains u old [] (sym (append-nil (ring.contents old)))
  take_bytes-Gains u (some []) h =
      let old = receive_rdb u.receive_rdb_used u in
      written-Gains u old [] (sym (append-nil (ring.contents old)))
  take_bytes-Gains u (some (b ∷ bs)) h =
      let old = receive_rdb u.receive_rdb_used u in
      called-Gains u _ _ submit_receive_ready (
        written-Gains u (ring.put old (b ∷ bs)) (b ∷ bs) (
          ring.contents-put old (b ∷ bs)
          ∙ ap (λ xs. ring.contents old ++ xs)
              (take_all _ (b ∷ bs) (omega (arith, h, ring.put_claim-le old)))))

  roomy-same : (rb : Rb) → 0 < ring.put_claim rb → roomy rb ≡ rb
  roomy-same rb h = let fits : (ring.put_claim rb == 0) ≡ false = ground (arith, h) in rw fits refl

  irq-Gains :
      (u : Uart Rb) (fifo : ℕ → Option (List ℕ))
      → IsCalm u fifo
      → Gains u
          (irq_handler_receive_ready u fifo)
          (bytes_of (fifo (ring.put_claim (receive_rdb u.receive_rdb_used u))))
  unfolding irq_handler_receive_ready
  irq-Gains u fifo v =
      let old = receive_rdb u.receive_rdb_used u in
      subst
        (λ rb.
          Gains u (take_bytes u rb (fifo (ring.put_claim rb)))
            (bytes_of (fifo (ring.put_claim old))))
        (sym (roomy-same old v.room)) (take_bytes-Gains u (fifo (ring.put_claim old)) v.honest)

  pub interrupts-Gains :
      (u : Uart Rb) (fs : List (ℕ → Option (List ℕ)))
      → AreCalm u fs
      → Gains u (interrupts u fs) (brought u fs)
  interrupts-Gains u [] v = record {
    same_used = refl;
    same_idle = refl;
    filled = sym (append-nil (ring.contents (receive_rdb u.receive_rdb_used u)));
  }
  interrupts-Gains u (f ∷ fs) v =
      let g = irq-Gains u f v.0 in
      let u' = irq_handler_receive_ready u f in
      let rest = interrupts-Gains u' fs v.1 in
      let last = interrupts u' fs in
      record {
        same_used = rest.same_used ∙ g.same_used;
        same_idle =
            subst (λ s. receive_rdb (not s) last ≡ receive_rdb (not s) u') g.same_used
              rest.same_idle
            ∙ g.same_idle;
        filled =
            subst
              (λ s.
                ring.contents (receive_rdb s last)
                ≡ ring.contents (receive_rdb s u') ++ brought u' fs)
              g.same_used rest.filled
            ∙ (ap (λ xs. xs ++ brought u' fs) g.filled
                ∙ append_assoc (ring.contents (receive_rdb u.receive_rdb_used u))
                    (bytes_of (f (ring.put_claim (receive_rdb u.receive_rdb_used u))))
                    (brought u' fs));
      }
