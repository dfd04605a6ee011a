-- ===== src/UartAsync/Keeps.antt =====
-- Operations that give no receive buffer to the driver.
use modem_modules.Base.{
  ℕ, ◌+◌, ◌-◌, ◌≡◌, refl, ◌∙◌, Bool, true, false, List, [], ◌∷◌, RingBuf, Ret, if_both, leb, not,
  length, min, take,
}
use modem_modules.UartAsync.{
  overruns, UartAsync, Buf, Call, receive_buf_0, receive_buf_1, other_buf, rx_enable, rx_buf_rsp,
  poll_out, call, receive_rdb, with_rdb, is_empty, read_rdb, store_bytes, poll_all, transmit,
  receive, rx_rbuf_used_swap,
}

abbrev pub same : Buf → Buf → ℕ
same receive_buf_0 receive_buf_0 = 1
same receive_buf_1 receive_buf_1 = 1
same other_buf other_buf = 1
same _ _ = 0

-- How often a buffer went to the driver.
abbrev pub lends : Buf → List Call → ℕ
lends b [] = 0
lends b (rx_enable c ∷ ks) = same b c + lends b ks
lends b (rx_buf_rsp c ∷ ks) = same b c + lends b ks
lends b (_ ∷ ks) = lends b ks

module _ {Rb : Type 0} where
  pub record Keeps (u u' : UartAsync Rb) : Type 0 where
    pub same_buf0 : u'.rx_buf0_used ≡ u.rx_buf0_used
    pub same_buf1 : u'.rx_buf1_used ≡ u.rx_buf1_used
    pub same_lends : (b : Buf) → lends b u'.calls ≡ lends b u.calls

  Keeps-then : (u u1 u2 : UartAsync Rb) → Keeps u u1 → Keeps u1 u2 → Keeps u u2
  Keeps-then u u1 u2 a b = record {
    same_buf0 = b.same_buf0 ∙ a.same_buf0;
    same_buf1 = b.same_buf1 ∙ a.same_buf1;
    same_lends = λ c. b.same_lends c ∙ a.same_lends c;
  }

  with_rdb-Keeps : (s : Bool) (rb : Rb) (u : UartAsync Rb) → Keeps u (with_rdb s rb u)
  with_rdb-Keeps true rb u = record { same_buf0 = refl; same_buf1 = refl; same_lends = λ b. refl }
  with_rdb-Keeps false rb u = record { same_buf0 = refl; same_buf1 = refl; same_lends = λ b. refl }

  poll_all-Keeps : (bs : List ℕ) (u : UartAsync Rb) → Keeps u (poll_all bs u)
  poll_all-Keeps [] u = record { same_buf0 = refl; same_buf1 = refl; same_lends = λ b. refl }
  poll_all-Keeps (b ∷ bs) u =
      let rest = poll_all-Keeps bs (call (poll_out b) u) in
      record {
        same_buf0 = rest.same_buf0;
        same_buf1 = rest.same_buf1;
        same_lends = rest.same_lends;
      }

  with_rdb-transmitting :
      (s : Bool) (rb : Rb) (u : UartAsync Rb) → (with_rdb s rb u).transmitting ≡ u.transmitting
  with_rdb-transmitting true rb u = refl
  with_rdb-transmitting false rb u = refl

module _ {Rb : Type 0} ⦃ring : RingBuf Rb⦄ where
  pub store_bytes-Keeps : (u : UartAsync Rb) (bs : List ℕ) → Keeps u (store_bytes u bs)
  store_bytes-Keeps u bs =
      let used = u.rx_rbuf_used_index in
      let put = ring.put (receive_rdb used u) bs in
      if_both {A = UartAsync Rb} (λ v. Keeps u v) (overruns (receive_rdb used u) bs) _ _
        (with_rdb-Keeps used (ring.reset put) u)
        (let kept = with_rdb-Keeps used put u in
          record {
            same_buf0 = kept.same_buf0;
            same_buf1 = kept.same_buf1;
            same_lends = kept.same_lends;
          })

  pub store_bytes-transmitting :
      (u : UartAsync Rb) (bs : List ℕ) → (store_bytes u bs).transmitting ≡ u.transmitting
  store_bytes-transmitting u bs =
      let used = u.rx_rbuf_used_index in
      let put = ring.put (receive_rdb used u) bs in
      if_both {A = UartAsync Rb} (λ v. v.transmitting ≡ u.transmitting)
        (overruns (receive_rdb used u) bs) _ _ (with_rdb-transmitting used (ring.reset put) u)
        (with_rdb-transmitting used put u)

  read_rdb-Keeps : (s : Bool) (n : ℕ) (u : UartAsync Rb) → Keeps u (read_rdb u s n).0
  read_rdb-Keeps s n u = with_rdb-Keeps s (ring.consume (receive_rdb s u) n) u

  pub receive-Keeps : (u : UartAsync Rb) (size : ℕ) → Keeps u (receive u size).0
  unfolding receive
  receive-Keeps u size =
      let first = read_rdb u (not u.rx_rbuf_used_index) size in
      let u2 = rx_rbuf_used_swap first.0 in
      let kept = read_rdb-Keeps (not u.rx_rbuf_used_index) size u in
      let again = read_rdb-Keeps (not u2.rx_rbuf_used_index) (size - length first.1) u2 in
      if_both {A = UartAsync Rb × List ℕ} (λ v. Keeps u v.0)
        (not (is_empty (receive_rdb (not first.0.rx_rbuf_used_index) first.0))) _ _ kept
        (Keeps-then u first.0 _ kept (record {
          same_buf0 = again.same_buf0;
          same_buf1 = again.same_buf1;
          same_lends = again.same_lends;
        }))

  pub receive-transmitting :
      (u : UartAsync Rb) (size : ℕ) → (receive u size).0.transmitting ≡ u.transmitting
  unfolding receive
  receive-transmitting u size =
      let first = read_rdb u (not u.rx_rbuf_used_index) size in
      let u2 = rx_rbuf_used_swap first.0 in
      let kept = with_rdb-transmitting (not u.rx_rbuf_used_index) _ u in
      if_both {A = UartAsync Rb × List ℕ} (λ v. v.0.transmitting ≡ u.transmitting)
        (not (is_empty (receive_rdb (not first.0.rx_rbuf_used_index) first.0))) _ _ kept
        (with_rdb-transmitting (not u2.rx_rbuf_used_index) _ u2 ∙ kept)

  pub transmit-Keeps :
      (u : UartAsync Rb) (bs : List ℕ) (started : Ret) → Keeps u (transmit u bs started).0
  unfolding transmit
  transmit-Keeps u bs started =
      let n = min (length bs) u.transmit_buf_size in
      if_both {A = UartAsync Rb × Ret} (λ v. Keeps u v.0) u.transmitting _ _
        (record { same_buf0 = refl; same_buf1 = refl; same_lends = λ b. refl })
        (if_both {A = UartAsync Rb × Ret} (λ v. Keeps u v.0) (leb n 8) _ _
          (poll_all-Keeps (take n bs) u)
          (record { same_buf0 = refl; same_buf1 = refl; same_lends = λ b. refl }))
