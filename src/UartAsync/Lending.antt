-- ===== src/UartAsync/Lending.antt =====
-- The receive buffers that the driver holds.
use modem_modules.Base.{
  Ret, ℕ, ◌+◌, ◌<◌, ◌≡◌, Bool, true, false, Bool-cases, inl, inr, List, [], ◌∷◌, RingBuf, arith, ap,
}
use modem_modules.Pipe.{is_negative}
use modem_modules.UartAsync.{
  UartAsync, Buf, tx_done, tx_aborted, rx_buf_request, rx_buf_released, rx_rdy, other_event,
  receive_buf_0, receive_buf_1, other_buf, event_handler, lend_buf, open_uart, close_uart,
}
use modem_modules.UartAsync.Keeps.{
  lends, same, Keeps, store_bytes-Keeps, receive-Keeps, transmit-Keeps,
}
use modem_modules.UartAsync.Blocked.{Op, event, give, read, reopen, shut, step, steps}

abbrev pub bit : Bool → ℕ
bit false = 0
bit true = 1

-- How often a buffer comes back.
abbrev pub backs : Buf → Op → ℕ
backs b (event (rx_buf_released c)) = same b c
backs b _ = 0

abbrev pub all_backs : Buf → List Op → ℕ
all_backs b [] = 0
all_backs b (o ∷ os) = backs b o + all_backs b os

module _ {Rb : Type 0} where
  -- The two bits of the backend say which of its buffers are with the driver, each at most once:
  -- `back_0` and `back_1` are how often the buffers came back.
  pub record IsLent (u : UartAsync Rb) (back_0 back_1 : ℕ) : Type 0 where
    pub lent_0 : lends receive_buf_0 u.calls ≡ back_0 + bit u.rx_buf0_used
    pub lent_1 : lends receive_buf_1 u.calls ≡ back_1 + bit u.rx_buf1_used

  kept-IsLent :
      (u u' : UartAsync Rb) (m n : ℕ) → Keeps u u' → IsLent u m n → IsLent u' (0 + m) (0 + n)
  kept-IsLent u u' m n k v = record {
    lent_0 = omega (arith, k.same_lends receive_buf_0, v.lent_0, ap bit k.same_buf0);
    lent_1 = omega (arith, k.same_lends receive_buf_1, v.lent_1, ap bit k.same_buf1);
  }

  -- The driver gives back a buffer only if it holds it, and accepts an opening only if it holds none.
  abbrev pub IsHeld : UartAsync Rb → ℕ → ℕ → Op → Type 0
  IsHeld u m n (event (rx_buf_released receive_buf_0)) = m < lends receive_buf_0 u.calls
  IsHeld u m n (event (rx_buf_released receive_buf_1)) = n < lends receive_buf_1 u.calls
  IsHeld u m n (reopen enabled) =
      (lends receive_buf_0 u.calls ≡ m)
      × (lends receive_buf_1 u.calls ≡ n)
      × (is_negative enabled ≡ false)
  IsHeld u m n _ = Unit {0}

  lend_buf-IsLent :
      ⦃ring : RingBuf Rb⦄ (u : UartAsync Rb) (m n : ℕ)
      → IsLent u m n
      → IsLent (lend_buf u) (0 + m) (0 + n)
  lend_buf-IsLent u m n v = elim (Bool-cases u.rx_buf0_used) [
    | inr f ↦
        rw f
          (record { lent_0 = omega (arith, v.lent_0, ap bit f); lent_1 = omega (arith, v.lent_1) })
    | inl t ↦ elim (Bool-cases u.rx_buf1_used) [
      | inr f ↦
          rw (t, f)
            (record {
              lent_0 = omega (arith, v.lent_0, ap bit t);
              lent_1 = omega (arith, v.lent_1, ap bit f);
            })
      | inl f ↦
          rw (t, f)
            (record {
              lent_0 = omega (arith, v.lent_0, ap bit t);
              lent_1 = omega (arith, v.lent_1, ap bit f);
            })
    ]
  ]

module _ {Rb : Type 0} ⦃ring : RingBuf Rb⦄ where
  abbrev pub AreHeld : UartAsync Rb → ℕ → ℕ → List Op → Type 0
  AreHeld u m n [] = Unit {0}
  AreHeld u m n (o ∷ os) =
      IsHeld u m n o × AreHeld (step u o) (backs receive_buf_0 o + m) (backs receive_buf_1 o + n) os

  opened-IsLent :
      (u : UartAsync Rb) (enabled : Ret) (m n : ℕ)
      → IsHeld u m n (reopen enabled)
      → IsLent (open_uart u enabled).0 (0 + m) (0 + n)
  unfolding open_uart
  opened-IsLent u enabled m n h =
      rw h.2 (record { lent_0 = omega (arith, h.0); lent_1 = omega (arith, h.1) })

  step-IsLent :
      (u : UartAsync Rb) (o : Op) (m n : ℕ)
      → IsHeld u m n o
      → IsLent u m n
      → IsLent (step u o) (backs receive_buf_0 o + m) (backs receive_buf_1 o + n)
  unfolding event_handler close_uart
  step-IsLent u (event tx_done) m n h v = record {
    lent_0 = omega (arith, v.lent_0);
    lent_1 = omega (arith, v.lent_1);
  }
  step-IsLent u (event tx_aborted) m n h v = record {
    lent_0 = omega (arith, v.lent_0);
    lent_1 = omega (arith, v.lent_1);
  }
  step-IsLent u (event rx_buf_request) m n h v = lend_buf-IsLent u m n v
  step-IsLent u (event (rx_buf_released receive_buf_0)) m n h v = elim (Bool-cases u.rx_buf0_used) [
    | inl t ↦ record {
      lent_0 = omega (arith, v.lent_0, ap bit t);
      lent_1 = omega (arith, v.lent_1);
    }
    | inr f ↦ absurd (omega (arith, h, v.lent_0, ap bit f))
  ]
  step-IsLent u (event (rx_buf_released receive_buf_1)) m n h v = elim (Bool-cases u.rx_buf1_used) [
    | inl t ↦ record {
      lent_0 = omega (arith, v.lent_0);
      lent_1 = omega (arith, v.lent_1, ap bit t);
    }
    | inr f ↦ absurd (omega (arith, h, v.lent_1, ap bit f))
  ]
  step-IsLent u (event (rx_buf_released other_buf)) m n h v = record {
    lent_0 = omega (arith, v.lent_0);
    lent_1 = omega (arith, v.lent_1);
  }
  step-IsLent u (event (rx_rdy bs)) m n h v = kept-IsLent u _ m n (store_bytes-Keeps u bs) v
  step-IsLent u (event other_event) m n h v = record {
    lent_0 = omega (arith, v.lent_0);
    lent_1 = omega (arith, v.lent_1);
  }
  step-IsLent u (give bs started) m n h v = kept-IsLent u _ m n (transmit-Keeps u bs started) v
  step-IsLent u (read size) m n h v = kept-IsLent u _ m n (receive-Keeps u size) v
  step-IsLent u (reopen enabled) m n h v = opened-IsLent u enabled m n h
  step-IsLent u shut m n h v = record {
    lent_0 = omega (arith, v.lent_0);
    lent_1 = omega (arith, v.lent_1);
  }

  -- The bits say which receive buffers the driver holds, and `m` and `n` are how often they came back.
  -- Through any events of the driver and any calls that open, close, send or read, the bits say so
  -- again: the driver holds each buffer at most once, so that no buffer goes to it twice. The driver
  -- gives back a buffer only while it holds it, and the backend is opened only while the driver holds
  -- neither of them and accepts the opening.
  pub steps-IsLent :
      (u : UartAsync Rb) (os : List Op) (m n : ℕ)
      → AreHeld u m n os
      → IsLent u m n
      → IsLent (steps u os) (m + all_backs receive_buf_0 os) (n + all_backs receive_buf_1 os)
  steps-IsLent u [] m n h v = record {
    lent_0 = omega (arith, v.lent_0);
    lent_1 = omega (arith, v.lent_1);
  }
  steps-IsLent u (o ∷ os) m n h v =
      let rest =
        steps-IsLent (step u o) os (backs receive_buf_0 o + m) (backs receive_buf_1 o + n) h.1
          (step-IsLent u o m n h.0 v) in
      record { lent_0 = omega (arith, rest.lent_0); lent_1 = omega (arith, rest.lent_1) }
