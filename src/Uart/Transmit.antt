-- ===== src/Uart/Transmit.antt =====
-- The bytes that the backend sends, and its count of those that wait.
use modem_modules.Base.{ℕ, ◌≤◌, ◌≡◌, List, [], ◌∷◌, ◌++◌, Option, none, some, RingBuf, length, take}
use modem_modules.Uart.{Uart, transmit, irq_handler_transmit_ready}

-- Bytes that the pipe gives, or an interrupt in which the driver takes bytes, none for an error.
pub data Turn : Type 0 where
  give : List ℕ → Turn
  fill : Option ℕ → Turn

module _ {Rb : Type 0} ⦃ring : RingBuf Rb⦄ where
  abbrev pub queued : Uart Rb → List ℕ
  queued u = ring.contents u.transmit_rb

  -- The count is that of the bytes that wait.
  pub record IsCounted (u : Uart Rb) : Type 0 where
    pub counted : u.transmit_buf_len ≡ length (queued u)

  abbrev pub turn : Uart Rb → Turn → Uart Rb
  turn u (give bs) = (transmit u bs).0
  turn u (fill taken) = irq_handler_transmit_ready u taken

  -- What the backend accepts of the bytes of a turn, and what the driver takes.
  abbrev pub accepted : Uart Rb → Turn → List ℕ
  accepted u (give bs) = take (transmit u bs).1 bs
  accepted u (fill taken) = []

  abbrev pub sent : Uart Rb → Turn → List ℕ
  sent u (give bs) = []
  sent u (fill none) = []
  sent u (fill (some n)) = take n (ring.claim u.transmit_rb)

  -- The driver takes no more bytes than it is offered.
  abbrev pub IsHonest : Uart Rb → Turn → Type 0
  IsHonest u (fill (some n)) = n ≤ length (ring.claim u.transmit_rb)
  IsHonest u _ = Unit {0}

  -- The queue behind a turn.
  pub record Turned (u u' : Uart Rb) (ins outs : List ℕ) : Type 0 where
    pub stream : outs ++ queued u' ≡ queued u ++ ins
    pub still_counted : IsCounted u'

  abbrev pub turns : Uart Rb → List Turn → Uart Rb
  turns u [] = u
  turns u (t ∷ ts) = turns (turn u t) ts

  abbrev pub AreHonest : Uart Rb → List Turn → Type 0
  AreHonest u [] = Unit {0}
  AreHonest u (t ∷ ts) = IsHonest u t × AreHonest (turn u t) ts

  abbrev pub all_accepted : Uart Rb → List Turn → List ℕ
  all_accepted u [] = []
  all_accepted u (t ∷ ts) = accepted u t ++ all_accepted (turn u t) ts

  abbrev pub all_sent : Uart Rb → List Turn → List ℕ
  all_sent u [] = []
  all_sent u (t ∷ ts) = sent u t ++ all_sent (turn u t) ts
