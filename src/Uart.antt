-- ===== src/Uart.antt =====
-- The interrupt driven UART backend: subsys/modem/backends/modem_backend_uart_isr.c, and
-- subsys/modem/backends/modem_backend_uart.c with it. A call of the UART driver, the kernel or the
-- pipe is an entry of `calls`, latest first. `receive_rdb_used` is whether the second of the two
-- receive buffers is the one that interrupts fill.
pub mod Receive
pub mod Reading
pub mod Transmit
use modem_modules.Base.{
  ℕ, ◌+◌, ◌-◌, ◌/◌, Bool, true, false, not, List, [], ◌∷◌, ◌++◌, Option, none, some, RingBuf, ◌==◌,
  ltb, if◌then◌else◌, length, min,
}

pub data Call : Type 0 where
  rx_enable rx_disable tx_enable tx_disable set_irq_callback fifo_flush : Call
  fifo_fill : List ℕ → Call
  submit_receive_ready notify_opened notify_closed notify_receive_ready pipe_init : Call

-- struct modem_backend_uart and struct modem_backend_uart_isr
pub record Uart (Rb : Type 0) : Type 0 where
  pub receive_rdb_0 : Rb
  pub receive_rdb_1 : Rb
  pub receive_rdb_used : Bool
  pub transmit_rb : Rb
  pub transmit_buf_len : ℕ
  pub transmit_buf_put_limit : ℕ
  pub calls : List Call

abbrev pub call : {Rb : Type 0} → Call → Uart Rb → Uart Rb
call k u = record u { calls = k ∷ u.calls }

-- `backend->isr.receive_rdb[…]`
abbrev pub receive_rdb : {Rb : Type 0} → Bool → Uart Rb → Rb
receive_rdb second u = if second then u.receive_rdb_1 else u.receive_rdb_0

abbrev pub with_rdb : {Rb : Type 0} → Bool → Rb → Uart Rb → Uart Rb
with_rdb true rb u = record u { receive_rdb_1 = rb }
with_rdb false rb u = record u { receive_rdb_0 = rb }

module _ {Rb : Type 0} ⦃ring : RingBuf Rb⦄ where
  abbrev pub is_empty : Rb → Bool
  is_empty rb = length (ring.contents rb) == 0

  -- The receive buffer with room for a byte: it is reset if it has none.
  abbrev pub roomy : Rb → Rb
  roomy rb = if ring.put_claim rb == 0 then ring.reset rb else rb

  -- What uart_fifo_read gave goes into the buffer; none is an error.
  abbrev pub take_bytes : Uart Rb → Rb → Option (List ℕ) → Uart Rb
  take_bytes u rb none = with_rdb u.receive_rdb_used rb u
  take_bytes u rb (some []) = with_rdb u.receive_rdb_used rb u
  take_bytes u rb (some (b ∷ bs)) =
      call submit_receive_ready (with_rdb u.receive_rdb_used (ring.put rb (b ∷ bs)) u)

  -- `modem_backend_uart_isr_irq_handler_receive_ready`; `fifo` is what uart_fifo_read gives for a
  -- number of bytes
  unfoldable pub irq_handler_receive_ready : Uart Rb → (ℕ → Option (List ℕ)) → Uart Rb
  irq_handler_receive_ready u fifo =
      let rb = roomy (receive_rdb u.receive_rdb_used u) in
      take_bytes u rb (fifo (ring.put_claim rb))

  -- `modem_backend_uart_isr_irq_handler_transmit_ready`; `taken` is what uart_fifo_fill takes of the
  -- bytes that it is called with, none for an error
  unfoldable pub irq_handler_transmit_ready : Uart Rb → Option ℕ → Uart Rb
  irq_handler_transmit_ready u taken =
      if is_empty u.transmit_rb then call tx_disable u else elim taken [
        | none ↦ call (fifo_fill (ring.claim u.transmit_rb)) u
        | some n ↦ record (call (fifo_fill (ring.claim u.transmit_rb)) u) {
          transmit_rb = ring.consume u.transmit_rb n;
          transmit_buf_len = u.transmit_buf_len - n;
        }
      ]

  -- `modem_backend_uart_isr_irq_handler`; `updated`, `rx` and `tx` are what uart_irq_update,
  -- uart_irq_rx_ready and uart_irq_tx_ready give
  unfoldable pub irq_handler :
      Uart Rb → Bool → Bool → Bool → (ℕ → Option (List ℕ)) → Option ℕ → Uart Rb
  unfolding irq_handler_receive_ready irq_handler_transmit_ready
  irq_handler u updated rx tx fifo taken =
      if not updated
      then u
      else (let read = if rx then irq_handler_receive_ready u fifo else u in
          if tx then irq_handler_transmit_ready read taken else read)

  -- `modem_backend_uart_isr_open`
  unfoldable pub open_uart : Uart Rb → Uart Rb
  open_uart u = call notify_opened (
      call tx_enable (
        call rx_enable (
          call fifo_flush (record u {
            receive_rdb_0 = ring.reset u.receive_rdb_0;
            receive_rdb_1 = ring.reset u.receive_rdb_1;
            transmit_rb = ring.reset u.transmit_rb;
            transmit_buf_len = 0;
          }))))

  abbrev pub is_above_limit : Uart Rb → Bool
  is_above_limit u = ltb u.transmit_buf_put_limit u.transmit_buf_len

  -- `modem_backend_uart_isr_transmit`
  unfoldable pub transmit : Uart Rb → List ℕ → Uart Rb × ℕ
  transmit u bs =
      let written = min (ring.space u.transmit_rb) (length bs) in
      let put = record (call tx_disable u) { transmit_rb = ring.put u.transmit_rb bs } in
      if ltb u.transmit_buf_put_limit u.transmit_buf_len then (u, 0) else (
        record (call tx_enable put) { transmit_buf_len = u.transmit_buf_len + written },
        written,
      )

  -- Interrupts with bytes, one after the other.
  abbrev pub interrupts : Uart Rb → List (ℕ → Option (List ℕ)) → Uart Rb
  interrupts u [] = u
  interrupts u (f ∷ fs) = interrupts (irq_handler_receive_ready u f) fs

  -- The bytes of a buffer that a read takes, and the backend without them.
  abbrev pub read_rdb : Uart Rb → Bool → ℕ → Uart Rb × List ℕ
  read_rdb u second size = (
    with_rdb second (ring.consume (receive_rdb second u) size) u,
    ring.get (receive_rdb second u) size,
  )

  -- The two receive buffers change places.
  abbrev pub swap : Uart Rb → Uart Rb
  swap u = call rx_enable (record (call rx_disable u) { receive_rdb_used = not u.receive_rdb_used })

  -- `modem_backend_uart_isr_receive`; `before` and `behind` are the interrupts that come behind the
  -- first read and behind the swap
  unfoldable pub receive :
      Uart Rb → ℕ → List (ℕ → Option (List ℕ)) → List (ℕ → Option (List ℕ)) → Uart Rb × List ℕ
  unfolding irq_handler_receive_ready
  receive u size before behind =
      let first = read_rdb u (not u.receive_rdb_used) size in
      let u1 = interrupts first.0 before in
      if not (is_empty (receive_rdb (not u1.receive_rdb_used) u1))
      then (u1, first.1)
      else (let u2 = interrupts (swap u1) behind in
          let second = read_rdb u2 (not u2.receive_rdb_used) (size - length first.1) in
          (second.0, first.1 ++ second.1))

  -- `modem_backend_uart_isr_close`
  unfoldable pub close_uart : Uart Rb → Uart Rb
  close_uart u = call notify_closed (call tx_disable (call rx_disable u))

  -- `modem_backend_uart_receive_ready_handler`
  unfoldable pub receive_ready_handler : Uart Rb → Uart Rb
  receive_ready_handler u = call notify_receive_ready u

  -- `modem_backend_uart_isr_init`, with empty ring buffers over the buffers of the configuration
  unfoldable pub init : Rb → Rb → Rb → ℕ → Uart Rb
  init rdb_0 rdb_1 rb transmit_buf_size = record {
    receive_rdb_0 = rdb_0;
    receive_rdb_1 = rdb_1;
    receive_rdb_used = false;
    transmit_rb = rb;
    transmit_buf_len = 0;
    transmit_buf_put_limit = transmit_buf_size - transmit_buf_size / 4;
    calls = pipe_init ∷ set_irq_callback ∷ tx_disable ∷ rx_disable ∷ [];
  }
