-- ===== src/UartAsync.antt =====
-- The asynchronous UART backend: subsys/modem/backends/modem_backend_uart_async.c. The bits of its
-- state are fields. A call of the UART driver, the kernel or the pipe is an entry of `calls`, latest
-- first.
pub mod Blocked
pub mod Keeps
pub mod Lending
use modem_modules.Base.{
  drop, ℕ, ◌-◌, ◌/◌, Bool, true, false, not, List, [], ◌∷◌, ◌++◌, RingBuf, Ret, ret, fail, negative,
  ◌==◌, ltb, leb, if◌then◌else◌, length, take, min,
}
use modem_modules.Pipe.{is_negative}

-- What a pointer to a receive buffer points to.
pub data Buf : Type 0 where
  receive_buf_0 receive_buf_1 other_buf : Buf

-- struct uart_event
pub data Event : Type 0 where
  tx_done tx_aborted rx_buf_request : Event
  rx_buf_released : Buf → Event
  rx_rdy : List ℕ → Event
  other_event : Event

pub data Call : Type 0 where
  rx_enable rx_buf_rsp : Buf → Call
  poll_out : ℕ → Call
  tx : List ℕ → Call
  rx_disable fifo_flush submit_receive_ready notify_opened notify_closed pipe_init : Call

-- struct modem_backend_uart_async
pub record UartAsync (Rb : Type 0) : Type 0 where
  pub receive_buf_size : ℕ
  pub receive_rdb_0 : Rb
  pub receive_rdb_1 : Rb
  pub transmit_buf : List ℕ
  pub transmit_buf_size : ℕ
  pub transmitting : Bool
  pub rx_buf0_used : Bool
  pub rx_buf1_used : Bool
  pub rx_rbuf_used_index : Bool
  pub calls : List Call

abbrev pub call : {Rb : Type 0} → Call → UartAsync Rb → UartAsync Rb
call k u = record u { calls = k ∷ u.calls }

-- `backend->async.receive_rdb[…]`
abbrev pub receive_rdb : {Rb : Type 0} → Bool → UartAsync Rb → Rb
receive_rdb second u = if second then u.receive_rdb_1 else u.receive_rdb_0

abbrev pub with_rdb : {Rb : Type 0} → Bool → Rb → UartAsync Rb → UartAsync Rb
with_rdb true rb u = record u { receive_rdb_1 = rb }
with_rdb false rb u = record u { receive_rdb_0 = rb }

abbrev pub poll_all : {Rb : Type 0} → List ℕ → UartAsync Rb → UartAsync Rb
poll_all [] u = u
poll_all (b ∷ bs) u = poll_all bs (call (poll_out b) u)

module _ {Rb : Type 0} ⦃ring : RingBuf Rb⦄ where
  abbrev pub is_empty : Rb → Bool
  is_empty rb = length (ring.contents rb) == 0

  -- A free receive buffer goes to the driver.
  abbrev pub lend_buf : UartAsync Rb → UartAsync Rb
  lend_buf u =
      if not u.rx_buf0_used
      then call (rx_buf_rsp receive_buf_0) (record u { rx_buf0_used = true })
      else (if not u.rx_buf1_used
          then call (rx_buf_rsp receive_buf_1) (record u { rx_buf1_used = true })
          else u)

  -- Not all of the bytes fit.
  abbrev pub overruns : Rb → List ℕ → Bool
  overruns rb bs = ltb (min (ring.space rb) (length bs)) (length bs)

  -- Bytes that the driver received go into the buffer; if they do not fit, it is reset.
  abbrev pub store_bytes : UartAsync Rb → List ℕ → UartAsync Rb
  store_bytes u bs =
      let used = u.rx_rbuf_used_index in
      let rb = receive_rdb used u in
      let put = ring.put rb bs in
      if overruns rb bs
      then with_rdb used (ring.reset put) u
      else call submit_receive_ready (with_rdb used put u)

  -- `modem_backend_uart_async_event_handler`
  unfoldable pub event_handler : UartAsync Rb → Event → UartAsync Rb
  event_handler u tx_done = record u { transmitting = false }
  event_handler u tx_aborted = u
  event_handler u rx_buf_request = lend_buf u
  event_handler u (rx_buf_released receive_buf_0) = record u { rx_buf0_used = false }
  event_handler u (rx_buf_released receive_buf_1) = record u { rx_buf1_used = false }
  event_handler u (rx_buf_released other_buf) = u
  event_handler u (rx_rdy bs) = store_bytes u bs
  event_handler u other_event = u

  -- `modem_backend_uart_async_open`; `enabled` is what uart_rx_enable answers
  unfoldable pub open_uart : UartAsync Rb → Ret → UartAsync Rb × Ret
  open_uart u enabled =
      let ready = call (rx_enable receive_buf_0) (record (call fifo_flush u) {
        transmitting = false;
        rx_buf0_used = true;
        rx_buf1_used = false;
        rx_rbuf_used_index = false;
        receive_rdb_0 = ring.reset u.receive_rdb_0;
        receive_rdb_1 = ring.reset u.receive_rdb_1;
      }) in
      if is_negative enabled then (ready, enabled) else (call notify_opened ready, ret 0)

  -- A transmission through the driver, and `modem_backend_uart_async_transmit` with it; `started` is
  -- what uart_tx answers
  abbrev pub start_tx : UartAsync Rb → ℕ → List ℕ → Ret → UartAsync Rb × Ret
  start_tx u n bs started = (
    call (tx (take n bs))
        (record u { transmitting = true; transmit_buf = take n bs ++ drop n u.transmit_buf }),
    if is_negative started then started else ret n,
  )

  unfoldable pub transmit : UartAsync Rb → List ℕ → Ret → UartAsync Rb × Ret
  transmit u bs started =
      let n = min (length bs) u.transmit_buf_size in
      if u.transmitting
      then (u, ret 0)
      else (if leb n 8 then (poll_all (take n bs) u, ret n) else start_tx u n bs started)

  abbrev pub read_rdb : UartAsync Rb → Bool → ℕ → UartAsync Rb × List ℕ
  read_rdb u second size = (
    with_rdb second (ring.consume (receive_rdb second u) size) u,
    ring.get (receive_rdb second u) size,
  )

  -- `modem_backend_uart_async_rx_rbuf_used_swap`
  abbrev pub rx_rbuf_used_swap : UartAsync Rb → UartAsync Rb
  rx_rbuf_used_swap u = record u { rx_rbuf_used_index = not u.rx_rbuf_used_index }

  -- `modem_backend_uart_async_receive`
  unfoldable pub receive : UartAsync Rb → ℕ → UartAsync Rb × List ℕ
  receive u size =
      let first = read_rdb u (not u.rx_rbuf_used_index) size in
      let u1 = first.0 in
      if not (is_empty (receive_rdb (not u1.rx_rbuf_used_index) u1))
      then first
      else (let u2 = rx_rbuf_used_swap u1 in
          let second = read_rdb u2 (not u2.rx_rbuf_used_index) (size - length first.1) in
          (second.0, first.1 ++ second.1))

  -- `modem_backend_uart_async_close`
  unfoldable pub close_uart : UartAsync Rb → UartAsync Rb
  close_uart u = call notify_closed (call rx_disable u)

  -- `modem_backend_uart_async_init` on a cleared structure, with empty ring buffers over the last two
  -- quarters of the receive buffer and a transmit buffer with the contents `bytes`
  unfoldable pub init : ℕ → List ℕ → Rb → Rb → UartAsync Rb
  init config_receive_buf_size bytes rdb_0 rdb_1 = record {
    receive_buf_size = config_receive_buf_size / 4;
    receive_rdb_0 = rdb_0;
    receive_rdb_1 = rdb_1;
    transmit_buf = bytes;
    transmit_buf_size = length bytes;
    transmitting = false;
    rx_buf0_used = false;
    rx_buf1_used = false;
    rx_rbuf_used_index = false;
    calls = pipe_init ∷ [];
  }
