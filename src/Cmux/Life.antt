-- ===== src/Cmux/Life.antt =====
-- The life of a multiplexer as a sequence of steps: each call of a function of modem_cmux.c by the
-- application, by the work queue or by a pipe, in any order, and each octet that is received.
pub mod Keeps
pub mod Events
pub mod Reach
use modem_modules.Base.{ℕ, Bool, true, false, ◌≡◌, not, some, List, [], ◌∷◌, RingBuf, Crc8, Ret}
use modem_modules.Cmux.{Cmux, State, EventBit, Call, event_post, event_clear}
use modem_modules.Cmux.Receive.{process_received_byte}
use modem_modules.Cmux.Channel.{
  dlci_init, pipe_api_open, pipe_api_close, pipe_api_receive, pipe_api_transmit, dlci_open_handler,
  dlci_close_handler,
}
use modem_modules.Cmux.Work.{
  init, bus_callback, connect_async, disconnect_async, release, attach, transmit_handler,
  connect_handler, disconnect_handler,
}

abbrev pub is_same : EventBit → EventBit → Bool
is_same EventBit.connected_bit EventBit.connected_bit = true
is_same EventBit.disconnected_bit EventBit.disconnected_bit = true
is_same _ _ = false

-- Whether an event bit is set: what k_event_wait finds, from the calls, latest first.
abbrev pub is_posted : EventBit → List Call → Bool
is_posted b [] = false
is_posted b (event_post a ∷ ks) =
    let before = is_posted b ks in elim (is_same b a) [ true ↦ true | false ↦ before ]
is_posted b (event_clear a ∷ ks) =
    let before = is_posted b ks in elim (is_same b a) [ true ↦ false | false ↦ before ]
is_posted b (_ ∷ ks) = is_posted b ks

-- What the event bits and the flow control are in each state.
abbrev pub Agrees : State → Bool → Bool → Bool → Type 0
Agrees State.connected flow on off = (on ≡ true) × (off ≡ false)
Agrees State.disconnected flow on off = (flow ≡ false) × (on ≡ false) × (off ≡ true)
Agrees _ flow on off = on ≡ not off

abbrev pub IsConsistent : {Rb : Type 0} → Cmux Rb → Type 0
IsConsistent c =
    Agrees c.state c.flow_control_on (is_posted EventBit.connected_bit c.calls)
      (is_posted EventBit.disconnected_bit c.calls)

module _ {Rb : Type 0} ⦃ring : RingBuf Rb⦄ ⦃crc : Crc8⦄ where
  pub data Step (c : Cmux Rb) : Cmux Rb → Type 0 where
    receives : {c' : Cmux Rb} (b : ℕ) → process_received_byte c b ≡ some c' → Step c c'
    is_told : Step c (bus_callback c)
    transmits : (taken : ℕ) → Step c (transmit_handler c taken)
    connects : {c' : Cmux Rb} → connect_handler c ≡ some c' → Step c c'
    disconnects : {c' : Cmux Rb} → disconnect_handler c ≡ some c' → Step c c'
    asks_connect : (pending : Bool) → Step c (connect_async c pending).0
    asks_disconnect : (pending : Bool) → Step c (disconnect_async c pending).0
    opens : {c' : Cmux Rb} (i : ℕ) → dlci_open_handler c i ≡ some c' → Step c c'
    closes : {c' : Cmux Rb} (i : ℕ) → dlci_close_handler c i ≡ some c' → Step c c'
    asks_open : (i : ℕ) (pending : Bool) → Step c (pipe_api_open c i pending).0
    asks_close : (i : ℕ) (pending : Bool) → Step c (pipe_api_close c i pending).0
    sends :
        {c' : Cmux Rb} {r : Ret} (i : ℕ) (xs : List ℕ)
        → pipe_api_transmit c i xs ≡ some (c', r)
        → Step c c'
    takes :
        {c' : Cmux Rb} {ys : List ℕ} (i n : ℕ) → pipe_api_receive c i n ≡ some (c', ys) → Step c c'
    adds : (a : ℕ) (rb : Rb) → Step c (dlci_init c a rb)
    attaches : Step c (attach c)
    releases : Step c (release c)

  -- What a multiplexer can become.
  pub data Reached : Cmux Rb → Type 0 where
    starts :
        (has_callback : Bool) (buf : List ℕ) (size : ℕ) (rb : Rb)
        → Reached (init has_callback buf size rb)
    then : {c c' : Cmux Rb} → Reached c → Step c c' → Reached c'
