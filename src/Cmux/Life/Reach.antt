-- ===== src/Cmux/Life/Reach.antt =====
-- What holds of a multiplexer after any sequence of steps.
use modem_modules.Base.{
  ℕ, ◌⊎◌, Bool, Bool-cases, inl, inr, true, false, ◌≡◌, refl, Option, none, some, List, RingBuf,
  Crc8, ret, fail, ealready, ◌==◌, not, length, get_elem?,
}
use modem_modules.Cmux.{
  Cmux, Dlci, DlciState, State, ReceiveState, EventBit, frame_type_sabm, frame_type_disc,
  receive_buffer,
}
use modem_modules.Cmux.Transmit.{transmit_cmd_frame, transmit_data_frame}
use modem_modules.Cmux.Control.{set_dlci, on_frame}
use modem_modules.Cmux.Receive.{receive_eof, dispatch, process_received_byte}
use modem_modules.Cmux.Channel.{
  bare_frame, data_frame, pipe_api_open, pipe_api_close, pipe_api_receive, pipe_api_transmit,
  dlci_init, dlci_open_handler, dlci_close_handler,
}
use modem_modules.Cmux.Work.{
  close_down, init, bus_callback, connect_async, disconnect_async, attach, transmit_handler,
  connect, disconnect, connect_handler, disconnect_handler,
}
use modem_modules.Cmux.Life.{is_posted, IsConsistent, Step, Reached}
use modem_modules.Base.Gives.{Always, Always-bind, Always-then, Always-if, Always-at}
use modem_modules.Cmux.Life.Keeps.{
  Keeps, unchanged, Keeps-trans, transmit_cmd_frame-Keeps, transmit_data_frame-Keeps,
}
use modem_modules.Cmux.Life.Events.{
  Keeps-IsConsistent, Always-Keeps, connecting-IsConsistent, disconnecting-IsConsistent,
  release-Keeps, with_receiver-Keeps, receive_sof-Keeps, receive_resync-Keeps,
  on_frame-IsConsistent,
}

module _ {Rb : Type 0} ⦃ring : RingBuf Rb⦄ ⦃crc : Crc8⦄ (c : Cmux Rb) (v : IsConsistent c) where
  receive_eof-IsConsistent : (b : ℕ) → Always IsConsistent (receive_eof c b)
  unfolding receive_eof
  receive_eof-IsConsistent b =
      Always-if _ (not (b == 0xF9)) _ _ (λ _. v)
        (λ _.
          let handed = record c {
            receiver = record (c.receiver) {
              frame = record (c.receiver.frame) { contents = receive_buffer };
            };
          } in
          Always-then IsConsistent IsConsistent (on_frame handed) _ (on_frame-IsConsistent handed v)
            (λ c' w. w))

  stores : (o : Option (Cmux Rb)) → Always (Keeps c) o → Always IsConsistent o
  stores o k = Always-Keeps (λ a. a) c o v k

  dispatch-IsConsistent : (s : ReceiveState) (b : ℕ) → Always IsConsistent (dispatch s c b)
  unfolding dispatch
  dispatch-IsConsistent ReceiveState.sof b = Keeps-IsConsistent (receive_sof-Keeps c b) v
  dispatch-IsConsistent ReceiveState.resync_0 b =
      Keeps-IsConsistent (receive_resync-Keeps c _ _ b) v
  dispatch-IsConsistent ReceiveState.resync_1 b =
      Keeps-IsConsistent (receive_resync-Keeps c _ _ b) v
  dispatch-IsConsistent ReceiveState.resync_2 b =
      Keeps-IsConsistent (receive_resync-Keeps c _ _ b) v
  dispatch-IsConsistent ReceiveState.resync_3 b =
      Always-if _ (b == 0xF9) _ _ (λ _. v) (λ _. stores _ (with_receiver-Keeps c _))
  dispatch-IsConsistent ReceiveState.address b = stores _ (with_receiver-Keeps c _)
  dispatch-IsConsistent ReceiveState.address_cont b = v
  dispatch-IsConsistent ReceiveState.control b = stores _ (with_receiver-Keeps c _)
  dispatch-IsConsistent ReceiveState.len b = stores _ (with_receiver-Keeps c _)
  dispatch-IsConsistent ReceiveState.len_cont b = stores _ (with_receiver-Keeps c _)
  dispatch-IsConsistent ReceiveState.payload b = stores _ (with_receiver-Keeps c _)
  dispatch-IsConsistent ReceiveState.fcs b = stores _ (with_receiver-Keeps c _)
  dispatch-IsConsistent ReceiveState.drop_frame b = v
  dispatch-IsConsistent ReceiveState.eof b = receive_eof-IsConsistent b

  connect_handler-IsConsistent : Always IsConsistent (connect_handler c)
  unfolding connect_handler
  connect_handler-IsConsistent =
      let asked = record c { state = State.connecting } in
      let frame = bare_frame 0 frame_type_sabm in
      Always-then (λ (s : Cmux Rb × Bool). IsConsistent s.0) IsConsistent
        (transmit_cmd_frame asked frame) _
        (Always-Keeps (λ s. s.0) asked _ (connecting-IsConsistent c v)
          (transmit_cmd_frame-Keeps asked frame))
        (λ s w. w)

  disconnect_handler-IsConsistent : Always IsConsistent (disconnect_handler c)
  unfolding disconnect_handler
  disconnect_handler-IsConsistent =
      let asked = record c { state = State.disconnecting } in
      let frame = close_down in
      Always-then (λ (s : Cmux Rb × Bool). IsConsistent s.0) IsConsistent
        (transmit_cmd_frame asked frame) _
        (Always-Keeps (λ s. s.0) asked _ (disconnecting-IsConsistent c v)
          (transmit_cmd_frame-Keeps asked frame))
        (λ s w. w)

  -- A handler of a channel: the channel's state changes, and its frame is sent.
  channel_frame-Keeps :
      (i : ℕ) (s : DlciState) (t : ℕ) (d : Dlci Rb)
      → Always
          (λ (q : Cmux Rb × Bool). Keeps c q.0)
          (transmit_cmd_frame
            (set_dlci c i (record d { dlci_state = s }))
            (bare_frame d.dlci_address t))
  channel_frame-Keeps i s t d =
      let asked = set_dlci c i (record d { dlci_state = s }) in
      let frame = bare_frame d.dlci_address t in
      go (transmit_cmd_frame asked frame) (transmit_cmd_frame-Keeps asked frame)
    where
      go :
          (m : Option (Cmux Rb × Bool))
          → Always (λ q. Keeps (set_dlci c i (record d { dlci_state = s })) q.0) m
          → Always (λ q. Keeps c q.0) m
      go none k = tt
      go (some q) k = Keeps-trans (unchanged refl refl (λ b. refl)) k

  open_handler-Keeps : (i : ℕ) → Always (Keeps c) (dlci_open_handler c i)
  unfolding dlci_open_handler
  open_handler-Keeps i = Always-bind _ (get_elem? c.dlcis i) _ (λ d.
      let asked = set_dlci c i (record d { dlci_state = DlciState.opening }) in
      let frame = bare_frame d.dlci_address frame_type_sabm in
      Always-then (λ (q : Cmux Rb × Bool). Keeps c q.0) (Keeps c) (transmit_cmd_frame asked frame) _
        (channel_frame-Keeps i DlciState.opening frame_type_sabm d)
        (λ q k. Keeps-trans k (unchanged refl refl (λ b. refl))))

  close_handler-Keeps : (i : ℕ) → Always (Keeps c) (dlci_close_handler c i)
  unfolding dlci_close_handler
  close_handler-Keeps i = Always-bind _ (get_elem? c.dlcis i) _ (λ d.
      let asked = set_dlci c i (record d { dlci_state = DlciState.closing }) in
      let frame = bare_frame d.dlci_address frame_type_disc in
      Always-then (λ (q : Cmux Rb × Bool). Keeps c q.0) (Keeps c) (transmit_cmd_frame asked frame) _
        (channel_frame-Keeps i DlciState.closing frame_type_disc d)
        (λ q k. Keeps-trans k (unchanged refl refl (λ b. refl))))

  api_transmit-Keeps : (i : ℕ) (xs : List ℕ) → Always (λ q. Keeps c q.0) (pipe_api_transmit c i xs)
  unfolding pipe_api_transmit
  api_transmit-Keeps i xs =
      Always-bind _ (get_elem? c.dlcis i) _
        (λ d. transmit_data_frame-Keeps c (data_frame d.dlci_address xs))

  api_receive-Keeps : (i n : ℕ) → Always (λ q. Keeps c q.0) (pipe_api_receive c i n)
  unfolding pipe_api_receive
  api_receive-Keeps i n =
      Always-bind _ (get_elem? c.dlcis i) _ (λ d. unchanged refl refl (λ b. refl))

  transmit_handler-Keeps : (taken : ℕ) → Keeps c (transmit_handler c taken)
  unfolding transmit_handler
  transmit_handler-Keeps taken = elim (Bool-cases (taken == 0)) [
    | inl t ↦ rw t (unchanged refl refl (λ b. refl))
    | inr t ↦ elim (Bool-cases (length (ring.contents (ring.consume c.transmit_rb taken)) == 0)) [
      | inl e ↦ rw (t, e) (unchanged refl refl (λ b. refl))
      | inr e ↦ rw (t, e) (unchanged refl refl (λ b. refl))
    ]
  ]

  Step-IsConsistent : (c' : Cmux Rb) → Step c c' → IsConsistent c'
  unfolding process_received_byte bus_callback connect_async disconnect_async pipe_api_open
      pipe_api_close dlci_init attach
  Step-IsConsistent c' (Step.receives b e) =
      Always-at _ _ c' e (dispatch-IsConsistent c.receive_state b)
  Step-IsConsistent c' Step.is_told = v
  Step-IsConsistent c' (Step.transmits taken) = Keeps-IsConsistent (transmit_handler-Keeps taken) v
  Step-IsConsistent c' (Step.connects e) = Always-at _ _ c' e connect_handler-IsConsistent
  Step-IsConsistent c' (Step.disconnects e) = Always-at _ _ c' e disconnect_handler-IsConsistent
  Step-IsConsistent c' (Step.asks_connect true) = v
  Step-IsConsistent c' (Step.asks_connect false) = v
  Step-IsConsistent c' (Step.asks_disconnect true) = v
  Step-IsConsistent c' (Step.asks_disconnect false) = v
  Step-IsConsistent c' (Step.opens i e) =
      Keeps-IsConsistent (Always-at _ _ c' e (open_handler-Keeps i)) v
  Step-IsConsistent c' (Step.closes i e) =
      Keeps-IsConsistent (Always-at _ _ c' e (close_handler-Keeps i)) v
  Step-IsConsistent c' (Step.asks_open i true) = v
  Step-IsConsistent c' (Step.asks_open i false) = v
  Step-IsConsistent c' (Step.asks_close i true) = v
  Step-IsConsistent c' (Step.asks_close i false) = v
  Step-IsConsistent c' (Step.sends {r} i xs e) =
      Keeps-IsConsistent (Always-at _ _ (c', r) e (api_transmit-Keeps i xs)) v
  Step-IsConsistent c' (Step.takes {ys} i n e) =
      Keeps-IsConsistent (Always-at _ _ (c', ys) e (api_receive-Keeps i n)) v
  Step-IsConsistent c' (Step.adds a rb) = v
  Step-IsConsistent c' Step.attaches = v
  Step-IsConsistent c' Step.releases = Keeps-IsConsistent (release-Keeps c) v

module _ {Rb : Type 0} ⦃ring : RingBuf Rb⦄ ⦃crc : Crc8⦄ where
  -- Whatever is called and received, in any order, from `modem_cmux_init` on: exactly one of the two
  -- event bits is set; it is the connected bit when the multiplexer is connected, and the
  -- disconnected bit when it is disconnected, and then flow control is off.
  pub Reached-IsConsistent : (c : Cmux Rb) → Reached c → IsConsistent c
  unfolding init
  Reached-IsConsistent c (Reached.starts has_callback buf size rb) = (refl, refl, refl)
  Reached-IsConsistent c (Reached.then {c = before} r s) =
      Step-IsConsistent before (Reached-IsConsistent before r) c s

  module _ (c : Cmux Rb) (r : Reached c) where
    -- The pipe of a channel of a disconnected multiplexer sends nothing and answers 0, whatever has
    -- happened before.
    pub disconnected_sends_nothing :
        (i : ℕ) (d : Dlci Rb) (xs : List ℕ)
        → c.state ≡ State.disconnected
        → get_elem? c.dlcis i ≡ some d
        → pipe_api_transmit c i xs ≡ some (c, ret 0)
    unfolding pipe_api_transmit transmit_data_frame
    disconnected_sends_nothing i d xs s there =
        let known = Reached-IsConsistent c r in
        let off : c.flow_control_on ≡ false = (rw s at known).0 in rw there (rw off)

    -- `modem_cmux_connect` on a connected multiplexer, and `modem_cmux_disconnect` on a disconnected
    -- one, answer -EALREADY at once and change nothing, whatever has happened before.
    pub answers_already :
        (pending : Bool) (meanwhile : Cmux Rb → Cmux Rb)
        → (c.state ≡ State.connected) ⊎ (c.state ≡ State.disconnected)
        → ((c.state ≡ State.connected)
            × (connect is_posted c pending meanwhile ≡ (c, fail ealready)))
          ⊎ ((c.state ≡ State.disconnected)
              × (disconnect is_posted c pending meanwhile ≡ (c, fail ealready)))
    unfolding connect disconnect
    answers_already pending meanwhile (inl s) =
        let known = Reached-IsConsistent c r in
        let on : is_posted EventBit.connected_bit c.calls ≡ true = (rw s at known).0 in
        inl (s, rw on)
    answers_already pending meanwhile (inr s) =
        let known = Reached-IsConsistent c r in
        let off : is_posted EventBit.disconnected_bit c.calls ≡ true = (rw s at known).2 in
        inr (s, rw off)
