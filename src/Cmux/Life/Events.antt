-- ===== src/Cmux/Life/Events.antt =====
-- The event bits and the flow control of a multiplexer in each of its states.
use modem_modules.Base.{
  ℕ, Bool, Bool-cases, inl, inr, true, false, ◌≡◌, refl, ap, sym, ◌∙◌, Option, none, some, List, [],
  ◌∷◌, RingBuf, Crc8, ◌==◌, not, suc,
}
use modem_modules.Cmux.{
  Cmux, Dlci, State, Receiver, ReceiveState, EventBit, frame_type_ua, frame_type_uih, call,
  notify_closed,
}
use modem_modules.Cmux.Control.{
  Command, type_value, command_cld, command_msc, command_fcon, command_fcoff, is_connecting,
  takes_commands, wrap_command, on_cld_command, on_control_frame_ua, on_msc_command,
  on_fcon_command, on_fcoff_command, on_command, on_control_frame_uih, on_control_frame, on_frame,
  acknowledge_received_frame,
}
use modem_modules.Cmux.Receive.{receive_sof, receive_resync, with_receiver}
use modem_modules.Cmux.Work.{notify_all_closed, release}
use modem_modules.Cmux.Life.{Agrees, IsConsistent}
use modem_modules.Base.Gives.{Always, Always-bind, Always-if}
use modem_modules.Cmux.Life.Keeps.{
  Keeps, unchanged, Keeps-self, Keeps-trans, acknowledge-Keeps, on_dlci_frame-Keeps,
}

-- One of the two event bits is set in every state.
Agrees-one : (s : State) (flow on off : Bool) → Agrees s flow on off → on ≡ not off
Agrees-one State.connected flow on off v = v.0 ∙ ap not (sym v.1)
Agrees-one State.disconnected flow on off v = v.1 ∙ ap not (sym v.2)
Agrees-one State.connecting flow on off v = v
Agrees-one State.disconnecting flow on off v = v

-- The flow control may change in the states in which commands are taken.
Agrees-flow :
    (s : State) (flow on off b : Bool)
    → takes_commands s ≡ true
    → Agrees s flow on off
    → Agrees s b on off
Agrees-flow State.connected flow on off b t v = v
Agrees-flow State.disconnected flow on off b t v = cc
Agrees-flow State.connecting flow on off b t v = v
Agrees-flow State.disconnecting flow on off b t v = v

module _ {Rb : Type 0} where
  pub Keeps-IsConsistent : {c c' : Cmux Rb} → Keeps c c' → IsConsistent c → IsConsistent c'
  Keeps-IsConsistent k v =
      rw
        (
          k.same_state,
          k.same_flow,
          k.same_bit EventBit.connected_bit,
          k.same_bit EventBit.disconnected_bit,
        )
        v

  pub Always-Keeps {ℓ} :
      {A : Type ℓ} (f : A → Cmux Rb) (c : Cmux Rb) (m : Option A)
      → IsConsistent c
      → Always (λ a. Keeps c (f a)) m
      → Always (λ a. IsConsistent (f a)) m
  Always-Keeps f c none v k = tt
  Always-Keeps f c (some a) v k = Keeps-IsConsistent k v

  on_cld_command-IsConsistent : (c : Cmux Rb) → IsConsistent (on_cld_command c)
  unfolding on_cld_command
  on_cld_command-IsConsistent c = elim (Bool-cases c.has_callback) [
    | inl t ↦ rw t (refl, refl, refl)
    | inr t ↦ rw t (refl, refl, refl)
  ]

  on_control_frame_ua-IsConsistent :
      (c : Cmux Rb) → IsConsistent c → IsConsistent (on_control_frame_ua c)
  unfolding on_control_frame_ua
  on_control_frame_ua-IsConsistent c v = elim (Bool-cases (is_connecting c.state)) [
    | inr t ↦ rw t v
    | inl t ↦ elim (Bool-cases c.has_callback) [
      | inl h ↦ rw (t, h) (refl, refl)
      | inr h ↦ rw (t, h) (refl, refl)
    ]
  ]

  -- The state changes to one in which either bit may be set.
  pub connecting-IsConsistent :
      (c : Cmux Rb) → IsConsistent c → IsConsistent (record c { state = State.connecting })
  connecting-IsConsistent c v = Agrees-one c.state _ _ _ v

  pub disconnecting-IsConsistent :
      (c : Cmux Rb) → IsConsistent c → IsConsistent (record c { state = State.disconnecting })
  disconnecting-IsConsistent c v = Agrees-one c.state _ _ _ v

  notify_all_closed-Keeps :
      (i : ℕ) (ds : List (Dlci Rb)) (c : Cmux Rb) → Keeps c (notify_all_closed i ds c)
  unfolding notify_all_closed
  notify_all_closed-Keeps i [] c = Keeps-self c
  notify_all_closed-Keeps i (d ∷ ds) c =
      Keeps-trans (unchanged refl refl (λ b. refl))
        (notify_all_closed-Keeps (suc i) ds (call (notify_closed i) c))

  pub release-Keeps : (c : Cmux Rb) → Keeps c (release c)
  unfolding release
  release-Keeps c =
      Keeps-trans (notify_all_closed-Keeps 0 c.dlcis c) (unchanged refl refl (λ b. refl))

  pub with_receiver-Keeps :
      (c : Cmux Rb) (o : Option Receiver) → Always (Keeps c) (with_receiver c o)
  with_receiver-Keeps c o = Always-bind _ o _ (λ r. unchanged refl refl (λ b. refl))

  pub receive_sof-Keeps : (c : Cmux Rb) (b : ℕ) → Keeps c (receive_sof c b)
  unfolding receive_sof
  receive_sof-Keeps c b = elim (Bool-cases (b == 0xF9)) [
    | inl t ↦ rw t (unchanged refl refl (λ b. refl))
    | inr t ↦ rw t (unchanged refl refl (λ b. refl))
  ]

  pub receive_resync-Keeps :
      (c : Cmux Rb) (s t : ReceiveState) (b : ℕ) → Keeps c (receive_resync c s t b)
  unfolding receive_resync
  receive_resync-Keeps c s t b = elim (Bool-cases (b == 0xF9)) [
    | inl t ↦ rw t (unchanged refl refl (λ b. refl))
    | inr t ↦ rw t (unchanged refl refl (λ b. refl))
  ]

module _ {Rb : Type 0} ⦃ring : RingBuf Rb⦄ ⦃crc : Crc8⦄ (c : Cmux Rb) (v : IsConsistent c) where
  flow-IsConsistent :
      (b : Bool)
      → takes_commands c.state ≡ true
      → Always IsConsistent (acknowledge_received_frame (record c { flow_control_on = b }))
  flow-IsConsistent b t =
      Always-Keeps (λ a. a) (record c { flow_control_on = b }) _ (Agrees-flow c.state _ _ _ b t v)
        (acknowledge-Keeps _)

  on_command-IsConsistent :
      (m : Command) → takes_commands c.state ≡ true → Always IsConsistent (on_command c m)
  unfolding on_command on_msc_command on_fcon_command on_fcoff_command
  on_command-IsConsistent m t =
      Always-if _ (type_value m == command_cld) _ _ (λ _. on_cld_command-IsConsistent c)
        (λ _.
          Always-if _ (type_value m == command_msc) _ _
            (λ _. Always-Keeps (λ a. a) c _ v (acknowledge-Keeps c))
            (λ _.
              Always-if _ (type_value m == command_fcon) _ _ (λ _. flow-IsConsistent true t)
                (λ _.
                  Always-if _ (type_value m == command_fcoff) _ _ (λ _. flow-IsConsistent false t)
                    (λ _. v))))

  on_control_frame_uih-IsConsistent : Always IsConsistent (on_control_frame_uih c)
  unfolding on_control_frame_uih
  on_control_frame_uih-IsConsistent = elim (Bool-cases (takes_commands c.state)) [
    | inr t ↦ rw t v
    | inl t ↦
        rw t (Always-bind _ (wrap_command c.receiver c.frame.contents c.frame.data_len) _ (go t))
  ]
    where
      go :
          takes_commands c.state ≡ true
          → (o : Option Command)
          → Always IsConsistent (elim o [ none ↦ some c | some m ↦ on_command c m ])
      go t none = v
      go t (some m) = on_command-IsConsistent m t

  pub on_frame-IsConsistent : Always IsConsistent (on_frame c)
  unfolding on_frame on_control_frame
  on_frame-IsConsistent =
      Always-if _ (c.frame.dlci_address == 0) _ _
        (λ _.
          Always-if _ (c.frame.frame_type == frame_type_ua) _ _
            (λ _. on_control_frame_ua-IsConsistent c v)
            (λ _.
              Always-if _ (c.frame.frame_type == frame_type_uih) _ _
                (λ _. on_control_frame_uih-IsConsistent) (λ _. v)))
        (λ _. Always-Keeps (λ a. a) c _ v (on_dlci_frame-Keeps c))
