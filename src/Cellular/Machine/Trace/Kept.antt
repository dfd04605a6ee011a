-- ===== src/Cellular/Machine/Trace/Kept.antt =====
-- The calls of the driver keep to its state.
use modem_modules.Base.{
  ◌≡◌, refl, sym, ◌∙◌, ap, arith, Bool, true, false, List, ◌∷◌, Ret, if◌then◌else◌,
}
use mathlib.Core.Path.{subst}
use modem_modules.Pipe.{is_negative}
use modem_modules.Cellular.{
  Cellular, State, Event, PipeName, Call, uart_pipe, dlci1_pipe, dlci2_pipe, pipe_open, chat_attach,
  chat_release, cmux_attach, set_link_addr,
}
use modem_modules.Cellular.Machine.{
  enter, leave, enter_state, event_handler, handle_in, on_run_init_script_state_enter,
  on_run_init_script_state_leave, on_connect_cmux_state_enter, on_open_dlci1_state_enter,
  on_open_dlci1_state_leave, on_open_dlci2_state_enter, on_open_dlci2_state_leave,
  on_run_dial_script_state_enter, on_run_dial_script_state_leave, on_register_state_enter,
  on_register_state_leave, on_roaming_state_enter, on_roaming_state_leave,
  on_close_dlci2_state_enter, on_close_dlci1_state_enter, on_disconnect_cmux_state_enter,
  idle_event_handler, run_init_script_event_handler, connect_cmux_event_handler,
  open_dlci1_event_handler, open_dlci2_event_handler, run_dial_script_event_handler,
  register_event_handler, roaming_event_handler, close_dlci2_event_handler,
  close_dlci1_event_handler, disconnect_cmux_event_handler,
}
use modem_modules.Cellular.Machine.Graph.{
  Ends, ends, if-Ends, enter-Is, leave-Is, is_held, leave-is_held,
}
use modem_modules.Cellular.Machine.Trace.{
  is_carrier_on, is_timer_on, is_chatting, is_watching, is_roaming, is_ticking, is_opening1,
  is_opening2, IsIn,
}

released :
    (p : PipeName) (ks : List Call)
    → is_watching p ks ≡ false
    → is_watching p (chat_release ∷ ks) ≡ false
released p ks h = go (is_chatting p ks)
  where
    go : (b : Bool) → (if b then false else is_watching p ks) ≡ false
    go true = refl
    go false = h

module _ {Rb : Type 0} (answers : List Call → Call → Ret) where
  -- Every state is left as it was entered from the first.
  leave-IsIn : (s : State) (d : Cellular Rb) → IsIn s d → Ends (IsIn State.idle) (leave answers s d)
  unfolding on_run_init_script_state_leave on_open_dlci1_state_leave on_open_dlci2_state_leave
      on_run_dial_script_state_leave on_register_state_leave on_roaming_state_leave
  leave-IsIn State.run_init_script d v = ends _ _ _ (record {
    carrier = v.carrier;
    timer = v.timer;
    watching1 = released dlci1_pipe (set_link_addr d.imei ∷ d.calls) v.watching1;
    watching2 = released dlci2_pipe (set_link_addr d.imei ∷ d.calls) v.watching2;
  })
  leave-IsIn State.open_dlci1 d v =
      ends _ _ _
        (record { carrier = v.carrier; timer = v.timer; watching1 = refl; watching2 = v.watching2 })
  leave-IsIn State.open_dlci2 d v =
      ends _ _ _
        (record { carrier = v.carrier; timer = v.timer; watching1 = v.watching1; watching2 = refl })
  leave-IsIn State.run_dial_script d v = ends _ _ _ (record {
    carrier = v.carrier;
    timer = v.timer;
    watching1 = released dlci1_pipe d.calls v.watching1;
    watching2 = refl;
  })
  leave-IsIn State.register d v = ends _ _ _ (record {
    carrier = v.carrier;
    timer = λ _. refl;
    watching1 = released dlci1_pipe d.calls v.watching1;
    watching2 = released dlci2_pipe d.calls v.watching2;
  })
  leave-IsIn State.roaming d v = ends _ _ _ (record {
    carrier = refl;
    timer = λ _. refl;
    watching1 = released dlci1_pipe d.calls v.watching1;
    watching2 = released dlci2_pipe d.calls v.watching2;
  })
  leave-IsIn _ d v = ends _ _ _ (record {
    carrier = v.carrier;
    timer = v.timer;
    watching1 = v.watching1;
    watching2 = v.watching2;
  })

module _ {Rb : Type 0} (d : Cellular Rb) (v : IsIn State.idle d) where
  -- More calls, none of which is about the carrier, the timer or the channels.
  quiet :
      (s : State) (ks : List Call)
      → is_carrier_on ks ≡ is_carrier_on d.calls
      → is_timer_on ks ≡ is_timer_on d.calls
      → is_watching dlci1_pipe ks ≡ is_watching dlci1_pipe d.calls
      → is_watching dlci2_pipe ks ≡ is_watching dlci2_pipe d.calls
      → is_roaming s ≡ false
      → is_opening1 s ≡ false
      → is_opening2 s ≡ false
      → IsIn s (record d { calls = ks })
  quiet s ks c t w1 w2 r o1 o2 = record {
    carrier = c ∙ (v.carrier ∙ sym r);
    timer = λ _. t ∙ v.timer refl;
    watching1 = w1 ∙ (v.watching1 ∙ sym o1);
    watching2 = w2 ∙ (v.watching2 ∙ sym o2);
  }

module _ {Rb : Type 0} (answers : List Call → Call → Ret) (d : Cellular Rb)
    (v : IsIn State.idle d) where
  unmoved :
      (s : State) (ks : List Call) (r : Ret)
      → is_carrier_on ks ≡ is_carrier_on d.calls
      → is_timer_on ks ≡ is_timer_on d.calls
      → is_watching dlci1_pipe ks ≡ is_watching dlci1_pipe d.calls
      → is_watching dlci2_pipe ks ≡ false
      → is_roaming s ≡ false
      → is_opening1 s ≡ false
      → is_opening2 s ≡ false
      → Ends (IsIn s) (record d { calls = ks }, r)
  unmoved s ks x c t w1 w2 r o1 o2 =
      ends _ _ _ (quiet d v s ks c t w1 (w2 ∙ sym v.watching2) r o1 o2)

  enter-IsIn : (s : State) → Ends (IsIn s) (enter answers s d)
  unfolding on_run_init_script_state_enter on_connect_cmux_state_enter on_open_dlci1_state_enter
      on_open_dlci2_state_enter on_run_dial_script_state_enter on_register_state_enter
      on_roaming_state_enter on_close_dlci2_state_enter on_close_dlci1_state_enter
      on_disconnect_cmux_state_enter
  enter-IsIn State.run_init_script =
      if-Ends _ (is_negative (answers d.calls (pipe_open uart_pipe))) _ _
        (unmoved _ _ _ refl refl refl v.watching2 refl refl refl)
        (if-Ends _ (is_negative (answers (pipe_open uart_pipe ∷ d.calls) (chat_attach uart_pipe))) _
          _ (unmoved _ _ _ refl refl refl v.watching2 refl refl refl)
          (unmoved _ _ _ refl refl refl v.watching2 refl refl refl))
  enter-IsIn State.connect_cmux =
      if-Ends _ (is_negative (answers d.calls (cmux_attach uart_pipe))) _ _
        (unmoved _ _ _ refl refl refl v.watching2 refl refl refl)
        (unmoved _ _ _ refl refl refl v.watching2 refl refl refl)
  enter-IsIn State.run_dial_script =
      if-Ends _ (is_negative (answers d.calls (chat_attach dlci2_pipe))) _ _
        (unmoved _ _ _ refl refl refl refl refl refl refl)
        (unmoved _ _ _ refl refl refl refl refl refl refl)
  enter-IsIn State.register =
      if-Ends _ (is_negative (answers d.calls (chat_attach dlci1_pipe))) _ _
        (ends _ _ _ (record {
          carrier = v.carrier;
          timer = λ _. v.timer refl;
          watching1 = refl;
          watching2 = v.watching2;
        }))
        (ends _ _ _ (record {
          carrier = v.carrier;
          timer = λ e. ground arith;
          watching1 = refl;
          watching2 = v.watching2;
        }))
  enter-IsIn State.roaming = ends _ _ _ (record {
    carrier = refl;
    timer = λ e. ground arith;
    watching1 = refl;
    watching2 = v.watching2;
  })
  enter-IsIn State.open_dlci1 =
      ends _ _ _
        (record { carrier = v.carrier; timer = v.timer; watching1 = refl; watching2 = v.watching2 })
  enter-IsIn State.open_dlci2 =
      ends _ _ _
        (record { carrier = v.carrier; timer = v.timer; watching1 = v.watching1; watching2 = refl })
  enter-IsIn _ = unmoved _ _ _ refl refl refl v.watching2 refl refl refl

-- A state that was left, and is not, since the packet interface does not take the pipe.
held-IsIn :
    {Rb : Type 0} (answers : List Call → Call → Ret) (s : State) (d x : Cellular Rb)
    → is_held answers s d ≡ true
    → IsIn State.idle x
    → IsIn s x
held-IsIn answers State.run_dial_script d x e v = record {
  carrier = v.carrier;
  timer = v.timer;
  watching1 = v.watching1;
  watching2 = v.watching2;
}
held-IsIn answers State.idle d x e v = v
held-IsIn answers _ d x e v = absurd (ground arith)

abbrev IsTracked : {Rb : Type 0} → Cellular Rb → Type 0
IsTracked d = IsIn d.state d

module _ {Rb : Type 0} (answers : List Call → Call → Ret) (d : Cellular Rb)
    (v : IsIn d.state d) where
  entered :
      (s : State) (b : Bool) → is_held answers d.state d ≡ b → IsTracked (enter_state answers d s)
  unfolding enter_state
  entered s true e =
      let left = leave answers d.state d in
      rw (leave-is_held answers d.state d, e)
        (subst (λ x. IsIn x left.0) (sym (leave-Is answers d.state d).holds)
          (held-IsIn answers d.state d left.0 e (leave-IsIn answers d.state d v).holds))
  entered s false e =
      let left = leave answers d.state d in
      let w = (leave-IsIn answers d.state d v).holds in
      let there = record (left.0) { state = s } in
      let u : IsIn State.idle there = record {
        carrier = w.carrier;
        timer = w.timer;
        watching1 = w.watching1;
        watching2 = w.watching2;
      } in
      rw (leave-is_held answers d.state d, e)
        (subst (λ x. IsIn x (enter answers s there).0) (sym (enter-Is answers s there).holds)
          (enter-IsIn answers there u s).holds)

  moved : (s : State) → IsTracked (enter_state answers d s)
  moved s = entered s (is_held answers d.state d) refl

  moved_if : (b : Bool) (s : State) → IsTracked (if b then enter_state answers d s else d)
  moved_if true s = moved s
  moved_if false s = v

  -- The timer is started again in a state that has one.
  ticked :
      (ks : List Call)
      → is_carrier_on ks ≡ is_carrier_on d.calls
      → is_ticking d.state ≡ true
      → is_watching dlci1_pipe ks ≡ is_watching dlci1_pipe d.calls
      → is_watching dlci2_pipe ks ≡ is_watching dlci2_pipe d.calls
      → IsTracked (record d { calls = ks })
  ticked ks c t w1 w2 = record {
    carrier = c ∙ v.carrier;
    timer = λ e. absurd (ground (arith, t, e));
    watching1 = w1 ∙ v.watching1;
    watching2 = w2 ∙ v.watching2;
  }

  handle_in-IsTracked : (s : State) (e : Event) → d.state ≡ s → IsTracked (handle_in answers s d e)
  unfolding idle_event_handler run_init_script_event_handler connect_cmux_event_handler
      open_dlci1_event_handler open_dlci2_event_handler run_dial_script_event_handler
      register_event_handler roaming_event_handler close_dlci2_event_handler
      close_dlci1_event_handler disconnect_cmux_event_handler
  handle_in-IsTracked State.idle Event.resume e = moved _
  handle_in-IsTracked State.run_init_script Event.script_success e = moved _
  handle_in-IsTracked State.connect_cmux Event.cmux_connected e = moved _
  handle_in-IsTracked State.open_dlci1 Event.dlci1_opened e = moved _
  handle_in-IsTracked State.open_dlci2 Event.dlci2_opened e = moved _
  handle_in-IsTracked State.run_dial_script Event.script_success e = moved _
  handle_in-IsTracked State.register Event.script_success e = moved_if _ _
  handle_in-IsTracked State.register Event.timeout e = ticked _ refl (ap is_ticking e) refl refl
  handle_in-IsTracked State.roaming Event.script_success e = moved_if _ _
  handle_in-IsTracked State.roaming Event.timeout e = ticked _ refl (ap is_ticking e) refl refl
  handle_in-IsTracked State.roaming Event.suspend e = moved _
  handle_in-IsTracked State.close_dlci2 Event.dlci2_closed e = moved _
  handle_in-IsTracked State.close_dlci1 Event.dlci1_closed e = moved _
  handle_in-IsTracked State.disconnect_cmux Event.cmux_disconnected e = moved _
  handle_in-IsTracked _ _ e = v

  -- What `IsIn` says of the driver's state is kept by every event: the carrier of the packet
  -- interface is on in the roaming state and in no other, the timer is off in all states but those of
  -- registration and roaming, and the driver's own callback is on the pipe of a channel only in the
  -- state that opens this channel.
  pub event_handler-IsIn :
      (e : Event) → IsIn (event_handler answers d e).state (event_handler answers d e)
  unfolding event_handler
  event_handler-IsIn e = handle_in-IsTracked d.state e refl
