-- ===== src/Cmux/Life/Keeps.antt =====
-- The functions of modem_cmux.c that leave the state, the flow control and the events as they are.
use modem_modules.Base.{
  ℕ, ◌%◌, ◌*◌, ◌+◌, ◌≡◌, refl, ◌∙◌, Option, none, some, RingBuf, Crc8, ltb, ◌==◌, if◌then◌else◌,
  not, get_elem?, min,
}
use modem_modules.Cmux.{
  Cmux, Dlci, DlciState, Frame, EventBit, read, cmd_frame_size_max, cmd_data_size_max,
  data_frame_size_min, frame_type_ua, frame_type_uih,
}
use modem_modules.Cmux.Transmit.{transmit_frame, transmit_cmd_frame, transmit_data_frame, fitting}
use modem_modules.Cmux.Control.{
  find_dlci, is_open, dlci_ua, on_dlci_frame_ua, on_dlci_frame_uih, on_dlci_frame,
  acknowledge_received_frame,
}
use modem_modules.Cmux.Life.{is_posted}
use modem_modules.Base.Gives.{Always, Always-bind, Always-then, Always-if}

module _ {Rb : Type 0} where
  pub record Keeps (c c' : Cmux Rb) : Type 0 where
    pub same_state : c'.state ≡ c.state
    pub same_flow : c'.flow_control_on ≡ c.flow_control_on
    pub same_bit : (b : EventBit) → is_posted b c'.calls ≡ is_posted b c.calls

  pub unchanged :
      {c c' : Cmux Rb}
      → c'.state ≡ c.state
      → c'.flow_control_on ≡ c.flow_control_on
      → ((b : EventBit) → is_posted b c'.calls ≡ is_posted b c.calls)
      → Keeps c c'
  unchanged s f e = record { same_state = s; same_flow = f; same_bit = e }

  pub Keeps-self : (c : Cmux Rb) → Keeps c c
  Keeps-self c = unchanged refl refl (λ b. refl)

  pub Keeps-trans : {a b c : Cmux Rb} → Keeps a b → Keeps b c → Keeps a c
  Keeps-trans p q = record {
    same_state = q.same_state ∙ p.same_state;
    same_flow = q.same_flow ∙ p.same_flow;
    same_bit = λ x. q.same_bit x ∙ p.same_bit x;
  }

module _ {Rb : Type 0} ⦃ring : RingBuf Rb⦄ ⦃crc : Crc8⦄ (c : Cmux Rb) where
  pub transmit_frame-Keeps : (f : Frame) → Always (λ s. Keeps c s.0) (transmit_frame c f)
  unfolding transmit_frame
  transmit_frame-Keeps f =
      Always-bind _ (read c.receiver f.contents (fitting c.transmit_rb f.data_len)) _
        (λ xs. unchanged refl refl (λ b. refl))

  pub transmit_cmd_frame-Keeps : (f : Frame) → Always (λ s. Keeps c s.0) (transmit_cmd_frame c f)
  unfolding transmit_cmd_frame
  transmit_cmd_frame-Keeps f =
      Always-if _ (ltb (ring.space c.transmit_rb % 65536) cmd_frame_size_max) _ _
        (λ _. Keeps-self c)
        (λ _. Always-then _ _ (transmit_frame c f) _ (transmit_frame-Keeps f) (λ s k. k))

  pub transmit_data_frame-Keeps : (f : Frame) → Always (λ s. Keeps c s.0) (transmit_data_frame c f)
  unfolding transmit_data_frame
  transmit_data_frame-Keeps f =
      Always-if _ (not c.flow_control_on) _ _ (λ _. Keeps-self c)
        (λ _.
          Always-if _
            (ltb (ring.space c.transmit_rb % 65536) (cmd_frame_size_max * 2 + data_frame_size_min))
            _ _ (λ _. Keeps-self c)
            (λ _. Always-then _ _ (transmit_frame c f) _ (transmit_frame-Keeps f) (λ s k. k)))

  pub acknowledge-Keeps : Always (Keeps c) (acknowledge_received_frame c)
  unfolding acknowledge_received_frame
  acknowledge-Keeps =
      Always-if _ (ltb cmd_data_size_max c.frame.data_len) _ _ (λ _. Keeps-self c)
        (λ _. Always-bind _ (read c.receiver c.frame.contents c.frame.data_len) _ (λ xs.
          Always-if _ (ltb c.frame.data_len 2) _ _ (λ _. tt)
            (λ _.
              Always-then _ _ (transmit_cmd_frame c _) _ (transmit_cmd_frame-Keeps _) (λ s k. k))))

  dlci_ua-Keeps : (i : ℕ) (d : Dlci Rb) (s : DlciState) → Keeps c (dlci_ua c i d s)
  unfolding dlci_ua
  dlci_ua-Keeps i d DlciState.opening = unchanged refl refl (λ b. refl)
  dlci_ua-Keeps i d DlciState.closing = unchanged refl refl (λ b. refl)
  dlci_ua-Keeps i d DlciState.opened = Keeps-self c
  dlci_ua-Keeps i d DlciState.closed = Keeps-self c

  dlci_uih-Keeps : (i : ℕ) → Always (Keeps c) (on_dlci_frame_uih c i)
  unfolding on_dlci_frame_uih
  dlci_uih-Keeps i = Always-bind _ (get_elem? c.dlcis i) _ (λ d.
      Always-if _ (not (is_open d.dlci_state)) _ _ (λ _. Keeps-self c)
        (λ _.
          Always-bind _
            (read c.receiver c.frame.contents (min (ring.space d.receive_rb) c.frame.data_len)) _
            (λ xs. unchanged refl refl (λ b. refl))))

  pub on_dlci_frame-Keeps : Always (Keeps c) (on_dlci_frame c)
  unfolding on_dlci_frame on_dlci_frame_ua
  on_dlci_frame-Keeps = go (find_dlci c)
    where
      at :
          (i : ℕ)
          → Always (Keeps c) (
              if c.frame.frame_type == frame_type_ua
              then on_dlci_frame_ua c i
              else (if c.frame.frame_type == frame_type_uih then on_dlci_frame_uih c i else some c))
      at i =
          Always-if _ (c.frame.frame_type == frame_type_ua) _ _
            (λ _. Always-bind _ (get_elem? c.dlcis i) _ (λ d. dlci_ua-Keeps i d d.dlci_state))
            (λ _.
              Always-if _ (c.frame.frame_type == frame_type_uih) _ _ (λ _. dlci_uih-Keeps i)
                (λ _. Keeps-self c))

      go :
          (o : Option ℕ)
          → Always (Keeps c) (elim o [
            | none ↦ some c
            | some i ↦
                if c.frame.frame_type == frame_type_ua
                then on_dlci_frame_ua c i
                else (if c.frame.frame_type == frame_type_uih
                    then on_dlci_frame_uih c i
                    else some c)
          ])
      go none = Keeps-self c
      go (some i) = at i
