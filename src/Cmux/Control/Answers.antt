-- ===== src/Cmux/Control/Answers.antt =====
-- Commands on the control channel, and the answers to them.
use modem_modules.Base.{
  ℕ, ◌-◌, ◌+◌, ◌/◌, ◌%◌, ◌≤◌, ◌<◌, ◌≡◌, ◌⊎◌, inl, inr, refl, ap, sym, ◌∙◌, Bool, true, false, some,
  List, [], ◌∷◌, arith, bit_and, ◌==◌, ltb, not, ◌||◌, if◌then◌else◌, ◌>>=◌, length, take,
  take-take, take_all, RingBuf, Crc8,
}
use mathlib.Core.Path.{subst}
use modem_modules.Cmux.{
  Cmux, Frame, bytes, receive_buffer, frame_type_uih, read, target, cmd_data_size_max,
}
use modem_modules.Cmux.Control.{
  Command, command_of, command_msc, command_fcon, command_fcoff, takes_commands, wrap_command,
  clear_cr, acknowledge_received_frame, on_msc_command, on_fcon_command, on_fcoff_command,
  on_command, on_control_frame_uih, on_control_frame, on_frame,
}
use modem_modules.Cmux.Transmit.{transmit_cmd_frame}
use modem_modules.Cmux.Transmit.Wire.{wire, Holds}
use modem_modules.Cmux.Transmit.Commands.{transmit_cmd_frame-wire}
use modem_modules.Base.Gives.{Always-at}
use modem_modules.Cmux.Life.Keeps.{transmit_cmd_frame-Keeps}

module _ {Rb : Type 0} where
  -- The frame that was received is the command with the type octet `t`, the length octet `l` and the
  -- value octets `vs`, and the multiplexer takes commands.
  pub record IsCommand (c : Cmux Rb) (t l : ℕ) (vs : List ℕ) : Type 0 where
    pub control : c.frame.dlci_address ≡ 0
    pub uih : c.frame.frame_type ≡ frame_type_uih
    pub taken : takes_commands c.state ≡ true
    pub in_buffer : c.frame.contents ≡ receive_buffer
    pub count : c.frame.data_len ≡ length vs + 2
    pub inside : c.frame.data_len ≤ length c.receive_buf
    pub held : take (length vs + 2) c.receive_buf ≡ t ∷ l ∷ vs
    pub short : length vs ≤ 2
    pub type_ends : t % 2 ≡ 1
    pub length_ends : l % 2 ≡ 1
    pub length_counts : l / 2 ≡ length vs

  -- The answer to a command: its frame, with the command's C/R bit cleared.
  abbrev pub answer : Cmux Rb → ℕ → ℕ → List ℕ → Frame
  answer c t l vs = record (c.frame) { contents = bytes (bit_and t 0xFD ∷ l ∷ vs) }

  -- The flow control behind a command.
  abbrev pub flow_after : Cmux Rb → ℕ → Bool
  flow_after c value =
      if value == command_fcon
      then true
      else (if value == command_fcoff then false else c.flow_control_on)

module _ {Rb : Type 0} ⦃ring : RingBuf Rb⦄ ⦃crc : Crc8⦄ (c : Cmux Rb) (t l : ℕ) (vs : List ℕ)
    (v : IsCommand c t l vs) where
  read_all : read c.receiver receive_buffer (length vs + 2) ≡ some (t ∷ l ∷ vs)
  unfolding read target
  read_all = ground (arith, v.inside, v.count, v.held)

  first_two : take 2 c.receive_buf ≡ t ∷ l ∷ []
  first_two = sym (take-take 2 (length vs + 2) c.receive_buf (omega arith)) ∙ ap (take 2) v.held

  read_two : read c.receiver receive_buffer 2 ≡ some (t ∷ l ∷ [])
  unfolding read target
  read_two = ground (arith, v.inside, v.count, first_two)

  wrapped :
      wrap_command c.receiver c.frame.contents c.frame.data_len
      ≡ some (some (record { type_octet = t; length_octet = l }))
  unfolding wrap_command command_of
  wrapped =
      let m : Command = record { type_octet = t; length_octet = l } in
      let ok : ((l % 2 == 0) || (t % 2 == 0) || not (l / 2 == c.frame.data_len - 2)) ≡ false =
        ground (arith, v.type_ends, v.length_ends, v.length_counts, v.count) in
      let long : ltb c.frame.data_len 2 ≡ false = ground (arith, v.count) in
      ap (λ p. wrap_command c.receiver p c.frame.data_len) v.in_buffer
      ∙ rw (long, read_two, ok) refl

  to_command : on_frame c ≡ on_command c (record { type_octet = t; length_octet = l })
  unfolding on_frame on_control_frame on_control_frame_uih
  to_command =
      let to_uih : on_frame c ≡ on_control_frame_uih c = ground (arith, v.control, v.uih) in
      to_uih ∙ rw (v.taken, wrapped) refl

  acknowledged :
      (b : Bool)
      → acknowledge_received_frame (record c { flow_control_on = b }) ≡ (
          transmit_cmd_frame (record c { flow_control_on = b }) (answer c t l vs) >>= λ s. some s.0)
  unfolding acknowledge_received_frame clear_cr
  acknowledged b =
      let small : ltb cmd_data_size_max c.frame.data_len ≡ false =
        ground (arith, v.count, v.short) in
      let long : ltb c.frame.data_len 2 ≡ false = ground (arith, v.count) in
      let whole : read c.receiver c.frame.contents c.frame.data_len ≡ some (t ∷ l ∷ vs) =
        ap (λ p. read c.receiver p c.frame.data_len) v.in_buffer
        ∙ (ap (read c.receiver receive_buffer) v.count ∙ read_all) in
      rw (small, whole, long) refl

  -- The answer goes out, and the flow control stays.
  answered :
      (b : Bool)
      → 12 ≤ ring.space c.transmit_rb
      → ring.space c.transmit_rb < 65536
      → (c' : Cmux Rb) × (acknowledge_received_frame (record c { flow_control_on = b }) ≡ some c')
        × (c'.flow_control_on ≡ b)
        × Holds c.transmit_rb c'.transmit_rb (wire (answer c t l vs) (bit_and t 0xFD ∷ l ∷ vs))
  unfolding target
  answered b roomy few =
      let c1 = record c { flow_control_on = b } in
      let xs = bit_and t 0xFD ∷ l ∷ vs in
      let all : take c.frame.data_len xs ≡ xs = take_all _ xs (omega (arith, v.count)) in
      elim (transmit_cmd_frame-wire c1 (answer c t l vs) few (omega (arith, v.count, v.short))
        (omega (arith, v.count))) [
          | inr (tight, _) ↦ absurd (omega arith)
          | inl (_, (c', e, h)) ↦ (
            c',
            acknowledged b ∙ ap (λ o. o >>= λ s. some s.0) e,
            (Always-at _ _ (c', true) e (transmit_cmd_frame-Keeps c1 (answer c t l vs))).same_flow,
            subst (λ ys. Holds c.transmit_rb c'.transmit_rb (wire (answer c t l vs) ys)) all h,
          )
        ]

  -- A modem status command, a flow control on or a flow control off command with at most two value
  -- octets, whose type and length have one octet each, comes whole and with the right length in a UIH
  -- frame on the control channel, while the multiplexer takes commands and its transmit buffer has
  -- room for a command frame. It is answered by the same command with its C/R bit cleared, which goes
  -- whole into the transmit buffer; the second command turns the flow control of data frames on, the
  -- third off, and the first leaves it. A modem status command with a break octet has three value
  -- octets and is not among them.
  pub on_frame_answers :
      (t / 4 ≡ command_msc) ⊎ (t / 4 ≡ command_fcon) ⊎ (t / 4 ≡ command_fcoff)
      → 12 ≤ ring.space c.transmit_rb
      → ring.space c.transmit_rb < 65536
      → (c' : Cmux Rb) × (on_frame c ≡ some c')
        × (c'.flow_control_on ≡ flow_after c (t / 4))
        × Holds c.transmit_rb c'.transmit_rb (wire (answer c t l vs) (bit_and t 0xFD ∷ l ∷ vs))
  unfolding on_command on_msc_command on_fcon_command on_fcoff_command
  on_frame_answers (inl k) roomy few =
      let (c', e, f, h) = answered c.flow_control_on roomy few in
      (c', to_command ∙ (rw k refl ∙ e), f ∙ rw k refl, h)
  on_frame_answers (inr (inl k)) roomy few =
      let (c', e, f, h) = answered true roomy few in
      (c', to_command ∙ (rw k refl ∙ e), f ∙ rw k refl, h)
  on_frame_answers (inr (inr k)) roomy few =
      let (c', e, f, h) = answered false roomy few in
      (c', to_command ∙ (rw k refl ∙ e), f ∙ rw k refl, h)
