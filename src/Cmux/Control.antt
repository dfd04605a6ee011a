-- ===== src/Cmux/Control.antt =====
-- Frames that were received: `modem_cmux_on_frame` and what it calls.
pub mod Delivery
pub mod Answers
use modem_modules.Base.{
  ℕ, suc, ◌-◌, ◌/◌, ◌%◌, Bool, true, false, Option, none, some, List, [], ◌∷◌, RingBuf, Crc8,
  bit_and, ltb, ◌==◌, if◌then◌else◌, ◌>>=◌, not, ◌||◌, get_elem?, set, min,
}
use modem_modules.Cmux.{
  Cmux, Dlci, Receiver, Pointer, State, DlciState, Event, bytes, cmd_data_size_max, frame_type_ua,
  frame_type_uih, read, call, cancel, raise, event_post, event_clear, notify_opened, notify_closed,
  notify_receive_ready, connect_work, disconnect_work, open_work, close_work, connected_bit,
  disconnected_bit, connected_event, disconnected_event,
}
use modem_modules.Cmux.Transmit.{transmit_cmd_frame}

abbrev pub command_nsc : ℕ
command_nsc = 0x04

abbrev pub command_fcoff : ℕ
command_fcoff = 0x18

abbrev pub command_fcon : ℕ
command_fcon = 0x28

abbrev pub command_cld : ℕ
command_cld = 0x30

abbrev pub command_msc : ℕ
command_msc = 0x38

-- A command's two octets: the type (ea, cr, six bits of value) and the length (ea, seven bits).
pub record Command : Type 0 where
  pub type_octet : ℕ
  pub length_octet : ℕ

abbrev pub type_value : Command → ℕ
type_value m = m.type_octet / 4

pub command_of : List ℕ → Option Command
command_of [] = none
command_of (t ∷ []) = none
command_of (t ∷ l ∷ xs) = some (record { type_octet = t; length_octet = l })

abbrev pub is_null : Pointer → Bool
is_null Pointer.null = true
is_null _ = false

-- `modem_cmux_wrap_command`. The inner option is -EINVAL.
pub wrap_command : Receiver → Pointer → ℕ → Option (Option Command)
unfolding command_of
wrap_command r p n =
    if is_null p || ltb n 2
    then some none
    else (read r p 2 >>= λ xs. command_of xs >>= λ m. some (
        if (m.length_octet % 2 == 0) || (m.type_octet % 2 == 0) || not (m.length_octet / 2 == n - 2)
        then none
        else some m))

-- `command->type.cr = 0` on the copied data.
pub clear_cr : List ℕ → List ℕ
clear_cr [] = []
clear_cr (x ∷ xs) = bit_and x 0xFD ∷ xs

abbrev pub is_connecting : State → Bool
is_connecting State.connecting = true
is_connecting _ = false

abbrev pub takes_commands : State → Bool
takes_commands State.connected = true
takes_commands State.disconnecting = true
takes_commands _ = false

abbrev pub is_open : DlciState → Bool
is_open DlciState.opened = true
is_open _ = false

module _ {Rb : Type 0} where
  -- `modem_cmux_raise_event`
  abbrev pub raise_event : Event → Cmux Rb → Cmux Rb
  raise_event e c = if c.has_callback then call (raise e) c else c

  -- `modem_cmux_find_dlci`: the position of the first channel with the address.
  unfoldable pub find_from : ℕ → ℕ → List (Dlci Rb) → Option ℕ
  find_from a i [] = none
  find_from a i (d ∷ ds) =
      let rest = find_from a (suc i) ds in if d.dlci_address == a then some i else rest

  unfoldable pub find_dlci : Cmux Rb → Option ℕ
  unfolding find_from
  find_dlci c = find_from c.frame.dlci_address 0 c.dlcis

  abbrev pub set_dlci : Cmux Rb → ℕ → Dlci Rb → Cmux Rb
  set_dlci c i d = record c { dlcis = set c.dlcis i d }

  -- `modem_cmux_on_cld_command`
  unfoldable pub on_cld_command : Cmux Rb → Cmux Rb
  on_cld_command c =
      let closed = record c { state = State.disconnected; flow_control_on = false } in
      let stopped = call (cancel disconnect_work) closed in
      call (event_post disconnected_bit)
        (call (event_clear connected_bit) (raise_event disconnected_event stopped))

  -- `modem_cmux_on_control_frame_ua`
  unfoldable pub on_control_frame_ua : Cmux Rb → Cmux Rb
  on_control_frame_ua c =
      if not (is_connecting c.state)
      then c
      else (let opened = record c { state = State.connected; flow_control_on = true } in
          let stopped = call (cancel connect_work) opened in
          call (event_post connected_bit)
            (call (event_clear disconnected_bit) (raise_event connected_event stopped)))

  -- `modem_cmux_on_dlci_frame_ua`; an unexpected one changes nothing
  unfoldable pub dlci_ua : Cmux Rb → ℕ → Dlci Rb → DlciState → Cmux Rb
  dlci_ua c i d DlciState.opening =
      call (cancel (open_work i))
        (call (notify_opened i) (set_dlci c i (record d { dlci_state = DlciState.opened })))
  dlci_ua c i d DlciState.closing =
      call (cancel (close_work i))
        (call (notify_closed i) (set_dlci c i (record d { dlci_state = DlciState.closed })))
  dlci_ua c i d _ = c

  unfoldable pub on_dlci_frame_ua : Cmux Rb → ℕ → Option (Cmux Rb)
  unfolding dlci_ua
  on_dlci_frame_ua c i = get_elem? c.dlcis i >>= λ d. some (dlci_ua c i d d.dlci_state)

module _ {Rb : Type 0} ⦃ring : RingBuf Rb⦄ where
  -- `modem_cmux_on_dlci_frame_uih`: ring_buf_put reads as many bytes as it has room for.
  unfoldable pub on_dlci_frame_uih : Cmux Rb → ℕ → Option (Cmux Rb)
  on_dlci_frame_uih c i = get_elem? c.dlcis i >>= λ d.
      if not (is_open d.dlci_state)
      then some c
      else (read c.receiver c.frame.contents (min (ring.space d.receive_rb) c.frame.data_len)
          >>= λ xs. some (
              call (notify_receive_ready i)
                (set_dlci c i (record d { receive_rb = ring.put d.receive_rb xs }))))

  -- `modem_cmux_on_dlci_frame`
  unfoldable pub on_dlci_frame : Cmux Rb → Option (Cmux Rb)
  on_dlci_frame c = elim (find_dlci c) [
    | none ↦ some c
    | some i ↦
        if c.frame.frame_type == frame_type_ua
        then on_dlci_frame_ua c i
        else (if c.frame.frame_type == frame_type_uih then on_dlci_frame_uih c i else some c)
  ]

module _ {Rb : Type 0} ⦃ring : RingBuf Rb⦄ ⦃crc : Crc8⦄ where
  -- `modem_cmux_acknowledge_received_frame`. With less than two bytes the command stays unset.
  unfoldable pub acknowledge_received_frame : Cmux Rb → Option (Cmux Rb)
  unfolding clear_cr
  acknowledge_received_frame c =
      if ltb cmd_data_size_max c.frame.data_len
      then some c
      else (read c.receiver c.frame.contents c.frame.data_len >>= λ xs.
          if ltb c.frame.data_len 2
          then none
          else (transmit_cmd_frame c (record (c.frame) { contents = bytes (clear_cr xs) }) >>= λ s.
              some s.0))

  -- `modem_cmux_on_msc_command`, `modem_cmux_on_fcon_command`, `modem_cmux_on_fcoff_command`
  unfoldable pub on_msc_command : Cmux Rb → Option (Cmux Rb)
  on_msc_command c = acknowledge_received_frame c

  unfoldable pub on_fcon_command : Cmux Rb → Option (Cmux Rb)
  on_fcon_command c = acknowledge_received_frame (record c { flow_control_on = true })

  unfoldable pub on_fcoff_command : Cmux Rb → Option (Cmux Rb)
  on_fcoff_command c = acknowledge_received_frame (record c { flow_control_on = false })

  -- the `switch` of `modem_cmux_on_control_frame_uih`
  unfoldable pub on_command : Cmux Rb → Command → Option (Cmux Rb)
  on_command c m =
      if type_value m == command_cld
      then some (on_cld_command c)
      else (if type_value m == command_msc
          then on_msc_command c
          else (if type_value m == command_fcon
              then on_fcon_command c
              else (if type_value m == command_fcoff then on_fcoff_command c else some c)))

  unfoldable pub on_control_frame_uih : Cmux Rb → Option (Cmux Rb)
  on_control_frame_uih c =
      if not (takes_commands c.state)
      then some c
      else (wrap_command c.receiver c.frame.contents c.frame.data_len >>= λ m. elim m [
        | none ↦ some c
        | some m ↦ on_command c m
      ])

  -- `modem_cmux_on_control_frame`; an unknown frame is only logged
  unfoldable pub on_control_frame : Cmux Rb → Option (Cmux Rb)
  on_control_frame c =
      if c.frame.frame_type == frame_type_ua
      then some (on_control_frame_ua c)
      else (if c.frame.frame_type == frame_type_uih then on_control_frame_uih c else some c)

  -- `modem_cmux_on_frame`
  unfoldable pub on_frame : Cmux Rb → Option (Cmux Rb)
  on_frame c = if c.frame.dlci_address == 0 then on_control_frame c else on_dlci_frame c
