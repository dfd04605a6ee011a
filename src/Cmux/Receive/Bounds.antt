-- ===== src/Cmux/Receive/Bounds.antt =====
-- The receive state machine stays inside its buffers.
use modem_modules.Base.{
  ℕ, ◌+◌, ◌*◌, ◌/◌, ◌<◌, ◌≡◌, refl, Bool, true, false, Option, Bool-cases, inl, inr, some, [], ◌∷◌,
  arith, bit_and, bit_or, ◌==◌, not, if◌then◌else◌, length, set, length-set, RingBuf, Crc8,
}
use mathlib.Core.Path.{subst}
use modem_modules.Cmux.{Cmux, Receiver, ReceiveState, call, pipe_transmit}
use modem_modules.Cmux.Receive.{
  receive_address, receive_control, receive_length, receive_length_cont, receive_data, receive_sof,
  receive_resync, dispatch, process_received_byte, go_to, with_receiver,
}

-- How far the two buffers are filled in each state that writes to them.
abbrev pub Filled : ReceiveState → ℕ → ℕ → ℕ → Type 0
Filled ReceiveState.control header n size = (header ≡ 1) × (n ≡ 0)
Filled ReceiveState.len header n size = (header ≡ 2) × (n ≡ 0)
Filled ReceiveState.len_cont header n size = (header ≡ 3) × (n ≡ 0)
Filled ReceiveState.payload header n size = n < size
Filled _ header n size = Unit {0}

pub record IsBounded (r : Receiver) : Type 0 where
  pub five : length r.frame_header ≡ 5
  pub room : length r.receive_buf ≡ r.receive_buf_size
  pub some_room : 0 < r.receive_buf_size
  pub filled : Filled r.receive_state r.frame_header_len r.receive_buf_len r.receive_buf_size

-- The states whose octet is checked against what was received, or hands the frame on.
abbrev pub is_last : ReceiveState → Bool
is_last ReceiveState.fcs = true
is_last ReceiveState.eof = true
is_last _ = false

abbrev Stays : Option Receiver → Type 0
Stays o = (r' : Receiver) × (o ≡ some r') × IsBounded r'

module _ (r : Receiver) (b : ℕ) (v : IsBounded r) where
  address-Stays : Stays (receive_address r b)
  unfolding receive_address
  address-Stays =
      let fresh = record r { receive_buf_len = 0; frame_header_len = 0 } in
      (
        record fresh {
          frame_header = set r.frame_header 0 b;
          frame_header_len = 1;
          frame = record (r.frame) {
            cr = not (bit_and b 0x02 == 0);
            dlci_address = bit_and (b / 4) 0x3F;
          };
          receive_state = ReceiveState.control;
        },
        ground (arith, v.five),
        record {
          five = omega (arith, v.five, length-set r.frame_header 0 b);
          room = v.room;
          some_room = v.some_room;
          filled = (refl, refl);
        },
      )

  -- A header octet that is stored at `k < 5`.
  abbrev headed : ReceiveState → Receiver
  headed s = record r {
    frame_header = set r.frame_header r.frame_header_len b;
    frame_header_len = r.frame_header_len + 1;
    receive_state = s;
  }

  headed-IsBounded :
      (s : ReceiveState)
      → Filled s (r.frame_header_len + 1) r.receive_buf_len r.receive_buf_size
      → IsBounded (headed s)
  headed-IsBounded s f = record {
    five = omega (arith, v.five, length-set r.frame_header r.frame_header_len b);
    room = v.room;
    some_room = v.some_room;
    filled = f;
  }

  control-Stays : r.frame_header_len ≡ 1 → r.receive_buf_len ≡ 0 → Stays (receive_control r b)
  unfolding receive_control
  control-Stays one none_yet =
      let h = headed-IsBounded ReceiveState.len (omega arith, none_yet) in
      (
        record (headed ReceiveState.len) {
          frame = record (r.frame) { pf = not (bit_and b 0x10 == 0); frame_type = bit_and b 0xEF };
        },
        ground (arith, v.five),
        record { five = h.five; room = h.room; some_room = h.some_room; filled = h.filled },
      )

  after_length : ReceiveState
  after_length =
      if bit_and b 0x01 == 0
      then ReceiveState.len_cont
      else (if b / 2 == 0 then ReceiveState.fcs else ReceiveState.payload)

  Filled-after_length :
      r.frame_header_len ≡ 2
      → r.receive_buf_len ≡ 0
      → Filled after_length (r.frame_header_len + 1) r.receive_buf_len r.receive_buf_size
  unfolding after_length
  Filled-after_length two none_yet = elim (Bool-cases (bit_and b 0x01 == 0)) [
    | inl t ↦ rw t (omega arith, none_yet)
    | inr t ↦ rw t (elim (Bool-cases (b / 2 == 0)) [
      | inl u ↦ rw u tt
      | inr u ↦ rw u (omega (arith, v.some_room))
    ])
  ]

  length-Stays : r.frame_header_len ≡ 2 → r.receive_buf_len ≡ 0 → Stays (receive_length r b)
  unfolding receive_length after_length
  length-Stays two none_yet =
      let h = headed-IsBounded after_length (Filled-after_length two none_yet) in
      (
        record (headed after_length) { frame = record (r.frame) { data_len = b / 2 } },
        ground (arith, v.five),
        record { five = h.five; room = h.room; some_room = h.some_room; filled = h.filled },
      )

  length_cont-Stays :
      r.frame_header_len ≡ 3 → r.receive_buf_len ≡ 0 → Stays (receive_length_cont r b)
  unfolding receive_length_cont
  length_cont-Stays three none_yet =
      let h = headed-IsBounded ReceiveState.payload (omega (arith, v.some_room)) in
      (
        record (headed ReceiveState.payload) {
          frame = record (r.frame) { data_len = bit_or r.frame.data_len (b * 128) };
        },
        ground (arith, v.five),
        record { five = h.five; room = h.room; some_room = h.some_room; filled = h.filled },
      )

  after_data : ReceiveState
  after_data =
      if r.frame.data_len == r.receive_buf_len + 1
      then ReceiveState.fcs
      else (if r.receive_buf_len + 1 == r.receive_buf_size
          then ReceiveState.eof
          else ReceiveState.payload)

  Filled-after_data :
      r.receive_buf_len < r.receive_buf_size
      → Filled after_data r.frame_header_len (r.receive_buf_len + 1) r.receive_buf_size
  unfolding after_data
  Filled-after_data inside = elim (Bool-cases (r.frame.data_len == r.receive_buf_len + 1)) [
    | inl t ↦ rw t tt
    | inr t ↦ rw t (elim (Bool-cases (r.receive_buf_len + 1 == r.receive_buf_size)) [
      | inl u ↦ rw u tt
      | inr u ↦ rw u (ground arith)
    ])
  ]

  data-Stays : r.receive_buf_len < r.receive_buf_size → Stays (receive_data r b)
  unfolding receive_data after_data
  data-Stays inside = (
    record r {
      receive_buf = set r.receive_buf r.receive_buf_len b;
      receive_buf_len = r.receive_buf_len + 1;
      receive_state = after_data;
    },
    ground (arith, v.room),
    record {
      five = v.five;
      room = omega (arith, v.room, length-set r.receive_buf r.receive_buf_len b);
      some_room = v.some_room;
      filled = Filled-after_data inside;
    },
  )

-- A receiver that goes to a state in which it writes nothing.
idle-IsBounded :
    (r : Receiver) (s : ReceiveState)
    → ((h n m : ℕ) → Filled s h n m)
    → IsBounded r
    → IsBounded (record r { receive_state = s })
idle-IsBounded r s f v = record {
  five = v.five;
  room = v.room;
  some_room = v.some_room;
  filled = f _ _ _;
}

module _ {Rb : Type 0} ⦃ring : RingBuf Rb⦄ ⦃crc : Crc8⦄ (c : Cmux Rb) (b : ℕ)
    (v : IsBounded c.receiver) where
  Safe : Option (Cmux Rb) → Type 0
  Safe o = (c' : Cmux Rb) × (o ≡ some c') × IsBounded c'.receiver

  stay : (o : Option Receiver) → Stays o → Safe (with_receiver c o)
  unfolding Safe
  stay o (r', e, w) = (record c { receiver = r' }, rw e, w)

  idle :
      (s : ReceiveState)
      → ((h n m : ℕ) → Filled s h n m)
      → IsBounded (record (c.receiver) { receive_state = s })
  idle s f = idle-IsBounded c.receiver s f v

  either :
      (t : Bool) (x y : Cmux Rb)
      → IsBounded x.receiver
      → IsBounded y.receiver
      → IsBounded (if t then x else y).receiver
  either true x y p q = p
  either false x y p q = q

  resync :
      (s : ReceiveState)
      → ((h n m : ℕ) → Filled s h n m)
      → Safe (some (receive_resync c s ReceiveState.resync_0 b))
  unfolding Safe receive_resync
  resync s f = (
    receive_resync c s ReceiveState.resync_0 b,
    refl,
    either (b == 0xF9) (go_to c s) (go_to c ReceiveState.resync_0) (idle s f)
        (idle ReceiveState.resync_0 (λ h n m. tt)),
  )

  Filled-at :
      (s : ReceiveState)
      → c.receive_state ≡ s
      → Filled s c.frame_header_len c.receive_buf_len c.receive_buf_size
  Filled-at s e =
      subst (λ s. Filled s c.frame_header_len c.receive_buf_len c.receive_buf_size) e v.filled

  dispatch_stays :
      (s : ReceiveState) → c.receive_state ≡ s → is_last s ≡ false → Safe (dispatch s c b)
  unfolding Safe dispatch receive_sof receive_resync
  dispatch_stays ReceiveState.sof e l = (
    receive_sof c b,
    refl,
    either (b == 0xF9) (go_to c ReceiveState.address)
        (go_to (call (pipe_transmit (0xF9 ∷ 0xF9 ∷ 0xF9 ∷ [])) c) ReceiveState.resync_0)
        (idle ReceiveState.address (λ h n m. tt)) (idle ReceiveState.resync_0 (λ h n m. tt)),
  )
  dispatch_stays ReceiveState.resync_0 e l = resync ReceiveState.resync_1 (λ h n m. tt)
  dispatch_stays ReceiveState.resync_1 e l = resync ReceiveState.resync_2 (λ h n m. tt)
  dispatch_stays ReceiveState.resync_2 e l = resync ReceiveState.resync_3 (λ h n m. tt)
  dispatch_stays ReceiveState.resync_3 e l = elim (Bool-cases (b == 0xF9)) [
    | inl t ↦ rw t (c, refl, v)
    | inr t ↦ rw t (stay (receive_address c.receiver b) (address-Stays c.receiver b v))
  ]
  dispatch_stays ReceiveState.address e l = stay _ (address-Stays c.receiver b v)
  dispatch_stays ReceiveState.address_cont e l = (c, refl, v)
  dispatch_stays ReceiveState.control e l =
      let f = Filled-at ReceiveState.control e in stay _ (control-Stays c.receiver b v f.0 f.1)
  dispatch_stays ReceiveState.len e l =
      let f = Filled-at ReceiveState.len e in stay _ (length-Stays c.receiver b v f.0 f.1)
  dispatch_stays ReceiveState.len_cont e l =
      let f = Filled-at ReceiveState.len_cont e in stay _ (length_cont-Stays c.receiver b v f.0 f.1)
  dispatch_stays ReceiveState.payload e l =
      stay _ (data-Stays c.receiver b v (Filled-at ReceiveState.payload e))
  dispatch_stays ReceiveState.fcs e l = cc
  dispatch_stays ReceiveState.drop_frame e l =
      (go_to c ReceiveState.sof, refl, idle ReceiveState.sof (λ h n m. tt))
  dispatch_stays ReceiveState.eof e l = cc

  -- In every state but the two that check the checksum and that hand the frame on, an octet is
  -- taken in without an access outside the header buffer or the receive buffer, and both are filled
  -- within their bounds afterwards as they were before.
  pub process_received_byte-IsBounded :
      is_last c.receive_state ≡ false
      → (c' : Cmux Rb) × (process_received_byte c b ≡ some c') × IsBounded c'.receiver
  unfolding process_received_byte Safe
  process_received_byte-IsBounded l = dispatch_stays c.receive_state refl l
