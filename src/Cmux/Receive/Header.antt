-- ===== src/Cmux/Receive/Header.antt =====
-- The octets that the receive state machine stores for the checksum, and one octet at a time of it.
use modem_modules.Base.{
  ℕ, suc, ◌+◌, ◌/◌, ◌<◌, ◌≡◌, refl, ap, ◌∙◌, Option, some, List, [], ◌∷◌, ◌++◌, arith, bit_and,
  ◌==◌, not, length, set, take, length-set, length-append, take-set,
}
use modem_modules.Cmux.{Receiver, ReceiveState, Frame}
use modem_modules.Cmux.Receive.{store_header, receive_address}

-- `h` is what the header buffer of five octets holds.
abbrev pub Header : List ℕ → ℕ → List ℕ → Type 0
Header buf n h = (length buf ≡ 5) × (n ≡ length h) × (take n buf ≡ h)

-- Writing at the end of a counted prefix.
pub take-set_count :
    (xs : List ℕ) (n : ℕ) (v : ℕ) (h : List ℕ)
    → n < length xs
    → take n xs ≡ h
    → take (n + 1) (set xs n v) ≡ h ++ (v ∷ [])
take-set_count xs n v h room e =
    let next : n + 1 ≡ suc n = omega arith in
    rw next (take-set xs n v room ∙ ap (λ t. t ++ (v ∷ [])) e)

abbrev pub stored : Receiver → ℕ → Receiver
stored r b = record r {
  frame_header = set r.frame_header r.frame_header_len b;
  frame_header_len = r.frame_header_len + 1;
}

pub store_header-Header :
    (r : Receiver) (b : ℕ) (h : List ℕ)
    → Header r.frame_header r.frame_header_len h
    → length h < 5
    → (store_header r b ≡ some (stored r b))
      × Header (set r.frame_header r.frame_header_len b) (r.frame_header_len + 1) (h ++ (b ∷ []))
unfolding store_header
store_header-Header r b h (room, count, held) short = (
  ground arith,
  (
    omega (arith, length-set r.frame_header r.frame_header_len b),
    omega (arith, length-append h (b ∷ [])),
    take-set_count r.frame_header r.frame_header_len b h (omega arith) held,
  ),
)

-- How far a frame has come: the state, the header octets `h`, the data `d`, and the fields read.
pub record Progress (r : Receiver) (s : ReceiveState) (h d : List ℕ) (f : Frame) : Type 0 where
  pub state : r.receive_state ≡ s
  pub header : Header r.frame_header r.frame_header_len h
  pub count : r.receive_buf_len ≡ length d
  pub gathered : take r.receive_buf_len r.receive_buf ≡ d
  pub room : length r.receive_buf ≡ r.receive_buf_size
  pub fields : r.frame ≡ f

pub Progress-cast :
    (r : Receiver) {s t : ReceiveState} (h d : List ℕ) {f g : Frame}
    → s ≡ t
    → f ≡ g
    → Progress r s h d f
    → Progress r t h d g
Progress-cast r h d e e' p = record {
  state = p.state ∙ e;
  header = p.header;
  count = p.count;
  gathered = p.gathered;
  room = p.room;
  fields = p.fields ∙ e';
}

-- One octet of the state machine that stays inside the receiver.
abbrev pub Next : Receiver → (Receiver → Option Receiver) → (Receiver → Type 0) → Type 0
Next r step P =
    (r' : Receiver) × (step r ≡ some r') × (r'.receive_buf_size ≡ r.receive_buf_size) × P r'

pub address_step :
    (r : Receiver) (b : ℕ)
    → length r.frame_header ≡ 5
    → length r.receive_buf ≡ r.receive_buf_size
    → Next r
        (λ r. receive_address r b)
        (λ r'. Progress r' ReceiveState.control (b ∷ []) [] (record (r.frame) {
          cr = not (bit_and b 0x02 == 0);
          dlci_address = bit_and (b / 4) 0x3F;
        }))
unfolding receive_address
address_step r b five room =
    let fresh = record r { receive_buf_len = 0; frame_header_len = 0 } in
    let (e, h) = store_header-Header fresh b [] (five, refl, refl) (omega arith) in
    (
      record (stored fresh b) {
        frame = record (r.frame) {
          cr = not (bit_and b 0x02 == 0);
          dlci_address = bit_and (b / 4) 0x3F;
        };
        receive_state = ReceiveState.control;
      },
      rw e,
      refl,
      record {
        state = refl;
        header = h;
        count = refl;
        gathered = refl;
        room = room;
        fields = refl;
      },
    )
