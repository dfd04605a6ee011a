-- ===== src/Tests/OnPpp.antt =====
-- A PPP link that sends a packet and takes it in.
use modem_modules.Base.{
  ℕ, zero, suc, ◌<◌, ◌≡◌, ◌⊎◌, refl, true, false, none, some, List, [], ◌∷◌, arith, length,
  get_elem?,
}
use modem_modules.Base.Net.{Family}
use modem_modules.Ppp.{Ppp, Ring, ReceiveState, TransmitState, call, recv_data}
use modem_modules.Ppp.Packets.{put, get}
use modem_modules.Ppp.Packets.Queue.{IsQueue, slot_at, with_last, put-IsQueue, get-IsQueue}
use modem_modules.Ppp.Wrap.{protocol_of}
use modem_modules.Ppp.Wrap.Frame.{Gives, wrap-frame_of}
use modem_modules.Ppp.Wrap.Stuffing.{frame_of, framed}
use modem_modules.Ppp.Unwrap.{Supply, process_received_bytes}
use modem_modules.Ppp.Unwrap.Frame.{IsAmple, receive-framed}
use modem_modules.Ppp.RoundTrip.{unwrap-wrap}
use modem_modules.Tests.Instances.{
  Buffer, empty_buffer, buffer_ring, crc16_reflected, Packet, packets,
}

abbrev pub empty_packet : Packet
empty_packet = record {
  all_bytes = [];
  behind = [];
  free_bytes = 8;
  marked = false;
  net_family = Family.other;
}

-- The data hold both octets that have to be escaped.
abbrev pub datagram : Packet
datagram = record {
  all_bytes = 0x45 ∷ 0x7E ∷ 0x7D ∷ 1 ∷ [];
  behind = [];
  free_bytes = 0;
  marked = false;
  net_family = Family.inet;
}

abbrev supply : Supply Packet
supply = record {
  alloc = some empty_packet;
  grow = λ k. some (record k { free_bytes = suc k.free_bytes });
}

supply-IsAmple : IsAmple supply
supply-IsAmple = record {
  fresh = empty_packet;
  alloc_some = refl;
  empty = refl;
  room = omega arith;
  grow_some = λ k. (record k { free_bytes = suc k.free_bytes }, refl, refl, refl, omega arith);
}

abbrev pub no_packets : Ring Packet
no_packets = record { slots = none ∷ none ∷ none ∷ []; size = 3; tail = 2 }

abbrev pub link : Ppp Packet Buffer
link = record {
  is_attached = true;
  has_pipe = true;
  receive_state = ReceiveState.hdr_sof;
  rx_pkt = none;
  transmit_state = TransmitState.idle;
  tx_pkt = none;
  tx_pkt_escaped = 0;
  tx_pkt_protocol = 0;
  tx_pkt_fcs = 0;
  transmit_rb = empty_buffer 16;
  packets = no_packets;
  calls = [];
}

abbrev pub sending : Ppp Packet Buffer
sending = record link { transmit_state = TransmitState.sof; tx_pkt = some datagram }

unwrap-wrap_example :
    (wire : List ℕ) × (sent : Ppp Packet Buffer) × (q : Packet) × Gives sending wire sent
    × (sent.transmit_state ≡ TransmitState.idle)
    × (process_received_bytes supply link wire
        ≡ some (
            call
              (recv_data q)
              (record link { rx_pkt = none; receive_state = ReceiveState.hdr_sof })))
    × (q.all_bytes ≡ 0x00 ∷ 0x21 ∷ 0x45 ∷ 0x7E ∷ 0x7D ∷ 1 ∷ [])
    × (q.marked ≡ true)
unfolding protocol_of
unwrap-wrap_example =
    unwrap-wrap sending link datagram supply supply-IsAmple (omega arith) (omega arith) refl refl
      refl

wrap-frame_of_example :
    (q : Ppp Packet Buffer) × (k' : Packet) × Gives sending (frame_of datagram) q
    × (q.transmit_state ≡ TransmitState.idle)
    × (q.tx_pkt ≡ some k')
    × (k'.all_bytes ≡ datagram.all_bytes)
wrap-frame_of_example = wrap-frame_of sending datagram (omega arith) refl refl

-- The last two octets are not the checksum of what stands before them.
receive-framed_example :
    (q : Packet) × (process_received_bytes supply link (framed (0x00 ∷ 0x21 ∷ 0x7E ∷ 0 ∷ 0 ∷ []))
      ≡ some (
          call (recv_data q) (record link { rx_pkt = none; receive_state = ReceiveState.hdr_sof })))
    × (q.all_bytes ≡ 0x00 ∷ 0x21 ∷ 0x7E ∷ [])
    × (q.marked ≡ true)
receive-framed_example =
    receive-framed supply supply-IsAmple link (0x00 ∷ 0x21 ∷ 0x7E ∷ []) 0 0 refl (omega arith)
      (omega arith) (omega arith)

-- A queue of two numbers that goes round the end of its ring.
abbrev wrapped : Ring ℕ
wrapped = record { slots = some 8 ∷ none ∷ some 7 ∷ []; size = 3; tail = 2 }

abbrev numbers : List ℕ
numbers = 7 ∷ 8 ∷ []

wrapped-IsQueue : IsQueue wrapped numbers
wrapped-IsQueue = record { sized = refl; tail_in = omega arith; fits = omega arith; slot = slots }
  where
    slots :
        (i : ℕ) → i < 3 → get_elem? wrapped.slots (slot_at 3 2 i) ≡ some (get_elem? (7 ∷ 8 ∷ []) i)
    slots zero h = refl
    slots (suc zero) h = refl
    slots (suc (suc zero)) h = refl
    slots (suc (suc (suc i))) h = absurd (omega arith)

put-IsQueue_example :
    ((length numbers ≡ 3) × (put wrapped 9 ≡ some (wrapped, false)))
    ⊎ ((length numbers < 3)
        × (put wrapped 9 ≡ some (with_last wrapped numbers 9, true))
        × IsQueue (with_last wrapped numbers 9) (7 ∷ 8 ∷ 9 ∷ []))
put-IsQueue_example = put-IsQueue wrapped numbers 9 wrapped-IsQueue

get-IsQueue_example :
    ((numbers ≡ []) × (get wrapped ≡ some (wrapped, none)))
    ⊎ ((a : ℕ) × (q' : List ℕ) × (r' : Ring ℕ) × (numbers ≡ a ∷ q')
        × (get wrapped ≡ some (r', some a))
        × IsQueue r' q'
        × (r'.size ≡ 3))
get-IsQueue_example = get-IsQueue wrapped numbers wrapped-IsQueue
