-- ===== src/Ppp/Unwrap.antt =====
-- The receive state machine: `modem_ppp_process_received_byte`. `Supply` is what the network answers
-- when a packet or more room is asked for. `none` is a packet pointer that is NULL.
pub mod Frame
use modem_modules.Base.{
  ℕ, ◌+◌, Bool, true, false, Option, none, some, List, [], ◌∷◌, bit_xor, ◌==◌, if◌then◌else◌, ◌>>=◌,
}
use modem_modules.Base.Net.{NetPkt}
use modem_modules.Ppp.{Ppp, ReceiveState, Call, call, unref, recv_data}

-- net_pkt_rx_alloc_with_buffer and net_pkt_alloc_buffer.
pub record Supply (Pkt : Type 0) : Type 0 where
  pub alloc : Option Pkt
  pub grow : Pkt → Option Pkt

module _ {Pkt Rb : Type 0} where
  abbrev pub await : Ppp Pkt Rb → ReceiveState → Ppp Pkt Rb
  await p s = record p { receive_state = s }

  -- The packet is given up.
  abbrev pub drop : Ppp Pkt Rb → Pkt → Ppp Pkt Rb
  drop p k = call (unref k) (record p { rx_pkt = none; receive_state = ReceiveState.hdr_sof })

  -- A header state that expects one byte.
  pub expect : Ppp Pkt Rb → ℕ → ℕ → ReceiveState → Ppp Pkt Rb
  expect p b wanted next = if b == wanted then await p next else await p ReceiveState.hdr_sof

module _ {Pkt Rb : Type 0} ⦃net : NetPkt Pkt⦄ where
  pub receive_hdr_23 : Supply Pkt → Ppp Pkt Rb → ℕ → Ppp Pkt Rb
  receive_hdr_23 supply p b =
      if b == 0x23
      then elim supply.alloc [
        | none ↦ record p { rx_pkt = none; receive_state = ReceiveState.hdr_sof }
        | some k ↦ record p {
          rx_pkt = some (net.cursor_init k);
          receive_state = ReceiveState.writing;
        }
      ]
      else await p ReceiveState.hdr_sof

  -- The frame's end: the packet without its checksum goes to the network.
  pub receive_end : Ppp Pkt Rb → Pkt → Ppp Pkt Rb
  receive_end p k =
      call (recv_data (net.set_ppp (net.cursor_init (net.remove_tail k 2))))
        (record p { rx_pkt = none; receive_state = ReceiveState.hdr_sof })

  pub write_byte : Ppp Pkt Rb → Pkt → ℕ → Ppp Pkt Rb
  write_byte p k b = elim (net.write_u8 k b) [
    | none ↦ drop p k
    | some k' ↦ record p { rx_pkt = some k'; receive_state = ReceiveState.writing }
  ]

  -- A byte of the frame, with room for one more behind it.
  pub write_or_escape : Ppp Pkt Rb → Pkt → ℕ → Ppp Pkt Rb
  write_or_escape p k b =
      if b == 0x7D
      then record p { rx_pkt = some k; receive_state = ReceiveState.unescaping }
      else write_byte p k b

  pub receive_writing : Supply Pkt → Ppp Pkt Rb → Pkt → ℕ → Ppp Pkt Rb
  receive_writing supply p k b =
      if b == 0x7E
      then receive_end p k
      else (if net.room k == 1
          then elim (supply.grow k) [ none ↦ drop p k | some k' ↦ write_or_escape p k' b ]
          else write_or_escape p k b)

  -- the `switch`
  pub receive_in : Supply Pkt → ReceiveState → Ppp Pkt Rb → ℕ → Option (Ppp Pkt Rb)
  receive_in supply ReceiveState.hdr_sof p b =
      some (if b == 0x7E then await p ReceiveState.hdr_ff else p)
  receive_in supply ReceiveState.hdr_ff p b =
      some (if b == 0x7E then p else expect p b 0xFF ReceiveState.hdr_7d)
  receive_in supply ReceiveState.hdr_7d p b = some (expect p b 0x7D ReceiveState.hdr_23)
  receive_in supply ReceiveState.hdr_23 p b = some (receive_hdr_23 supply p b)
  receive_in supply ReceiveState.writing p b = p.rx_pkt >>= λ k. some (receive_writing supply p k b)
  receive_in supply ReceiveState.unescaping p b =
      p.rx_pkt >>= λ k. some (write_byte p k (bit_xor b 0x20))

  -- `modem_ppp_process_received_byte`
  pub process_received_byte : Supply Pkt → Ppp Pkt Rb → ℕ → Option (Ppp Pkt Rb)
  unfolding receive_in
  process_received_byte supply p b = receive_in supply p.receive_state p b

  -- the loop of `modem_ppp_process_handler` over the bytes received
  pub process_received_bytes : Supply Pkt → Ppp Pkt Rb → List ℕ → Option (Ppp Pkt Rb)
  process_received_bytes supply p [] = some p
  process_received_bytes supply p (b ∷ bs) =
      process_received_byte supply p b >>= λ p'. process_received_bytes supply p' bs
