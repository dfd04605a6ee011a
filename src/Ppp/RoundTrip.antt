-- ===== src/Ppp/RoundTrip.antt =====
-- A packet sent by one end of the link and received by the other.
use modem_modules.Base.{
  ℕ, ◌/◌, ◌%◌, ◌<◌, ◌≡◌, true, inl, inr, none, some, List, arith, All, length, Crc16, Bool-cases,
}
use modem_modules.Base.Net.{NetPkt}
use modem_modules.Ppp.{Ppp, ReceiveState, TransmitState, call, recv_data}
use modem_modules.Ppp.Wrap.Stuffing.{payload_of, frame_of, frame_fcs}
use modem_modules.Ppp.Wrap.Frame.{Gives, wrap-frame_of}
use modem_modules.Ppp.Unwrap.{Supply, process_received_bytes}
use modem_modules.Ppp.Unwrap.Frame.{IsAmple, receive-framed}

payload_of-octets :
    {Pkt : Type 0} ⦃net : NetPkt Pkt⦄ (k : Pkt)
    → All (λ b. b < 256) (net.whole k)
    → All (λ b. b < 256) (payload_of k)
payload_of-octets ⦃net⦄ k small = elim (Bool-cases (net.is_ppp k)) [
  | inl t ↦ rw t small
  | inr t ↦ rw t (omega arith, (omega arith, small))
]

module _ {Pkt Rb : Type 0} ⦃net : NetPkt Pkt⦄ ⦃crc : Crc16⦄ where
  -- All the octets that the transmitter gives for a packet, taken in by a receiver that waits for a
  -- frame, hand its network one packet, marked as PPP, that holds the packet's data, behind its
  -- protocol number if the packet had none of its own; the receiver waits for the next frame and the
  -- transmitter is idle. The packet has data, all octets are below 256, and the receiver's network
  -- gives packets and room.
  pub unwrap-wrap :
      (sender receiver : Ppp Pkt Rb) (k : Pkt) (supply : Supply Pkt)
      → IsAmple supply
      → 0 < length (net.whole k)
      → All (λ b. b < 256) (net.whole k)
      → sender.transmit_state ≡ TransmitState.sof
      → sender.tx_pkt ≡ some k
      → receiver.receive_state ≡ ReceiveState.hdr_sof
      → (wire : List ℕ) × (sent : Ppp Pkt Rb) × (q : Pkt) × Gives sender wire sent
        × (sent.transmit_state ≡ TransmitState.idle)
        × (process_received_bytes supply receiver wire
            ≡ some (
                call
                  (recv_data q)
                  (record receiver { rx_pkt = none; receive_state = ReceiveState.hdr_sof })))
        × (net.whole q ≡ payload_of k)
        × (net.is_ppp q ≡ true)
  unwrap-wrap sender receiver k supply ample some_data small s has waits =
      let fcs = frame_fcs (payload_of k) in
      let (sent, _, g, done, _, _) = wrap-frame_of sender k some_data s has in
      let (q, e, whole, marked) =
        receive-framed supply ample receiver (payload_of k) (fcs % 256) (fcs / 256 % 256) waits
          (payload_of-octets k small) (omega arith) (omega arith) in
      (frame_of k, sent, q, g, done, e, whole, marked)
