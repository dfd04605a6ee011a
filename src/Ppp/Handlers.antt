-- ===== src/Ppp/Handlers.antt =====
-- The work handlers `modem_ppp_send_handler` and `modem_ppp_process_handler`, the network's
-- `modem_ppp_ppp_api_send`, and `modem_ppp_attach` and `modem_ppp_release`.
pub mod Fill
pub mod Release
pub mod Send
use modem_modules.Base.{
  ℕ, zero, suc, Bool, true, false, Option, none, some, List, [], ◌∷◌, RingBuf, Crc16, Ret, ret,
  fail, eperm, enomem, enodata, eprotonosupport, ltb, ◌==◌, if◌then◌else◌, ◌>>=◌, not, ◌&&◌, ◌||◌,
  length,
}
use modem_modules.Base.Net.{NetPkt, Family}
use modem_modules.Ppp.{
  Ppp, Ring, ReceiveState, TransmitState, call, ref, unref, submit_send, submit_process,
  cancel_send, cancel_process, pipe_transmit, pipe_attach, pipe_release,
}
use modem_modules.Ppp.Packets.{put, get}
use modem_modules.Ppp.Wrap.{wrap_net_pkt_byte}
use modem_modules.Ppp.Unwrap.{Supply, process_received_bytes}

abbrev pub is_idle : TransmitState → Bool
is_idle TransmitState.idle = true
is_idle _ = false

abbrev pub is_some : {A : Type 0} → Option A → Bool
is_some none = false
is_some (some _) = true

module _ {Pkt Rb : Type 0} where
  -- net_pkt_unref, of a packet that may be NULL
  abbrev pub unref_some : Option Pkt → Ppp Pkt Rb → Ppp Pkt Rb
  unref_some none p = p
  unref_some (some k) p = call (unref k) p

  -- `modem_ppp_tx_net_pkt_buf_get(ppp, &ppp->tx_pkt)`
  pub next_packet : Ppp Pkt Rb → Option (Ppp Pkt Rb)
  next_packet p = get p.packets >>= λ s. some (record p { packets = s.0; tx_pkt = s.1 })

  -- `modem_ppp_pipe_callback`, at the event that data can be received; the others do nothing
  pub pipe_callback : Ppp Pkt Rb → Ppp Pkt Rb
  pipe_callback p = call submit_process p

  -- `modem_ppp_attach`
  pub attach : Ppp Pkt Rb → Ppp Pkt Rb × Ret
  attach p =
      if p.is_attached
      then (p, ret 0)
      else (call pipe_attach (record p { is_attached = true; has_pipe = true }), ret 0)

  -- The loop of `modem_ppp_release` over the packets that wait: `n` bounds its rounds.
  pub drain : ℕ → Ppp Pkt Rb → Option (Ppp Pkt Rb)
  drain zero p = some p
  drain (suc n) p =
      let more = λ (k : Pkt) (r : Ring Pkt). drain n (call (unref k) (record p { packets = r })) in
      get p.packets >>= λ s. elim s.1 [ none ↦ some p | some k ↦ more k s.0 ]

  -- `modem_ppp_release`
  pub release : Ppp Pkt Rb → Option (Ppp Pkt Rb)
  unfolding drain
  release p =
      if not p.is_attached
      then some p
      else (let stopped = call cancel_process (call cancel_send (call pipe_release p)) in
          let unreferenced = unref_some p.tx_pkt (unref_some p.rx_pkt stopped) in
          drain p.packets.size (record unreferenced {
            is_attached = false;
            has_pipe = false;
            receive_state = ReceiveState.hdr_sof;
            rx_pkt = none;
            transmit_state = TransmitState.idle;
            tx_pkt = none;
          }))

module _ {Pkt : Type 0} ⦃net : NetPkt Pkt⦄ where
  abbrev pub is_inet : Pkt → Bool
  is_inet k = elim (net.family k) [ Family.other ↦ false | _ ↦ true ]

module _ {Pkt Rb : Type 0} ⦃net : NetPkt Pkt⦄ where
  -- `modem_ppp_ppp_api_send`
  pub api_send : Ppp Pkt Rb → Pkt → Option (Ppp Pkt Rb × Ret)
  api_send p k =
      if not p.is_attached
      then some (p, fail eperm)
      else (if not (net.is_ppp k) && not (is_inet k)
          then some (p, fail eprotonosupport)
          else (if (ltb (length (net.whole k)) 2 && net.is_ppp k) || ltb (length (net.whole k)) 1
              then some (p, fail enodata)
              else (put p.packets k >>= λ s.
                  let kept = call (ref k) (record p { packets = s.0 }) in
                  some (
                    if s.1
                    then (call submit_send kept, ret 0)
                    else (call (unref k) kept, fail enomem)))))

  -- `modem_ppp_process_handler`, on what `modem_pipe_receive` gave: none is a result below 1
  pub process_handler : Supply Pkt → Ppp Pkt Rb → List ℕ → Option (Ppp Pkt Rb)
  process_handler supply p [] = some p
  process_handler supply p (b ∷ bs) =
      process_received_bytes supply p (b ∷ bs) >>= λ p'. some (call submit_process p')

module _ {Pkt Rb : Type 0} ⦃net : NetPkt Pkt⦄ ⦃ring : RingBuf Rb⦄ ⦃crc : Crc16⦄ where
  -- The frame is out: the packet is let go and the next one taken.
  pub finish_packet : Ppp Pkt Rb → Option (Ppp Pkt Rb)
  unfolding next_packet
  finish_packet p = next_packet (unref_some p.tx_pkt p)

  -- The loop that fills the transmit buffer. `n` bounds its rounds: each takes one octet of room.
  pub fill : ℕ → Ppp Pkt Rb → Option (Ppp Pkt Rb)
  fill zero p = some p
  fill (suc n) p =
      let go_on = λ (q : Ppp Pkt Rb). fill n q in
      if ring.space p.transmit_rb == 0
      then some p
      else (wrap_net_pkt_byte p >>= λ s.
          let q = record (s.1) { transmit_rb = ring.put s.1.transmit_rb (s.0 ∷ []) } in
          if is_idle q.transmit_state then finish_packet q else go_on q)

  -- A packet is there: its frame is begun, if none is under way, and the buffer filled.
  pub wrap_packet : Ppp Pkt Rb → Option (Ppp Pkt Rb)
  unfolding fill
  wrap_packet p =
      let begun =
        if is_idle p.transmit_state then record p { transmit_state = TransmitState.sof } else p in
      if is_some p.tx_pkt then fill (ring.space p.transmit_rb) begun else some p

  -- What the buffer holds goes to the pipe, which takes `taken` octets of it, 0 for an error.
  pub flush : Ppp Pkt Rb → ℕ → Ppp Pkt Rb
  flush p taken =
      let reserved = ring.claim p.transmit_rb in
      if length reserved == 0
      then record p { transmit_rb = ring.consume p.transmit_rb 0 }
      else (let rb = ring.consume p.transmit_rb taken in
          let sent = call (pipe_transmit reserved) (record p { transmit_rb = rb }) in
          if not (length (ring.contents rb) == 0) || is_some p.tx_pkt
          then call submit_send sent
          else sent)

  -- `modem_ppp_send_handler`
  pub send_handler : Ppp Pkt Rb → ℕ → Option (Ppp Pkt Rb)
  unfolding next_packet
  send_handler p taken = (if is_some p.tx_pkt then some p else next_packet p) >>= λ p1.
      wrap_packet p1 >>= λ p2. some (flush p2 taken)
