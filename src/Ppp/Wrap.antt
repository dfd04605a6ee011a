-- ===== src/Ppp/Wrap.antt =====
-- The transmit state machine: `modem_ppp_wrap_net_pkt_byte`, one function for each kind of state.
-- `none` is a packet pointer that is NULL, or a byte that was not read.
pub mod Stuffing
pub mod Frame
pub mod Buffer
use modem_modules.Base.{
  ℕ, ◌+◌, ◌/◌, ◌%◌, Bool, true, false, Option, none, some, List, [], ◌∷◌, bit_xor, ◌||◌, ltb, ◌==◌,
  if◌then◌else◌, ◌>>=◌, length, Crc16,
}
use modem_modules.Base.Net.{NetPkt, Family}
use modem_modules.Ppp.{Ppp, TransmitState}

abbrev pub ppp_ip : ℕ
ppp_ip = 0x0021

abbrev pub ppp_ipv6 : ℕ
ppp_ipv6 = 0x0057

-- A byte that is sent behind 0x7D, with bit 5 turned.
pub needs_escape : ℕ → Bool
needs_escape b = (b == 0x7E) || (b == 0x7D) || ltb b 0x20

-- `modem_ppp_ppp_protocol`
unfoldable pub protocol_of : Family → ℕ
protocol_of Family.inet = ppp_ip
protocol_of Family.inet6 = ppp_ipv6
protocol_of Family.other = 0

module _ ⦃crc : Crc16⦄ where
  -- `modem_ppp_fcs_init`, `modem_ppp_fcs_update`, `modem_ppp_fcs_final`
  pub fcs_init : ℕ → ℕ
  fcs_init b = crc.crc16 0xFFFF (b ∷ [])

  pub fcs_update : ℕ → ℕ → ℕ
  fcs_update fcs b = crc.crc16 fcs (b ∷ [])

  pub fcs_final : ℕ → ℕ
  fcs_final fcs = bit_xor fcs 0xFFFF

module _ {Pkt Rb : Type 0} where
  -- The end of each state that writes a byte: the byte, or 0x7D with the escaped byte kept for the
  -- next call.
  pub emit : Ppp Pkt Rb → ℕ → TransmitState → TransmitState → ℕ × Ppp Pkt Rb
  emit p b escaping next =
      if needs_escape b
      then (0x7D, record p { tx_pkt_escaped = bit_xor b 0x20; transmit_state = escaping })
      else (b, record p { transmit_state = next })

  abbrev pub go_to : Ppp Pkt Rb → TransmitState → Ppp Pkt Rb
  go_to p s = record p { transmit_state = s }

module _ {Pkt : Type 0} ⦃net : NetPkt Pkt⦄ where
  -- The state behind a byte of data.
  abbrev pub after_payload : Pkt → TransmitState
  after_payload k =
      if length (net.rest k) == 0 then TransmitState.fcs_low else TransmitState.payload

module _ {Pkt Rb : Type 0} ⦃net : NetPkt Pkt⦄ ⦃crc : Crc16⦄ where
  pub wrap_hdr_ff : Ppp Pkt Rb → Option (ℕ × Ppp Pkt Rb)
  wrap_hdr_ff p = p.tx_pkt >>= λ k. some (
    0xFF,
    record p {
      tx_pkt = some (net.cursor_init k);
      tx_pkt_fcs = fcs_init 0xFF;
      transmit_state = TransmitState.hdr_7d;
    },
  )

  pub wrap_hdr_23 : Ppp Pkt Rb → Option (ℕ × Ppp Pkt Rb)
  wrap_hdr_23 p = p.tx_pkt >>= λ k. some (
    0x23,
    if net.is_ppp k then go_to p TransmitState.payload else record p {
      tx_pkt_protocol = protocol_of (net.family k);
      transmit_state = TransmitState.protocol_high;
    },
  )

  pub wrap_protocol_high : Ppp Pkt Rb → ℕ × Ppp Pkt Rb
  wrap_protocol_high p =
      let b : ℕ = p.tx_pkt_protocol / 256 % 256 in
      emit (record p { tx_pkt_fcs = fcs_update p.tx_pkt_fcs b }) b
        TransmitState.escaping_protocol_high TransmitState.protocol_low

  pub wrap_protocol_low : Ppp Pkt Rb → ℕ × Ppp Pkt Rb
  wrap_protocol_low p =
      let b : ℕ = p.tx_pkt_protocol % 256 in
      emit (record p { tx_pkt_fcs = fcs_update p.tx_pkt_fcs b }) b
        TransmitState.escaping_protocol_low TransmitState.payload

  pub wrap_payload : Ppp Pkt Rb → Option (ℕ × Ppp Pkt Rb)
  wrap_payload p = p.tx_pkt >>= λ k. net.read_u8 k >>= λ s. some (
      emit (record p { tx_pkt = some s.1; tx_pkt_fcs = fcs_update p.tx_pkt_fcs s.0 }) s.0
        TransmitState.escaping_payload (after_payload s.1))

  pub wrap_escaping_payload : Ppp Pkt Rb → Option (ℕ × Ppp Pkt Rb)
  wrap_escaping_payload p = p.tx_pkt >>= λ k. some (p.tx_pkt_escaped, go_to p (after_payload k))

  pub wrap_fcs_low : Ppp Pkt Rb → ℕ × Ppp Pkt Rb
  wrap_fcs_low p =
      let fcs : ℕ = fcs_final p.tx_pkt_fcs in
      emit (record p { tx_pkt_fcs = fcs }) (fcs % 256) TransmitState.escaping_fcs_low
        TransmitState.fcs_high

  pub wrap_fcs_high : Ppp Pkt Rb → ℕ × Ppp Pkt Rb
  wrap_fcs_high p =
      emit p (p.tx_pkt_fcs / 256 % 256) TransmitState.escaping_fcs_high TransmitState.eof

  -- the `switch`
  unfoldable pub wrap_in : TransmitState → Ppp Pkt Rb → Option (ℕ × Ppp Pkt Rb)
  wrap_in TransmitState.idle p = some (0, p)
  wrap_in TransmitState.sof p = some (0x7E, go_to p TransmitState.hdr_ff)
  wrap_in TransmitState.hdr_ff p = wrap_hdr_ff p
  wrap_in TransmitState.hdr_7d p = some (
    0x7D,
    record p { tx_pkt_fcs = fcs_update p.tx_pkt_fcs 0x03; transmit_state = TransmitState.hdr_23 },
  )
  wrap_in TransmitState.hdr_23 p = wrap_hdr_23 p
  wrap_in TransmitState.protocol_high p = some (wrap_protocol_high p)
  wrap_in TransmitState.escaping_protocol_high p =
      some (p.tx_pkt_escaped, go_to p TransmitState.protocol_low)
  wrap_in TransmitState.protocol_low p = some (wrap_protocol_low p)
  wrap_in TransmitState.escaping_protocol_low p =
      some (p.tx_pkt_escaped, go_to p TransmitState.payload)
  wrap_in TransmitState.payload p = wrap_payload p
  wrap_in TransmitState.escaping_payload p = wrap_escaping_payload p
  wrap_in TransmitState.fcs_low p = some (wrap_fcs_low p)
  wrap_in TransmitState.escaping_fcs_low p = some (p.tx_pkt_escaped, go_to p TransmitState.fcs_high)
  wrap_in TransmitState.fcs_high p = some (wrap_fcs_high p)
  wrap_in TransmitState.escaping_fcs_high p = some (p.tx_pkt_escaped, go_to p TransmitState.eof)
  wrap_in TransmitState.eof p = some (0x7E, go_to p TransmitState.idle)

  -- `modem_ppp_wrap_net_pkt_byte`
  unfoldable pub wrap_net_pkt_byte : Ppp Pkt Rb → Option (ℕ × Ppp Pkt Rb)
  unfolding wrap_in
  wrap_net_pkt_byte p = wrap_in p.transmit_state p
