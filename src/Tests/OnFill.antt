-- ===== src/Tests/OnFill.antt =====
-- A PPP link that fills its transmit buffer.
use modem_modules.Base.{ℕ, ◌≡◌, ◌⊎◌, refl, some, List, [], ◌∷◌, ◌++◌}
use modem_modules.Ppp.{Ppp, TransmitState}
use modem_modules.Ppp.Wrap.{wrap_in, wrap_net_pkt_byte}
use modem_modules.Ppp.Wrap.Frame.{Gives}
use modem_modules.Ppp.Wrap.Buffer.{with_rb}
use modem_modules.Ppp.Handlers.{wrap_packet}
use modem_modules.Ppp.Handlers.Fill.{let_go, wrap_packet-Gives}
use modem_modules.Tests.Instances.{Buffer, Packet, packets, crc16_reflected, buffer_ring}
use modem_modules.Tests.OnPpp.{datagram, sending}

abbrev with_packet : Ppp Packet Buffer
with_packet = record sending { transmit_state = TransmitState.idle }

-- Only the closing flag is to come.
abbrev nearly_out : Ppp Packet Buffer
nearly_out = record sending { transmit_state = TransmitState.eof }

wrap_packet-Gives_example :
    (xs ys : List ℕ) × (p' : Ppp Packet Buffer) × (0x7E ∷ [] ≡ xs ++ ys)
    × Gives p' ys (with_rb p'.transmit_rb with_packet)
    × (p'.transmit_rb.held ≡ xs)
    × (((wrap_packet nearly_out ≡ some p') × (p'.transmit_rb.free ≡ 0))
        ⊎ ((ys ≡ []) × (wrap_packet nearly_out ≡ let_go p' datagram)))
unfolding wrap_in wrap_net_pkt_byte
wrap_packet-Gives_example =
    wrap_packet-Gives nearly_out with_packet datagram datagram []
      (Gives.octet refl (Gives.nothing with_packet)) refl refl refl refl
