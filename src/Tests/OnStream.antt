-- ===== src/Tests/OnStream.antt =====
-- A frame that the pipe takes in part.
use modem_modules.Base.{◌≤◌, ℕ, ◌≡◌, refl, List, [], ◌∷◌, ◌++◌, arith}
use modem_modules.Cmux.{Cmux, target, read, schedule, transmit_work}
use modem_modules.Cmux.Transmit.{
  transmit_frame, fitting, put_octets, address_octet, control_octet, length_octets,
  last_length_octet, fcs_octet,
}
use modem_modules.Cmux.Work.{transmit_handler}
use modem_modules.Cmux.Work.Stream.{Flow, Flow-contents}
use modem_modules.Tests.Instances.{Buffer, buffer_ring, crc8_rohc}
use modem_modules.Tests.OnCmux.{fresh_cmux, sabm}

abbrev sabm_octets : List ℕ
sabm_octets = 0xF9 ∷ 0x03 ∷ 0x3F ∷ 0x01 ∷ 0x1C ∷ 0xF9 ∷ []

abbrev after_sabm : Cmux Buffer
after_sabm = record fresh_cmux {
  transmit_rb = record { held = sabm_octets; free = 58 };
  calls = schedule transmit_work 0 ∷ [];
}

-- The pipe takes four of the six octets.
sabm-Flow :
    Flow fresh_cmux (0xF9 ∷ 0x03 ∷ 0x3F ∷ 0x01 ∷ []) sabm_octets (transmit_handler after_sabm 4)
unfolding target read transmit_frame fitting put_octets address_octet control_octet length_octets
    last_length_octet fcs_octet transmit_handler
sabm-Flow = Flow.puts sabm (omega arith) (omega arith) (omega arith) refl (
    Flow.handles {c = after_sabm} 4 (let h : 4 ≤ 6 = omega arith in h)
      (Flow.ends (transmit_handler after_sabm 4)))

Flow-contents_example :
    (0xF9 ∷ 0x03 ∷ 0x3F ∷ 0x01 ∷ []) ++ (transmit_handler after_sabm 4).transmit_rb.held
    ≡ sabm_octets
Flow-contents_example =
    Flow-contents fresh_cmux (transmit_handler after_sabm 4) (0xF9 ∷ 0x03 ∷ 0x3F ∷ 0x01 ∷ [])
      sabm_octets sabm-Flow
