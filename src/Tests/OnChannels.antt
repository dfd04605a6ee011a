-- ===== src/Tests/OnChannels.antt =====
-- Frames for the channels of a multiplexer and for its control channel.
use modem_modules.Base.{inr, true, false, ℕ, ◌≡◌, refl, none, some, [], ◌∷◌, arith}
use modem_modules.Cmux.{Cmux, frame_type_uih, receive_buffer, call, notify_receive_ready}
use modem_modules.Cmux.Control.{on_frame, set_dlci, find_dlci, find_from}
use modem_modules.Cmux.Control.Answers.{answer, on_frame_answers}
use modem_modules.Cmux.Transmit.Wire.{wire, Holds}
use modem_modules.Cmux.Control.Delivery.{IsFor, on_frame_delivers, on_frame_reads_outside}
use modem_modules.Tests.Instances.{Buffer, buffer_ring, crc8_rohc}
use modem_modules.Tests.OnCmux.{channel, cmux_with, filled_with}

abbrev received : ℕ → Cmux Buffer
received n = cmux_with 64 (filled_with n)

received-IsFor : (n : ℕ) → IsFor (received n) 0 channel
unfolding find_dlci find_from
received-IsFor n = record {
  not_control = omega arith;
  data_frame = refl;
  found = refl;
  there = refl;
  is_opened = refl;
  in_buffer = refl;
}

on_frame_delivers_example :
    (rb : Buffer) × (on_frame (received 3)
      ≡ some (
          call
            (notify_receive_ready 0)
            (set_dlci (received 3) 0 (record channel { receive_rb = rb }))))
    × (rb.held ≡ 1 ∷ 2 ∷ 3 ∷ [])
on_frame_delivers_example =
    on_frame_delivers (received 3) 0 channel (received-IsFor 3) (omega arith)

on_frame_reads_outside_example : on_frame (received 9) ≡ none
on_frame_reads_outside_example =
    on_frame_reads_outside (received 9) 0 channel (received-IsFor 9) (omega arith) (omega arith)

-- Flow control off, with its C/R bit set: 0x18 and two low bits, and no value octets.
abbrev stopping : Cmux Buffer
stopping = cmux_with 64 (record (filled_with 2) {
  receive_buf = 0x63 ∷ 0x01 ∷ 0 ∷ 0 ∷ [];
  receive_buf_len = 2;
  frame = record {
    dlci_address = 0;
    cr = true;
    pf = false;
    frame_type = frame_type_uih;
    contents = receive_buffer;
    data_len = 2;
  };
})

on_frame_answers_example :
    (c' : Cmux Buffer) × (on_frame stopping ≡ some c')
    × (c'.flow_control_on ≡ false)
    × Holds stopping.transmit_rb c'.transmit_rb
        (wire (answer stopping 0x63 0x01 []) (0x61 ∷ 0x01 ∷ []))
on_frame_answers_example =
    on_frame_answers stopping 0x63 0x01 []
      (record {
        control = refl;
        uih = refl;
        taken = refl;
        in_buffer = refl;
        count = refl;
        inside = omega arith;
        held = refl;
        short = omega arith;
        type_ends = refl;
        length_ends = refl;
        length_counts = refl;
      })
      (inr (inr refl)) (omega arith) (omega arith)
