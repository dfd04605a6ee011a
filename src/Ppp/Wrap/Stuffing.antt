-- ===== src/Ppp/Wrap/Stuffing.antt =====
-- A PPP frame as it goes over the wire: RFC 1662 framing with octet stuffing.
use modem_modules.Base.{
  ℕ, ◌/◌, ◌%◌, ◌≡◌, refl, false, List, [], ◌∷◌, ◌++◌, append_assoc, bit_xor, if◌then◌else◌, Crc16,
  ◌≢◌, arith,
}
use modem_modules.Base.Net.{NetPkt}
use modem_modules.Ppp.Wrap.{needs_escape, protocol_of, fcs_init, fcs_update, fcs_final}

-- One octet, escaped if it has to be.
abbrev pub stuff_octet : ℕ → List ℕ
stuff_octet b = if needs_escape b then 0x7D ∷ bit_xor b 0x20 ∷ [] else b ∷ []

pub not-needs_escape : (b : ℕ) → needs_escape b ≡ false → (b ≢ 0x7E) × (b ≢ 0x7D)
unfolding needs_escape
not-needs_escape b h = (ground arith, ground arith)

unfoldable pub stuff : List ℕ → List ℕ
stuff [] = []
stuff (b ∷ bs) = stuff_octet b ++ stuff bs

pub stuff-append : (xs ys : List ℕ) → stuff (xs ++ ys) ≡ stuff xs ++ stuff ys
unfolding stuff
stuff-append [] ys = refl
stuff-append (x ∷ xs) ys = simp (stuff-append xs ys, append_assoc)

module _ ⦃crc : Crc16⦄ where
  -- The checksum over octets, from a start value.
  unfoldable pub fcs_over : ℕ → List ℕ → ℕ
  fcs_over fcs [] = fcs
  fcs_over fcs (b ∷ bs) = fcs_over (fcs_update fcs b) bs

  -- The checksum of a frame with this payload: it covers the address FF and the control 03.
  abbrev pub frame_fcs : List ℕ → ℕ
  frame_fcs payload = fcs_final (fcs_over (fcs_update (fcs_init 0xFF) 0x03) payload)

  -- The two octets of the checksum, low octet first.
  abbrev pub fcs_octets : List ℕ → List ℕ
  fcs_octets payload = (frame_fcs payload % 256) ∷ (frame_fcs payload / 256 % 256) ∷ []

-- Flag, header FF 03 with 03 escaped, stuffed contents, flag.
abbrev pub framed : List ℕ → List ℕ
framed xs = 0x7E ∷ 0xFF ∷ 0x7D ∷ 0x23 ∷ (stuff xs ++ (0x7E ∷ []))

module _ {Pkt : Type 0} ⦃net : NetPkt Pkt⦄ where
  -- What a packet's frame carries: its data, behind the protocol number if it has none of its own.
  abbrev pub payload_of : Pkt → List ℕ
  payload_of k =
      if net.is_ppp k
      then net.whole k
      else (protocol_of (net.family k) / 256 % 256)
        ∷ (protocol_of (net.family k) % 256)
        ∷ net.whole k

-- The frame of a packet.
abbrev pub frame_of : {Pkt : Type 0} ⦃net : NetPkt Pkt⦄ ⦃crc : Crc16⦄ → Pkt → List ℕ
frame_of k = framed (payload_of k ++ fcs_octets (payload_of k))
