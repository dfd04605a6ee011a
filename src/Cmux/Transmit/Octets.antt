-- ===== src/Cmux/Transmit/Octets.antt =====
-- The octets of a frame's header that the transmitter writes, read the way the receiver reads them.
use modem_modules.Base.{
  ℕ, ◌+◌, ◌*◌, ◌/◌, ◌%◌, ◌≤◌, ◌<◌, ◌≡◌, ◌⊎◌, Bool, true, false, arith, bit_and, bit_or, ◌==◌, not,
  [], ◌∷◌,
}
use modem_modules.Base.Bits.{
  bit_and_pf, bit_and_not_pf, bit_or_pf, bit_or_zero, bit_and_cr, bit_and_one, bit_and_address,
  bit_or_address, bit_or_address_cr, bit_or_one, bit_or_high,
}
use modem_modules.Cmux.{Frame}
use modem_modules.Cmux.Transmit.{
  flag, address_octet, control_octet, last_length_octet, length_octets, length_field,
}

-- A DLCI address of six bits, and a frame type whose poll/final bit is clear.
pub record IsFrame (f : Frame) : Type 0 where
  pub address : f.dlci_address < 64
  pub octet : f.frame_type < 256
  pub no_pf : f.frame_type / 16 % 2 ≡ 0

-- A length that the two length octets carry: below 128, or with its bit 7 set, as the second octet
-- always has its lowest bit set.
abbrev pub IsSendable : ℕ → Type 0
IsSendable n = (n ≤ 127) ⊎ ((n < 32768) × (n / 128 % 2 ≡ 1))

address_octet_value :
    (a : ℕ) (b : Bool)
    → a < 64
    → bit_or (bit_or 0x01 (flag b * 2)) (a * 4) % 256 ≡ 1 + flag b * 2 + a * 4
address_octet_value a true h = omega (arith, bit_or_address_cr a h)
address_octet_value a false h = omega (arith, bit_or_address a h)

pub address_octet-cr : (f : Frame) → IsFrame f → not (bit_and (address_octet f) 0x02 == 0) ≡ f.cr
unfolding address_octet
address_octet-cr f v = rw (address_octet_value f.dlci_address f.cr v.address) (go f.cr)
  where
    go : (b : Bool) → not (bit_and (1 + flag b * 2 + f.dlci_address * 4) 0x02 == 0) ≡ b
    go true = ground (arith, v.address, bit_and_cr (3 + f.dlci_address * 4))
    go false = ground (arith, v.address, bit_and_cr (1 + f.dlci_address * 4))

pub address_octet-address :
    (f : Frame) → IsFrame f → bit_and (address_octet f / 4) 0x3F ≡ f.dlci_address
unfolding address_octet
address_octet-address f v =
    let value = address_octet_value f.dlci_address f.cr v.address in
    let quotient : address_octet f / 4 ≡ f.dlci_address = go f.cr value in
    rw quotient (bit_and_address f.dlci_address v.address)
  where
    go : (b : Bool) {n : ℕ} → n ≡ 1 + flag b * 2 + f.dlci_address * 4 → n / 4 ≡ f.dlci_address
    go true e = omega arith
    go false e = omega arith

control_octet_value :
    (t : ℕ) (b : Bool) → t < 256 → t / 16 % 2 ≡ 0 → bit_or t (flag b * 16) % 256 ≡ t + flag b * 16
control_octet_value t true h z = omega (arith, bit_or_pf t h)
control_octet_value t false h z = omega (arith, bit_or_zero t h)

pub control_octet-pf : (f : Frame) → IsFrame f → not (bit_and (control_octet f) 0x10 == 0) ≡ f.pf
unfolding control_octet
control_octet-pf f v = rw (control_octet_value f.frame_type f.pf v.octet v.no_pf) (go f.pf)
  where
    go : (b : Bool) → not (bit_and (f.frame_type + flag b * 16) 0x10 == 0) ≡ b
    go true = ground (arith, v.octet, v.no_pf, bit_and_pf (f.frame_type + 16))
    go false = ground (arith, v.octet, v.no_pf, bit_and_pf (f.frame_type + 0))

pub control_octet-type : (f : Frame) → IsFrame f → bit_and (control_octet f) 0xEF ≡ f.frame_type
unfolding control_octet
control_octet-type f v = rw (control_octet_value f.frame_type f.pf v.octet v.no_pf) (go f.pf)
  where
    go : (b : Bool) → bit_and (f.frame_type + flag b * 16) 0xEF ≡ f.frame_type
    go true = omega (arith, v.octet, v.no_pf, bit_and_not_pf (f.frame_type + 16))
    go false = omega (arith, v.octet, v.no_pf, bit_and_not_pf (f.frame_type + 0))

-- A short length: one octet, with its extension bit set.
pub short_length :
    (n : ℕ) → n ≤ 127 → (bit_and (last_length_octet n) 0x01 ≡ 1) × (last_length_octet n / 2 ≡ n)
unfolding last_length_octet
short_length n h =
    let value : last_length_octet n ≡ n * 2 + 1 = ground (arith, bit_or_one (n * 2)) in
    (rw value (omega (arith, bit_and_one (n * 2 + 1))), rw value (omega arith))

-- The receiver's reading of a long length: the transmitter's, with bit 7 set.
pub long_length :
    (n : ℕ)
    → 127 < n
    → n < 32768
    → (bit_and (n * 2 % 256) 0x01 ≡ 0)
      × (bit_or (n * 2 % 256 / 2) (last_length_octet n * 128) ≡ n % 128 + n / 256 * 256 + 128)
unfolding last_length_octet
long_length n lo hi =
    let value : last_length_octet n ≡ n / 256 * 2 + 1 = ground (arith, bit_or_one (n / 128)) in
    (
      omega (arith, bit_and_one (n * 2 % 256)),
      rw value (omega (arith, bit_or_high 7 (n * 2 % 256 / 2) (n / 256 * 2 + 1))),
    )

pub length_field_short : (n : ℕ) → n ≤ 127 → length_field n ≡ last_length_octet n ∷ []
unfolding length_octets
length_field_short n h = ground arith

pub length_field_long :
    (n : ℕ) → 127 < n → length_field n ≡ (n * 2 % 256) ∷ last_length_octet n ∷ []
unfolding length_octets
length_field_long n h = ground arith
