-- ===== src/Tests/Instances.antt =====
-- Ring buffers, checksums and packets to run the models on.
use modem_modules.Base.{
  ℕ, zero, suc, ◌+◌, ◌-◌, ◌/◌, ◌%◌, ◌<◌, ◌≡◌, refl, Bool, true, Option, none, some, List, [], ◌∷◌,
  ◌++◌, arith, bit_xor, ◌==◌, if◌then◌else◌, length, take, drop, min, take-length, RingBuf, Crc8,
  Crc16,
}
use modem_modules.Base.Net.{NetPkt, Family}

-- A ring buffer as the bytes that it holds and the number of bytes that are free.
pub record Buffer : Type 0 where
  pub held : List ℕ
  pub free : ℕ

abbrev pub empty_buffer : ℕ → Buffer
empty_buffer n = record { held = []; free = n }

instance abbrev pub buffer_ring : RingBuf Buffer
buffer_ring = record {
  contents = λ b. b.held;
  space = λ b. b.free;
  put = λ b xs. record { held = b.held ++ take b.free xs; free = b.free - length xs };
  get = λ b n. take n b.held;
  consume = λ b n. record { held = drop n b.held; free = b.free + min n (length b.held) };
  claim = λ b. b.held;
  put_claim = λ b. b.free;
  reset = λ b. record { held = []; free = b.free + length b.held };
  contents-put = λ b xs. refl;
  space-put = λ b xs. omega arith;
  get_lem = λ b n. refl;
  contents-consume = λ b n. refl;
  space-consume = λ b n. refl;
  claim_lem = λ b. take-length b.held;
  claim_some = λ b h. h;
  put_claim-le = λ b. omega arith;
  contents-reset = λ b. refl;
  space-reset = λ b. refl;
}

-- The checksum of the CMUX frames, one bit at a time.
abbrev pub crc8_bit : ℕ → ℕ
crc8_bit i = if i % 2 == 0 then i / 2 else bit_xor (i / 2) 0xE0

abbrev pub crc8_bits : ℕ → ℕ → ℕ
crc8_bits zero i = i
crc8_bits (suc n) i = crc8_bits n (crc8_bit i)

abbrev pub crc8_bytes : List ℕ → ℕ → ℕ
crc8_bytes [] i = i
crc8_bytes (x ∷ xs) i = crc8_bytes xs (crc8_bits 8 (bit_xor i x) % 256)

pub crc8_bytes-append :
    (xs ys : List ℕ) (i : ℕ) → crc8_bytes (xs ++ ys) i ≡ crc8_bytes ys (crc8_bytes xs i)
crc8_bytes-append [] ys i = refl
crc8_bytes-append (x ∷ xs) ys i = crc8_bytes-append xs ys (crc8_bits 8 (bit_xor i x) % 256)

pub crc8_bytes-lt : (xs : List ℕ) (i : ℕ) → i < 256 → crc8_bytes xs i < 256
crc8_bytes-lt [] i h = h
crc8_bytes-lt (x ∷ xs) i h = crc8_bytes-lt xs (crc8_bits 8 (bit_xor i x) % 256) (omega arith)

instance abbrev pub crc8_rohc : Crc8
crc8_rohc = record { crc8 = crc8_bytes; crc8-append = crc8_bytes-append; crc8-lt = crc8_bytes-lt }

-- The checksum of the PPP frames.
abbrev pub crc16_bits : ℕ → ℕ → ℕ
crc16_bits zero i = i
crc16_bits (suc n) i = crc16_bits n (if i % 2 == 0 then i / 2 else bit_xor (i / 2) 0x8408)

abbrev pub crc16_bytes : ℕ → List ℕ → ℕ
crc16_bytes i [] = i
crc16_bytes i (x ∷ xs) = crc16_bytes (crc16_bits 8 (bit_xor i x) % 65536) xs

pub crc16_bytes-lt : (i : ℕ) (xs : List ℕ) → i < 65536 → crc16_bytes i xs < 65536
crc16_bytes-lt i [] h = h
crc16_bytes-lt i (x ∷ xs) h = crc16_bytes-lt (crc16_bits 8 (bit_xor i x) % 65536) xs (omega arith)

instance abbrev pub crc16_reflected : Crc16
crc16_reflected = record { crc16 = crc16_bytes; crc16-lt = crc16_bytes-lt }

-- A packet as its bytes, those from the cursor on, and the number of bytes that are free.
pub record Packet : Type 0 where
  pub all_bytes : List ℕ
  pub behind : List ℕ
  pub free_bytes : ℕ
  pub marked : Bool
  pub net_family : Family

abbrev pub read_from : Packet → List ℕ → Option (ℕ × Packet)
read_from p [] = none
read_from p (x ∷ xs) = some (x, record p { behind = xs })

abbrev pub write_in : Packet → ℕ → ℕ → Option Packet
write_in p b zero = none
write_in p b (suc n) = some (record p { all_bytes = p.all_bytes ++ (b ∷ []); free_bytes = n })

pub read_from-some :
    (p : Packet) (ys : List ℕ) (x : ℕ) (xs : List ℕ)
    → ys ≡ x ∷ xs
    → (q : Packet) × (read_from p ys ≡ some (x, q)) × (q.behind ≡ xs) × (q.all_bytes ≡ p.all_bytes)
read_from-some p ys x xs e = (record p { behind = xs }, rw e refl, refl, refl)

pub write_in-some :
    (p : Packet) (b n : ℕ)
    → n ≡ p.free_bytes
    → 0 < n
    → p.behind ≡ []
    → (q : Packet) × (write_in p b n ≡ some q)
      × (q.all_bytes ≡ p.all_bytes ++ (b ∷ []))
      × (q.behind ≡ [])
      × (q.free_bytes + 1 ≡ p.free_bytes)
write_in-some p b zero e h at_end = absurd (omega arith)
write_in-some p b (suc n) e h at_end = (
  record p { all_bytes = p.all_bytes ++ (b ∷ []); free_bytes = n },
  refl,
  refl,
  at_end,
  omega arith,
)

instance abbrev pub packets : NetPkt Packet
packets = record {
  whole = λ p. p.all_bytes;
  rest = λ p. p.behind;
  is_ppp = λ p. p.marked;
  family = λ p. p.net_family;
  room = λ p. p.free_bytes;
  cursor_init = λ p. record p { behind = p.all_bytes };
  read_u8 = λ p. read_from p p.behind;
  write_u8 = λ p b. write_in p b p.free_bytes;
  remove_tail = λ p n. record p { all_bytes = take (length p.all_bytes - n) p.all_bytes };
  set_ppp = λ p. record p { marked = true };
  rest-cursor_init = λ p. refl;
  whole-cursor_init = λ p. refl;
  room-cursor_init = λ p. refl;
  is_ppp-cursor_init = λ p. refl;
  family-cursor_init = λ p. refl;
  read_u8_some = λ p x xs e. read_from-some p p.behind x xs e;
  write_u8_some = λ p b h at_end. write_in-some p b p.free_bytes refl h at_end;
  whole-remove_tail = λ p n h. refl;
  whole-set_ppp = λ p. refl;
  is_ppp-set_ppp = λ p. refl;
}
