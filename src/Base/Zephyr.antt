-- ===== src/Base/Zephyr.antt =====
-- The Zephyr code that the sources call and that stands outside the repository, as parameters:
-- the byte ring buffer of sys/ring_buffer.h and the checksums of sys/crc.h. `Rb` is the state of a
-- ring buffer; `contents` is what it holds, oldest byte first. The laws are the documented behaviour.
use Prim.Native.Nat.{ℕ, ◌+◌, ◌≤◌, ◌<◌, min}
use mathlib.Core.Path.{◌≡◌, sym, ap, ◌∙◌}
use mathlib.Core.List.{List, [], ◌++◌}
use modem_modules.Base.Lists.{length, take, drop, take-take, take-drop}

pub record RingBuf (Rb : Type 0) : Type 0 where
  pub contents : Rb → List ℕ
  pub space : Rb → ℕ  -- ring_buf_space_get
  pub put : Rb → List ℕ → Rb  -- ring_buf_put, whose result is `min (space b) (length xs)`
  pub get : Rb → ℕ → List ℕ  -- the bytes that ring_buf_get copies
  pub consume : Rb → ℕ → Rb  -- ring_buf_get, and ring_buf_get_finish after a claim
  pub claim : Rb → List ℕ  -- ring_buf_get_claim of UINT32_MAX bytes
  pub put_claim : Rb → ℕ  -- the size that ring_buf_put_claim of UINT32_MAX bytes gives
  pub reset : Rb → Rb
  pub contents-put : (b : Rb) (xs : List ℕ) → contents (put b xs) ≡ contents b ++ take (space b) xs
  pub space-put : (b : Rb) (xs : List ℕ) → space (put b xs) + min (space b) (length xs) ≡ space b
  pub get_lem : (b : Rb) (n : ℕ) → get b n ≡ take n (contents b)
  pub contents-consume : (b : Rb) (n : ℕ) → contents (consume b n) ≡ drop n (contents b)
  pub space-consume : (b : Rb) (n : ℕ) → space (consume b n) ≡ space b + min n (length (contents b))
  pub claim_lem : (b : Rb) → take (length (claim b)) (contents b) ≡ claim b
  pub claim_some : (b : Rb) → 0 < length (contents b) → 0 < length (claim b)
  pub put_claim-le : (b : Rb) → put_claim b ≤ space b
  pub contents-reset : (b : Rb) → contents (reset b) ≡ []
  pub space-reset : (b : Rb) → space (reset b) ≡ space b + length (contents b)

module _ {Rb : Type 0} ⦃ring : RingBuf Rb⦄ where
  -- A part of the bytes claimed, and what is left of the contents without it.
  pub taken_first :
      (rb : Rb) (n : ℕ)
      → n ≤ length (ring.claim rb)
      → take n (ring.claim rb) ++ drop n (ring.contents rb) ≡ ring.contents rb
  taken_first rb n h =
      ap (λ t. take n t ++ drop n (ring.contents rb)) (sym (ring.claim_lem rb))
      ∙ (ap (λ t. t ++ drop n (ring.contents rb))
            (take-take n (length (ring.claim rb)) (ring.contents rb) h)
          ∙ take-drop n (ring.contents rb))

-- `crc8 xs init` is crc8 of the bytes by the polynomial 0xE0, reversed.
pub record Crc8 : Type 0 where
  pub crc8 : List ℕ → ℕ → ℕ
  pub crc8-append : (xs ys : List ℕ) (i : ℕ) → crc8 (xs ++ ys) i ≡ crc8 ys (crc8 xs i)
  pub crc8-lt : (xs : List ℕ) (i : ℕ) → i < 256 → crc8 xs i < 256

-- `crc16_ccitt seed xs`.
pub record Crc16 : Type 0 where
  pub crc16 : ℕ → List ℕ → ℕ
  pub crc16-lt : (i : ℕ) (xs : List ℕ) → i < 65536 → crc16 i xs < 65536

-- The error numbers that the sources return, and an `int` result: a number, the negative of an error
-- number, or another negative number.
pub data Errno : Type 0 where
  eperm eagain enomem ebusy einval ealready enodata eprotonosupport : Errno

pub data Ret : Type 0 where
  ret : ℕ → Ret
  fail : Errno → Ret
  negative : ℕ → Ret
