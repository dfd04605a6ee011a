-- ===== src/Base/Bits.antt =====
-- The masks and shifts that the sources apply to bytes, as arithmetic; each is a table over a byte.
use Prim.Native.Nat.{digits, bit_or-bitwise, max, ◌≤◌, ◌^◌}
use Prim.Native.Nat.{ℕ, zero, suc, ◌+◌, ◌*◌, ◌/◌, ◌%◌, ◌<◌, bit_and, bit_or, bit_xor}
use mathlib.Core.Path.{◌≡◌, refl}
use mathlib.Core.Bool.{Bool, true, false}
use native.Mathlib.Nat.{pow-suc}
use native.Mathlib.Omega.{arith}
use native.Mathlib.Decide.{dec_lt}
use modem_modules.Base.Tests.{if◌then◌else◌, ◌==◌, ==_iff}

-- Whether a test holds of each number below a bound, from the bound downwards.
pub holds_below : (ℕ → Bool) → ℕ → Bool
holds_below test zero = true
holds_below test (suc bound) =
    let rest = holds_below test bound in if test bound then rest else false

pub holds_below-at :
    (test : ℕ → Bool) (bound k : ℕ) → k < bound → holds_below test bound ≡ true → test k ≡ true
unfolding holds_below
holds_below-at test (suc bound) k inside all = elim (dec_lt k bound) [
  | yes below ↦ holds_below-at test bound k below (ground arith)
  | no above ↦ let last : k ≡ bound = omega arith in rw last (ground arith)
]
holds_below-at test zero k inside all = absurd (omega arith)

module _ (f g : ℕ → ℕ) where
  agree : (n : ℕ) → holds_below (λ x. f x == g x) n ≡ true → (x : ℕ) → x < n → f x ≡ g x
  agree n all x inside = (==_iff _ _).0 (holds_below-at _ n x inside all)

-- The poll/final bit and the rest of the control octet of a CMUX frame.
pub bit_and_pf : (b : ℕ) → b < 256 → bit_and b 0x10 ≡ b / 16 % 2 * 16
unfolding holds_below
bit_and_pf = agree _ _ 256 refl

pub bit_and_not_pf : (b : ℕ) → b < 256 → bit_and b 0xEF ≡ b / 32 * 32 + b % 16
unfolding holds_below
bit_and_not_pf = agree _ _ 256 refl

pub bit_or_pf : (b : ℕ) → b < 256 → bit_or b 0x10 ≡ b / 32 * 32 + 16 + b % 16
unfolding holds_below
bit_or_pf = agree _ _ 256 refl

pub bit_or_zero : (b : ℕ) → b < 256 → bit_or b 0 ≡ b
unfolding holds_below
bit_or_zero = agree _ _ 256 refl

pub bit_and_cr : (b : ℕ) → b < 256 → bit_and b 0x02 ≡ b / 2 % 2 * 2
unfolding holds_below
bit_and_cr = agree _ _ 256 refl

pub bit_and_one : (b : ℕ) → b < 256 → bit_and b 0x01 ≡ b % 2
unfolding holds_below
bit_and_one = agree _ _ 256 refl

pub bit_and_address : (b : ℕ) → b < 64 → bit_and b 0x3F ≡ b
unfolding holds_below
bit_and_address = agree _ _ 64 refl

-- The address octet: the extension bit, the command/response bit, and the DLCI address.
pub bit_or_address : (a : ℕ) → a < 64 → bit_or (bit_or 1 0) (a * 4) ≡ 1 + a * 4
unfolding holds_below
bit_or_address = agree _ _ 64 refl

pub bit_or_address_cr : (a : ℕ) → a < 64 → bit_or (bit_or 1 2) (a * 4) ≡ 3 + a * 4
unfolding holds_below
bit_or_address_cr = agree _ _ 64 refl

-- Escaping a byte twice gives it back.
pub bit_xor_escape : (b : ℕ) → b < 256 → bit_xor (bit_xor b 0x20) 0x20 ≡ b
unfolding holds_below
bit_xor_escape = agree _ _ 256 refl

-- The law for the lowest digit of a bitwise or, from the definition of the native operation.
or_digits : ℕ → ℕ → ℕ → ℕ
or_digits n a b = digits (λ b. b) max n a b

or_digits_fuel : (n m a b : ℕ) → a ≤ n → a ≤ m → or_digits n a b ≡ or_digits m a b
unfolding or_digits
or_digits_fuel zero zero a b p q = refl
or_digits_fuel zero (suc m) zero b p q = refl
or_digits_fuel zero (suc m) (suc a) b p q = absurd (omega arith)
or_digits_fuel (suc n) zero zero b p q = refl
or_digits_fuel (suc n) zero (suc a) b p q = absurd (omega arith)
or_digits_fuel (suc n) (suc m) zero b p q = refl
or_digits_fuel (suc n) (suc m) (suc a) b p q =
    omega (arith, or_digits_fuel n m (suc a / 2) (b / 2) (omega arith) (omega arith))

pub zero-bit_or : (b : ℕ) → bit_or 0 b ≡ b
zero-bit_or b = bit_or-bitwise 0 b

pub bit_or_step : (a b : ℕ) → bit_or a b ≡ bit_or (a / 2) (b / 2) * 2 + max (a % 2) (b % 2)
unfolding or_digits
bit_or_step zero b = omega (arith, zero-bit_or b, zero-bit_or (b / 2))
bit_or_step (suc a) b = omega (
  arith,
  bit_or-bitwise (suc a) b,
  bit_or-bitwise (suc a / 2) (b / 2),
  or_digits_fuel a (suc a / 2) (suc a / 2) (b / 2) (omega arith) (omega arith),
)

double : (a m n : ℕ) → n ≡ m * 2 → bit_or (a / 2) m ≡ a / 2 + m → bit_or a n ≡ a + n
double a m n e h =
    let half : n / 2 ≡ m = omega arith in
    let ih : bit_or (a / 2) (n / 2) ≡ a / 2 + m = rw half h in omega (arith, bit_or_step a n)

-- Low bits below a second octet.
pub bit_or_high : (k a b : ℕ) → a < 2 ^ k → bit_or a (b * 2 ^ k) ≡ a + b * 2 ^ k
bit_or_high zero a b h =
    let none_left : a ≡ 0 = omega arith in rw none_left (omega (arith, zero-bit_or (b * 2 ^ 0)))
bit_or_high (suc k) a b h =
    let p : 2 ^ suc k ≡ 2 * 2 ^ k = omega (arith, pow-suc 2 k) in
    double a (b * 2 ^ k) (b * 2 ^ suc k) (rw p (omega arith))
      (bit_or_high k (a / 2) b (omega arith))

pub bit_or_one : (b : ℕ) → b < 256 → bit_or 1 b ≡ b / 2 * 2 + 1
unfolding holds_below
bit_or_one = agree _ _ 256 refl
