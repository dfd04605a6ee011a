-- ===== src/Cellular/Texts.antt =====
-- What modem_cellular.c makes of the texts that the chat hands to its callbacks, and the C library
-- functions that it calls for that.
pub mod Sizes
use modem_modules.Base.{
  ℕ, ◌+◌, ◌-◌, ◌*◌, ◌%◌, Bool, ◌&&◌, ◌||◌, List, [], ◌∷◌, ◌++◌, leb, ◌==◌, if◌then◌else◌, length,
  take, drop, replicate,
}
use modem_modules.Cellular.{Cellular}

abbrev pub is_digit : ℕ → Bool
is_digit c = leb b'0' c && leb c b'9'

abbrev pub is_space : ℕ → Bool
is_space c = (c == 32) || (leb 9 c && leb c 13)

-- The number that the digits in front of a text extend.
abbrev pub digits_from : ℕ → List ℕ → ℕ
digits_from n [] = n
digits_from n (c ∷ cs) =
    let rest = digits_from (n * 10 + (c - 48)) cs in if is_digit c then rest else n

abbrev pub signed : List ℕ → ℕ
signed [] = 0
signed (c ∷ cs) =
    if c == b'-'
    then (256 - digits_from 0 cs % 256) % 256
    else (if c == b'+' then digits_from 0 cs % 256 else digits_from 0 (c ∷ cs) % 256)

-- atoi of a text whose number fits an int, cast to a uint8_t
abbrev pub atoi : List ℕ → ℕ
atoi [] = 0
atoi (c ∷ cs) = let rest = atoi cs in if is_space c then rest else signed (c ∷ cs)

-- strncpy of a text to the first bytes of an array
abbrev pub strncpy : List ℕ → List ℕ → ℕ → List ℕ
strncpy array text n = take n text ++ (replicate (n - length text) 0 ++ drop n array)

-- `argv[1][i] - '0'` as a uint8_t
abbrev pub digit_of : ℕ → ℕ
digit_of c = (c + 256 - 48) % 256

abbrev pub digits_of : List ℕ → List ℕ
digits_of [] = []
digits_of (c ∷ cs) = digit_of c ∷ digits_of cs

module _ {Rb : Type 0} where
  -- `modem_cellular_chat_on_imei`
  unfoldable pub chat_on_imei : Cellular Rb → List (List ℕ) → Cellular Rb
  chat_on_imei d (a ∷ b ∷ []) = if length b == 15 then record d { imei = digits_of b } else d
  chat_on_imei d _ = d

  -- `modem_cellular_chat_on_cgmm`
  unfoldable pub chat_on_cgmm : Cellular Rb → List (List ℕ) → Cellular Rb
  chat_on_cgmm d (a ∷ b ∷ []) = record d { hwinfo = strncpy d.hwinfo b 63 }
  chat_on_cgmm d _ = d

  -- `modem_cellular_chat_on_creg`
  unfoldable pub chat_on_creg : Cellular Rb → List (List ℕ) → Cellular Rb
  chat_on_creg d (a ∷ b ∷ c ∷ []) = record d { access_tech = atoi b; registration_status = atoi c }
  chat_on_creg d _ = d

  -- `modem_cellular_chat_on_cgatt`
  unfoldable pub chat_on_cgatt : Cellular Rb → List (List ℕ) → Cellular Rb
  chat_on_cgatt d (a ∷ b ∷ []) = record d { packet_service_attached = atoi b }
  chat_on_cgatt d _ = d

  -- `modem_cellular_is_registered`
  unfoldable pub is_registered : Cellular Rb → Bool
  is_registered d = (d.registration_status == 5) && (d.packet_service_attached == 1)
