-- ===== src/Cellular/Texts/Sizes.antt =====
-- The callbacks of the chat stay inside the fields that they fill.
use modem_modules.Base.{
  length-drop, ℕ, zero, suc, ◌+◌, ◌-◌, ◌<◌, ◌≡◌, refl, ap, ◌∙◌, Bool, true, false, some, List, [],
  ◌∷◌, ◌++◌, ◌==◌, if◌then◌else◌, arith, length, take, drop, replicate, get_elem?, length-append,
  length-take, append_assoc, sym,
}
use modem_modules.Cellular.{Cellular}
use modem_modules.Cellular.Texts.{
  atoi, signed, is_space, strncpy, digits_of, chat_on_imei, chat_on_cgmm, chat_on_creg,
  chat_on_cgatt,
}

length-replicate : {A : Type 0} (n : ℕ) (a : A) → length (replicate n a) ≡ n
length-replicate zero a = refl
length-replicate (suc n) a = ap suc (length-replicate n a)

length-digits_of : (cs : List ℕ) → length (digits_of cs) ≡ length cs
length-digits_of [] = refl
length-digits_of (c ∷ cs) = ap suc (length-digits_of cs)

if-lt : (b : Bool) (x y : ℕ) → x < 256 → y < 256 → (if b then x else y) < 256
if-lt true x y p q = p
if-lt false x y p q = q

signed-lt : (cs : List ℕ) → signed cs < 256
signed-lt [] = omega arith
signed-lt (c ∷ cs) =
    if-lt (c == b'-') _ _ (omega arith) (if-lt (c == b'+') _ _ (omega arith) (omega arith))

atoi-lt : (cs : List ℕ) → atoi cs < 256
atoi-lt [] = omega arith
atoi-lt (c ∷ cs) = if-lt (is_space c) _ _ (atoi-lt cs) (signed-lt (c ∷ cs))

-- The bytes that strncpy fills.
length-filled : (text : List ℕ) (n : ℕ) → length (take n text ++ replicate (n - length text) 0) ≡ n
length-filled text n = omega (
  arith,
  length-append (take n text) (replicate (n - length text) 0),
  length-take n text,
  length-replicate {A = ℕ} (n - length text) 0,
)

get_elem?-append_right :
    {A : Type 0} (xs ys : List A) (n i : ℕ)
    → n ≡ length xs + i
    → get_elem? (xs ++ ys) n ≡ get_elem? ys i
get_elem?-append_right [] ys n i e = let same : n ≡ i = omega (arith, e) in rw same refl
get_elem?-append_right (x ∷ xs) ys zero i e = absurd (omega (arith, e))
get_elem?-append_right (x ∷ xs) ys (suc n) i e = get_elem?-append_right xs ys n i (omega (arith, e))

get_elem?-drop : {A : Type 0} (n : ℕ) (xs : List A) → get_elem? (drop n xs) 0 ≡ get_elem? xs n
get_elem?-drop zero xs = refl
get_elem?-drop (suc n) [] = refl
get_elem?-drop (suc n) (x ∷ xs) = get_elem?-drop n xs

module _ (array text : List ℕ) where
  filled_then :
      strncpy array text 63 ≡ (take 63 text ++ replicate (63 - length text) 0) ++ drop 63 array
  filled_then = sym (append_assoc (take 63 text) (replicate (63 - length text) 0) (drop 63 array))

  length-strncpy : length array ≡ 64 → length (strncpy array text 63) ≡ 64
  length-strncpy e =
      ap length filled_then
      ∙ (length-append (take 63 text ++ replicate (63 - length text) 0) (drop 63 array)
          ∙ omega (arith, length-filled text 63, length-drop 63 array, e))

  strncpy_end : get_elem? (strncpy array text 63) 63 ≡ get_elem? array 63
  strncpy_end =
      ap (λ xs. get_elem? xs 63) filled_then
      ∙ (get_elem?-append_right (take 63 text ++ replicate (63 - length text) 0) (drop 63 array) 63
            0 (omega (arith, length-filled text 63))
          ∙ get_elem?-drop 63 array)

pub record IsSized {Rb : Type 0} (d : Cellular Rb) : Type 0 where
  pub imei_size : length d.imei ≡ 15
  pub hwinfo_size : length d.hwinfo ≡ 64
  pub hwinfo_end : get_elem? d.hwinfo 63 ≡ some 0
  pub tech_byte : d.access_tech < 256
  pub status_byte : d.registration_status < 256
  pub attached_byte : d.packet_service_attached < 256

module _ {Rb : Type 0} (d : Cellular Rb) (v : IsSized d) where
  on_imei-IsSized : (argv : List (List ℕ)) → IsSized (chat_on_imei d argv)
  unfolding chat_on_imei
  on_imei-IsSized (a ∷ b ∷ []) = go (length b == 15) refl
    where
      go :
          (t : Bool)
          → (length b == 15) ≡ t
          → IsSized (if t then record d { imei = digits_of b } else d)
      go true e = record {
        imei_size = length-digits_of b ∙ grind arith;
        hwinfo_size = v.hwinfo_size;
        hwinfo_end = v.hwinfo_end;
        tech_byte = v.tech_byte;
        status_byte = v.status_byte;
        attached_byte = v.attached_byte;
      }
      go false e = v
  on_imei-IsSized _ = v

  on_cgmm-IsSized : (argv : List (List ℕ)) → IsSized (chat_on_cgmm d argv)
  unfolding chat_on_cgmm
  on_cgmm-IsSized (a ∷ b ∷ []) = record {
    imei_size = v.imei_size;
    hwinfo_size = length-strncpy d.hwinfo b v.hwinfo_size;
    hwinfo_end = strncpy_end d.hwinfo b ∙ v.hwinfo_end;
    tech_byte = v.tech_byte;
    status_byte = v.status_byte;
    attached_byte = v.attached_byte;
  }
  on_cgmm-IsSized _ = v

  on_creg-IsSized : (argv : List (List ℕ)) → IsSized (chat_on_creg d argv)
  unfolding chat_on_creg
  on_creg-IsSized (a ∷ b ∷ c ∷ []) = record {
    imei_size = v.imei_size;
    hwinfo_size = v.hwinfo_size;
    hwinfo_end = v.hwinfo_end;
    tech_byte = atoi-lt b;
    status_byte = atoi-lt c;
    attached_byte = v.attached_byte;
  }
  on_creg-IsSized _ = v

  on_cgatt-IsSized : (argv : List (List ℕ)) → IsSized (chat_on_cgatt d argv)
  unfolding chat_on_cgatt
  on_cgatt-IsSized (a ∷ b ∷ []) = record {
    imei_size = v.imei_size;
    hwinfo_size = v.hwinfo_size;
    hwinfo_end = v.hwinfo_end;
    tech_byte = v.tech_byte;
    status_byte = v.status_byte;
    attached_byte = atoi-lt b;
  }
  on_cgatt-IsSized _ = v

  -- Whatever arguments a line of the modem gives to the four callbacks, the IMEI keeps its 15 bytes, the
  -- hardware information keeps its 64 bytes and the zero at its end, and the numbers are bytes.
  pub callbacks-IsSized :
      (argv : List (List ℕ))
      → IsSized (chat_on_imei d argv)
        × IsSized (chat_on_cgmm d argv)
        × IsSized (chat_on_creg d argv)
        × IsSized (chat_on_cgatt d argv)
  callbacks-IsSized argv =
      (on_imei-IsSized argv, on_cgmm-IsSized argv, on_creg-IsSized argv, on_cgatt-IsSized argv)
