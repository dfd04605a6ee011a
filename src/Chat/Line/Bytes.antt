-- ===== src/Chat/Line/Bytes.antt =====
-- What modem_chat_process_byte does with one byte of a line that fits.
use modem_modules.Base.{
  ℕ, zero, suc, ◌+◌, ◌-◌, ◌≤◌, ◌<◌, ◌≡◌, refl, sym, ap, ◌∙◌, Bool-cases, true, false, not, ◌⊎◌, inl,
  inr, some, List, [], ◌∷◌, arith, ◌==◌, ltb, ◌&&◌, ◌>>=◌, length, take, drop, get_elem?,
  get_elem?-set_self,
}
use modem_modules.Chat.{Chat, Parser}
use modem_modules.Chat.Line.Spans.{from_some, get_elem?-drop, get_elem?-take}
use modem_modules.Chat.Parse.{
  is_in, is_equal, end_del_complete, parse_byte, store_byte, process_byte, process_bytes,
  with_parser, complete_line, reset,
}

is_equal_sound : (xs ys : List ℕ) → is_equal xs ys ≡ true → xs ≡ ys
is_equal_sound [] [] e = refl
is_equal_sound [] (y ∷ ys) e = absurd (ground (arith, e))
is_equal_sound (x ∷ xs) [] e = absurd (ground (arith, e))
is_equal_sound (x ∷ xs) (y ∷ ys) e =
    let rest : is_equal xs ys ≡ true = ground (arith, e) in
    let same : x ≡ y = ground (arith, e) in rw same (ap (λ t. y ∷ t) (is_equal_sound xs ys rest))

pub is_equal_self : (xs : List ℕ) → is_equal xs xs ≡ true
is_equal_self [] = refl
is_equal_self (x ∷ xs) = ground (arith, is_equal_self xs)

is_in-get : (z : ℕ) (xs : List ℕ) (i : ℕ) → get_elem? xs i ≡ some z → is_in z xs ≡ true
is_in-get z [] i e = absurd (ground (arith, e))
is_in-get z (x ∷ xs) zero e = let same : x ≡ z = ap (λ o. from_some x o) e in ground (arith, same)
is_in-get z (x ∷ xs) (suc i) e = ground (arith, is_in-get z xs i e)

-- The delimiter is not complete while one of the last bytes is none of its own.
pub end_del_complete-false :
    (c : Chat) (k z : ℕ)
    → c.receive_buf_len ≤ k + length c.delimiter
    → k < c.receive_buf_len
    → get_elem? c.receive_buf k ≡ some z
    → is_in z c.delimiter ≡ false
    → end_del_complete c ≡ false
unfolding end_del_complete
end_del_complete-false c k z near before there other = go (Bool-cases (is_equal window c.delimiter))
  where
    from : ℕ
    from = c.receive_buf_len - length c.delimiter

    window : List ℕ
    window = take (length c.delimiter) (drop from c.receive_buf)

    go :
        (is_equal window c.delimiter ≡ true) ⊎ (is_equal window c.delimiter ≡ false)
        → (not (ltb c.receive_buf_len (length c.delimiter)) && is_equal window c.delimiter) ≡ false
    go (inr e) = ground (arith, e)
    go (inl e) = elim (Bool-cases (ltb c.receive_buf_len (length c.delimiter))) [
      | inl short ↦ ground (arith, short)
      | inr long ↦
          let at : from + (k - from) ≡ k = ground (arith, near, before, long) in
          let seen : get_elem? c.delimiter (k - from) ≡ some z =
            ap (λ xs. get_elem? xs (k - from)) (sym (is_equal_sound window c.delimiter e))
            ∙ (get_elem?-take (drop from c.receive_buf) (length c.delimiter) (k - from)
                  (ground (arith, near, before, long))
                ∙ (get_elem?-drop c.receive_buf from (k - from)
                    ∙ (ap (λ j. get_elem? c.receive_buf j) at ∙ there))) in
          absurd (ground (arith, other, is_in-get z c.delimiter (k - from) seen))
    ]

pub process_bytes-step :
    (c c' : Chat) (b : ℕ) (bs : List ℕ)
    → is_in b c.filter ≡ false
    → process_byte c b ≡ some c'
    → process_bytes c (b ∷ bs) ≡ process_bytes c' bs
unfolding process_bytes
process_bytes-step c c' b bs kept e = rw (kept, e) refl

-- There is room for a byte and for an argument.
pub record HasRoom (p : Parser) : Type 0 where
  pub whole : length p.receive_buf ≡ p.receive_buf_size
  pub room : p.receive_buf_len < p.receive_buf_size
  pub unfilled : length p.argv < p.argv_size

abbrev pub stored : Chat → Parser → ℕ → Chat
stored c p b = store_byte (with_parser c p) b

module _ (c : Chat) (p : Parser) (v : HasRoom p) (some_delimiter : 0 < length c.delimiter) where
  -- A byte of a text is stored and parsed.
  pub process_byte_plain :
      (b : ℕ) (p' : Parser)
      → is_in b c.delimiter ≡ false
      → parse_byte (stored c p b) b ≡ some p'
      → process_byte (with_parser c p) b ≡ some (with_parser c p')
  unfolding process_byte
  process_byte_plain b p' other e =
      let room : (p.receive_buf_size == p.receive_buf_len) ≡ false = ground (arith, v.room) in
      let unfilled : (length p.argv == p.argv_size) ≡ false = ground (arith, v.unfilled) in
      let open_line : end_del_complete (stored c p b) ≡ false =
        end_del_complete-false (stored c p b) p.receive_buf_len b (omega (arith, some_delimiter))
          (omega arith)
          (get_elem?-set_self p.receive_buf p.receive_buf_len b (omega (arith, v.whole, v.room)))
          other in
      rw (room, unfilled, open_line, other, e) refl

  -- A byte of the delimiter, which is not complete with it, is only stored.
  pub process_byte_delimiter :
      (b : ℕ)
      → is_in b c.delimiter ≡ true
      → end_del_complete (stored c p b) ≡ false
      → process_byte (with_parser c p) b ≡ some (stored c p b)
  unfolding process_byte
  process_byte_delimiter b own open_line =
      let room : (p.receive_buf_size == p.receive_buf_len) ≡ false = ground (arith, v.room) in
      let unfilled : (length p.argv == p.argv_size) ≡ false = ground (arith, v.unfilled) in
      rw (room, unfilled, open_line, own) refl

  -- The byte that completes the delimiter ends the line.
  pub process_byte_last :
      (b : ℕ)
      → end_del_complete (stored c p b) ≡ true
      → process_byte (with_parser c p) b ≡ (complete_line (stored c p b) >>= λ c'. some (reset c'))
  unfolding process_byte
  process_byte_last b complete =
      let room : (p.receive_buf_size == p.receive_buf_len) ≡ false = ground (arith, v.room) in
      let unfilled : (length p.argv == p.argv_size) ≡ false = ground (arith, v.unfilled) in
      rw (room, unfilled, complete) refl
