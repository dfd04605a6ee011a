-- ===== src/Chat/Line/End.antt =====
-- The delimiter of a line.
use modem_modules.Base.{
  ℕ, ◌+◌, ◌-◌, ◌≤◌, ◌<◌, ◌≡◌, refl, sym, ap, ◌∙◌, true, false, inl, Option, some, List, [], ◌∷◌,
  ◌++◌, arith, ltb, ◌==◌, ◌>>=◌, >>=-some, All, length, set, length-append, append_assoc,
  append-nil,
}
use mathlib.Core.Path.{subst}
use modem_modules.Chat.{Chat, Match, Parser, text_at}
use modem_modules.Chat.Parse.{
  is_in, complete_line, trailing_argument, add_argument, on_command_received, read_arguments,
  with_parser, process_bytes, process_byte, reset,
}
use modem_modules.Chat.Line.{last_field}
use modem_modules.Chat.Line.Spans.{Spans, Spans-extend}
use modem_modules.Chat.Line.Reads.{
  Holds, Holds-set, Holds-grow, Holds-append, Holds-length, Holds-read,
}
use modem_modules.Chat.Line.Bytes.{process_byte_last, process_bytes-step}
use modem_modules.Chat.Line.Body.{Line, high_of}
use modem_modules.Chat.Line.Tail.{IsTail, next, next-IsTail, room, inner, outer_complete}

-- The line is handed on with a parser that reads `texts`.
abbrev pub Received : Chat → Line → Option Chat → List (List ℕ) → Type 0
Received c l o texts =
    (p : Parser) × (o
      ≡ (on_command_received (with_parser c p) l.found l.found_type >>= λ c'. some (reset c')))
    × (read_arguments p.receive_buf p.argv ≡ texts)

complete_line-some :
    (c : Chat) (m : Match) (p : Parser)
    → (c.receive_buf_len == length c.delimiter) ≡ false
    → c.parse_match ≡ some m
    → trailing_argument c ≡ some p
    → complete_line c ≡ on_command_received (with_parser c p) m c.parse_match_type
unfolding complete_line
complete_line-some c m p some_line e trailing = rw (some_line, e, trailing) refl

module _ (c : Chat) (l : Line) (p : Parser) (start n : ℕ) (done : List (List ℕ)) (field : List ℕ)
    (v : IsTail c l p start n done field c.delimiter) where
  -- The line is handed on with what `trailing_argument` leaves.
  handed_on :
      (p' : Parser)
      → trailing_argument (with_parser c p) ≡ some p'
      → complete_line (with_parser c p)
        ≡ on_command_received (with_parser c p') l.found l.found_type
  handed_on p' e =
      let some_line : (p.receive_buf_len == length c.delimiter) ≡ false =
        ground (arith, v.far, v.at) in
      complete_line-some (with_parser c p) l.found p' some_line v.same_match e
      ∙ ap (λ t. on_command_received (with_parser c p') l.found t) v.same_type

  no_trailing : field ≡ [] → trailing_argument (with_parser c p) ≡ some p
  unfolding trailing_argument
  no_trailing empty =
      let none_left : ltb 0 p.parse_arg_len ≡ false = ground (arith, v.arg_len, ap length empty) in
      rw none_left refl

  -- The last field is an argument.
  abbrev trailed : Parser
  trailed = record p { receive_buf = set p.receive_buf n 0; argv = p.argv ++ (text_at start ∷ []) }

  trailing :
      0 < length field
      → length done + 1 < l.slots
      → trailing_argument (with_parser c p) ≡ some trailed
  unfolding trailing_argument add_argument
  trailing some_field slots =
      let count = Holds-length p.receive_buf start (high_of l) p.argv (l.text ∷ done) v.complete in
      let left : ltb 0 p.parse_arg_len ≡ true = ground (arith, v.arg_len, some_field) in
      let free : ltb (length p.argv) p.argv_size ≡ true =
        ground (arith, slots, count, v.same_slots) in
      let cut : p.receive_buf_len - length c.delimiter ≡ n = omega (arith, v.far) in
      let at : n - p.parse_arg_len ≡ start = omega (arith, v.arg_len, v.ends) in
      rw (left, free, cut, at) refl

  trailed-read :
      p.receive_buf_len + (length l.text + 1) ≤ l.size
      → 0 < length c.delimiter
      → read_arguments trailed.receive_buf trailed.argv ≡ l.text ∷ (done ++ (field ∷ []))
  trailed-read fits some_delimiter =
      let cut = set p.receive_buf n 0 in
      let field_there : Spans cut start (field ++ (0 ∷ [])) =
        Spans-extend p.receive_buf start field n 0 v.current v.ends
          (omega (arith, v.whole, v.same_size, v.far, fits, some_delimiter)) in
      let others : Holds cut (n + 1) (high_of l) p.argv (l.text ∷ done) =
        Holds-grow cut start (high_of l) p.argv (l.text ∷ done) (n + 1) (omega (arith, v.ends)) (
          Holds-set p.receive_buf start (high_of l) p.argv (l.text ∷ done) n 0
            (omega (arith, v.ends)) (omega (arith, fits, v.far, some_delimiter)) v.complete) in
      Holds-read cut (n + 1) (high_of l) (p.argv ++ (text_at start ∷ []))
        (l.text ∷ (done ++ (field ∷ [])))
        (Holds-append cut (n + 1) (high_of l) p.argv (l.text ∷ done) (text_at start) field others
          (field_there, v.plain, inl (omega (arith, v.ends))))

-- The delimiter is complete in `p`.
line_ends :
    (c : Chat) (l : Line) (p : Parser) (start n : ℕ) (done : List (List ℕ)) (field : List ℕ)
    → IsTail c l p start n done field c.delimiter
    → p.receive_buf_len + (length l.text + 1) ≤ l.size
    → length done + 1 < l.slots
    → 0 < length c.delimiter
    → Received c l
        (complete_line (with_parser c p) >>= λ c'. some (reset c'))
        (l.text ∷ (done ++ last_field field))
line_ends c l p start n done [] v fits slots some_delimiter = (
  p,
  ap (λ o. o >>= λ c'. some (reset c'))
      (handed_on c l p start n done [] v p (no_trailing c l p start n done [] v refl)),
  Holds-read p.receive_buf start (high_of l) p.argv (l.text ∷ done) v.complete
      ∙ ap (λ xs. l.text ∷ xs) (sym (append-nil done)),
)
line_ends c l p start n done (x ∷ xs) v fits slots some_delimiter = (
  trailed c l p start n done (x ∷ xs) v,
  ap (λ o. o >>= λ c'. some (reset c'))
      (handed_on c l p start n done (x ∷ xs) v (trailed c l p start n done (x ∷ xs) v)
        (trailing c l p start n done (x ∷ xs) v (omega arith) slots)),
  trailed-read c l p start n done (x ∷ xs) v fits some_delimiter,
)

is_in-middle : (xs : List ℕ) (b : ℕ) (ys : List ℕ) → is_in b (xs ++ (b ∷ ys)) ≡ true
is_in-middle [] b ys = ground arith
is_in-middle (x ∷ xs) b ys = ground (arith, is_in-middle xs b ys)

process_bytes-one :
    (c : Chat) (b : ℕ) → is_in b c.filter ≡ false → process_bytes c (b ∷ []) ≡ process_byte c b
unfolding process_bytes
process_bytes-one c b kept = rw kept (>>=-some (process_byte c b))

module _ (c : Chat) (l : Line) (start n : ℕ) (done : List (List ℕ)) (field : List ℕ)
    (fits : n + length c.delimiter + (length l.text + 1) ≤ l.size)
    (slots : length done + 1 < l.slots) where
  -- The rest `suf` of the delimiter.
  pub tails :
      (p : Parser) (pre suf : List ℕ)
      → IsTail c l p start n done field pre
      → pre ++ suf ≡ c.delimiter
      → 0 < length suf
      → All (λ b. is_in b c.filter ≡ false) suf
      → Received c l (process_bytes (with_parser c p) suf) (l.text ∷ (done ++ last_field field))
  tails p pre [] v e some_suf kept = absurd (omega (arith, some_suf))
  tails p pre (b ∷ []) v e some_suf kept =
      let count = sym (length-append pre (b ∷ [])) ∙ ap length e in
      let one : p.receive_buf_len + 1 + (length l.text + 1) ≤ l.size =
        omega (arith, fits, v.far, count) in
      let q = next c l p start n done field pre v one slots b in
      let (p', ends, reads) =
        line_ends c l q start n done field
          (subst (λ xs. IsTail c l q start n done field xs) e
            (next-IsTail c l p start n done field pre v one slots b))
          one slots (omega (arith, count)) in
      (
        p',
        process_bytes-one (with_parser c p) b kept.0
            ∙ (process_byte_last c p (room c l p start n done field pre v one slots b)
                  (omega (arith, count)) b
                  (outer_complete c l p start n done field pre v one slots b e)
                ∙ ends),
        reads,
      )
  tails p pre (b ∷ b' ∷ suf) v e some_suf kept =
      let count = sym (length-append pre (b ∷ b' ∷ suf)) ∙ ap length e in
      let one : p.receive_buf_len + 1 + (length l.text + 1) ≤ l.size =
        omega (arith, fits, v.far, count) in
      let q = next c l p start n done field pre v one slots b in
      let own : is_in b c.delimiter ≡ true =
        subst (λ xs. is_in b xs ≡ true) e (is_in-middle pre b (b' ∷ suf)) in
      let (p', goes, reads) =
        tails q (pre ++ (b ∷ [])) (b' ∷ suf)
          (next-IsTail c l p start n done field pre v one slots b)
          (append_assoc pre (b ∷ []) (b' ∷ suf) ∙ e) (omega arith) kept.1 in
      (
        p',
        process_bytes-step (with_parser c p) (with_parser c q) b (b' ∷ suf) kept.0
              (inner c l p start n done field pre v one slots b (omega (arith, count)) own)
            ∙ goes,
        reads,
      )
