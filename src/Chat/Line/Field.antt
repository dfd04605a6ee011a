-- ===== src/Chat/Line/Field.antt =====
-- One byte of a line behind its match.
use modem_modules.Base.{
  ℕ, ◌+◌, ◌-◌, ◌≤◌, ◌<◌, ◌≡◌, ◌≢◌, refl, ap, true, false, inl, inr, some, List, [], ◌∷◌, ◌++◌,
  arith, ltb, ◌==◌, length, set, get_elem?, length-append, length-set, get_elem?-set_self,
  All-append,
}
use modem_modules.Chat.{Chat, Parser, text_at, empty_text}
use modem_modules.Chat.Parse.{is_in, parse_byte, end_argument, add_argument}
use modem_modules.Chat.Line.Spans.{Spans, Spans-extend, Spans-set}
use modem_modules.Chat.Line.Reads.{Holds, Holds-set, Holds-grow, Holds-append, Holds-length}
use modem_modules.Chat.Line.Bytes.{stored}
use modem_modules.Chat.Line.Body.{Line, IsBody, high_of}

-- The parser is between the match and the delimiter, and the next byte fits.
module _ (c : Chat) (l : Line) (p : Parser) (start : ℕ) (done : List (List ℕ)) (field : List ℕ)
    (v : IsBody c l p start done field)
    (fits : p.receive_buf_len + 1 + (length l.text + 1) ≤ l.size) (b : ℕ) where
  abbrev next : Parser
  next = record ((stored c p b).parser) { parse_match = some l.found }

  abbrev kept : List ℕ
  kept = set p.receive_buf p.receive_buf_len b

  kept-Holds : Holds kept start (high_of l) p.argv (l.text ∷ done)
  kept-Holds =
      Holds-set p.receive_buf start (high_of l) p.argv (l.text ∷ done) p.receive_buf_len b
        (omega (arith, v.far)) (omega (arith, fits)) v.complete

  kept-there : get_elem? kept p.receive_buf_len ≡ some b
  kept-there =
      get_elem?-set_self p.receive_buf p.receive_buf_len b
        (omega (arith, v.whole, v.same_size, fits))

  -- A byte of a field.
  abbrev pub longer : Parser
  longer = record next { parse_arg_len = p.parse_arg_len + 1 }

  pub longer_step : is_in b l.found.separators ≡ false → parse_byte (stored c p b) b ≡ some longer
  unfolding parse_byte
  longer_step e =
      rw (v.same_match, e) (ap (λ o. some (record longer { parse_match = o })) v.same_match)

  pub longer-IsBody :
      b ≢ 0 → is_in b c.delimiter ≡ false → IsBody c l longer start done (field ++ (b ∷ []))
  longer-IsBody plain other = record {
    whole = omega (arith, v.whole, length-set p.receive_buf p.receive_buf_len b);
    same_size = v.same_size;
    same_slots = v.same_slots;
    far = omega (arith, v.far, length-append field (b ∷ []));
    arg_len = omega (arith, v.arg_len, length-append field (b ∷ []));
    same_match = refl;
    same_type = v.same_type;
    current =
        Spans-extend p.receive_buf start field p.receive_buf_len b v.current v.far
          (omega (arith, v.whole, v.same_size, fits));
    plain = All-append _ field (b ∷ []) v.plain (plain, tt);
    complete = kept-Holds;
    is_open = record {
      before = p.receive_buf_len;
      last = b;
      at = refl;
      there = kept-there;
      other = other;
    };
  }

  free_of : length done + 1 < l.slots → ltb (length p.argv) p.argv_size ≡ true
  free_of slots =
      let count = Holds-length p.receive_buf start (high_of l) p.argv (l.text ∷ done) v.complete in
      ground (arith, slots, count, v.same_slots)

  -- A separator that ends an empty field.
  abbrev pub skipped : Parser
  skipped = record next { argv = p.argv ++ (empty_text ∷ []); parse_arg_len = 0 }

  pub skipped_step :
      is_in b l.found.separators ≡ true
      → field ≡ []
      → length done + 1 < l.slots
      → parse_byte (stored c p b) b ≡ some skipped
  unfolding parse_byte end_argument add_argument
  skipped_step e empty slots =
      let nothing : (p.parse_arg_len == 0) ≡ true = ground (arith, v.arg_len, ap length empty) in
      rw (v.same_match, e, nothing, free_of slots)
        (ap (λ o. some (record skipped { parse_match = o })) v.same_match)

  pub skipped-IsBody :
      field ≡ []
      → is_in b c.delimiter ≡ false
      → IsBody c l skipped (p.receive_buf_len + 1) (done ++ (field ∷ [])) []
  skipped-IsBody empty other = record {
    whole = omega (arith, v.whole, length-set p.receive_buf p.receive_buf_len b);
    same_size = v.same_size;
    same_slots = v.same_slots;
    far = omega arith;
    arg_len = refl;
    same_match = refl;
    same_type = v.same_type;
    current = tt;
    plain = tt;
    complete =
        Holds-append kept (p.receive_buf_len + 1) (high_of l) p.argv (l.text ∷ done) empty_text
          field
          (Holds-grow kept start (high_of l) p.argv (l.text ∷ done) (p.receive_buf_len + 1)
            (omega (arith, v.far)) kept-Holds)
          empty;
    is_open = record {
      before = p.receive_buf_len;
      last = b;
      at = refl;
      there = kept-there;
      other = other;
    };
  }

  -- A separator that ends a field.
  abbrev pub ended : Parser
  ended = record next {
    receive_buf = set kept (p.receive_buf_len + 1 - 1) 0;
    argv = p.argv ++ (text_at (p.receive_buf_len + 1 - p.parse_arg_len - 1) ∷ []);
    parse_arg_len = 0;
  }

  pub ended_step :
      is_in b l.found.separators ≡ true
      → 0 < length field
      → length done + 1 < l.slots
      → parse_byte (stored c p b) b ≡ some ended
  unfolding parse_byte end_argument add_argument
  ended_step e some_field slots =
      let something : (p.parse_arg_len == 0) ≡ false = ground (arith, v.arg_len, some_field) in
      rw (v.same_match, e, something, free_of slots)
        (ap (λ o. some (record ended { parse_match = o })) v.same_match)

  pub ended-IsBody :
      is_in 0 c.delimiter ≡ false
      → IsBody c l ended (p.receive_buf_len + 1) (done ++ (field ∷ [])) []
  ended-IsBody other =
      let back : p.receive_buf_len + 1 - 1 ≡ p.receive_buf_len = omega arith in
      let at : p.receive_buf_len + 1 - p.parse_arg_len - 1 ≡ start =
        omega (arith, v.far, v.arg_len) in
      let long : p.receive_buf_len < length kept =
        omega (arith, v.whole, v.same_size, fits, length-set p.receive_buf p.receive_buf_len b) in
      let cut = set kept p.receive_buf_len 0 in
      let field_there : Spans cut start (field ++ (0 ∷ [])) =
        Spans-extend kept start field p.receive_buf_len 0
          (Spans-set p.receive_buf start field p.receive_buf_len b (inr (omega (arith, v.far)))
            v.current)
          v.far long in
      let others : Holds cut (p.receive_buf_len + 1) (high_of l) p.argv (l.text ∷ done) =
        Holds-grow cut start (high_of l) p.argv (l.text ∷ done) (p.receive_buf_len + 1)
          (omega (arith, v.far))
          (Holds-set kept start (high_of l) p.argv (l.text ∷ done) p.receive_buf_len 0
            (omega (arith, v.far)) (omega (arith, fits)) kept-Holds) in
      record {
        whole = omega (
          arith,
          v.whole,
          length-set p.receive_buf p.receive_buf_len b,
          length-set kept (p.receive_buf_len + 1 - 1) 0,
        );
        same_size = v.same_size;
        same_slots = v.same_slots;
        far = omega arith;
        arg_len = refl;
        same_match = refl;
        same_type = v.same_type;
        current = tt;
        plain = tt;
        complete =
            rw (back, at)
              (Holds-append cut (p.receive_buf_len + 1) (high_of l) p.argv (l.text ∷ done)
                (text_at start) field others (field_there, v.plain, inl (omega (arith, v.far))));
        is_open = record {
          before = p.receive_buf_len;
          last = 0;
          at = refl;
          there = rw back (get_elem?-set_self kept p.receive_buf_len 0 long);
          other = other;
        };
      }
