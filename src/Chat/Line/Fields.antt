-- ===== src/Chat/Line/Fields.antt =====
-- The bytes of a line behind its match.
use modem_modules.Base.{
  ℕ, ◌+◌, ◌≤◌, ◌<◌, ◌≡◌, refl, ap, ◌∙◌, true, false, Bool-cases, inl, inr, some, List, [], ◌∷◌,
  ◌++◌, arith, All, length, length-append, append_assoc,
}
use modem_modules.Chat.{Chat, Parser}
use modem_modules.Chat.Parse.{is_in, parse_byte, with_parser, process_bytes}
use modem_modules.Chat.Line.{Plain, fields, last_field, count_in}
use modem_modules.Chat.Line.Reads.{Holds-length}
use modem_modules.Chat.Line.Bytes.{HasRoom, process_byte_plain, process_bytes-step, stored}
use modem_modules.Chat.Line.Body.{Line, IsBody, high_of}
use modem_modules.Chat.Line.Field.{
  longer, longer_step, longer-IsBody, skipped, skipped_step, skipped-IsBody, ended, ended_step,
  ended-IsBody,
}

-- The line goes on behind `bs` with a parser that has their fields.
pub record Passes (c : Chat) (l : Line) (p : Parser) (done : List (List ℕ)) (field bs more : List ℕ)
    : Type 0 where
  pub behind : Parser
  pub start : ℕ
  pub all_done : List (List ℕ)
  pub last : List ℕ
  pub goes :
      process_bytes (with_parser c p) (bs ++ more) ≡ process_bytes (with_parser c behind) more
  pub body : IsBody c l behind start all_done last
  pub split : all_done ++ last_field last ≡ done ++ fields l.found.separators field bs
  pub count : length all_done ≡ length done + count_in l.found.separators bs
  pub far : behind.receive_buf_len ≡ p.receive_buf_len + length bs

module _ (c : Chat) (l : Line) (some_delimiter : 0 < length c.delimiter)
    (no_zero : is_in 0 c.delimiter ≡ false) (more : List ℕ) where
  -- One step in front of others.
  Passes-then :
      (p p' : Parser) (done done' : List (List ℕ)) (field field' : List ℕ) (b : ℕ) (bs : List ℕ)
      → process_bytes (with_parser c p) (b ∷ (bs ++ more))
        ≡ process_bytes (with_parser c p') (bs ++ more)
      → done' ++ fields l.found.separators field' bs
        ≡ done ++ fields l.found.separators field (b ∷ bs)
      → length done' + count_in l.found.separators bs
        ≡ length done + count_in l.found.separators (b ∷ bs)
      → p'.receive_buf_len ≡ p.receive_buf_len + 1
      → Passes c l p' done' field' bs more
      → Passes c l p done field (b ∷ bs) more
  Passes-then p p' done done' field field' b bs step same count far w = record {
    behind = w.behind;
    start = w.start;
    all_done = w.all_done;
    last = w.last;
    goes = step ∙ w.goes;
    body = w.body;
    split = w.split ∙ same;
    count = w.count ∙ count;
    far = omega (arith, w.far, far);
  }

module _ (c : Chat) (l : Line) (some_delimiter : 0 < length c.delimiter)
    (no_zero : is_in 0 c.delimiter ≡ false) (more : List ℕ) (p : Parser) (start : ℕ)
    (done : List (List ℕ)) (field : List ℕ) (b : ℕ) (bs : List ℕ)
    (v : IsBody c l p start done field) (byte : Plain c b)
    (one : p.receive_buf_len + 1 + (length l.text + 1) ≤ l.size)
    (slots : length done + count_in l.found.separators (b ∷ bs) + 1 < l.slots) where
  -- The bytes behind `b` from any parser that has taken it.
  abbrev Onward : Type 0
  Onward =
      (p' : Parser) (start' : ℕ) (done' : List (List ℕ)) (field' : List ℕ)
      → IsBody c l p' start' done' field'
      → p'.receive_buf_len ≡ p.receive_buf_len + 1
      → length done' + count_in l.found.separators bs + 1 < l.slots
      → Passes c l p' done' field' bs more

  step :
      (p' : Parser)
      → parse_byte (stored c p b) b ≡ some p'
      → process_bytes (with_parser c p) (b ∷ (bs ++ more))
        ≡ process_bytes (with_parser c p') (bs ++ more)
  step p' e =
      let count = Holds-length p.receive_buf start (high_of l) p.argv (l.text ∷ done) v.complete in
      let room : HasRoom p = record {
        whole = v.whole;
        room = omega (arith, one, v.same_size);
        unfilled = omega (arith, count, slots, v.same_slots);
      } in
      process_bytes-step (with_parser c p) (with_parser c p') b (bs ++ more) byte.not_filtered
        (process_byte_plain c p room some_delimiter b p' byte.not_delimiter e)

  text_byte : is_in b l.found.separators ≡ false → Onward → Passes c l p done field (b ∷ bs) more
  text_byte e on =
      let counted : count_in l.found.separators (b ∷ bs) ≡ count_in l.found.separators bs =
        rw e refl in
      let p' = longer c l p start done field v one b in
      Passes-then c l some_delimiter no_zero more p p' done done field (field ++ (b ∷ [])) b bs
        (step p' (longer_step c l p start done field v one b e)) (rw e refl)
        (omega (arith, counted)) refl
        (on p' start done (field ++ (b ∷ []))
          (longer-IsBody c l p start done field v one b byte.not_zero byte.not_delimiter) refl
          (omega (arith, slots, counted)))

  -- A parser that has ended the field.
  field_ends :
      is_in b l.found.separators ≡ true
      → (p' : Parser) → parse_byte (stored c p b) b ≡ some p'
      → p'.receive_buf_len ≡ p.receive_buf_len + 1
      → IsBody c l p' (p.receive_buf_len + 1) (done ++ (field ∷ [])) []
      → Onward
      → Passes c l p done field (b ∷ bs) more
  field_ends e p' taken far w on =
      let counted : count_in l.found.separators (b ∷ bs) ≡ count_in l.found.separators bs + 1 =
        rw e refl in
      let longer_done = length-append done (field ∷ []) in
      Passes-then c l some_delimiter no_zero more p p' done (done ++ (field ∷ [])) field [] b bs
        (step p' taken) (rw e (append_assoc done (field ∷ []) (fields l.found.separators [] bs)))
        (omega (arith, counted, longer_done)) far
        (on p' (p.receive_buf_len + 1) (done ++ (field ∷ [])) [] w far
          (omega (arith, slots, counted, longer_done)))

  separator :
      is_in b l.found.separators ≡ true
      → (f : List ℕ) → field ≡ f
      → Onward
      → Passes c l p done field (b ∷ bs) more
  separator e [] same on =
      field_ends e (skipped c l p start done field v one b)
        (skipped_step c l p start done field v one b e same (omega (arith, slots))) refl
        (skipped-IsBody c l p start done field v one b same byte.not_delimiter) on
  separator e (x ∷ xs) same on =
      field_ends e (ended c l p start done field v one b)
        (ended_step c l p start done field v one b e (omega (arith, ap length same))
          (omega (arith, slots)))
        refl (ended-IsBody c l p start done field v one b no_zero) on

  take_byte : Onward → Passes c l p done field (b ∷ bs) more
  take_byte on = elim (Bool-cases (is_in b l.found.separators)) [
    | inl e ↦ separator e field refl on
    | inr e ↦ text_byte e on
  ]

module _ (c : Chat) (l : Line) (some_delimiter : 0 < length c.delimiter)
    (no_zero : is_in 0 c.delimiter ≡ false) (more : List ℕ) where
  pub bodies :
      (p : Parser) (start : ℕ) (done : List (List ℕ)) (field bs : List ℕ)
      → IsBody c l p start done field
      → All (Plain c) bs
      → p.receive_buf_len + length bs + (length l.text + 1) ≤ l.size
      → length done + count_in l.found.separators bs + 1 < l.slots
      → Passes c l p done field bs more
  bodies p start done field [] v all fits slots = record {
    behind = p;
    start = start;
    all_done = done;
    last = field;
    goes = refl;
    body = v;
    split = refl;
    count = omega arith;
    far = omega arith;
  }
  bodies p start done field (b ∷ bs) v all fits slots =
      take_byte c l some_delimiter no_zero more p start done field b bs v all.0
        (omega (arith, fits)) slots
        (λ p' start' done' field' w far free.
          bodies p' start' done' field' bs w all.1 (omega (arith, fits, far)) free)
