-- ===== src/Chat/Line/Head.antt =====
-- The bytes of a line up to its match.
use modem_modules.Base.{
  ℕ, suc, ◌+◌, ◌-◌, ◌≤◌, ◌<◌, ◌≡◌, refl, sym, ap, ◌∙◌, true, false, inr, none, some, List, [], ◌∷◌,
  ◌++◌, arith, ltb, All, length, take, set, length-append, length-set, take-set, get_elem?-set_self,
  get_elem?-set_ne, append_assoc,
}
use mathlib.Core.Path.{subst}
use modem_modules.Chat.{Chat, Parser, text_at}
use modem_modules.Chat.Parse.{
  is_in, find_match, parse_byte, parse_save_match, add_argument, with_parser, copy_to,
  process_bytes,
}
use modem_modules.Chat.Parse.Within.{length-copy_to}
use modem_modules.Chat.Line.{find_text, First, Plain}
use modem_modules.Chat.Line.Spans.{Spans, Spans-extend, copy_to-Spans, get_elem?-copy_to}
use modem_modules.Chat.Line.Reads.{NoZero, Holds}
use modem_modules.Chat.Line.Bytes.{HasRoom, process_byte_plain, process_bytes-step, stored}
use modem_modules.Chat.Line.Body.{Line, IsBody, high_of}

-- The bytes `pre` of the line were received, and no match was found.
pub record IsHead (l : Line) (p : Parser) (pre : List ℕ) : Type 0 where
  pub whole : length p.receive_buf ≡ p.receive_buf_size
  pub same_size : p.receive_buf_size ≡ l.size
  pub same_slots : p.argv_size ≡ l.slots
  pub far : p.receive_buf_len ≡ length pre
  pub bytes : take p.receive_buf_len p.receive_buf ≡ pre
  pub fresh : p.parse_match ≡ none
  pub empty : p.argv ≡ []

module _ (c : Chat) (l : Line) (p : Parser) (pre : List ℕ) (v : IsHead l p pre) (b : ℕ) where
  abbrev next : Parser
  next = (stored c p b).parser

  length-next : p.receive_buf_len < l.size → length next.receive_buf ≡ next.receive_buf_size
  length-next lt = omega (arith, v.whole, length-set p.receive_buf p.receive_buf_len b)

  bytes_then :
      p.receive_buf_len < l.size → take next.receive_buf_len next.receive_buf ≡ pre ++ (b ∷ [])
  bytes_then lt =
      let e : p.receive_buf_len + 1 ≡ suc p.receive_buf_len = omega arith in
      rw e (
        take-set p.receive_buf p.receive_buf_len b (omega (arith, v.whole, v.same_size, lt))
        ∙ ap (λ xs. xs ++ (b ∷ [])) v.bytes)

  find_match_then :
      p.receive_buf_len < l.size → find_match (stored c p b) ≡ find_text c (pre ++ (b ∷ []))
  unfolding find_match
  find_match_then lt = ap (λ xs. find_text c xs) (bytes_then lt)

  -- A byte before the match.
  early :
      p.receive_buf_len < l.size
      → find_text c (pre ++ (b ∷ [])) ≡ none
      → (parse_byte (stored c p b) b ≡ some next) × IsHead l next (pre ++ (b ∷ []))
  unfolding parse_byte
  early lt e = (
    rw (v.fresh, find_match_then lt, e) (ap (λ o. some (record next { parse_match = o })) v.fresh),
    record {
      whole = length-next lt;
      same_size = v.same_size;
      same_slots = v.same_slots;
      far = omega (arith, v.far, length-append pre (b ∷ []));
      bytes = bytes_then lt;
      fresh = v.fresh;
      empty = v.empty;
    },
  )

  -- Where the match is saved, and what is behind it then.
  abbrev from : ℕ
  from = p.receive_buf_size - (p.receive_buf_len + 1 + 1)

  abbrev copied : List ℕ
  copied = copy_to from (take next.receive_buf_len next.receive_buf) next.receive_buf

  abbrev saved : Parser
  saved = record next {
    parse_match = some l.found;
    parse_match_type = l.found_type;
    parse_match_len = p.receive_buf_len + 1 + 1;
    receive_buf = set copied (p.receive_buf_size - 1) 0;
    argv = p.argv ++ (text_at from ∷ []);
    parse_arg_len = 0;
  }

  save :
      p.receive_buf_len + 1 + (p.receive_buf_len + 1 + 1) ≤ l.size
      → 0 < l.slots
      → find_text c (pre ++ (b ∷ [])) ≡ some (l.found, l.found_type)
      → parse_byte (stored c p b) b ≡ some saved
  unfolding parse_byte parse_save_match add_argument
  save fits slots e =
      let short : ltb p.receive_buf_size (p.receive_buf_len + 1 + (p.receive_buf_len + 1 + 1))
          ≡ false =
        ground (arith, fits, v.same_size) in
      let free : ltb (length p.argv) p.argv_size ≡ true =
        rw (v.empty) (ground (arith, slots, v.same_slots)) in
      rw (v.fresh, find_match_then (omega (arith, fits)), e, short, free) refl

  saved-IsBody :
      p.receive_buf_len + 1 + (p.receive_buf_len + 1 + 1) ≤ l.size
      → l.text ≡ pre ++ (b ∷ [])
      → NoZero l.text
      → is_in b c.delimiter ≡ false
      → IsBody c l saved (p.receive_buf_len + 1) [] []
  saved-IsBody fits text plain other =
      let size = v.same_size in
      let long : length next.receive_buf ≡ l.size = length-next (omega (arith, fits)) ∙ size in
      let same : take next.receive_buf_len next.receive_buf ≡ l.text =
        bytes_then (omega (arith, fits)) ∙ sym text in
      let count : length l.text ≡ p.receive_buf_len + 1 =
        ap length text ∙ omega (arith, v.far, length-append pre (b ∷ [])) in
      let copy : Spans copied from l.text =
        subst (λ xs. Spans (copy_to from xs next.receive_buf) from l.text) (sym same)
          (copy_to-Spans from l.text next.receive_buf (omega (arith, long, size))) in
      let length_copied : length copied ≡ l.size =
        length-copy_to from (take next.receive_buf_len next.receive_buf) next.receive_buf
          (omega (arith, ap length same, count, long, size, fits))
        ∙ long in
      record {
        whole = omega (arith, length_copied, size, length-set copied (p.receive_buf_size - 1) 0);
        same_size = size;
        same_slots = v.same_slots;
        far = omega arith;
        arg_len = refl;
        same_match = refl;
        same_type = refl;
        current = tt;
        plain = tt;
        complete =
            subst
              (λ as'.
                Holds saved.receive_buf (p.receive_buf_len + 1) (high_of l)
                  (as' ++ (text_at from ∷ [])) (l.text ∷ []))
              (sym v.empty)
              (
                (
                  Spans-extend copied from l.text (p.receive_buf_size - 1) 0 copy
                      (omega (arith, count, size, fits)) (omega (arith, length_copied, size, fits)),
                  plain,
                  inr (omega (arith, count, size)),
                ),
                tt,
              );
        is_open = record {
          before = p.receive_buf_len;
          last = b;
          at = refl;
          there =
              get_elem?-set_ne copied (p.receive_buf_size - 1) p.receive_buf_len 0
                (λ e. omega (arith, e, size, fits))
              ∙ (get_elem?-copy_to from (take next.receive_buf_len next.receive_buf)
                    next.receive_buf p.receive_buf_len (omega (arith, long, size))
                    (omega (arith, size, fits))
                  ∙ get_elem?-set_self p.receive_buf p.receive_buf_len b
                      (omega (arith, v.whole, size, fits)));
          other = other;
        };
      }

-- The line goes on with a parser that has found the match.
abbrev pub Begins : Chat → Line → Parser → List ℕ → List ℕ → Type 0
Begins c l p bs more =
    (p' : Parser) × (process_bytes (with_parser c p) (bs ++ more)
      ≡ process_bytes (with_parser c p') more)
    × IsBody c l p' (length l.text) [] []

module _ (c : Chat) (l : Line) (some_delimiter : 0 < length c.delimiter)
    (fits : length l.text + (length l.text + 1) ≤ l.size) (slots : 0 < l.slots)
    (plain : NoZero l.text) (more : List ℕ) where
  room_of :
      (p : Parser) (pre suf : List ℕ)
      → IsHead l p pre
      → l.text ≡ pre ++ suf
      → 0 < length suf
      → HasRoom p
  room_of p pre suf v text some_suf = record {
    whole = v.whole;
    room = omega (arith, v.far, ap length text, length-append pre suf, fits, v.same_size);
    unfilled = omega (arith, ap length v.empty, slots, v.same_slots);
  }

  pub heads :
      (p : Parser) (pre suf : List ℕ)
      → IsHead l p pre
      → l.text ≡ pre ++ suf
      → All (Plain c) suf
      → First c l.found l.found_type pre suf
      → Begins c l p suf more
  heads p pre [] v text all first = absurd first
  heads p pre (b ∷ []) v text all first =
      let count : length l.text ≡ p.receive_buf_len + 1 =
        omega (arith, ap length text, v.far, length-append pre (b ∷ [])) in
      let taken =
        process_byte_plain c p (room_of p pre (b ∷ []) v text (omega arith)) some_delimiter b
          (saved c l p pre v b) all.0.not_delimiter
          (save c l p pre v b (omega (arith, count, fits)) slots first) in
      (
        saved c l p pre v b,
        process_bytes-step (with_parser c p) (with_parser c (saved c l p pre v b)) b more
            all.0.not_filtered taken,
        subst (λ n. IsBody c l (saved c l p pre v b) n [] []) (sym count)
            (saved-IsBody c l p pre v b (omega (arith, count, fits)) text plain
              all.0.not_delimiter),
      )
  heads p pre (b ∷ b' ∷ bs) v text all first =
      let count = ap length text ∙ length-append pre (b ∷ b' ∷ bs) in
      let (step, w) = early c l p pre v b (omega (arith, count, v.far, fits)) first.0 in
      let taken =
        process_byte_plain c p (room_of p pre (b ∷ b' ∷ bs) v text (omega arith)) some_delimiter b
          (next c l p pre v b) all.0.not_delimiter step in
      let (p', e, body) =
        heads (next c l p pre v b) (pre ++ (b ∷ [])) (b' ∷ bs) w
          (text ∙ sym (append_assoc pre (b ∷ []) (b' ∷ bs))) all.1 first.1 in
      (
        p',
        process_bytes-step (with_parser c p) (with_parser c (next c l p pre v b)) b
              (b' ∷ bs ++ more) all.0.not_filtered taken
            ∙ e,
        body,
      )
