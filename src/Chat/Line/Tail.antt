-- ===== src/Chat/Line/Tail.antt =====
-- One byte of the delimiter of a line.
use modem_modules.Base.{
  ℕ, ◌+◌, ◌-◌, ◌≤◌, ◌<◌, ◌≡◌, sym, ap, ◌∙◌, true, false, inr, some, List, [], ◌∷◌, ◌++◌, arith, ltb,
  length, get_elem?, length-append, length-set, get_elem?-set_ne,
}
use mathlib.Core.Path.{subst}
use modem_modules.Chat.{Chat, Parser}
use modem_modules.Chat.Parse.{is_in, end_del_complete, with_parser, process_byte}
use modem_modules.Chat.Line.Spans.{Spans, Spans-set, Spans-extend, Spans-take}
use modem_modules.Chat.Line.Reads.{NoZero, Holds, Holds-set, Holds-length}
use modem_modules.Chat.Line.Bytes.{
  HasRoom, is_equal_self, end_del_complete-false, process_byte_delimiter, stored,
}
use modem_modules.Chat.Line.Body.{Line, IsBody, high_of}

-- The bytes `pre` of the delimiter stand behind the line, which has `n` bytes.
pub record IsTail (c : Chat) (l : Line) (p : Parser) (start n : ℕ) (done : List (List ℕ))
    (field pre : List ℕ) : Type 0 where
  pub whole : length p.receive_buf ≡ p.receive_buf_size
  pub same_size : p.receive_buf_size ≡ l.size
  pub same_slots : p.argv_size ≡ l.slots
  pub far : p.receive_buf_len ≡ n + length pre
  pub ends : n ≡ start + length field
  pub arg_len : p.parse_arg_len ≡ length field
  pub same_match : p.parse_match ≡ some l.found
  pub same_type : p.parse_match_type ≡ l.found_type
  pub current : Spans p.receive_buf start field
  pub plain : NoZero field
  pub complete : Holds p.receive_buf start (high_of l) p.argv (l.text ∷ done)
  pub before : ℕ
  pub last : ℕ
  pub at : n ≡ before + 1
  pub there : get_elem? p.receive_buf before ≡ some last
  pub other : is_in last c.delimiter ≡ false
  pub tail : Spans p.receive_buf n pre

pub body-IsTail :
    (c : Chat) (l : Line) (p : Parser) (start : ℕ) (done : List (List ℕ)) (field : List ℕ)
    → IsBody c l p start done field
    → IsTail c l p start p.receive_buf_len done field []
body-IsTail c l p start done field v = record {
  whole = v.whole;
  same_size = v.same_size;
  same_slots = v.same_slots;
  far = omega arith;
  ends = v.far;
  arg_len = v.arg_len;
  same_match = v.same_match;
  same_type = v.same_type;
  current = v.current;
  plain = v.plain;
  complete = v.complete;
  before = v.is_open.before;
  last = v.is_open.last;
  at = v.is_open.at;
  there = v.is_open.there;
  other = v.is_open.other;
  tail = tt;
}

module _ (c : Chat) (l : Line) (p : Parser) (start n : ℕ) (done : List (List ℕ))
    (field pre : List ℕ) (v : IsTail c l p start n done field pre)
    (fits : p.receive_buf_len + 1 + (length l.text + 1) ≤ l.size)
    (slots : length done + 1 < l.slots) (b : ℕ) where
  abbrev pub next : Parser
  next = (stored c p b).parser

  next-there : get_elem? next.receive_buf v.before ≡ some v.last
  next-there =
      get_elem?-set_ne p.receive_buf p.receive_buf_len v.before b
        (λ e. omega (arith, e, v.at, v.far))
      ∙ v.there

  pub next-IsTail : IsTail c l next start n done field (pre ++ (b ∷ []))
  next-IsTail = record {
    whole = omega (arith, v.whole, length-set p.receive_buf p.receive_buf_len b);
    same_size = v.same_size;
    same_slots = v.same_slots;
    far = omega (arith, v.far, length-append pre (b ∷ []));
    ends = v.ends;
    arg_len = v.arg_len;
    same_match = v.same_match;
    same_type = v.same_type;
    current =
        Spans-set p.receive_buf start field p.receive_buf_len b (inr (omega (arith, v.far, v.ends)))
          v.current;
    plain = v.plain;
    complete =
        Holds-set p.receive_buf start (high_of l) p.argv (l.text ∷ done) p.receive_buf_len b
          (omega (arith, v.far, v.ends)) (omega (arith, fits)) v.complete;
    before = v.before;
    last = v.last;
    at = v.at;
    there = next-there;
    other = v.other;
    tail =
        Spans-extend p.receive_buf n pre p.receive_buf_len b v.tail v.far
          (omega (arith, v.whole, v.same_size, fits));
  }

  pub room : HasRoom p
  room =
      let count = Holds-length p.receive_buf start (high_of l) p.argv (l.text ∷ done) v.complete in
      record {
        whole = v.whole;
        room = omega (arith, fits, v.same_size);
        unfilled = omega (arith, count, slots, v.same_slots);
      }

  -- A byte of the delimiter before the last.
  pub inner :
      length pre + 1 < length c.delimiter
      → is_in b c.delimiter ≡ true
      → process_byte (with_parser c p) b ≡ some (with_parser c next)
  inner more own = process_byte_delimiter c p room (omega (arith, more)) b own (
      end_del_complete-false (stored c p b) v.before v.last (omega (arith, v.far, v.at, more))
        (omega (arith, v.far, v.at)) next-there v.other)

  -- The last byte of the delimiter.
  pub outer_complete : pre ++ (b ∷ []) ≡ c.delimiter → end_del_complete (stored c p b) ≡ true
  unfolding end_del_complete
  outer_complete all =
      let long : length pre + 1 ≡ length c.delimiter =
        sym (length-append pre (b ∷ [])) ∙ ap length all in
      let from : p.receive_buf_len + 1 - length c.delimiter ≡ n = omega (arith, v.far, long) in
      let enough : ltb (p.receive_buf_len + 1) (length c.delimiter) ≡ false =
        ground (arith, v.far, long) in
      let tail : Spans next.receive_buf n c.delimiter =
        subst (λ xs. Spans next.receive_buf n xs) all next-IsTail.tail in
      rw (enough, from, Spans-take next.receive_buf n c.delimiter tail) (is_equal_self c.delimiter)
