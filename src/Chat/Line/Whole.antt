-- ===== src/Chat/Line/Whole.antt =====
-- A whole line, from the first byte of its match to the last of its delimiter.
use modem_modules.Base.{
  ℕ, ◌+◌, ◌≤◌, ◌<◌, ◌≡◌, refl, sym, ap, ◌∙◌, false, none, List, [], ◌∷◌, ◌++◌, arith, All, length,
}
use modem_modules.Chat.{Chat}
use modem_modules.Chat.Parse.{is_in, process_bytes}
use modem_modules.Chat.Line.{First, Plain, fields, count_in}
use modem_modules.Chat.Line.Reads.{NoZero}
use modem_modules.Chat.Line.Body.{Line}
use modem_modules.Chat.Line.Head.{IsHead, heads}
use modem_modules.Chat.Line.Fields.{bodies}
use modem_modules.Chat.Line.End.{Received, tails}
use modem_modules.Chat.Line.Tail.{body-IsTail}

-- A chat that waits for a line, in which the text of `l` is the first that one of its matches accepts.
pub record IsReady (c : Chat) (l : Line) : Type 0 where
  pub whole : length c.receive_buf ≡ l.size
  pub same_size : c.receive_buf_size ≡ l.size
  pub same_slots : c.argv_size ≡ l.slots
  pub fresh_buf : c.receive_buf_len ≡ 0
  pub fresh_match : c.parse_match ≡ none
  pub fresh_argv : c.argv ≡ []
  pub first : First c l.found l.found_type [] l.text
  pub plain : All (Plain c) l.text
  pub some_delimiter : 0 < length c.delimiter
  pub no_zero : is_in 0 c.delimiter ≡ false
  pub not_filtered : All (λ b. is_in b c.filter ≡ false) c.delimiter

Plain-NoZero : (c : Chat) (xs : List ℕ) → All (Plain c) xs → NoZero xs
Plain-NoZero c [] v = tt
Plain-NoZero c (x ∷ xs) v = (v.0.not_zero, Plain-NoZero c xs v.1)

-- Let a chat wait for a line, with an empty receive buffer of its size, no match and no argument, and
-- let it get the text of a match, bytes behind it, and the delimiter. No byte of the text or behind it
-- is 0, in the delimiter or filtered; the delimiter has a byte, none that is 0 and none that is
-- filtered; and no match of the chat accepts a shorter part of the text, nor one before this match the
-- text. If the line and the saved match fit the receive buffer, and the separators and the match leave
-- an entry of argv free, then the line is handed on as one of this match, and argv reads the text of
-- the match and the fields that the separators of the match cut out of the bytes behind it. Of a line
-- with a stray byte of the delimiter it says nothing.
pub process_bytes-Received :
    (c : Chat) (l : Line) (bs : List ℕ)
    → IsReady c l
    → All (Plain c) bs
    → length l.text + length bs + length c.delimiter + (length l.text + 1) ≤ l.size
    → count_in l.found.separators bs + 1 < l.slots
    → Received c l
        (process_bytes c (l.text ++ (bs ++ c.delimiter)))
        (l.text ∷ fields l.found.separators [] bs)
process_bytes-Received c l bs v plain fits slots =
    let head : IsHead l c.parser [] = record {
      whole = v.whole ∙ sym v.same_size;
      same_size = v.same_size;
      same_slots = v.same_slots;
      far = v.fresh_buf;
      bytes = rw (v.fresh_buf) refl;
      fresh = v.fresh_match;
      empty = v.fresh_argv;
    } in
    let (p, starts, body) =
      heads c l v.some_delimiter (omega (arith, fits)) (omega (arith, slots))
        (Plain-NoZero c l.text v.plain) (bs ++ c.delimiter) c.parser [] l.text head refl v.plain
        v.first in
    let far : p.receive_buf_len ≡ length l.text = body.far ∙ omega arith in
    let passed =
      bodies c l v.some_delimiter v.no_zero c.delimiter p (length l.text) [] [] bs body plain
        (omega (arith, far, fits)) (omega (arith, slots)) in
    let (p', ends, reads) =
      tails c l passed.start passed.behind.receive_buf_len passed.all_done passed.last
        (omega (arith, passed.far, far, fits)) (omega (arith, passed.count, slots)) passed.behind []
        c.delimiter
        (body-IsTail c l passed.behind passed.start passed.all_done passed.last passed.body) refl
        v.some_delimiter v.not_filtered in
    (p', starts ∙ (passed.goes ∙ ends), reads ∙ ap (λ xs. l.text ∷ xs) passed.split)
