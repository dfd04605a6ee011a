-- ===== src/Chat/Line/Body.antt =====
-- The parser between the match of a line and its delimiter.
use modem_modules.Base.{ℕ, ◌+◌, ◌-◌, ◌≡◌, false, some, List, ◌∷◌, length, get_elem?}
use modem_modules.Chat.{Chat, Match, MatchType, Parser}
use modem_modules.Chat.Parse.{is_in}
use modem_modules.Chat.Line.Spans.{Spans}
use modem_modules.Chat.Line.Reads.{NoZero, Holds}

-- What a line is: its match `found` with the text that was received for it, and the sizes of the
-- receive buffer and of argv.
pub record Line : Type 0 where
  pub text : List ℕ
  pub found : Match
  pub found_type : MatchType
  pub size : ℕ
  pub slots : ℕ

-- Where the saved match stands.
abbrev pub high_of : Line → ℕ
high_of l = l.size - (length l.text + 1)

-- The last byte that was stored does not belong to the delimiter.
pub record IsOpen (c : Chat) (p : Parser) : Type 0 where
  pub before : ℕ
  pub last : ℕ
  pub at : p.receive_buf_len ≡ before + 1
  pub there : get_elem? p.receive_buf before ≡ some last
  pub other : is_in last c.delimiter ≡ false

-- The arguments `done` are complete, and `field` began at `start`.
pub record IsBody (c : Chat) (l : Line) (p : Parser) (start : ℕ) (done : List (List ℕ))
    (field : List ℕ) : Type 0 where
  pub whole : length p.receive_buf ≡ p.receive_buf_size
  pub same_size : p.receive_buf_size ≡ l.size
  pub same_slots : p.argv_size ≡ l.slots
  pub far : p.receive_buf_len ≡ start + length field
  pub arg_len : p.parse_arg_len ≡ length field
  pub same_match : p.parse_match ≡ some l.found
  pub same_type : p.parse_match_type ≡ l.found_type
  pub current : Spans p.receive_buf start field
  pub plain : NoZero field
  pub complete : Holds p.receive_buf start (high_of l) p.argv (l.text ∷ done)
  pub is_open : IsOpen c p
