-- ===== src/Chat/Line.antt =====
-- A line as the modem sends it and as modem_chat_process_byte takes it apart, described without the
-- receive buffer.
pub mod Spans
pub mod Reads
pub mod Bytes
pub mod Body
pub mod Head
pub mod Field
pub mod Fields
pub mod Tail
pub mod End
pub mod Whole
use modem_modules.Base.{
  ℕ, ◌+◌, ◌≡◌, ◌≢◌, false, Option, none, some, List, [], ◌∷◌, ◌++◌, ◌==◌, if◌then◌else◌, length,
}
use modem_modules.Chat.{Chat, Match, MatchType, response_match, abort_match, unsol_match}
use modem_modules.Chat.Parse.{is_in, find_in, or_else, typed}

-- The match of the bytes of a line that came so far.
abbrev pub find_text : Chat → List ℕ → Option (Match × MatchType)
find_text c bs = or_else (typed response_match (find_in c.response_matches bs)) (
    or_else (typed abort_match (find_in c.abort_matches bs))
      (typed unsol_match (find_in c.unsol_matches bs)))

-- `m` is found at the end of `suf`, behind `pre`, and no match before.
abbrev pub First : Chat → Match → MatchType → List ℕ → List ℕ → Type 0
First c m t pre [] = ⊥
First c m t pre (b ∷ []) = find_text c (pre ++ (b ∷ [])) ≡ some (m, t)
First c m t pre (b ∷ b' ∷ bs) =
    (find_text c (pre ++ (b ∷ [])) ≡ none) × First c m t (pre ++ (b ∷ [])) (b' ∷ bs)

-- A byte of a text, which neither ends a string nor is one of the delimiter or the filter.
pub record Plain (c : Chat) (b : ℕ) : Type 0 where
  pub not_zero : b ≢ 0
  pub not_delimiter : is_in b c.delimiter ≡ false
  pub not_filtered : is_in b c.filter ≡ false

-- A field at the end of a line is an argument unless it is empty.
abbrev pub last_field : List ℕ → List (List ℕ)
last_field [] = []
last_field (b ∷ bs) = (b ∷ bs) ∷ []

-- The fields of a line that separators end, and the last one. `field` is what came of the first.
abbrev pub fields : List ℕ → List ℕ → List ℕ → List (List ℕ)
fields separators field [] = last_field field
fields separators field (b ∷ bs) =
    let next = fields separators [] bs in
    let longer = fields separators (field ++ (b ∷ [])) bs in
    if is_in b separators then field ∷ next else longer

abbrev pub count_in : List ℕ → List ℕ → ℕ
count_in separators [] = 0
count_in separators (b ∷ bs) =
    let rest = count_in separators bs in if is_in b separators then rest + 1 else rest
