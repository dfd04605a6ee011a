-- ===== src/Chat/Parse.antt =====
-- The line parser of modem_chat.c. `none` is an access outside the receive buffer or argv, a memcpy
-- of overlapping bytes, or an access through `chat->script` when that is NULL.
pub mod Within
use modem_modules.Base.{
  ℕ, ◌+◌, ◌-◌, Bool, true, false, not, ◌&&◌, ◌||◌, Option, none, some, List, [], ◌∷◌, ◌++◌, ◌==◌,
  ltb, if◌then◌else◌, ◌>>=◌, length, take, drop, set,
}
use modem_modules.Chat.{
  Chat, Parser, Match, MatchType, Argument, ScriptResult, call, empty_text, text_at, match_callback,
  response_match, abort_match, unsol_match, schedule, process_work,
}
use modem_modules.Chat.Engine.{script_stop, script_next}

-- Whether a byte is among others.
abbrev pub is_in : ℕ → List ℕ → Bool
is_in b [] = false
is_in b (x ∷ xs) = let rest = is_in b xs in (x == b) || rest

-- memcmp of as many bytes.
abbrev pub is_equal : List ℕ → List ℕ → Bool
is_equal [] [] = true
is_equal [] (y ∷ ys) = false
is_equal (x ∷ xs) [] = false
is_equal (x ∷ xs) (y ∷ ys) = let rest = is_equal xs ys in (x == y) && rest

-- A write of bytes from an index on.
abbrev pub copy_to : ℕ → List ℕ → List ℕ → List ℕ
copy_to i xs buf = take i buf ++ (xs ++ drop (i + length xs) buf)

-- `modem_chat_parse_reset`
abbrev pub parse_reset : Parser → Parser
parse_reset p = record p { receive_buf_len = 0; argv = []; parse_match = none }

-- `chat->argv[chat->argc] = …; chat->argc++;`
unfoldable pub add_argument : Parser → Argument → Option Parser
add_argument p a =
    if ltb (length p.argv) p.argv_size then some (record p { argv = p.argv ++ (a ∷ []) }) else none

-- `modem_chat_parse_save_match`
unfoldable pub parse_save_match : Parser → Option Parser
unfolding add_argument
parse_save_match p =
    let len = p.receive_buf_len in
    let start = p.receive_buf_size - (len + 1) in
    if ltb p.receive_buf_size (len + (len + 1))
    then none
    else add_argument
        (record p {
          parse_match_len = len + 1;
          receive_buf =
              set (copy_to start (take len p.receive_buf) p.receive_buf) (p.receive_buf_size - 1) 0;
        })
        (text_at start)

-- `modem_chat_match_matches_received`, where there are as many bytes as the match has
abbrev pub matches_received : Bool → List ℕ → List ℕ → Bool
matches_received wildcards [] bs = true
matches_received wildcards (m ∷ ms) [] = false
matches_received wildcards (m ∷ ms) (b ∷ bs) =
    let rest = matches_received wildcards ms bs in ((m == b) || (wildcards && (m == b'?'))) && rest

-- The loop over the matches of one type.
abbrev pub find_in : List Match → List ℕ → Option Match
find_in [] bs = none
find_in (m ∷ ms) bs =
    let rest = find_in ms bs in
    if (length m.match == length bs) && matches_received m.wildcards m.match bs
    then some m
    else rest

abbrev pub or_else {ℓ} : {A : Type ℓ} → Option A → Option A → Option A
or_else none o = o
or_else (some a) o = some a

abbrev pub typed : MatchType → Option Match → Option (Match × MatchType)
typed t none = none
typed t (some m) = some (m, t)

-- `modem_chat_parse_find_match`: response, abort and unsolicited matches in this order
unfoldable pub find_match : Chat → Option (Match × MatchType)
find_match c =
    let bs = take c.receive_buf_len c.receive_buf in
    or_else (typed response_match (find_in c.response_matches bs)) (
      or_else (typed abort_match (find_in c.abort_matches bs))
        (typed unsol_match (find_in c.unsol_matches bs)))

abbrev pub find_empty : List Match → Option Match
find_empty [] = none
find_empty (m ∷ ms) = let rest = find_empty ms in if length m.match == 0 then some m else rest

-- `modem_chat_parse_find_catch_all_match`
unfoldable pub find_catch_all_match : Chat → Option (Match × MatchType)
find_catch_all_match c = or_else (typed response_match (find_empty c.response_matches)) (
    or_else (typed abort_match (find_empty c.abort_matches))
      (typed unsol_match (find_empty c.unsol_matches)))

-- `modem_chat_parse_end_del_complete`
unfoldable pub end_del_complete : Chat → Bool
end_del_complete c =
    not (ltb c.receive_buf_len (length c.delimiter))
    && is_equal
        (take (length c.delimiter) (drop (c.receive_buf_len - length c.delimiter) c.receive_buf))
        c.delimiter

-- The text that a reader of a C string finds: up to a zero, or to the end of the buffer.
abbrev pub text_of : List ℕ → List ℕ
text_of [] = []
text_of (b ∷ bs) = let rest = text_of bs in if b == 0 then [] else b ∷ rest

abbrev pub read_argument : List ℕ → Argument → List ℕ
read_argument buf empty_text = []
read_argument buf (text_at i) = text_of (drop i buf)

abbrev pub read_arguments : List ℕ → List Argument → List (List ℕ)
read_arguments buf [] = []
read_arguments buf (a ∷ as') = read_argument buf a ∷ read_arguments buf as'

-- The callback of a match, if it has one.
abbrev pub call_match : Chat → Match → Chat
call_match c m =
    if m.callback then call (match_callback m (read_arguments c.receive_buf c.argv)) c else c

-- `modem_chat_on_command_received` with its three cases
unfoldable pub on_command_received : Chat → Match → MatchType → Option Chat
unfolding script_stop script_next
on_command_received c m unsol_match = some (call_match c m)
on_command_received c m abort_match = script_stop (call_match c m) ScriptResult.abort
on_command_received c m response_match = script_next (call_match c m) false

-- `chat->receive_buf[…] = '\0'` at the start of the delimiter
abbrev pub end_text : Chat → List ℕ
end_text c = set c.receive_buf (c.receive_buf_len - length c.delimiter) 0

-- `modem_chat_on_unknown_command_received`
unfoldable pub on_unknown_command_received : Chat → Option Chat
unfolding find_catch_all_match on_command_received
on_unknown_command_received c = elim (find_catch_all_match c) [
  | none ↦ some c
  | some (m, t) ↦
      if ltb c.argv_size 2
      then none
      else on_command_received
          (record c {
            parser = record (c.parser) {
              receive_buf = end_text c;
              argv = empty_text ∷ text_at 0 ∷ [];
              parse_match = some m;
              parse_match_type = t;
            };
          })
          m t
]

-- An argument that stands between the last separator and the delimiter.
unfoldable pub trailing_argument : Chat → Option Parser
unfolding add_argument
trailing_argument c =
    if ltb 0 c.parse_arg_len
    then add_argument (record (c.parser) { receive_buf = end_text c })
        (text_at (c.receive_buf_len - length c.delimiter - c.parse_arg_len))
    else some c.parser

-- The delimiter is complete.
unfoldable pub complete_line : Chat → Option Chat
unfolding on_unknown_command_received trailing_argument on_command_received
complete_line c = if c.receive_buf_len == length c.delimiter then some c else elim c.parse_match [
  | none ↦ on_unknown_command_received c
  | some m ↦ trailing_argument c >>= λ p.
      on_command_received (record c { parser = p }) m c.parse_match_type
]

-- A separator ends an argument, which is a text of its own from then on.
unfoldable pub end_argument : Parser → Option Parser
unfolding add_argument
end_argument p =
    (if p.parse_arg_len == 0
      then add_argument p empty_text
      else add_argument (record p { receive_buf = set p.receive_buf (p.receive_buf_len - 1) 0 })
          (text_at (p.receive_buf_len - p.parse_arg_len - 1)))
    >>= λ p'. some (record p' { parse_arg_len = 0 })

-- A byte of the line, which `b` is, behind the stores and the tests for the delimiter.
unfoldable pub parse_byte : Chat → ℕ → Option Parser
unfolding find_match parse_save_match end_argument
parse_byte c b = elim c.parse_match [
  | none ↦ elim (find_match c) [
    | none ↦ some c.parser
    | some (m, t) ↦
        parse_save_match (record (c.parser) { parse_match = some m; parse_match_type = t }) >>= λ p.
        some (record p { parse_arg_len = 0 })
  ]
  | some m ↦
      if is_in b m.separators
      then end_argument c.parser
      else some (record (c.parser) { parse_arg_len = c.parse_arg_len + 1 })
]

-- `chat->receive_buf[chat->receive_buf_len] = byte; chat->receive_buf_len++;`
abbrev pub store_byte : Chat → ℕ → Chat
store_byte c b = record c {
  parser = record (c.parser) {
    receive_buf = set c.receive_buf c.receive_buf_len b;
    receive_buf_len = c.receive_buf_len + 1;
  };
}

abbrev pub with_parser : Chat → Parser → Chat
with_parser c p = record c { parser = p }

abbrev pub reset : Chat → Chat
reset c = with_parser c (parse_reset c.parser)

-- `modem_chat_process_byte`
unfoldable pub process_byte : Chat → ℕ → Option Chat
unfolding end_del_complete complete_line parse_byte
process_byte c b =
    if c.receive_buf_size == c.receive_buf_len
    then some (reset c)
    else (if length c.argv == c.argv_size
        then some (reset c)
        else (let stored = store_byte c b in
            if end_del_complete stored
            then (complete_line stored >>= λ c'. some (reset c'))
            else (if is_in b c.delimiter
                then some stored
                else (parse_byte stored b >>= λ p. some (with_parser stored p)))))

-- `modem_chat_process_bytes`, without the bytes of the filter (`modem_chat_discard_byte`)
unfoldable pub process_bytes : Chat → List ℕ → Option Chat
unfolding process_byte
process_bytes c [] = some c
process_bytes c (b ∷ bs) =
    let rest = λ (d : Chat). process_bytes d bs in
    if is_in b c.filter then rest c else (process_byte c b >>= rest)

-- `modem_chat_process_handler`, on what `modem_pipe_receive` gave: none is a result below 1
unfoldable pub process_handler : Chat → List ℕ → Option Chat
unfolding process_bytes
process_handler c [] = some c
process_handler c (b ∷ bs) =
    process_bytes c (b ∷ bs) >>= λ c'. some (call (schedule process_work 0) c')
