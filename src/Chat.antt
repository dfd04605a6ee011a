-- ===== src/Chat.antt =====
-- The data of include/zephyr/modem/chat.h. The modules below hold the functions of
-- subsys/modem/modem_chat.c. The fields that the line parser owns stand in `Parser`. A call of the
-- kernel, of the pipe or of a callback is an entry of `calls`, latest first; a callback does not
-- call the chat itself. The field `delimiter_match_len`, which nothing reads, is left out.
pub mod Engine
pub mod Send
pub mod Parse
pub mod Api
pub mod Work
pub mod Sound
pub mod Late
pub mod Line
use modem_modules.Base.{ℕ, Bool, List, [], ◌∷◌, Option}

pub record Match : Type 0 where
  pub match : List ℕ  -- match_size is its length
  pub separators : List ℕ
  pub wildcards : Bool
  pub callback : Bool  -- it is not NULL

pub record ScriptChat : Type 0 where
  pub request : List ℕ
  pub response_matches : List Match
  pub timeout : ℕ

pub record Script : Type 0 where
  pub script_chats : List ScriptChat
  pub abort_matches : Option (List Match)  -- none is NULL
  pub callback : Bool
  pub timeout : ℕ

pub data ScriptResult : Type 0 where
  success abort timeout : ScriptResult

-- The index of `matches`.
pub data MatchType : Type 0 where
  response_match abort_match unsol_match : MatchType

pub data WorkItem : Type 0 where
  process_work script_run_work script_timeout_work script_abort_work : WorkItem
  script_send_work script_send_timeout_work : WorkItem

pub data Call : Type 0 where
  schedule : WorkItem → ℕ → Call  -- after milliseconds
  submit cancel cancel_sync : WorkItem → Call
  script_callback : ScriptResult → Call
  match_callback : Match → List (List ℕ) → Call  -- with the texts of argv
  pipe_transmit : List ℕ → Call
  pipe_attach pipe_release : Call

-- What an entry of argv points to: the literal "", or an index of the receive buffer.
pub data Argument : Type 0 where
  empty_text : Argument
  text_at : ℕ → Argument

pub record Parser : Type 0 where
  pub receive_buf : List ℕ
  pub receive_buf_size : ℕ
  pub receive_buf_len : ℕ
  pub argv : List Argument  -- the first argc entries
  pub argv_size : ℕ
  pub parse_match : Option Match
  pub parse_match_len : ℕ
  pub parse_arg_len : ℕ
  pub parse_match_type : MatchType

pub record Chat : Type 0 where
  pub has_pipe : Bool
  pub parser : Parser
  pub open parser use *
  pub delimiter : List ℕ
  pub filter : List ℕ
  pub response_matches : List Match
  pub abort_matches : List Match
  pub unsol_matches : List Match
  pub script : Option Script
  pub run_script : Option Script  -- script_run_work.script
  pub script_chat_it : ℕ
  pub is_running : Bool  -- the bit of script_state
  pub send_request_pos : ℕ
  pub send_delimiter_pos : ℕ
  pub process_timeout : ℕ
  pub calls : List Call

abbrev pub call : Call → Chat → Chat
call k c = record c { calls = k ∷ c.calls }
