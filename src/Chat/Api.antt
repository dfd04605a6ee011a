-- ===== src/Chat/Api.antt =====
-- The functions of modem_chat.c that the application and the pipe call.
use modem_modules.Base.{
  ℕ, Bool, true, false, not, Option, none, some, List, [], ◌∷◌, Ret, ret, fail, eperm, einval,
  ebusy, ◌==◌, if◌then◌else◌, ◌&&◌, ◌||◌, length,
}
use modem_modules.Chat.{
  Chat, Match, Script, ScriptChat, call, submit, schedule, cancel_sync, pipe_attach, pipe_release,
  process_work, script_run_work, script_abort_work, script_send_work, response_match,
}
use modem_modules.Chat.Parse.{reset}

-- `modem_chat_pipe_callback`, at the event that data can be received; the others do nothing
unfoldable pub pipe_callback : Chat → Chat
pipe_callback c = call (schedule process_work c.process_timeout) c

-- struct modem_chat_config
pub record Config : Type 0 where
  pub receive_buf : List ℕ
  pub delimiter : List ℕ
  pub filter : List ℕ
  pub argv_size : ℕ
  pub unsol_matches : List Match
  pub process_timeout : ℕ

-- `modem_chat_init`
unfoldable pub init : Config → Chat
init config = record {
  has_pipe = false;
  parser = record {
    receive_buf = config.receive_buf;
    receive_buf_size = length config.receive_buf;
    receive_buf_len = 0;
    argv = [];
    argv_size = config.argv_size;
    parse_match = none;
    parse_match_len = 0;
    parse_arg_len = 0;
    parse_match_type = response_match;
  };
  delimiter = config.delimiter;
  filter = config.filter;
  response_matches = [];
  abort_matches = [];
  unsol_matches = config.unsol_matches;
  script = none;
  run_script = none;
  script_chat_it = 0;
  is_running = false;
  send_request_pos = 0;
  send_delimiter_pos = 0;
  process_timeout = config.process_timeout;
  calls = [];
}

-- `modem_chat_attach`
unfoldable pub attach : Chat → Chat
attach c = call pipe_attach (reset (record c { has_pipe = true }))

abbrev pub is_empty_array : Option (List Match) → Bool
is_empty_array none = false
is_empty_array (some ms) = length ms == 0

-- A step that neither sends nor waits for anything.
abbrev pub has_idle_step : List ScriptChat → Bool
has_idle_step [] = false
has_idle_step (step ∷ steps) =
    let rest = has_idle_step steps in
    ((length step.request == 0) && (length step.response_matches == 0)) || rest

-- `modem_chat_script_run`
unfoldable pub script_run : Chat → Script → Chat × Ret
script_run c s =
    if not c.has_pipe
    then (c, fail eperm)
    else (if (length s.script_chats == 0) || is_empty_array s.abort_matches
        then (c, fail einval)
        else (if has_idle_step s.script_chats
            then (c, fail einval)
            else (if c.is_running then (c, fail ebusy) else (
              call (submit script_run_work) (record c { is_running = true; run_script = some s }),
              ret 0,
            ))))

-- `modem_chat_script_abort`
unfoldable pub script_abort : Chat → Chat
script_abort c = call (submit script_abort_work) c

-- `modem_chat_release`
unfoldable pub release : Chat → Chat
release c =
    let stopped = call (cancel_sync script_send_work) (
      call (cancel_sync process_work) (
        call (cancel_sync script_abort_work)
          (call (cancel_sync script_run_work) (call pipe_release c)))) in
    record stopped {
      has_pipe = false;
      parser = record (c.parser) {
        receive_buf_len = 0;
        argv = [];
        parse_match = none;
        parse_match_len = 0;
        parse_arg_len = 0;
      };
      script = none;
      script_chat_it = 0;
      is_running = false;
      send_request_pos = 0;
      send_delimiter_pos = 0;
    }
