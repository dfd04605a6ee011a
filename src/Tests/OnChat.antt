-- ===== src/Tests/OnChat.antt =====
-- A chat with one unsolicited match and a script of one step, on concrete bytes.
use modem_modules.Base.{
  ℕ, ◌≢◌, false, All, ◌≡◌, refl, true, none, some, [], ◌∷◌, ◌++◌, arith, replicate, ◌>>=◌,
}
use modem_modules.Base.Gives.{Gives}
use modem_modules.Chat.{Chat, Match, Script, response_match, text_at}
use modem_modules.Chat.Engine.{script_timeout_handler}
use modem_modules.Chat.Parse.{process_byte, end_del_complete}
use modem_modules.Chat.Api.{Config, init}
use modem_modules.Chat.Work.{Work, handle}
use modem_modules.Chat.Sound.{IsSound}
use modem_modules.Chat.Sound.Handled.{Follows, handle-IsSound, init-IsSound}
use modem_modules.Chat.Late.{IsEnding, timeout-late_response}
use modem_modules.Chat.{ScriptChat, unsol_match}
use modem_modules.Chat.Parse.{is_in, process_bytes}
use modem_modules.Chat.Send.{script_send_handler}
use modem_modules.Chat.Send.Sent.{
  offers_of, taken_of, left_of, Outcome, script_send_handler-left_of,
}
use modem_modules.Chat.Line.{Plain}
use modem_modules.Chat.Line.Body.{Line}
use modem_modules.Chat.Line.End.{Received}
use modem_modules.Chat.Line.Whole.{IsReady, process_bytes-Received}
use modem_modules.Cellular.Scripts.{codes, match_of}

abbrev config : Config
config = record {
  receive_buf = replicate 16 0;
  delimiter = codes "\r\n";
  filter = [];
  argv_size = 4;
  unsol_matches = match_of "+C" "," true ∷ [];
  process_timeout = 2;
}

config-IsSound : IsSound (init config)
config-IsSound = init-IsSound config (omega arith) (omega arith) (omega arith, tt)

handle-IsSound_example :
    Gives
      (Follows (init config) (Work.receive (codes "+C1,2\r\n")))
      (handle (init config) (Work.receive (codes "+C1,2\r\n")))
handle-IsSound_example =
    handle-IsSound (init config) (Work.receive (codes "+C1,2\r\n")) config-IsSound.served
      config-IsSound.awaits

abbrev ok_match : Match
ok_match = match_of "OK" "" true

abbrev script : Script
script = record {
  script_chats =
      record { request = codes "AT"; response_matches = ok_match ∷ []; timeout = 0 } ∷ [];
  abort_matches = none;
  callback = true;
  timeout = 10;
}

-- All of "OK\r\n" but its last byte was received.
abbrev waiting : Chat
waiting = record {
  has_pipe = true;
  parser = record {
    receive_buf = codes "OK\r" ++ (replicate 10 0 ++ (codes "OK" ++ (0 ∷ [])));
    receive_buf_size = 16;
    receive_buf_len = 3;
    argv = text_at 13 ∷ [];
    argv_size = 4;
    parse_match = some ok_match;
    parse_match_len = 3;
    parse_arg_len = 0;
    parse_match_type = response_match;
  };
  delimiter = codes "\r\n";
  filter = [];
  response_matches = ok_match ∷ [];
  abort_matches = [];
  unsol_matches = [];
  script = some script;
  run_script = some script;
  script_chat_it = 0;
  is_running = true;
  send_request_pos = 2;
  send_delimiter_pos = 2;
  process_timeout = 2;
  calls = [];
}

waiting-IsEnding : IsEnding waiting ok_match b'\n'
unfolding end_del_complete
waiting-IsEnding = record {
  begun = refl;
  response = refl;
  room = refl;
  unfilled = refl;
  complete = refl;
  not_empty = refl;
}

timeout-late_response_example :
    (script_timeout_handler waiting >>= λ c. process_byte c b'\n') ≡ none
timeout-late_response_example = timeout-late_response waiting ok_match b'\n' waiting-IsEnding

abbrev line : Line
line = record {
  text = codes "+C";
  found = match_of "+C" "," true;
  found_type = unsol_match;
  size = 16;
  slots = 4;
}

plain : (b : ℕ) → b ≢ 0 → is_in b (codes "\r\n") ≡ false → Plain (init config) b
unfolding init
plain b z d = record { not_zero = z; not_delimiter = d; not_filtered = refl }

line-IsReady : IsReady (init config) line
unfolding init
line-IsReady = record {
  whole = refl;
  same_size = refl;
  same_slots = refl;
  fresh_buf = refl;
  fresh_match = refl;
  fresh_argv = refl;
  first = (refl, refl);
  plain = (plain b'+' (λ e. omega (arith, e)) refl, (plain b'C' (λ e. omega (arith, e)) refl, tt));
  some_delimiter = omega arith;
  no_zero = refl;
  not_filtered = (refl, (refl, tt));
}

bytes-Plain : All (Plain (init config)) (codes "1,2")
bytes-Plain = (
  plain b'1' (λ e. omega (arith, e)) refl,
  (plain b',' (λ e. omega (arith, e)) refl, (plain b'2' (λ e. omega (arith, e)) refl, tt)),
)

process_bytes-Received_example :
    Received
      (init config)
      line
      (process_bytes (init config) (codes "+C1,2\r\n"))
      (codes "+C" ∷ codes "1" ∷ codes "2" ∷ [])
unfolding init
process_bytes-Received_example =
    process_bytes-Received (init config) line (codes "1,2") line-IsReady bytes-Plain (omega arith)
      (omega arith)

-- Nothing of the request was sent.
abbrev sending : Chat
sending = record waiting { send_request_pos = 0; send_delimiter_pos = 0 }

abbrev step : ScriptChat
step = record { request = codes "AT"; response_matches = ok_match ∷ []; timeout = 0 }

script_send_handler-left_of_example :
    (c' : Chat) × (c'.calls ≡ offers_of sending step 1)
    × (taken_of sending step 1 0 ++ left_of c' step ≡ left_of sending step)
    × Outcome sending step (script_send_handler sending 1 0) c'
script_send_handler-left_of_example =
    script_send_handler-left_of sending script step refl refl refl 1 0 (omega arith) (omega arith)
