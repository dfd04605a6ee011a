-- ===== src/Chat/Send.antt =====
-- Sending the request of a script's step: `modem_chat_script_send_handler` and what it calls.
-- `taken` is what modem_pipe_transmit took of the bytes offered, 0 for an error.
pub mod Sent
use modem_modules.Base.{
  ℕ, ◌+◌, ◌%◌, Bool, true, false, not, Option, none, some, ◌==◌, ltb, if◌then◌else◌, ◌>>=◌, length,
  drop, get_elem?,
}
use modem_modules.Chat.{
  Chat, ScriptChat, call, schedule, pipe_transmit, script_send_work, script_send_timeout_work,
}
use modem_modules.Chat.Engine.{script_next}

-- `&chat->script->script_chats[chat->script_chat_it]`
abbrev pub current_step : Chat → Option ScriptChat
current_step c = c.script >>= λ s. get_elem? s.script_chats c.script_chat_it

-- strlen as a uint16_t
abbrev pub request_size : ScriptChat → ℕ
request_size step = length step.request % 65536

-- `modem_chat_script_send_request`
unfoldable pub send_request : Chat → ℕ → Option (Chat × Bool)
send_request c taken = current_step c >>= λ step.
    if request_size step == c.send_request_pos
    then some (c, true)
    else (let offered = call (pipe_transmit (drop c.send_request_pos step.request)) c in
        if taken == 0
        then some (offered, false)
        else (let pos = c.send_request_pos + taken in
            some (record offered { send_request_pos = pos }, not (ltb pos (request_size step)))))

-- `modem_chat_script_send_delimiter`
unfoldable pub send_delimiter : Chat → ℕ → Chat × Bool
send_delimiter c taken =
    if length c.delimiter == c.send_delimiter_pos
    then (c, true)
    else (let offered = call (pipe_transmit (drop c.send_delimiter_pos c.delimiter)) c in
        if taken == 0
        then (offered, false)
        else (let pos = c.send_delimiter_pos + taken in
            (record offered { send_delimiter_pos = pos }, not (ltb pos (length c.delimiter)))))

-- `modem_chat_script_chat_is_no_response`
abbrev pub is_no_response : ScriptChat → Bool
is_no_response step = length step.response_matches == 0

-- The request and the delimiter are out: a step that waits for no response goes on, at once or
-- after its timeout.
unfoldable pub after_sending : Chat → ScriptChat → Option Chat
unfolding script_next
after_sending c step =
    if not (is_no_response step)
    then some c
    else (if step.timeout == 0
        then script_next c false
        else some (call (schedule script_send_timeout_work step.timeout) c))

-- `modem_chat_script_send_handler`, with what the pipe takes of the request and of the delimiter
unfoldable pub script_send_handler : Chat → ℕ → ℕ → Option Chat
unfolding send_request send_delimiter after_sending
script_send_handler c of_request of_delimiter = elim c.script [
  | none ↦ some c
  | some _ ↦ send_request c of_request >>= λ r.
      if not r.1
      then some (call (schedule script_send_work c.process_timeout) r.0)
      else (let d = send_delimiter r.0 of_delimiter in
          if not d.1
          then some (call (schedule script_send_work c.process_timeout) d.0)
          else (current_step d.0 >>= λ step. after_sending d.0 step))
]
