-- ===== src/Chat/Engine.antt =====
-- The script engine of modem_chat.c: starting a script, going on to its next step and stopping it,
-- and the handlers that do so. `none` is an access through `chat->script` when that is NULL, or
-- outside the steps of a script.
use modem_modules.Base.{
  ℕ, ◌+◌, ◌*◌, Bool, true, false, Option, none, some, List, [], ◌==◌, if◌then◌else◌, ◌>>=◌, length,
  get_elem?,
}
use modem_modules.Chat.{
  Chat, Match, Script, ScriptChat, ScriptResult, call, schedule, cancel, script_callback,
  script_send_work, script_timeout_work,
}

-- A NULL array of matches has no matches.
abbrev pub matches_of : Option (List Match) → List Match
matches_of none = []
matches_of (some ms) = ms

abbrev pub is_some {ℓ} : {A : Type ℓ} → Option A → Bool
is_some none = false
is_some (some _) = true

abbrev pub report : Bool → ScriptResult → Chat → Chat
report has_callback r c = if has_callback then call (script_callback r) c else c

-- `modem_chat_script_stop`
unfoldable pub script_stop : Chat → ScriptResult → Option Chat
script_stop c r = c.script >>= λ s. some (
    call (cancel script_timeout_work)
      (record (report s.callback r (record c { is_running = false })) {
        script = none;
        abort_matches = [];
        response_matches = [];
      }))

-- `modem_chat_script_send`
unfoldable pub script_send : Chat → Chat
script_send c =
    call (schedule script_send_work 0) (record c { send_request_pos = 0; send_delimiter_pos = 0 })

-- The step that the iterator has come to, from its matches on.
unfoldable pub enter_step : Chat → ScriptChat → Chat
unfolding script_send
enter_step c step =
    let waits = record c { response_matches = step.response_matches } in
    if length step.request == 0 then waits else script_send waits

-- `modem_chat_script_next`
unfoldable pub script_next : Chat → Bool → Option Chat
unfolding script_stop enter_step
script_next c initial =
    let it : ℕ = if initial then 0 else c.script_chat_it + 1 in
    let there = record c { script_chat_it = it } in
    c.script >>= λ s.
    if it == length s.script_chats
    then script_stop there ScriptResult.success
    else (get_elem? s.script_chats it >>= λ step. some (enter_step there step))

-- `modem_chat_script_start`; K_SECONDS of the timeout
unfoldable pub script_start : Chat → Script → Option Chat
unfolding script_next
script_start c s =
    let begun = record c { script = some s; abort_matches = matches_of s.abort_matches } in
    script_next begun true >>= λ c'. elim c'.script [
      | none ↦ some c'
      | some s' ↦ some (call (schedule script_timeout_work (s'.timeout * 1000)) c')
    ]

-- `modem_chat_script_run_handler`
unfoldable pub script_run_handler : Chat → Option Chat
unfolding script_start
script_run_handler c = c.run_script >>= λ s. script_start c s

-- `modem_chat_script_timeout_handler`
unfoldable pub script_timeout_handler : Chat → Option Chat
unfolding script_stop
script_timeout_handler c = script_stop c ScriptResult.timeout

-- `modem_chat_script_abort_handler`
unfoldable pub script_abort_handler : Chat → Option Chat
unfolding script_stop
script_abort_handler c = elim c.script [ none ↦ some c | some s ↦ script_stop c ScriptResult.abort ]

-- `modem_chat_script_send_timeout_handler`
unfoldable pub script_send_timeout_handler : Chat → Option Chat
unfolding script_next
script_send_timeout_handler c = elim c.script [ none ↦ some c | some s ↦ script_next c false ]
