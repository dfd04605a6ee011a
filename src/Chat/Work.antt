-- ===== src/Chat/Work.antt =====
-- The work items of a chat, each with what the pipe makes of it, and what running it does.
use modem_modules.Base.{ℕ, List, Option}
use modem_modules.Chat.{Chat}
use modem_modules.Chat.Engine.{
  script_run_handler, script_timeout_handler, script_abort_handler, script_send_timeout_handler,
}
use modem_modules.Chat.Send.{script_send_handler}
use modem_modules.Chat.Parse.{process_handler}

pub data Work : Type 0 where
  receive : List ℕ → Work
  send : ℕ → ℕ → Work
  run timeout abort send_timeout : Work

-- The handlers that `modem_chat_init` gives the work items.
unfoldable pub handle : Chat → Work → Option Chat
handle c (Work.receive bs) = process_handler c bs
handle c (Work.send of_request of_delimiter) = script_send_handler c of_request of_delimiter
handle c Work.run = script_run_handler c
handle c Work.timeout = script_timeout_handler c
handle c Work.abort = script_abort_handler c
handle c Work.send_timeout = script_send_timeout_handler c
