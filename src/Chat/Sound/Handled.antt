-- ===== src/Chat/Sound/Handled.antt =====
-- The chat from its initialisation on, with the work items in any order.
use modem_modules.Base.{◌≤◌, ◌<◌, ◌≡◌, refl, true, length, arith}
use modem_modules.Base.Gives.{Gives}
use modem_modules.Chat.{Chat}
use modem_modules.Chat.Engine.{is_some}
use modem_modules.Chat.Work.{Work, handle}
use modem_modules.Chat.Api.{Config, init}
use modem_modules.Chat.Sound.{IsServed, IsSound, AreShort, Fits, Awaits}
use modem_modules.Chat.Sound.Bytes.{process_handler-IsSound}
use modem_modules.Chat.Sound.Work.{
  Settled, run-Settled, timeout-Settled, abort-Settled, send_timeout-Settled,
}
use modem_modules.Chat.Sound.Sending.{send-Settled}

-- What a work item is run on. The receive work needs that a line that began as a response or an abort
-- of a script finds one running; the timeout, that a script runs; a script that is started, that it
-- fits the receive buffer. The sender, the abort and the pause between requests need nothing.
abbrev pub IsDue : Chat → Work → Type 0
IsDue c (Work.receive bs) = Awaits c.parse_match c.parse_match_type c.script
IsDue c (Work.send r d) = Unit {0}
IsDue c Work.run = Gives (Fits c.receive_buf_size) c.run_script
IsDue c Work.timeout = is_some c.script ≡ true
IsDue c Work.abort = Unit {0}
IsDue c Work.send_timeout = Unit {0}

-- The state behind it.
abbrev pub Follows : Chat → Work → Chat → Type 0
Follows c (Work.receive bs) c' = IsSound c'
Follows c _ c' = Settled c c'

-- A work item has a next state: no access is outside the receive buffer, argv or the steps of the
-- script, none goes through a NULL script, and no match is copied onto itself, for all bytes received,
-- and all that the pipe takes of a request and of the delimiter. The chat is in order: its parser is
-- within its arrays, argv has two entries or more, the delimiter a byte, each match is shorter than
-- half of the receive buffer, and a script that runs stands at one of its steps. Bytes are processed
-- only if a line that began as a response or an abort of a script finds one running, the timeout runs
-- only while a script runs, and a script that is started fits the receive buffer. The chat is in order
-- again behind any item. The condition on bytes holds again behind bytes, and behind another item if
-- no line of the script was being received when it ran; behind an item in the midst of such a line it
-- may fail, and nothing is said of the bytes that come then.
pub handle-IsSound :
    (c : Chat) (w : Work) → IsServed c → IsDue c w → Gives (Follows c w) (handle c w)
unfolding handle
handle-IsSound c (Work.receive bs) v d =
    process_handler-IsSound c bs (record { served = v; awaits = d })
handle-IsSound c (Work.send of_request of_delimiter) v d = send-Settled c of_request of_delimiter v
handle-IsSound c Work.run v d = run-Settled c v d
handle-IsSound c Work.timeout v d = timeout-Settled c v d
handle-IsSound c Work.abort v d = abort-Settled c v
handle-IsSound c Work.send_timeout v d = send_timeout-Settled c v

-- A chat that was initialised with room for two arguments, a delimiter, and unsolicited matches that
-- are shorter than half of the receive buffer, is sound.
pub init-IsSound :
    (config : Config)
    → 2 ≤ config.argv_size
    → 0 < length config.delimiter
    → AreShort (length config.receive_buf) config.unsol_matches
    → IsSound (init config)
unfolding init
init-IsSound config room delimited short = record {
  served = record {
    fitted = record {
      inside = record { whole = refl; within = omega arith; counted = omega arith };
      room = room;
      delimited = delimited;
      short = short;
    };
    serves = (refl, refl);
  };
  awaits = tt;
}
