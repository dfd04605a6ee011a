-- ===== src/Chat/Sound/Work.antt =====
-- The work items of a chat, in any order in which the kernel may run them.
use modem_modules.Base.{
  ℕ, ◌+◌, ◌*◌, ◌<◌, ◌≡◌, refl, true, false, Bool, Option, none, some, length, arith, ◌==◌,
  if◌then◌else◌, get_elem?,
}
use modem_modules.Base.Gives.{
  Always, Always-bind, Always-then, Always-if, Gives, Gives-bind, Gives-map,
}
use modem_modules.Chat.{Chat, Script, ScriptChat, ScriptResult, call, schedule, script_timeout_work}
use modem_modules.Chat.Engine.{
  is_some, matches_of, report, script_stop, script_send, enter_step, script_next, script_start,
  script_run_handler, script_timeout_handler, script_abort_handler, script_send_timeout_handler,
}
use modem_modules.Chat.Sound.{IsServed, IsSound, Fits, Awaits}
use modem_modules.Chat.Sound.Engine.{
  script_stop-IsServed, script_next-IsServed, script_start-IsServed,
}
use modem_modules.Chat.Sound.Found.{running}

-- The parser is left as it is.
abbrev Leaves : Chat → Option Chat → Type 0
Leaves c o = Always (λ c'. c'.parser ≡ c.parser) o

module _ (c : Chat) where
  script_stop-Leaves : (r : ScriptResult) → Leaves c (script_stop c r)
  unfolding script_stop
  script_stop-Leaves r = Always-bind _ c.script _ (λ s. go s.callback)
    where
      go : (b : Bool) → (report b r (record c { is_running = false })).parser ≡ c.parser
      go true = refl
      go false = refl

  enter_step-Leaves : (step : ScriptChat) → (enter_step c step).parser ≡ c.parser
  unfolding enter_step script_send
  enter_step-Leaves step = go (length step.request == 0)
    where
      waits : Chat
      waits = record c { response_matches = step.response_matches }

      go : (b : Bool) → (if b then waits else script_send waits).parser ≡ c.parser
      go true = refl
      go false = refl

script_next-Leaves : (c : Chat) (initial : Bool) → Leaves c (script_next c initial)
unfolding script_next
script_next-Leaves c initial =
    let it : ℕ = if initial then 0 else c.script_chat_it + 1 in
    let there = record c { script_chat_it = it } in
    Always-bind _ c.script _ (λ s.
      Always-if _ (it == length s.script_chats) _ _
        (λ t. script_stop-Leaves there ScriptResult.success)
        (λ f. Always-bind _ (get_elem? s.script_chats it) _ (λ step. enter_step-Leaves there step)))

script_start-Leaves : (c : Chat) (s : Script) → Leaves c (script_start c s)
unfolding script_start
script_start-Leaves c s =
    let begun = record c { script = some s; abort_matches = matches_of s.abort_matches } in
    Always-then _ _ (script_next begun true) _ (script_next-Leaves begun true)
      (λ c' e. go c' c'.script e)
  where
    go :
        (c' : Chat) (o : Option Script)
        → c'.parser ≡ c.parser
        → Leaves c (elim o [
          | none ↦ some c'
          | some s' ↦ some (call (schedule script_timeout_work (s'.timeout * 1000)) c')
        ])
    go c' none e = e
    go c' (some s') e = e

-- A line that is being received is none of the script's, so that the script may stop.
pub record IsQuiet (c : Chat) : Type 0 where
  pub quiet : (script : Option Script) → Awaits c.parse_match c.parse_match_type script

-- The chat is in order behind a work item, and no line of the script is cut off if none was being
-- received.
abbrev pub Settled : Chat → Chat → Type 0
Settled c c' = IsServed c' × (IsQuiet c → IsSound c')

pub stays-Settled : (c c' : Chat) → IsServed c' → c'.parser ≡ c.parser → Settled c c'
stays-Settled c c' g l = (g, λ q. record { served = g; awaits = rw l (q.quiet c'.script) })

-- The same of a chat that was changed before, with the same parser.
pub Settled-from : (c0 c c' : Chat) → c.parser ≡ c0.parser → Settled c c' → Settled c0 c'
Settled-from c0 c c' l s = (s.0, λ q. s.1 (record { quiet = λ script. rw l (q.quiet script) }))

settled : (c : Chat) (o : Option Chat) → Gives IsServed o → Leaves c o → Gives (Settled c) o
settled c none g l = g
settled c (some c') g l = stays-Settled c c' g l

module _ (c : Chat) (v : IsServed c) where
  -- A script that is running, with the matches of its start.
  pub serving :
      is_some c.script ≡ true
      → Gives (λ s. (c.script_chat_it < length s.script_chats) × Fits c.receive_buf_size s) c.script
  serving e = (running c.receive_buf_size c.script _ _ _ v.serves e).0

  pub go_on : is_some c.script ≡ true → Gives (Settled c) (script_next c false)
  go_on e =
      let (runs, aborts) = running c.receive_buf_size c.script _ _ _ v.serves e in
      settled c _
        (script_next-IsServed c false v.fitted aborts
          (Gives-map _ _ c.script runs (λ s (lt, fits). (omega arith, fits))))
        (script_next-Leaves c false)

  stop : (r : ScriptResult) → is_some c.script ≡ true → Gives (Settled c) (script_stop c r)
  stop r e = settled c _ (script_stop-IsServed c v.fitted _ r (serving e)) (script_stop-Leaves c r)

  pub timeout-Settled : is_some c.script ≡ true → Gives (Settled c) (script_timeout_handler c)
  unfolding script_timeout_handler
  timeout-Settled e = stop ScriptResult.timeout e

  pub run-Settled :
      Gives (Fits c.receive_buf_size) c.run_script → Gives (Settled c) (script_run_handler c)
  unfolding script_run_handler
  run-Settled g =
      Gives-bind _ (Settled c) c.run_script _ g
        (λ s fits. settled c _ (script_start-IsServed c s v.fitted fits) (script_start-Leaves c s))

  pub abort-Settled : Gives (Settled c) (script_abort_handler c)
  unfolding script_abort_handler
  abort-Settled = go c.script (λ e. stop ScriptResult.abort e)
    where
      go :
          (o : Option Script)
          → (is_some o ≡ true → Gives (Settled c) (script_stop c ScriptResult.abort))
          → Gives (Settled c) (elim o [ none ↦ some c | some s ↦ script_stop c ScriptResult.abort ])
      go none f = stays-Settled c c v refl
      go (some s) f = f refl

  pub send_timeout-Settled : Gives (Settled c) (script_send_timeout_handler c)
  unfolding script_send_timeout_handler
  send_timeout-Settled = go c.script (λ e. go_on e)
    where
      go :
          (o : Option Script)
          → (is_some o ≡ true → Gives (Settled c) (script_next c false))
          → Gives (Settled c) (elim o [ none ↦ some c | some s ↦ script_next c false ])
      go none f = stays-Settled c c v refl
      go (some s) f = f refl
