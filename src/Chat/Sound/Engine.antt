-- ===== src/Chat/Sound/Engine.antt =====
-- The script engine keeps the matches of the chat those of its script.
use modem_modules.Base.{
  ℕ, suc, zero, ◌+◌, ◌≤◌, ◌<◌, refl, sym, true, false, Bool, Option, none, some, List, [], ◌∷◌, All,
  length, get_elem?, arith, ◌==◌, if◌then◌else◌, ◌*◌,
}
use mathlib.Core.Path.{subst}
use modem_modules.Base.Gives.{Gives, Gives-bind, Gives-if, Gives-itself}
use modem_modules.Chat.{
  Chat, Call, call, schedule, script_timeout_work, Script, ScriptChat, ScriptResult,
}
use modem_modules.Chat.Engine.{
  matches_of, report, script_stop, script_next, enter_step, script_start, script_send,
}
use modem_modules.Chat.Sound.{IsFitted, IsServed, AreShort, Fits, Serves}

pub All-get {ℓ} :
    {A : Type ℓ} (P : A → Type 0) (xs : List A) (i : ℕ)
    → All P xs
    → i < length xs
    → Gives P (get_elem? xs i)
All-get P [] i h lt = omega arith
All-get P (y ∷ ys) zero h lt = h.0
All-get P (y ∷ ys) (suc i) h lt = All-get P ys i h.1 (omega arith)

pub fits_calls : (c : Chat) (calls : List Call) → IsFitted c → IsFitted (record c { calls = calls })
fits_calls c calls v = record {
  inside = v.inside;
  room = v.room;
  delimited = v.delimited;
  short = v.short;
}

module _ (c : Chat) (v : IsFitted c) where
  report-IsFitted : (b : Bool) (r : ScriptResult) → IsFitted (report b r c)
  report-IsFitted true r = fits_calls c _ v
  report-IsFitted false r = v

  stopped-IsServed :
      (calls : List Call)
      → IsServed
          (record c { script = none; abort_matches = []; response_matches = []; calls = calls })
  stopped-IsServed calls = record {
    fitted = record { inside = v.inside; room = v.room; delimited = v.delimited; short = v.short };
    serves = (refl, refl);
  }

module _ (c : Chat) (v : IsFitted c) where
  pub script_stop-IsServed :
      (Q : Script → Type 0) (r : ScriptResult) → Gives Q c.script → Gives IsServed (script_stop c r)
  unfolding script_stop
  script_stop-IsServed Q r g =
      let quiet = record c { is_running = false } in
      let quiet_v : IsFitted quiet = record {
        inside = v.inside;
        room = v.room;
        delimited = v.delimited;
        short = v.short;
      } in
      Gives-bind Q IsServed c.script _ g (λ s q.
        stopped-IsServed (report s.callback r quiet) (report-IsFitted quiet quiet_v s.callback r) _)

  enter_step-IsServed :
      (step : ScriptChat)
      → Serves c.receive_buf_size c.script c.script_chat_it step.response_matches c.abort_matches
      → IsServed (enter_step c step)
  unfolding enter_step script_send
  enter_step-IsServed step serves = go (length step.request == 0)
    where
      waits : Chat
      waits = record c { response_matches = step.response_matches }

      go : (b : Bool) → IsServed (if b then waits else script_send waits)
      go true = record {
        fitted = record {
          inside = v.inside;
          room = v.room;
          delimited = v.delimited;
          short = v.short;
        };
        serves = serves;
      }
      go false = record {
        fitted = record {
          inside = v.inside;
          room = v.room;
          delimited = v.delimited;
          short = v.short;
        };
        serves = serves;
      }

-- A script whose iterator goes to `it`, its end or a step.
abbrev pub Reaches : ℕ → ℕ → Script → Type 0
Reaches size it s = (it ≤ length s.script_chats) × Fits size s

pub script_next-IsServed :
    (c : Chat) (initial : Bool)
    → IsFitted c
    → AreShort c.receive_buf_size c.abort_matches
    → Gives (Reaches c.receive_buf_size (if initial then 0 else c.script_chat_it + 1)) c.script
    → Gives IsServed (script_next c initial)
unfolding script_next
script_next-IsServed c initial v aborts g =
    let it : ℕ = if initial then 0 else c.script_chat_it + 1 in
    let there = record c { script_chat_it = it } in
    let there_v : IsFitted there = record {
      inside = v.inside;
      room = v.room;
      delimited = v.delimited;
      short = v.short;
    } in
    Gives-bind _ IsServed c.script _ (Gives-itself _ c.script g) (λ s (e, (up_to, fits)).
      Gives-if IsServed (it == length s.script_chats) _ _
        (λ _. script_stop-IsServed there there_v _ ScriptResult.success g)
        (λ ne.
          let lt : it < length s.script_chats = grind arith in
          Gives-bind _ IsServed (get_elem? s.script_chats it) _
            (All-get _ s.script_chats it fits.1 lt)
            (λ step short. enter_step-IsServed there there_v step (
              subst (λ o. Serves c.receive_buf_size o it step.response_matches c.abort_matches)
                (sym e) (lt, short, aborts, fits)))))

pub script_start-IsServed :
    (c : Chat) (s : Script)
    → IsFitted c
    → Fits c.receive_buf_size s
    → Gives IsServed (script_start c s)
unfolding script_start
script_start-IsServed c s v fits =
    let begun = record c { script = some s; abort_matches = matches_of s.abort_matches } in
    let begun_v : IsFitted begun = record {
      inside = v.inside;
      room = v.room;
      delimited = v.delimited;
      short = v.short;
    } in
    Gives-bind _ IsServed (script_next begun true) _
      (script_next-IsServed begun true begun_v fits.0 (omega arith, fits))
      (λ c' w. started c' w c'.script)
  where
    started :
        (c' : Chat)
        → IsServed c'
        → (o : Option Script)
        → Gives IsServed (elim o [
          | none ↦ some c'
          | some s' ↦ some (call (schedule script_timeout_work (s'.timeout * 1000)) c')
        ])
    started c' w none = w
    started c' w (some s') = record { fitted = fits_calls c' _ w.fitted; serves = w.serves }
