-- ===== src/Chat/Sound/Sending.antt =====
-- The script's requests are sent without leaving the script, whatever the pipe takes.
use modem_modules.Base.{
  ℕ, ◌+◌, ◌≡◌, refl, true, false, not, Bool, Option, none, some, List, length, drop, ltb, ◌==◌,
  if◌then◌else◌, ◌>>=◌, get_elem?,
}
use modem_modules.Base.Gives.{Gives, Gives-bind, Gives-if, Gives-map}
use modem_modules.Chat.{
  Chat, Call, Script, ScriptChat, call, schedule, script_send_work, pipe_transmit,
}
use modem_modules.Chat.Engine.{is_some, script_next}
use modem_modules.Chat.Send.{
  current_step, request_size, send_request, send_delimiter, is_no_response, after_sending,
  script_send_handler,
}
use modem_modules.Chat.Sound.{IsServed}
use modem_modules.Chat.Sound.Engine.{All-get}
use modem_modules.Chat.Sound.Work.{Settled, stays-Settled, Settled-from, serving, go_on}

-- A chat that runs a script, changed from `c0` without a change of the parser.
record IsReady (c0 c : Chat) : Type 0 where
  pub served : IsServed c
  pub runs : is_some c.script ≡ true
  pub same_parser : c.parser ≡ c0.parser

abbrev HasReady : Chat → Chat × Bool → Type 0
HasReady c0 r = IsReady c0 r.0

module _ (c0 c : Chat) (v : IsReady c0 c) where
  sending-IsReady :
      (request delimiter : ℕ) (calls : List Call)
      → IsReady c0
          (record c { send_request_pos = request; send_delimiter_pos = delimiter; calls = calls })
  sending-IsReady request delimiter calls = record {
    served = record {
      fitted = record {
        inside = v.served.fitted.inside;
        room = v.served.fitted.room;
        delimited = v.served.fitted.delimited;
        short = v.served.fitted.short;
      };
      serves = v.served.serves;
    };
    runs = v.runs;
    same_parser = v.same_parser;
  }

  IsReady-Settled : Settled c0 c
  IsReady-Settled = stays-Settled c0 c v.served v.same_parser

  current_step-Gives : Gives (λ step. Unit {0}) (current_step c)
  current_step-Gives = Gives-bind _ _ c.script _ (serving c v.served v.runs) (λ s (lt, fits).
      Gives-map _ _ (get_elem? s.script_chats c.script_chat_it)
        (All-get _ s.script_chats c.script_chat_it fits.1 lt) (λ step h. tt))

  send_request-IsReady : (taken : ℕ) → Gives (λ r. IsReady c0 r.0) (send_request c taken)
  unfolding send_request
  send_request-IsReady taken = Gives-bind _ _ (current_step c) _ current_step-Gives (λ step h.
      Gives-if _ (request_size step == c.send_request_pos) _ _ (λ t. v)
        (λ f.
          Gives-if _ (taken == 0) _ _ (λ t. sending-IsReady _ _ _) (λ g. sending-IsReady _ _ _)))

  send_delimiter-IsReady : (taken : ℕ) → IsReady c0 (send_delimiter c taken).0
  unfolding send_delimiter
  send_delimiter-IsReady taken = go (length c.delimiter == c.send_delimiter_pos) (taken == 0)
    where
      offered : Chat
      offered = call (pipe_transmit (drop c.send_delimiter_pos c.delimiter)) c

      pos : ℕ
      pos = c.send_delimiter_pos + taken

      go :
          (a b : Bool)
          → HasReady c0 (
              if a
              then (c, true)
              else (if b then (offered, false) else (
                record offered { send_delimiter_pos = pos },
                not (ltb pos (length c.delimiter)),
              )))
      go true b = v
      go false true = sending-IsReady _ _ _
      go false false = sending-IsReady _ _ _

  after_sending-Settled : (step : ScriptChat) → Gives (Settled c0) (after_sending c step)
  unfolding after_sending
  after_sending-Settled step =
      Gives-if (Settled c0) (not (is_no_response step)) _ _ (λ t. IsReady-Settled)
        (λ f.
          Gives-if (Settled c0) (step.timeout == 0) _ _
            (λ t.
              Gives-map _ _ (script_next c false) (go_on c v.served v.runs)
                (λ c' s. Settled-from c0 c c' v.same_parser s))
            (λ g. stays-Settled c0 _ (sending-IsReady _ _ _).served v.same_parser))

pub send-Settled :
    (c : Chat) (of_request of_delimiter : ℕ)
    → IsServed c
    → Gives (Settled c) (script_send_handler c of_request of_delimiter)
unfolding script_send_handler
send-Settled c of_request of_delimiter v =
    go c.script (λ e. sends (record { served = v; runs = e; same_parser = refl }))
  where
    sending : Option Chat
    sending = send_request c of_request >>= λ r.
        if not r.1
        then some (call (schedule script_send_work c.process_timeout) r.0)
        else (let d = send_delimiter r.0 of_delimiter in
            if not d.1
            then some (call (schedule script_send_work c.process_timeout) d.0)
            else (current_step d.0 >>= λ step. after_sending d.0 step))

    sends : IsReady c c → Gives (Settled c) sending
    sends ready =
        Gives-bind _ (Settled c) (send_request c of_request) _
          (send_request-IsReady c c ready of_request)
          (λ r w.
            Gives-if (Settled c) (not r.1) _ _
              (λ t. IsReady-Settled c _ (sending-IsReady c r.0 w _ _ _))
              (λ f.
                let d = send_delimiter r.0 of_delimiter in
                let u = send_delimiter-IsReady c r.0 w of_delimiter in
                Gives-if (Settled c) (not d.1) _ _
                  (λ t. IsReady-Settled c _ (sending-IsReady c d.0 u _ _ _))
                  (λ g.
                    Gives-bind _ (Settled c) (current_step d.0) _ (current_step-Gives c d.0 u)
                      (λ step h. after_sending-Settled c d.0 u step))))

    go :
        (o : Option Script)
        → (is_some o ≡ true → Gives (Settled c) sending)
        → Gives (Settled c) (elim o [ none ↦ some c | some _ ↦ sending ])
    go none f = stays-Settled c c v refl
    go (some s) f = f refl
