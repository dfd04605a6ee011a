-- ===== src/Chat/Late.antt =====
-- A script that stops while one of its lines is being received.
use modem_modules.Base.{
  ℕ, ◌≡◌, refl, true, false, Bool, Option, none, some, length, ◌==◌, if◌then◌else◌, ◌>>=◌, ◌+◌, [],
}
use mathlib.Core.Path.{subst, sym}
use modem_modules.Base.Gives.{Always, Always-bind}
use modem_modules.Chat.{
  Chat, Match, MatchType, response_match, ScriptResult, Call, call, match_callback, cancel,
  script_timeout_work,
}
use modem_modules.Chat.Engine.{script_stop, script_next, script_timeout_handler, report}
use modem_modules.Chat.Parse.{
  process_byte, store_byte, end_del_complete, complete_line, on_command_received, trailing_argument,
  read_arguments,
}

bind-none :
    {A B : Type 0} (m : Option A) (f : A → Option B) → Always (λ a. f a ≡ none) m → (m >>= f) ≡ none
bind-none none f h = refl
bind-none (some a) f h = h

Always-all : {A : Type 0} (P : A → Type 0) (m : Option A) → ((a : A) → P a) → Always P m
Always-all P none h = tt
Always-all P (some a) h = h a

-- Going on with a script that is gone.
next_without-none : (c : Chat) → c.script ≡ none → script_next c false ≡ none
unfolding script_next
next_without-none c e = rw e refl

response-none :
    (c : Chat) (m : Match) (t : MatchType)
    → t ≡ response_match
    → c.script ≡ none
    → on_command_received c m t ≡ none
unfolding on_command_received
response-none c m t r e = rw r (go m.callback)
  where
    k : Call
    k = match_callback m (read_arguments c.receive_buf c.argv)

    go : (b : Bool) → script_next (if b then call k c else c) false ≡ none
    go true = next_without-none (call k c) e
    go false = next_without-none c e

-- A line that began as a response `m` is about to be complete with the byte `b`.
pub record IsEnding (c : Chat) (m : Match) (b : ℕ) : Type 0 where
  pub begun : c.parse_match ≡ some m
  pub response : c.parse_match_type ≡ response_match
  pub room : (c.receive_buf_size == c.receive_buf_len) ≡ false
  pub unfilled : (length c.argv == c.argv_size) ≡ false
  pub complete : end_del_complete (store_byte c b) ≡ true
  pub not_empty : (c.receive_buf_len + 1 == length c.delimiter) ≡ false

module _ (c : Chat) (m : Match) (b : ℕ) (v : IsEnding c m b) (e : c.script ≡ none) where
  complete_line-none : complete_line (store_byte c b) ≡ none
  unfolding complete_line
  complete_line-none =
      rw (v.not_empty, v.begun)
        (bind-none (trailing_argument (store_byte c b)) _ (
          Always-all _ (trailing_argument (store_byte c b)) (λ p.
            response-none (record (store_byte c b) { parser = p }) m c.parse_match_type v.response
              e)))

  process_byte-none : process_byte c b ≡ none
  unfolding process_byte
  process_byte-none =
      rw (v.room, v.unfilled, v.complete)
        (bind-none (complete_line (store_byte c b)) _
          (subst (Always _) (sym complete_line-none) tt))

-- The script's timeout comes between a line that began as its response and the end of that line. The
-- byte that completes the line then goes on with a script that is NULL.
pub timeout-late_response :
    (c : Chat) (m : Match) (b : ℕ)
    → IsEnding c m b
    → (script_timeout_handler c >>= λ c'. process_byte c' b) ≡ none
unfolding script_timeout_handler script_stop end_del_complete
timeout-late_response c m b v =
    bind-none (script_stop c ScriptResult.timeout) _ (Always-bind _ c.script _ (λ s. go s.callback))
  where
    quiet : Chat
    quiet = record c { is_running = false }

    stopped : Bool → Chat
    stopped callback =
        call (cancel script_timeout_work) (record (report callback ScriptResult.timeout quiet) {
          script = none;
          abort_matches = [];
          response_matches = [];
        })

    same_parser : (d : Chat) → d.parser ≡ c.parser → d.delimiter ≡ c.delimiter → IsEnding d m b
    same_parser d p e = record {
      begun = rw p (v.begun);
      response = rw p (v.response);
      room = rw p (v.room);
      unfilled = rw p (v.unfilled);
      complete = rw (p, e) (v.complete);
      not_empty = rw (p, e) (v.not_empty);
    }

    go : (callback : Bool) → process_byte (stopped callback) b ≡ none
    go true = process_byte-none (stopped true) m b (same_parser (stopped true) refl refl) refl
    go false = process_byte-none (stopped false) m b (same_parser (stopped false) refl refl) refl
