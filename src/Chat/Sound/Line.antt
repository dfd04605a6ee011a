-- ===== src/Chat/Sound/Line.antt =====
-- The end of a line keeps the chat served, and is inside the receive buffer and argv.
use modem_modules.Base.{
  ◌-◌, ◌<◌, ◌≡◌, refl, true, false, Bool, Option, none, some, [], ◌∷◌, length, length-set, arith,
  ◌==◌, ltb, if◌then◌else◌, ◌>>=◌,
}
use modem_modules.Base.Gives.{Always, Gives, Gives-bind, Gives-if, Gives-at, Gives-map}
use modem_modules.Chat.{
  Chat, Call, call, Match, MatchType, Parser, ScriptResult, response_match, abort_match,
  unsol_match, empty_text, text_at,
}
use modem_modules.Chat.Parse.{
  find_catch_all_match, call_match, on_command_received, on_unknown_command_received,
  trailing_argument, complete_line, end_text, with_parser,
}
use modem_modules.Chat.Parse.Within.{IsWithin, Moves, trailing-Moves}
use modem_modules.Chat.Sound.{IsServed, Awaits}
use modem_modules.Chat.Sound.Engine.{script_stop-IsServed, script_next-IsServed, fits_calls}
use modem_modules.Chat.Sound.Found.{running, find_catch_all_match-Always}

called-IsServed :
    (c : Chat) (m : Match) (t : MatchType) (k : Call) (b : Bool)
    → IsServed c
    → Awaits (some m) t c.script
    → IsServed (if b then call k c else c) × Awaits (some m) t (if b then call k c else c).script
called-IsServed c m t k true v a =
    (record { fitted = fits_calls c _ v.fitted; serves = v.serves }, a)
called-IsServed c m t k false v a = (v, a)

pub on_command_received-IsServed :
    (c : Chat) (m : Match) (t : MatchType)
    → IsServed c
    → Awaits (some m) t c.script
    → Gives IsServed (on_command_received c m t)
unfolding on_command_received
on_command_received-IsServed c m unsol_match v a =
    (called-IsServed c m unsol_match _ m.callback v a).0
on_command_received-IsServed c m abort_match v a =
    let d = call_match c m in
    let (w, e) = called-IsServed c m abort_match _ m.callback v a in
    let (runs, aborts) = running d.receive_buf_size d.script _ _ _ w.serves e in
    script_stop-IsServed d w.fitted _ ScriptResult.abort runs
on_command_received-IsServed c m response_match v a =
    let d = call_match c m in
    let (w, e) = called-IsServed c m response_match _ m.callback v a in
    let (runs, aborts) = running d.receive_buf_size d.script _ _ _ w.serves e in
    script_next-IsServed d false w.fitted aborts
      (Gives-map _ _ d.script runs (λ s (lt, fits). (omega arith, fits)))

-- The parser of a chat is replaced by one of the same size that is inside its bounds.
pub with_parser-IsServed :
    (c : Chat) (p : Parser)
    → IsServed c
    → IsWithin p
    → p.receive_buf_size ≡ c.receive_buf_size
    → p.argv_size ≡ c.argv_size
    → IsServed (with_parser c p)
with_parser-IsServed c p v w same same_argv = record {
  fitted = record {
    inside = w;
    room = omega (arith, v.fitted.room, same_argv);
    delimited = v.fitted.delimited;
    short = rw same (v.fitted.short);
  };
  serves = rw same (v.serves);
}

module _ (c : Chat) (v : IsServed c) (free : length c.argv < c.argv_size) where
  on_unknown-IsServed : Gives IsServed (on_unknown_command_received c)
  unfolding on_unknown_command_received
  on_unknown-IsServed = go (find_catch_all_match c) (find_catch_all_match-Always c v)
    where
      unknown : Match → MatchType → Parser
      unknown m t = record (c.parser) {
        receive_buf = end_text c;
        argv = empty_text ∷ text_at 0 ∷ [];
        parse_match = some m;
        parse_match_type = t;
      }

      go :
          (o : Option (Match × MatchType))
          → Always (λ (m, t). Unit {0} × Awaits (some m) t c.script) o
          → Gives IsServed (elim o [
            | none ↦ some c
            | some (m, t) ↦
                if ltb c.argv_size 2
                then none
                else on_command_received (record c { parser = unknown m t }) m t
          ])
      go none h = v
      go (some (m, t)) h =
          let two : ltb c.argv_size 2 ≡ false = ground (arith, v.fitted.room) in
          rw two (
            on_command_received-IsServed (record c { parser = unknown m t }) m t
              (with_parser-IsServed c (unknown m t) v
                (record {
                  whole = omega (
                    arith,
                    v.fitted.inside.whole,
                    length-set c.receive_buf (c.receive_buf_len - length c.delimiter) 0,
                  );
                  within = v.fitted.inside.within;
                  counted = v.fitted.room;
                })
                refl refl)
              h.1)

  trailing_argument-Moves : Moves c.parser (trailing_argument c)
  unfolding trailing_argument
  trailing_argument-Moves = trailing-Moves c.parser v.fitted.inside free _ _

  pub complete_line-IsServed :
      Awaits c.parse_match c.parse_match_type c.script → Gives IsServed (complete_line c)
  unfolding complete_line
  complete_line-IsServed a =
      Gives-if IsServed (c.receive_buf_len == length c.delimiter) _ _ (λ t. v)
        (λ f. go c.parse_match a)
    where
      received :
          (m : Match)
          → Awaits (some m) c.parse_match_type c.script
          → Moves c.parser (trailing_argument c)
          → Gives IsServed (
              trailing_argument c >>= λ p.
              on_command_received (record c { parser = p }) m c.parse_match_type)
      received m w (p, e, within, still) =
          Gives-bind (λ q. (q ≡ p)) IsServed (trailing_argument c) _
            (Gives-at _ (trailing_argument c) p e refl)
            (λ q same.
              on_command_received-IsServed (record c { parser = q }) m c.parse_match_type
                (rw same (with_parser-IsServed c p v within still.same_size still.same_argv_size))
                w)

      go :
          (o : Option Match)
          → Awaits o c.parse_match_type c.script
          → Gives IsServed (elim o [
            | none ↦ on_unknown_command_received c
            | some m ↦ trailing_argument c >>= λ p.
                on_command_received (record c { parser = p }) m c.parse_match_type
          ])
      go none w = on_unknown-IsServed
      go (some m) w = received m w trailing_argument-Moves
