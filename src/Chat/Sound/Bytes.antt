-- ===== src/Chat/Sound/Bytes.antt =====
-- Whatever bytes come, the parser handles them inside its buffers, and the chat stays sound.
use modem_modules.Base.{
  ℕ, ◌+◌, ◌<◌, ◌≡◌, refl, ◌∙◌, Option, none, some, List, [], ◌∷◌, length, take, length-set,
  length-take, arith, ◌==◌, if◌then◌else◌, ◌>>=◌,
}
use modem_modules.Base.Gives.{Always, Gives, Gives-bind, Gives-if, Gives-at}
use modem_modules.Chat.{Chat, Match, MatchType, Parser}
use modem_modules.Chat.Parse.{
  find_match, parse_save_match, end_argument, complete_line, parse_byte, store_byte, reset,
  process_byte, process_bytes, end_del_complete, is_in, parse_reset, with_parser, process_handler,
}
use modem_modules.Chat.Parse.Within.{
  IsWithin, Moves, save-Moves, end_argument-Moves, reset-IsWithin,
}
use modem_modules.Chat.Sound.{IsServed, IsSound, IsShort, Awaits}
use modem_modules.Chat.Sound.Engine.{fits_calls}
use modem_modules.Chat.Sound.Found.{find_match-Always}
use modem_modules.Chat.Sound.Line.{with_parser-IsServed, complete_line-IsServed}

reset-IsSound : (c : Chat) → IsServed c → IsSound (reset c)
reset-IsSound c v = record {
  served =
      with_parser-IsServed c (parse_reset c.parser) v (reset-IsWithin c.parser v.fitted.inside) refl
        refl;
  awaits = tt;
}

-- A parser that the chat can go on with.
record Serving (c : Chat) (p : Parser) : Type 0 where
  pub inside : IsWithin p
  pub same_size : p.receive_buf_size ≡ c.receive_buf_size
  pub same_argv_size : p.argv_size ≡ c.argv_size
  pub awaits : Awaits p.parse_match p.parse_match_type c.script

Moves-Serving :
    (c : Chat) (p : Parser) (o : Option Parser)
    → p.receive_buf_size ≡ c.receive_buf_size
    → p.argv_size ≡ c.argv_size
    → Awaits p.parse_match p.parse_match_type c.script
    → Moves p o
    → Gives (Serving c) o
Moves-Serving c p o size argv_size a (p', e, w, s) = Gives-at _ o p' e (record {
  inside = w;
  same_size = s.same_size ∙ size;
  same_argv_size = s.same_argv_size ∙ argv_size;
  awaits = rw (s.same_match, s.same_type) a;
})

module _ (c : Chat) (v : IsServed c) (free : length c.argv < c.argv_size) where
  saved-Serving :
      (m : Match) (t : MatchType)
      → IsShort c.receive_buf_size m
      → length m.match ≡ length (take c.receive_buf_len c.receive_buf)
      → Awaits (some m) t c.script
      → Gives (Serving c) (
          parse_save_match (record (c.parser) { parse_match = some m; parse_match_type = t })
          >>= λ p. some (record p { parse_arg_len = 0 }))
  saved-Serving m t short long a =
      let found = record (c.parser) { parse_match = some m; parse_match_type = t } in
      let w : IsWithin found = record {
        whole = v.fitted.inside.whole;
        within = v.fitted.inside.within;
        counted = v.fitted.inside.counted;
      } in
      Moves-Serving c found _ refl refl a (
        save-Moves found w free (
          omega (
            arith,
            short,
            long,
            v.fitted.inside.whole,
            v.fitted.inside.within,
            length-take c.receive_buf_len c.receive_buf,
          )))

  parse_byte-Serving :
      (b : ℕ)
      → Awaits c.parse_match c.parse_match_type c.script
      → Gives (Serving c) (parse_byte c b)
  unfolding parse_byte
  parse_byte-Serving b a = go c.parse_match
    where
      same : (n : ℕ) → Serving c (record (c.parser) { parse_arg_len = n })
      same n = record {
        inside = record {
          whole = v.fitted.inside.whole;
          within = v.fitted.inside.within;
          counted = v.fitted.inside.counted;
        };
        same_size = refl;
        same_argv_size = refl;
        awaits = a;
      }

      found :
          (o : Option (Match × MatchType))
          → Always
              (λ (m, t).
                (IsShort c.receive_buf_size m
                  × (length m.match ≡ length (take c.receive_buf_len c.receive_buf)))
                × Awaits (some m) t c.script)
              o
          → Gives (Serving c) (elim o [
            | none ↦ some c.parser
            | some (m, t) ↦
                parse_save_match (record (c.parser) { parse_match = some m; parse_match_type = t })
                >>= λ p. some (record p { parse_arg_len = 0 })
          ])
      found none h = same c.parse_arg_len
      found (some (m, t)) h = saved-Serving m t h.0.0 h.0.1 h.1

      go :
          (o : Option Match)
          → Gives (Serving c) (elim o [
            | none ↦ elim (find_match c) [
              | none ↦ some c.parser
              | some (m, t) ↦
                  parse_save_match
                    (record (c.parser) { parse_match = some m; parse_match_type = t })
                  >>= λ p. some (record p { parse_arg_len = 0 })
            ]
            | some m ↦
                if is_in b m.separators
                then end_argument c.parser
                else some (record (c.parser) { parse_arg_len = c.parse_arg_len + 1 })
          ])
      go none = found (find_match c) (find_match-Always c v)
      go (some m) =
          Gives-if (Serving c) (is_in b m.separators) _ _
            (λ t.
              Moves-Serving c c.parser _ refl refl a
                (end_argument-Moves c.parser v.fitted.inside free))
            (λ f. same (c.parse_arg_len + 1))

-- A byte that the receive buffer has room for.
store_byte-IsServed :
    (c : Chat) (b : ℕ)
    → IsServed c
    → c.receive_buf_len < c.receive_buf_size
    → IsServed (store_byte c b)
store_byte-IsServed c b v lt =
    with_parser-IsServed c (store_byte c b).parser v
      (record {
        whole = omega (arith, v.fitted.inside.whole, length-set c.receive_buf c.receive_buf_len b);
        within = omega (arith, lt);
        counted = v.fitted.inside.counted;
      })
      refl refl

-- A byte that is received has a next state: no access is outside the receive buffer, argv or the
-- steps of the script, none goes through a NULL script, and a match is not copied onto itself. The
-- next state is sound again.
pub process_byte-IsSound : (c : Chat) (b : ℕ) → IsSound c → Gives IsSound (process_byte c b)
unfolding process_byte
process_byte-IsSound c b v =
    Gives-if IsSound (c.receive_buf_size == c.receive_buf_len) _ _ (λ t. reset-IsSound c v.served)
      (λ room.
        Gives-if IsSound (length c.argv == c.argv_size) _ _ (λ t. reset-IsSound c v.served)
          (λ unfilled.
            go
              (store_byte-IsServed c b v.served
                (grind (arith, room, v.served.fitted.inside.within)))
              (grind (arith, unfilled, v.served.fitted.inside.counted))))
  where
    stored : Chat
    stored = store_byte c b

    go :
        IsServed stored
        → length c.argv < c.argv_size
        → Gives IsSound (
            if end_del_complete stored
            then (complete_line stored >>= λ c'. some (reset c'))
            else (if is_in b c.delimiter
                then some stored
                else (parse_byte stored b >>= λ p. some (with_parser stored p))))
    go w free =
        Gives-if IsSound (end_del_complete stored) _ _
          (λ t.
            Gives-bind IsServed IsSound (complete_line stored) _
              (complete_line-IsServed stored w free v.awaits) (λ c' u. reset-IsSound c' u))
          (λ f.
            Gives-if IsSound (is_in b c.delimiter) _ _
              (λ t. record { served = w; awaits = v.awaits })
              (λ g.
                Gives-bind (Serving stored) IsSound (parse_byte stored b) _
                  (parse_byte-Serving stored w free b v.awaits)
                  (λ p s. record {
                    served = with_parser-IsServed stored p w s.inside s.same_size s.same_argv_size;
                    awaits = s.awaits;
                  })))

pub process_bytes-IsSound :
    (c : Chat) (bs : List ℕ) → IsSound c → Gives IsSound (process_bytes c bs)
unfolding process_bytes
process_bytes-IsSound c [] v = v
process_bytes-IsSound c (b ∷ bs) v =
    Gives-if IsSound (is_in b c.filter) _ _ (λ t. process_bytes-IsSound c bs v)
      (λ f.
        Gives-bind IsSound IsSound (process_byte c b) _ (process_byte-IsSound c b v)
          (λ c' w. process_bytes-IsSound c' bs w))

pub process_handler-IsSound :
    (c : Chat) (bs : List ℕ) → IsSound c → Gives IsSound (process_handler c bs)
unfolding process_handler
process_handler-IsSound c [] v = v
process_handler-IsSound c (b ∷ bs) v =
    Gives-bind IsSound IsSound (process_bytes c (b ∷ bs)) _ (process_bytes-IsSound c (b ∷ bs) v)
      (λ c' w. record {
        served = record { fitted = fits_calls c' _ w.served.fitted; serves = w.served.serves };
        awaits = w.awaits;
      })
