-- ===== src/Chat/Parse/Within.antt =====
-- The line parser stays inside the receive buffer and argv.
use modem_modules.Base.{
  length-drop, ℕ, Bool, ◌+◌, ◌-◌, ◌≤◌, ◌<◌, ◌≡◌, refl, Bool-cases, inl, inr, true, false, Option,
  some, List, [], ◌∷◌, ◌++◌, arith, ◌==◌, ltb, if◌then◌else◌, ◌>>=◌, length, take, drop, set,
  length-append, length-set, length-take,
}
use modem_modules.Chat.{Parser, Argument, text_at, empty_text}
use modem_modules.Chat.Parse.{copy_to, parse_reset, add_argument, parse_save_match, end_argument}

pub length-copy_to :
    (i : ℕ) (xs buf : List ℕ) → i + length xs ≤ length buf → length (copy_to i xs buf) ≡ length buf
length-copy_to i xs buf h = omega (
  arith,
  length-append (take i buf) (xs ++ drop (i + length xs) buf),
  length-append xs (drop (i + length xs) buf),
  length-take i buf,
  length-drop (i + length xs) buf,
)

pub record IsWithin (p : Parser) : Type 0 where
  pub whole : length p.receive_buf ≡ p.receive_buf_size
  pub within : p.receive_buf_len ≤ p.receive_buf_size
  pub counted : length p.argv ≤ p.argv_size

-- What a step of the parser leaves alone.
pub record IsStill (p p' : Parser) : Type 0 where
  pub same_size : p'.receive_buf_size ≡ p.receive_buf_size
  pub same_argv_size : p'.argv_size ≡ p.argv_size
  pub same_match : p'.parse_match ≡ p.parse_match
  pub same_type : p'.parse_match_type ≡ p.parse_match_type

-- The step is made, and all stays inside.
abbrev pub Moves : Parser → Option Parser → Type 0
Moves p o = (p' : Parser) × (o ≡ some p') × IsWithin p' × IsStill p p'

pub reset-IsWithin : (p : Parser) → IsWithin p → IsWithin (parse_reset p)
reset-IsWithin p v = record { whole = v.whole; within = omega arith; counted = omega arith }

module _ (p : Parser) (v : IsWithin p) (free : length p.argv < p.argv_size) where
  pub add_argument-Moves : (a : Argument) → Moves p (add_argument p a)
  unfolding add_argument
  add_argument-Moves a = (
    record p { argv = p.argv ++ (a ∷ []) },
    ground (arith, free),
    record {
      whole = v.whole;
      within = v.within;
      counted = omega (arith, free, length-append p.argv (a ∷ []));
    },
    record { same_size = refl; same_argv_size = refl; same_match = refl; same_type = refl },
  )

module _ (p : Parser) (v : IsWithin p) (free : length p.argv < p.argv_size) where
  -- A write of one byte.
  with_byte-Moves :
      (i : ℕ) (a : Argument)
      → Moves p (add_argument (record p { receive_buf = set p.receive_buf i 0 }) a)
  with_byte-Moves i a =
      let (p', e, w, s) =
        add_argument-Moves (record p { receive_buf = set p.receive_buf i 0 })
          (record {
            whole = omega (arith, v.whole, length-set p.receive_buf i 0);
            within = v.within;
            counted = v.counted;
          })
          free a in
      (
        p',
        e,
        w,
        record {
          same_size = s.same_size;
          same_argv_size = s.same_argv_size;
          same_match = s.same_match;
          same_type = s.same_type;
        },
      )

  pub trailing-Moves :
      (i : ℕ) (a : Argument)
      → Moves p (
          if ltb 0 p.parse_arg_len
          then add_argument (record p { receive_buf = set p.receive_buf i 0 }) a
          else some p)
  trailing-Moves i a = elim (Bool-cases (ltb 0 p.parse_arg_len)) [
    | inl t ↦ rw t (with_byte-Moves i a)
    | inr t ↦ rw t (
      p,
      refl,
      v,
      record { same_size = refl; same_argv_size = refl; same_match = refl; same_type = refl },
    )
  ]

  parse_save_match-Moves :
      p.receive_buf_len + (p.receive_buf_len + 1) ≤ p.receive_buf_size
      → Moves p (parse_save_match p)
  unfolding parse_save_match
  parse_save_match-Moves short =
      let len = p.receive_buf_len in
      let start = p.receive_buf_size - (len + 1) in
      let copied = copy_to start (take len p.receive_buf) p.receive_buf in
      let fits : ltb p.receive_buf_size (len + (len + 1)) ≡ false = ground arith in
      let (p', e, w, s) =
        add_argument-Moves
          (record p {
            parse_match_len = len + 1;
            receive_buf = set copied (p.receive_buf_size - 1) 0;
          })
          (record {
            whole = omega (
              arith,
              v.whole,
              length-set copied (p.receive_buf_size - 1) 0,
              length-take len p.receive_buf,
              length-copy_to start (take len p.receive_buf) p.receive_buf,
            );
            within = v.within;
            counted = v.counted;
          })
          free (text_at start) in
      (
        p',
        rw fits e,
        w,
        record {
          same_size = s.same_size;
          same_argv_size = s.same_argv_size;
          same_match = s.same_match;
          same_type = s.same_type;
        },
      )

  no_argument :
      (p' : Parser) → IsWithin p' → IsStill p p' → Moves p (some (record p' { parse_arg_len = 0 }))
  no_argument p' w s = (
    record p' { parse_arg_len = 0 },
    refl,
    record { whole = w.whole; within = w.within; counted = w.counted },
    record {
      same_size = s.same_size;
      same_argv_size = s.same_argv_size;
      same_match = s.same_match;
      same_type = s.same_type;
    },
  )

  restarted :
      (o : Option Parser) → Moves p o → Moves p (o >>= λ p'. some (record p' { parse_arg_len = 0 }))
  restarted o (p', e, w, s) = rw e (no_argument p' w s)

  pub save-Moves :
      p.receive_buf_len + (p.receive_buf_len + 1) ≤ p.receive_buf_size
      → Moves p (parse_save_match p >>= λ p'. some (record p' { parse_arg_len = 0 }))
  save-Moves short = restarted _ (parse_save_match-Moves short)

  pub end_argument-Moves : Moves p (end_argument p)
  unfolding end_argument
  end_argument-Moves = restarted _ (go (p.parse_arg_len == 0))
    where
      go :
          (b : Bool)
          → Moves p (
              if b
              then add_argument p empty_text
              else add_argument
                  (record p { receive_buf = set p.receive_buf (p.receive_buf_len - 1) 0 })
                  (text_at (p.receive_buf_len - p.parse_arg_len - 1)))
      go true = add_argument-Moves p v free empty_text
      go false = with_byte-Moves _ _
