-- ===== src/Chat/Send/Sent.antt =====
-- What of a step's request and of the delimiter is sent, over runs in which the pipe takes parts.
use modem_modules.Base.{
  length-drop, take-drop, ℕ, zero, suc, ◌+◌, ◌≤◌, ◌<◌, ◌≡◌, refl, sym, ap, ◌∙◌, ◌⊎◌, inl, inr, Bool,
  Bool-cases, true, false, not, Option, none, some, List, [], ◌∷◌, ◌++◌, arith, ltb, ◌==◌,
  if◌then◌else◌, ◌>>=◌, length, take, drop, append_assoc, append-nil, length-append,
}
use mathlib.Core.Path.{subst}
use modem_modules.Chat.{
  Chat, Call, Script, ScriptChat, call, schedule, pipe_transmit, script_send_work,
}
use modem_modules.Chat.Send.{
  current_step, request_size, send_request, send_delimiter, after_sending, script_send_handler,
}

-- The positions of the sender, behind other calls.
abbrev pub at : Chat → ℕ → ℕ → List Call → Chat
at c request delimiter ks = record c {
  send_request_pos = request;
  send_delimiter_pos = delimiter;
  calls = ks;
}

drop_all : (n : ℕ) (xs : List ℕ) → length xs ≤ n → drop n xs ≡ []
drop_all zero [] h = refl
drop_all zero (x ∷ xs) h = absurd (omega (arith, h))
drop_all (suc n) [] h = refl
drop_all (suc n) (x ∷ xs) h = drop_all n xs (omega (arith, h))

-- What is left is offered to the pipe, unless nothing is.
abbrev pub offers : List ℕ → List Call → List Call
offers [] ks = ks
offers (x ∷ xs) ks = pipe_transmit (x ∷ xs) ∷ ks

offers-some : (xs : List ℕ) (ks : List Call) → 0 < length xs → offers xs ks ≡ pipe_transmit xs ∷ ks
offers-some [] ks h = absurd (omega (arith, h))
offers-some (x ∷ xs) ks h = refl

module _ (c : Chat) (step : ScriptChat) (e : current_step c ≡ some step) (taken : ℕ) where
  -- A pipe takes at most what it is offered; the request is not all sent, or all sent.
  send_request_lem :
      request_size step ≡ length step.request
      → c.send_request_pos + taken ≤ length step.request
      → send_request c taken
        ≡ some (
          at c
              (c.send_request_pos + taken)
              c.send_delimiter_pos
              (offers (drop c.send_request_pos step.request) c.calls),
          length step.request == c.send_request_pos + taken,
        )
  unfolding send_request
  send_request_lem size honest =
      let left = length-drop c.send_request_pos step.request in
      elim (Bool-cases (request_size step == c.send_request_pos)) [
        | inl t ↦
            let none_left : taken ≡ 0 = ground (arith, t, size, honest) in
            let same : c.send_request_pos + taken ≡ c.send_request_pos = omega (arith, none_left) in
            let all : (length step.request == c.send_request_pos + taken) ≡ true =
              ground (arith, t, size, honest) in
            let gone : drop c.send_request_pos step.request ≡ [] =
              drop_all _ step.request (ground (arith, t, size)) in
            rw (e, t, all, same, gone) refl
        | inr f ↦
            let some_left =
              offers-some (drop c.send_request_pos step.request) c.calls
                (ground (arith, f, size, honest, left)) in
            elim (Bool-cases (taken == 0)) [
              | inl z ↦
                  let nothing : taken ≡ 0 = ground (arith, z) in
                  let same : c.send_request_pos + taken ≡ c.send_request_pos =
                    omega (arith, nothing) in
                  let open_end : (length step.request == c.send_request_pos + taken) ≡ false =
                    ground (arith, f, size, honest, nothing) in
                  rw (e, f, z, open_end, same, some_left) refl
              | inr n ↦
                  let over : not (ltb (c.send_request_pos + taken) (request_size step))
                      ≡ (length step.request == c.send_request_pos + taken) =
                    ground (arith, size, honest) in
                  rw (e, f, n, over, some_left) refl
            ]
      ]

module _ (c : Chat) (taken : ℕ) where
  send_delimiter_lem :
      c.send_delimiter_pos + taken ≤ length c.delimiter
      → send_delimiter c taken ≡ (
        at c c.send_request_pos
            (c.send_delimiter_pos + taken)
            (offers (drop c.send_delimiter_pos c.delimiter) c.calls),
        length c.delimiter == c.send_delimiter_pos + taken,
      )
  unfolding send_delimiter
  send_delimiter_lem honest =
      let left = length-drop c.send_delimiter_pos c.delimiter in
      elim (Bool-cases (length c.delimiter == c.send_delimiter_pos)) [
        | inl t ↦
            let none_left : taken ≡ 0 = ground (arith, t, honest) in
            let same : c.send_delimiter_pos + taken ≡ c.send_delimiter_pos =
              omega (arith, none_left) in
            let all : (length c.delimiter == c.send_delimiter_pos + taken) ≡ true =
              ground (arith, t, honest) in
            let gone : drop c.send_delimiter_pos c.delimiter ≡ [] =
              drop_all _ c.delimiter (ground (arith, t)) in
            rw (t, all, same, gone) refl
        | inr f ↦
            let some_left =
              offers-some (drop c.send_delimiter_pos c.delimiter) c.calls
                (ground (arith, f, honest, left)) in
            elim (Bool-cases (taken == 0)) [
              | inl z ↦
                  let nothing : taken ≡ 0 = ground (arith, z) in
                  let same : c.send_delimiter_pos + taken ≡ c.send_delimiter_pos =
                    omega (arith, nothing) in
                  let open_end : (length c.delimiter == c.send_delimiter_pos + taken) ≡ false =
                    ground (arith, f, honest, nothing) in
                  rw (f, z, open_end, same, some_left) refl
              | inr n ↦
                  let over : not (ltb (c.send_delimiter_pos + taken) (length c.delimiter))
                      ≡ (length c.delimiter == c.send_delimiter_pos + taken) =
                    ground (arith, honest) in
                  rw (f, n, over, some_left) refl
            ]
      ]

drop-drop : (n m : ℕ) (xs : List ℕ) → drop (n + m) xs ≡ drop m (drop n xs)
drop-drop zero m xs = let e : 0 + m ≡ m = omega arith in rw e refl
drop-drop (suc n) m [] = drop_all (suc n + m) [] (omega arith) ∙ sym (drop_all m [] (omega arith))
drop-drop (suc n) m (x ∷ xs) =
    let e : suc n + m ≡ suc (n + m) = omega arith in rw e (drop-drop n m xs)

taken_then : (n m : ℕ) (xs : List ℕ) → take m (drop n xs) ++ drop (n + m) xs ≡ drop n xs
taken_then n m xs = ap (λ ys. take m (drop n xs) ++ ys) (drop-drop n m xs) ∙ take-drop m (drop n xs)

-- What is left to send of the step and the delimiter.
abbrev pub left_of : Chat → ScriptChat → List ℕ
left_of c step = drop c.send_request_pos step.request ++ drop c.send_delimiter_pos c.delimiter

-- What the pipe takes in a run: of the request, and of the delimiter if the request is out.
abbrev pub taken_of : Chat → ScriptChat → ℕ → ℕ → List ℕ
taken_of c step of_request of_delimiter =
    let delimiter = take of_delimiter (drop c.send_delimiter_pos c.delimiter) in
    take of_request (drop c.send_request_pos step.request)
    ++ (if length step.request == c.send_request_pos + of_request then delimiter else [])

-- The calls of a run: the rest of the request is offered, and the rest of the delimiter if the request
-- is out.
abbrev pub offers_of : Chat → ScriptChat → ℕ → List Call
offers_of c step of_request =
    let request = offers (drop c.send_request_pos step.request) c.calls in
    let both = offers (drop c.send_delimiter_pos c.delimiter) request in
    if length step.request == c.send_request_pos + of_request then both else request

-- The sender has more to send and is scheduled again, or has sent all and goes on with the step.
abbrev pub Outcome : Chat → ScriptChat → Option Chat → Chat → Type 0
Outcome c step o c' =
    ((o ≡ some (call (schedule script_send_work c.process_timeout) c'))
      × (0 < length (left_of c' step)))
    ⊎ ((o ≡ after_sending c' step) × (left_of c' step ≡ []))

one_left : (a b d r : List ℕ) → a ++ b ≡ r → (a ++ []) ++ (b ++ d) ≡ r ++ d
one_left a b d r h =
    ap (λ x. x ++ (b ++ d)) (append-nil a) ∙ (sym (append_assoc a b d) ∙ ap (λ x. x ++ d) h)

none_left :
    (a b t l r d : List ℕ) → b ≡ [] → a ++ b ≡ r → t ++ l ≡ d → (a ++ t) ++ (b ++ l) ≡ r ++ d
none_left a b t l r d gone h h' =
    ap (λ x. (a ++ t) ++ (x ++ l)) gone
    ∙ (append_assoc a t l
        ∙ (ap (λ x. a ++ x) h'
            ∙ ap (λ x. x ++ d) (sym (append-nil a) ∙ (ap (λ x. a ++ x) (sym gone) ∙ h))))

module _ (c : Chat) (s : Script) (step : ScriptChat) (script : c.script ≡ some s)
    (current : current_step c ≡ some step) (size : request_size step ≡ length step.request)
    (of_request of_delimiter : ℕ) (honest : c.send_request_pos + of_request ≤ length step.request)
    (honest_too : c.send_delimiter_pos + of_delimiter ≤ length c.delimiter) where
  abbrev finish : Chat × Bool → Option Chat
  finish d =
      if not d.1
      then some (call (schedule script_send_work c.process_timeout) d.0)
      else (current_step d.0 >>= λ step. after_sending d.0 step)

  abbrev go_on : Chat × Bool → Option Chat
  go_on r =
      if not r.1
      then some (call (schedule script_send_work c.process_timeout) r.0)
      else finish (send_delimiter r.0 of_delimiter)

  handler-go_on :
      script_send_handler c of_request of_delimiter ≡ (send_request c of_request >>= λ r. go_on r)
  unfolding script_send_handler
  handler-go_on = go c.script script
    where
      go :
          (o : Option Script)
          → o ≡ some s
          → (elim o [ none ↦ some c | some _ ↦ send_request c of_request >>= λ r. go_on r ])
            ≡ (send_request c of_request >>= λ r. go_on r)
      go o e = rw e refl

  abbrev request_left : List ℕ
  request_left = drop (c.send_request_pos + of_request) step.request

  abbrev delimiter_left : List ℕ
  delimiter_left = drop (c.send_delimiter_pos + of_delimiter) c.delimiter

  -- The request is not all out.
  request_waits :
      (ks : List Call)
      → (length step.request == c.send_request_pos + of_request) ≡ false
      → Outcome c step
          (go_on (
            at c (c.send_request_pos + of_request) c.send_delimiter_pos ks,
            length step.request == c.send_request_pos + of_request,
          ))
          (at c (c.send_request_pos + of_request) c.send_delimiter_pos ks)
  request_waits ks f = inl (
    rw f refl,
    ground (
      arith,
      f,
      honest,
      length-append request_left (drop c.send_delimiter_pos c.delimiter),
      length-drop (c.send_request_pos + of_request) step.request,
    ),
  )

  -- The request is out.
  request_done :
      (ks ks' : List Call)
      → (length step.request == c.send_request_pos + of_request) ≡ true
      → send_delimiter (at c (c.send_request_pos + of_request) c.send_delimiter_pos ks) of_delimiter
        ≡ (
          at c (c.send_request_pos + of_request) (c.send_delimiter_pos + of_delimiter) ks',
          length c.delimiter == c.send_delimiter_pos + of_delimiter,
        )
      → Outcome c step
          (go_on (
            at c (c.send_request_pos + of_request) c.send_delimiter_pos ks,
            length step.request == c.send_request_pos + of_request,
          ))
          (at c (c.send_request_pos + of_request) (c.send_delimiter_pos + of_delimiter) ks')
  request_done ks ks' t e =
      let count = length-append request_left delimiter_left in
      let left = length-drop (c.send_delimiter_pos + of_delimiter) c.delimiter in
      elim (Bool-cases (length c.delimiter == c.send_delimiter_pos + of_delimiter)) [
        | inr f ↦
            inl
              (rw t (ap (λ d. finish d) e ∙ rw f refl), ground (arith, f, honest_too, count, left))
        | inl u ↦ inr (
          rw t (ap (λ d. finish d) e ∙ rw (u, current) refl),
          ap (λ xs. xs ++ delimiter_left) (drop_all _ step.request (ground (arith, t)))
              ∙ drop_all _ c.delimiter (ground (arith, u)),
        )
      ]

  -- While a script runs, each run of the sender offers the pipe, by modem_pipe_transmit, the rest of the
  -- request, and if all of the request is out then the rest of the delimiter, each from the first byte
  -- that has not been taken to its end, and neither if nothing of it is left. The bytes that the pipe
  -- takes off the front of what it is offered come off the front of what is left to send, and no byte
  -- is sent twice or left out. The sender is scheduled again as long as a byte is left, and goes on
  -- with the step as soon as none is. The pipe takes no more than it is offered, and a request is
  -- shorter than 65536 bytes.
  pub script_send_handler-left_of :
      (c' : Chat) × (c'.calls ≡ offers_of c step of_request)
      × (taken_of c step of_request of_delimiter ++ left_of c' step ≡ left_of c step)
      × Outcome c step (script_send_handler c of_request of_delimiter) c'
  script_send_handler-left_of =
      let ks = offers (drop c.send_request_pos step.request) c.calls in
      let e = send_request_lem c step current of_request size honest in
      let after = at c (c.send_request_pos + of_request) c.send_delimiter_pos ks in
      let ks' = offers (drop c.send_delimiter_pos c.delimiter) ks in
      let e' = send_delimiter_lem after of_delimiter honest_too in
      let runs = handler-go_on ∙ ap (λ o. o >>= λ r. go_on r) e in
      elim (Bool-cases (length step.request == c.send_request_pos + of_request)) [
        | inr f ↦ (
          after,
          rw f refl,
          rw f
              (one_left _ request_left _ _ (taken_then c.send_request_pos of_request step.request)),
          subst (λ o. Outcome c step o after) (sym runs) (request_waits ks f),
        )
        | inl t ↦ (
          at c (c.send_request_pos + of_request) (c.send_delimiter_pos + of_delimiter) ks',
          rw t refl,
          rw t (
              none_left _ request_left _ _ _ _ (drop_all _ step.request (ground (arith, t)))
                (taken_then c.send_request_pos of_request step.request)
                (taken_then c.send_delimiter_pos of_delimiter c.delimiter)),
          subst
              (λ o.
                Outcome c step o (
                  at c (c.send_request_pos + of_request) (c.send_delimiter_pos + of_delimiter) ks'))
              (sym runs) (request_done ks ks' t e'),
        )
      ]
