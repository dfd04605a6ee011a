-- ===== src/Uart/Reading.antt =====
-- No byte is lost, doubled or moved between the two receive buffers.
use modem_modules.Base.{
  take-drop, ℕ, ◌-◌, ◌≡◌, refl, sym, ap, ◌∙◌, Bool, true, false, not, List, [], ◌∷◌, ◌++◌, Option,
  RingBuf, arith, ◌==◌, if◌then◌else◌, length, take, drop, append_assoc, append-nil,
}
use modem_modules.Uart.{Uart, receive_rdb, with_rdb, is_empty, interrupts, read_rdb, swap, receive}
use modem_modules.Uart.Receive.{
  Gains, AreCalm, waiting, brought, interrupts-Gains, rdb_written, rdb_kept, used_same,
}

not-not : (b : Bool) → not (not b) ≡ b
not-not true = refl
not-not false = refl

nothing_left : (xs : List ℕ) → (length xs == 0) ≡ true → xs ≡ []
nothing_left [] e = refl
nothing_left (x ∷ xs) e = absurd (ground (arith, e))

module _ {Rb : Type 0} ⦃ring : RingBuf Rb⦄ where
  -- What comes while the backend is read: behind the swap only if there is one.
  abbrev pub first_read : Uart Rb → ℕ → List (ℕ → Option (List ℕ)) → Uart Rb
  first_read u size before = interrupts (read_rdb u (not u.receive_rdb_used) size).0 before

  abbrev pub is_swapped : Uart Rb → Bool
  is_swapped u = is_empty (receive_rdb (not u.receive_rdb_used) u)

  abbrev pub came : Uart Rb → ℕ → List (ℕ → Option (List ℕ)) → List (ℕ → Option (List ℕ)) → List ℕ
  came u size before behind =
      let u1 = first_read u size before in
      let late = brought (swap u1) behind in
      brought (read_rdb u (not u.receive_rdb_used) size).0 before
      ++ (if is_swapped u1 then late else [])

  waiting-Gains : (u u' : Uart Rb) (bs : List ℕ) → Gains u u' bs → waiting u' ≡ waiting u ++ bs
  waiting-Gains u u' bs g =
      ap (λ s. ring.contents (receive_rdb (not s) u') ++ ring.contents (receive_rdb s u'))
        g.same_used
      ∙ (ap (λ rb. ring.contents rb ++ ring.contents (receive_rdb u.receive_rdb_used u'))
            g.same_idle
          ∙ (ap (λ xs. ring.contents (receive_rdb (not u.receive_rdb_used) u) ++ xs) g.filled
              ∙ sym (
                  append_assoc (ring.contents (receive_rdb (not u.receive_rdb_used) u))
                    (ring.contents (receive_rdb u.receive_rdb_used u)) bs)))

  -- The buffer that interrupts do not fill is written.
  waiting-drained :
      (u : Uart Rb) (rb : Rb)
      → waiting (with_rdb (not u.receive_rdb_used) rb u)
        ≡ ring.contents rb ++ ring.contents (receive_rdb u.receive_rdb_used u)
  waiting-drained u rb =
      let s = u.receive_rdb_used in
      let r = with_rdb (not s) rb u in
      ap (λ t. ring.contents (receive_rdb (not t) r) ++ ring.contents (receive_rdb t r))
        (used_same (not s) rb u)
      ∙ (ap (λ x. ring.contents x ++ ring.contents (receive_rdb s r)) (rdb_written (not s) rb u)
          ∙ ap (λ x. ring.contents rb ++ ring.contents x) (rdb_kept s rb u))

  -- A read takes the oldest bytes.
  read_first :
      (u : Uart Rb) (size : ℕ)
      → ring.get (receive_rdb (not u.receive_rdb_used) u) size
          ++ waiting (read_rdb u (not u.receive_rdb_used) size).0
        ≡ waiting u
  read_first u size =
      let idle = receive_rdb (not u.receive_rdb_used) u in
      let newer = ring.contents (receive_rdb u.receive_rdb_used u) in
      let old = ring.contents idle in
      ap (λ xs. ring.get idle size ++ xs) (waiting-drained u (ring.consume idle size))
      ∙ (ap (λ xs. xs ++ (ring.contents (ring.consume idle size) ++ newer)) (ring.get_lem idle size)
          ∙ (ap (λ xs. take size old ++ (xs ++ newer)) (ring.contents-consume idle size)
              ∙ (sym (append_assoc (take size old) (drop size old) newer)
                  ∙ ap (λ xs. xs ++ newer) (take-drop size old))))

  waiting-swap : (u : Uart Rb) → is_swapped u ≡ true → waiting (swap u) ≡ waiting u
  waiting-swap u e =
      let newer = ring.contents (receive_rdb u.receive_rdb_used u) in
      let idle = ring.contents (receive_rdb (not u.receive_rdb_used) u) in
      let gone : idle ≡ [] = nothing_left idle e in
      ap (λ s. ring.contents (receive_rdb s u) ++ idle) (not-not u.receive_rdb_used)
      ∙ (ap (λ xs. newer ++ xs) gone ∙ (append-nil newer ∙ ap (λ xs. xs ++ newer) (sym gone)))

  module _ (u : Uart Rb) (size : ℕ) (before behind : List (ℕ → Option (List ℕ)))
      (calm : AreCalm (read_rdb u (not u.receive_rdb_used) size).0 before)
      (calm_behind : AreCalm (swap (first_read u size before)) behind) where
    abbrev r : Uart Rb
    r = (read_rdb u (not u.receive_rdb_used) size).0

    abbrev first : List ℕ
    first = ring.get (receive_rdb (not u.receive_rdb_used) u) size

    abbrev u1 : Uart Rb
    u1 = first_read u size before

    abbrev u2 : Uart Rb
    u2 = interrupts (swap u1) behind

    -- The bytes of the first read and what waits then.
    behind_first : first ++ waiting u1 ≡ waiting u ++ brought r before
    behind_first =
        ap (λ xs. first ++ xs)
          (waiting-Gains r u1 (brought r before) (interrupts-Gains r before calm))
        ∙ (sym (append_assoc first (waiting r) (brought r before))
            ∙ ap (λ xs. xs ++ brought r before) (read_first u size))

    abbrev second : Uart Rb × List ℕ
    second = read_rdb u2 (not u2.receive_rdb_used) (size - length first)

    behind_second :
        is_swapped u1 ≡ true
        → (first ++ second.1) ++ waiting second.0
          ≡ waiting u ++ (brought r before ++ brought (swap u1) behind)
    behind_second e =
        append_assoc first second.1 (waiting second.0)
        ∙ (ap (λ xs. first ++ xs)
              (read_first u2 (size - length first)
                ∙ (waiting-Gains (swap u1) u2 (brought (swap u1) behind)
                      (interrupts-Gains (swap u1) behind calm_behind)
                    ∙ ap (λ xs. xs ++ brought (swap u1) behind) (waiting-swap u1 e)))
            ∙ (sym (append_assoc first (waiting u1) (brought (swap u1) behind))
                ∙ (ap (λ xs. xs ++ brought (swap u1) behind) behind_first
                    ∙ append_assoc (waiting u) (brought r before) (brought (swap u1) behind))))

    abbrev Balanced : List ℕ → Uart Rb × List ℕ → Type 0
    Balanced late t = t.1 ++ waiting t.0 ≡ waiting u ++ (brought r before ++ late)

    balanced :
        (b : Bool)
        → is_swapped u1 ≡ b
        → Balanced
            (if b then brought (swap u1) behind else [])
            (if not b then (u1, first) else (second.0, first ++ second.1))
    balanced true e = behind_second e
    balanced false e =
        behind_first ∙ ap (λ xs. waiting u ++ xs) (sym (append-nil (brought r before)))

    -- The backend is read while interrupts bring bytes, before the receive buffers change places and
    -- behind that. If the buffer that an interrupt fills has room each time, then the bytes that were
    -- read, followed by those that wait then, are those that waited at first, followed by those that
    -- came, in this order: none is lost, doubled or moved.
    pub receive-waiting :
        (receive u size before behind).1 ++ waiting (receive u size before behind).0
        ≡ waiting u ++ came u size before behind
    unfolding receive
    receive-waiting = balanced (is_swapped u1) refl
