-- ===== src/Cellular/Queue/Order.antt =====
-- The queue of events keeps their order.
use modem_modules.Base.{
  ℕ, ◌+◌, ◌≤◌, ◌≡◌, refl, sym, ap, ◌∙◌, some, List, [], ◌∷◌, ◌++◌, Ret, RingBuf, arith, length,
  take, take_all, length-append, append_assoc, append-nil,
}
use modem_modules.Cellular.{Cellular, Event, Call}
use modem_modules.Cellular.Machine.{event_handler, handle_events}
use modem_modules.Cellular.Queue.{
  code, event_of, delegate_event, handle_byte, handle_bytes, event_dispatch_handler,
}

abbrev pub codes : List Event → List ℕ
codes [] = []
codes (e ∷ es) = code e ∷ codes es

event_of-code : (e : Event) → event_of (code e) ≡ some e
event_of-code Event.resume = refl
event_of-code _ = refl

length-codes : (es : List Event) → length (codes es) ≡ length es
length-codes [] = refl
length-codes (e ∷ es) = omega (arith, length-codes es)

codes-append : (xs ys : List Event) → codes (xs ++ ys) ≡ codes xs ++ codes ys
codes-append [] ys = refl
codes-append (x ∷ xs) ys = ap (λ t. code x ∷ t) (codes-append xs ys)

module _ {Rb : Type 0} ⦃ring : RingBuf Rb⦄ where
  -- Events that come one after the other.
  abbrev pub delegate_events : Cellular Rb → List Event → Cellular Rb
  delegate_events d [] = d
  delegate_events d (e ∷ es) = delegate_events (delegate_event d e) es

  -- They stand in the ring behind those that wait.
  contents-delegate_events :
      (d : Cellular Rb) (es : List Event)
      → length es ≤ ring.space d.event_rb
      → ring.contents (delegate_events d es).event_rb ≡ ring.contents d.event_rb ++ codes es
  unfolding delegate_event
  contents-delegate_events d [] h = sym (append-nil (ring.contents d.event_rb))
  contents-delegate_events d (e ∷ es) h =
      let one : List ℕ = code e ∷ [] in
      let space = ring.space-put d.event_rb one in
      contents-delegate_events (delegate_event d e) es (omega (arith, h, space))
      ∙ (ap (λ xs. xs ++ codes es)
            (ring.contents-put d.event_rb one
              ∙ ap (λ ys. ring.contents d.event_rb ++ ys) (take_all _ one (omega (arith, h))))
          ∙ append_assoc (ring.contents d.event_rb) one (codes es))

module _ {Rb : Type 0} ⦃ring : RingBuf Rb⦄ (answers : List Call → Call → Ret) where
  handle_bytes-codes :
      (d : Cellular Rb) (es : List Event)
      → handle_bytes answers d (codes es) ≡ handle_events answers d es
  handle_bytes-codes d [] = refl
  handle_bytes-codes d (e ∷ es) =
      ap (λ o. handle_bytes answers (handle_byte answers d o) (codes es)) (event_of-code e)
      ∙ handle_bytes-codes (event_handler answers d e) es

  -- The ring buffer without the events that a run of the dispatcher takes.
  abbrev pub taken : Cellular Rb → Cellular Rb
  taken d = record d { event_rb = ring.consume d.event_rb 8 }

  -- Events come one after the other while others wait. If the ring buffer has room for them and no
  -- more than eight wait then, the dispatcher handles each of them once, in the order in which they
  -- came, the ones that waited first.
  pub event_dispatch_handler-delegate_events :
      (d : Cellular Rb) (waiting es : List Event)
      → ring.contents d.event_rb ≡ codes waiting
      → length es ≤ ring.space d.event_rb
      → length waiting + length es ≤ 8
      → event_dispatch_handler answers (delegate_events d es)
        ≡ handle_events answers (taken (delegate_events d es)) (waiting ++ es)
  unfolding event_dispatch_handler
  event_dispatch_handler-delegate_events d waiting es e room eight =
      let all = delegate_events d es in
      let got : ring.get all.event_rb 8 ≡ codes (waiting ++ es) =
        ring.get_lem all.event_rb 8
        ∙ (ap (take 8) (
              contents-delegate_events d es room
              ∙ (ap (λ xs. xs ++ codes es) e ∙ sym (codes-append waiting es)))
            ∙ take_all 8 (codes (waiting ++ es))
                (omega (arith, eight, length-codes (waiting ++ es), length-append waiting es))) in
      rw got (handle_bytes-codes (taken all) (waiting ++ es))
