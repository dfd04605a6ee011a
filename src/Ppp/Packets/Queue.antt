-- ===== src/Ppp/Packets/Queue.antt =====
-- The ring of packets is a bounded queue.
use modem_modules.Base.{
  ℕ, zero, suc, ◌+◌, ◌-◌, ◌≤◌, ◌<◌, ◌≡◌, ◌≢◌, ◌⊎◌, inl, inr, refl, sym, ap, ◌∙◌, true, false, none,
  some, List, [], ◌∷◌, ◌++◌, ◌==◌, ltb, if◌then◌else◌, arith, length, length-append, length-set,
  get_elem?, set, get_elem?-set_self, get_elem?-set_ne, get_elem?-lt, get_elem?-ge,
  get_elem?-append_last, get_elem?-append_ne,
}
use native.Mathlib.Decide.{ℕ_discrete, dec_lt}
use mathlib.Core.Path.{subst}
use modem_modules.Ppp.{Ring}
use modem_modules.Ppp.Packets.{advance, put_from, put, get}

-- The index of the packet at place `i` of the queue, round the end of the array.
abbrev pub slot_at : ℕ → ℕ → ℕ → ℕ
slot_at size tail i = if ltb (tail + i) size then tail + i else tail + i - size

slot_at-ne :
    (size tail i j : ℕ)
    → tail < size
    → i < size
    → j < size
    → i ≢ j
    → slot_at size tail i ≢ slot_at size tail j
slot_at-ne size tail i j t hi hj ne = ground arith

slot_at-suc :
    (size tail i : ℕ)
    → tail < size
    → suc i < size
    → slot_at size (advance size tail) i ≡ slot_at size tail (suc i)
slot_at-suc size tail i t h = ground arith

-- The last place of the queue that begins behind `tail` is `tail` itself.
slot_at_last :
    (size tail i : ℕ) → tail < size → suc i ≡ size → slot_at size (advance size tail) i ≡ tail
slot_at_last size tail i t h = ground arith

module _ {A : Type 0} where
  -- The ring holds the queue `q`, oldest packet first: its slots from the tail on are the packets of
  -- the queue and then empty ones.
  pub record IsQueue (r : Ring A) (q : List A) : Type 0 where
    pub sized : length r.slots ≡ r.size
    pub tail_in : r.tail < r.size
    pub fits : length q ≤ r.size
    pub slot :
        (i : ℕ) → i < r.size → get_elem? r.slots (slot_at r.size r.tail i) ≡ some (get_elem? q i)

  -- The ring with `a` behind the queue.
  abbrev pub with_last : Ring A → List A → A → Ring A
  with_last r q a = record r { slots = set r.slots (slot_at r.size r.tail (length q)) (some a) }

  put_from-lem :
      (n j : ℕ) (r : Ring A) (q : List A) (a : A)
      → IsQueue r q
      → n + j ≡ r.size
      → 0 < n
      → j ≤ length q
      → put_from n r a (slot_at r.size r.tail j)
        ≡ some (if length q == r.size then (r, false) else (with_last r q a, true))
  unfolding put_from
  put_from-lem zero j r q a v e pos le = absurd (omega arith)
  put_from-lem (suc n) j r q a v e pos le = elim (dec_lt j (length q)) [
    | yes taken ↦
        let (x, found) = get_elem?-lt q j taken in
        elim (ℕ_discrete (suc j) r.size) [
          | yes last ↦ rw (v.slot j (omega arith), found) (ground (arith, v.tail_in, v.fits))
          | no more ↦
              let next : advance r.size (slot_at r.size r.tail j) ≡ slot_at r.size r.tail (suc j) =
                ground (arith, v.tail_in) in
              let ih = put_from-lem n (suc j) r q a v (omega arith) (omega (arith, v.fits)) taken in
              rw (v.slot j (omega arith), found, next) (ground (arith, v.tail_in, ih))
        ]
    | no free ↦
        let here : j ≡ length q = omega arith in
        rw (v.slot j (omega arith), get_elem?-ge q j (omega arith)) (ground (arith, here))
  ]

  -- `modem_ppp_tx_net_pkt_buf_put` puts a packet at the end of the queue, or answers false and
  -- changes nothing when the queue fills the ring. It never reads outside the array.
  pub put-IsQueue :
      (r : Ring A) (q : List A) (a : A)
      → IsQueue r q
      → ((length q ≡ r.size) × (put r a ≡ some (r, false)))
        ⊎ ((length q < r.size)
            × (put r a ≡ some (with_last r q a, true))
            × IsQueue (with_last r q a) (q ++ (a ∷ [])))
  unfolding put
  put-IsQueue r q a v = elim (dec_lt (length q) r.size) [
    | no full ↦ inl (omega (arith, v.fits), ground (arith, v.fits, run))
    | yes room ↦ inr (
      room,
      ground (arith, run),
      record {
        sized =
            omega (arith, v.sized, length-set r.slots (slot_at r.size r.tail (length q)) (some a));
        tail_in = v.tail_in;
        fits = omega (arith, length-append q (a ∷ []));
        slot = λ i h. slots i h room;
      },
    )
  ]
    where
      run :
          put_from r.size r a r.tail
          ≡ some (if length q == r.size then (r, false) else (with_last r q a, true))
      run =
          let start : slot_at r.size r.tail 0 ≡ r.tail = ground (arith, v.tail_in) in
          subst
            (λ t.
              put_from r.size r a t
              ≡ some (if length q == r.size then (r, false) else (with_last r q a, true)))
            start
            (put_from-lem r.size 0 r q a v (omega arith) (omega (arith, v.tail_in)) (omega arith))

      slots :
          (i : ℕ)
          → i < r.size
          → length q < r.size
          → get_elem?
              (set r.slots (slot_at r.size r.tail (length q)) (some a))
              (slot_at r.size r.tail i)
            ≡ some (get_elem? (q ++ (a ∷ [])) i)
      slots i h room = elim (ℕ_discrete i (length q)) [
        | yes e ↦ rw e (
            get_elem?-set_self r.slots (slot_at r.size r.tail (length q)) (some a)
              (ground (arith, v.sized, v.tail_in))
            ∙ ap some (sym (get_elem?-append_last q a)))
        | no ne ↦
            get_elem?-set_ne r.slots (slot_at r.size r.tail (length q)) (slot_at r.size r.tail i)
              (some a) (slot_at-ne r.size r.tail (length q) i v.tail_in room h (λ e. ne (sym e)))
            ∙ v.slot i h
            ∙ ap some (sym (get_elem?-append_ne q a i ne))
      ]

  first-slot :
      (r : Ring A) (q : List A) → IsQueue r q → get_elem? r.slots r.tail ≡ some (get_elem? q 0)
  first-slot r q v =
      let start : slot_at r.size r.tail 0 ≡ r.tail = ground (arith, v.tail_in) in
      subst (λ t. get_elem? r.slots t ≡ some (get_elem? q 0)) start
        (v.slot 0 (omega (arith, v.tail_in)))

  -- The slots from the next tail on, once the head is taken.
  slot-rest :
      (r : Ring A) (a : A) (q : List A)
      → IsQueue r (a ∷ q)
      → (i : ℕ) → i < r.size
      → get_elem? (set r.slots r.tail none) (slot_at r.size (advance r.size r.tail) i)
        ≡ some (get_elem? q i)
  slot-rest r a q v i h = elim (ℕ_discrete (suc i) r.size) [
    | yes last ↦ rw (slot_at_last r.size r.tail i v.tail_in last) (
        get_elem?-set_self r.slots r.tail none (omega (arith, v.sized, v.tail_in))
        ∙ ap some (sym (get_elem?-ge q i (omega (arith, v.fits)))))
    | no more ↦
        let inside : suc i < r.size = omega arith in
        let apart : r.tail ≢ slot_at r.size r.tail (suc i) = ground (arith, v.tail_in) in
        rw (slot_at-suc r.size r.tail i v.tail_in inside) (
          get_elem?-set_ne r.slots r.tail (slot_at r.size r.tail (suc i)) none apart
          ∙ v.slot (suc i) inside)
  ]

  -- `modem_ppp_tx_net_pkt_buf_get` takes the packet at the head of the queue, and none of an empty
  -- one, which it leaves as it is. It never reads outside the array.
  pub get-IsQueue :
      (r : Ring A) (q : List A)
      → IsQueue r q
      → ((q ≡ []) × (get r ≡ some (r, none)))
        ⊎ ((a : A) × (q' : List A) × (r' : Ring A) × (q ≡ a ∷ q')
            × (get r ≡ some (r', some a))
            × IsQueue r' q'
            × (r'.size ≡ r.size))
  unfolding get
  get-IsQueue r [] v = inl (refl, rw (first-slot r [] v))
  get-IsQueue r (a ∷ q) v = inr (
    a,
    q,
    record r { slots = set r.slots r.tail none; tail = advance r.size r.tail },
    refl,
    rw (first-slot r (a ∷ q) v),
    record {
      sized = omega (arith, v.sized, length-set r.slots r.tail none);
      tail_in = ground (arith, v.tail_in);
      fits = omega (arith, v.fits);
      slot = slot-rest r a q v;
    },
    refl,
  )
