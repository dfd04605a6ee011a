-- ===== src/Ppp/Packets.antt =====
-- The ring of packets that wait to be sent: `modem_ppp_tx_net_pkt_buf_put` and
-- `modem_ppp_tx_net_pkt_buf_get`. `none` is an index outside the array. A mutex is taken around each
-- and is not modelled.
pub mod Queue
use modem_modules.Base.{
  ℕ, zero, suc, ◌+◌, ◌%◌, Bool, true, false, Option, none, some, List, [], ◌∷◌, ◌==◌, if◌then◌else◌,
  ◌>>=◌, get_elem?, set,
}
use modem_modules.Ppp.{Ring}

-- The index behind `next`, round the end.
abbrev pub advance : ℕ → ℕ → ℕ
advance size next = if next + 1 == size then 0 else next + 1

module _ {A : Type 0} where
  -- The loop of `put`: `n` bounds its rounds, one for each slot, and `size` rounds come
  -- back to the tail.
  pub put_from : ℕ → Ring A → A → ℕ → Option (Ring A × Bool)
  put_from zero r a next = none
  put_from (suc n) r a next =
      let more = put_from n r a (advance r.size next) in
      get_elem? r.slots next >>= λ slot. elim slot [
        | none ↦ some (record r { slots = set r.slots next (some a) }, true)
        | some _ ↦ if advance r.size next == r.tail then some (r, false) else more
      ]

  pub put : Ring A → A → Option (Ring A × Bool)
  unfolding put_from
  put r a = put_from r.size r a r.tail

  -- The packet at the tail, if there is one.
  pub get : Ring A → Option (Ring A × Option A)
  get r = get_elem? r.slots r.tail >>= λ slot. elim slot [
    | none ↦ some (r, none)
    | some a ↦
        some (record r { slots = set r.slots r.tail none; tail = advance r.size r.tail }, some a)
  ]
