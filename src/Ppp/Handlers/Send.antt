-- ===== src/Ppp/Handlers/Send.antt =====
-- The packets that the network gives to a PPP link to send.
use modem_modules.Base.{
  ◌<◌, ◌≡◌, ◌⊎◌, inl, inr, Bool, Bool-cases, true, false, some, List, [], ◌∷◌, ◌++◌, arith, length,
  ltb, ◌||◌, ◌&&◌, not, ret, fail, eperm, enomem, enodata, eprotonosupport,
}
use modem_modules.Base.Net.{NetPkt}
use modem_modules.Ppp.{Ppp, ref, unref, submit_send}
use modem_modules.Ppp.Packets.Queue.{IsQueue, with_last, put-IsQueue}
use modem_modules.Ppp.Handlers.{is_inet, api_send}

module _ {Pkt : Type 0} ⦃net : NetPkt Pkt⦄ where
  -- A packet that the link takes: one with a protocol that it knows and with data.
  abbrev pub is_sendable : Pkt → Bool
  is_sendable k =
      (net.is_ppp k || is_inet k)
      && not ((ltb (length (net.whole k)) 2 && net.is_ppp k) || ltb (length (net.whole k)) 1)

module _ {Pkt Rb : Type 0} ⦃net : NetPkt Pkt⦄ where
  -- `modem_ppp_ppp_api_send` refuses a packet that the link does not take, or while it is not
  -- attached, and changes nothing; with a full queue it answers -ENOMEM, gives back the reference
  -- that it took and leaves the queue; otherwise the packet stands at the end of the queue with one
  -- reference taken, and the send work is submitted.
  pub api_send-IsQueue :
      (p : Ppp Pkt Rb) (q : List Pkt) (k : Pkt)
      → IsQueue p.packets q
      → (((p.is_attached && is_sendable k) ≡ false)
          × ((api_send p k ≡ some (p, fail eperm))
              ⊎ (api_send p k ≡ some (p, fail eprotonosupport))
              ⊎ (api_send p k ≡ some (p, fail enodata))))
        ⊎ (((p.is_attached && is_sendable k) ≡ true)
            × (length q ≡ p.packets.size)
            × (api_send p k ≡ some (record p { calls = unref k ∷ ref k ∷ p.calls }, fail enomem)))
        ⊎ (((p.is_attached && is_sendable k) ≡ true)
            × (length q < p.packets.size)
            × (api_send p k
                ≡ some (
                  record p {
                    packets = with_last p.packets q k;
                    calls = submit_send ∷ ref k ∷ p.calls;
                  },
                  ret 0,
                ))
            × IsQueue (with_last p.packets q k) (q ++ (k ∷ [])))
  unfolding api_send
  api_send-IsQueue p q k v = elim (Bool-cases p.is_attached) [
    | inr off ↦ inl (ground (arith, off), inl (ground (arith, off)))
    | inl on ↦ elim (Bool-cases (net.is_ppp k || is_inet k)) [
      | inr unknown ↦ inl (ground (arith, on, unknown), inr (inl (ground (arith, on, unknown))))
      | inl known ↦
          elim (Bool-cases
            ((ltb (length (net.whole k)) 2 && net.is_ppp k) || ltb (length (net.whole k)) 1)) [
              | inl short ↦
                  inl (ground (arith, on, short), inr (inr (ground (arith, on, known, short))))
              | inr long ↦ elim (put-IsQueue p.packets q k v) [
                | inl (full, e) ↦ inr (
                    inl (ground (arith, on, known, long), full, ground (arith, on, known, long, e)))
                | inr (room, e, w) ↦ inr (
                    inr (
                      ground (arith, on, known, long),
                      room,
                      ground (arith, on, known, long, e),
                      w,
                    ))
              ]
            ]
    ]
  ]
