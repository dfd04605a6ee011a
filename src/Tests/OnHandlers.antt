-- ===== src/Tests/OnHandlers.antt =====
-- A PPP link with a packet that waits.
use modem_modules.Base.{
  ℕ, zero, suc, ◌<◌, ◌≡◌, ◌⊎◌, ◌&&◌, refl, true, false, none, some, [], ◌∷◌, arith, length,
  get_elem?, ret, fail, eperm, enomem, enodata, eprotonosupport,
}
use modem_modules.Ppp.{
  Ppp, Ring, TransmitState, ref, unref, submit_send, cancel_send, cancel_process, pipe_release,
}
use modem_modules.Ppp.Packets.Queue.{IsQueue, slot_at, with_last}
use modem_modules.Ppp.Handlers.{release, api_send}
use modem_modules.Ppp.Handlers.Release.{release-IsQueue}
use modem_modules.Ppp.Handlers.Send.{is_sendable, api_send-IsQueue}
use modem_modules.Tests.Instances.{Buffer, Packet, packets}
use modem_modules.Tests.OnPpp.{datagram, sending}

abbrev waiting : Ppp Packet Buffer
waiting = record sending {
  packets = record { slots = none ∷ none ∷ some datagram ∷ []; size = 3; tail = 2 };
}

waiting-IsQueue : IsQueue waiting.packets (datagram ∷ [])
waiting-IsQueue = record { sized = refl; tail_in = omega arith; fits = omega arith; slot = slots }
  where
    slots :
        (i : ℕ)
        → i < 3
        → get_elem? waiting.packets.slots (slot_at 3 2 i) ≡ some (get_elem? (datagram ∷ []) i)
    slots zero h = refl
    slots (suc zero) h = refl
    slots (suc (suc zero)) h = refl
    slots (suc (suc (suc i))) h = absurd (omega arith)

release-IsQueue_example :
    (r : Ring Packet) × (release waiting
      ≡ some (record sending {
        is_attached = false;
        has_pipe = false;
        tx_pkt = none;
        transmit_state = TransmitState.idle;
        packets = r;
        calls = unref datagram ∷ unref datagram ∷ cancel_process ∷ cancel_send ∷ pipe_release ∷ [];
      }))
    × IsQueue r []
release-IsQueue_example = release-IsQueue waiting (datagram ∷ []) waiting-IsQueue refl

api_send-IsQueue_example :
    (((true && is_sendable datagram) ≡ false)
      × ((api_send waiting datagram ≡ some (waiting, fail eperm))
          ⊎ (api_send waiting datagram ≡ some (waiting, fail eprotonosupport))
          ⊎ (api_send waiting datagram ≡ some (waiting, fail enodata))))
    ⊎ (((true && is_sendable datagram) ≡ true)
        × (length (datagram ∷ []) ≡ 3)
        × (api_send waiting datagram
            ≡ some (record waiting { calls = unref datagram ∷ ref datagram ∷ [] }, fail enomem)))
    ⊎ (((true && is_sendable datagram) ≡ true)
        × (length (datagram ∷ []) < 3)
        × (api_send waiting datagram
            ≡ some (
              record waiting {
                packets = with_last waiting.packets (datagram ∷ []) datagram;
                calls = submit_send ∷ ref datagram ∷ [];
              },
              ret 0,
            ))
        × IsQueue (with_last waiting.packets (datagram ∷ []) datagram) (datagram ∷ datagram ∷ []))
api_send-IsQueue_example = api_send-IsQueue waiting (datagram ∷ []) datagram waiting-IsQueue
