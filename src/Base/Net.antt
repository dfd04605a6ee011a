-- ===== src/Base/Net.antt =====
-- The network packets of Zephyr (net/net_pkt.h), as a parameter. `Pkt` is a packet with its cursor:
-- `whole` is all its data, `rest` is what stands at and behind the cursor, and `room` is
-- net_pkt_available_buffer. The laws are the documented behaviour.
use Prim.Native.Nat.{◌≤◌, ℕ, ◌+◌, ◌-◌, ◌<◌}
use mathlib.Core.Path.{◌≡◌}
use mathlib.Core.Bool.{Bool, true}
use mathlib.Core.Option.{Option, some}
use mathlib.Core.List.{List, [], ◌∷◌, ◌++◌}
use modem_modules.Base.Lists.{length, take}

pub data Family : Type 0 where
  inet inet6 other : Family

pub record NetPkt (Pkt : Type 0) : Type 0 where
  pub whole : Pkt → List ℕ
  pub rest : Pkt → List ℕ
  pub is_ppp : Pkt → Bool
  pub family : Pkt → Family
  pub room : Pkt → ℕ
  pub cursor_init : Pkt → Pkt
  pub read_u8 : Pkt → Option (ℕ × Pkt)
  pub write_u8 : Pkt → ℕ → Option Pkt
  pub remove_tail : Pkt → ℕ → Pkt
  pub set_ppp : Pkt → Pkt
  pub rest-cursor_init : (p : Pkt) → rest (cursor_init p) ≡ whole p
  pub whole-cursor_init : (p : Pkt) → whole (cursor_init p) ≡ whole p
  pub room-cursor_init : (p : Pkt) → room (cursor_init p) ≡ room p
  pub is_ppp-cursor_init : (p : Pkt) → is_ppp (cursor_init p) ≡ is_ppp p
  pub family-cursor_init : (p : Pkt) → family (cursor_init p) ≡ family p
  pub read_u8_some :
      (p : Pkt) (x : ℕ) (xs : List ℕ)
      → rest p ≡ x ∷ xs
      → (q : Pkt) × (read_u8 p ≡ some (x, q)) × (rest q ≡ xs) × (whole q ≡ whole p)
  pub write_u8_some :
      (p : Pkt) (b : ℕ)
      → 0 < room p
      → rest p ≡ []
      → (q : Pkt) × (write_u8 p b ≡ some q)
        × (whole q ≡ whole p ++ (b ∷ []))
        × (rest q ≡ [])
        × (room q + 1 ≡ room p)
  pub whole-remove_tail :
      (p : Pkt) (n : ℕ)
      → n ≤ length (whole p)
      → whole (remove_tail p n) ≡ take (length (whole p) - n) (whole p)
  pub whole-set_ppp : (p : Pkt) → whole (set_ppp p) ≡ whole p
  pub is_ppp-set_ppp : (p : Pkt) → is_ppp (set_ppp p) ≡ true
