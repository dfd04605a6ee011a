-- ===== src/Chat/Sound.antt =====
-- What holds of a chat whose script, matches and receive buffer fit each other, and the parts of the
-- chat that keep it.
pub mod Engine
pub mod Found
pub mod Line
pub mod Bytes
pub mod Work
pub mod Sending
pub mod Handled
use modem_modules.Base.{ℕ, ◌+◌, ◌≤◌, ◌<◌, ◌≡◌, true, Option, none, some, List, [], All, length}
use modem_modules.Chat.{
  Chat, Match, MatchType, Script, ScriptChat, response_match, abort_match, unsol_match,
}
use modem_modules.Chat.Engine.{matches_of, is_some}
use modem_modules.Chat.Parse.Within.{IsWithin}

-- A text that the match accepts can be saved at the end of the receive buffer without a byte of the
-- copy on the text itself.
abbrev pub IsShort : ℕ → Match → Type 0
IsShort size m = length m.match + (length m.match + 1) ≤ size

abbrev pub AreShort : ℕ → List Match → Type 0
AreShort size ms = All (IsShort size) ms

abbrev pub Fits : ℕ → Script → Type 0
Fits size s =
    AreShort size (matches_of s.abort_matches)
    × All (λ (step : ScriptChat). AreShort size step.response_matches) s.script_chats

-- The script that runs and its matches; without one, nothing is left of the last.
abbrev pub Serves : ℕ → Option Script → ℕ → List Match → List Match → Type 0
Serves size none it responses aborts = (responses ≡ []) × (aborts ≡ [])
Serves size (some s) it responses aborts =
    (it < length s.script_chats) × AreShort size responses × AreShort size aborts × Fits size s

-- A line that began as a response or an abort match ends while a script runs.
abbrev pub Awaits : Option Match → MatchType → Option Script → Type 0
Awaits none t script = Unit {0}
Awaits (some m) unsol_match script = Unit {0}
Awaits (some m) _ script = is_some script ≡ true

pub record IsFitted (c : Chat) : Type 0 where
  pub inside : IsWithin c.parser
  pub room : 2 ≤ c.argv_size
  pub delimited : 0 < length c.delimiter
  pub short : AreShort c.receive_buf_size c.unsol_matches

pub record IsServed (c : Chat) : Type 0 where
  pub fitted : IsFitted c
  pub serves :
      Serves c.receive_buf_size c.script c.script_chat_it c.response_matches c.abort_matches

pub record IsSound (c : Chat) : Type 0 where
  pub served : IsServed c
  pub awaits : Awaits c.parse_match c.parse_match_type c.script
