-- ===== src/Cellular/Scripts.antt =====
-- The chat of modem_cellular.c and its scripts, with the macros of include/zephyr/modem/chat.h that
-- define matches and steps. The access point, its user and its password are configuration values.
use Prim.Native.Char.{code}
use Prim.Native.String.{String}
use modem_modules.Base.{ℕ, Bool, true, false, List, [], ◌∷◌, ◌++◌, some, replicate}
use modem_modules.Chat.{Match, Script, ScriptChat}
use modem_modules.Chat.Api.{Config}

-- The bytes of an ASCII text.
abbrev pub codes : String → List ℕ
codes String.[] = []
codes (String.◌∷◌ c s) = code c ∷ codes s

-- `MODEM_CHAT_MATCH`
abbrev pub match_of : String → String → Bool → Match
match_of text separators callback = record {
  match = codes text;
  separators = codes separators;
  wildcards = false;
  callback = callback;
}

-- `MODEM_CHAT_SCRIPT_CMD_RESP`
abbrev pub step_resp : List ℕ → Match → ScriptChat
step_resp request response = record {
  request = request;
  response_matches = response ∷ [];
  timeout = 0;
}

-- `MODEM_CHAT_SCRIPT_CMD_RESP_NONE`
abbrev pub step_resp_none : List ℕ → ℕ → ScriptChat
step_resp_none request timeout = record {
  request = request;
  response_matches = [];
  timeout = timeout;
}

-- `MODEM_CHAT_SCRIPT_DEFINE`
abbrev pub script_of : List ScriptChat → List Match → ℕ → Script
script_of steps aborts timeout = record {
  script_chats = steps;
  abort_matches = some aborts;
  callback = true;
  timeout = timeout;
}

abbrev pub ok_match : Match
ok_match = match_of "OK" "" false

abbrev pub imei_match : Match
imei_match = match_of "" "" true

abbrev pub cgmm_match : Match
cgmm_match = match_of "" "" true

abbrev pub creg_match : Match
creg_match = match_of "+CREG: " "," true

abbrev pub cgatt_match : Match
cgatt_match = match_of "+CGATT: " "," true

abbrev pub connect_match : Match
connect_match = match_of "CONNECT " "" false

abbrev pub abort_matches : List Match
abort_matches =
    match_of "ERROR" "" false
    ∷ match_of "BUSY" "" false
    ∷ match_of "NO ANSWER" "" false
    ∷ match_of "NO CARRIER" "" false
    ∷ match_of "NO DIALTONE" "" false
    ∷ []

abbrev pub init_chat_script_cmds : List ScriptChat
init_chat_script_cmds =
    step_resp_none (codes "AT") 100
    ∷ step_resp_none (codes "AT") 100
    ∷ step_resp_none (codes "AT") 100
    ∷ step_resp_none (codes "AT") 100
    ∷ step_resp (codes "ATE0") ok_match
    ∷ step_resp (codes "ATH") ok_match
    ∷ step_resp (codes "AT+CMEE=1") ok_match
    ∷ step_resp (codes "AT+CREG=0") ok_match
    ∷ step_resp (codes "AT+CGSN") imei_match
    ∷ step_resp [] ok_match
    ∷ step_resp (codes "AT+CGMM") cgmm_match
    ∷ step_resp [] ok_match
    ∷ step_resp (codes "AT+CMUX=0,0,5,127,10,3,30,10,2") ok_match
    ∷ []

abbrev pub init_chat_script : Script
init_chat_script = script_of init_chat_script_cmds abort_matches 10

abbrev pub net_stat_chat_script_cmds : List ScriptChat
net_stat_chat_script_cmds =
    step_resp (codes "AT+CREG?") creg_match
    ∷ step_resp [] ok_match
    ∷ step_resp (codes "AT+CGATT?") cgatt_match
    ∷ step_resp [] ok_match
    ∷ []

abbrev pub net_stat_chat_script : Script
net_stat_chat_script = script_of net_stat_chat_script_cmds abort_matches 10

abbrev pub quoted : List ℕ → List ℕ
quoted text = 34 ∷ (text ++ (34 ∷ []))

module _ (apn username password : List ℕ) where
  abbrev pub connect_chat_script_cmds : List ScriptChat
  connect_chat_script_cmds =
      step_resp
        (codes "AT+CGDCONT=1,"
          ++ (quoted (codes "IP")
              ++ (44 ∷ (quoted apn ++ (44 ∷ (quoted username ++ (44 ∷ quoted password)))))))
        ok_match
      ∷ step_resp (codes "ATD*99#") connect_match
      ∷ []

  abbrev pub connect_chat_script : Script
  connect_chat_script = script_of connect_chat_script_cmds abort_matches 120

-- The configuration of the chat; its delimiter and its filter are those of the device.
abbrev pub chat_config : Config
chat_config = record {
  receive_buf = replicate 128 0;
  delimiter = b'\r' ∷ [];
  filter = b'\n' ∷ [];
  argv_size = 32;
  unsol_matches = [];
  process_timeout = 2;
}
