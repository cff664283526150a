-- ===== src/Telegram.antt =====
-- `Notifier` of src/telegram.rs, over a parameter for the HTTP client.
use realtime_ingestion.Base.{Bool, Option, none, some, [], ◌∷◌, ◌++◌, if◌then◌else◌, List}
use realtime_ingestion.Text.{Text, codes}

-- An error of reqwest, by what the program asks of it.
pub record SendError : Type 0 where
  pub is_timeout : Bool
  pub is_connect : Bool
  pub is_status : Bool

-- `client.post(url).json(object).send()`: an object of strings, and the error if there is one.
pub record HttpClient (W : Type 0) : Type 0 where
  pub post_json : Text → List (Text × Text) → W → Option SendError × W

pub record Notifier : Type 0 where
  pub bot_token : Text
  pub chat_id : Text

-- The field of the warning.
unfoldable pub error_kind : SendError → Text
error_kind e =
    if e.is_timeout
    then codes "timeout"
    else if e.is_connect
    then codes "connect"
    else if e.is_status
    then codes "status"
    else codes "unknown"

module _ {W : Type 0} (client : HttpClient W) where
  -- `notify`, with the warning that it logs.
  unfoldable pub notify : Notifier → Text → W → Option Text × W
  unfolding error_kind
  notify n message w =
      let url = codes "https://api.telegram.org/bot" ++ (n.bot_token ++ codes "/sendMessage") in
      let (e, w') =
        client.post_json url
          ((codes "chat_id", n.chat_id)
            ∷ (codes "text", message)
            ∷ (codes "parse_mode", codes "HTML")
            ∷ [])
          w in
      elim e [ none ↦ (none, w') | some x ↦ (some (error_kind x), w') ]
