-- ===== src/Api/Chat/Laws.antt =====
-- What of the chat panel reaches llama-server.
use dspark_edge.Base.{◌≡◌, ap, ◌∙◌, if◌then◌else◌, true, Option, none, some, List, [], ◌∷◌, ◌++◌}
use dspark_edge.Base.Text.{Text, lit, text_eq, trim, is_set}
use dspark_edge.Numbers.{Numbers}
use dspark_edge.Types.{DashboardConfig}
use dspark_edge.Config.{Host, Json, load_config, save_config}
use dspark_edge.Config.Laws.{Reads, load_config-save_config}
use dspark_edge.Panels.{ChatMessage, text_part, ChatRequest, unless_blank}
use dspark_edge.Panels.Chat.{Settings, send}
use dspark_edge.Panels.Chat.Laws.{send_set}
use dspark_edge.Api.Urls.{chat_url}
use dspark_edge.Api.Urls.Laws.{NoSlashEnd, chat_url_own}
use dspark_edge.Api.Chat.{ChatBody, Posts, chat_post}

-- A text of the chat that is not blank becomes a call of the server at the host and the port of the
-- saved configuration, or on this machine if the host is 0.0.0.0, with the conversation and, last,
-- the user's message with the text trimmed, with the system prompt trimmed, unless it is blank, and
-- with the temperature; given that the SDK's transport posts what it is given (`Posts`), that the
-- configuration is one that JSON can write as it is (`fits`), and that the port's text does not end
-- in a slash.
pub prompt_reaches_server :
    {N M : Type 0} (h : Host) (num : Numbers N) (json : Json N) (fits : DashboardConfig N → Type 0)
    (reads : Reads json fits) (transport : List ChatMessage → ChatRequest N → ChatBody N)
    (posts : Posts transport) (convert : List ChatMessage → M) (cfg : DashboardConfig N)
    (file : Option Text) (ms : List ChatMessage) (text : Text) (s : Settings N)
    → fits cfg
    → NoSlashEnd (num.text cfg.server.http_port)
    → is_set (trim text) ≡ true
    → let cfg' = load_config h num json (save_config json true cfg file) in
      (r : ChatRequest N) × (send text s ≡ some r)
      × (let call = chat_post num.text convert (transport ms r) cfg' in
          (call.base_url
            ≡ (lit "http://"
                ++ ((if text_eq cfg.server.host (lit "0.0.0.0")
                      then lit "127.0.0.1"
                      else cfg.server.host)
                    ++ (lit ":" ++ num.text cfg.server.http_port)))
              ++ lit "/v1")
          × (call.messages
              ≡ convert
                  (ms ++ record { role = lit "user"; parts = text_part (trim text) ∷ [] } ∷ []))
          × (call.system ≡ unless_blank (trim s.system))
          × (call.temperature ≡ some s.temperature))
unfolding chat_post
prompt_reaches_server h num json fits reads transport posts convert cfg file ms text s f plain set =
    let r : ChatRequest _ = record {
      text = trim text;
      system = unless_blank (trim s.system);
      temperature = s.temperature;
    } in
    (
      r,
      send_set text s set,
      (
        ap (λ b. chat_url num.text b (load_config h num json (save_config json true cfg file)))
              (posts.base ms r)
            ∙ (ap (chat_url num.text none)
                  (load_config-save_config h num json fits reads cfg file f)
                ∙ chat_url_own num.text cfg plain),
        ap convert (posts.messages ms r),
        posts.system ms r,
        posts.temperature ms r,
      ),
    )
