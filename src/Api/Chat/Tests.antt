-- ===== src/Api/Chat/Tests.antt =====
-- The theorem on the chat at a concrete prompt.
use dspark_edge.Base.{arith, ℕ, ◌≡◌, refl, true, none, some, List, [], ◌∷◌, ◌++◌, if◌then◌else◌}
use dspark_edge.Base.Text.{Text, lit, text_eq, decimal, trim, is_space}
use dspark_edge.Config.{load_config, save_config}
use dspark_edge.Panels.{ChatMessage, text_part, ChatRequest, unless_blank}
use dspark_edge.Panels.Chat.{Settings, send}
use dspark_edge.Api.Chat.{ChatBody, Posts, chat_post}
use dspark_edge.Api.Chat.Laws.{prompt_reaches_server}
use dspark_edge.Samples.{
  sample_host, sample_numbers, sample_json, sample_config, IsSample, sample_json-Reads,
}

abbrev settings : Settings ℕ
settings = record { system = 32 ∷ []; temperature = 1 }

-- " h"
abbrev prompt : Text
prompt = 32 ∷ 104 ∷ []

abbrev transport : List ChatMessage → ChatRequest ℕ → ChatBody ℕ
transport ms r = record {
  messages = ms ++ record { role = lit "user"; parts = text_part r.text ∷ [] } ∷ [];
  system = r.system;
  temperature = some r.temperature;
  base = none;
}

transport-Posts : Posts transport
transport-Posts = record {
  messages = λ ms r. refl;
  system = λ ms r. refl;
  temperature = λ ms r. refl;
  base = λ ms r. refl;
}

prompt_reaches_server_example :
    let cfg' =
      load_config sample_host sample_numbers sample_json
        (save_config sample_json true sample_config none) in
    (r : ChatRequest ℕ) × (send prompt settings ≡ some r)
    × (let call = chat_post sample_numbers.text (λ ms. ms) (transport [] r) cfg' in
        (call.base_url
          ≡ (lit "http://"
              ++ ((if text_eq sample_config.server.host (lit "0.0.0.0")
                    then lit "127.0.0.1"
                    else sample_config.server.host)
                  ++ (lit ":" ++ sample_numbers.text sample_config.server.http_port)))
            ++ lit "/v1")
        × (call.messages ≡ record { role = lit "user"; parts = text_part (trim prompt) ∷ [] } ∷ [])
        × (call.system ≡ unless_blank (trim settings.system))
        × (call.temperature ≡ some 1))
prompt_reaches_server_example =
    prompt_reaches_server sample_host sample_numbers sample_json IsSample sample_json-Reads
      transport transport-Posts (λ ms. ms) sample_config none [] prompt settings refl
      (unfold decimal in ground arith) (unfold trim is_space in refl)
