-- ===== src/Api/Chat.antt =====
-- POST /api/chat (tools/llama-dspark-test-ui/app/api/chat/route.ts): what it asks of the AI SDK for a
-- request of the chat panel. The SDK's transport and its conversion of the messages are
-- parameters; its streaming of the answer is left to it.
pub mod Laws
mod Tests
use dspark_edge.Base.{◌≡◌, Option, none, some, List, [], ◌∷◌, ◌++◌}
use dspark_edge.Base.Text.{Text, lit}
use dspark_edge.Types.{DashboardConfig}
use dspark_edge.Panels.{ChatMessage, text_part, ChatRequest}
use dspark_edge.Api.Urls.{chat_url}

-- `ChatBody`
pub record ChatBody (N : Type 0) : Type 0 where
  pub messages : List ChatMessage
  pub system : Option Text
  pub temperature : Option N
  pub base : Option Text

-- What `createOpenAICompatible` and `streamText` are called with.
pub record Call (N M : Type 0) : Type 0 where
  pub name : Text
  pub base_url : Text
  pub api_key : Text
  pub model : Text
  pub system : Option Text
  pub temperature : Option N
  pub messages : M

-- The `onError` of the stream; `none` is a thrown value that is no `Error`.
pub stream_error : Option Text → Text
stream_error none = lit "Failed to reach llama-server. Is it running?"
stream_error (some msg) = msg

module _ {N M : Type 0} (text : N → Text) (convert : List ChatMessage → M) where
  -- The handler, with the configuration that `loadConfig` gives.
  unfoldable pub chat_post : ChatBody N → DashboardConfig N → Call N M
  chat_post body cfg = record {
    name = lit "llama-server";
    base_url = chat_url text body.base cfg;
    api_key = lit "sk-no-key-required";
    model = lit "dspark-target";
    system = body.system;
    temperature = body.temperature;
    messages = convert body.messages;
  }

-- What the chat panel relies on of `sendMessage` of the AI SDK with its `DefaultChatTransport`: the
-- body that it posts has the conversation with a user's message of the given text at its end, and
-- the fields of the `body` option beside it.
pub record Posts {N : Type 0} (transport : List ChatMessage → ChatRequest N → ChatBody N)
    : Type 0 where
  pub messages :
      (ms : List ChatMessage) (r : ChatRequest N)
      → (transport ms r).messages
        ≡ ms ++ record { role = lit "user"; parts = text_part r.text ∷ [] } ∷ []
  pub system : (ms : List ChatMessage) (r : ChatRequest N) → (transport ms r).system ≡ r.system
  pub temperature :
      (ms : List ChatMessage) (r : ChatRequest N)
      → (transport ms r).temperature ≡ some r.temperature
  pub base : (ms : List ChatMessage) (r : ChatRequest N) → (transport ms r).base ≡ none
