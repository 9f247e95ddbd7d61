-- ===== src/Panels/Chat.antt =====
-- The chat panel (tools/llama-dspark-test-ui/components/dashboard/chat-panel.tsx): its settings, what
-- it shows, and what it sends. The messages, the status and the error are the AI SDK's.
pub mod Laws
use dspark_edge.Base.{
  ℕ, ◌≡◌, Bool, true, false, not, Option, none, some, List, [], ◌∷◌, ◌++◌, map, if◌then◌else◌,
  get_elem?,
}
use dspark_edge.Base.Text.{Text, lit, text_eq, trim, is_set}
use dspark_edge.Types.{ProcState, DashboardConfig}
use dspark_edge.Process.{is_running}
use dspark_edge.Prompt.Keys.{ChatStatus, is_generating}
use dspark_edge.Store.{AppState}
use dspark_edge.Panels.{ChatMessage, Part, text_part, other_part, ChatRequest, chat_submit}
use dspark_edge.Panels.StatCard.{Display}
use dspark_edge.Panels.Notices.{Toast, failure}
use dspark_edge.Panels.Pickers.{base_name}

-- `SUGGESTIONS`
unfoldable pub suggestions : List Text
suggestions =
    lit "Explain speculative decoding in two sentences."
    ∷ lit "Write a haiku about fast inference."
    ∷ lit "def fibonacci(n):"
    ∷ lit "The capital of France is"
    ∷ []

-- The panel's own state: the system prompt and the temperature.
pub record Settings (N : Type 0) : Type 0 where
  pub system : Text
  pub temperature : N

-- What the slider hands on: a number, or a list of numbers of which the first counts.
pub data Slid (N : Type 0) : Type 0 where
  one : N → Slid N
  several : N → List N → Slid N

-- A part of a message as it is shown: rendered as Markdown, or as it is.
pub data Shown : Type 0 where
  rendered plain : Text → Shown

-- What the list holds: the greeting with its suggestions, or messages.
pub data Talk : Type 0 where
  greeting : (title : Text) → (description : Text) → List Text → Talk
  messages : List (Text × List Shown) → Talk

pub record ChatView : Type 0 where
  pub model_name : Text
  pub clear_enabled : Bool
  pub talk : Talk
  pub error : Option Text
  pub placeholder : Text
  pub hint : Text
  pub stops : Bool

abbrev pub or_text : Text → Text → Text
or_text [] t = t
or_text (c ∷ s) t = c ∷ s

abbrev pub shown_part : (assistant : Bool) → Part → List Shown
shown_part true (text_part t) = rendered t ∷ []
shown_part false (text_part t) = plain t ∷ []
shown_part assistant other_part = []

abbrev pub shown_parts : Bool → List Part → List Shown
shown_parts assistant [] = []
shown_parts assistant (p ∷ ps) = shown_part assistant p ++ shown_parts assistant ps

abbrev pub shown_message : ChatMessage → Text × List Shown
shown_message m = (m.role, shown_parts (text_eq m.role (lit "assistant")) m.parts)

abbrev pub talk_of : Bool → List ChatMessage → Talk
talk_of running [] =
    if running
    then greeting (lit "Send a message")
        (lit "Prompts stream through llama-server's OpenAI-compatible endpoint.") suggestions
    else greeting (lit "Start the target server first")
        (lit "The chat talks to /v1/chat/completions on the target server.") suggestions
talk_of running (m ∷ ms) = messages (map shown_message (m ∷ ms))

-- `onError` of the chat.
pub chat_error : Text → Toast
chat_error msg =
    failure (lit "Chat error") (some (or_text msg (lit "Is the target server running?")))

module _ {N : Type 0} where
  pub set_system : Text → Settings N → Settings N
  set_system t s = record s { system = t }

  pub set_temperature : Slid N → Settings N → Settings N
  set_temperature (one v) s = record s { temperature = v }
  set_temperature (several v vs) s = record s { temperature = v }

  abbrev pub target_model : Option (DashboardConfig N) → Text
  target_model none = []
  target_model (some c) = c.server.target_model

  -- `submit` on the panel's settings.
  pub send : Text → Settings N → Option (ChatRequest N)
  send text s = chat_submit text s.system s.temperature

  pub chat_view :
      Display N → AppState N → Settings N → List ChatMessage → ChatStatus → Option Text → ChatView
  chat_view display st s ms status err =
      let running = is_running st.status.server.state in
      record {
        model_name = or_text (base_name (target_model st.config)) (lit "target model");
        clear_enabled = is_any ms;
        talk = talk_of running ms;
        error = err;
        placeholder =
            if running then lit "Message the target model…" else lit "Start the server to chat…";
        hint =
            lit "temp "
            ++ (display.to_fixed 2 s.temperature
                ++ (if is_set (trim s.system) then lit " · system set" else []));
        stops = is_generating status;
      }
    where
      is_any : List ChatMessage → Bool
      is_any [] = false
      is_any (m ∷ ms) = true
