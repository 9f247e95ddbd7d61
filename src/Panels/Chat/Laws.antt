-- ===== src/Panels/Chat/Laws.antt =====
-- What the chat panel sends.
use dspark_edge.Base.{◌≡◌, refl, true, some, [], ◌∷◌}
use dspark_edge.Base.Text.{Text, trim, is_set}
use dspark_edge.Panels.{unless_blank, chat_submit}
use dspark_edge.Panels.Chat.{Settings, send}

unless_blank_set : (t : Text) → is_set t ≡ true → unless_blank t ≡ some t
unless_blank_set [] h = absurd (cc)
unless_blank_set (c ∷ t) h = refl

-- A text that is not blank is sent, trimmed, with the settings of the panel.
pub send_set :
    {N : Type 0} (text : Text) (s : Settings N)
    → is_set (trim text) ≡ true
    → send text s
      ≡ some (record {
        text = trim text;
        system = unless_blank (trim s.system);
        temperature = s.temperature;
      })
unfolding send chat_submit
send_set text s h = rw (unless_blank_set (trim text) h) refl
