-- ===== src/Panels/Tests.antt =====
-- The panels at concrete values, and the theorems on them.
use dspark_edge.Base.{
  arith, ℕ, ◌≡◌, refl, none, some, true, List, [], ◌∷◌, ◌++◌, drop, length, leb, ltb, if◌then◌else◌,
}
use dspark_edge.Base.Text.{text_eq, lit, join, decimal}
use dspark_edge.Types.{server, stdout, error, Preset}
use dspark_edge.Process.{
  Env, Emission, start, launch, boot, push_log, push_lines, push_line, push_ring, update_status,
  set_child, clear_logs, command_line, on_data, new, blank_proc, blank_status, exit_state,
}
use dspark_edge.Process.Lines.{split_lines}
use dspark_edge.Process.Lifecycle.{core}
use dspark_edge.Store
use dspark_edge.Store.{AppState, SpecStats, SpecResponse, max_history, spec_point, poll_spec_done}
use dspark_edge.Config.{empty_server, empty_daemon}
use dspark_edge.World.{Event, initial, starts, output, exits, step, run}
use dspark_edge.Sync.{receive_all, connect}
use dspark_edge.Panels.{
  message_text, ChatMessage, text_part, other_part, messages_to_markdown, default_format,
}
use dspark_edge.Panels.StatCard.{Display}
use dspark_edge.Panels.Metrics.{Metrics, metrics_of}
use dspark_edge.Panels.Cards.{card_footer}
use dspark_edge.Panels.Cards.Laws.{crash_leaves_footer_empty}
use dspark_edge.Panels.Logs.{LogsPanel, new_panel, set_filter, logs_view}
use dspark_edge.Panels.Logs.Keys.{Ascending, keys, keys-Ascending}
use dspark_edge.Panels.Pickers.{base_name}
use dspark_edge.Samples.{sample_config, sample_env, sample_bin, sample_child, sample_numbers}

abbrev sample_message : ChatMessage
sample_message = record { role = 117 ∷ []; parts = text_part (104 ∷ []) ∷ other_part ∷ [] }

-- Two messages are set apart by an empty line.
markdown_of_two :
    messages_to_markdown (λ c. c ∷ []) (sample_message ∷ sample_message ∷ [])
    ≡ lit "**u:** h" ++ 10 ∷ 10 ∷ lit "**u:** h"
unfolding messages_to_markdown default_format message_text join lit
markdown_of_two = refl

name_of_path : base_name (lit "/models/a.gguf") ≡ lit "a.gguf"
unfolding base_name lit
name_of_path = refl

-- A store that has loaded its configuration and one preset.
abbrev sample_preset : Preset ℕ
sample_preset = record {
  id = 112 ∷ [];
  label = 80 ∷ [];
  arch = 97 ∷ [];
  blurb = [];
  server = record empty_server { ctx_size = some 4096 };
  daemon = empty_daemon;
}

abbrev ready : AppState ℕ
ready = record Store.initial { config = some sample_config; presets = sample_preset ∷ [] }

abbrev sample_display : Display ℕ
sample_display = record {
  to_fixed = λ digits n. decimal n;
  to_locale = decimal;
  least = λ a b. if leb a b then a else b;
  most = λ a b. if leb a b then b else a;
  is_positive = ltb 0;
}

abbrev sample_stats : SpecStats ℕ
sample_stats = record {
  connected = true;
  edge_host = [];
  draft_blocks = some 3;
  draft_tokens = some 21;
  accepted_tokens = some 12;
  acceptance_rate = none;
  avg_edge_draft_ms = some 30;
  avg_grpc_ms = some 40;
  fallback_steps = some 0;
}

abbrev sample_reply : SpecResponse ℕ
sample_reply = record { base = []; reachable = true; spec = some sample_stats }

abbrev sample_metrics : Metrics ℕ
sample_metrics =
    metrics_of sample_numbers sample_display (some sample_reply) sample_stats [] (record {
      draft_blocks = 3;
      draft_tokens = 21;
      accepted_tokens = 12;
      avg_edge_draft_ms = 30;
      avg_grpc_ms = 40;
      fallback_steps = 0;
    })

-- A server that writes a line and is killed.
abbrev line : List (Env × Event)
line = (sample_env, output server stdout (104 ∷ 10 ∷ [])) ∷ []

crash_leaves_footer_empty_example :
    let w =
      step sample_env
        (exits server 1 none (some (lit "SIGKILL")))
        (run line (step sample_env (starts server sample_bin []) initial)) in
    let k = core w.manager server in
    (k.status.state ≡ error)
    × (k.status.exit_code ≡ none)
    × (k.status.signal ≡ some (lit "SIGKILL"))
    × (card_footer k.status [] ≡ none)
crash_leaves_footer_empty_example =
    crash_leaves_footer_empty sample_env sample_env server sample_bin [] initial sample_child line
      none (some (lit "SIGKILL")) [] (unfold initial new blank_proc blank_status in refl) refl refl
      (ground arith) (tt, tt) (unfold exit_state lit text_eq in refl)

-- A server runs when the browser connects, and writes two lines in one chunk.
abbrev before : List (Env × Event)
before = (sample_env, starts server sample_bin []) ∷ []

abbrev talk : List (Env × Event)
talk = (sample_env, output server stdout (104 ∷ 10 ∷ 105 ∷ 10 ∷ [])) ∷ []

abbrev later : List Emission
later =
    drop (length (run before initial).manager.emitted)
      (run talk (run before initial)).manager.emitted

abbrev on_server : LogsPanel
on_server = set_filter (some server) new_panel

keys-Ascending_example : Ascending 0 (
    keys
      (logs_view on_server
        (receive_all later (connect (run before initial).manager ready)).logs).body)
keys-Ascending_example = keys-Ascending before talk ready later on_server (
    unfold run step start launch boot push_log push_lines push_line push_ring update_status
      set_child clear_logs command_line join on_data split_lines lit initial new blank_proc
      blank_status in
    refl)
